-- ===== src/Spec.antt =====
-- spec.go: the metadata that binders and routes give to documentation generators.
use grpc_composition.Common.{ℕ, Bool, List, Text, Option, codes}
use grpc_composition.Host.{Host}

-- `ParamIn`, a string, with its three constants.
abbrev pub ParamIn : Type 0
ParamIn = Text

abbrev pub in_path : ParamIn
in_path = codes "path"

abbrev pub in_query : ParamIn
in_query = codes "query"

abbrev pub in_header : ParamIn
in_header = codes "header"

pub record ParamSpec : Type 0 where
  pub location : ParamIn
  pub name : Text
  pub type_name : Text
  pub format : Text
  pub enum_values : List Text
  pub required : Bool

pub record BodySpec (H : Host) : Type 0 where
  pub proto : Option H.Message
  pub dto : Option H.GoType

pub record Doc : Type 0 where
  pub operation_id : Text
  pub summary : Text
  pub description : Text
  pub tags : List Text
  pub deprecated : Bool

pub record OperationInfo (H : Host) : Type 0 where
  pub method : Text
  pub pattern_text : Text
  pub doc : Doc
  pub success_status : ℕ
  pub params : List ParamSpec
  pub body : Option (BodySpec H)
  pub response_proto : Option H.Message
  pub response_dto : Option H.GoType
  pub marshal : H.MarshalOptions
