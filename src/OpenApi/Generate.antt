-- ===== src/OpenApi/Generate.antt =====
-- openapi/openapi.go: `Generate` and the operations of a document.
pub mod References
pub mod Matches
pub mod Runs
pub mod Fuel
pub mod Shown
pub mod Resolved
pub mod Entries
pub mod Sound
use grpc_composition.Common.{
  ℕ, ◌+◌, ◌/◌, Bool, true, List, [], ◌∷◌, Option, none, some, Text, codes, if◌then◌else◌, is_empty,
}
use grpc_composition.Std.Strconv.Itoa.{itoa}
use grpc_composition.Std.Http.{status_text}
use grpc_composition.Host.{Host}
use grpc_composition.Spec.{BodySpec, OperationInfo}
use grpc_composition.OpenApi.{PathItem, add_operation}
use grpc_composition.OpenApi.Schema.{Schema, any_value, Parameter, add_parameters}
use grpc_composition.OpenApi.Components.{Schemas, Step, pure, bind_step}
use grpc_composition.OpenApi.Protos.{Protoreflect, proto_schema}
use grpc_composition.OpenApi.Dtos.{Reflection, dto_schema}

pub record Info : Type 0 where
  pub title : Text
  pub version : Text
  pub description : Text

pub record MediaType : Type 0 where
  pub media_schema : Schema

-- A map by content types.
abbrev pub Content : Type 0
Content = List (Text × MediaType)

pub record RequestBody : Type 0 where
  pub required : Bool
  pub content : Content

pub record Response : Type 0 where
  pub description : Text
  pub content : Content

pub record Operation : Type 0 where
  pub operation_id : Text
  pub summary : Text
  pub description : Text
  pub tags : List Text
  pub deprecated : Bool
  pub parameters : List Parameter
  pub request_body : Option RequestBody
  pub responses : List (Text × Response)

pub record Components : Type 0 where
  pub schemas : Schemas

pub record Document : Type 0 where
  pub openapi : Text
  pub info : Info
  pub paths : List (Text × PathItem Operation)
  pub components : Option Components

abbrev pub json_content : Schema → Content
json_content s = (codes "application/json", record { media_schema = s }) ∷ []

abbrev pub problem_content : Schema → Content
problem_content s = (codes "application/problem+json", record { media_schema = s }) ∷ []

module _ {H : Host} (R : Protoreflect H) (T : Reflection H) (fuel : ℕ) where
  -- `bodySchema`, on the body of the operation and its marshal options.
  unfoldable pub body_schema : BodySpec H → H.MarshalOptions → Step Schema
  unfolding proto_schema dto_schema
  body_schema body opts = elim body.proto [
    | some m ↦ proto_schema R opts fuel m
    | none ↦ elim body.dto [ some t ↦ dto_schema T fuel t | none ↦ pure any_value ]
  ]

  -- `responseSchema`.
  unfoldable pub response_schema : OperationInfo H → Step Schema
  unfolding proto_schema dto_schema
  response_schema op = elim op.response_dto [
    | some t ↦ dto_schema T fuel t
    | none ↦ elim op.response_proto [
      | some m ↦ proto_schema R op.marshal fuel m
      | none ↦ pure any_value
    ]
  ]

  -- The part of `operation` that sets `RequestBody`.
  request_body : OperationInfo H → Step (Option RequestBody)
  unfolding body_schema
  request_body op = elim op.body [
    | none ↦ pure none
    | some body ↦
        bind_step (body_schema body op.marshal)
          (λ s. pure (some (record { required = true; content = json_content s })))
  ]

  -- The part that sets `Responses`.
  responses : OperationInfo H → Step (List (Text × Response))
  unfolding response_schema itoa dto_schema
  responses op = bind_step (response_schema op) (λ s.
      bind_step (dto_schema T fuel T.problem_details) (λ p. pure (
        (
          itoa op.success_status,
          record { description = status_text op.success_status; content = json_content s },
        )
        ∷ (codes "default", record { description = codes "Error"; content = problem_content p })
        ∷ [])))

  -- `operation`.
  unfoldable pub operation : OperationInfo H → Step Operation
  unfolding request_body responses add_parameters
  operation op = bind_step (request_body op) (λ body. bind_step (responses op) (λ answers.
      pure (record {
        operation_id = op.doc.operation_id;
        summary = op.doc.summary;
        description = op.doc.description;
        tags = op.doc.tags;
        deprecated = op.doc.deprecated;
        parameters = add_parameters [] op.params;
        request_body = body;
        responses = answers;
      })))

  -- The loop of `Generate`.
  unfoldable pub generate_from :
      List (OperationInfo H)
      → List (Text × PathItem Operation)
      → Step (List (Text × PathItem Operation))
  unfolding operation add_operation
  generate_from [] paths = pure paths
  generate_from (op ∷ ops) paths =
      bind_step (operation op)
        (λ o. generate_from ops (add_operation paths op.pattern_text op.method o))

  -- `Generate`, on what `src.Operations()` returns.
  unfoldable pub generate : List (OperationInfo H) → Info → Option Document
  unfolding generate_from
  generate ops info = elim (generate_from ops [] []) [
    | none ↦ none
    | some (paths, schemas) ↦ some (record {
      openapi = codes "3.1.0";
      info = info;
      paths = paths;
      components = if is_empty schemas then none else some (record { schemas = schemas });
    })
  ]
