-- ===== src/Problem.antt =====
-- errors.go: the error body `ProblemDetails`, and what the mappers read of a gRPC status.
use grpc_composition.Common.{ℕ, List, [], Text}

-- `FieldViolation`; the google.rpc message of that name is read at the same two fields.
pub record FieldViolation : Type 0 where
  pub field : Text
  pub description : Text

-- `ProblemDetails`. A map is an association list.
pub record ProblemDetails : Type 0 where
  pub type_uri : Text
  pub title : Text
  pub status : ℕ
  pub detail : Text
  pub instance_uri : Text
  pub reason : Text
  pub errors : List FieldViolation
  pub metadata : List (Text × Text)

-- `ProblemDetails{Status: status, Title: title}`: all other fields at their zero values.
abbrev pub blank_problem : ℕ → Text → ProblemDetails
blank_problem status title = record {
  type_uri = [];
  title = title;
  status = status;
  detail = [];
  instance_uri = [];
  reason = [];
  errors = [];
  metadata = [];
}

-- The values of package codes; a number that has no name is `unnamed`.
pub data Code : Type 0 where
  code_ok canceled unknown invalid_argument deadline_exceeded not_found already_exists
        permission_denied resource_exhausted failed_precondition aborted out_of_range unimplemented
        internal unavailable data_loss unauthenticated :
      Code
  unnamed : ℕ → Code

-- google.rpc.ErrorInfo.
pub record ErrorInfo : Type 0 where
  pub reason : Text
  pub domain : Text
  pub metadata : List (Text × Text)

-- A detail attached to a status: the two messages that the program tells apart, and all others.
pub data Detail : Type 0 where
  bad_request : List FieldViolation → Detail
  error_info : ErrorInfo → Detail
  other_detail : Detail

-- What `Code()`, `Message()` and `Details()` of a `*status.Status` give.
pub record Status : Type 0 where
  pub code : Code
  pub message : Text
  pub details : List Detail

-- A value of type `any`, as the program tells such values apart: a `ProblemDetails`, a
-- `proto.Message`, or neither.
pub data Any (Message Opaque : Type 0) : Type 0 where
  problem : ProblemDetails → Any Message Opaque
  proto : Message → Any Message Opaque
  opaque : Opaque → Any Message Opaque
