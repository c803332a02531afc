-- ===== src/Host.antt =====
-- What the program calls and does not implement: the gRPC and protobuf modules, reflection, JSON,
-- and the values that other code makes. Every definition takes these as one parameter.
use grpc_composition.Common.{ℕ, Bool, Text, Option}
use grpc_composition.Std.Errors
use grpc_composition.Std.Errors.{Error}
use grpc_composition.Std.Http
use grpc_composition.Problem.{Status, Any}

pub record Host : Type 1 where
  -- context.Context, proto.Message, other Go values, error values of other code, reflect.Type,
  -- protojson.MarshalOptions, and the state of the gRPC services behind the client.
  pub Context : Type 0
  pub Message : Type 0
  pub Opaque : Type 0
  pub Foreign : Type 0
  pub GoType : Type 0
  pub MarshalOptions : Type 0
  pub Backend : Type 0
  -- `Error()` of a foreign error, and whether it is or wraps an `*http.MaxBytesError`.
  pub foreign_text : Foreign → Text
  pub foreign_is_max_bytes : Foreign → Bool
  -- `status.FromError(err)`; `none` where its second result is false.
  pub from_error : Error Foreign → Option Status
  -- `MarshalOptions.Marshal` and the bytes that `json.Encoder.Encode` writes; `none` on failure.
  pub marshal : MarshalOptions → Message → Option Text
  pub encode : Any Message Opaque → Option Text
  -- The zero value of `MarshalOptions`.
  pub plain_options : MarshalOptions
  -- `strconv.Quote`, which the texts of parse errors call.
  pub quote : Text → Text

abbrev pub Err : Host → Type 0
Err H = Error H.Foreign

abbrev pub Request : Host → Type 0
Request H = Http.Request H.Context H.Foreign

abbrev pub Value : Host → Type 0
Value H = Any H.Message H.Opaque

-- `err.Error()`.
abbrev pub error_text : (H : Host) → Err H → Text
error_text H = Errors.message H.foreign_text

-- `ErrorMapper`.
abbrev pub ErrorMapper : Host → Type 0
ErrorMapper H = Err H → ℕ × Value H
