-- ===== src/Tests/Demo.antt =====
-- A concrete host: errors of a service that answers requests for one user.
use grpc_composition.Common.{
  ℕ, ◌+◌, false, [], ◌∷◌, Option, none, some, Text, codes, if◌then◌else◌, text_eq, ok, err,
}
use grpc_composition.Std.Errors.{Error, foreign, max_bytes, plain, wrap}
use grpc_composition.Problem.{
  not_found, internal, bad_request, error_info, Status, Any, problem, proto, opaque,
}
use grpc_composition.Host.{Host, Err, Request}
use grpc_composition.Globals.{Globals, ResponseType, initial}
use grpc_composition.Route.{UnaryMethod}

-- Errors of the client: a gRPC status, or a broken connection.
pub data Upstream : Type 0 where
  rpc : Status → Upstream
  broken : Upstream

abbrev status_of : Error Upstream → Option Status
status_of (foreign (rpc st)) = some st
status_of (foreign broken) = none
status_of max_bytes = none
status_of (plain _) = none
status_of (wrap _ e) = status_of e

abbrev encode_any : Any Text Text → Option Text
encode_any (problem p) = some (codes "{problem}")
encode_any (proto m) = some m
encode_any (opaque v) = some v

abbrev pub demo : Host
demo = record {
  Context = Text;
  Message = Text;
  Opaque = Text;
  Foreign = Upstream;
  GoType = Text;
  MarshalOptions = Unit {0};
  Backend = ℕ;
  foreign_text = λ _. codes "upstream";
  foreign_is_max_bytes = λ _. false;
  from_error = status_of;
  marshal = λ _ m. some m;
  encode = encode_any;
  plain_options = tt;
  quote = λ s. s;
}

abbrev pub missing_status : Status
missing_status = record {
  code = not_found;
  message = codes "no such user";
  details =
      error_info (record { reason = codes "GONE"; domain = codes "users"; metadata = [] })
      ∷ bad_request (record { field = codes "id"; description = codes "unknown" } ∷ [])
      ∷ [];
}

abbrev pub missing : Err demo
missing = foreign (rpc missing_status)

-- Two server errors that differ in all but their code.
abbrev pub secret : Err demo
secret = foreign (rpc (record { code = internal; message = codes "db at 10.0.0.7"; details = [] }))

abbrev pub other_secret : Err demo
other_secret = foreign broken

abbrev pub text_response : ResponseType demo Text
text_response = record { to_any = proto; prototype = some [] }

-- The state of the service counts its calls.
abbrev pub get_user : UnaryMethod demo Text Text
get_user _ req s =
    if text_eq req (codes "7") then (ok (codes "Alice"), s + 1) else (err missing, s + 1)

abbrev pub fail_secretly : UnaryMethod demo Text Text
fail_secretly _ req s = (err secret, s + 1)

abbrev pub globals : Globals demo
globals = initial demo

abbrev pub request : Request demo
request = record {
  context = codes "ctx";
  path_value = λ name. if text_eq name (codes "id") then codes "7" else [];
  query = (codes "limit", codes "10" ∷ []) ∷ [];
  header = (codes "X-Tenant", codes "a" ∷ codes "b" ∷ []) ∷ [];
  body = record { content = codes "{}"; failure = none };
}

abbrev pub set_text : Text → Text → Text
set_text req v = v
