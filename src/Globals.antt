-- ===== src/Globals.antt =====
-- The package variables of composition.go, errors.go and bind/body.go with their setters, the
-- `Binder` interface, and what Go knows of a response type at run time.
use grpc_composition.Common.{◌*◌, ◌^◌, Option, none, some, Text, Result}
use grpc_composition.Std.Strconv.{ℤ, pos}
use grpc_composition.Host.{Host, Err, Request, Value, ErrorMapper}
use grpc_composition.Spec.{ParamSpec, BodySpec}
use grpc_composition.Errors.{rfc7807_mapper}

-- `PathExtractor`.
abbrev pub PathExtractor : Host → Type 0
PathExtractor H = Request H → Text → Text

-- `defaultPathExtractor`, `defaultMarshalOptions`, `defaultErrorMapper` and `maxBodyBytes`.
pub record Globals (H : Host) : Type 0 where
  pub path_extractor : PathExtractor H
  pub marshal : H.MarshalOptions
  pub error_mapper : ErrorMapper H
  pub max_body_bytes : ℤ

-- `Binder[Req]`: binding reads and may consume the request, and fills the message. On an error
-- nobody reads either of them again. A binder with no metadata has `none` for both specs.
pub record Binder (H : Host) (Req : Type 0) : Type 0 where
  pub bind : Globals H → Request H → Req → Result (Err H) (Req × Request H)
  pub param_spec : Option ParamSpec
  pub body_spec : Option (BodySpec H)

-- The conversion of a `*Resp` to `any`, and the prototype that `new(Resp)` is where `*Resp` is a
-- `proto.Message`.
pub record ResponseType (H : Host) (Resp : Type 0) : Type 0 where
  pub to_any : Resp → Value H
  pub prototype : Option H.Message

module _ (H : Host) where
  -- `stdlibPathExtractor`.
  abbrev pub stdlib_path_extractor : PathExtractor H
  stdlib_path_extractor r name = r.path_value name

  -- The values at program start.
  abbrev pub initial : Globals H
  initial = record {
    path_extractor = stdlib_path_extractor;
    marshal = H.plain_options;
    error_mapper = rfc7807_mapper H;
    max_body_bytes = pos (10 * 2 ^ 20);
  }

  -- `SetDefaultPathExtractor`; `none` is nil.
  unfoldable pub set_default_path_extractor : Option (PathExtractor H) → Globals H → Globals H
  set_default_path_extractor none g = record g { path_extractor = stdlib_path_extractor }
  set_default_path_extractor (some e) g = record g { path_extractor = e }

  -- `SetDefaultMarshalOptions`.
  unfoldable pub set_default_marshal_options : H.MarshalOptions → Globals H → Globals H
  set_default_marshal_options o g = record g { marshal = o }

  -- `SetDefaultErrorMapper`.
  unfoldable pub set_default_error_mapper : Option (ErrorMapper H) → Globals H → Globals H
  set_default_error_mapper none g = record g { error_mapper = rfc7807_mapper H }
  set_default_error_mapper (some fn) g = record g { error_mapper = fn }

  -- `bind.SetDefaultMaxBodyBytes`.
  unfoldable pub set_default_max_body_bytes : ℤ → Globals H → Globals H
  set_default_max_body_bytes n g = record g { max_body_bytes = n }

  -- `PathParam`.
  unfoldable pub path_param : Globals H → Request H → Text → Text
  path_param g r name = g.path_extractor r name

  -- `BinderFunc`: a function with no metadata.
  unfoldable pub binder_func :
      {Req : Type 0}
      → (Globals H → Request H → Req → Result (Err H) (Req × Request H))
      → Binder H Req
  binder_func f = record { bind = f; param_spec = none; body_spec = none }
