-- ===== src/Route/Configured.antt =====
-- What a route answers, from the calls of the package setters and of its option methods.
use grpc_composition.Common.{
  ◌≡◌, refl, ap, ◌∙◌, inl, inr, List, ◌++◌, Option, none, some, Text, Result, ok, err, Option-cases,
  last_some, or_else,
}
use mathlib.Core.Path.{ap₂}
use grpc_composition.Std.Http.{Writer, Call}
use grpc_composition.Host.{Host, Err, Request, Value, ErrorMapper}
use grpc_composition.Errors.{rfc7807_mapper}
use grpc_composition.Globals.{Globals, Binder, ResponseType, initial}
use grpc_composition.Response.{
  json_type, answer, payload, error_type, write_error_lem, write_json_lem, write_response_lem,
}
use grpc_composition.Route.{
  UnaryMethod, Route, proxy, marshal_options, effective_mapper, bind_all, write_result, serve_http,
}
use grpc_composition.Route.Serve.{serve_http_of_ok}
use grpc_composition.Route.Settings.{
  Setting, apply_settings, marshal_setting, mapper_setting, apply_settings-Sets,
}
use grpc_composition.Route.Options.{
  RouteOption, apply_options, map_option, status_option, mapper_option, marshal_option,
  apply_options-Configures,
}

-- The bytes of a response: what a mapper makes of it, or the message itself.
abbrev pub response_body :
    (H : Host) {Resp : Type 0}
    → (Resp → Value H)
    → Option (Resp → Value H)
    → H.MarshalOptions
    → Resp
    → Option Text
response_body H to_any none o resp = payload H o (to_any resp)
response_body H to_any (some f) o resp = H.encode (f resp)

module _ (H : Host) (g : Globals H) where
  effective_mapper-or_else :
      (own : Option (ErrorMapper H)) → effective_mapper H g own ≡ or_else own g.error_mapper
  effective_mapper-or_else none = refl
  effective_mapper-or_else (some fn) = refl

  marshal_options-or_else :
      {Req Resp : Type 0} (rt : Route H Req Resp)
      → marshal_options H g rt ≡ or_else rt.marshal g.marshal
  unfolding marshal_options
  marshal_options-or_else rt = elim (Option-cases rt.marshal) [
    | inl e ↦ rw (marshal_options, e) refl
    | inr (o, e) ↦ rw (marshal_options, e) refl
  ]

  write_result_of_ok :
      {Req Resp : Type 0} (t : ResponseType H Resp) (rt : Route H Req Resp) (w : Writer)
      (resp : Resp)
      → write_result H g t rt w (ok resp)
        ≡ w
          ++ answer H json_type rt.success_status
              (response_body H t.to_any rt.mapper (marshal_options H g rt) resp)
  unfolding write_result
  write_result_of_ok t rt w resp = elim (Option-cases rt.mapper) [
    | inl e ↦
        rw (write_result, e)
          (write_response_lem H w rt.success_status (t.to_any resp) (marshal_options H g rt))
    | inr (f, e) ↦ rw (write_result, e) (write_json_lem H w rt.success_status (f resp))
  ]

module _ (H : Host) {Resp : Type 0} (settings : List (Setting H))
    (options : List (RouteOption H Resp)) where
  -- The mapper of the last `WithErrorMapper` of the route, if not nil; else that of the last
  -- `SetDefaultErrorMapper`; else the built-in one.
  abbrev pub mapper_in_force : ErrorMapper H
  mapper_in_force =
      or_else (or_else (last_some (mapper_option H) options) none)
        (or_else (last_some (mapper_setting H) settings) (rfc7807_mapper H))

  abbrev pub marshal_in_force : H.MarshalOptions
  marshal_in_force =
      or_else (or_else (last_some (marshal_option H) options) none)
        (or_else (last_some (marshal_setting H) settings) H.plain_options)

  -- The answer to what a method returns.
  abbrev pub answer_to : (Resp → Value H) → Result (Err H) Resp → List Call
  answer_to to_any (err e) =
      let (status, body) = mapper_in_force e in answer H (error_type H body) status (H.encode body)
  answer_to to_any (ok resp) =
      answer H json_type (or_else (last_some (status_option H) options) 200) (
        response_body H to_any (or_else (last_some (map_option H) options) none) marshal_in_force
          resp)

  module _ {Req : Type 0} (method : UnaryMethod H Req Resp) (binders : List (Binder H Req)) where
    abbrev settled : Globals H
    settled = apply_settings H settings (initial H)

    abbrev configured : Route H Req Resp
    configured = apply_options H options (proxy H method binders)

    mapper-configured : effective_mapper H settled configured.error_mapper ≡ mapper_in_force
    unfolding proxy
    mapper-configured =
        let set = apply_settings-Sets H settings (initial H) in
        let own = apply_options-Configures H options (proxy H method binders) in
        effective_mapper-or_else H settled configured.error_mapper
        ∙ ap₂ or_else own.mapper_lem set.mapper_lem

    marshal-configured : marshal_options H settled configured ≡ marshal_in_force
    unfolding proxy
    marshal-configured =
        let set = apply_settings-Sets H settings (initial H) in
        let own = apply_options-Configures H options (proxy H method binders) in
        marshal_options-or_else H settled configured ∙ ap₂ or_else own.marshal_lem set.marshal_lem

    write_result-configured :
        (t : ResponseType H Resp) (w : Writer) (result : Result (Err H) Resp)
        → write_result H settled t configured w result ≡ w ++ answer_to t.to_any result
    unfolding write_result proxy
    write_result-configured t w (err e) =
        let (status, body) = mapper_in_force e in
        rw (write_result, mapper-configured) (write_error_lem H w status body)
    write_result-configured t w (ok resp) =
        let own = apply_options-Configures H options (proxy H method binders) in
        write_result_of_ok H settled t configured w resp
        ∙ rw (own.map_lem, own.status_lem, marshal-configured) refl

    -- A route from `Proxy` with any sequence of option methods called on it, in a program that has
    -- called any sequence of the package setters, over a request that its binders bind: the method is
    -- called once, with the bound message, and its result decides one answer behind the calls made
    -- before. An error is given to the mapper of the last `WithErrorMapper`, or if there is none or it
    -- was nil, to that of the last `SetDefaultErrorMapper`, or if there is none or it was nil, to the
    -- built-in one, and the status and the body are the mapper's. A response is written with the status
    -- of the last `OnSuccess`, or 200, as the value of the last `Map`, or if there is none or it was
    -- nil, by protojson with the options of the last `WithMarshalOptions`, or else of the last
    -- `SetDefaultMarshalOptions`, or else the zero ones.
    pub serve_http-configured :
        (t : ResponseType H Resp) (zero_req req : Req) (w : Writer) (r r' : Request H)
        (s s' : H.Backend) (result : Result (Err H) Resp)
        → bind_all H settled binders zero_req r ≡ ok (req, r')
        → method r'.context req s ≡ (result, s')
        → serve_http H settled t zero_req configured w r s ≡ (w ++ answer_to t.to_any result, s')
    unfolding proxy
    serve_http-configured t zero_req req w r r' s s' result bound called =
        let own = apply_options-Configures H options (proxy H method binders) in
        serve_http_of_ok H settled t zero_req configured w r s req r' (rw own.binders_kept bound)
        ∙ (rw (own.method_kept, called) (ap (λ v. (v, s')) (write_result-configured t w result)))
