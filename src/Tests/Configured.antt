-- ===== src/Tests/Configured.antt =====
-- A route under setters and options.
use grpc_composition.Common.{
  ◌≡◌, refl, List, [], ◌∷◌, ◌++◌, none, some, Text, codes, text_eq, ok, err,
}
use grpc_composition.Std.Strconv.{pos}
use grpc_composition.Host.{ErrorMapper}
use grpc_composition.Problem.{opaque}
use grpc_composition.Globals.{Binder, initial, set_default_error_mapper, set_default_max_body_bytes}
use grpc_composition.Response.{answer, json_type}
use grpc_composition.Route.{proxy, serve_http, bind_all}
use grpc_composition.Route.Settings.{
  Setting, sets_error_mapper, sets_max_body_bytes, apply_settings,
}
use grpc_composition.Route.Options.{RouteOption, succeeds_with, maps_errors, apply_options}
use grpc_composition.Route.Configured.{serve_http-configured}
use grpc_composition.Bind.Params.{path_string}
use grpc_composition.Tests.Demo.{demo, request, fail_secretly, text_response, set_text, secret}

abbrev by_id : Binder demo Text
by_id = path_string demo (codes "id") set_text

abbrev teapot : ErrorMapper demo
teapot e = (418, opaque (codes "short and stout"))

-- The built-in mapper is put back, and then replaced again.
abbrev settings : List (Setting demo)
settings =
    sets_error_mapper none ∷ sets_max_body_bytes (pos 5) ∷ sets_error_mapper (some teapot) ∷ []

-- A mapper of the route's own, taken away again by nil.
abbrev options : List (RouteOption demo Text)
options =
    maps_errors {Body = Text} opaque (some (λ e. (500, codes "broken")))
    ∷ succeeds_with 201
    ∷ maps_errors {Body = Text} opaque none
    ∷ []

id_bound :
    bind_all demo (apply_settings demo settings (initial demo)) (by_id ∷ []) [] request
    ≡ ok (codes "7", request)
unfolding bind_all path_string text_eq set_default_error_mapper set_default_max_body_bytes
id_bound = refl

serve_http-configured_example :
    serve_http demo
      (apply_settings demo settings (initial demo))
      text_response
      []
      (apply_options demo options (proxy demo fail_secretly (by_id ∷ [])))
      []
      request
      0
    ≡ ([] ++ answer demo json_type 418 (demo.encode (opaque (codes "short and stout"))), 1)
serve_http-configured_example =
    serve_http-configured demo settings options fail_secretly (by_id ∷ []) text_response []
      (codes "7") [] request request 0 1 (err secret) id_bound refl
