-- ===== src/Tests/Routes.antt =====
-- Routes and aggregations on a concrete host.
use grpc_composition.Common.{
  ◌+◌, ◌≤◌, ◌≡◌, refl, [], ◌∷◌, ◌++◌, none, some, arith, Text, codes, if◌then◌else◌, text_eq, ok,
  err, last_some, or_else, gather,
}
use grpc_composition.Std.Errors.{plain, as_max_bytes}
use grpc_composition.Host.{Err}
use grpc_composition.Globals.{Binder, binder_func}
use grpc_composition.Errors.{rfc7807_mapper, code_to_http}
use grpc_composition.Response.{answer, problem_type}
use grpc_composition.Route.{Route, proxy, serve_http, bind_all, operation_info}
use grpc_composition.Route.Serve.{
  bind_problem, IsAnswered, serve_http-IsAnswered, serve_http-bind_error, serve_http-no_leak,
}
use grpc_composition.Route.Info.{operation_info_lem}
use grpc_composition.Aggregate
use grpc_composition.Aggregate.{aggregate}
use grpc_composition.Aggregate.Serve.{one_call, serve_http-proxy, aggregate-IsAnswered}
use grpc_composition.Bind.Params.{path_string, query_string}
use grpc_composition.Bind.Body.{body_json}
use grpc_composition.Problem.{opaque}
use grpc_composition.Tests.Demo.{
  demo, globals, request, get_user, fail_secretly, text_response, set_text, secret, other_secret,
}

abbrev refusal : Err demo
refusal = plain (codes "empty token")

-- A binder that refuses every request.
abbrev refuse : Binder demo Text
refuse = binder_func demo (λ g r req. err refusal)

abbrev by_id : Binder demo Text
by_id = path_string demo (codes "id") set_text

abbrev refusing : Route demo Text Text
refusing = proxy demo get_user (by_id ∷ refuse ∷ by_id ∷ [])

refusing_binders : refusing.binders ≡ (by_id ∷ []) ++ (refuse ∷ (by_id ∷ []))
unfolding proxy
refusing_binders = refl

by_id_passes : bind_all demo globals (by_id ∷ []) [] request ≡ ok (codes "7", request)
unfolding bind_all path_string text_eq
by_id_passes = refl

refuse_fails : refuse.bind globals request (codes "7") ≡ err refusal
unfolding binder_func
refuse_fails = refl

serve_http-bind_error_example : serve_http demo globals text_response [] refusing [] request 0 ≡ (
  []
      ++ answer demo problem_type
          (if as_max_bytes demo.foreign_is_max_bytes refusal then 413 else 400)
          (demo.encode (
            bind_problem demo
              (if as_max_bytes demo.foreign_is_max_bytes refusal then 413 else 400)
              (codes "empty token"))),
  0,
)
serve_http-bind_error_example =
    serve_http-bind_error demo globals text_response [] (codes "7") refusing (by_id ∷ [])
      (by_id ∷ []) refuse [] request request 0 refusal refusing_binders by_id_passes refuse_fails

serve_http-IsAnswered_example :
    IsAnswered demo [] (serve_http demo globals text_response [] refusing [] request 0).0
serve_http-IsAnswered_example =
    serve_http-IsAnswered demo globals text_response [] refusing [] request 0

abbrev failing : Route demo Text Text
failing = proxy demo fail_secretly (by_id ∷ [])

no_own_mapper : failing.error_mapper ≡ none
unfolding proxy
no_own_mapper = refl

failing_binds : bind_all demo globals failing.binders [] request ≡ ok (codes "7", request)
unfolding bind_all path_string text_eq proxy
failing_binds = refl

failing_fails : failing.method request.context (codes "7") 0 ≡ (err secret, 1)
unfolding proxy
failing_fails = refl

same_status : (rfc7807_mapper demo secret).0 ≡ (rfc7807_mapper demo other_secret).0
unfolding rfc7807_mapper code_to_http
same_status = refl

server_status : 500 ≤ (rfc7807_mapper demo secret).0
unfolding rfc7807_mapper code_to_http
server_status = omega arith

serve_http-no_leak_example :
    serve_http demo globals text_response [] failing [] request 0
    ≡ serve_http demo globals text_response []
        (record failing { method = λ _ _ _. (err other_secret, 1) })
        []
        request
        0
serve_http-no_leak_example =
    serve_http-no_leak demo globals text_response [] (codes "7") failing [] request request 0 1
      secret other_secret refl no_own_mapper failing_binds failing_fails same_status server_status

abbrev user_route : Route demo Text Text
user_route = proxy demo get_user (by_id ∷ [])

user_route_plain : user_route.mapper ≡ none
unfolding proxy
user_route_plain = refl

user_route_binds : bind_all demo globals user_route.binders [] request ≡ ok (codes "7", request)
unfolding bind_all path_string text_eq proxy
user_route_binds = refl

serve_http-proxy_example :
    serve_http demo globals text_response [] user_route [] request 0
    ≡ Aggregate.serve_http demo globals
        (one_call demo text_response user_route (codes "7"))
        []
        request
        0
serve_http-proxy_example =
    serve_http-proxy demo globals text_response [] (codes "7") user_route [] request request 0
      user_route_plain user_route_binds

abbrev documented : Route demo Text Text
documented = proxy demo get_user (
    body_json demo (λ bytes m. ok bytes) (codes "proto")
    ∷ by_id
    ∷ query_string demo (codes "limit") set_text
    ∷ [])

operation_info_example : operation_info demo globals text_response documented ≡ record {
  method = [];
  pattern_text = [];
  doc = documented.doc;
  success_status = documented.success_status;
  params = gather (λ b. b.param_spec) documented.binders;
  body = last_some (λ b. b.body_spec) documented.binders;
  response_proto = elim documented.map_out [ none ↦ text_response.prototype | some _ ↦ none ];
  response_dto = documented.map_out;
  marshal = or_else documented.marshal globals.marshal;
}
operation_info_example = operation_info_lem demo globals text_response documented

aggregate-IsAnswered_example :
    IsAnswered demo []
      (Aggregate.serve_http demo globals
        (aggregate demo (λ ctx r s. (ok (opaque (codes "{}")), s + 2)))
        []
        request
        0).0
aggregate-IsAnswered_example =
    aggregate-IsAnswered demo globals
      (aggregate demo (λ ctx r s. (ok (opaque (codes "{}")), s + 2))) [] request 0
