-- ===== src/Aggregate/Serve.antt =====
-- What `AggregateRoute.ServeHTTP` does, and how it compares with `Route.ServeHTTP`.
use grpc_composition.Common.{◌≡◌, refl, ap, ◌∙◌, inl, none, some, Result, ok, err}
use grpc_composition.Std.Http.{Writer}
use grpc_composition.Host.{Host, Err, Request, Value}
use grpc_composition.Globals.{Globals, ResponseType}
use grpc_composition.Response.{payload, error_type, json_type, write_error_lem, write_response_lem}
use grpc_composition.Route
use grpc_composition.Route.{Route}
use grpc_composition.Route.Serve.{IsAnswered, error_type-cases, serve_http_of_ok}
use grpc_composition.Aggregate.{AggregateRoute, write_result, serve_http}

abbrev map_ok {ℓ κ μ} : {E : Type ℓ} {A : Type κ} {B : Type μ} → (A → B) → Result E A → Result E B
map_ok f (ok a) = ok (f a)
map_ok f (err e) = err e

module _ (H : Host) where
  -- The aggregation that calls one method on one message.
  abbrev pub one_call :
      {Req Resp : Type 0} → ResponseType H Resp → Route H Req Resp → Req → AggregateRoute H
  one_call t rt req = record {
    fn = λ ctx r s. let (result, s') = rt.method ctx req s in (map_ok t.to_any result, s');
    success_status = rt.success_status;
    error_mapper = rt.error_mapper;
    marshal = rt.marshal;
  }

  write_result-same :
      {Req Resp : Type 0} (g : Globals H) (t : ResponseType H Resp) (rt : Route H Req Resp)
      (req : Req) (w : Writer) (result : Result (Err H) Resp)
      → rt.mapper ≡ none
      → Route.write_result H g t rt w result
        ≡ write_result H g (one_call t rt req) w (map_ok t.to_any result)
  unfolding write_result Route.write_result
  write_result-same g t rt req w (err e) plain = refl
  write_result-same g t rt req w (ok resp) plain =
      rw (plain, Route.write_result, Route.marshal_options)

  -- An aggregation that only calls one method on the message that the binders built answers as
  -- the proxy route does, byte for byte, on success and on errors, if the route has no `Map`.
  pub serve_http-proxy :
      {Req Resp : Type 0} (g : Globals H) (t : ResponseType H Resp) (zero_req req : Req)
      (rt : Route H Req Resp) (w : Writer) (r r' : Request H) (s : H.Backend)
      → rt.mapper ≡ none
      → Route.bind_all H g rt.binders zero_req r ≡ ok (req, r')
      → Route.serve_http H g t zero_req rt w r s ≡ serve_http H g (one_call t rt req) w r' s
  unfolding serve_http
  serve_http-proxy g t zero_req req rt w r r' s plain bound =
      serve_http_of_ok H g t zero_req rt w r s req r' bound
      ∙ ap (λ v. (v, (rt.method r'.context req s).1))
          (write_result-same g t rt req w (rt.method r'.context req s).0 plain)

  aggregate_result-IsAnswered :
      (g : Globals H) (rt : AggregateRoute H) (w : Writer) (result : Result (Err H) (Value H))
      → IsAnswered H w (write_result H g rt w result)
  unfolding write_result
  aggregate_result-IsAnswered g rt w (err e) =
      let (status, body) = Route.effective_mapper H g rt.error_mapper e in
      (
        error_type H body,
        status,
        H.encode body,
        write_error_lem H w status body,
        error_type-cases H body,
      )
  aggregate_result-IsAnswered g rt w (ok body) =
      let marshal : H.MarshalOptions = elim rt.marshal [ some o ↦ o | none ↦ g.marshal ] in
      (
        json_type,
        rt.success_status,
        payload H marshal body,
        write_response_lem H w rt.success_status body marshal,
        inl refl,
      )

  -- Every request to an aggregation gets exactly one answer, whatever the handler and the mapper
  -- do: the content type, then the status, then at most one block of bytes.
  pub aggregate-IsAnswered :
      (g : Globals H) (rt : AggregateRoute H) (w : Writer) (r : Request H) (s : H.Backend)
      → IsAnswered H w (serve_http H g rt w r s).0
  unfolding serve_http
  aggregate-IsAnswered g rt w r s = aggregate_result-IsAnswered g rt w (rt.fn r.context r s).0
