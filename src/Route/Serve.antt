-- ===== src/Route/Serve.antt =====
-- What `Route.ServeHTTP` does on every path: the calls on the response, and the calls of the method.
use grpc_composition.Common.{
  ℕ, ◌≤◌, ◌≡◌, refl, sym, ap, ◌∙◌, ◌⊎◌, inl, inr, List, [], ◌∷◌, ◌++◌, Option, none, arith, Text,
  codes, if◌then◌else◌, Result, ok, err, Result-cases, ok-injective, Option-cases,
}
use grpc_composition.Std.Errors.{as_max_bytes}
use grpc_composition.Std.Http.{Writer, status_text}
use grpc_composition.Problem.{blank_problem, problem}
use grpc_composition.Host.{Host, Err, Request, Value, error_text}
use grpc_composition.Globals.{Globals, Binder, ResponseType}
use grpc_composition.Errors.{rfc7807_mapper}
use grpc_composition.Errors.Codes.{rfc7807_mapper-redacted, redacted}
use grpc_composition.Response.{
  json_type, problem_type, answer, payload, error_type, bind_error_status, write_error_lem,
  write_json_lem, write_response_lem,
}
use grpc_composition.Route.{
  Route, marshal_options, bind_all, effective_mapper, write_bind_error, write_result, serve_http,
}

-- One complete answer behind the calls in `w`: the content type, then the status, then at most one
-- block of bytes. The content type is one of the two that the program uses.
abbrev pub IsAnswered : Host → Writer → Writer → Type 0
IsAnswered H w w' =
    (ctype : Text) × (status : ℕ) × (bytes : Option Text) × (w' ≡ w ++ answer H ctype status bytes)
    × ((ctype ≡ json_type) ⊎ (ctype ≡ problem_type))

-- The body of the answer to a binder's error.
abbrev pub bind_problem : (H : Host) → ℕ → Text → Value H
bind_problem H code text =
    problem (record (blank_problem code (status_text code)) { detail = codes "bind: " ++ text })

module _ (H : Host) where
  pub error_type-cases :
      (v : Value H) → (error_type H v ≡ json_type) ⊎ (error_type H v ≡ problem_type)
  error_type-cases (problem p) = inr refl
  error_type-cases _ = inl refl

  write_bind_error_lem :
      (w : Writer) (e : Err H)
      → write_bind_error H w e
        ≡ w
          ++ answer H problem_type
              (bind_error_status H e)
              (H.encode (bind_problem H (bind_error_status H e) (error_text H e)))
  unfolding write_bind_error
  write_bind_error_lem w e =
      let code = bind_error_status H e in
      write_error_lem H w code (bind_problem H code (error_text H e))

  module _ {Req : Type 0} (g : Globals H) where
    -- Binders that pass, then one that fails: its error is the result, whatever stands behind it.
    pub bind_all-first_error :
        (before after : List (Binder H Req)) (b : Binder H Req) (zero_req req : Req)
        (r r' : Request H) (e : Err H)
        → bind_all H g before zero_req r ≡ ok (req, r')
        → b.bind g r' req ≡ err e
        → bind_all H g (before ++ (b ∷ after)) zero_req r ≡ err e
    unfolding bind_all
    bind_all-first_error [] after b zero_req req r r' e pass fail =
        rw (ap (λ p. b.bind g p.1 p.0) (ok-injective pass) ∙ fail)
    bind_all-first_error (c ∷ before) after b zero_req req r r' e pass fail =
        elim (Result-cases (c.bind g r zero_req)) [
          | inl (p, done) ↦
              rw done (bind_all-first_error before after b p.0 req p.1 r' e (rw done at pass) fail)
          | inr (f, failed) ↦ ground arith
        ]

module _ (H : Host) {Req Resp : Type 0} (g : Globals H) (t : ResponseType H Resp) where
  write_result-IsAnswered :
      (rt : Route H Req Resp) (w : Writer) (result : Result (Err H) Resp)
      → IsAnswered H w (write_result H g t rt w result)
  unfolding write_result
  write_result-IsAnswered rt w (err e) =
      let (status, body) = effective_mapper H g rt.error_mapper e in
      (
        error_type H body,
        status,
        H.encode body,
        write_error_lem H w status body,
        error_type-cases H body,
      )
  write_result-IsAnswered rt w (ok resp) = elim (Option-cases rt.mapper) [
    | inl none_set ↦ (
      json_type,
      rt.success_status,
      payload H (marshal_options H g rt) (t.to_any resp),
      rw (none_set, write_result)
          (write_response_lem H w rt.success_status (t.to_any resp) (marshal_options H g rt)),
      inl refl,
    )
    | inr (f, is_set) ↦ (
      json_type,
      rt.success_status,
      H.encode (f resp),
      rw (is_set, write_result) (write_json_lem H w rt.success_status (f resp)),
      inl refl,
    )
  ]

  pub serve_http_of_err :
      (zero_req : Req) (rt : Route H Req Resp) (w : Writer) (r : Request H) (s : H.Backend)
      (e : Err H)
      → bind_all H g rt.binders zero_req r ≡ err e
      → serve_http H g t zero_req rt w r s ≡ (write_bind_error H w e, s)
  unfolding serve_http
  serve_http_of_err zero_req rt w r s e h = rw (h, serve_http)

  pub serve_http_of_ok :
      (zero_req : Req) (rt : Route H Req Resp) (w : Writer) (r : Request H) (s : H.Backend)
      (req : Req) (r' : Request H)
      → bind_all H g rt.binders zero_req r ≡ ok (req, r')
      → let (result, s') = rt.method r'.context req s in
        serve_http H g t zero_req rt w r s ≡ (write_result H g t rt w result, s')
  unfolding serve_http
  serve_http_of_ok zero_req rt w r s req r' h = rw (h, serve_http)

  -- Every request gets exactly one answer, whatever binders, method and mappers do: the content
  -- type, then the status, then at most one block of bytes, behind the calls made before.
  pub serve_http-IsAnswered :
      (zero_req : Req) (rt : Route H Req Resp) (w : Writer) (r : Request H) (s : H.Backend)
      → IsAnswered H w (serve_http H g t zero_req rt w r s).0
  serve_http-IsAnswered zero_req rt w r s =
      elim (Result-cases (bind_all H g rt.binders zero_req r)) [
        | inl ((req, r'), bound) ↦
            rw (serve_http_of_ok zero_req rt w r s req r' bound)
              (write_result-IsAnswered rt w (rt.method r'.context req s).0)
        | inr (e, failed) ↦ rw (serve_http_of_err zero_req rt w r s e failed) (
          problem_type,
          bind_error_status H e,
          H.encode (bind_problem H (bind_error_status H e) (error_text H e)),
          write_bind_error_lem H w e,
          inr refl,
        )
      ]

  -- The first binder that fails decides the answer: 413 if its error is or wraps an
  -- `*http.MaxBytesError` and 400 if not, with the error's text behind "bind: ". The binders behind
  -- it do not matter, and the services are left as they were: the method is not called.
  pub serve_http-bind_error :
      (zero_req req : Req) (rt : Route H Req Resp) (before after : List (Binder H Req))
      (b : Binder H Req) (w : Writer) (r r' : Request H) (s : H.Backend) (e : Err H)
      → rt.binders ≡ before ++ (b ∷ after)
      → bind_all H g before zero_req r ≡ ok (req, r')
      → b.bind g r' req ≡ err e
      → let code : ℕ = if as_max_bytes H.foreign_is_max_bytes e then 413 else 400 in
        serve_http H g t zero_req rt w r s
        ≡ (w ++ answer H problem_type code (H.encode (bind_problem H code (error_text H e))), s)
  unfolding bind_error_status
  serve_http-bind_error zero_req req rt before after b w r r' s e split pass fail =
      serve_http_of_err zero_req rt w r s e
        (rw split (bind_all-first_error H g before after b zero_req req r r' e pass fail))
      ∙ ap (λ v. (v, s)) (write_bind_error_lem H w e)

  write_result-same :
      (rt : Route H Req Resp) (w : Writer) (e f : Err H)
      → g.error_mapper ≡ rfc7807_mapper H
      → rt.error_mapper ≡ none
      → (rfc7807_mapper H e).0 ≡ (rfc7807_mapper H f).0
      → 500 ≤ (rfc7807_mapper H e).0
      → write_result H g t rt w (err e) ≡ write_result H g t rt w (err f)
  unfolding write_result
  write_result-same rt w e f built_in no_own same server =
      let answer_of : ℕ → ℕ × Value H = λ n. (n, redacted H n) in
      let left = ap (λ v. ((rfc7807_mapper H e).0, v)) (rfc7807_mapper-redacted H e server) in
      let right =
        ap (λ v. ((rfc7807_mapper H f).0, v)) (rfc7807_mapper-redacted H f (rw same at server)) in
      let pairs : rfc7807_mapper H e ≡ rfc7807_mapper H f =
        left ∙ (ap answer_of same ∙ sym right) in
      rw (no_own, built_in, pairs)

  -- With the built-in mapper in force and binders that pass, the answers to two errors of the
  -- method that map to the same status of 500 or above are the same calls: nothing of the upstream
  -- error gets out.
  pub serve_http-no_leak :
      (zero_req req : Req) (rt : Route H Req Resp) (w : Writer) (r r' : Request H)
      (s s' : H.Backend) (e f : Err H)
      → g.error_mapper ≡ rfc7807_mapper H
      → rt.error_mapper ≡ none
      → bind_all H g rt.binders zero_req r ≡ ok (req, r')
      → rt.method r'.context req s ≡ (err e, s')
      → (rfc7807_mapper H e).0 ≡ (rfc7807_mapper H f).0
      → 500 ≤ (rfc7807_mapper H e).0
      → serve_http H g t zero_req rt w r s
        ≡ serve_http H g t zero_req (record rt { method = λ _ _ _. (err f, s') }) w r s
  unfolding write_result
  serve_http-no_leak zero_req req rt w r r' s s' e f built_in no_own bound called same server =
      rw (serve_http_of_ok zero_req rt w r s req r' bound, called)
        (rw
          (serve_http_of_ok zero_req (record rt { method = λ _ _ _. (err f, s') }) w r s req r'
            bound)
          (ap (λ v. (v, s')) (write_result-same rt w e f built_in no_own same server)))
