-- ===== src/Bind/Body/Limit.antt =====
-- The size limit of request bodies, and what reading a body does to the binders beside it.
use grpc_composition.Common.{
  ℕ, zero, suc, ◌+◌, ◌-◌, ◌^◌, ◌≤◌, ◌<◌, ◌≡◌, refl, ◌⊎◌, inl, inr, true, false, List, [], ◌∷◌, ◌++◌,
  none, some, arith, Text, codes, ◌==◌, leb, ltb, if◌then◌else◌, Result, ok, err, Result-cases,
  Option-cases, Bool-cases, length,
}
use grpc_composition.Std.Errors.{max_bytes, as_max_bytes, message}
use grpc_composition.Std.Strconv.{pos, negsuc, succ_int64}
use grpc_composition.Std.Http.{Writer, limit_reader, drop, take, length-take}
use grpc_composition.Host.{Host, Err, Request}
use grpc_composition.Globals.{Globals, Binder, ResponseType}
use grpc_composition.Response.{answer, problem_type}
use grpc_composition.Route.{Route, bind_all, serve_http}
use grpc_composition.Route.Serve.{bind_problem, serve_http-bind_error}
use grpc_composition.Bind.Body.{read_body, read_limited, body_json}

drop-nil {ℓ} : {A : Type ℓ} (n : ℕ) (xs : List A) → length xs ≤ n → drop n xs ≡ []
drop-nil zero [] h = refl
drop-nil zero (x ∷ xs) h = absurd (omega arith)
drop-nil (suc n) [] h = refl
drop-nil (suc n) (x ∷ xs) h = drop-nil n xs (omega arith)

-- The request with its body consumed.
abbrev pub emptied : (H : Host) → Request H → Request H
emptied H r = record r { body = record r.body { content = [] } }

-- The result of a body that is read to its end.
abbrev pub whole : (H : Host) → Request H → Result (Err H) (Text × Request H)
whole H r = elim r.body.failure [ none ↦ ok (r.body.content, emptied H r) | some e ↦ err e ]

module _ (H : Host) (n : ℕ) (r : Request H) (room : (n + 1 == 2 ^ 63) ≡ false) where
  read_limited_fits : length r.body.content ≤ n → read_limited H n r ≡ whole H r
  unfolding read_limited
  read_limited_fits h =
      let short : leb (n + 1) (length r.body.content) ≡ false = ground arith in
      let small : ltb n (length r.body.content) ≡ false = ground arith in
      elim (Option-cases r.body.failure) [
        | inl none_left ↦
            rw (read_limited, succ_int64, room, limit_reader, short, none_left)
              (rw (small, drop-nil (n + 1) r.body.content (omega arith)))
        | inr (f, fails) ↦ rw (read_limited, succ_int64, room, limit_reader, short, fails)
      ]

  read_limited_long : n < length r.body.content → read_limited H n r ≡ err max_bytes
  unfolding read_limited
  read_limited_long h =
      let long : leb (n + 1) (length r.body.content) ≡ true = ground arith in
      let big : ltb n (length (take (n + 1) r.body.content)) ≡ true =
        rw (length-take (n + 1) r.body.content (omega arith)) (ground arith) in
      rw (read_limited, succ_int64, room, limit_reader, long) (rw big)

module _ (H : Host) (g : Globals H) where
  -- Under a limit of `n` bytes, with 0 < n < 2^63 - 1: a body of at most `n` bytes is read whole,
  -- and consumed, or fails as its reader fails; a longer one fails with `*http.MaxBytesError`,
  -- also where its reader would fail behind the limit.
  pub read_body-limit :
      (n : ℕ) (r : Request H)
      → g.max_body_bytes ≡ pos n
      → 0 < n
      → n + 1 < 2 ^ 63
      → read_body H g r ≡ (if leb (length r.body.content) n then whole H r else err max_bytes)
  unfolding read_body
  read_body-limit n r e lo hi =
      let nonzero : (n == 0) ≡ false = ground arith in
      let room : (n + 1 == 2 ^ 63) ≡ false = ground arith in
      elim (Bool-cases (leb (length r.body.content) n)) [
        | inl fits ↦ rw (e, read_body, nonzero, fits) (read_limited_fits H n r room (ground arith))
        | inr long ↦ rw (e, read_body, nonzero, long) (read_limited_long H n r room (ground arith))
      ]

  -- With the limit disabled, by 0 or a negative number, every body is read whole and consumed, or
  -- fails as its reader fails.
  read_body-no_limit :
      (r : Request H)
      → (g.max_body_bytes ≡ pos 0) ⊎ ((k : ℕ) × (g.max_body_bytes ≡ negsuc k))
      → read_body H g r ≡ whole H r
  unfolding read_body
  read_body-no_limit r (inl e) = rw (e, read_body) (ground arith)
  read_body-no_limit r (inr (k, e)) = rw (e, read_body) (ground arith)

  -- With the greatest limit, 2^63 - 1, the byte that is to be read more overflows: every body
  -- reads as empty, with no error, and stays unread.
  pub read_body-max_int64 :
      (r : Request H) → g.max_body_bytes ≡ pos (2 ^ 63 - 1) → read_body H g r ≡ ok ([], r)
  unfolding read_body
  read_body-max_int64 r e = rw (e, read_body)

module _ (H : Host) {Req Resp : Type 0} (g : Globals H) (t : ResponseType H Resp) where
  -- Behind binders that pass, a JSON body above the limit of `n` bytes is answered by 413 and the
  -- problem that says so, whatever stands behind it, and the method is not called.
  pub serve_http-too_large :
      (unmarshal : Text → Req → Result (Err H) Req) (prototype : H.Message) (n : ℕ)
      (zero_req req : Req) (rt : Route H Req Resp) (before after : List (Binder H Req)) (w : Writer)
      (r r' : Request H) (s : H.Backend)
      → g.max_body_bytes ≡ pos n
      → 0 < n
      → n + 1 < 2 ^ 63
      → rt.binders ≡ before ++ (body_json H unmarshal prototype ∷ after)
      → bind_all H g before zero_req r ≡ ok (req, r')
      → n < length r'.body.content
      → serve_http H g t zero_req rt w r s ≡ (
        w
            ++ answer H problem_type 413
                (H.encode (bind_problem H 413 (codes "http: request body too large"))),
        s,
      )
  unfolding body_json as_max_bytes message
  serve_http-too_large unmarshal prototype n zero_req req rt before after w r r' s e lo hi split
        pass long =
      serve_http-bind_error H g t zero_req req rt before after (body_json H unmarshal prototype) w r
        r' s max_bytes split pass
        (let big : leb (length r'.body.content) n ≡ false = ground arith in
          rw (read_body-limit H g n r' e lo hi, big))

module _ (H : Host) {Req : Type 0} (g : Globals H) where
  -- The result of `protojson.Unmarshal` does not depend on the message that it fills, which it
  -- clears. So where a JSON body is bound behind another binder that passes and leaves the request
  -- alone, as all parameter binders do, nothing that the first one set is left: the binders act as
  -- they would without it.
  pub body_json-clears :
      (unmarshal : Text → Req → Result (Err H) Req) (prototype : H.Message) (b : Binder H Req)
      (after : List (Binder H Req)) (req req' : Req) (r : Request H)
      → ((bytes : Text) (m m' : Req) → unmarshal bytes m ≡ unmarshal bytes m')
      → b.bind g r req ≡ ok (req', r)
      → bind_all H g (b ∷ body_json H unmarshal prototype ∷ after) req r
        ≡ bind_all H g (body_json H unmarshal prototype ∷ after) req r
  unfolding body_json bind_all
  body_json-clears unmarshal prototype b after req req' r clears pass =
      elim (Result-cases (read_body H g r)) [
        | inl ((bytes, r'), read) ↦ rw (pass, read, clears bytes req' req)
        | inr (e, fails) ↦ rw (pass, fails)
      ]
