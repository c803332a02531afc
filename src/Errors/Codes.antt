-- ===== src/Errors/Codes.antt =====
-- The classes of statuses that `codeToHTTP` and the default mapper produce.
use grpc_composition.Common.{ℕ, ◌≤◌, ◌<◌, ◌≡◌, ◌≢◌, ◌↔◌, inl, inr, arith, Option-cases}
use grpc_composition.Std.Http.{status_text}
use grpc_composition.Problem.{blank_problem, Code, code_ok, problem}
use grpc_composition.Host.{Host, Err, Value}
use grpc_composition.Errors.{code_to_http, rfc7807_mapper, internal_error, status_problem}

-- Only the code OK becomes 200, and every other code becomes a status from 400 to 599.
code_to_http_class :
    (c : Code)
    → ((code_to_http c ≡ 200) ↔ (c ≡ code_ok))
      × (c ≢ code_ok → (400 ≤ code_to_http c) × (code_to_http c < 600))
unfolding code_to_http
code_to_http_class c = ground arith

module _ (H : Host) where
  -- The body of a redacted answer, from its status alone.
  abbrev pub redacted : ℕ → Value H
  redacted status =
      problem (record (blank_problem status (status_text status)) { detail = internal_error })

  -- Whatever the error: where the status of the built-in mapper is 500 or above, the body depends
  -- on that status alone. Neither the message nor any detail of the upstream status is in it.
  pub rfc7807_mapper-redacted :
      (e : Err H)
      → 500 ≤ (rfc7807_mapper H e).0
      → (rfc7807_mapper H e).1 ≡ redacted (rfc7807_mapper H e).0
  unfolding rfc7807_mapper status_problem
  rfc7807_mapper-redacted e h = elim (Option-cases (H.from_error e)) [
    | inl absent ↦ rw (absent, rfc7807_mapper)
    | inr (st, found) ↦ ground arith
  ]
