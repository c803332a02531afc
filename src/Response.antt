-- ===== src/Response.antt =====
-- composition.go: how an answer is written, and the status of a binder's error.
use grpc_composition.Common.{
  ℕ, ◌≡◌, inl, inr, List, [], ◌∷◌, ◌++◌, append_assoc, Option, none, some, Text, codes,
  if◌then◌else◌, Option-cases,
}
use grpc_composition.Std.Errors.{as_max_bytes}
use grpc_composition.Std.Http.{Writer, Call, set_header, write_header, write}
use grpc_composition.Problem.{problem, proto, opaque}
use grpc_composition.Host.{Host, Err, Value}

abbrev pub content_type : Text
content_type = codes "Content-Type"

abbrev pub json_type : Text
json_type = codes "application/json"

abbrev pub problem_type : Text
problem_type = codes "application/problem+json"

-- What a handler writes into the body: one block of bytes, or nothing.
abbrev pub written : Option Text → List Call
written none = []
written (some bytes) = write bytes ∷ []

abbrev or_encoded : Option Text → Option Text → Option Text
or_encoded none encoded = encoded
or_encoded (some bytes) encoded = some bytes

module _ (H : Host) where
  -- `bindErrorStatus`.
  unfoldable pub bind_error_status : Err H → ℕ
  bind_error_status e = if as_max_bytes H.foreign_is_max_bytes e then 413 else 400

  -- `json.NewEncoder(w).Encode(body)`, with its error dropped.
  abbrev encode_to : Writer → Value H → Writer
  encode_to w body = w ++ written (H.encode body)

  -- The content type that `writeError` sets.
  abbrev pub error_type : Value H → Text
  error_type (problem _) = problem_type
  error_type (proto _) = json_type
  error_type (opaque _) = json_type

  -- `writeError`.
  unfoldable pub write_error : Writer → ℕ → Value H → Writer
  write_error w status body =
      let typed = w ++ (set_header content_type (error_type body) ∷ []) in
      let headed = typed ++ (write_header status ∷ []) in encode_to headed body

  -- `writeJSON`.
  unfoldable pub write_json : Writer → ℕ → Value H → Writer
  write_json w status body =
      let typed = w ++ (set_header content_type json_type ∷ []) in
      let headed = typed ++ (write_header status ∷ []) in encode_to headed body

  -- The result of `marshal.Marshal` if the response is a proto message and this succeeds.
  abbrev marshalled : H.MarshalOptions → Value H → Option Text
  marshalled o (problem _) = none
  marshalled o (proto pm) = H.marshal o pm
  marshalled o (opaque _) = none

  -- `writeResponse`.
  unfoldable pub write_response : Writer → ℕ → Value H → H.MarshalOptions → Writer
  write_response w status resp marshal =
      let typed = w ++ (set_header content_type json_type ∷ []) in
      let headed = typed ++ (write_header status ∷ []) in
      elim (marshalled marshal resp) [
        | some bytes ↦ headed ++ (write bytes ∷ [])
        | none ↦ encode_to headed resp
      ]

  -- The bytes of a successful answer: protojson where that works, else JSON.
  abbrev pub payload : H.MarshalOptions → Value H → Option Text
  payload o resp = or_encoded (marshalled o resp) (H.encode resp)

  -- The calls of one complete answer.
  abbrev pub answer : Text → ℕ → Option Text → List Call
  answer ctype status bytes = set_header content_type ctype ∷ write_header status ∷ written bytes

  pub write_error_lem :
      (w : Writer) (status : ℕ) (body : Value H)
      → write_error w status body ≡ w ++ answer (error_type body) status (H.encode body)
  unfolding write_error
  write_error_lem w status body = simp append_assoc

  pub write_json_lem :
      (w : Writer) (status : ℕ) (body : Value H)
      → write_json w status body ≡ w ++ answer json_type status (H.encode body)
  unfolding write_json
  write_json_lem w status body = simp append_assoc

  pub write_response_lem :
      (w : Writer) (status : ℕ) (resp : Value H) (o : H.MarshalOptions)
      → write_response w status resp o ≡ w ++ answer json_type status (payload o resp)
  unfolding write_response
  write_response_lem w status resp o = elim (Option-cases (marshalled o resp)) [
    | inl fails ↦ rw (fails, write_response) (simp append_assoc)
    | inr (bytes, done) ↦ rw (done, write_response) (simp append_assoc)
  ]
