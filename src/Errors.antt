-- ===== src/Errors.antt =====
-- errors.go: the default error mapper, the reason tables, and the table of status codes.
pub mod Codes
pub mod Details
pub mod Reasons
use grpc_composition.Common.{
  ℕ, Bool, not, ◌&&◌, List, [], ◌∷◌, ◌++◌, Option, none, some, Text, codes, leb, if◌then◌else◌,
  is_empty, lookup, insert,
}
use grpc_composition.Std.Http.{status_text}
use grpc_composition.Problem.{
  FieldViolation, ProblemDetails, blank_problem, Code, code_ok, canceled, unknown, invalid_argument,
  deadline_exceeded, not_found, already_exists, permission_denied, resource_exhausted,
  failed_precondition, aborted, out_of_range, unimplemented, internal, unavailable, data_loss,
  unauthenticated, ErrorInfo, Detail, bad_request, error_info, Status, problem,
}
use grpc_composition.Host.{Host, Err, ErrorMapper}

-- `codeToHTTP`.
unfoldable pub code_to_http : Code → ℕ
code_to_http code_ok = 200
code_to_http canceled = 499
code_to_http invalid_argument = 400
code_to_http out_of_range = 400
code_to_http deadline_exceeded = 504
code_to_http not_found = 404
code_to_http already_exists = 409
code_to_http aborted = 409
code_to_http permission_denied = 403
code_to_http unauthenticated = 401
code_to_http resource_exhausted = 429
code_to_http failed_precondition = 422
code_to_http unavailable = 503
code_to_http unimplemented = 501
code_to_http internal = 500
code_to_http unknown = 500
code_to_http data_loss = 500
code_to_http _ = 500

abbrev pub internal_error : Text
internal_error = codes "internal error"

-- The loop over the field violations of one `BadRequest`.
append_violations : List FieldViolation → List FieldViolation → List FieldViolation
append_violations errors [] = errors
append_violations errors (fv ∷ fvs) =
    append_violations (errors ++ (record { field = fv.field; description = fv.description } ∷ []))
      fvs

-- One round of the loop of `populateDetails`: the type switch.
populate_detail : ProblemDetails → Detail → ProblemDetails
populate_detail prob (bad_request fvs) = record prob { errors = append_violations prob.errors fvs }
populate_detail prob (error_info v) =
    let named = record prob { reason = v.reason } in
    let typed =
      if not (is_empty v.domain) && not (is_empty v.reason)
      then record named { type_uri = v.domain ++ (codes "/" ++ v.reason) }
      else named in
    if not (is_empty v.metadata) then record typed { metadata = v.metadata } else typed
populate_detail prob _ = prob

-- `populateDetails`, over `st.Details()`.
unfoldable pub populate_details : ProblemDetails → List Detail → ProblemDetails
unfolding populate_detail append_violations
populate_details prob [] = prob
populate_details prob (d ∷ ds) = populate_details (populate_detail prob d) ds

-- `errorInfoOf`, over `st.Details()`.
unfoldable pub error_info_of : List Detail → Option ErrorInfo
error_info_of [] = none
error_info_of (error_info info ∷ _) = some info
error_info_of (_ ∷ ds) = error_info_of ds

-- `ReasonMapping`.
pub record ReasonMapping : Type 0 where
  pub status : ℕ
  pub detail : Text

-- The loop of `MapReasons` that copies the table.
unfoldable pub copy_reasons :
    List (Text × ReasonMapping) → List (Text × ReasonMapping) → List (Text × ReasonMapping)
copy_reasons reasons [] = reasons
copy_reasons reasons ((reason, m) ∷ table) = copy_reasons (insert reason m reasons) table

-- The `switch` of `MapReasons` that chooses the detail.
unfoldable pub reason_detail : ReasonMapping → Text → Text
reason_detail m upstream =
    if not (is_empty m.detail)
    then m.detail
    else if leb 500 m.status
    then internal_error
    else upstream

module _ (H : Host) where
  -- The part of `rfc7807Mapper` behind the test of `ok`.
  status_problem : Status → ProblemDetails
  status_problem st =
      let prob = blank_problem (code_to_http st.code) (status_text (code_to_http st.code)) in
      if leb 500 (code_to_http st.code)
      then record prob { detail = internal_error }
      else populate_details (record prob { detail = st.message }) st.details

  -- `rfc7807Mapper`.
  unfoldable pub rfc7807_mapper : ErrorMapper H
  unfolding status_problem
  rfc7807_mapper err = elim (H.from_error err) [
    | none ↦
        (500, problem (record (blank_problem 500 (status_text 500)) { detail = internal_error }))
    | some st ↦ (code_to_http st.code, problem (status_problem st))
  ]

  -- The body of a matched reason in `MapReasons`.
  reason_problem : ReasonMapping → Status → ProblemDetails
  reason_problem m st =
      populate_details
        (record (blank_problem m.status (status_text m.status)) {
          detail = reason_detail m st.message;
        })
        st.details

  -- The mapper that `MapReasons` returns, over its copy of the table.
  reasons_mapper : List (Text × ReasonMapping) → ErrorMapper H → ErrorMapper H
  reasons_mapper reasons fallback err = elim (H.from_error err) [
    | none ↦ fallback err
    | some st ↦ elim (error_info_of st.details) [
      | none ↦ fallback err
      | some info ↦ elim (lookup info.reason reasons) [
        | none ↦ fallback err
        | some m ↦ (m.status, problem (reason_problem m st))
      ]
    ]
  ]

  abbrev or_builtin : Option (ErrorMapper H) → ErrorMapper H
  or_builtin none = rfc7807_mapper
  or_builtin (some f) = f

  -- `MapReasons`.
  unfoldable pub map_reasons : List (Text × ReasonMapping) → Option (ErrorMapper H) → ErrorMapper H
  unfolding reasons_mapper reason_problem
  map_reasons table fallback = reasons_mapper (copy_reasons [] table) (or_builtin fallback)
