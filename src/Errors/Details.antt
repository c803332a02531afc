-- ===== src/Errors/Details.antt =====
-- What `populateDetails` leaves in a `ProblemDetails`, described member by member.
use grpc_composition.Common.{
  ◌<◌, ◌≡◌, sym, ◌∙◌, false, not, ◌&&◌, List, [], ◌∷◌, ◌++◌, append-nil, append_assoc, Option, none,
  some, arith, Text, codes, leb, if◌then◌else◌, is_empty, last_some, or_else,
}
use grpc_composition.Std.Http.{status_text}
use grpc_composition.Problem.{
  FieldViolation, ProblemDetails, Detail, bad_request, error_info, other_detail, Status, problem,
}
use grpc_composition.Host.{Host, Err}
use grpc_composition.Errors.{
  code_to_http, rfc7807_mapper, status_problem, append_violations, populate_detail,
  populate_details,
}

-- The field violations of all `BadRequest` details, in their order.
abbrev pub violations : List Detail → List FieldViolation
violations [] = []
violations (bad_request fvs ∷ ds) = fvs ++ violations ds
violations (error_info _ ∷ ds) = violations ds
violations (other_detail ∷ ds) = violations ds

abbrev pub reason_in : Detail → Option Text
reason_in (error_info v) = some v.reason
reason_in _ = none

-- The type URI that one detail gives: a domain and a reason that are both present.
abbrev pub type_in : Detail → Option Text
type_in (error_info v) =
    if not (is_empty v.domain) && not (is_empty v.reason)
    then some (v.domain ++ (codes "/" ++ v.reason))
    else none
type_in _ = none

abbrev pub metadata_in : Detail → Option (List (Text × Text))
metadata_in (error_info v) = if not (is_empty v.metadata) then some v.metadata else none
metadata_in _ = none

-- The members that the details add to a problem.
abbrev pub detailed : ProblemDetails → List Detail → ProblemDetails
detailed prob ds = record prob {
  errors = prob.errors ++ violations ds;
  reason = or_else (last_some reason_in ds) prob.reason;
  type_uri = or_else (last_some type_in ds) prob.type_uri;
  metadata = or_else (last_some metadata_in ds) prob.metadata;
}

append_violations_lem :
    (errors fvs : List FieldViolation) → append_violations errors fvs ≡ errors ++ fvs
unfolding append_violations
append_violations_lem errors [] = sym (append-nil errors)
append_violations_lem errors (fv ∷ fvs) =
    append_violations_lem (errors ++ (fv ∷ [])) fvs ∙ append_assoc errors (fv ∷ []) fvs

detailed-cons :
    (prob : ProblemDetails) (d : Detail) (ds : List Detail)
    → detailed (populate_detail prob d) ds ≡ detailed prob (d ∷ ds)
unfolding populate_detail
detailed-cons prob (bad_request fvs) ds = rw (append_violations_lem, append_assoc) (ground arith)
detailed-cons prob (error_info v) ds = ground arith
detailed-cons prob other_detail ds = ground arith

-- After the loop `errors` holds every field violation in order behind those that were there, and
-- reason, type and metadata hold what the last detail gave that had any.
pub populate_details_lem :
    (prob : ProblemDetails) (ds : List Detail) → populate_details prob ds ≡ detailed prob ds
unfolding populate_details
populate_details_lem prob [] = rw append-nil
populate_details_lem prob (d ∷ ds) =
    populate_details_lem (populate_detail prob d) ds ∙ detailed-cons prob d ds

module _ (H : Host) where
  -- Below 500 the default mapper answers with the status of the code: the message of the gRPC
  -- status is the detail, and the members are those that the details of the status give.
  pub rfc7807_mapper-details :
      (e : Err H) (st : Status)
      → H.from_error e ≡ some st
      → code_to_http st.code < 500
      → rfc7807_mapper H e ≡ (
        code_to_http st.code,
        problem (record {
          type_uri = or_else (last_some type_in st.details) [];
          title = status_text (code_to_http st.code);
          status = code_to_http st.code;
          detail = st.message;
          instance_uri = [];
          reason = or_else (last_some reason_in st.details) [];
          errors = violations st.details;
          metadata = or_else (last_some metadata_in st.details) [];
        }),
      )
  unfolding rfc7807_mapper
  rfc7807_mapper-details e st found low =
      let small : leb 500 (code_to_http st.code) ≡ false = ground arith in
      rw (found, rfc7807_mapper, status_problem, small, populate_details_lem)
