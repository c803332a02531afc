-- ===== src/Tests/Mappers.antt =====
-- The error mappers.
use grpc_composition.Common.{
  ◌≤◌, ◌<◌, ◌≡◌, refl, [], ◌∷◌, none, some, arith, codes, leb, if◌then◌else◌, text_eq, is_empty,
  lookup, NodupKeys, last_some, or_else,
}
use grpc_composition.Std.Http.{status_text}
use grpc_composition.Problem.{not_found, ErrorInfo, problem}
use grpc_composition.Errors.{
  code_to_http, rfc7807_mapper, error_info_of, ReasonMapping, map_reasons, internal_error,
}
use grpc_composition.Errors.Codes.{rfc7807_mapper-redacted, redacted}
use grpc_composition.Errors.Details.{
  violations, reason_in, type_in, metadata_in, rfc7807_mapper-details,
}
use grpc_composition.Errors.Reasons.{Table, merge, map_reasons-merge, map_reasons-detail}
use grpc_composition.Tests.Demo.{demo, missing, missing_status, secret}

mapper_test : (rfc7807_mapper demo secret).0 ≡ 500
unfolding rfc7807_mapper code_to_http
mapper_test = refl

secret_is_5xx : 500 ≤ (rfc7807_mapper demo secret).0
secret_is_5xx = rw mapper_test (omega arith)

redacted_example : (rfc7807_mapper demo secret).1 ≡ redacted demo (rfc7807_mapper demo secret).0
redacted_example = rfc7807_mapper-redacted demo secret secret_is_5xx

missing_is_4xx : code_to_http missing_status.code < 500
unfolding code_to_http
missing_is_4xx = omega arith

details_example : rfc7807_mapper demo missing ≡ (
  code_to_http not_found,
  problem (record {
    type_uri = or_else (last_some type_in missing_status.details) [];
    title = status_text (code_to_http not_found);
    status = code_to_http not_found;
    detail = codes "no such user";
    instance_uri = [];
    reason = or_else (last_some reason_in missing_status.details) [];
    errors = violations missing_status.details;
    metadata = or_else (last_some metadata_in missing_status.details) [];
  }),
)
details_example = rfc7807_mapper-details demo missing missing_status refl missing_is_4xx

members_test :
    (or_else (last_some type_in missing_status.details) [] ≡ codes "users/GONE")
    × (or_else (last_some reason_in missing_status.details) [] ≡ codes "GONE")
members_test = (refl, refl)

abbrev gone : ReasonMapping
gone = record { status = 503; detail = [] }

abbrev table : Table
table = (codes "GONE", gone) ∷ []

abbrev base_table : Table
base_table =
    (codes "GONE", record { status = 410; detail = [] })
    ∷ (codes "BUSY", record { status = 429; detail = [] })
    ∷ []

abbrev gone_info : ErrorInfo
gone_info = record { reason = codes "GONE"; domain = codes "users"; metadata = [] }

first_info : error_info_of missing_status.details ≡ some gone_info
unfolding error_info_of
first_info = refl

table_hit : lookup (codes "GONE") table ≡ some gone
unfolding lookup text_eq
table_hit = refl

table-NodupKeys : NodupKeys table
unfolding lookup
table-NodupKeys = (refl, tt)

base_table-NodupKeys : NodupKeys base_table
unfolding lookup text_eq
base_table-NodupKeys = (refl, (refl, tt))

map_reasons-merge_example :
    map_reasons demo table (some (map_reasons demo base_table none)) missing
    ≡ map_reasons demo (merge table base_table) none missing
map_reasons-merge_example =
    map_reasons-merge demo table base_table none missing table-NodupKeys base_table-NodupKeys

map_reasons-detail_example : map_reasons demo table none missing ≡ (
  503,
  problem (record {
    type_uri = or_else (last_some type_in missing_status.details) [];
    title = status_text 503;
    status = 503;
    detail =
        if is_empty gone.detail
        then (if leb 500 gone.status then internal_error else missing_status.message)
        else gone.detail;
    instance_uri = [];
    reason = or_else (last_some reason_in missing_status.details) [];
    errors = violations missing_status.details;
    metadata = or_else (last_some metadata_in missing_status.details) [];
  }),
)
map_reasons-detail_example =
    map_reasons-detail demo table none missing missing_status gone_info gone table-NodupKeys refl
      first_info table_hit
