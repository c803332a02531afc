-- ===== src/Tests/Binders.antt =====
-- Binders on concrete requests.
use grpc_composition.Common.{
  ◌-◌, ◌^◌, ◌≡◌, refl, ◌↔◌, inl, inr, List, [], ◌∷◌, ◌++◌, none, arith, Text, codes, leb,
  if◌then◌else◌, text_eq, Result, ok, err, length,
}
use grpc_composition.Std.Errors.{max_bytes}
use grpc_composition.Std.Http.{query_get, header_get}
use grpc_composition.Std.Strconv.{ℤ, pos, to_int32}
use grpc_composition.Host.{Err}
use grpc_composition.Globals.{Globals, Binder, path_param, set_default_max_body_bytes}
use grpc_composition.Response.{answer, problem_type}
use grpc_composition.Route.{Route, proxy, serve_http, bind_all}
use grpc_composition.Route.Serve.{bind_problem}
use grpc_composition.Bind.Params.{path_string}
use grpc_composition.Bind.Typed.{path_int32, query_int32, header_int32}
use grpc_composition.Bind.Typed.Ints.{Stores, StoresOptional, int32_binders_iff}
use grpc_composition.Common.{Any, length, ap}
use grpc_composition.Bind.Enums.{EnumValue, EnumDescriptor, enum_value_names, lookup_enum}
use grpc_composition.Bind.Enums.Documented.{HasOwnNames, lookup_enum-name}
use grpc_composition.Bind.Enums.Lookup.{
  int_eq, find, IsLawful, Declares, Declares-lookup_enum, lookup_enum-wraps, lookup_enum-int32,
}
use grpc_composition.Bind.Body.{read_body, body_json}
use grpc_composition.Bind.Body.Limit.{
  whole, read_body-limit, read_body-max_int64, serve_http-too_large, body_json-clears,
}
use grpc_composition.Tests.Demo.{demo, globals, request, get_user, text_response, set_text}

abbrev limited : ℤ → Globals demo
limited n = set_default_max_body_bytes demo n globals

limited_by : (n : ℤ) → (limited n).max_body_bytes ≡ n
unfolding set_default_max_body_bytes
limited_by n = refl

read_body-limit_example :
    read_body demo (limited (pos 2)) request
    ≡ (if leb (length request.body.content) 2 then whole demo request else err max_bytes)
read_body-limit_example =
    read_body-limit demo (limited (pos 2)) 2 request (limited_by (pos 2)) (omega arith)
      (omega arith)

read_body-max_int64_example : read_body demo (limited (pos (2 ^ 63 - 1))) request ≡ ok ([], request)
read_body-max_int64_example =
    read_body-max_int64 demo (limited (pos (2 ^ 63 - 1))) request (limited_by (pos (2 ^ 63 - 1)))

-- An unmarshaller that stores the whole text.
abbrev keep_bytes : Text → Text → Result (Err demo) Text
keep_bytes bytes m = ok bytes

abbrev by_id : Binder demo Text
by_id = path_string demo (codes "id") set_text

abbrev by_body : Binder demo Text
by_body = body_json demo keep_bytes (codes "proto")

abbrev uploading : Route demo Text Text
uploading = proxy demo get_user (by_id ∷ by_body ∷ by_id ∷ [])

uploading_binders : uploading.binders ≡ (by_id ∷ []) ++ (by_body ∷ (by_id ∷ []))
unfolding proxy
uploading_binders = refl

by_id_passes : bind_all demo (limited (pos 1)) (by_id ∷ []) [] request ≡ ok (codes "7", request)
unfolding bind_all path_string text_eq set_default_max_body_bytes
by_id_passes = refl

serve_http-too_large_example :
    serve_http demo (limited (pos 1)) text_response [] uploading [] request 0 ≡ (
      []
          ++ answer demo problem_type 413
              (demo.encode (bind_problem demo 413 (codes "http: request body too large"))),
      0,
    )
serve_http-too_large_example =
    serve_http-too_large demo (limited (pos 1)) text_response keep_bytes (codes "proto") 1 []
      (codes "7") uploading (by_id ∷ []) (by_id ∷ []) [] request request 0 (limited_by (pos 1))
      (omega arith) (omega arith) uploading_binders by_id_passes (omega arith)

by_id_fills : by_id.bind globals request [] ≡ ok (codes "7", request)
unfolding path_string text_eq
by_id_fills = refl

body_json-clears_example :
    bind_all demo globals (by_id ∷ by_body ∷ []) [] request
    ≡ bind_all demo globals (by_body ∷ []) [] request
body_json-clears_example =
    body_json-clears demo globals keep_bytes (codes "proto") by_id [] [] (codes "7") request
      (λ bytes m m'. refl) by_id_fills

-- A message with one number.
abbrev set_number : ℤ → ℤ → ℤ
set_number old new = new

int32_binders_example :
    (((path_int32 demo (codes "id") set_number).bind globals request (pos 0) ≡ ok (pos 7, request))
      ↔ ((request ≡ request)
          × Stores set_number (path_param demo globals request (codes "id")) (pos 0) (pos 7)))
    × (((query_int32 demo (codes "id") set_number).bind globals request (pos 0)
          ≡ ok (pos 7, request))
        ↔ ((request ≡ request)
            × StoresOptional set_number (query_get request (codes "id")) (pos 0) (pos 7)))
    × (((header_int32 demo (codes "id") set_number).bind globals request (pos 0)
          ≡ ok (pos 7, request))
        ↔ ((request ≡ request)
            × StoresOptional set_number (header_get request.header (codes "id")) (pos 0) (pos 7)))
int32_binders_example =
    int32_binders_iff demo globals (codes "id") set_number request request (pos 0) (pos 7)

abbrev statuses : List EnumValue
statuses =
    record { name = codes "STATUS_UNSPECIFIED"; number = pos 0 }
    ∷ record { name = codes "STATUS_ACTIVE"; number = pos 1 }
    ∷ []

abbrev status_enum : EnumDescriptor
status_enum = record {
  values = statuses;
  by_name = λ s. find (λ v. text_eq v.name s) statuses;
  by_number = λ n. find (λ v. int_eq v.number n) statuses;
}

status_enum-IsLawful : IsLawful status_enum
status_enum-IsLawful = record { by_name_lem = λ s. refl; by_number_lem = λ n. refl }

abbrev one_above : Text
one_above = codes "4294967297"

one_unnamed : status_enum.by_name (codes "1") ≡ none
unfolding text_eq
one_unnamed = refl

one_above_unnamed : status_enum.by_name one_above ≡ none
unfolding text_eq
one_above_unnamed = refl

active_is_one : lookup_enum demo status_enum (codes "STATUS_ACTIVE") ≡ ok (pos 1)
unfolding lookup_enum text_eq
active_is_one = refl

Declares-lookup_enum_example : Declares status_enum.values (pos 1)
Declares-lookup_enum_example =
    Declares-lookup_enum demo status_enum status_enum-IsLawful (codes "STATUS_ACTIVE") (pos 1)
      active_is_one

lookup_enum-int32_example :
    (lookup_enum demo status_enum (codes "1") ≡ ok (pos 1))
    ↔ ((pos 1 ≡ pos 1) × Declares status_enum.values (pos 1))
lookup_enum-int32_example =
    lookup_enum-int32 demo status_enum status_enum-IsLawful (codes "1") (pos 1) (pos 1) one_unnamed
      refl (omega arith)

lookup_enum-wraps_example :
    (lookup_enum demo status_enum one_above ≡ ok (pos 1))
    ↔ ((to_int32 (pos 4294967297) ≡ pos 1) × Declares status_enum.values (pos 1))
lookup_enum-wraps_example =
    lookup_enum-wraps demo status_enum status_enum-IsLawful one_above (pos 4294967297) (pos 1)
      one_above_unnamed refl (omega arith)

-- The text is no number that the enum has, and is accepted.
wrapped_is_active : lookup_enum demo status_enum one_above ≡ ok (pos 1)
unfolding to_int32
wrapped_is_active = lookup_enum-wraps_example.1 (refl, inr (inl refl))

statuses_named : HasOwnNames statuses
statuses_named = (((λ e. absurd (omega (arith, ap length e))), tt), (tt, tt))

lookup_enum-name_example :
    Any (λ s. s ≡ codes "STATUS_ACTIVE") (enum_value_names status_enum)
    × (lookup_enum demo status_enum (codes "STATUS_ACTIVE") ≡ ok (pos 1))
lookup_enum-name_example =
    lookup_enum-name demo status_enum (record { name = codes "STATUS_ACTIVE"; number = pos 1 })
      status_enum-IsLawful statuses_named (inr (inl refl))
