-- ===== src/Bind/Typed.antt =====
-- bind/typed.go: binders that parse a parameter.
pub mod Ints
use grpc_composition.Common.{
  ℕ, zero, suc, ◌+◌, ◌-◌, ◌*◌, ◌^◌, ◌%◌, ◌≤◌, ◌<◌, ◌≡◌, refl, sym, ap, ◌∙◌, ◌≢◌, ◌↔◌, ◌⊎◌, inl, inr,
  Bool, true, false, not, ◌&&◌, ◌||◌, List, [], ◌∷◌, ◌++◌, map, append-nil, append_assoc, Option,
  none, some, arith, Text, codes, ◌==◌, leb, ltb, if◌then◌else◌, text_eq, text_eq_iff, text_eq_refl,
  Result, ok, err, is_empty, ◌>>=◌, map_err, Result-cases, ok-injective, Option-cases, Bool-cases,
  length, length-append, lookup, insert, lookup-insert, NodupKeys, last_some, or_else, or_option,
  gather,
}
use grpc_composition.Std.Errors.{wrap, plain}
use grpc_composition.Std.Http.{query_get, header_get}
use grpc_composition.Std.Strconv.{ℤ, NumError, syntax, range, parse_int, parse_bool, to_int32}
use grpc_composition.Host.{Host, Err, Request}
use grpc_composition.Spec.{ParamSpec}
use grpc_composition.Globals.{Globals, Binder, path_param}
use grpc_composition.Bind.Params.{path_spec, query_spec, header_spec, string_type, param_binder}

abbrev integer_type : Text
integer_type = codes "integer"

abbrev boolean_type : Text
boolean_type = codes "boolean"

abbrev number_type : Text
number_type = codes "number"

-- What `NumError.Error` says of the failure.
reason : NumError → Text
reason syntax = codes ": invalid syntax"
reason range = codes ": value out of range"

module _ (H : Host) where
  -- An error of a function of strconv, by its text.
  num_error : Text → Text → NumError → Err H
  unfolding reason
  num_error fn s e =
      plain (codes "strconv." ++ (fn ++ (codes ": parsing " ++ (H.quote s ++ reason e))))

  -- `parseInt32`.
  unfoldable pub parse_int32 : Text → Result (Err H) ℤ
  unfolding num_error
  parse_int32 s = map_err (num_error (codes "ParseInt") s) (parse_int 32 s) >>= λ n. ok (to_int32 n)

  -- `parseInt64`.
  unfoldable pub parse_int64 : Text → Result (Err H) ℤ
  unfolding num_error
  parse_int64 s = map_err (num_error (codes "ParseInt") s) (parse_int 64 s)

  -- `strconv.ParseBool`, with its error.
  parse_bool_text : Text → Result (Err H) Bool
  unfolding num_error
  parse_bool_text s = map_err (num_error (codes "ParseBool") s) (parse_bool s)

  module _ {Req T : Type 0} where
    -- The part that `queryAs` and `headerAs` share: an empty value leaves the message as it is.
    abbrev bind_optional :
        Text → (Text → Result (Err H) T) → (Req → T → Req) → Text → Req → Result (Err H) Req
    bind_optional name parse setter raw req =
        if is_empty raw then ok req else map_err (wrap name) (parse raw) >>= λ v. ok (setter req v)

    -- `pathAs`.
    unfoldable pub path_as_type :
        Text → (Text → Result (Err H) T) → (Req → T → Req) → Text → Text → Binder H Req
    unfolding path_spec path_param
    path_as_type name parse setter typ format =
        param_binder H
          (λ g r req.
            map_err (wrap name) (parse (path_param H g r name)) >>= λ v. ok (setter req v))
          (path_spec name typ format)

    -- `queryAs`.
    unfoldable pub query_as_type :
        Text → (Text → Result (Err H) T) → (Req → T → Req) → Text → Text → Binder H Req
    unfolding query_spec query_get
    query_as_type name parse setter typ format =
        param_binder H (λ g r req. bind_optional name parse setter (query_get r name) req)
          (query_spec name typ format)

    -- `headerAs`.
    unfoldable pub header_as_type :
        Text → (Text → Result (Err H) T) → (Req → T → Req) → Text → Text → Binder H Req
    unfolding header_spec header_get
    header_as_type name parse setter typ format =
        param_binder H (λ g r req. bind_optional name parse setter (header_get r.header name) req)
          (header_spec name typ format)

    -- `PathAs`, `QueryAs`, `HeaderAs`.
    unfoldable pub path_as : Text → (Text → Result (Err H) T) → (Req → T → Req) → Binder H Req
    unfolding path_as_type
    path_as name parse setter = path_as_type name parse setter string_type []

    unfoldable pub query_as : Text → (Text → Result (Err H) T) → (Req → T → Req) → Binder H Req
    unfolding query_as_type
    query_as name parse setter = query_as_type name parse setter string_type []

    unfoldable pub header_as : Text → (Text → Result (Err H) T) → (Req → T → Req) → Binder H Req
    unfolding header_as_type
    header_as name parse setter = header_as_type name parse setter string_type []

  module _ {Req : Type 0} where
    -- `PathInt32`.
    unfoldable pub path_int32 : Text → (Req → ℤ → Req) → Binder H Req
    unfolding path_as_type parse_int32
    path_int32 name setter = path_as_type name parse_int32 setter integer_type (codes "int32")

    -- `PathInt64`.
    unfoldable pub path_int64 : Text → (Req → ℤ → Req) → Binder H Req
    unfolding path_as_type parse_int64
    path_int64 name setter = path_as_type name parse_int64 setter integer_type (codes "int64")

    -- `PathBool`.
    unfoldable pub path_bool : Text → (Req → Bool → Req) → Binder H Req
    unfolding path_as_type parse_bool_text
    path_bool name setter = path_as_type name parse_bool_text setter boolean_type ([])

    -- `QueryInt32`.
    unfoldable pub query_int32 : Text → (Req → ℤ → Req) → Binder H Req
    unfolding query_as_type parse_int32
    query_int32 name setter = query_as_type name parse_int32 setter integer_type (codes "int32")

    -- `QueryInt64`.
    unfoldable pub query_int64 : Text → (Req → ℤ → Req) → Binder H Req
    unfolding query_as_type parse_int64
    query_int64 name setter = query_as_type name parse_int64 setter integer_type (codes "int64")

    -- `QueryBool`.
    unfoldable pub query_bool : Text → (Req → Bool → Req) → Binder H Req
    unfolding query_as_type parse_bool_text
    query_bool name setter = query_as_type name parse_bool_text setter boolean_type ([])

    -- `HeaderInt32`.
    unfoldable pub header_int32 : Text → (Req → ℤ → Req) → Binder H Req
    unfolding header_as_type parse_int32
    header_int32 name setter = header_as_type name parse_int32 setter integer_type (codes "int32")

    -- `HeaderInt64`.
    unfoldable pub header_int64 : Text → (Req → ℤ → Req) → Binder H Req
    unfolding header_as_type parse_int64
    header_int64 name setter = header_as_type name parse_int64 setter integer_type (codes "int64")

    -- `HeaderBool`.
    unfoldable pub header_bool : Text → (Req → Bool → Req) → Binder H Req
    unfolding header_as_type parse_bool_text
    header_bool name setter = header_as_type name parse_bool_text setter boolean_type ([])

    -- `PathFloat64`, over `strconv.ParseFloat(s, 64)`, which is a parameter with its type.
    unfoldable pub path_float64 :
        {Float : Type 0} → (Text → Result (Err H) Float) → Text → (Req → Float → Req) → Binder H Req
    unfolding path_as_type
    path_float64 parse_float64 name setter =
        path_as_type name parse_float64 setter number_type (codes "double")

    -- `QueryFloat64`, over `strconv.ParseFloat(s, 64)`, which is a parameter with its type.
    unfoldable pub query_float64 :
        {Float : Type 0} → (Text → Result (Err H) Float) → Text → (Req → Float → Req) → Binder H Req
    unfolding query_as_type
    query_float64 parse_float64 name setter =
        query_as_type name parse_float64 setter number_type (codes "double")

    -- `HeaderFloat64`, over `strconv.ParseFloat(s, 64)`, which is a parameter with its type.
    unfoldable pub header_float64 :
        {Float : Type 0} → (Text → Result (Err H) Float) → Text → (Req → Float → Req) → Binder H Req
    unfolding header_as_type
    header_float64 parse_float64 name setter =
        header_as_type name parse_float64 setter number_type (codes "double")
