-- ===== src/Bind/Enums.antt =====
-- bind/typed.go: binders of protobuf enums.
pub mod Lookup
pub mod Documented
use grpc_composition.Common.{
  ℕ, zero, suc, ◌+◌, ◌-◌, ◌*◌, ◌^◌, ◌%◌, ◌≤◌, ◌<◌, ◌≡◌, refl, sym, ap, ◌∙◌, ◌≢◌, ◌↔◌, ◌⊎◌, inl, inr,
  Bool, true, false, not, ◌&&◌, ◌||◌, List, [], ◌∷◌, ◌++◌, map, append-nil, append_assoc, Option,
  none, some, arith, Text, codes, ◌==◌, leb, ltb, if◌then◌else◌, text_eq, text_eq_iff, text_eq_refl,
  Result, ok, err, is_empty, ◌>>=◌, map_err, Result-cases, ok-injective, Option-cases, Bool-cases,
  length, length-append, lookup, insert, lookup-insert, NodupKeys, last_some, or_else, or_option,
  gather,
}
use grpc_composition.Std.Errors.{wrap, plain}
use grpc_composition.Std.Http.{query_get, header_get}
use grpc_composition.Std.Strconv.{ℤ, atoi, to_int32}
use grpc_composition.Host.{Host, Err, Request}
use grpc_composition.Spec.{ParamSpec}
use grpc_composition.Globals.{Globals, Binder, path_param}
use grpc_composition.Bind.Params.{path_spec, query_spec, header_spec, string_type, param_binder}

-- `protoreflect.EnumValueDescriptor`, at the two methods that are called.
pub record EnumValue : Type 0 where
  pub name : Text
  pub number : ℤ

-- `protoreflect.EnumDescriptor`: `Values()` with its `ByName` and `ByNumber`, which give `none`
-- for nil. They are functions of the protobuf module.
pub record EnumDescriptor : Type 0 where
  pub values : List EnumValue
  pub by_name : Text → Option EnumValue
  pub by_number : ℤ → Option EnumValue

-- `enumValueNames`.
unfoldable pub enum_value_names : EnumDescriptor → List Text
enum_value_names desc = map (λ v. v.name) desc.values

-- `enumSpec`.
unfoldable pub enum_spec : EnumDescriptor → ParamSpec → ParamSpec
unfolding enum_value_names
enum_spec desc spec = record spec { enum_values = enum_value_names desc }

module _ (H : Host) where
  invalid_value : Text → Err H
  invalid_value raw = plain (H.quote raw ++ codes " is not a valid enum value")

  -- The second half of `lookupEnum`, for a number in decimal. `EnumNumber(n)` is an `int32`.
  lookup_number : EnumDescriptor → Text → Result (Err H) ℤ
  unfolding invalid_value
  lookup_number desc raw = elim (atoi raw) [
    | ok n ↦ elim (desc.by_number (to_int32 n)) [
      | some v ↦ ok v.number
      | none ↦ err (invalid_value raw)
    ]
    | err _ ↦ err (invalid_value raw)
  ]

  -- `lookupEnum`.
  unfoldable pub lookup_enum : EnumDescriptor → Text → Result (Err H) ℤ
  unfolding lookup_number
  lookup_enum desc raw = elim (desc.by_name raw) [
    | some v ↦ ok v.number
    | none ↦ lookup_number desc raw
  ]

  module _ {Req : Type 0} where
    -- The part that `QueryEnum` and `HeaderEnum` share.
    abbrev optional_enum : EnumDescriptor → Text → (Req → ℤ → Req) → Text → Req → Result (Err H) Req
    optional_enum desc name setter raw req =
        if is_empty raw
        then ok req
        else map_err (wrap name) (lookup_enum desc raw) >>= λ n. ok (setter req n)

    -- `PathEnum`.
    unfoldable pub path_enum : EnumDescriptor → Text → (Req → ℤ → Req) → Binder H Req
    unfolding path_spec path_param enum_spec lookup_enum
    path_enum desc name setter =
        param_binder H
          (λ g r req. map_err (wrap name) (lookup_enum desc (path_param H g r name)) >>= λ n.
            ok (setter req n))
          (enum_spec desc (path_spec name string_type []))

    -- `QueryEnum`.
    unfoldable pub query_enum : EnumDescriptor → Text → (Req → ℤ → Req) → Binder H Req
    unfolding query_spec query_get enum_spec lookup_enum
    query_enum desc name setter =
        param_binder H (λ g r req. optional_enum desc name setter (query_get r name) req)
          (enum_spec desc (query_spec name string_type []))

    -- `HeaderEnum`.
    unfoldable pub header_enum : EnumDescriptor → Text → (Req → ℤ → Req) → Binder H Req
    unfolding header_spec header_get enum_spec lookup_enum
    header_enum desc name setter =
        param_binder H (λ g r req. optional_enum desc name setter (header_get r.header name) req)
          (enum_spec desc (header_spec name string_type []))
