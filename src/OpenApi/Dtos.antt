-- ===== src/OpenApi/Dtos.antt =====
-- openapi/reflectschema.go: the schemas of Go types, by reflection.
pub mod Parts
pub mod Runs
pub mod Named
pub mod Fuel
pub mod Origins
use grpc_composition.Common.{
  ℕ, zero, suc, ◌-◌, Bool, true, false, not, ◌&&◌, List, [], ◌∷◌, none, Text, codes, if◌then◌else◌,
  text_eq, is_empty,
}
use grpc_composition.Std.Strings.{cut_before}
use grpc_composition.Host.{Host}
use grpc_composition.OpenApi.Schema.{
  Schema, MaybeSchema, Properties, schema, absent, present, no_properties, property, typed,
  any_value, set_property, object_schema, array_schema, map_schema,
}
use grpc_composition.OpenApi.Components.{Schemas, Step, pure, bind_step, component}

-- `reflect.Kind`.
pub data GoKind : Type 0 where
  invalid_kind bool_kind int_kind int8_kind int16_kind int32_kind int64_kind uint_kind uint8_kind
        uint16_kind uint32_kind uint64_kind uintptr_kind float32_kind float64_kind complex64_kind
        complex128_kind array_kind chan_kind func_kind interface_kind map_kind pointer_kind
        slice_kind string_kind struct_kind unsafe_pointer_kind :
      GoKind

-- `reflect.StructField`: `Name`, `IsExported()`, `Tag.Get("json")`, `Anonymous` and `Type`.
pub record StructField (H : Host) : Type 0 where
  pub field_name : Text
  pub exported : Bool
  pub json_tag : Text
  pub anonymous : Bool
  pub field_type : H.GoType

-- Package reflect, at the methods of `reflect.Type` that the generator calls, the comparison with
-- `timeType`, and the type of `composition.ProblemDetails`.
pub record Reflection (H : Host) : Type 0 where
  pub kind : H.GoType → GoKind
  pub elem_type : H.GoType → H.GoType
  pub type_name : H.GoType → Text
  pub type_text : H.GoType → Text
  pub is_time : H.GoType → Bool
  pub struct_fields : H.GoType → List (StructField H)
  pub problem_details : H.GoType

abbrev pub is_struct : GoKind → Bool
is_struct struct_kind = true
is_struct _ = false

abbrev pub is_uint8 : GoKind → Bool
is_uint8 uint8_kind = true
is_uint8 _ = false

abbrev pub is_pointer : GoKind → Bool
is_pointer pointer_kind = true
is_pointer _ = false

module _ {H : Host} (T : Reflection H) where
  -- `ft` in `addStructFields`.
  abbrev pub promoted_type : H.GoType → H.GoType
  promoted_type t = if is_pointer (T.kind t) then T.elem_type t else t

  -- A field is flattened: it is embedded, has no name in its tag, and is a struct or a pointer to
  -- one.
  abbrev pub is_flattened : StructField H → Text → Bool
  is_flattened f name =
      f.anonymous && is_empty name && is_struct (T.kind (promoted_type f.field_type))

  -- The parts of a type's schema, over `dto`, which is `dtoSchema`, and `embed`, which is
  -- `addStructFields`, on the types below.
  module _ (dto : H.GoType → Step Schema) (embed : H.GoType → Properties → Step Properties) where
    -- `structSchema`.
    pub struct_schema : H.GoType → Step Schema
    struct_schema t =
        bind_step (embed t no_properties) (λ properties. pure (object_schema properties))

    -- `structRef`.
    pub struct_ref : H.GoType → Step Schema
    unfolding struct_schema
    struct_ref t =
        if is_empty (T.type_name t)
        then struct_schema t
        else component (T.type_text t) (struct_schema t)

    -- The `case` of slices and arrays in `dtoSchema`.
    list_schema : H.GoType → Step Schema
    list_schema t =
        if is_uint8 (T.kind (T.elem_type t))
        then pure (typed (codes "string") (codes "byte"))
        else bind_step (dto (T.elem_type t)) (λ s. pure (array_schema s))

    -- The `switch` of `dtoSchema`.
    pub go_kind_schema : GoKind → H.GoType → Step Schema
    unfolding struct_ref list_schema
    go_kind_schema pointer_kind t = dto (T.elem_type t)
    go_kind_schema bool_kind t = pure (typed (codes "boolean") [])
    go_kind_schema int_kind t = pure (typed (codes "integer") [])
    go_kind_schema int8_kind t = pure (typed (codes "integer") [])
    go_kind_schema int16_kind t = pure (typed (codes "integer") [])
    go_kind_schema int32_kind t = pure (typed (codes "integer") [])
    go_kind_schema uint_kind t = pure (typed (codes "integer") [])
    go_kind_schema uint8_kind t = pure (typed (codes "integer") [])
    go_kind_schema uint16_kind t = pure (typed (codes "integer") [])
    go_kind_schema uint32_kind t = pure (typed (codes "integer") [])
    go_kind_schema uint64_kind t = pure (typed (codes "integer") [])
    go_kind_schema int64_kind t = pure (typed (codes "integer") (codes "int64"))
    go_kind_schema float32_kind t = pure (typed (codes "number") [])
    go_kind_schema float64_kind t = pure (typed (codes "number") [])
    go_kind_schema string_kind t = pure (typed (codes "string") [])
    go_kind_schema slice_kind t = list_schema t
    go_kind_schema array_kind t = list_schema t
    go_kind_schema map_kind t = bind_step (dto (T.elem_type t)) (λ s. pure (map_schema s))
    go_kind_schema interface_kind t = pure any_value
    go_kind_schema struct_kind t =
        if T.is_time t then pure (typed (codes "string") (codes "date-time")) else struct_ref t
    go_kind_schema _ t = pure any_value

    -- One round of the loop of `addStructFields`.
    add_struct_field : StructField H → Properties → Step Properties
    unfolding cut_before
    add_struct_field f properties =
        if not f.exported
        then pure properties
        else let name = cut_before f.json_tag b',' in
          if text_eq name (codes "-") && text_eq f.json_tag (codes "-")
          then pure properties
          else if is_flattened f name
          then embed (promoted_type f.field_type) properties
          else bind_step (dto f.field_type)
              (λ s. pure (set_property (if is_empty name then f.field_name else name) s properties))

    -- The loop.
    pub add_struct_fields_from : List (StructField H) → Properties → Step Properties
    unfolding add_struct_field
    add_struct_fields_from [] properties = pure properties
    add_struct_fields_from (f ∷ fs) properties =
        bind_step (add_struct_field f properties)
          (λ properties'. add_struct_fields_from fs properties')

  -- `dtoSchema` and `addStructFields`, on fuel.
  unfoldable mutual
    unfolding go_kind_schema add_struct_fields_from

    pub dto_schema : ℕ → H.GoType → Step Schema
    dto_schema zero t st = none
    dto_schema (suc fuel) t st =
        go_kind_schema (dto_schema fuel) (add_struct_fields fuel) (T.kind t) t st

    pub add_struct_fields : ℕ → H.GoType → Properties → Step Properties
    add_struct_fields zero t props st = none
    add_struct_fields (suc fuel) t props st =
        add_struct_fields_from (dto_schema fuel) (add_struct_fields fuel) (T.struct_fields t) props
          st
