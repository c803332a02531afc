-- ===== src/OpenApi/Dtos/Fuel.antt =====
-- More fuel gives `dtoSchema` the same result.
use grpc_composition.Common.{ℕ, zero, suc, sym, not, ◌&&◌, List, [], ◌∷◌, codes, text_eq, is_empty}
use mathlib.Core.Option.{some-ne-none}
use grpc_composition.Std.Strings.{cut_before}
use grpc_composition.Host.{Host}
use grpc_composition.OpenApi.Schema.{
  Schema, Properties, no_properties, object_schema, array_schema, map_schema,
}
use grpc_composition.OpenApi.Components.{Step, pure}
use grpc_composition.OpenApi.Components.Below.{
  Below, Below-refl, Below-bind, Below-if, Below-component,
}
use grpc_composition.OpenApi.Dtos.{
  GoKind, StructField, Reflection, is_uint8, promoted_type, is_flattened, struct_schema, struct_ref,
  list_schema, go_kind_schema, add_struct_field, add_struct_fields_from, dto_schema,
  add_struct_fields, array_kind, map_kind, pointer_kind, slice_kind, struct_kind,
}

module _ {H : Host} (T : Reflection H) where
  module _ (dto dto' : H.GoType → Step Schema)
      (embed embed' : H.GoType → Properties → Step Properties)
      (dtos : (t : H.GoType) → Below (dto t) (dto' t))
      (embeds : (t : H.GoType) (props : Properties) → Below (embed t props) (embed' t props)) where
    Below-struct_schema :
        (t : H.GoType) → Below (struct_schema T dto embed t) (struct_schema T dto' embed' t)
    unfolding struct_schema
    Below-struct_schema t =
        Below-bind (embed t no_properties) (embed' t no_properties) _ _ (embeds t no_properties)
          (λ props. Below-refl (pure (object_schema props)))

    Below-list_schema :
        (t : H.GoType) → Below (list_schema T dto embed t) (list_schema T dto' embed' t)
    unfolding list_schema
    Below-list_schema t =
        Below-if (is_uint8 (T.kind (T.elem_type t))) _ _ _ _ (Below-refl (pure _)) (
          Below-bind (dto (T.elem_type t)) (dto' (T.elem_type t)) _ _ (dtos (T.elem_type t))
            (λ s. Below-refl (pure (array_schema s))))

    Below-go_kind_schema :
        (k : GoKind) (t : H.GoType)
        → Below (go_kind_schema T dto embed k t) (go_kind_schema T dto' embed' k t)
    unfolding go_kind_schema struct_ref
    Below-go_kind_schema pointer_kind t = dtos (T.elem_type t)
    Below-go_kind_schema slice_kind t = Below-list_schema t
    Below-go_kind_schema array_kind t = Below-list_schema t
    Below-go_kind_schema map_kind t =
        Below-bind (dto (T.elem_type t)) (dto' (T.elem_type t)) _ _ (dtos (T.elem_type t))
          (λ s. Below-refl (pure (map_schema s)))
    Below-go_kind_schema struct_kind t = Below-if (T.is_time t) _ _ _ _ (Below-refl (pure _)) (
        Below-if (is_empty (T.type_name t)) _ _ _ _ (Below-struct_schema t)
          (Below-component (T.type_text t) _ _ (Below-struct_schema t)))
    Below-go_kind_schema _ t = λ st r e. e

    Below-add_struct_field :
        (f : StructField H) (props : Properties)
        → Below (add_struct_field T dto embed f props) (add_struct_field T dto' embed' f props)
    unfolding add_struct_field
    Below-add_struct_field f props = Below-if (not f.exported) _ _ _ _ (Below-refl (pure props)) (
        Below-if
          (text_eq (cut_before f.json_tag b',') (codes "-") && text_eq f.json_tag (codes "-")) _ _ _
          _ (Below-refl (pure props))
          (Below-if (is_flattened T f (cut_before f.json_tag b',')) _ _ _ _
            (embeds (promoted_type T f.field_type) props)
            (Below-bind (dto f.field_type) (dto' f.field_type) _ _ (dtos f.field_type)
              (λ s. Below-refl (pure _)))))

    Below-add_struct_fields_from :
        (fs : List (StructField H)) (props : Properties)
        → Below
            (add_struct_fields_from T dto embed fs props)
            (add_struct_fields_from T dto' embed' fs props)
    unfolding add_struct_fields_from
    Below-add_struct_fields_from [] props = Below-refl (pure props)
    Below-add_struct_fields_from (f ∷ fs) props =
        Below-bind (add_struct_field T dto embed f props) (add_struct_field T dto' embed' f props) _
          _ (Below-add_struct_field f props) (λ props'. Below-add_struct_fields_from fs props')

  mutual
    unfolding dto_schema

    pub dto_schema-Below :
        (fuel : ℕ) (t : H.GoType) → Below (dto_schema T fuel t) (dto_schema T (suc fuel) t)
    dto_schema-Below zero t st r e = absurd (some-ne-none r (sym e))
    dto_schema-Below (suc fuel) t st r e =
        Below-go_kind_schema (dto_schema T fuel) (dto_schema T (suc fuel))
          (add_struct_fields T fuel) (add_struct_fields T (suc fuel)) (dto_schema-Below fuel)
          (add_struct_fields-Below fuel) (T.kind t) t st r e

    pub add_struct_fields-Below :
        (fuel : ℕ) (t : H.GoType) (props : Properties)
        → Below (add_struct_fields T fuel t props) (add_struct_fields T (suc fuel) t props)
    add_struct_fields-Below zero t props st r e = absurd (some-ne-none r (sym e))
    add_struct_fields-Below (suc fuel) t props st r e =
        Below-add_struct_fields_from (dto_schema T fuel) (dto_schema T (suc fuel))
          (add_struct_fields T fuel) (add_struct_fields T (suc fuel)) (dto_schema-Below fuel)
          (add_struct_fields-Below fuel) (T.struct_fields t) props st r e
