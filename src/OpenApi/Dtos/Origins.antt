-- ===== src/OpenApi/Dtos/Origins.antt =====
-- `dtoSchema` puts entries into the table under the texts of Go types only.
use grpc_composition.Common.{
  ℕ, zero, suc, sym, not, ◌&&◌, List, [], ◌∷◌, Text, codes, text_eq, is_empty,
}
use mathlib.Core.Option.{some-ne-none}
use grpc_composition.Std.Strings.{cut_before}
use grpc_composition.Host.{Host}
use grpc_composition.OpenApi.Schema.{
  Schema, Properties, no_properties, object_schema, array_schema, map_schema,
}
use grpc_composition.OpenApi.Components.{Step}
use grpc_composition.OpenApi.Components.Ensures.{
  Ensures, Ensures-pure, Ensures-bind, Ensures-if, Ensures-component,
}
use grpc_composition.OpenApi.Dtos.{
  GoKind, StructField, Reflection, is_uint8, promoted_type, is_flattened, struct_schema, struct_ref,
  list_schema, go_kind_schema, add_struct_field, add_struct_fields_from, dto_schema,
  add_struct_fields, array_kind, map_kind, pointer_kind, slice_kind, struct_kind,
}

abbrev pub Whatever : {A : Type 0} → A → Type 0
Whatever a = Unit

module _ {H : Host} (T : Reflection H) (Made : Text → Schema → Type 0)
    (made : (t : H.GoType) (s : Schema) → Made (T.type_text t) s) where
  module _ (dto : H.GoType → Step Schema) (embed : H.GoType → Properties → Step Properties)
      (dtos : (t : H.GoType) → Ensures Made Whatever (dto t))
      (embeds : (t : H.GoType) (props : Properties) → Ensures Made Whatever (embed t props)) where
    struct_schema-origin : (t : H.GoType) → Ensures Made Whatever (struct_schema T dto embed t)
    unfolding struct_schema
    struct_schema-origin t =
        Ensures-bind Made (embed t no_properties) _ (embeds t no_properties)
          (λ props _. Ensures-pure Made (object_schema props) tt)

    named_struct-origin :
        (t : H.GoType) → Ensures Made (Made (T.type_text t)) (struct_schema T dto embed t)
    named_struct-origin t = record {
      ensured = λ st r e. (((struct_schema-origin t).ensured st r e).0, made t r.0);
    }

    forget_reference :
        {A : Type 0} {Q : A → Type 0} {m : Step A} → Ensures Made Q m → Ensures Made Whatever m
    forget_reference h = record { ensured = λ st r e. ((h.ensured st r e).0, tt) }

    list_schema-origin : (t : H.GoType) → Ensures Made Whatever (list_schema T dto embed t)
    unfolding list_schema
    list_schema-origin t =
        Ensures-if Made (is_uint8 (T.kind (T.elem_type t))) _ _ (Ensures-pure Made _ tt) (
          Ensures-bind Made (dto (T.elem_type t)) _ (dtos (T.elem_type t))
            (λ s _. Ensures-pure Made (array_schema s) tt))

    go_kind_schema-origin :
        (k : GoKind) (t : H.GoType) → Ensures Made Whatever (go_kind_schema T dto embed k t)
    unfolding go_kind_schema struct_ref
    go_kind_schema-origin pointer_kind t = dtos (T.elem_type t)
    go_kind_schema-origin slice_kind t = list_schema-origin t
    go_kind_schema-origin array_kind t = list_schema-origin t
    go_kind_schema-origin map_kind t =
        Ensures-bind Made (dto (T.elem_type t)) _ (dtos (T.elem_type t))
          (λ s _. Ensures-pure Made (map_schema s) tt)
    go_kind_schema-origin struct_kind t =
        Ensures-if Made (T.is_time t) _ _ (Ensures-pure Made _ tt) (
          Ensures-if Made (is_empty (T.type_name t)) _ _ (struct_schema-origin t)
            (forget_reference (Ensures-component Made (T.type_text t) _ (named_struct-origin t))))
    go_kind_schema-origin _ t = Ensures-pure Made _ tt

    add_struct_field-origin :
        (f : StructField H) (props : Properties)
        → Ensures Made Whatever (add_struct_field T dto embed f props)
    unfolding add_struct_field
    add_struct_field-origin f props =
        Ensures-if Made (not f.exported) _ _ (Ensures-pure Made props tt) (
          Ensures-if Made
            (text_eq (cut_before f.json_tag b',') (codes "-") && text_eq f.json_tag (codes "-")) _ _
            (Ensures-pure Made props tt)
            (Ensures-if Made (is_flattened T f (cut_before f.json_tag b',')) _ _
              (embeds (promoted_type T f.field_type) props)
              (Ensures-bind Made (dto f.field_type) _ (dtos f.field_type)
                (λ s _. Ensures-pure Made _ tt))))

    add_struct_fields_from-origin :
        (fs : List (StructField H)) (props : Properties)
        → Ensures Made Whatever (add_struct_fields_from T dto embed fs props)
    unfolding add_struct_fields_from
    add_struct_fields_from-origin [] props = Ensures-pure Made props tt
    add_struct_fields_from-origin (f ∷ fs) props =
        Ensures-bind Made (add_struct_field T dto embed f props) _ (add_struct_field-origin f props)
          (λ props' _. add_struct_fields_from-origin fs props')

  mutual
    unfolding dto_schema

    pub dto_schema-origin : (fuel : ℕ) (t : H.GoType) → Ensures Made Whatever (dto_schema T fuel t)
    dto_schema-origin zero t = record { ensured = λ st r e. absurd (some-ne-none r (sym e)) }
    dto_schema-origin (suc fuel) t = record {
      ensured =
          (go_kind_schema-origin (dto_schema T fuel) (add_struct_fields T fuel)
            (dto_schema-origin fuel) (add_struct_fields-origin fuel) (T.kind t) t).ensured;
    }

    pub add_struct_fields-origin :
        (fuel : ℕ) (t : H.GoType) (props : Properties)
        → Ensures Made Whatever (add_struct_fields T fuel t props)
    add_struct_fields-origin zero t props = record {
      ensured = λ st r e. absurd (some-ne-none r (sym e));
    }
    add_struct_fields-origin (suc fuel) t props = record {
      ensured =
          (add_struct_fields_from-origin (dto_schema T fuel) (add_struct_fields T fuel)
            (dto_schema-origin fuel) (add_struct_fields-origin fuel) (T.struct_fields t)
            props).ensured;
    }
