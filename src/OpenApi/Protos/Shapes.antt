-- ===== src/OpenApi/Protos/Shapes.antt =====
-- The schemas of messages as functions of their descriptors, whatever the table was, and that
-- `messageRef` gives them.
use grpc_composition.Common.{
  ℕ, zero, suc, ◌≡◌, refl, sym, ap, inl, inr, List, [], ◌∷◌, Text, codes, if◌then◌else◌,
  Option-cases, Bool-cases, or_else,
}
use mathlib.Core.Option.{some-ne-none}
use mathlib.Core.Path.{subst}
use grpc_composition.Host.{Host}
use grpc_composition.OpenApi.Schema.{
  Schema, Properties, no_properties, typed, any_value, enum_schema, set_property, object_schema,
  array_schema, map_schema, well_known_schema,
}
use grpc_composition.OpenApi.Components.{Step, pure, reference}
use grpc_composition.OpenApi.Components.Ensures.{
  Ensures, Ensures-pure, Ensures-bind, Ensures-component,
}
use grpc_composition.OpenApi.Protos.{
  Kind, Protoreflect, enum_value_names, kind_schema, singular_schema, field_schema, add_fields,
  message_schema, message_ref, bool_kind, enum_kind, int32_kind, sint32_kind, uint32_kind,
  int64_kind, sint64_kind, uint64_kind, sfixed32_kind, fixed32_kind, float_kind, sfixed64_kind,
  fixed64_kind, double_kind, string_kind, bytes_kind, message_kind, group_kind, unnamed_kind,
}

module _ {H : Host} (R : Protoreflect H) (opts : H.MarshalOptions) where
  -- A well-known schema, or a reference to the full name.
  abbrev pub ref_shape : R.MessageDescriptor → Schema
  ref_shape md = or_else (well_known_schema (R.full_name md)) (reference (R.full_name md))

  abbrev pub kind_shape : Kind → R.FieldDescriptor → Schema
  kind_shape bool_kind fd = typed (codes "boolean") []
  kind_shape int32_kind fd = typed (codes "integer") (codes "int32")
  kind_shape sint32_kind fd = typed (codes "integer") (codes "int32")
  kind_shape sfixed32_kind fd = typed (codes "integer") (codes "int32")
  kind_shape uint32_kind fd = typed (codes "integer") []
  kind_shape fixed32_kind fd = typed (codes "integer") []
  kind_shape int64_kind fd = typed (codes "string") (codes "int64")
  kind_shape sint64_kind fd = typed (codes "string") (codes "int64")
  kind_shape sfixed64_kind fd = typed (codes "string") (codes "int64")
  kind_shape uint64_kind fd = typed (codes "string") (codes "int64")
  kind_shape fixed64_kind fd = typed (codes "string") (codes "int64")
  kind_shape float_kind fd = typed (codes "number") (codes "float")
  kind_shape double_kind fd = typed (codes "number") (codes "double")
  kind_shape string_kind fd = typed (codes "string") []
  kind_shape bytes_kind fd = typed (codes "string") (codes "byte")
  kind_shape enum_kind fd =
      if R.use_enum_numbers opts
      then typed (codes "integer") (codes "int32")
      else enum_schema (enum_value_names (R.enum_type fd))
  kind_shape message_kind fd = ref_shape (R.message_type fd)
  kind_shape group_kind fd = ref_shape (R.message_type fd)
  kind_shape (unnamed_kind _) fd = any_value

  abbrev pub singular_shape : R.FieldDescriptor → Schema
  singular_shape fd = kind_shape (R.kind fd) fd

  abbrev pub field_shape : R.FieldDescriptor → Schema
  field_shape fd =
      if R.is_map fd
      then map_schema (singular_shape (R.map_value fd))
      else if R.is_list fd
      then array_schema (singular_shape fd)
      else singular_shape fd

  abbrev pub field_name : R.FieldDescriptor → Text
  field_name fd = if R.use_proto_names opts then R.text_name fd else R.json_name fd

  unfoldable pub add_shapes : List R.FieldDescriptor → Properties → Properties
  unfolding set_property
  add_shapes [] props = props
  add_shapes (fd ∷ fds) props = add_shapes fds (set_property (field_name fd) (field_shape fd) props)

  abbrev pub message_shape : R.MessageDescriptor → Schema
  message_shape md = object_schema (add_shapes (R.fields md) no_properties)

  module _ (Made : Text → Schema → Type 0)
      (made : (md : R.MessageDescriptor) → Made (R.full_name md) (message_shape md)) where
    module _ (call : R.MessageDescriptor → Step Schema)
        (calls : (md : R.MessageDescriptor) → Ensures Made (λ s. s ≡ ref_shape md) (call md)) where
      kind_schema-shape :
          (k : Kind) (fd : R.FieldDescriptor)
          → Ensures Made (λ s. s ≡ kind_shape k fd) (kind_schema R opts call k fd)
      unfolding kind_schema
      kind_schema-shape message_kind fd = calls (R.message_type fd)
      kind_schema-shape group_kind fd = calls (R.message_type fd)
      kind_schema-shape _ fd = Ensures-pure Made _ refl

      field_schema-shape :
          (fd : R.FieldDescriptor)
          → Ensures Made (λ s. s ≡ field_shape fd) (field_schema R opts call fd)
      unfolding field_schema singular_schema
      field_schema-shape fd = elim (Bool-cases (R.is_map fd)) [
        | inl e ↦
            rw (field_schema, e)
              (Ensures-bind Made (singular_schema R opts call (R.map_value fd))
                (λ s. pure (map_schema s))
                (kind_schema-shape (R.kind (R.map_value fd)) (R.map_value fd))
                (λ s is. Ensures-pure Made (map_schema s) (ap map_schema is)))
        | inr e ↦
            rw (field_schema, e)
              (Ensures-bind Made (singular_schema R opts call fd)
                (λ s. if R.is_list fd then pure (array_schema s) else pure s)
                (kind_schema-shape (R.kind fd) fd)
                (λ s is. elim (Bool-cases (R.is_list fd)) [
                  | inl l ↦ rw l (Ensures-pure Made (array_schema s) (ap array_schema is))
                  | inr l ↦ rw l (Ensures-pure Made s is)
                ]))
      ]

      add_fields-shape :
          (fds : List R.FieldDescriptor) (props : Properties)
          → Ensures Made (λ p. p ≡ add_shapes fds props) (add_fields R opts call fds props)
      unfolding add_fields add_shapes
      add_fields-shape [] props = Ensures-pure Made props refl
      add_fields-shape (fd ∷ fds) props =
          Ensures-bind Made (field_schema R opts call fd) _ (field_schema-shape fd) (λ s is.
            rw is (add_fields-shape fds (set_property (field_name fd) (field_shape fd) props)))

      message_schema-shape :
          (md : R.MessageDescriptor)
          → Ensures Made (λ s. s ≡ message_shape md) (message_schema R opts call md)
      unfolding message_schema
      message_schema-shape md =
          Ensures-bind Made (add_fields R opts call (R.fields md) no_properties) _
            (add_fields-shape (R.fields md) no_properties)
            (λ props is. Ensures-pure Made (object_schema props) (ap object_schema is))

    message-Made :
        (md : R.MessageDescriptor) {m : Step Schema}
        → Ensures Made (λ s. s ≡ message_shape md) m
        → Ensures Made (Made (R.full_name md)) m
    message-Made md h = record {
      ensured = λ st r e.
          let (grows, is) = h.ensured st r e in
          (grows, subst (Made (R.full_name md)) (sym is) (made md));
    }

    pub message_ref-shape :
        (fuel : ℕ) (md : R.MessageDescriptor)
        → Ensures Made (λ s. s ≡ ref_shape md) (message_ref R opts fuel md)
    unfolding message_ref
    message_ref-shape zero md = record { ensured = λ st r e. absurd (some-ne-none r (sym e)) }
    message_ref-shape (suc fuel) md = record {
      ensured = λ st r e. elim (Option-cases (well_known_schema (R.full_name md))) [
        | inr (s, known) ↦ rw known (
            (Ensures-pure Made {Q = λ t. t ≡ s} s refl).ensured st r (rw (message_ref, known) at e))
        | inl ordinary ↦ rw ordinary (
            (Ensures-component Made (R.full_name md)
                (message_schema R opts (message_ref R opts fuel) md)
                (message-Made md (
                  message_schema-shape (message_ref R opts fuel) (message_ref-shape fuel)
                    md))).ensured
              st r (rw (message_ref, ordinary) at e))
      ];
    }
