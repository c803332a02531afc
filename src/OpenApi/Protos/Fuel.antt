-- ===== src/OpenApi/Protos/Fuel.antt =====
-- More fuel gives `messageRef` the same result.
use grpc_composition.Common.{
  ℕ, zero, suc, sym, inl, inr, List, [], ◌∷◌, if◌then◌else◌, Option-cases,
}
use mathlib.Core.Option.{some-ne-none}
use grpc_composition.Host.{Host}
use grpc_composition.OpenApi.Schema.{
  Schema, Properties, no_properties, set_property, object_schema, array_schema, map_schema,
  well_known_schema,
}
use grpc_composition.OpenApi.Components.{Step, pure}
use grpc_composition.OpenApi.Components.Below.{
  Below, Below-refl, Below-bind, Below-if, Below-component,
}
use grpc_composition.OpenApi.Protos.{
  Kind, Protoreflect, property_name, kind_schema, singular_schema, field_schema, add_fields,
  message_schema, message_ref, message_kind, group_kind,
}

module _ {H : Host} (R : Protoreflect H) (opts : H.MarshalOptions) where
  module _ (call call' : R.MessageDescriptor → Step Schema)
      (below : (md : R.MessageDescriptor) → Below (call md) (call' md)) where
    Below-kind_schema :
        (k : Kind) (fd : R.FieldDescriptor)
        → Below (kind_schema R opts call k fd) (kind_schema R opts call' k fd)
    unfolding kind_schema
    Below-kind_schema message_kind fd = below (R.message_type fd)
    Below-kind_schema group_kind fd = below (R.message_type fd)
    Below-kind_schema _ fd = λ st r e. e

    Below-field_schema :
        (fd : R.FieldDescriptor)
        → Below (field_schema R opts call fd) (field_schema R opts call' fd)
    unfolding field_schema singular_schema
    Below-field_schema fd =
        Below-if (R.is_map fd) _ _ _ _
          (Below-bind (singular_schema R opts call (R.map_value fd))
            (singular_schema R opts call' (R.map_value fd)) _ _
            (Below-kind_schema (R.kind (R.map_value fd)) (R.map_value fd))
            (λ s. Below-refl (pure (map_schema s))))
          (Below-bind (singular_schema R opts call fd) (singular_schema R opts call' fd) _ _
            (Below-kind_schema (R.kind fd) fd)
            (λ s. Below-refl (if R.is_list fd then pure (array_schema s) else pure s)))

    Below-add_fields :
        (fds : List R.FieldDescriptor) (props : Properties)
        → Below (add_fields R opts call fds props) (add_fields R opts call' fds props)
    unfolding add_fields
    Below-add_fields [] props = Below-refl (pure props)
    Below-add_fields (fd ∷ fds) props =
        Below-bind (field_schema R opts call fd) (field_schema R opts call' fd) _ _
          (Below-field_schema fd)
          (λ s. Below-add_fields fds (set_property (property_name R opts call fd) s props))

    Below-message_schema :
        (md : R.MessageDescriptor)
        → Below (message_schema R opts call md) (message_schema R opts call' md)
    unfolding message_schema
    Below-message_schema md =
        Below-bind (add_fields R opts call (R.fields md) no_properties)
          (add_fields R opts call' (R.fields md) no_properties) _ _
          (Below-add_fields (R.fields md) no_properties)
          (λ props. Below-refl (pure (object_schema props)))

  pub message_ref-Below :
      (fuel : ℕ) (md : R.MessageDescriptor)
      → Below (message_ref R opts fuel md) (message_ref R opts (suc fuel) md)
  unfolding message_ref
  message_ref-Below zero md st r e = absurd (some-ne-none r (sym e))
  message_ref-Below (suc fuel) md st r e =
      elim (Option-cases (well_known_schema (R.full_name md))) [
        | inr (s, known) ↦ rw (message_ref, known) (rw (message_ref, known) at e)
        | inl ordinary ↦
            rw (message_ref, ordinary)
              (Below-component (R.full_name md) (message_schema R opts (message_ref R opts fuel) md)
                (message_schema R opts (message_ref R opts (suc fuel)) md)
                (Below-message_schema (message_ref R opts fuel) (message_ref R opts (suc fuel))
                  (message_ref-Below fuel) md)
                st r (rw (message_ref, ordinary) at e))
      ]
