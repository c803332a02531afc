-- ===== src/OpenApi/Protos/Fields.antt =====
-- The properties of a message's schema, by the names of its fields.
use grpc_composition.Common.{
  ◌≡◌, refl, ◌∙◌, ◌≢◌, inl, inr, false, List, [], ◌∷◌, some, arith, Text, if◌then◌else◌, text_eq,
  text_eq_iff, text_eq_refl, Bool-cases, All, Any,
}
use mathlib.Core.Path.{subst}
use mathlib.Core.Option.{some-injective}
use grpc_composition.Host.{Host}
use grpc_composition.OpenApi.Schema.{Schema, Properties, no_properties, property, set_property}
use grpc_composition.OpenApi.Components.{Refs, PropertiesRefs}
use grpc_composition.OpenApi.Json.{property_of}
use grpc_composition.OpenApi.Protos.{Protoreflect}
use grpc_composition.OpenApi.Protos.Shapes.{field_shape, field_name, add_shapes}
use grpc_composition.OpenApi.Protos.Protojson.{HasOwnNames}

property_of-set_property :
    (k : Text) (s : Schema) (props : Properties) (n : Text)
    → property_of n (set_property k s props) ≡ (if text_eq k n then some s else property_of n props)
unfolding set_property
property_of-set_property k s no_properties n = refl
property_of-set_property k s (property j t rest) n = elim (Bool-cases (text_eq j k)) [
  | inl e ↦ rw (set_property, e, (text_eq_iff j k).0 e) (ground arith)
  | inr e ↦
      rw (set_property, e, property_of-set_property k s rest n)
        (ground (arith, text_eq_iff j k, text_eq_iff j n, text_eq_iff k n))
]

pub PropertiesRefs-property_of :
    (P : Text → Type 0) (k : Text) (s : Schema) (props : Properties)
    → PropertiesRefs P props
    → property_of k props ≡ some s
    → Refs P s
unfolding Refs
PropertiesRefs-property_of P k s no_properties h e = cc
PropertiesRefs-property_of P k s (property n t rest) h e = elim (Bool-cases (text_eq n k)) [
  | inl hit ↦ subst (Refs P) (some-injective t s (rw hit at e)) h.0
  | inr miss ↦ PropertiesRefs-property_of P k s rest h.1 (rw miss at e)
]

module _ {H : Host} (R : Protoreflect H) (opts : H.MarshalOptions) where
  abbrev OtherName : Text → List R.FieldDescriptor → Type 0
  OtherName k fds = All (λ other. field_name R opts other ≢ k) fds

  property_of-kept :
      (k : Text) (fds : List R.FieldDescriptor) (props : Properties)
      → OtherName k fds
      → property_of k (add_shapes R opts fds props) ≡ property_of k props
  unfolding add_shapes
  property_of-kept k [] props h = refl
  property_of-kept k (fd ∷ fds) props h =
      let other : text_eq (field_name R opts fd) k ≡ false =
        ground (arith, text_eq_iff (field_name R opts fd) k, h.0) in
      property_of-kept k fds (set_property (field_name R opts fd) (field_shape R opts fd) props) h.1
      ∙ rw (property_of-set_property, other)

  -- The property of a field whose name no other field has.
  pub property_of-field :
      (fds : List R.FieldDescriptor) (props : Properties) (fd : R.FieldDescriptor)
      → HasOwnNames R opts fds
      → Any (λ f. f ≡ fd) fds
      → property_of (field_name R opts fd) (add_shapes R opts fds props)
        ≡ some (field_shape R opts fd)
  unfolding add_shapes
  property_of-field [] props fd own there = absurd there
  property_of-field (f ∷ fds) props fd own (inl e) = rw (← e) (
      property_of-kept (field_name R opts f) fds
        (set_property (field_name R opts f) (field_shape R opts f) props) own.0
      ∙ rw (property_of-set_property, text_eq_refl))
  property_of-field (f ∷ fds) props fd own (inr h) =
      property_of-field fds (set_property (field_name R opts f) (field_shape R opts f) props) fd
        own.1 h
