-- ===== src/OpenApi/Protos/Named.antt =====
-- openapi/protoschema.go: what a message is documented as.
use grpc_composition.Common.{
  ℕ, zero, suc, ◌<◌, ◌≡◌, refl, sym, ap, inl, inr, Bool, false, ◌||◌, List, [], ◌∷◌, none, some,
  arith, Text, if◌then◌else◌, text_eq, text_eq_iff, Bool-cases, lookup, Any,
}
use mathlib.Core.Option.{some-injective}
use grpc_composition.Host.{Host}
use grpc_composition.OpenApi.Schema.{
  Schema, Properties, no_properties, property, set_property, object_schema, well_known_schema,
}
use grpc_composition.OpenApi.Components.{Schemas, Step, reference, IsClosed}
use grpc_composition.OpenApi.Components.Outcomes.{missing, SchemaOk}
use grpc_composition.OpenApi.Components.Steps.{bind_step-returned, component-made}
use grpc_composition.OpenApi.Protos.{
  Protoreflect, field_schema, add_fields, message_schema, message_ref,
}
use grpc_composition.OpenApi.Protos.Runs.{message_ref-runs}

-- Whether an object schema has a property of this name.
abbrev pub has_property : Properties → Text → Bool
has_property no_properties n = false
has_property (property k _ rest) n = text_eq k n || has_property rest n

has_property-set_property :
    (name : Text) (s : Schema) (props : Properties) (n : Text)
    → has_property (set_property name s props) n ≡ (text_eq name n || has_property props n)
unfolding set_property
has_property-set_property name s no_properties n = refl
has_property-set_property name s (property k t rest) n = elim (Bool-cases (text_eq k name)) [
  | inl e ↦ rw (set_property, e, (text_eq_iff k name).0 e) (ground arith)
  | inr e ↦ rw (set_property, e, has_property-set_property name s rest n) (ground arith)
]

module _ {H : Host} (R : Protoreflect H) (opts : H.MarshalOptions) where
  -- Whether one of the fields has this name in JSON.
  abbrev pub has_field : List R.FieldDescriptor → Text → Bool
  has_field [] n = false
  has_field (fd ∷ fds) n =
      text_eq (if R.use_proto_names opts then R.text_name fd else R.json_name fd) n
      || has_field fds n

  module _ (call : R.MessageDescriptor → Step Schema) where
    has_property-add_fields :
        (fds : List R.FieldDescriptor) (props props' : Properties) (st st' : Schemas) (n : Text)
        → add_fields R opts call fds props st ≡ some (props', st')
        → has_property props' n ≡ (has_property props n || has_field fds n)
    unfolding add_fields
    has_property-add_fields [] props props' st st' n e =
        rw (← ap (λ x. x.0) (some-injective _ _ e)) (ground arith)
    has_property-add_fields (fd ∷ fds) props props' st st' n e =
        let (s, st1, first, rest) =
          bind_step-returned (field_schema R opts call fd) _ st st' props' e in
        rw (has_property-add_fields fds _ props' st1 st' n rest, has_property-set_property)
          (ground arith)

    pub message_schema-properties :
        (md : R.MessageDescriptor) (st st' : Schemas) (s : Schema)
        → message_schema R opts call md st ≡ some (s, st')
        → (props : Properties) × (s ≡ object_schema props)
          × ((n : Text) → has_property props n ≡ has_field (R.fields md) n)
    unfolding message_schema
    message_schema-properties md st st' s e =
        let (props, st1, all, rest) =
          bind_step-returned (add_fields R opts call (R.fields md) no_properties) _ st st' s e in
        (
          props,
          sym (ap (λ x. x.0) (some-injective _ _ rest)),
          λ n. has_property-add_fields (R.fields md) no_properties props st st1 n all,
        )

  message_ref-made :
      (fuel : ℕ) (md : R.MessageDescriptor) (st st' : Schemas) (v : Schema)
      → well_known_schema (R.full_name md) ≡ none
      → lookup (R.full_name md) st ≡ none
      → message_ref R opts fuel md st ≡ some (v, st')
      → (props : Properties) × (v ≡ reference (R.full_name md))
        × (lookup (R.full_name md) st' ≡ some (object_schema props))
        × ((n : Text) → has_property props n ≡ has_field (R.fields md) n)
  unfolding message_ref
  message_ref-made zero md st st' v ordinary fresh e = cc
  message_ref-made (suc fuel) md st st' v ordinary fresh e =
      let (s, st1, made, same, there, _) =
        component-made (R.full_name md) (message_schema R opts (message_ref R opts fuel) md) st st'
          v fresh (rw (message_ref, ordinary) at e) in
      let (props, is, keys) = message_schema-properties (message_ref R opts fuel) md _ st1 s made in
      (props, same, rw is at there, keys)

  module _ (names : List Text)
      (listed : (md : R.MessageDescriptor) → Any (λ n. n ≡ R.full_name md) names) (fuel : ℕ)
      (md : R.MessageDescriptor) (st : Schemas) (closed : IsClosed st)
      (room : missing names st < fuel) where
    -- `messageRef` on a message that is not well-known and not yet in a closed table, with more fuel
    -- than there are names to come, returns a reference to the message's full name. The table then
    -- has under this name an object whose references all resolve, and which has a property of some
    -- name exactly if the message has a field whose name, in the spelling that the marshal options
    -- ask for, is this name.
    message_ref-registers :
        (n : Text)
        → well_known_schema (R.full_name md) ≡ none
        → lookup (R.full_name md) st ≡ none
        → (st' : Schemas) × (props : Properties) × (message_ref R opts fuel md st
            ≡ some (reference (R.full_name md), st'))
          × (lookup (R.full_name md) st' ≡ some (object_schema props))
          × SchemaOk st' (object_schema props)
          × (has_property props n ≡ has_field (R.fields md) n)
    message_ref-registers n ordinary fresh =
        let o = message_ref-runs R opts names listed fuel md st closed room in
        let (props, same, there, keys) =
          message_ref-made fuel md st o.table o.value ordinary fresh o.returns in
        (
          o.table,
          props,
          rw same at o.returns,
          there,
          o.closed (R.full_name md) (object_schema props) there,
          keys n,
        )
