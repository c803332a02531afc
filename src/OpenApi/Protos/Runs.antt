-- ===== src/OpenApi/Protos/Runs.antt =====
-- `messageRef` returns, and leaves a table in which every reference resolves.
use grpc_composition.Common.{
  ℕ, zero, suc, ◌≤◌, ◌<◌, ◌≡◌, refl, inl, inr, Bool, true, false, List, [], ◌∷◌, Option, none, some,
  arith, Text, if◌then◌else◌, Option-cases, Bool-cases, insert, Any,
}
use mathlib.Core.Path.{subst}
use grpc_composition.Host.{Host}
use grpc_composition.OpenApi.Schema.{
  Schema, Properties, no_properties, typed, any_value, set_property, object_schema, array_schema,
  map_schema, well_known_schema,
}
use grpc_composition.OpenApi.Components.{Schemas, Step, pure, Refs, Resolves, IsClosed}
use grpc_composition.OpenApi.Components.Outcomes.{
  missing, missing-insert, Outcome, Outcome-pure, Outcome-bind, missing-table, SchemaOk,
  PropertiesOk, PropertiesOk-mono, PropertiesRefs-set_property, Outcome-component,
  IsClosed-placeholder,
}
use grpc_composition.OpenApi.Protos.{
  Kind, Protoreflect, singular_schema, kind_schema, property_name, field_schema, add_fields,
  message_schema, message_ref, enum_kind, message_kind, group_kind,
}

abbrev OptionRefs : (Text → Type 0) → Option Schema → Type 0
OptionRefs P none = Unit
OptionRefs P (some s) = Refs P s

module _ (P : Text → Type 0) (no_ref : P []) where
  OptionRefs-if :
      (b : Bool) (x y : Option Schema)
      → OptionRefs P x
      → OptionRefs P y
      → OptionRefs P (if b then x else y)
  OptionRefs-if true x y h k = h
  OptionRefs-if false x y h k = k

  Refs-typed : (typ format : Text) → Refs P (typed typ format)
  unfolding Refs
  Refs-typed typ format = (no_ref, tt, tt, tt)

  OptionRefs-well_known_schema : (name : Text) → OptionRefs P (well_known_schema name)
  unfolding well_known_schema Refs
  OptionRefs-well_known_schema name = search (OptionRefs-if, Refs-typed, no_ref, tt) depth 40

Refs_of_well_known :
    (st : Schemas) (name : Text) (s : Schema) → well_known_schema name ≡ some s → SchemaOk st s
Refs_of_well_known st name s e =
    subst (OptionRefs (Resolves st)) e (OptionRefs-well_known_schema (Resolves st) (inl refl) name)

module _ {H : Host} (R : Protoreflect H) (opts : H.MarshalOptions) (names : List Text) where
  module _ (call : R.MessageDescriptor → Step Schema) (n : ℕ)
      (calls : (md : R.MessageDescriptor) (st : Schemas)
        → IsClosed st
        → missing names st ≤ n
        → Outcome st SchemaOk (call md st)) where
    kind_schema-runs :
        (k : Kind) (fd : R.FieldDescriptor) (st : Schemas)
        → IsClosed st
        → missing names st ≤ n
        → Outcome st SchemaOk (kind_schema R opts call k fd st)
    unfolding kind_schema Refs
    kind_schema-runs message_kind fd st closed room = calls (R.message_type fd) st closed room
    kind_schema-runs group_kind fd st closed room = calls (R.message_type fd) st closed room
    kind_schema-runs enum_kind fd st closed room = elim (Bool-cases (R.use_enum_numbers opts)) [
      | inl e ↦ rw e (Outcome-pure st _ closed (inl refl, tt, tt, tt))
      | inr e ↦ rw e (Outcome-pure st _ closed (inl refl, tt, tt, tt))
    ]
    kind_schema-runs _ fd st closed room = Outcome-pure st _ closed (inl refl, tt, tt, tt)

    field_schema-runs :
        (fd : R.FieldDescriptor) (st : Schemas)
        → IsClosed st
        → missing names st ≤ n
        → Outcome st SchemaOk (field_schema R opts call fd st)
    unfolding field_schema Refs
    field_schema-runs fd st closed room = elim (Bool-cases (R.is_map fd)) [
      | inl e ↦
          let value = kind_schema-runs (R.kind (R.map_value fd)) (R.map_value fd) st closed room in
          rw e (
            Outcome-bind st (singular_schema R opts call (R.map_value fd))
              (λ s. pure (map_schema s)) value
              (Outcome-pure value.table (map_schema value.value) value.closed
                (inl refl, tt, tt, value.holds)))
      | inr e ↦
          let one = kind_schema-runs (R.kind fd) fd st closed room in
          rw e (
            Outcome-bind st (singular_schema R opts call fd)
              (λ s. if R.is_list fd then pure (array_schema s) else pure s) one
              (elim (Bool-cases (R.is_list fd)) [
                | inl l ↦ rw l (
                    Outcome-pure one.table (array_schema one.value) one.closed
                      (inl refl, one.holds, tt, tt))
                | inr l ↦ rw l (Outcome-pure one.table one.value one.closed one.holds)
              ]))
    ]

    add_fields-runs :
        (fds : List R.FieldDescriptor) (properties : Properties) (st : Schemas)
        → IsClosed st
        → missing names st ≤ n
        → PropertiesOk st properties
        → Outcome st PropertiesOk (add_fields R opts call fds properties st)
    unfolding add_fields
    add_fields-runs [] properties st closed room h = Outcome-pure st properties closed h
    add_fields-runs (fd ∷ fds) properties st closed room h =
        let one = field_schema-runs fd st closed room in
        Outcome-bind st (field_schema R opts call fd)
          (λ s.
            add_fields R opts call fds (set_property (property_name R opts call fd) s properties))
          one
          (add_fields-runs fds (set_property (property_name R opts call fd) one.value properties)
            one.table one.closed (omega (arith, missing-table names st _ one))
            (PropertiesRefs-set_property (Resolves one.table) (property_name R opts call fd)
              one.value properties one.holds
              (PropertiesOk-mono st one.table properties one.keeps h)))

    message_schema-runs :
        (md : R.MessageDescriptor) (st : Schemas)
        → IsClosed st
        → missing names st ≤ n
        → Outcome st SchemaOk (message_schema R opts call md st)
    unfolding message_schema Refs
    message_schema-runs md st closed room =
        let all = add_fields-runs (R.fields md) no_properties st closed room tt in
        Outcome-bind st (add_fields R opts call (R.fields md) no_properties)
          (λ properties. pure (object_schema properties)) all
          (Outcome-pure all.table (object_schema all.value) all.closed
            (inl refl, tt, all.holds, tt))

  module _ (listed : (md : R.MessageDescriptor) → Any (λ n. n ≡ R.full_name md) names) where
    -- With more fuel than there are names to come, `messageRef` returns.
    pub message_ref-runs :
        (fuel : ℕ) (md : R.MessageDescriptor) (st : Schemas)
        → IsClosed st
        → missing names st < fuel
        → Outcome st SchemaOk (message_ref R opts fuel md st)
    unfolding message_ref
    message_ref-runs zero md st closed room = absurd (omega arith)
    message_ref-runs (suc fuel) md st closed room =
        let name = R.full_name md in
        elim (Option-cases (well_known_schema name)) [
          | inr (s, known) ↦
              rw (message_ref, known)
                (Outcome-pure st s closed (Refs_of_well_known st name s known))
          | inl ordinary ↦
              rw (message_ref, ordinary)
                (Outcome-component st name (message_schema R opts (message_ref R opts fuel) md)
                  closed
                  (λ fresh.
                    let fewer = missing-insert names st name any_value (listed md) fresh in
                    message_schema-runs (message_ref R opts fuel)
                      (missing names (insert name any_value st))
                      (λ md' st' closed' room'. message_ref-runs fuel md' st' closed' (omega arith))
                      md (insert name any_value st) (IsClosed-placeholder st name closed)
                      (omega arith)))
        ]
