-- ===== src/OpenApi/Protos/Values.antt =====
-- The JSON of fields is admitted by the schemas of the fields, when that of messages is.
use grpc_composition.Common.{
  ◌≡◌, refl, inl, inr, true, false, List, [], ◌∷◌, some, codes, Bool-cases, Any,
}
use grpc_composition.Host.{Host}
use grpc_composition.OpenApi.Schema.{absent, present, no_properties, array_schema, map_schema}
use grpc_composition.OpenApi.Components.{Schemas, Refs, PropertiesRefs, Resolves}
use grpc_composition.OpenApi.Components.Outcomes.{SchemaOk}
use grpc_composition.OpenApi.Json.{
  Json, Items, Members, no_items, item, no_members, member, array, object, EachItem, EachMember,
  property_of, Admits, AdmitsEach, end, next, AdmitsAll, end_of_members, next_member, by_property,
  by_additional,
}
use grpc_composition.OpenApi.Protos.{
  Kind, Protoreflect, enum_value_names, bool_kind, enum_kind, int32_kind, sint32_kind, uint32_kind,
  int64_kind, sint64_kind, uint64_kind, sfixed32_kind, fixed32_kind, float_kind, sfixed64_kind,
  fixed64_kind, double_kind, string_kind, bytes_kind, message_kind, group_kind, unnamed_kind,
}
use grpc_composition.OpenApi.Protos.Shapes.{
  ref_shape, kind_shape, singular_shape, field_shape, field_name, add_shapes,
}
use grpc_composition.OpenApi.Protos.Protojson.{HasOwnNames, ValueForm, FieldForm, Protojson}
use grpc_composition.OpenApi.Protos.Forms.{
  Admits-boolean, Admits-integer, Admits-number, Admits-string, Admits-any, Admits-enum,
}
use grpc_composition.OpenApi.Protos.Fields.{PropertiesRefs-property_of, property_of-field}

Any-witness :
    {A : Type 0} (P : A → Type 0) (xs : List A) → Any P xs → (x : A) × Any (λ y. y ≡ x) xs × P x
Any-witness P [] h = absurd h
Any-witness P (x ∷ xs) (inl p) = (x, inl refl, p)
Any-witness P (x ∷ xs) (inr h) = let (y, there, p) = Any-witness P xs h in (y, inr there, p)

module _ {H : Host} (R : Protoreflect H) (opts : H.MarshalOptions) where
  module _ (P : Protojson R opts) (st : Schemas) where
    -- What is shown of a value: whatever message it is the JSON of, the message's schema admits it.
    abbrev pub MessageAdmits : Json → Type 0
    MessageAdmits j =
        (md : R.MessageDescriptor)
        → SchemaOk st (ref_shape R opts md)
        → P.Encodes md j
        → Admits st (ref_shape R opts md) j

    abbrev pub FieldAdmits : Json → Type 0
    FieldAdmits j =
        (fd : R.FieldDescriptor)
        → SchemaOk st (field_shape R opts fd)
        → FieldForm R opts P.Encodes (R.is_map fd) (R.is_list fd) fd j
        → Admits st (field_shape R opts fd) j

    pub kind-Admits :
        (k : Kind) (fd : R.FieldDescriptor) (j : Json)
        → MessageAdmits j
        → SchemaOk st (kind_shape R opts k fd)
        → ValueForm R opts P.Encodes k fd j
        → Admits st (kind_shape R opts k fd) j
    unfolding enum_value_names
    kind-Admits bool_kind fd j m c h = Admits-boolean st [] j h
    kind-Admits int32_kind fd j m c h = Admits-integer st (codes "int32") j h
    kind-Admits sint32_kind fd j m c h = Admits-integer st (codes "int32") j h
    kind-Admits sfixed32_kind fd j m c h = Admits-integer st (codes "int32") j h
    kind-Admits uint32_kind fd j m c h = Admits-integer st [] j h
    kind-Admits fixed32_kind fd j m c h = Admits-integer st [] j h
    kind-Admits int64_kind fd j m c h = Admits-string st (codes "int64") j h
    kind-Admits sint64_kind fd j m c h = Admits-string st (codes "int64") j h
    kind-Admits sfixed64_kind fd j m c h = Admits-string st (codes "int64") j h
    kind-Admits uint64_kind fd j m c h = Admits-string st (codes "int64") j h
    kind-Admits fixed64_kind fd j m c h = Admits-string st (codes "int64") j h
    kind-Admits float_kind fd j m c h = Admits-number st (codes "float") j h
    kind-Admits double_kind fd j m c h = Admits-number st (codes "double") j h
    kind-Admits string_kind fd j m c h = Admits-string st [] j h
    kind-Admits bytes_kind fd j m c h = Admits-string st (codes "byte") j h
    kind-Admits enum_kind fd j m c (inl (numbers, h)) =
        rw numbers (Admits-integer st (codes "int32") j h)
    kind-Admits enum_kind fd j m c (inr (texts, (s, is, there))) =
        rw (texts, is) (Admits-enum st (R.enum_type fd).values s there)
    kind-Admits message_kind fd j m c h = m (R.message_type fd) c h
    kind-Admits group_kind fd j m c h = m (R.message_type fd) c h
    kind-Admits (unnamed_kind n) fd j m c h = Admits-any st j

    pub AdmitsAll-values :
        (fd : R.FieldDescriptor) (ms : Members)
        → EachMember (λ k j. MessageAdmits j × FieldAdmits j) ms
        → SchemaOk st (singular_shape R opts fd)
        → EachMember (λ k v. ValueForm R opts P.Encodes (R.kind fd) fd v) ms
        → AdmitsAll st no_properties (present (singular_shape R opts fd)) ms
    AdmitsAll-values fd no_members m c h = end_of_members
    AdmitsAll-values fd (member k j ms) m c h =
        next_member
          (by_additional (singular_shape R opts fd) refl (kind-Admits (R.kind fd) fd j m.0.0 c h.0))
          (AdmitsAll-values fd ms m.1 c h.1)

    pub AdmitsEach-values :
        (fd : R.FieldDescriptor) (js : Items)
        → EachItem (λ j. MessageAdmits j × FieldAdmits j) js
        → SchemaOk st (singular_shape R opts fd)
        → EachItem (λ v. ValueForm R opts P.Encodes (R.kind fd) fd v) js
        → AdmitsEach st (singular_shape R opts fd) js
    AdmitsEach-values fd no_items m c h = end
    AdmitsEach-values fd (item j js) m c h =
        next (kind-Admits (R.kind fd) fd j m.0.0 c h.0) (AdmitsEach-values fd js m.1 c h.1)

    -- The members of a message against the properties of its schema.
    pub AdmitsAll-fields :
        (fds : List R.FieldDescriptor) (ms : Members)
        → HasOwnNames R opts fds
        → EachMember (λ k j. MessageAdmits j × FieldAdmits j) ms
        → PropertiesRefs (Resolves st) (add_shapes R opts fds no_properties)
        → EachMember
            (λ k v.
              Any
                (λ fd.
                  (k ≡ field_name R opts fd)
                  × FieldForm R opts P.Encodes (R.is_map fd) (R.is_list fd) fd v)
                fds)
            ms
        → AdmitsAll st (add_shapes R opts fds no_properties) absent ms
    AdmitsAll-fields fds no_members own m c h = end_of_members
    AdmitsAll-fields fds (member k j ms) own m c h =
        let (fd, there, (named, form)) = Any-witness _ fds h.0 in
        let found : property_of k (add_shapes R opts fds no_properties)
            ≡ some (field_shape R opts fd) =
          rw named (property_of-field R opts fds no_properties fd own there) in
        next_member
          (by_property (field_shape R opts fd) found (
            m.0.1 fd
              (PropertiesRefs-property_of (Resolves st) k (field_shape R opts fd)
                (add_shapes R opts fds no_properties) c found)
              form))
          (AdmitsAll-fields fds ms own m.1 c h.1)

    -- A field's value, from its parts.
    pub field_of_values :
        (j : Json)
        → MessageAdmits j
        → ((fd : R.FieldDescriptor)
            → SchemaOk st (singular_shape R opts fd)
            → (ms : Members) → j ≡ object ms
            → EachMember (λ k v. ValueForm R opts P.Encodes (R.kind fd) fd v) ms
            → Admits st (map_schema (singular_shape R opts fd)) j)
        → ((fd : R.FieldDescriptor)
            → SchemaOk st (singular_shape R opts fd)
            → (js : Items) → j ≡ array js
            → EachItem (λ v. ValueForm R opts P.Encodes (R.kind fd) fd v) js
            → Admits st (array_schema (singular_shape R opts fd)) j)
        → FieldAdmits j
    unfolding Refs
    field_of_values j m maps lists fd c h = elim (Bool-cases (R.is_map fd)) [
      | inl e ↦
          let c' : SchemaOk st (map_schema (singular_shape R opts (R.map_value fd))) = rw e at c in
          let (ms, is, values) : FieldForm R opts P.Encodes true (R.is_list fd) fd j = rw e at h in
          rw e (maps (R.map_value fd) c'.3 ms is values)
      | inr e ↦ elim (Bool-cases (R.is_list fd)) [
        | inl l ↦
            let c' : SchemaOk st (array_schema (singular_shape R opts fd)) = rw (e, l) at c in
            let (js, is, values) : FieldForm R opts P.Encodes false true fd j = rw (e, l) at h in
            rw (e, l) (lists fd c'.1 js is values)
        | inr l ↦
            let c' : SchemaOk st (singular_shape R opts fd) = rw (e, l) at c in
            let h' : FieldForm R opts P.Encodes false false fd j = rw (e, l) at h in
            rw (e, l) (kind-Admits (R.kind fd) fd j m c' h')
      ]
    ]
