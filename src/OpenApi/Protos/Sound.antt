-- ===== src/OpenApi/Protos/Sound.antt =====
-- The JSON that protojson gives a message is admitted by the schema of the message.
use grpc_composition.Common.{
  ◌≡◌, refl, sym, ap, ◌∙◌, inl, inr, false, ◌++◌, some, arith, Text, text_eq, Option-cases, length,
  lookup, Any,
}
use mathlib.Core.Bool.{false≢true}
use mathlib.Core.List.{append_cancel_left}
use grpc_composition.Host.{Host}
use grpc_composition.OpenApi.Schema.{Schema, no_properties, well_known_schema}
use grpc_composition.OpenApi.Components.{
  Schemas, ref_prefix, reference, Refs, PropertiesRefs, Resolves, IsClosed,
}
use grpc_composition.OpenApi.Components.Outcomes.{SchemaOk}
use grpc_composition.OpenApi.Json.{
  Json, Items, Members, no_items, item, no_members, member, null, boolean, integer, decimal, string,
  array, object, EachItem, EachMember, is_array, is_object, Admits, by_reference, by_keywords,
  no_keyword, each, all_members,
}
use grpc_composition.OpenApi.Protos.{Protoreflect}
use grpc_composition.OpenApi.Protos.Shapes.{ref_shape, field_name, add_shapes, message_shape}
use grpc_composition.OpenApi.Protos.Protojson.{FieldForm, Protojson}
use grpc_composition.OpenApi.Protos.Forms.{
  AdmitsMembers-unconstrained, well_known_form, ordinary_form,
}
use grpc_composition.OpenApi.Protos.Values.{
  MessageAdmits, FieldAdmits, AdmitsAll-values, AdmitsEach-values, AdmitsAll-fields,
  field_of_values,
}

abbrev members_of : Json → Members
members_of (object ms) = ms
members_of _ = no_members

abbrev items_of : Json → Items
items_of (array js) = js
items_of _ = no_items

entry_of_Resolves :
    (st : Schemas) (name : Text)
    → Resolves st (ref_prefix ++ name)
    → (s : Schema) × (lookup name st ≡ some s)
entry_of_Resolves st name (inl e) = absurd (omega (arith, ap length e))
entry_of_Resolves st name (inr (other, s, e, there)) =
    let same : name ≡ other = append_cancel_left ref_prefix name other e in (s, rw same there)

module _ {H : Host} (R : Protoreflect H) (opts : H.MarshalOptions) where
  module _ (P : Protojson R opts) (st : Schemas) (closed : IsClosed st)
      (origin : (md : R.MessageDescriptor) (s : Schema)
        → lookup (R.full_name md) st ≡ some s
        → s ≡ message_shape R opts md) where
    abbrev Both : Json → Type 0
    Both j = MessageAdmits R opts P st j × FieldAdmits R opts P st j

    -- A message that has no form of its own, from its members.
    message_of_members :
        (j : Json)
        → ((md : R.MessageDescriptor)
            → PropertiesRefs (Resolves st) (add_shapes R opts (R.fields md) no_properties)
            → (ms : Members) → j ≡ object ms
            → EachMember
                (λ k v.
                  Any
                    (λ fd.
                      (k ≡ field_name R opts fd)
                      × FieldForm R opts P.Encodes (R.is_map fd) (R.is_list fd) fd v)
                    (R.fields md))
                ms
            → Admits st (message_shape R opts md) j)
        → MessageAdmits R opts P st j
    unfolding Refs
    message_of_members j objects md c h = elim (Option-cases (well_known_schema (R.full_name md))) [
      | inr (s, known) ↦
          let (f, form, admits) = well_known_form st (R.full_name md) s known in
          rw known (admits j (P.form_lem md j f form h))
      | inl ordinary ↦
          let name = R.full_name md in
          let (ms, is, members) = P.members_lem md j (ordinary_form st name ordinary) h in
          let c' : SchemaOk st (reference name) = rw ordinary at c in
          let (s, there) = entry_of_Resolves st name c'.0 in
          let shape = origin md s there in
          let found : lookup name st ≡ some (message_shape R opts md) = rw (← shape) there in
          rw ordinary (
            by_reference name (message_shape R opts md) found
              (objects md (closed name (message_shape R opts md) found).2 ms is members))
    ]

    object-Admits : (ms : Members) → EachMember (λ k j. Both j) ms → Both (object ms)
    unfolding text_eq
    object-Admits ms each_admits =
        let m : MessageAdmits R opts P st (object ms) =
          message_of_members (object ms) (λ md c ms' is h. by_keywords refl tt no_keyword (
            all_members (
              AdmitsAll-fields R opts P st (R.fields md) ms (P.own_names md) each_admits c
                (rw (ap members_of is) h)))) in
        (
          m,
          field_of_values R opts P st (object ms) m
              (λ fd c ms' is h. by_keywords refl tt no_keyword (
                all_members
                  (AdmitsAll-values R opts P st fd ms each_admits c (rw (ap members_of is) h))))
              (λ fd c js is h. absurd (cc)),
        )

    array-Admits : (js : Items) → EachItem Both js → Both (array js)
    unfolding text_eq
    array-Admits js each_admits =
        let m : MessageAdmits R opts P st (array js) =
          message_of_members (array js) (λ md c ms is h. absurd (cc)) in
        (
          m,
          field_of_values R opts P st (array js) m (λ fd c ms is h. absurd (cc))
              (λ fd c js' is h.
                by_keywords refl tt
                  (each (AdmitsEach-values R opts P st fd js each_admits c (rw (ap items_of is) h)))
                  (AdmitsMembers-unconstrained st (array js))),
        )

    scalar-Admits : (j : Json) → is_object j ≡ false → is_array j ≡ false → Both j
    scalar-Admits j no_object not_list =
        let m : MessageAdmits R opts P st j =
          message_of_members j
            (λ md c ms is h. absurd (false≢true (sym no_object ∙ ap is_object is))) in
        (
          m,
          field_of_values R opts P st j m
              (λ fd c ms is h. absurd (false≢true (sym no_object ∙ ap is_object is)))
              (λ fd c js is h. absurd (false≢true (sym not_list ∙ ap is_array is))),
        )

    mutual
      value-Admits : (j : Json) → Both j
      value-Admits (object ms) = object-Admits ms (members-Admit ms)
      value-Admits (array js) = array-Admits js (items-Admit js)
      value-Admits null = scalar-Admits null refl refl
      value-Admits (boolean b) = scalar-Admits (boolean b) refl refl
      value-Admits (integer n) = scalar-Admits (integer n) refl refl
      value-Admits (decimal n) = scalar-Admits (decimal n) refl refl
      value-Admits (string s) = scalar-Admits (string s) refl refl

      items-Admit : (js : Items) → EachItem Both js
      items-Admit no_items = tt
      items-Admit (item j js) = (value-Admits j, items-Admit js)

      members-Admit : (ms : Members) → EachMember (λ k j. Both j) ms
      members-Admit no_members = tt
      members-Admit (member k j ms) = (value-Admits j, members-Admit ms)

    -- In a closed table whose entries are the schemas of their messages, the schema of a message
    -- admits the JSON that protojson gives it.
    pub message-Admits :
        (md : R.MessageDescriptor) (j : Json)
        → SchemaOk st (ref_shape R opts md)
        → P.Encodes md j
        → Admits st (ref_shape R opts md) j
    message-Admits md j c h = (value-Admits j).0 md c h
