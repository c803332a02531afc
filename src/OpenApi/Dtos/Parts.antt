-- ===== src/OpenApi/Dtos/Parts.antt =====
-- The parts of a Go type's schema return if `dtoSchema` and `addStructFields` do on the types below.
use grpc_composition.Common.{
  ℕ, ◌≤◌, ◌<◌, ◌≡◌, refl, ◌≢◌, inl, inr, Bool, true, false, ◌&&◌, List, [], ◌∷◌, arith, Text, codes,
  if◌then◌else◌, text_eq, is_empty, Bool-cases, All, Any,
}
use grpc_composition.Std.Strings.{cut_before}
use grpc_composition.Host.{Host}
use grpc_composition.OpenApi.Schema.{
  Schema, Properties, no_properties, set_property, object_schema, array_schema, map_schema,
}
use grpc_composition.OpenApi.Components.{Schemas, Step, pure, Refs, Resolves, IsClosed}
use grpc_composition.OpenApi.Components.Outcomes.{
  missing, Outcome, Outcome-pure, Outcome-bind, missing-table, SchemaOk, PropertiesOk,
  PropertiesOk-mono, PropertiesRefs-set_property,
}
use grpc_composition.OpenApi.Dtos.{
  GoKind, StructField, Reflection, is_struct, is_uint8, promoted_type, struct_schema, struct_ref,
  list_schema, go_kind_schema, is_flattened, add_struct_field, add_struct_fields_from, array_kind,
  map_kind, pointer_kind, slice_kind, struct_kind,
}

-- The kinds whose schema is that of the element type, or holds it.
abbrev pub holds_element : GoKind → Bool
holds_element pointer_kind = true
holds_element slice_kind = true
holds_element array_kind = true
holds_element map_kind = true
holds_element _ = false

-- Go types that hold themselves at most through named structs, with the names of these. A rank
-- falls from a type to its elements, from a struct without a name to its fields, and from the
-- fields of a struct to those that are embedded in it and to the types of its fields.
pub record IsGrounded {H : Host} (T : Reflection H) (names : List Text) (top : ℕ) : Type 0 where
  pub rank : H.GoType → ℕ
  pub field_rank : H.GoType → ℕ
  pub rank-elem_type :
      (t : H.GoType) → holds_element (T.kind t) ≡ true → rank (T.elem_type t) < rank t
  pub rank_inline :
      (t : H.GoType) → T.kind t ≡ struct_kind → T.type_name t ≡ [] → field_rank t < rank t
  pub rank_fields :
      (t : H.GoType)
      → All
          (λ (f : StructField H).
            (rank f.field_type < field_rank t)
            × (f.anonymous ≡ true
                → is_struct (T.kind (promoted_type T f.field_type)) ≡ true
                → field_rank (promoted_type T f.field_type) < field_rank t))
          (T.struct_fields t)
  pub rank_bound : (t : H.GoType) → rank t ≤ top
  pub field_rank_bound : (t : H.GoType) → field_rank t ≤ top
  pub listed :
      (t : H.GoType)
      → T.kind t ≡ struct_kind
      → T.type_name t ≢ []
      → Any (λ n. n ≡ T.type_text t) names

pub nonempty : (s : Text) → is_empty s ≡ false → s ≢ []
nonempty [] h = cc
nonempty (c ∷ s) h = λ e. cc

and_true : (a b c : Bool) → (a && b && c) ≡ true → (a ≡ true) × (c ≡ true)
and_true a b c h = ground arith

module _ {H : Host} (T : Reflection H) (names : List Text) (top : ℕ)
    (g : IsGrounded T names top) where
  module _ (dto : H.GoType → Step Schema) (embed : H.GoType → Properties → Step Properties)
      (m r : ℕ)
      (dtos : (t : H.GoType) (st : Schemas)
        → IsClosed st
        → missing names st ≤ m
        → g.rank t < r
        → Outcome st SchemaOk (dto t st))
      (embeds : (t : H.GoType) (props : Properties) (st : Schemas)
        → IsClosed st
        → missing names st ≤ m
        → g.field_rank t < r
        → PropertiesOk st props
        → Outcome st PropertiesOk (embed t props st)) where
    abbrev FieldFits : StructField H → Type 0
    FieldFits f =
        (g.rank f.field_type < r)
        × (f.anonymous ≡ true
            → is_struct (T.kind (promoted_type T f.field_type)) ≡ true
            → g.field_rank (promoted_type T f.field_type) < r)

    add_struct_field-runs :
        (f : StructField H) (props : Properties) (st : Schemas)
        → IsClosed st
        → missing names st ≤ m
        → FieldFits f
        → PropertiesOk st props
        → Outcome st PropertiesOk (add_struct_field T dto embed f props st)
    unfolding add_struct_field
    add_struct_field-runs f props st closed room fits h =
        let name = cut_before f.json_tag b',' in
        elim (Bool-cases f.exported) [
          | inr hidden ↦ rw hidden (Outcome-pure st props closed h)
          | inl shown ↦
              elim (Bool-cases (text_eq name (codes "-") && text_eq f.json_tag (codes "-"))) [
                | inl skipped ↦ rw (shown, skipped) (Outcome-pure st props closed h)
                | inr kept ↦ elim (Bool-cases (is_flattened T f name)) [
                  | inl flat ↦
                      let parts =
                        and_true f.anonymous (is_empty name)
                          (is_struct (T.kind (promoted_type T f.field_type))) flat in
                      rw (shown, kept, flat)
                        (embeds (promoted_type T f.field_type) props st closed room
                          (fits.1 parts.0 parts.1) h)
                  | inr own ↦
                      let one = dtos f.field_type st closed room fits.0 in
                      let key = if is_empty name then f.field_name else name in
                      rw (shown, kept, own)
                        (Outcome-bind st (dto f.field_type) (λ s. pure (set_property key s props))
                          one
                          (Outcome-pure one.table (set_property key one.value props) one.closed (
                            PropertiesRefs-set_property (Resolves one.table) key one.value props
                              one.holds (PropertiesOk-mono st one.table props one.keeps h))))
                ]
              ]
        ]

    pub add_struct_fields_from-runs :
        (fs : List (StructField H)) (props : Properties) (st : Schemas)
        → IsClosed st
        → missing names st ≤ m
        → All FieldFits fs
        → PropertiesOk st props
        → Outcome st PropertiesOk (add_struct_fields_from T dto embed fs props st)
    unfolding add_struct_fields_from
    add_struct_fields_from-runs [] props st closed room fits h = Outcome-pure st props closed h
    add_struct_fields_from-runs (f ∷ fs) props st closed room fits h =
        let one = add_struct_field-runs f props st closed room fits.0 h in
        Outcome-bind st (add_struct_field T dto embed f props)
          (λ props'. add_struct_fields_from T dto embed fs props') one
          (add_struct_fields_from-runs fs one.value one.table one.closed
            (omega (arith, missing-table names st _ one)) fits.1 one.holds)

    pub struct_schema-runs :
        (t : H.GoType) (st : Schemas)
        → IsClosed st
        → missing names st ≤ m
        → g.field_rank t < r
        → Outcome st SchemaOk (struct_schema T dto embed t st)
    unfolding struct_schema Refs
    struct_schema-runs t st closed room low =
        let all = embeds t no_properties st closed room low tt in
        Outcome-bind st (embed t no_properties) (λ props. pure (object_schema props)) all
          (Outcome-pure all.table (object_schema all.value) all.closed
            (inl refl, tt, all.holds, tt))

    list_schema-runs :
        (t : H.GoType) (st : Schemas)
        → IsClosed st
        → missing names st ≤ m
        → g.rank (T.elem_type t) < r
        → Outcome st SchemaOk (list_schema T dto embed t st)
    unfolding list_schema Refs
    list_schema-runs t st closed room low = elim (Bool-cases (is_uint8 (T.kind (T.elem_type t)))) [
      | inl bytes ↦ rw bytes (Outcome-pure st _ closed (inl refl, tt, tt, tt))
      | inr other ↦
          let one = dtos (T.elem_type t) st closed room low in
          rw other (
            Outcome-bind st (dto (T.elem_type t)) (λ s. pure (array_schema s)) one
              (Outcome-pure one.table (array_schema one.value) one.closed
                (inl refl, one.holds, tt, tt)))
    ]

    pub go_kind_schema-runs :
        (k : GoKind) (t : H.GoType) (st : Schemas)
        → IsClosed st
        → missing names st ≤ m
        → (holds_element k ≡ true → g.rank (T.elem_type t) < r)
        → (k ≡ struct_kind → Outcome st SchemaOk (struct_ref T dto embed t st))
        → Outcome st SchemaOk (go_kind_schema T dto embed k t st)
    unfolding go_kind_schema Refs
    go_kind_schema-runs pointer_kind t st closed room low structs =
        dtos (T.elem_type t) st closed room (low refl)
    go_kind_schema-runs slice_kind t st closed room low structs =
        list_schema-runs t st closed room (low refl)
    go_kind_schema-runs array_kind t st closed room low structs =
        list_schema-runs t st closed room (low refl)
    go_kind_schema-runs map_kind t st closed room low structs =
        let one = dtos (T.elem_type t) st closed room (low refl) in
        Outcome-bind st (dto (T.elem_type t)) (λ s. pure (map_schema s)) one
          (Outcome-pure one.table (map_schema one.value) one.closed (inl refl, tt, tt, one.holds))
    go_kind_schema-runs struct_kind t st closed room low structs = elim (Bool-cases (T.is_time t)) [
      | inl time ↦ rw time (Outcome-pure st _ closed (inl refl, tt, tt, tt))
      | inr other ↦ rw other (structs refl)
    ]
    go_kind_schema-runs _ t st closed room low structs =
        Outcome-pure st _ closed (inl refl, tt, tt, tt)
