-- ===== src/OpenApi/Dtos/Named.antt =====
-- openapi/reflectschema.go: what Go types are documented as.
use grpc_composition.Common.{
  ℕ, zero, suc, ◌<◌, ◌≡◌, refl, sym, ◌∙◌, true, false, List, none, some, Text, is_empty, lookup,
}
use grpc_composition.Host.{Host}
use grpc_composition.OpenApi.Schema.{Schema, Properties}
use grpc_composition.OpenApi.Components.{Schemas, Step, bind_step, component, reference, IsClosed}
use grpc_composition.OpenApi.Components.Outcomes.{missing, SchemaOk}
use grpc_composition.OpenApi.Components.Steps.{component-found, component-returned}
use grpc_composition.OpenApi.Dtos.{
  GoKind, Reflection, is_uint8, dto_schema, add_struct_fields, struct_schema, struct_ref,
  list_schema, go_kind_schema, uint8_kind, array_kind, map_kind, pointer_kind, slice_kind,
  struct_kind,
}
use grpc_composition.OpenApi.Dtos.Parts.{IsGrounded, holds_element}
use grpc_composition.OpenApi.Dtos.Runs.{need, dto_schema-runs_in}

-- A struct that goes to the components.
pub record IsNamedStruct {H : Host} (T : Reflection H) (t : H.GoType) : Type 0 where
  pub struct_lem : T.kind t ≡ struct_kind
  pub not_time : T.is_time t ≡ false
  pub named_lem : is_empty (T.type_name t) ≡ false

not_bytes : (k : GoKind) → holds_element k ≡ true → is_uint8 k ≡ false
not_bytes uint8_kind holds = cc
not_bytes _ holds = refl

module _ {H : Host} (T : Reflection H) where
  dto_schema-struct :
      (fuel : ℕ) (t : H.GoType) (st : Schemas)
      → IsNamedStruct T t
      → dto_schema T (suc fuel) t st
        ≡ component
            (T.type_text t)
            (struct_schema T (dto_schema T fuel) (add_struct_fields T fuel) t)
            st
  unfolding dto_schema go_kind_schema struct_ref
  dto_schema-struct fuel t st is = rw (dto_schema, is.struct_lem, is.not_time, is.named_lem)

  dto_schema-registers :
      (t : H.GoType) (fuel : ℕ) (st st' : Schemas) (s : Schema)
      → IsNamedStruct T t
      → dto_schema T (suc fuel) t st ≡ some (s, st')
      → (v : Schema) × (s ≡ reference (T.type_text t)) × (lookup (T.type_text t) st' ≡ some v)
  dto_schema-registers t fuel st st' s is e =
      component-returned (T.type_text t)
        (struct_schema T (dto_schema T fuel) (add_struct_fields T fuel) t) st st' s
        (sym (dto_schema-struct fuel t st is) ∙ e)

  -- A named struct whose text, that is its package's last element and its name, is that of another
  -- one documented before is documented as the other one: `dtoSchema` returns the same reference
  -- and leaves the table as it was, whatever the fields of the two are.
  pub dto_schema-same_text :
      (t u : H.GoType) (fuel fuel' : ℕ) (st st' : Schemas) (s : Schema)
      → IsNamedStruct T t
      → IsNamedStruct T u
      → T.type_text u ≡ T.type_text t
      → dto_schema T (suc fuel) t st ≡ some (s, st')
      → dto_schema T (suc fuel') u st' ≡ some (s, st')
  dto_schema-same_text t u fuel fuel' st st' s is is' same e =
      let (v, value, there) = dto_schema-registers t fuel st st' s is e in
      rw (dto_schema-struct fuel' u st' is', same, value)
        (component-found (T.type_text t)
          (struct_schema T (dto_schema T fuel') (add_struct_fields T fuel') u) st' v there)

  go_kind_schema-diverges :
      (dto : H.GoType → Step Schema) (embed : H.GoType → Properties → Step Properties) (k : GoKind)
      (t : H.GoType) (st : Schemas)
      → holds_element k ≡ true
      → is_uint8 (T.kind (T.elem_type t)) ≡ false
      → dto (T.elem_type t) st ≡ none
      → go_kind_schema T dto embed k t st ≡ none
  unfolding go_kind_schema list_schema
  go_kind_schema-diverges dto embed pointer_kind t st holds other never = never
  go_kind_schema-diverges dto embed slice_kind t st holds other never = rw (other, bind_step, never)
  go_kind_schema-diverges dto embed array_kind t st holds other never = rw (other, bind_step, never)
  go_kind_schema-diverges dto embed map_kind t st holds other never = rw (bind_step, never)
  go_kind_schema-diverges dto embed _ t st holds other never = cc

  -- `dtoSchema` does not return, whatever the fuel, on a pointer, slice, array or map type that is its
  -- own element type, such as `type Tree []Tree`.
  pub dto_schema-diverges :
      (t : H.GoType) (fuel : ℕ) (st : Schemas)
      → holds_element (T.kind t) ≡ true
      → T.elem_type t ≡ t
      → dto_schema T fuel t st ≡ none
  unfolding dto_schema
  dto_schema-diverges t zero st holds own = refl
  dto_schema-diverges t (suc fuel) st holds own =
      go_kind_schema-diverges (dto_schema T fuel) (add_struct_fields T fuel) (T.kind t) t st holds
        (rw own (not_bytes (T.kind t) holds)) (rw own (dto_schema-diverges t fuel st holds own))

  module _ (names : List Text) (top : ℕ) (g : IsGrounded T names top) (fuel : ℕ) (t : H.GoType)
      (st : Schemas) (closed : IsClosed st)
      (room : need T names top g (missing names st) (g.rank t) < fuel) where
    -- `dtoSchema` returns a schema, every reference of which resolves in the table that it leaves, on
    -- a Go type that may hold itself through named structs. The table is closed, and the fuel is
    -- more than the number of names to come, times the bound of the ranks and one, and the rank of
    -- the type.
    pub dto_schema-returns :
        (s : Schema) × (st' : Schemas) × (dto_schema T fuel t st ≡ some (s, st')) × SchemaOk st' s
    dto_schema-returns =
        let o = dto_schema-runs_in T names top g fuel t st closed room in
        (o.value, o.table, o.returns, o.holds)
