-- ===== src/OpenApi/Dtos/Runs.antt =====
-- `dtoSchema` returns on types that do not hold themselves except through named structs, and leaves
-- a table in which every reference resolves.
use grpc_composition.Common.{
  ℕ, zero, suc, ◌+◌, ◌*◌, ◌≤◌, ◌<◌, inl, inr, List, arith, Text, is_empty, Bool-cases, insert,
}
use grpc_composition.Host.{Host}
use grpc_composition.OpenApi.Schema.{Schema, Properties, any_value}
use grpc_composition.OpenApi.Components.{Schemas, Step, IsClosed}
use grpc_composition.OpenApi.Components.Outcomes.{
  missing, missing-insert, Outcome, SchemaOk, PropertiesOk, Outcome-component, IsClosed-placeholder,
}
use grpc_composition.OpenApi.Dtos.{
  Reflection, struct_schema, struct_ref, dto_schema, add_struct_fields,
}
use grpc_composition.OpenApi.Dtos.Parts.{
  IsGrounded, nonempty, struct_schema-runs, go_kind_schema-runs, add_struct_fields_from-runs,
}

module _ {H : Host} (T : Reflection H) (names : List Text) (top : ℕ)
    (g : IsGrounded T names top) where
  -- The fuel that a table with `k` names to come and a rank below `r` want.
  abbrev pub need : ℕ → ℕ → ℕ
  need k r = k * (top + 1) + r

  need-lt : (k k' r r' f : ℕ) → k' ≤ k → r' < r → need k r ≤ f → need k' r' < f
  need-lt k k' r r' f h l e = grind arith

  need_fewer : (k m r f : ℕ) → k < m → need m r < suc f → need k (top + 1) ≤ f
  need_fewer k m r f h e = grind arith

  DtosRun : (H.GoType → Step Schema) → ℕ → ℕ → Type 0
  DtosRun dto m r =
      (t : H.GoType) (st : Schemas)
      → IsClosed st
      → missing names st ≤ m
      → g.rank t < r
      → Outcome st SchemaOk (dto t st)

  EmbedsRun : (H.GoType → Properties → Step Properties) → ℕ → ℕ → Type 0
  EmbedsRun embed m r =
      (t : H.GoType) (props : Properties) (st : Schemas)
      → IsClosed st
      → missing names st ≤ m
      → g.field_rank t < r
      → PropertiesOk st props
      → Outcome st PropertiesOk (embed t props st)

  -- What holds at enough fuel holds for all smaller needs.
  dtos_below :
      (dto : H.GoType → Step Schema) (fuel : ℕ)
      → ((t : H.GoType) (st : Schemas)
          → IsClosed st
          → need (missing names st) (g.rank t) < fuel
          → Outcome st SchemaOk (dto t st))
      → (m r : ℕ) → need m r ≤ fuel
      → DtosRun dto m r
  unfolding DtosRun
  dtos_below dto fuel runs m r e t st closed fewer low =
      runs t st closed (need-lt m (missing names st) r (g.rank t) fuel fewer low e)

  embeds_below :
      (embed : H.GoType → Properties → Step Properties) (fuel : ℕ)
      → ((t : H.GoType) (props : Properties) (st : Schemas)
          → IsClosed st
          → need (missing names st) (g.field_rank t) < fuel
          → PropertiesOk st props
          → Outcome st PropertiesOk (embed t props st))
      → (m r : ℕ) → need m r ≤ fuel
      → EmbedsRun embed m r
  unfolding EmbedsRun
  embeds_below embed fuel runs m r e t props st closed fewer low h =
      runs t props st closed (need-lt m (missing names st) r (g.field_rank t) fuel fewer low e) h

  mutual
    unfolding dto_schema struct_ref DtosRun EmbedsRun

    pub dto_schema-runs_in :
        (fuel : ℕ) (t : H.GoType) (st : Schemas)
        → IsClosed st
        → need (missing names st) (g.rank t) < fuel
        → Outcome st SchemaOk (dto_schema T fuel t st)
    dto_schema-runs_in zero t st closed room = absurd (omega arith)
    dto_schema-runs_in (suc fuel) t st closed room =
        let m = missing names st in
        let r = g.rank t in
        let embed = add_struct_fields T fuel in
        let dtos = dtos_below (dto_schema T fuel) fuel (dto_schema-runs_in fuel) in
        let embeds = embeds_below embed fuel (add_struct_fields-runs_in fuel) in
        go_kind_schema-runs T names top g (dto_schema T fuel) embed m r (dtos m r (omega arith))
          (embeds m r (omega arith)) (T.kind t) t st closed (omega arith)
          (λ h. g.rank-elem_type t h)
          (λ is. elim (Bool-cases (is_empty (T.type_name t))) [
            | inl anonymous ↦ rw anonymous (
                struct_schema-runs T names top g (dto_schema T fuel) embed m r
                  (dtos m r (omega arith)) (embeds m r (omega arith)) t st closed (omega arith)
                  (g.rank_inline t is (ground arith)))
            | inr named ↦
                let name = T.type_text t in
                let below = insert name any_value st in
                let k = missing names below in
                rw named (
                  Outcome-component st name (struct_schema T (dto_schema T fuel) embed t) closed
                    (λ fresh.
                      let fewer =
                        missing-insert names st name any_value
                          (g.listed t is (nonempty (T.type_name t) named)) fresh in
                      let room' = need_fewer k m r fuel fewer room in
                      struct_schema-runs T names top g (dto_schema T fuel) embed k (top + 1)
                        (dtos k (top + 1) room') (embeds k (top + 1) room') t below
                        (IsClosed-placeholder st name closed) (omega arith)
                        (omega (arith, g.field_rank_bound t))))
          ])

    add_struct_fields-runs_in :
        (fuel : ℕ) (t : H.GoType) (props : Properties) (st : Schemas)
        → IsClosed st
        → need (missing names st) (g.field_rank t) < fuel
        → PropertiesOk st props
        → Outcome st PropertiesOk (add_struct_fields T fuel t props st)
    add_struct_fields-runs_in zero t props st closed room h = absurd (omega arith)
    add_struct_fields-runs_in (suc fuel) t props st closed room h =
        let m = missing names st in
        let r = g.field_rank t in
        add_struct_fields_from-runs T names top g (dto_schema T fuel) (add_struct_fields T fuel) m r
          (dtos_below (dto_schema T fuel) fuel (dto_schema-runs_in fuel) m r (omega arith))
          (embeds_below (add_struct_fields T fuel) fuel (add_struct_fields-runs_in fuel) m r
            (omega arith))
          (T.struct_fields t) props st closed (omega arith) (g.rank_fields t) h
