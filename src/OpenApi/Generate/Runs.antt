-- ===== src/OpenApi/Generate/Runs.antt =====
-- The steps of `Generate` return, and leave a table in which every reference resolves.
use grpc_composition.Common.{
  ℕ, ◌+◌, ◌*◌, ◌≤◌, ◌<◌, ◌≡◌, refl, inl, inr, List, [], ◌∷◌, map, none, arith, Text, codes,
  Option-cases, length, lookup, Any,
}
use grpc_composition.Std.Strconv.Itoa.{itoa}
use grpc_composition.Std.Http.{status_text}
use grpc_composition.Host.{Host}
use grpc_composition.Spec.{BodySpec, OperationInfo}
use grpc_composition.OpenApi.{PathItem, add_operation, add_operations}
use grpc_composition.OpenApi.Schema.{any_value}
use grpc_composition.OpenApi.Components.{Schemas, Step, Refs, IsClosed}
use grpc_composition.OpenApi.Components.Outcomes.{
  missing, Outcome, Outcome-pure, Outcome-bind, Outcome-weaken, SchemaOk, SchemaOk-mono,
}
use grpc_composition.OpenApi.Protos.{Protoreflect, proto_schema}
use grpc_composition.OpenApi.Protos.Runs.{message_ref-runs}
use grpc_composition.OpenApi.Dtos.{Reflection, dto_schema}
use grpc_composition.OpenApi.Dtos.Parts.{IsGrounded}
use grpc_composition.OpenApi.Dtos.Runs.{dto_schema-runs_in}
use grpc_composition.OpenApi.Generate.{
  Operation, body_schema, response_schema, request_body, responses, operation, generate_from,
}
use grpc_composition.OpenApi.Generate.References.{
  BodyOk, ResponsesOk, OperationOk, BodyOk-mono, OperationOk-mono, add_parameters_lem,
  parameters-ok, is_some, Describes, Says,
}
use grpc_composition.OpenApi.Generate.Matches.{Generated}

-- What a step gives that always returns.
abbrev Runs : {A : Type 0} → (Schemas → A → Type 0) → Step A → Type 0
Runs P m = (st : Schemas) → IsClosed st → Outcome st P (m st)

module _ {H : Host} (R : Protoreflect H) (T : Reflection H) (fuel : ℕ)
    (protos : (opts : H.MarshalOptions) (m : H.Message)
      → Runs SchemaOk (proto_schema R opts fuel m))
    (dtos : (t : H.GoType) → Runs SchemaOk (dto_schema T fuel t)) where
  body_schema-Runs :
      (body : BodySpec H) (opts : H.MarshalOptions) → Runs SchemaOk (body_schema R T fuel body opts)
  unfolding body_schema Refs
  body_schema-Runs body opts st closed = elim (Option-cases body.proto) [
    | inr (m, e) ↦ rw (body_schema, e) (protos opts m st closed)
    | inl none_proto ↦ elim (Option-cases body.dto) [
      | inr (t, e) ↦ rw (body_schema, none_proto, e) (dtos t st closed)
      | inl e ↦
          rw (body_schema, none_proto, e) (Outcome-pure st any_value closed (inl refl, tt, tt, tt))
    ]
  ]

  response_schema-Runs : (op : OperationInfo H) → Runs SchemaOk (response_schema R T fuel op)
  unfolding response_schema Refs
  response_schema-Runs op st closed = elim (Option-cases op.response_dto) [
    | inr (t, e) ↦ rw (response_schema, e) (dtos t st closed)
    | inl no_dto ↦ elim (Option-cases op.response_proto) [
      | inr (m, e) ↦ rw (response_schema, no_dto, e) (protos op.marshal m st closed)
      | inl e ↦
          rw (response_schema, no_dto, e) (Outcome-pure st any_value closed (inl refl, tt, tt, tt))
    ]
  ]

  request_body-Runs :
      (op : OperationInfo H)
      → Runs
          (λ st body. BodyOk st body × (is_some body ≡ is_some op.body))
          (request_body R T fuel op)
  unfolding request_body
  request_body-Runs op st closed = elim (Option-cases op.body) [
    | inl e ↦ rw (request_body, e) (Outcome-pure st none closed (tt, refl))
    | inr (body, e) ↦
        let one = body_schema-Runs body op.marshal st closed in
        rw (request_body, e)
          (Outcome-bind st (body_schema R T fuel body op.marshal) _ one
            (Outcome-pure one.table _ one.closed ((one.holds, tt), refl)))
  ]

  responses-Runs :
      (op : OperationInfo H)
      → Runs
          (λ st answers.
            ResponsesOk st answers
            × (map {B = Text × Text} (λ e. (e.0, e.1.description)) answers
                ≡ (itoa op.success_status, status_text op.success_status)
                  ∷ (codes "default", codes "Error")
                  ∷ []))
          (responses R T fuel op)
  unfolding responses
  responses-Runs op st closed =
      let one = response_schema-Runs op st closed in
      let two = dtos T.problem_details one.table one.closed in
      Outcome-bind st (response_schema R T fuel op) _ one (
        Outcome-bind one.table (dto_schema T fuel T.problem_details) _ two (
          Outcome-pure two.table _ two.closed (
            (
              (SchemaOk-mono one.table two.table one.value two.keeps one.holds, tt),
              ((two.holds, tt), tt),
            ),
            refl,
          )))

  operation-Runs :
      (op : OperationInfo H)
      → Runs (λ st o. Describes op o × OperationOk st o) (operation R T fuel op)
  unfolding operation
  operation-Runs op st closed =
      let one = request_body-Runs op st closed in
      let two = responses-Runs op one.table one.closed in
      Outcome-bind st (request_body R T fuel op) _ one (
        Outcome-bind one.table (responses R T fuel op) _ two (
          Outcome-pure two.table _ two.closed (
            record {
              operation_id_same = refl;
              summary_same = refl;
              description_same = refl;
              tags_same = refl;
              deprecated_same = refl;
              parameters_same = add_parameters_lem [] op.params;
              body_same = one.holds.1;
              responses_same = two.holds.1;
            },
            record {
              parameters_ok =
                  rw (add_parameters_lem [] op.params) (parameters-ok two.table op.params);
              body_ok = BodyOk-mono one.table two.table two.keeps one.value one.holds.0;
              responses_ok = two.holds.0;
            },
          )))

  generate_from-Runs :
      (ops : List (OperationInfo H)) (paths : List (Text × PathItem Operation))
      → Runs
          (λ st paths'.
            (gen : List (Text × Text × Operation)) × (paths' ≡ add_operations paths gen)
            × Generated (Says st) ops gen)
          (generate_from R T fuel ops paths)
  unfolding generate_from add_operations
  generate_from-Runs [] paths st closed = Outcome-pure st paths closed ([], refl, tt)
  generate_from-Runs (op ∷ ops) paths st closed =
      let one = operation-Runs op st closed in
      let two =
        generate_from-Runs ops (add_operation paths op.pattern_text op.method one.value) one.table
          one.closed in
      let (gen, same, all) = two.holds in
      Outcome-bind st (operation R T fuel op) _ one (
        Outcome-weaken one.table _ two (
          (op.pattern_text, op.method, one.value) ∷ gen,
          same,
          (
            refl,
            refl,
            (one.holds.0, OperationOk-mono one.table two.table two.keeps one.value one.holds.1),
            all,
          ),
        ))

missing-length : (names : List Text) (st : Schemas) → missing names st ≤ length names
unfolding missing
missing-length [] st = omega arith
missing-length (n ∷ names) st = elim (Option-cases (lookup n st)) [
  | inl e ↦ rw (missing, e) (omega (arith, missing-length names st))
  | inr (s, e) ↦ rw (missing, e) (omega (arith, missing-length names st))
]

-- Fuel enough for every type, with these names to come and ranks up to `top`.
abbrev pub enough : List Text → ℕ → ℕ
enough names top = (length names + 1) * (top + 1)

need_enough :
    (k len top r fuel : ℕ)
    → k ≤ len
    → r ≤ top
    → (len + 1) * (top + 1) ≤ fuel
    → k * (top + 1) + r < fuel
need_enough k len top r fuel h l e = grind arith

length_enough : (k len top fuel : ℕ) → k ≤ len → (len + 1) * (top + 1) ≤ fuel → k < fuel
length_enough k len top fuel h e = grind arith

module _ {H : Host} (R : Protoreflect H) (T : Reflection H) (names : List Text) (top : ℕ)
    (g : IsGrounded T names top)
    (listed : (md : R.MessageDescriptor) → Any (λ n. n ≡ R.full_name md) names) where
  pub generated :
      (fuel : ℕ)
      → enough names top ≤ fuel
      → (ops : List (OperationInfo H))
      → Runs
          (λ st paths.
            (gen : List (Text × Text × Operation)) × (paths ≡ add_operations [] gen)
            × Generated (Says st) ops gen)
          (generate_from R T fuel ops [])
  unfolding proto_schema
  generated fuel room ops =
      generate_from-Runs R T fuel
        (λ opts m st closed.
          message_ref-runs R opts names listed fuel (R.descriptor m) st closed (
            length_enough (missing names st) (length names) top fuel (missing-length names st)
              room))
        (λ t st closed. dto_schema-runs_in T names top g fuel t st closed (
          need_enough (missing names st) (length names) top (g.rank t) fuel
            (missing-length names st) (g.rank_bound t) room))
        ops []
