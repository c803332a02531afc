-- ===== src/OpenApi/Generate/Fuel.antt =====
-- More fuel gives `Generate` the same document.
use grpc_composition.Common.{
  ℕ, zero, suc, ◌+◌, ◌≡◌, sym, ◌∙◌, inl, inr, List, [], ◌∷◌, none, some, arith, Text, Option-cases,
}
use mathlib.Core.Option.{some-ne-none}
use grpc_composition.Host.{Host}
use grpc_composition.Spec.{BodySpec, OperationInfo}
use grpc_composition.OpenApi.{PathItem, add_operation}
use grpc_composition.OpenApi.Schema.{any_value}
use grpc_composition.OpenApi.Components.{pure}
use grpc_composition.OpenApi.Components.Below.{Below, Below-refl, Below-bind}
use grpc_composition.OpenApi.Protos.{Protoreflect, proto_schema}
use grpc_composition.OpenApi.Protos.Fuel.{message_ref-Below}
use grpc_composition.OpenApi.Dtos.{Reflection, dto_schema}
use grpc_composition.OpenApi.Dtos.Fuel.{dto_schema-Below}
use grpc_composition.OpenApi.Generate.{
  Info, Operation, Document, body_schema, response_schema, request_body, responses, operation,
  generate_from, generate,
}

module _ {H : Host} (R : Protoreflect H) (T : Reflection H) (fuel : ℕ) where
  proto_schema-Below :
      (opts : H.MarshalOptions) (m : H.Message)
      → Below (proto_schema R opts fuel m) (proto_schema R opts (suc fuel) m)
  unfolding proto_schema
  proto_schema-Below opts m = message_ref-Below R opts fuel (R.descriptor m)

  body_schema-Below :
      (body : BodySpec H) (opts : H.MarshalOptions)
      → Below (body_schema R T fuel body opts) (body_schema R T (suc fuel) body opts)
  unfolding body_schema
  body_schema-Below body opts = elim (Option-cases body.proto) [
    | inr (m, e) ↦ rw (body_schema, e) (proto_schema-Below opts m)
    | inl e ↦ elim (Option-cases body.dto) [
      | inr (t, d) ↦ rw (body_schema, e, d) (dto_schema-Below T fuel t)
      | inl d ↦ rw (body_schema, e, d) (Below-refl (pure any_value))
    ]
  ]

  response_schema-Below :
      (op : OperationInfo H)
      → Below (response_schema R T fuel op) (response_schema R T (suc fuel) op)
  unfolding response_schema
  response_schema-Below op = elim (Option-cases op.response_dto) [
    | inr (t, e) ↦ rw (response_schema, e) (dto_schema-Below T fuel t)
    | inl e ↦ elim (Option-cases op.response_proto) [
      | inr (m, d) ↦ rw (response_schema, e, d) (proto_schema-Below op.marshal m)
      | inl d ↦ rw (response_schema, e, d) (Below-refl (pure any_value))
    ]
  ]

  request_body-Below :
      (op : OperationInfo H) → Below (request_body R T fuel op) (request_body R T (suc fuel) op)
  unfolding request_body
  request_body-Below op = elim (Option-cases op.body) [
    | inl e ↦ rw (request_body, e) (Below-refl (pure none))
    | inr (body, e) ↦
        rw (request_body, e)
          (Below-bind (body_schema R T fuel body op.marshal)
            (body_schema R T (suc fuel) body op.marshal) _ _ (body_schema-Below body op.marshal)
            (λ s. Below-refl (pure _)))
  ]

  responses-Below :
      (op : OperationInfo H) → Below (responses R T fuel op) (responses R T (suc fuel) op)
  unfolding responses
  responses-Below op =
      Below-bind (response_schema R T fuel op) (response_schema R T (suc fuel) op) _ _
        (response_schema-Below op)
        (λ s.
          Below-bind (dto_schema T fuel T.problem_details)
            (dto_schema T (suc fuel) T.problem_details) _ _
            (dto_schema-Below T fuel T.problem_details) (λ p. Below-refl (pure _)))

  operation-Below :
      (op : OperationInfo H) → Below (operation R T fuel op) (operation R T (suc fuel) op)
  unfolding operation
  operation-Below op =
      Below-bind (request_body R T fuel op) (request_body R T (suc fuel) op) _ _
        (request_body-Below op)
        (λ body.
          Below-bind (responses R T fuel op) (responses R T (suc fuel) op) _ _ (responses-Below op)
            (λ answers. Below-refl (pure _)))

  generate_from-Below :
      (ops : List (OperationInfo H)) (paths : List (Text × PathItem Operation))
      → Below (generate_from R T fuel ops paths) (generate_from R T (suc fuel) ops paths)
  unfolding generate_from
  generate_from-Below [] paths = Below-refl (pure paths)
  generate_from-Below (op ∷ ops) paths =
      Below-bind (operation R T fuel op) (operation R T (suc fuel) op) _ _ (operation-Below op)
        (λ o. generate_from-Below ops (add_operation paths op.pattern_text op.method o))

  generate-suc :
      (ops : List (OperationInfo H)) (title : Info) (doc : Document)
      → generate R T fuel ops title ≡ some doc
      → generate R T (suc fuel) ops title ≡ some doc
  unfolding generate
  generate-suc ops title doc e = elim (Option-cases (generate_from R T fuel ops [] [])) [
    | inl never ↦ absurd (some-ne-none doc (sym e ∙ rw (generate, never)))
    | inr (r, is) ↦ rw (generate, generate_from-Below ops [] [] r is) (rw (generate, is) at e)
  ]

module _ {H : Host} (R : Protoreflect H) (T : Reflection H) where
  pub generate-more :
      (more fuel : ℕ) (ops : List (OperationInfo H)) (title : Info) (doc : Document)
      → generate R T fuel ops title ≡ some doc
      → generate R T (more + fuel) ops title ≡ some doc
  generate-more zero fuel ops title doc e = let same : 0 + fuel ≡ fuel = omega arith in rw same e
  generate-more (suc more) fuel ops title doc e =
      let same : suc more + fuel ≡ suc (more + fuel) = omega arith in
      rw same
        (generate-suc R T (more + fuel) ops title doc (generate-more more fuel ops title doc e))
