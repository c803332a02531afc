-- ===== src/OpenApi/Generate/Shown.antt =====
-- Which schemas `operation` shows for proto bodies and responses, and where the entries of the table
-- come from.
use grpc_composition.Common.{
  ℕ, ◌≡◌, refl, sym, ap, ◌∙◌, ◌⊎◌, inl, inr, true, List, [], ◌∷◌, Option, none, some, Text, codes,
  text_eq, text_eq_refl, Option-cases, lookup, All,
}
use mathlib.Core.Option.{some-injective, some-ne-none}
use grpc_composition.Std.Strconv.Itoa.{itoa}
use grpc_composition.Host.{Host}
use grpc_composition.Spec.{BodySpec, OperationInfo}
use grpc_composition.OpenApi.{PathItem, add_operation, add_operations}
use grpc_composition.OpenApi.Schema.{Schema, any_value}
use grpc_composition.OpenApi.Components.{pure, bind_step}
use grpc_composition.OpenApi.Components.Ensures.{Ensures, Ensures-pure, Ensures-bind}
use grpc_composition.OpenApi.Protos.{Protoreflect, proto_schema}
use grpc_composition.OpenApi.Protos.Shapes.{ref_shape, message_shape, message_ref-shape}
use grpc_composition.OpenApi.Dtos.{Reflection, dto_schema}
use grpc_composition.OpenApi.Dtos.Origins.{Whatever, dto_schema-origin}
use grpc_composition.OpenApi.Generate.{
  Content, RequestBody, Response, Operation, json_content, body_schema, response_schema,
  request_body, responses, operation, generate_from,
}
use grpc_composition.OpenApi.Generate.Matches.{Generated}

-- The schema of the JSON content of a body and of the response for a status.
abbrev pub json_schema : Content → Option Schema
json_schema content = elim (lookup (codes "application/json") content) [
  | none ↦ none
  | some media ↦ some media.media_schema
]

abbrev pub schema_of_body : Operation → Option Schema
schema_of_body o = elim o.request_body [ none ↦ none | some b ↦ json_schema b.content ]

abbrev pub schema_of_response : ℕ → Operation → Option Schema
schema_of_response status o = elim (lookup (itoa status) o.responses) [
  | none ↦ none
  | some answer ↦ json_schema answer.content
]

module _ {H : Host} (R : Protoreflect H) (T : Reflection H) (opts : H.MarshalOptions) where
  -- A message and its schema, or the text of a Go type and any schema.
  abbrev pub Made : Text → Schema → Type 0
  Made name s =
      ((md : R.MessageDescriptor) × (name ≡ R.full_name md) × (s ≡ message_shape R opts md))
      ⊎ ((t : H.GoType) × (name ≡ T.type_text t))

  -- An operation shows the messages of its route.
  pub record Shows (info : OperationInfo H) (o : Operation) : Type 0 where
    pub body_shown :
        (body : BodySpec H) (m : H.Message)
        → info.body ≡ some body
        → body.proto ≡ some m
        → schema_of_body o ≡ some (ref_shape R opts (R.descriptor m))
    pub response_shown :
        (m : H.Message)
        → info.response_dto ≡ none
        → info.response_proto ≡ some m
        → schema_of_response info.success_status o ≡ some (ref_shape R opts (R.descriptor m))

  module _ (fuel : ℕ) where
    proto_schema-shown :
        (m : H.Message)
        → Ensures Made (λ s. s ≡ ref_shape R opts (R.descriptor m)) (proto_schema R opts fuel m)
    unfolding proto_schema
    proto_schema-shown m =
        message_ref-shape R opts Made (λ md. inl (md, refl, refl)) fuel (R.descriptor m)

    dto_schema-shown : (t : H.GoType) → Ensures Made Whatever (dto_schema T fuel t)
    dto_schema-shown t = dto_schema-origin T Made (λ t s. inr (t, refl)) fuel t

    ShowsBody : BodySpec H → Schema → Type 0
    ShowsBody body s = (m : H.Message) → body.proto ≡ some m → s ≡ ref_shape R opts (R.descriptor m)

    ShowsResponse : OperationInfo H → Schema → Type 0
    ShowsResponse info s =
        (m : H.Message)
        → info.response_dto ≡ none
        → info.response_proto ≡ some m
        → s ≡ ref_shape R opts (R.descriptor m)

    body_schema-shown :
        (body : BodySpec H) → Ensures Made (ShowsBody body) (body_schema R T fuel body opts)
    unfolding body_schema ShowsBody
    body_schema-shown body = elim (Option-cases body.proto) [
      | inr (m, e) ↦ record {
        ensured = λ st r ran.
            let (grows, is) = (proto_schema-shown m).ensured st r (rw (body_schema, e) at ran) in
            (
              grows,
              λ m' e'.
                  is
                  ∙ ap (λ m. ref_shape R opts (R.descriptor m)) (some-injective m m' (sym e ∙ e')),
            );
      }
      | inl e ↦ elim (Option-cases body.dto) [
        | inr (t, d) ↦ record {
          ensured = λ st r ran. (
            ((dto_schema-shown t).ensured st r (rw (body_schema, e, d) at ran)).0,
            λ m e'. absurd (some-ne-none m (sym e' ∙ e)),
          );
        }
        | inl d ↦ record {
          ensured = λ st r ran. (
            ((Ensures-pure Made {Q = Whatever} any_value tt).ensured st r
                (rw (body_schema, e, d) at ran)).0,
            λ m e'. absurd (some-ne-none m (sym e' ∙ e)),
          );
        }
      ]
    ]

    response_schema-shown :
        (info : OperationInfo H)
        → info.marshal ≡ opts
        → Ensures Made (ShowsResponse info) (response_schema R T fuel info)
    unfolding response_schema ShowsResponse
    response_schema-shown info plain = elim (Option-cases info.response_dto) [
      | inr (t, e) ↦ record {
        ensured = λ st r ran. (
          ((dto_schema-shown t).ensured st r (rw (response_schema, e) at ran)).0,
          λ m none_dto e'. absurd (some-ne-none t (sym e ∙ none_dto)),
        );
      }
      | inl e ↦ elim (Option-cases info.response_proto) [
        | inr (m, d) ↦ record {
          ensured = λ st r ran.
              let (grows, is) =
                (proto_schema-shown m).ensured st r (rw (response_schema, e, d, plain) at ran) in
              (
                grows,
                λ m' _ e'.
                    is
                    ∙ ap (λ m. ref_shape R opts (R.descriptor m))
                        (some-injective m m' (sym d ∙ e')),
              );
        }
        | inl d ↦ record {
          ensured = λ st r ran. (
            ((Ensures-pure Made {Q = Whatever} any_value tt).ensured st r
                (rw (response_schema, e, d) at ran)).0,
            λ m _ e'. absurd (some-ne-none m (sym e' ∙ d)),
          );
        }
      ]
    ]

    BodyShown : OperationInfo H → Option RequestBody → Type 0
    BodyShown info shown =
        (body : BodySpec H) (m : H.Message)
        → info.body ≡ some body
        → body.proto ≡ some m
        → elim shown [ none ↦ none | some b ↦ json_schema b.content ]
          ≡ some (ref_shape R opts (R.descriptor m))

    ResponsesShown : OperationInfo H → List (Text × Response) → Type 0
    ResponsesShown info answers =
        (m : H.Message)
        → info.response_dto ≡ none
        → info.response_proto ≡ some m
        → elim (lookup (itoa info.success_status) answers) [
          | none ↦ none
          | some answer ↦ json_schema answer.content
        ]
          ≡ some (ref_shape R opts (R.descriptor m))

    json_schema-json_content : (s : Schema) → json_schema (json_content s) ≡ some s
    unfolding lookup text_eq
    json_schema-json_content s = refl

    request_body-shown :
        (info : OperationInfo H)
        → info.marshal ≡ opts
        → Ensures Made (BodyShown info) (request_body R T fuel info)
    unfolding request_body BodyShown ShowsBody
    request_body-shown info plain = elim (Option-cases info.body) [
      | inl e ↦ record {
        ensured = λ st r ran. (
          ((Ensures-pure Made {Q = Whatever} none tt).ensured st r (rw (request_body, e) at ran)).0,
          λ body m e' _. absurd (some-ne-none body (sym e' ∙ e)),
        );
      }
      | inr (body, e) ↦
          let found : Ensures Made
              (λ (shown : Option RequestBody).
                (m : H.Message)
                → body.proto ≡ some m
                → elim shown [ none ↦ none | some b ↦ json_schema b.content ]
                  ≡ some (ref_shape R opts (R.descriptor m)))
              (bind_step (body_schema R T fuel body opts)
                (λ s. pure (some (record { required = true; content = json_content s })))) =
            Ensures-bind Made (body_schema R T fuel body opts) _ (body_schema-shown body) (λ s is.
              Ensures-pure Made _ (λ m e'. json_schema-json_content s ∙ ap some (is m e'))) in
          record {
            ensured = λ st r ran.
                let (grows, shown) = found.ensured st r (rw (request_body, e, plain) at ran) in
                (
                  grows,
                  λ body' m e' proto. shown m (rw (some-injective body body' (sym e ∙ e')) proto),
                );
          }
    ]

    responses-shown :
        (info : OperationInfo H)
        → info.marshal ≡ opts
        → Ensures Made (ResponsesShown info) (responses R T fuel info)
    unfolding responses ResponsesShown ShowsResponse lookup
    responses-shown info plain =
        Ensures-bind Made (response_schema R T fuel info) _ (response_schema-shown info plain)
          (λ s is.
            Ensures-bind Made (dto_schema T fuel T.problem_details) _
              (dto_schema-shown T.problem_details)
              (λ p _. Ensures-pure Made _ (λ m no_dto e.
                rw (text_eq_refl) (json_schema-json_content s ∙ ap some (is m no_dto e)))))

    operation-shown :
        (info : OperationInfo H)
        → info.marshal ≡ opts
        → Ensures Made (Shows info) (operation R T fuel info)
    unfolding operation BodyShown ResponsesShown
    operation-shown info plain =
        Ensures-bind Made (request_body R T fuel info) _ (request_body-shown info plain) (λ body b.
          Ensures-bind Made (responses R T fuel info) _ (responses-shown info plain)
            (λ answers a. Ensures-pure Made _ (record { body_shown = b; response_shown = a })))

    pub generate_from-shown :
        (ops : List (OperationInfo H)) (paths : List (Text × PathItem Operation))
        → All (λ (info : OperationInfo H). info.marshal ≡ opts) ops
        → Ensures Made
            (λ paths'.
              (gen : List (Text × Text × Operation)) × (paths' ≡ add_operations paths gen)
              × Generated Shows ops gen)
            (generate_from R T fuel ops paths)
    unfolding generate_from add_operations
    generate_from-shown [] paths plain = Ensures-pure Made paths ([], refl, tt)
    generate_from-shown (op ∷ ops) paths plain =
        Ensures-bind Made (operation R T fuel op) _ (operation-shown op plain.0) (λ o shows.
          let rest =
            generate_from-shown ops (add_operation paths op.pattern_text op.method o) plain.1 in
          record {
            ensured = λ st r e.
                let (grows, (gen, same, all)) = rest.ensured st r e in
                (grows, ((op.pattern_text, op.method, o) ∷ gen, same, (refl, refl, shows, all)));
          })
