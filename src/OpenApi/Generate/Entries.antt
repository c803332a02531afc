-- ===== src/OpenApi/Generate/Entries.antt =====
-- The operations of a document, and the schemas that they show, as entries of its tables.
use grpc_composition.Common.{
  ℕ, ◌≡◌, refl, sym, ap, inl, inr, List, [], ◌∷◌, Option, none, some, Text, codes, if◌then◌else◌,
  text_eq, is_empty, Bool-cases, lookup, All,
}
use mathlib.Core.Path.{subst}
use mathlib.Core.Option.{some-injective, some-ne-none}
use grpc_composition.Std.Strconv.Itoa.{itoa}
use grpc_composition.Host.{Host}
use grpc_composition.Spec.{OperationInfo}
use grpc_composition.OpenApi.{PathItem}
use grpc_composition.OpenApi.Schema.{Schema}
use grpc_composition.OpenApi.Components.{Schemas}
use grpc_composition.OpenApi.Components.Outcomes.{SchemaOk}
use grpc_composition.OpenApi.Protos.{Protoreflect}
use grpc_composition.OpenApi.Dtos.{Reflection}
use grpc_composition.OpenApi.Generate.{
  Info, MediaType, Content, Response, Operation, Document, generate_from, generate,
}
use grpc_composition.OpenApi.Generate.References.{ContentOk, OperationOk}
use grpc_composition.OpenApi.Generate.Matches.{Answers}
use grpc_composition.OpenApi.Generate.Shown.{json_schema, schema_of_body, schema_of_response}
use grpc_composition.OpenApi.Generate.Resolved.{schemas_of, schemas_of-components}

All-lookup :
    {A : Type 0} (P : A → Type 0) (k : Text) (xs : List (Text × A)) (a : A)
    → All (λ e. P e.1) xs
    → lookup k xs ≡ some a
    → P a
unfolding lookup
All-lookup P k [] a h e = absurd (some-ne-none a (sym e))
All-lookup P k ((n, b) ∷ xs) a h e = elim (Bool-cases (text_eq n k)) [
  | inl hit ↦ subst P (some-injective b a (rw hit at e)) h.0
  | inr miss ↦ All-lookup P k xs a h.1 (rw miss at e)
]

found_by :
    {A B : Type 0} (o : Option A) (f : A → Option B) (b : B)
    → elim o [ none ↦ none | some a ↦ f a ] ≡ some b
    → (a : A) × (o ≡ some a) × (f a ≡ some b)
found_by none f b e = absurd (some-ne-none b (sym e))
found_by (some a) f b e = (a, refl, e)

module _ (st : Schemas) where
  SchemaOk-json_schema :
      (content : Content) (s : Schema)
      → ContentOk st content
      → json_schema content ≡ some s
      → SchemaOk st s
  SchemaOk-json_schema content s h e =
      let (media, there, is) =
        found_by (lookup (codes "application/json") content) (λ media. some media.media_schema) s
          e in
      subst (SchemaOk st) (some-injective media.media_schema s is) (
        All-lookup (λ (m : MediaType). SchemaOk st m.media_schema) (codes "application/json")
          content media h there)

  pub SchemaOk-response :
      (status : ℕ) (o : Operation) (s : Schema)
      → OperationOk st o
      → schema_of_response status o ≡ some s
      → SchemaOk st s
  SchemaOk-response status o s h e =
      let (answer, there, is) =
        found_by (lookup (itoa status) o.responses) (λ answer. json_schema answer.content) s e in
      SchemaOk-json_schema answer.content s
        (All-lookup (λ (a : Response). ContentOk st a.content) (itoa status) o.responses answer
          h.responses_ok there)
        is

  pub SchemaOk-body :
      (o : Operation) (s : Schema) → OperationOk st o → schema_of_body o ≡ some s → SchemaOk st s
  SchemaOk-body o s h e =
      let (body, there, is) = found_by o.request_body (λ b. json_schema b.content) s e in
      SchemaOk-json_schema body.content s (rw there at h.body_ok) is

-- A relation that holds of what the document answers with for a route.
pub Answers-some :
    {H : Host} (Rel : OperationInfo H → Operation → Type 0) (info : OperationInfo H)
    (o : Option Operation)
    → Answers Rel (some info) o
    → (op : Operation) × (o ≡ some op) × Rel info op
Answers-some Rel info none h = absurd h
Answers-some Rel info (some op) h = (op, refl, h)

pub generate-steps :
    {H : Host} (R : Protoreflect H) (T : Reflection H) (fuel : ℕ) (ops : List (OperationInfo H))
    (title : Info) (doc : Document)
    → generate R T fuel ops title ≡ some doc
    → (paths : List (Text × PathItem Operation)) × (generate_from R T fuel ops [] []
        ≡ some (paths, schemas_of doc))
      × (doc.paths ≡ paths)
unfolding generate
generate-steps R T fuel ops title doc e =
    let (r, ran, is) =
      found_by (generate_from R T fuel ops [] [])
        (λ r. some (record {
          openapi = codes "3.1.0";
          info = title;
          paths = r.0;
          components = if is_empty r.1 then none else some (record { schemas = r.1 });
        }))
        doc e in
    let same = some-injective _ doc is in
    let table : schemas_of doc ≡ r.1 = rw (← same) (schemas_of-components r.1 title r.0) in
    (r.0, rw table ran, sym (ap (λ (d : Document). d.paths) same))
