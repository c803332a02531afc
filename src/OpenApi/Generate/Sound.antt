-- ===== src/OpenApi/Generate/Sound.antt =====
-- The document admits what the routes answer: the JSON of proto responses and bodies.
use grpc_composition.Common.{
  ℕ, ◌≤◌, ◌≡◌, sym, ap, ◌∙◌, ◌≢◌, inl, inr, true, List, [], none, some, Text, lookup, All, Any,
}
use mathlib.Core.Option.{some-injective, some-ne-none}
use grpc_composition.Host.{Host}
use grpc_composition.Spec.{BodySpec, OperationInfo}
use grpc_composition.OpenApi.Items.{is_verb, documented, documented-add_operations}
use grpc_composition.OpenApi.Schema.{Schema, object_schema, no_properties}
use grpc_composition.OpenApi.Components.{Schemas}
use grpc_composition.OpenApi.Components.Ensures.{Extends}
use grpc_composition.OpenApi.Components.Outcomes.{SchemaOk}
use grpc_composition.OpenApi.Json.{Json, Admits}
use grpc_composition.OpenApi.Protos.{Protoreflect}
use grpc_composition.OpenApi.Protos.Shapes.{ref_shape, message_shape, add_shapes}
use grpc_composition.OpenApi.Protos.Protojson.{Protojson}
use grpc_composition.OpenApi.Protos.Sound.{message-Admits}
use grpc_composition.OpenApi.Dtos.{Reflection}
use grpc_composition.OpenApi.Dtos.Parts.{IsGrounded}
use grpc_composition.OpenApi.Generate.{Info, Operation, Document, generate}
use grpc_composition.OpenApi.Generate.References.{OperationOk, Says}
use grpc_composition.OpenApi.Generate.Matches.{route_of, Answers, all_verbs, Answers-last_some}
use grpc_composition.OpenApi.Generate.Runs.{enough}
use grpc_composition.OpenApi.Generate.Shown.{
  schema_of_body, schema_of_response, Made, Shows, generate_from-shown,
}
use grpc_composition.OpenApi.Generate.Resolved.{schemas_of, generate-components, generate-documents}
use grpc_composition.OpenApi.Generate.Entries.{
  SchemaOk-response, SchemaOk-body, Answers-some, generate-steps,
}

module _ {H : Host} (R : Protoreflect H) (T : Reflection H) (opts : H.MarshalOptions)
    (P : Protojson R opts)
    (one_message : (md md' : R.MessageDescriptor)
      → R.full_name md ≡ R.full_name md'
      → R.fields md ≡ R.fields md')
    (apart : (t : H.GoType) (md : R.MessageDescriptor) → T.type_text t ≢ R.full_name md) where
  -- In a table that the generator has filled, the entry of a message is its schema.
  origin_of_Extends :
      (st : Schemas)
      → Extends (Made R T opts) [] st
      → (md : R.MessageDescriptor) (s : Schema) → lookup (R.full_name md) st ≡ some s
      → s ≡ message_shape R opts md
  unfolding lookup
  origin_of_Extends st grows md s there = elim (grows (R.full_name md) s there) [
    | inl before ↦ absurd (some-ne-none s (sym before))
    | inr (inl (md', named, shape)) ↦
        shape
        ∙ ap (λ fds. object_schema (add_shapes R opts fds no_properties))
            (sym (one_message md md' named))
    | inr (inr (t, named)) ↦ absurd (apart t md (sym named))
  ]

  module _ (names : List Text) (top : ℕ) (g : IsGrounded T names top)
      (listed : (md : R.MessageDescriptor) → Any (λ n. n ≡ R.full_name md) names) (fuel : ℕ)
      (room : enough names top ≤ fuel) (ops : List (OperationInfo H)) (title : Info)
      (doc : Document) (returned : generate R T fuel ops title ≡ some doc)
      (plain : All (λ (op : OperationInfo H). op.marshal ≡ opts) ops)
      (known : All (λ (op : OperationInfo H). is_verb op.method ≡ true) ops) where
    shown :
        (path method : Text)
        → Answers (Shows R T opts) (route_of path method ops) (documented doc.paths path method)
    shown path method =
        let (paths, ran, same) = generate-steps R T fuel ops title doc returned in
        let (gen, is, all) =
          ((generate_from-shown R T opts fuel ops [] plain).ensured [] (paths, schemas_of doc)
            ran).1 in
        rw
          (
            same,
            is,
            documented-add_operations gen path method
                (all_verbs (Shows R T opts) ops gen all known),
          )
          (Answers-last_some (Shows R T opts) ops gen path method all)

    entries :
        (md : R.MessageDescriptor) (s : Schema)
        → lookup (R.full_name md) (schemas_of doc) ≡ some s
        → s ≡ message_shape R opts md
    entries =
        let (paths, ran, same) = generate-steps R T fuel ops title doc returned in
        origin_of_Extends (schemas_of doc)
          ((generate_from-shown R T opts fuel ops [] plain).ensured [] (paths, schemas_of doc)
            ran).0

    admits :
        (md : R.MessageDescriptor) (j : Json)
        → SchemaOk (schemas_of doc) (ref_shape R opts md)
        → P.Encodes md j
        → Admits (schemas_of doc) (ref_shape R opts md) j
    admits =
        message-Admits R opts P (schemas_of doc)
          (λ name s.
            generate-components R T names top g listed fuel room ops title doc name s returned)
          entries

    -- The operation of a route says what the route says, and shows its messages.
    answered :
        (path method : Text) (info : OperationInfo H)
        → route_of path method ops ≡ some info
        → (o : Operation) × (documented doc.paths path method ≡ some o)
          × OperationOk (schemas_of doc) o
          × Shows R T opts info o
    answered path method info routed =
        let (o, there, says) =
          Answers-some (Says (schemas_of doc)) info (documented doc.paths path method) (
            rw routed at (
              generate-documents R T names top g listed fuel room ops title doc path method returned
                known)) in
        let (o', there', shows) =
          Answers-some (Shows R T opts) info (documented doc.paths path method)
            (rw routed at (shown path method)) in
        (o, there, says.1, rw (some-injective o o' (sym there ∙ there')) shows)

    -- A document that `Generate` returned admits what a route answers: where the last route for a path
    -- and a method has a proto response and no DTO, the document's schema of the response for the
    -- success status admits each JSON that protojson is documented to give a message of this response
    -- (`Encodes`: floats finite, enum values declared and not NullValue, no extensions, unpopulated
    -- fields left out). All routes have the same marshal options and one of the five methods, a full
    -- name stands for one list of fields, no Go type has the text of a message's full name, names and
    -- ranks are bounded and there is enough fuel.
    pub generate-response :
        (path method : Text) (info : OperationInfo H) (m : H.Message) (j : Json)
        → route_of path method ops ≡ some info
        → info.response_dto ≡ none
        → info.response_proto ≡ some m
        → P.Encodes (R.descriptor m) j
        → (o : Operation) × (s : Schema) × (documented doc.paths path method ≡ some o)
          × (schema_of_response info.success_status o ≡ some s)
          × Admits (schemas_of doc) s j
    generate-response path method info m j routed no_dto proto h =
        let (o, there, o_ok, shows) = answered path method info routed in
        let is = shows.response_shown m no_dto proto in
        let ok =
          SchemaOk-response (schemas_of doc) info.success_status o
            (ref_shape R opts (R.descriptor m)) o_ok is in
        (o, ref_shape R opts (R.descriptor m), there, is, admits (R.descriptor m) j ok h)

    -- A document that `Generate` returned admits the bodies of a route: where the last route for a
    -- path and a method has a proto body, the document's schema of the body admits each JSON that
    -- protojson is documented to give a message of this type (`Encodes`: floats finite, enum values
    -- declared and not NullValue, no extensions, unpopulated fields left out). All routes have the same
    -- marshal options and one of the five methods, a full name stands for one list of fields, no Go
    -- type has the text of a message's full name, names and ranks are bounded and there is enough fuel.
    pub generate-body :
        (path method : Text) (info : OperationInfo H) (body : BodySpec H) (m : H.Message) (j : Json)
        → route_of path method ops ≡ some info
        → info.body ≡ some body
        → body.proto ≡ some m
        → P.Encodes (R.descriptor m) j
        → (o : Operation) × (s : Schema) × (documented doc.paths path method ≡ some o)
          × (schema_of_body o ≡ some s)
          × Admits (schemas_of doc) s j
    generate-body path method info body m j routed bound proto h =
        let (o, there, o_ok, shows) = answered path method info routed in
        let is = shows.body_shown body m bound proto in
        let ok = SchemaOk-body (schemas_of doc) o (ref_shape R opts (R.descriptor m)) o_ok is in
        (o, ref_shape R opts (R.descriptor m), there, is, admits (R.descriptor m) j ok h)
