-- ===== src/OpenApi/Generate/Resolved.antt =====
-- `Generate` as a whole: it returns, its references resolve, and the document answers for each path
-- and method with the operation of one route.
use grpc_composition.Common.{
  ◌+◌, ℕ, ◌≤◌, ◌≡◌, refl, sym, ◌∙◌, true, List, [], ◌∷◌, none, some, Text, codes, if◌then◌else◌,
  is_empty, lookup, All, Any,
}
use mathlib.Core.Path.{subst}
use mathlib.Core.Option.{some-injective}
use grpc_composition.Host.{Host}
use grpc_composition.Spec.{OperationInfo}
use grpc_composition.OpenApi.{PathItem, add_operations}
use grpc_composition.OpenApi.Items.{is_verb, documented, documented-add_operations}
use grpc_composition.OpenApi.Schema.{Schema}
use grpc_composition.OpenApi.Components.{Schemas, IsClosed}
use grpc_composition.OpenApi.Components.Outcomes.{SchemaOk}
use grpc_composition.OpenApi.Protos.{Protoreflect}
use grpc_composition.OpenApi.Dtos.{Reflection}
use grpc_composition.OpenApi.Dtos.Parts.{IsGrounded}
use grpc_composition.OpenApi.Generate.{Info, Operation, Document, generate}
use grpc_composition.OpenApi.Generate.References.{Says}
use grpc_composition.OpenApi.Generate.Matches.{
  route_of, Generated, Answers, all_verbs, Answers-last_some,
}
use grpc_composition.OpenApi.Generate.Fuel.{generate-more}
use grpc_composition.OpenApi.Generate.Runs.{enough, generated}

-- The schemas under `components` of a document.
abbrev pub schemas_of : Document → Schemas
schemas_of doc = elim doc.components [ none ↦ [] | some c ↦ c.schemas ]

pub schemas_of-components :
    (st : Schemas) (title : Info) (paths : List (Text × PathItem Operation))
    → schemas_of (record {
      openapi = codes "3.1.0";
      info = title;
      paths = paths;
      components = if is_empty st then none else some (record { schemas = st });
    })
      ≡ st
schemas_of-components [] title paths = refl
schemas_of-components (_ ∷ _) title paths = refl

IsClosed-nothing : IsClosed []
unfolding lookup
IsClosed-nothing name s h = cc

module _ {H : Host} (R : Protoreflect H) (T : Reflection H) (names : List Text) (top : ℕ)
    (g : IsGrounded T names top)
    (listed : (md : R.MessageDescriptor) → Any (λ n. n ≡ R.full_name md) names) (fuel : ℕ)
    (room : enough names top ≤ fuel) (ops : List (OperationInfo H)) (title : Info) where
  -- What `generate` gives.
  record IsComplete (doc : Document) : Type 0 where
    gen : List (Text × Text × Operation)
    returned : generate R T fuel ops title ≡ some doc
    version_same : doc.openapi ≡ codes "3.1.0"
    info_same : doc.info ≡ title
    paths_same : doc.paths ≡ add_operations [] gen
    all_generated : Generated (Says (schemas_of doc)) ops gen
    all_closed : IsClosed (schemas_of doc)

  complete : (doc : Document) × IsComplete doc
  unfolding generate
  complete =
      let o = generated R T names top g listed fuel room ops [] IsClosed-nothing in
      let same = schemas_of-components o.table title o.value in
      (
        record {
          openapi = codes "3.1.0";
          info = title;
          paths = o.value;
          components = if is_empty o.table then none else some (record { schemas = o.table });
        },
        record {
          gen = o.holds.0;
          returned = rw (generate, o.returns);
          version_same = refl;
          info_same = refl;
          paths_same = o.holds.1;
          all_generated = rw same (o.holds.2);
          all_closed = rw same (o.closed);
        },
      )

  IsComplete-generate : (doc : Document) → generate R T fuel ops title ≡ some doc → IsComplete doc
  IsComplete-generate doc e =
      let (d, c) = complete in subst IsComplete (some-injective d doc (sym c.returned ∙ e)) c

  -- `Generate` returns a document of version 3.1.0 with the given title, and any more fuel gives the
  -- same document, where messages and Go types may hold themselves: it is enough that all messages
  -- and all named structs have their names in one finite list, that a Go type holds itself only
  -- through a named struct, and that the fuel, which bounds the depth of the calls, is at least the
  -- number of names and one, times the bound of the ranks and one.
  pub generate-returns :
      (more : ℕ)
      → (doc : Document) × (generate R T fuel ops title ≡ some doc)
        × (generate R T (more + fuel) ops title ≡ some doc)
        × (doc.openapi ≡ codes "3.1.0")
        × (doc.info ≡ title)
  generate-returns more =
      let (d, c) = complete in
      (
        d,
        c.returned,
        generate-more R T more fuel ops title d c.returned,
        c.version_same,
        c.info_same,
      )

  -- Every `$ref` within every component of a document that `Generate` returned names a component of
  -- the document, with the names of all messages and named structs in one finite list, Go types
  -- that hold themselves only through named structs, and enough fuel.
  pub generate-components :
      (doc : Document) (name : Text) (s : Schema)
      → generate R T fuel ops title ≡ some doc
      → lookup name (schemas_of doc) ≡ some s
      → SchemaOk (schemas_of doc) s
  generate-components doc name s e h = (IsComplete-generate doc e).all_closed name s h

  -- A document that `Generate` returned, of routes with the five methods, has for a path and a method
  -- an operation exactly if some route with this method has a pattern that is normalised to this
  -- path. The operation is that of the last such route: it has the id, the summary, the
  -- description, the tags and the deprecation of the route's metadata, its parameters in their
  -- order, a request body exactly if the route has one, and two responses: one for the success
  -- status, described by its text, and the default one, described as "Error"; and every `$ref` of its parameters, its body and its responses names a component of the
  -- document. The names of all messages and named structs are in one finite list, Go types hold
  -- themselves only through named structs, and there is enough fuel.
  pub generate-documents :
      (doc : Document) (path method : Text)
      → generate R T fuel ops title ≡ some doc
      → All (λ (op : OperationInfo H). is_verb op.method ≡ true) ops
      → Answers
          (Says (schemas_of doc))
          (route_of path method ops)
          (documented doc.paths path method)
  generate-documents doc path method e known =
      let c = IsComplete-generate doc e in
      rw
        (
          c.paths_same,
          documented-add_operations c.gen path method
              (all_verbs (Says (schemas_of doc)) ops c.gen c.all_generated known),
        )
        (Answers-last_some (Says (schemas_of doc)) ops c.gen path method c.all_generated)
