-- ===== src/Tests/Encoded.antt =====
-- JSON of concrete messages, and that the document of their routes admits it.
use grpc_composition.Common.{
  ◌≡◌, refl, sym, ◌≢◌, inl, inr, true, false, [], none, some, arith, Text, codes, text_eq,
  text_eq_iff, All, Any,
}
use mathlib.Core.Option.{some-ne-none, some-injective}
use grpc_composition.Spec.{OperationInfo}
use grpc_composition.OpenApi.Items.{documented}
use grpc_composition.OpenApi.Schema.{Schema}
use grpc_composition.OpenApi.{normalize_path}
use grpc_composition.OpenApi.Json.{
  Json, Members, no_members, member, string, object, EachMember, Admits,
}
use grpc_composition.OpenApi.Protos.Protojson.{
  Form, string_form, has_form, documented_form, HasOwnNames, FieldForm, Protojson,
}
use grpc_composition.OpenApi.Generate.{Operation}
use grpc_composition.OpenApi.Generate.Matches.{route_of}
use grpc_composition.OpenApi.Generate.Shown.{schema_of_body, schema_of_response}
use grpc_composition.OpenApi.Generate.Resolved.{schemas_of}
use grpc_composition.OpenApi.Generate.Sound.{generate-response, generate-body}
use grpc_composition.Tests.Schemas.{
  DemoMessage, node, time, DemoType, user_type, friends_type, friend_type, page_type, text_type,
  problem_type, host, messages, types, names, messages_listed, grounded, node_fields, node_names,
  field_names, type_texts,
}
use grpc_composition.Tests.Generated.{
  put_node, routes, title, document, generate_test, room, routes_known,
}

-- The JSON of times, and of nodes with a name and a next node.
data Encoded : DemoMessage → Json → Type 0 where
  a_time : (s : Text) → Encoded time (string s)
  last_node : (s : Text) → Encoded node (object (member (codes "name") (string s) no_members))
  inner_node :
      {j : Json} (s : Text)
      → Encoded node j
      → Encoded node
          (object (member (codes "name") (string s) (member (codes "next") j no_members)))

time_form : (j : Json) → Encoded time j → has_form string_form j ≡ true
time_form _ (a_time s) = refl

abbrev IsMember : Text → Json → Type 0
IsMember k v =
    Any (λ fd. (k ≡ field_names fd) × FieldForm messages tt Encoded false false fd v)
      (node_fields node)

node_members :
    (j : Json) → Encoded node j → (ms : Members) × (j ≡ object ms) × EachMember IsMember ms
node_members _ (last_node s) = (_, refl, (inl (refl, refl), tt))
node_members _ (inner_node s e) = (_, refl, (inl (refl, refl), (inr (inl (refl, e)), tt)))

-- Texts are apart where the comparison of them gives false.
texts_apart : (s t : Text) → text_eq s t ≡ false → s ≢ t
texts_apart s t e h = ground (arith, text_eq_iff s t, e, h)

own_names : (md : DemoMessage) → HasOwnNames messages tt (node_fields md)
unfolding text_eq
own_names time = tt
own_names node =
    ((texts_apart _ _ refl, (texts_apart _ _ refl, tt)), ((texts_apart _ _ refl, tt), (tt, tt)))

form_lem :
    (md : DemoMessage) (j : Json) (f : Form)
    → documented_form (node_names md) ≡ some f
    → Encoded md j
    → has_form f j ≡ true
unfolding documented_form text_eq
form_lem node j f h e = absurd (some-ne-none f (sym h))
form_lem time j f h e = rw (← some-injective string_form f h) (time_form j e)

members_lem :
    (md : DemoMessage) (j : Json)
    → documented_form (node_names md) ≡ none
    → Encoded md j
    → (ms : Members) × (j ≡ object ms)
      × EachMember
          (λ k v.
            Any
              (λ fd. (k ≡ field_names fd) × FieldForm messages tt Encoded false false fd v)
              (node_fields md))
          ms
unfolding documented_form text_eq
members_lem node j h e = node_members j e
members_lem time j h e = absurd (some-ne-none string_form h)

abbrev protojson : Protojson messages tt
protojson = record {
  Encodes = Encoded;
  own_names = own_names;
  form_lem = form_lem;
  members_lem = members_lem;
}

one_message :
    (md md' : DemoMessage) → node_names md ≡ node_names md' → node_fields md ≡ node_fields md'
one_message node node e = refl
one_message time time e = refl
one_message node time e = cc
one_message time node e = cc

apart : (t : DemoType) (md : DemoMessage) → type_texts t ≢ node_names md
unfolding text_eq
apart user_type node = texts_apart _ _ refl
apart user_type time = texts_apart _ _ refl
apart problem_type node = texts_apart _ _ refl
apart problem_type time = texts_apart _ _ refl
apart friends_type node = texts_apart _ _ refl
apart friends_type time = texts_apart _ _ refl
apart friend_type node = texts_apart _ _ refl
apart friend_type time = texts_apart _ _ refl
apart page_type node = texts_apart _ _ refl
apart page_type time = texts_apart _ _ refl
apart text_type node = texts_apart _ _ refl
apart text_type time = texts_apart _ _ refl

routes_plain : All (λ (op : OperationInfo host). op.marshal ≡ tt {0}) routes
routes_plain = (refl, (refl, tt))

-- A node named "a" before one named "b".
abbrev two_nodes : Json
two_nodes = object (
    member (codes "name") (string (codes "a")) (
      member (codes "next") (object (member (codes "name") (string (codes "b")) no_members))
        no_members))

two_nodes-Encoded : Encoded node two_nodes
two_nodes-Encoded = inner_node (codes "a") (last_node (codes "b"))

put_routed : route_of (codes "/nodes/{id}") (codes "PUT") routes ≡ some put_node
unfolding normalize_path text_eq
put_routed = refl

generate-response_example :
    (o : Operation) × (s : Schema) × (documented document.paths (codes "/nodes/{id}") (codes "PUT")
      ≡ some o)
    × (schema_of_response 201 o ≡ some s)
    × Admits (schemas_of document) s two_nodes
generate-response_example =
    generate-response messages types tt protojson one_message apart names 5 grounded messages_listed
      30 room routes title document generate_test routes_plain routes_known (codes "/nodes/{id}")
      (codes "PUT") put_node [] two_nodes put_routed refl refl two_nodes-Encoded

generate-body_example :
    (o : Operation) × (s : Schema) × (documented document.paths (codes "/nodes/{id}") (codes "PUT")
      ≡ some o)
    × (schema_of_body o ≡ some s)
    × Admits (schemas_of document) s two_nodes
generate-body_example =
    generate-body messages types tt protojson one_message apart names 5 grounded messages_listed 30
      room routes title document generate_test routes_plain routes_known (codes "/nodes/{id}")
      (codes "PUT") put_node (record { proto = some []; dto = none }) [] two_nodes put_routed refl
      refl two_nodes-Encoded
