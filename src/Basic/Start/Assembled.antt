-- ===== src/Basic/Start/Assembled.antt =====
-- The App that `newApp` returns: what it lists and documents, and what its routes answer.
use grpc_composition.Common.{
  ℕ, zero, suc, ◌≤◌, ◌≡◌, refl, false, List, [], ◌∷◌, ◌++◌, map, Option, some, Text, codes, text_eq,
  ok, Any,
}
use grpc_composition.Std.Http.{Writer}
use grpc_composition.Host.{Host, Request}
use grpc_composition.Globals.{Globals}
use grpc_composition.Route.{proxy, operation_info}
use grpc_composition.Bind.Params.{path_string}
use grpc_composition.Bind.Typed.{query_int32}
use grpc_composition.Bind.Enums.{query_enum}
use grpc_composition.Bind.Body.{body_json}
use grpc_composition.Patterns.{validate_path_binders}
use grpc_composition.Forward.{Metadata, forward_metadata}
use grpc_composition.App.{
  App, Router, Served, route_at, handler, RegisteredOperation, new, as_served, update_route,
  handle_verb, handle, operations, app_serve_http,
}
use grpc_composition.App.Verbs
use grpc_composition.App.Dispatch.{
  app_serve_http-route, app_serve_http-handler, app_serve_http-missing,
}
use grpc_composition.OpenApi.Protos.{Protoreflect}
use grpc_composition.OpenApi.Dtos.{Reflection}
use grpc_composition.OpenApi.Dtos.Parts.{IsGrounded}
use grpc_composition.OpenApi.Generate.{Document, Info, generate}
use grpc_composition.OpenApi.Generate.Runs.{enough}
use grpc_composition.OpenApi.Generate.Resolved.{generate-returns}
use grpc_composition.Basic.{User}
use grpc_composition.Basic.Wiring.{
  hosted, Stubs, zero_list, zero_create, list_users_method, list_binders, get_user_route,
  create_user_route, user_dto_route,
}
use grpc_composition.Basic.Sessions.{asks_user, asks_users, creates_user, asks_dto, serve_call}
use grpc_composition.Basic.Start.{serve_spec, register_routes, register_spec, new_app}

-- The patterns that `newApp` registers, in its order.
abbrev pub four_patterns : List Text
four_patterns =
    codes "GET /users/{id}"
    ∷ codes "GET /users"
    ∷ codes "POST /users"
    ∷ codes "GET /users-dto/{id}"
    ∷ []

abbrev pub spec_pattern : Text
spec_pattern = codes "GET /openapi.json"

-- The router takes each of the patterns after those in front of it.
abbrev pub AcceptsAll : {H : Host} → Router H → List Text → List Text → Type 0
AcceptsAll X old [] = Unit
AcceptsAll X old (p ∷ ps) = (X.refuses old p ≡ false) × AcceptsAll X (old ++ (p ∷ [])) ps

abbrev pub title : Info
title = record { title = codes "basic example"; version = codes "0.1.0"; description = [] }

module _ (H : Host) (S : Stubs H) (g : Globals (hosted H)) (X : Router (hosted H)) where
  abbrev four_routes : List (Served (hosted H))
  four_routes =
      as_served (hosted H) S.user_type [] (get_user_route H S)
      ∷ as_served (hosted H) S.list_type zero_list
          (proxy (hosted H) (list_users_method H S) (list_binders H S))
      ∷ as_served (hosted H) S.user_type zero_create (create_user_route H S)
      ∷ as_served (hosted H) S.user_type [] (user_dto_route H S)
      ∷ []

  abbrev registered_as : Text → Text → ℕ → RegisteredOperation
  registered_as verb pattern_text i = record {
    method = verb;
    pattern_text = pattern_text;
    route = i;
  }

  -- The App once its four routes are registered.
  abbrev routed : App (hosted H)
  routed = record {
    routes = four_routes;
    mux =
        (codes "GET /users/{id}", route_at 0)
        ∷ (codes "GET /users", route_at 1)
        ∷ (codes "POST /users", route_at 2)
        ∷ (codes "GET /users-dto/{id}", route_at 3)
        ∷ [];
    metadata_forward = [];
    operations =
        registered_as (codes "GET") (codes "/users/{id}") 0
        ∷ registered_as (codes "GET") (codes "/users") 1
        ∷ registered_as (codes "POST") (codes "/users") 2
        ∷ registered_as (codes "GET") (codes "/users-dto/{id}") 3
        ∷ [];
  }

  -- The App with the route of its document.
  abbrev assembled : Text → App (hosted H)
  assembled spec = record routed {
    mux = routed.mux ++ ((spec_pattern, handler (serve_spec H spec)) ∷ []);
  }

  module _ (R : Protoreflect (hosted H)) (T : Reflection (hosted H)) (fuel : ℕ)
      (marshal_document : Document → Option Text) where
    register_routes-accepted :
        AcceptsAll X [] four_patterns
        → register_routes H S g X R T fuel marshal_document (new (hosted H) []) ≡ ok routed
    unfolding register_routes new Verbs.get Verbs.post handle_verb update_route
        validate_path_binders path_string text_eq query_int32 query_enum as_served body_json
    register_routes-accepted (a, (b, (c, (d, _)))) = rw (a, b, c, d) refl

    register_spec-accepted :
        (doc : Document) (spec : Text)
        → X.refuses four_patterns spec_pattern ≡ false
        → generate R T fuel (operations (hosted H) g routed) title ≡ some doc
        → marshal_document doc ≡ some spec
        → register_spec H S g X R T fuel marshal_document routed ≡ ok (assembled spec)
    unfolding register_spec handle
    register_spec-accepted doc spec accepted returned marshalled =
        rw (register_spec, returned, marshalled, accepted) refl

  -- What a request is answered with, by the place of the pattern that the router selected.
  abbrev pub answer_at : Text → ℕ → Writer → Request (hosted H) → List User → Writer × List User
  answer_at spec zero w r users = serve_call H S g (asks_user w r) users
  answer_at spec (suc zero) w r users = serve_call H S g (asks_users w r) users
  answer_at spec (suc (suc zero)) w r users = serve_call H S g (creates_user w r) users
  answer_at spec (suc (suc (suc zero))) w r users = serve_call H S g (asks_dto w r) users
  answer_at spec (suc (suc (suc (suc zero)))) w r users = serve_spec H spec g w r users
  answer_at spec (suc (suc (suc (suc (suc _))))) w r users = X.unmatched g w r users

  assembled-answers :
      (M : Metadata (hosted H)) (spec : Text) (i : ℕ) (w : Writer) (r r' : Request (hosted H))
      (users : List User)
      → X.select (four_patterns ++ (spec_pattern ∷ [])) r ≡ some (i, r')
      → app_serve_http (hosted H) X M (assembled spec) g w r users ≡ answer_at spec i w r' users
  unfolding forward_metadata as_served
  assembled-answers M spec zero w r r' users e =
      app_serve_http-route (hosted H) X M (assembled spec) g w r users 0 0 _ _ r' e refl refl
  assembled-answers M spec (suc zero) w r r' users e =
      app_serve_http-route (hosted H) X M (assembled spec) g w r users 1 1 _ _ r' e refl refl
  assembled-answers M spec (suc (suc zero)) w r r' users e =
      app_serve_http-route (hosted H) X M (assembled spec) g w r users 2 2 _ _ r' e refl refl
  assembled-answers M spec (suc (suc (suc zero))) w r r' users e =
      app_serve_http-route (hosted H) X M (assembled spec) g w r users 3 3 _ _ r' e refl refl
  assembled-answers M spec (suc (suc (suc (suc zero)))) w r r' users e =
      app_serve_http-handler (hosted H) X M (assembled spec) g w r users 4 _ _ r' e refl
  assembled-answers M spec (suc (suc (suc (suc (suc n))))) w r r' users e =
      app_serve_http-missing (hosted H) X M (assembled spec) g w r users
        (suc (suc (suc (suc (suc n))))) r' e refl

  -- The verb, the pattern and the success status of what an App lists.
  abbrev pub listed : App (hosted H) → List (Text × Text × ℕ)
  listed a = map (λ op. (op.method, op.pattern_text, op.success_status)) (operations (hosted H) g a)

  listed-assembled :
      (spec : Text)
      → listed (assembled spec)
        ≡ (codes "GET", codes "/users/{id}", 200)
          ∷ (codes "GET", codes "/users", 200)
          ∷ (codes "POST", codes "/users", 201)
          ∷ (codes "GET", codes "/users-dto/{id}", 200)
          ∷ []
  unfolding operations operation_info path_string query_enum query_int32 body_json as_served
      get_user_route create_user_route user_dto_route
  listed-assembled spec = refl

  -- Where the router takes the five patterns, the document is encoded, the names of all messages and
  -- named structs are in one finite list, Go types hold themselves only through named structs, and
  -- there is fuel enough for the document: `newApp` returns an App, the operations of which are those
  -- of its four routes in their order, with the third answering 201 and the others 200; a request for
  -- which the router selects one of the patterns is answered by the route with the binders, the method
  -- and the options of this pattern over the in-memory users, or, at the fifth, with the encoded
  -- document that `Generate` returned for these four operations.
  pub new_app-serves :
      (R : Protoreflect (hosted H)) (T : Reflection (hosted H)) (fuel : ℕ)
      (marshal_document : Document → Option Text) (names : List Text) (top : ℕ)
      → IsGrounded T names top
      → ((md : R.MessageDescriptor) → Any (λ n. n ≡ R.full_name md) names)
      → enough names top ≤ fuel
      → AcceptsAll X [] (four_patterns ++ (spec_pattern ∷ []))
      → ((doc : Document) → (spec : Text) × (marshal_document doc ≡ some spec))
      → (M : Metadata (hosted H)) (w : Writer) (r r' : Request (hosted H)) (users : List User)
        (i : ℕ)
      → X.select (four_patterns ++ (spec_pattern ∷ [])) r ≡ some (i, r')
      → (a : App (hosted H)) × (doc : Document) × (spec : Text) × (new_app H S g X R T fuel
            marshal_document
          ≡ ok a)
        × (listed a
            ≡ (codes "GET", codes "/users/{id}", 200)
              ∷ (codes "GET", codes "/users", 200)
              ∷ (codes "POST", codes "/users", 201)
              ∷ (codes "GET", codes "/users-dto/{id}", 200)
              ∷ [])
        × (generate R T fuel (operations (hosted H) g a) title ≡ some doc)
        × (marshal_document doc ≡ some spec)
        × (app_serve_http (hosted H) X M a g w r users ≡ answer_at spec i w r' users)
  unfolding new_app operations
  new_app-serves R T fuel marshal_document names top g_T all_listed room (a, (b, (c, (d, (e, _)))))
        encodes M w r r' users i selected =
      let (doc, returned, _, _, _) =
        generate-returns R T names top g_T all_listed fuel room (operations (hosted H) g routed)
          title 0 in
      let (spec, marshalled) = encodes doc in
      let four = register_routes-accepted R T fuel marshal_document (a, (b, (c, (d, tt)))) in
      let five = register_spec-accepted R T fuel marshal_document doc spec e returned marshalled in
      (
        assembled spec,
        doc,
        spec,
        rw four five,
        listed-assembled spec,
        returned,
        marshalled,
        assembled-answers M spec i w r r' users selected,
      )
