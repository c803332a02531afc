-- ===== src/Basic/Start.antt =====
-- examples/basic/main.go: `newApp`, which registers the routes and the document of them.
pub mod Assembled
use grpc_composition.Common.{
  ℕ, [], ◌∷◌, ◌++◌, Option, none, some, Text, codes, Result, ok, err, ◌>>=◌, map_err,
}
use grpc_composition.Std.Http.{set_header, write}
use grpc_composition.Host.{Host}
use grpc_composition.Globals.{Globals}
use grpc_composition.Patterns.{Panic}
use grpc_composition.App.{App, Router, Handler, new, as_served, update_route, handle, operations}
use grpc_composition.App.Verbs
use grpc_composition.OpenApi.Protos.{Protoreflect}
use grpc_composition.OpenApi.Dtos.{Reflection}
use grpc_composition.OpenApi.Generate.{Document, generate}
use grpc_composition.Basic.Wiring.{
  hosted, Stubs, zero_list, zero_create, get_user_method, list_users_method, create_user_method,
  id_binders, list_binders, create_binders, get_user_route, create_user_route, user_dto_route,
}

-- How `newApp` ends where it does not return: a panic at a registration, `log.Fatalf`, or no fuel
-- for the document.
pub data Stop : Type 0 where
  panicked : Panic → Stop
  fatal no_fuel : Stop

-- The handler of `GET /openapi.json`.
abbrev pub serve_spec : (H : Host) → Text → Handler (hosted H)
serve_spec H spec g w r s =
    (w ++ (set_header (codes "Content-Type") (codes "application/json") ∷ write spec ∷ []), s)

-- `json.Marshal(doc)` is `marshal_document`; `none` is an error.
module _ (H : Host) (S : Stubs H) (g : Globals (hosted H)) (X : Router (hosted H))
    (R : Protoreflect (hosted H)) (T : Reflection (hosted H)) (fuel : ℕ)
    (marshal_document : Document → Option Text) where
  -- The four routes, with the options that follow each registration.
  register_routes : App (hosted H) → Result Stop (App (hosted H))
  unfolding Verbs.get Verbs.post update_route as_served get_user_route create_user_route
      user_dto_route
  register_routes a =
      map_err panicked (
        Verbs.get (hosted H) X S.user_type [] (codes "/users/{id}") (get_user_method H S)
          (id_binders H S) a)
      >>= λ (a1, i).
          map_err panicked (
            Verbs.get (hosted H) X S.list_type zero_list (codes "/users") (list_users_method H S)
              (list_binders H S)
              (update_route (hosted H) i (as_served (hosted H) S.user_type [] (get_user_route H S))
                a1))
          >>= λ (a2, _).
              map_err panicked (
                Verbs.post (hosted H) X S.user_type zero_create (codes "/users")
                  (create_user_method H S) (create_binders H S) a2)
              >>= λ (a3, j).
                  map_err panicked (
                    Verbs.get (hosted H) X S.user_type [] (codes "/users-dto/{id}")
                      (get_user_method H S) (id_binders H S)
                      (update_route (hosted H) j
                        (as_served (hosted H) S.user_type zero_create (create_user_route H S)) a3))
                  >>= λ (a4, k). ok (
                      update_route (hosted H) k
                        (as_served (hosted H) S.user_type [] (user_dto_route H S)) a4)

  -- The document and its route.
  register_spec : App (hosted H) → Result Stop (App (hosted H))
  unfolding generate operations handle
  register_spec a =
      elim (generate R T fuel (operations (hosted H) g a)
        (record { title = codes "basic example"; version = codes "0.1.0"; description = [] })) [
          | none ↦ err no_fuel
          | some doc ↦ elim (marshal_document doc) [
            | none ↦ err fatal
            | some spec ↦
                map_err panicked
                  (handle (hosted H) X (codes "GET /openapi.json") (serve_spec H spec) a)
          ]
        ]

  -- `newApp`, over a client.
  unfoldable pub new_app : Result Stop (App (hosted H))
  unfolding register_routes register_spec new
  new_app = register_routes (new (hosted H) []) >>= register_spec
