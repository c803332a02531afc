-- ===== src/Basic/Sessions.antt =====
-- Sequences of requests to the routes of the example: what stays true of its users.
use grpc_composition.Common.{
  ◌+◌, ◌≡◌, refl, ap, ◌≢◌, inl, inr, List, [], ◌∷◌, ◌++◌, arith, Text, codes, text_eq, ok, is_empty,
  Result-cases, Bool-cases, length,
}
use grpc_composition.Host.{Host, Err, Request}
use grpc_composition.Problem.{Status}
use grpc_composition.Std.Strconv.Itoa.{itoa}
use grpc_composition.Std.Http.{Writer}
use grpc_composition.Globals.{Globals, path_param, ResponseType}
use grpc_composition.Response.{write_response}
use grpc_composition.Route.{Route, proxy, serve_http, bind_all}
use grpc_composition.Route.Serve.{serve_http_of_err, serve_http_of_ok}
use grpc_composition.Basic.{
  User, CreateUserRequest, new_user_server, find_user, get_user, list_users, create_user,
}
use grpc_composition.Basic.Users.{
  NumberedFrom, NumberedFrom-append, new_user_server-NumberedFrom, get_user-create_user,
}
use grpc_composition.Basic.Wiring.{
  hosted, Stubs, zero_list, zero_create, list_users_method, list_binders, create_binders,
  get_user_route, create_user_route, user_dto_route,
}
use grpc_composition.Basic.Served.{serve_http_of_response, id_bound}

-- A request to one of the four routes, with the response that it is served on.
pub data Call (H : Host) : Type 0 where
  asks_user asks_users creates_user asks_dto : Writer → Request (hosted H) → Call H

-- What holds of the services behind a route holds after a request, if the method keeps it.
serve_http-keeps :
    (H : Host) {Req Resp : Type 0} (P : H.Backend → Type 0) (g : Globals H)
    (t : ResponseType H Resp) (zero_req : Req) (rt : Route H Req Resp) (w : Writer) (r : Request H)
    (s : H.Backend)
    → ((ctx : H.Context) (req : Req) (s' : H.Backend) → P s' → P (rt.method ctx req s').1)
    → P s
    → P (serve_http H g t zero_req rt w r s).1
serve_http-keeps H P g t zero_req rt w r s keeps h =
    elim (Result-cases (bind_all H g rt.binders zero_req r)) [
      | inl (p, bound) ↦
          rw (serve_http_of_ok H g t zero_req rt w r s p.0 p.1 bound) (keeps p.1.context p.0 s h)
      | inr (e, failed) ↦ rw (serve_http_of_err H g t zero_req rt w r s e failed) h
    ]

module _ (H : Host) (raise : Status → Err H) where
  find_user_still :
      (id : Text) (users : List User) (u v : User)
      → find_user H raise id users ≡ ok u
      → find_user H raise id (users ++ (v ∷ [])) ≡ ok u
  unfolding find_user
  find_user_still id [] u v h = ground arith
  find_user_still id (x ∷ users) u v h = elim (Bool-cases (text_eq x.id id)) [
    | inl hit ↦ rw hit (rw hit at h)
    | inr miss ↦ rw miss (find_user_still id users u v (rw miss at h))
  ]

  -- The users are numbered, and `u` is found by its id.
  abbrev Holds : User → List User → Type 0
  Holds u users = NumberedFrom 1 users × (find_user H raise u.id users ≡ ok u)

  create_user-Holds :
      (req : CreateUserRequest) (u : User) (users : List User)
      → Holds u users
      → Holds u (create_user H raise req users).1
  unfolding create_user
  create_user-Holds req u users (numbered, found) = elim (Bool-cases (is_empty req.name)) [
    | inl blank ↦ rw (create_user, blank) (numbered, found)
    | inr named ↦
        rw (create_user, named)
          (NumberedFrom-append 1 users _ numbered refl, find_user_still u.id users u _ found)
  ]

module _ (H : Host) (S : Stubs H) (g : Globals (hosted H)) where
  abbrev pub serve_call : Call H → List User → Writer × List User
  serve_call (asks_user w r) users =
      serve_http (hosted H) g S.user_type [] (get_user_route H S) w r users
  serve_call (asks_users w r) users =
      serve_http (hosted H) g S.list_type zero_list
        (proxy (hosted H) (list_users_method H S) (list_binders H S)) w r users
  serve_call (creates_user w r) users =
      serve_http (hosted H) g S.user_type zero_create (create_user_route H S) w r users
  serve_call (asks_dto w r) users =
      serve_http (hosted H) g S.user_type [] (user_dto_route H S) w r users

  -- The users after some requests.
  abbrev pub run : List (Call H) → List User → List User
  run [] users = users
  run (c ∷ calls) users = run calls (serve_call c users).1

  serve_call-keeps :
      (P : List User → Type 0)
      → ((req : CreateUserRequest) (users : List User)
          → P users
          → P (create_user H S.raise req users).1)
      → (c : Call H) (users : List User) → P users
      → P (serve_call c users).1
  unfolding get_user_route create_user_route user_dto_route proxy get_user list_users
  serve_call-keeps P created (asks_user w r) users h =
      serve_http-keeps (hosted H) P g S.user_type [] (get_user_route H S) w r users
        (λ ctx req s p. p) h
  serve_call-keeps P created (asks_users w r) users h =
      serve_http-keeps (hosted H) P g S.list_type zero_list
        (proxy (hosted H) (list_users_method H S) (list_binders H S)) w r users (λ ctx req s p. p) h
  serve_call-keeps P created (creates_user w r) users h =
      serve_http-keeps (hosted H) P g S.user_type zero_create (create_user_route H S) w r users
        (λ ctx req s p. created req s p) h
  serve_call-keeps P created (asks_dto w r) users h =
      serve_http-keeps (hosted H) P g S.user_type [] (user_dto_route H S) w r users
        (λ ctx req s p. p) h

  run-keeps :
      (P : List User → Type 0)
      → ((req : CreateUserRequest) (users : List User)
          → P users
          → P (create_user H S.raise req users).1)
      → (calls : List (Call H)) (users : List User) → P users
      → P (run calls users)
  run-keeps P created [] users h = h
  run-keeps P created (c ∷ calls) users h =
      run-keeps P created calls (serve_call c users).1 (serve_call-keeps P created c users h)

  create_user-NumberedFrom :
      (req : CreateUserRequest) (users : List User)
      → NumberedFrom 1 users
      → NumberedFrom 1 (create_user H S.raise req users).1
  unfolding create_user
  create_user-NumberedFrom req users numbered = elim (Bool-cases (is_empty req.name)) [
    | inl blank ↦ rw (create_user, blank) numbered
    | inr named ↦ rw (create_user, named) (NumberedFrom-append 1 users _ numbered refl)
  ]

  -- A server that starts with the users of `newUserServer` and has been sent any requests to its
  -- routes, then a `POST /users` whose request is bound to one with a name, then again any requests:
  -- the `POST` was answered 201 with a user of the given name and email, and a
  -- `GET /users/{id}` with the next number at the time of the `POST` as its id is answered 200 with
  -- that same user.
  pub serve_call-run_created :
      (before after : List (Call H)) (req : CreateUserRequest) (w w' : Writer)
      (r r1 r' : Request (hosted H))
      → bind_all (hosted H) g (create_binders H S) zero_create r ≡ ok (req, r1)
      → req.name ≢ []
      → path_param (hosted H) g r' (codes "id") ≡ itoa (length (run before new_user_server) + 1)
      → (u : User) × (u.name ≡ req.name)
        × (u.email ≡ req.email)
        × ((serve_call (creates_user w r) (run before new_user_server)).0
            ≡ write_response (hosted H) w 201 (S.user_type.to_any u) g.marshal)
        × ((serve_call
              (asks_user w' r')
              (run after (serve_call (creates_user w r) (run before new_user_server)).1)).0
            ≡ write_response (hosted H) w' 200 (S.user_type.to_any u) g.marshal)
  unfolding create_user_route get_user_route get_user
  serve_call-run_created before after req w w' r r1 r' bound named id =
      let users : List User = run before new_user_server in
      let numbered : NumberedFrom 1 users =
        run-keeps (NumberedFrom 1) create_user-NumberedFrom before new_user_server
          new_user_server-NumberedFrom in
      let (u, made, is, name, email, kept, found) =
        get_user-create_user H S.raise req users numbered named in
      let posted : serve_call (creates_user w r) users
          ≡ (write_response (hosted H) w 201 (S.user_type.to_any u) g.marshal, users ++ (u ∷ [])) =
        serve_http_of_response (hosted H) g S.user_type zero_create (create_user_route H S) w r r1
          users (users ++ (u ∷ [])) req u bound made refl refl in
      let later : List User = run after (users ++ (u ∷ [])) in
      let (_, still) =
        run-keeps (Holds H S.raise u) (λ req users p. create_user-Holds H S.raise req u users p)
          after (users ++ (u ∷ [])) (kept, ap (λ p. p.0) found) in
      (
        u,
        name,
        email,
        ap (λ p. p.0) posted,
        rw posted (
            ap (λ p. p.0)
              (serve_http_of_response (hosted H) g S.user_type [] (get_user_route H S) w' r' r'
                later later u.id u (id_bound H S g users u r' is id) (ap (λ f. (f, later)) still)
                refl refl)),
      )
