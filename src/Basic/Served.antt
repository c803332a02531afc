-- ===== src/Basic/Served.antt =====
-- Requests to the example: a user who is created is found.
use grpc_composition.Common.{◌+◌, ◌≡◌, refl, ◌≢◌, List, [], ◌∷◌, ◌++◌, none, codes, ok, length}
use grpc_composition.Host.{Host, Request}
use grpc_composition.Std.Http.{Writer}
use grpc_composition.Globals.{Globals, path_param, ResponseType}
use grpc_composition.Response.{write_response}
use grpc_composition.Route.{Route, serve_http, bind_all, write_result, marshal_options}
use grpc_composition.Route.Serve.{serve_http_of_ok}
use grpc_composition.Bind.Params.{path_string}
use grpc_composition.Std.Strconv.Itoa.{itoa}
use grpc_composition.Basic.{User, CreateUserRequest}
use grpc_composition.Basic.Users.{NumberedFrom, get_user-create_user}
use grpc_composition.Basic.Wiring.{
  hosted, Stubs, get_user_route, create_user_route, id_binders, create_binders,
}

-- A route without a mapper and options of its own answers with what its method returns.
pub serve_http_of_response :
    (H : Host) {Req Resp : Type 0} (g : Globals H) (t : ResponseType H Resp) (zero_req : Req)
    (rt : Route H Req Resp) (w : Writer) (r r' : Request H) (s s' : H.Backend) (req : Req)
    (resp : Resp)
    → bind_all H g rt.binders zero_req r ≡ ok (req, r')
    → rt.method r'.context req s ≡ (ok resp, s')
    → rt.mapper ≡ none
    → rt.marshal ≡ none
    → serve_http H g t zero_req rt w r s
      ≡ (write_response H w rt.success_status (t.to_any resp) g.marshal, s')
unfolding write_result marshal_options
serve_http_of_response H g t zero_req rt w r r' s s' req resp bound called plain own = rw (
  serve_http_of_ok H g t zero_req rt w r s req r' bound,
  called,
  write_result,
  plain,
  marshal_options,
  own,
)

module _ (H : Host) (S : Stubs H) (g : Globals (hosted H)) where
  pub id_bound :
      (users : List User) (u : User) (r : Request (hosted H))
      → u.id ≡ itoa (length users + 1)
      → path_param (hosted H) g r (codes "id") ≡ itoa (length users + 1)
      → bind_all (hosted H) g (id_binders H S) [] r ≡ ok (u.id, r)
  unfolding bind_all path_string
  id_bound users u r is id = rw (bind_all, path_string, id, is)

  -- `POST /users` and then `GET /users/{id}` over users that are numbered from 1 on, the request of
  -- the first bound to one with a name, and the id of the second the number of users and one: the
  -- first answers 201 and the second 200, both with the same user, of the given name and email, and
  -- the users are numbered again.
  serve_http-created :
      (users : List User) (req : CreateUserRequest) (w w' : Writer) (r r1 r' : Request (hosted H))
      (zero_req : CreateUserRequest)
      → NumberedFrom 1 users
      → bind_all (hosted H) g (create_binders H S) zero_req r ≡ ok (req, r1)
      → req.name ≢ []
      → path_param (hosted H) g r' (codes "id") ≡ itoa (length users + 1)
      → (u : User) × (u.name ≡ req.name)
        × (u.email ≡ req.email)
        × (serve_http (hosted H) g S.user_type zero_req (create_user_route H S) w r users
            ≡ (write_response (hosted H) w 201 (S.user_type.to_any u) g.marshal, users ++ (u ∷ [])))
        × (serve_http (hosted H) g S.user_type [] (get_user_route H S) w' r' (users ++ (u ∷ [])) ≡ (
          write_response (hosted H) w' 200 (S.user_type.to_any u) g.marshal,
          users ++ (u ∷ []),
        ))
        × NumberedFrom 1 (users ++ (u ∷ []))
  unfolding create_user_route get_user_route
  serve_http-created users req w w' r r1 r' zero_req numbered bound named id =
      let (u, made, is, name, email, kept, found) =
        get_user-create_user H S.raise req users numbered named in
      (
        u,
        name,
        email,
        serve_http_of_response (hosted H) g S.user_type zero_req (create_user_route H S) w r r1
            users (users ++ (u ∷ [])) req u bound made refl refl,
        serve_http_of_response (hosted H) g S.user_type [] (get_user_route H S) w' r' r'
            (users ++ (u ∷ [])) (users ++ (u ∷ [])) u.id u (id_bound users u r' is id) found refl
            refl,
        kept,
      )
