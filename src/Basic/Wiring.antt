-- ===== src/Basic/Wiring.antt =====
-- examples/basic/main.go: the routes of `newApp` over the in-memory service.
use grpc_composition.Common.{false, List, [], ◌∷◌, some, Text, codes, Result}
use grpc_composition.Std.Strconv.{pos}
use grpc_composition.Problem.{Status}
use grpc_composition.Host.{Host, Err, Value}
use grpc_composition.Globals.{Binder, ResponseType}
use grpc_composition.Route.{UnaryMethod, Route, proxy, with_doc, on_success, map_response}
use grpc_composition.Bind.Params.{path_string}
use grpc_composition.Bind.Typed.{query_int32}
use grpc_composition.Bind.Enums.{EnumDescriptor, query_enum}
use grpc_composition.Bind.Body.{body_json}
use grpc_composition.Basic.{
  User, ListUsersRequest, ListUsersResponse, CreateUserRequest, get_user, list_users, create_user,
}

-- The services behind the client are the in-memory users.
abbrev pub hosted : Host → Host
hosted H = record H { Backend = List User }

-- `UserDTO`.
pub record UserDto : Type 0 where
  pub id : Text
  pub display_name : Text
  pub contact : Text

-- What the generated code and the libraries give to the routes: the conversions of the responses
-- to `any`, `status.Error`, the descriptor of the roles, the unmarshaller and the prototype of the
-- body, and the conversion of a `UserDTO` with its `reflect.Type`.
pub record Stubs (H : Host) : Type 0 where
  pub raise : Status → Err H
  pub user_type : ResponseType (hosted H) User
  pub list_type : ResponseType (hosted H) ListUsersResponse
  pub role_descriptor : EnumDescriptor
  pub unmarshal : Text → CreateUserRequest → Result (Err H) CreateUserRequest
  pub create_prototype : H.Message
  pub dto_value : UserDto → Value (hosted H)
  pub dto_type : H.GoType

-- `new(Req)` of two requests.
abbrev pub zero_list : ListUsersRequest
zero_list = record { limit = pos 0; offset = pos 0; role = pos 0 }

abbrev pub zero_create : CreateUserRequest
zero_create = record { name = []; email = []; role = pos 0 }

module _ (H : Host) (S : Stubs H) where
  -- The methods of the client; a `GetUserRequest` is its id.
  abbrev pub get_user_method : UnaryMethod (hosted H) Text User
  get_user_method ctx req s = get_user H S.raise req s

  abbrev pub list_users_method : UnaryMethod (hosted H) ListUsersRequest ListUsersResponse
  list_users_method ctx req s = list_users H S.raise req s

  abbrev pub create_user_method : UnaryMethod (hosted H) CreateUserRequest User
  create_user_method ctx req s = create_user H S.raise req s

  -- `bind.PathString("id", func(req *userpb.GetUserRequest, v string) { req.Id = v })`.
  abbrev pub id_binders : List (Binder (hosted H) Text)
  id_binders = path_string (hosted H) (codes "id") (λ req v. v) ∷ []

  -- The binders of `GET /users`.
  abbrev pub list_binders : List (Binder (hosted H) ListUsersRequest)
  list_binders =
      query_int32 (hosted H) (codes "limit") (λ req v. record req { limit = v })
      ∷ query_int32 (hosted H) (codes "offset") (λ req v. record req { offset = v })
      ∷ query_enum (hosted H) S.role_descriptor (codes "role") (λ req v. record req { role = v })
      ∷ []

  abbrev pub create_binders : List (Binder (hosted H) CreateUserRequest)
  create_binders = body_json (hosted H) S.unmarshal S.create_prototype ∷ []

  -- The routes with the options that `newApp` sets on them.
  unfoldable pub get_user_route : Route (hosted H) Text User
  unfolding proxy with_doc
  get_user_route =
      with_doc (hosted H)
        (record {
          operation_id = codes "get-user";
          summary = codes "Get a user by id";
          description = [];
          tags = codes "users" ∷ [];
          deprecated = false;
        })
        (proxy (hosted H) get_user_method id_binders)

  unfoldable pub create_user_route : Route (hosted H) CreateUserRequest User
  unfolding proxy on_success
  create_user_route = on_success (hosted H) 201 (proxy (hosted H) create_user_method create_binders)

  -- The transformer of `GET /users-dto/{id}`.
  abbrev pub user_dto : User → UserDto
  user_dto u = record { id = u.id; display_name = u.name; contact = u.email }

  unfoldable pub user_dto_route : Route (hosted H) Text User
  unfolding proxy map_response
  user_dto_route =
      map_response (hosted H) S.dto_value S.dto_type (some user_dto)
        (proxy (hosted H) get_user_method id_binders)
