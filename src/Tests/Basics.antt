-- ===== src/Tests/Basics.antt =====
-- The example on concrete requests.
use grpc_composition.Common.{
  ℕ, ◌+◌, ◌-◌, ◌≡◌, refl, ◌≢◌, false, List, [], ◌∷◌, ◌++◌, map, none, some, Text, codes, text_eq,
  Result, ok, err, length, lookup, insert,
}
use grpc_composition.Std.Strconv.{pos, to_int32, parse_int}
use grpc_composition.Std.Strconv.Itoa.{itoa}
use grpc_composition.Std.Errors.{foreign}
use grpc_composition.Host.{Request}
use grpc_composition.Problem.{proto, opaque}
use grpc_composition.Globals.{Globals, initial, path_param}
use grpc_composition.Response.{write_response}
use grpc_composition.Patterns.{validate_path_binders}
use grpc_composition.Bind.Params.{path_string}
use grpc_composition.Bind.Typed.{query_int32}
use grpc_composition.Route.{bind_all, serve_http, operation_info, proxy}
use grpc_composition.Bind.Body.{body_json}
use grpc_composition.Bind.Enums.{EnumDescriptor, query_enum}
use grpc_composition.Basic.{User, CreateUserRequest, new_user_server, list_users, ListUsersRequest}
use grpc_composition.Basic.Wiring.{zero_create, Stubs, hosted, create_binders}
use grpc_composition.Basic.Sessions.{
  Call, asks_user, asks_users, creates_user, asks_dto, serve_call, run, serve_call-run_created,
}
use grpc_composition.Basic.Pages.{selected, skipped, kept, list_users-page}
use grpc_composition.Basic.Start.{Stop, new_app}
use grpc_composition.App.{App, Router, operations}
use grpc_composition.OpenApi.Protos
use grpc_composition.OpenApi.Protos.{Protoreflect}
use grpc_composition.OpenApi.Dtos
use grpc_composition.OpenApi.Dtos.{Reflection}
use grpc_composition.Tests.Demo.{demo, rpc, request}

abbrev roles : EnumDescriptor
roles = record { values = []; by_name = λ s. none; by_number = λ n. none }

abbrev pub stubs : Stubs demo
stubs = record {
  raise = λ st. foreign (rpc st);
  user_type = record { to_any = λ u. proto u.name; prototype = some [] };
  list_type = record { to_any = λ l. proto []; prototype = some [] };
  role_descriptor = roles;
  unmarshal = λ bytes req. ok (record req { name = bytes });
  create_prototype = [];
  dto_value = λ d. opaque d.display_name;
  dto_type = codes "main.UserDTO";
}

abbrev pub globals : Globals (hosted demo)
globals = initial (hosted demo)

abbrev dave : CreateUserRequest
dave = record { name = codes "{}"; email = []; role = pos 0 }

abbrev read_request : Request (hosted demo)
read_request = record request { body = record { content = []; failure = none } }

abbrev pub get_four : Request (hosted demo)
get_four = record request { path_value = λ name. codes "4" }

dave_bound :
    bind_all (hosted demo) globals (create_binders demo stubs) zero_create request
    ≡ ok (dave, read_request)
unfolding bind_all body_json
dave_bound = refl

dave_named : dave.name ≢ []
dave_named h = cc

-- A list is asked for before the user is created, and another user is created after it.
abbrev earlier : List (Call demo)
earlier = asks_users [] request ∷ []

abbrev later : List (Call demo)
later = creates_user [] request ∷ asks_dto [] get_four ∷ []

four_asked :
    path_param (hosted demo) globals get_four (codes "id")
    ≡ itoa (length (run demo stubs globals earlier new_user_server) + 1)
unfolding path_param itoa new_user_server list_users serve_http proxy query_int32 lookup text_eq
    parse_int query_enum
four_asked = refl

serve_call-run_created_example :
    (u : User) × (u.name ≡ codes "{}")
    × (u.email ≡ [])
    × ((serve_call demo stubs globals
          (creates_user [] request)
          (run demo stubs globals earlier new_user_server)).0
        ≡ write_response (hosted demo) [] 201 (proto u.name) tt)
    × ((serve_call demo stubs globals (asks_user [] get_four) (
          run demo stubs globals later
            (serve_call demo stubs globals
              (creates_user [] request)
              (run demo stubs globals earlier new_user_server)).1)).0
        ≡ write_response (hosted demo) [] 200 (proto u.name) tt)
serve_call-run_created_example =
    serve_call-run_created demo stubs globals earlier later dave [] [] request read_request get_four
      dave_bound dave_named four_asked

-- The second and third user, of those of any role.
abbrev second_page : ListUsersRequest
second_page = record { limit = pos 2; offset = pos 1; role = pos 0 }

list_users-page_example :
    (front page back : List User) × (selected (pos 0) new_user_server ≡ front ++ (page ++ back))
    × (length front ≡ skipped 1 (length (selected (pos 0) new_user_server)))
    × (length page ≡ kept 2 (length (selected (pos 0) new_user_server) - length front))
    × (list_users demo (λ st. foreign (rpc st)) second_page new_user_server
        ≡ (ok (record { users = page; total = to_int32 (pos (length page)) }), new_user_server))
list_users-page_example = list_users-page demo (λ st. foreign (rpc st)) second_page new_user_server

-- An offset behind the last user gives the first page again, and the total is that of the page.
offset_test :
    list_users demo
      (λ st. foreign (rpc st))
      (record { limit = pos 2; offset = pos 3; role = pos 0 })
      new_user_server
    ≡ list_users demo
        (λ st. foreign (rpc st))
        (record { limit = pos 2; offset = pos 0; role = pos 0 })
        new_user_server
unfolding list_users new_user_server
offset_test = refl

abbrev mux : Router (hosted demo)
mux = record { refuses = λ old new. false; select = λ old r. none; unmatched = λ g w r s. (w, s) }

-- Messages with no fields, and texts for all Go types.
abbrev pub messages : Protoreflect (hosted demo)
messages = record {
  MessageDescriptor = Unit {0};
  FieldDescriptor = Unit {0};
  descriptor = λ m. tt;
  full_name = λ md. codes "userpb.User";
  fields = λ md. [];
  json_name = λ f. [];
  text_name = λ f. [];
  is_map = λ f. false;
  is_list = λ f. false;
  map_value = λ f. f;
  kind = λ f. Protos.string_kind;
  enum_type = λ f. roles;
  message_type = λ f. tt;
  use_proto_names = λ o. false;
  use_enum_numbers = λ o. false;
}

abbrev pub types : Reflection (hosted demo)
types = record {
  kind = λ t. Dtos.string_kind;
  elem_type = λ t. t;
  type_name = λ t. [];
  type_text = λ t. t;
  is_time = λ t. false;
  struct_fields = λ t. [];
  problem_details = [];
}

abbrev listed : Result Stop (App (hosted demo)) → List (Text × Text × ℕ)
listed (ok a) =
    map (λ op. (op.method, op.pattern_text, op.success_status)) (operations (hosted demo) globals a)
listed (err e) = []

-- The four documented routes of the example, the third with the status that is set after its
-- registration.
new_app_test :
    listed (new_app demo stubs globals mux messages types 5 (λ doc. some []))
    ≡ (codes "GET", codes "/users/{id}", 200)
      ∷ (codes "GET", codes "/users", 200)
      ∷ (codes "POST", codes "/users", 201)
      ∷ (codes "GET", codes "/users-dto/{id}", 200)
      ∷ []
unfolding new_app operations validate_path_binders path_string text_eq query_int32 query_enum
    body_json operation_info lookup insert
new_app_test = refl
