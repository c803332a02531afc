-- ===== src/Tests/Starts.antt =====
-- The App of the example on a router that takes every pattern.
use grpc_composition.Common.{
  ◌≡◌, refl, inl, false, [], ◌∷◌, Option, none, some, arith, Text, codes, if◌then◌else◌, ok,
  is_empty,
}
use mathlib.Core.Bool.{false≢true}
use grpc_composition.Forward.{Metadata}
use grpc_composition.App.{App, Router, app_serve_http, operations}
use grpc_composition.OpenApi.Dtos.Parts.{IsGrounded}
use grpc_composition.OpenApi.Generate.{Document, generate}
use grpc_composition.Basic.{new_user_server}
use grpc_composition.Basic.Wiring.{hosted}
use grpc_composition.Basic.Sessions.{asks_user, serve_call}
use grpc_composition.Basic.Start.{new_app}
use grpc_composition.Basic.Start.Assembled.{title, listed, new_app-serves}
use grpc_composition.Tests.Demo.{demo}
use grpc_composition.Tests.Basics.{stubs, globals, get_four, messages, types}

-- A router that takes every pattern and sends every request to the first.
abbrev first_router : Router (hosted demo)
first_router = record {
  refuses = λ old new. false;
  select = λ patterns r. if is_empty patterns then none else some (0, r);
  unmatched = λ g w r s. (w, s);
}

abbrev no_metadata : Metadata (hosted demo)
no_metadata = record {
  Md = Unit {0};
  new_md = tt;
  append = λ md k v. tt;
  size = λ md. 0;
  get = λ md k. [];
  attach = λ ctx md. ctx;
}

texts_grounded : IsGrounded types (codes "userpb.User" ∷ []) 0
texts_grounded = record {
  rank = λ t. 0;
  field_rank = λ t. 0;
  rank-elem_type = λ t h. absurd (false≢true h);
  rank_inline = λ t h. absurd (cc);
  rank_fields = λ t. tt;
  rank_bound = λ t. omega arith;
  field_rank_bound = λ t. omega arith;
  listed = λ t h. absurd (cc);
}

abbrev encoded : Document → Option Text
encoded doc = some (codes "{}")

new_app-serves_example :
    (a : App (hosted demo)) × (doc : Document) × (spec : Text) × (new_app demo stubs globals
        first_router messages types 5 encoded
      ≡ ok a)
    × (listed demo stubs globals first_router a
        ≡ (codes "GET", codes "/users/{id}", 200)
          ∷ (codes "GET", codes "/users", 200)
          ∷ (codes "POST", codes "/users", 201)
          ∷ (codes "GET", codes "/users-dto/{id}", 200)
          ∷ [])
    × (generate messages types 5 (operations (hosted demo) globals a) title ≡ some doc)
    × (encoded doc ≡ some spec)
    × (app_serve_http (hosted demo) first_router no_metadata a globals [] get_four new_user_server
        ≡ serve_call demo stubs globals (asks_user [] get_four) new_user_server)
new_app-serves_example =
    new_app-serves demo stubs globals first_router messages types 5 encoded
      (codes "userpb.User" ∷ []) 0 texts_grounded (λ md. inl refl) (omega arith)
      (refl, (refl, (refl, (refl, (refl, tt))))) (λ doc. (codes "{}", refl)) no_metadata [] get_four
      get_four new_user_server 0 refl
