-- ===== src/Tests/Documents.antt =====
-- OpenAPI paths of concrete patterns.
use grpc_composition.Common.{
  ◌≡◌, refl, ◌≢◌, ◌↔◌, true, List, [], ◌∷◌, some, arith, Text, codes, text_eq, last_some,
}
use grpc_composition.Common.{All, Any}
use grpc_composition.Std.Strings.{split}
use grpc_composition.Patterns.{pattern_path_params, has_name}
use grpc_composition.Patterns.Params.{in_braces}
use grpc_composition.Common.{ok}
use grpc_composition.Globals.{Binder}
use grpc_composition.Patterns.{validate_path_binders}
use grpc_composition.Bind.Params.{path_string, query_string}
use grpc_composition.OpenApi.Binders.{StandsInPath, validate_path_binders-StandsInPath}
use grpc_composition.Tests.Demo.{demo, set_text}
use grpc_composition.OpenApi.{normalize_path, add_operations}
use grpc_composition.OpenApi.Items.{is_verb, documents, documented, documented-add_operations}
use grpc_composition.OpenApi.Templates.{normalize_path-params}

files : normalize_path (codes "/files/{path...}") ≡ codes "/files/{path}"
unfolding normalize_path text_eq
files = refl

root : normalize_path (codes "/{$}") ≡ []
unfolding normalize_path text_eq
root = refl

named : codes "path" ≢ []
named h = cc

no_marker : codes "path" ≢ codes "$"
no_marker h = ground arith

normalize_path-params_example :
    Any
      (λ seg. seg ≡ in_braces (codes "path"))
      (split (normalize_path (codes "/files/{path...}")) b'/')
    ↔ (has_name (pattern_path_params (codes "/files/{path...}")) (codes "path") ≡ true)
normalize_path-params_example =
    normalize_path-params (codes "/files/{path...}") (codes "path") named no_marker

-- Two routes that the router tells apart.
abbrev two_routes : List (Text × Text × Text)
two_routes =
    (codes "/posts", codes "GET", codes "list")
    ∷ (codes "/posts/{$}", codes "GET", codes "index")
    ∷ []

two_routes_known : All (λ e. is_verb e.1 ≡ true) two_routes
unfolding text_eq
two_routes_known = (refl, (refl, tt))

documented-add_operations_example :
    documented (add_operations [] two_routes) (codes "/posts") (codes "GET")
    ≡ last_some (documents (codes "/posts") (codes "GET")) two_routes
documented-add_operations_example =
    documented-add_operations two_routes (codes "/posts") (codes "GET") two_routes_known

-- The document holds the second alone.
first_is_lost :
    last_some (documents (codes "/posts") (codes "GET")) two_routes ≡ some (codes "index")
unfolding normalize_path text_eq
first_is_lost = refl

abbrev path_binders : List (Binder demo Text)
path_binders =
    path_string demo (codes "path") set_text ∷ query_string demo (codes "q") set_text ∷ []

path_binders_valid :
    validate_path_binders demo (codes "GET") (codes "/files/{path...}") path_binders ≡ ok tt
unfolding validate_path_binders pattern_path_params has_name path_string query_string text_eq
path_binders_valid = refl

validate_path_binders-StandsInPath_example :
    All (StandsInPath demo (codes "/files/{path...}")) path_binders
validate_path_binders-StandsInPath_example =
    validate_path_binders-StandsInPath demo (codes "GET") (codes "/files/{path...}") path_binders
      path_binders_valid
