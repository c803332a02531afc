-- ===== src/Tests/Apps.antt =====
-- A concrete router, metadata map and App.
use grpc_composition.Common.{
  ◌≡◌, refl, sym, ◌↔◌, ◌⊎◌, inl, inr, true, false, List, [], ◌∷◌, ◌++◌, map, append_assoc, none,
  some, arith, Text, codes, if◌then◌else◌, text_eq, ok, is_empty, Bool-cases, length, length-append,
  lookup,
}
use grpc_composition.Common.{All, Any}
use grpc_composition.Std.Strings.{split, to_lower}
use grpc_composition.Std.Http.{all_valid, header_values, canonical_key}
use grpc_composition.Globals.{Binder}
use grpc_composition.Route.{proxy, on_success}
use grpc_composition.Patterns.{pattern_path_params, has_name, validate_path_binders}
use grpc_composition.Patterns.Params.{
  DeclaresParam, IsMatched, pattern_path_params_iff, validate_path_binders_iff,
}
use grpc_composition.Forward.{Metadata, IsLawful, add_forwarded, forward_metadata}
use grpc_composition.Forward.Values.{collected, IsAbsent, IsPresent, forward_metadata_lem}
use grpc_composition.App.{
  App, Router, Served, route_at, as_served, update_route, handle_verb, operations, app_serve_http,
  with_metadata_forward, new,
}
use grpc_composition.App.Operations.{IsWellFormed, operations-registered, app_serve_http-registered}
use grpc_composition.App.Reachable.{Builds, begins, registers, changes, operations-Builds}
use grpc_composition.Bind.Params.{path_string}
use grpc_composition.Tests.Demo.{demo, globals, request, get_user, text_response, set_text}

abbrev users_pattern : Text
users_pattern = codes "/users/{id}"

abbrev by_id : Binder demo Text
by_id = path_string demo (codes "id") set_text

pattern_path_params_example :
    (has_name (pattern_path_params users_pattern) (codes "id") ≡ true)
    ↔ Any (DeclaresParam (codes "id")) (split users_pattern b'/')
pattern_path_params_example = pattern_path_params_iff users_pattern (codes "id")

validate_path_binders_example :
    (validate_path_binders demo (codes "GET") users_pattern (by_id ∷ []) ≡ ok tt)
    ↔ All (IsMatched demo users_pattern) (by_id ∷ [])
validate_path_binders_example =
    validate_path_binders_iff demo (codes "GET") users_pattern (by_id ∷ [])

-- Metadata as its list of pairs.
abbrev Pairs : Type 0
Pairs = List (Text × Text)

abbrev pairs_get : Pairs → Text → List Text
pairs_get [] j = []
pairs_get ((k, v) ∷ md) j = (if text_eq k j then v ∷ [] else []) ++ pairs_get md j

abbrev pairs : Metadata demo
pairs = record {
  Md = Pairs;
  new_md = [];
  append = λ md k v. md ++ ((to_lower k, v) ∷ []);
  size = λ md. length md;
  get = pairs_get;
  attach = λ ctx md. codes "outgoing";
}

pairs_get-concat :
    (md : Pairs) (k v j : Text)
    → pairs_get (md ++ ((k, v) ∷ [])) j
      ≡ (if text_eq k j then pairs_get md j ++ (v ∷ []) else pairs_get md j)
pairs_get-concat [] k v j = ground arith
pairs_get-concat ((i, w) ∷ md) k v j =
    rw (pairs_get-concat md k v j) (elim (Bool-cases (text_eq k j)) [
      | inl same ↦ rw same (sym (append_assoc (if text_eq i j then w ∷ [] else []) _ _))
      | inr other ↦ rw other
    ])

pairs-IsLawful : IsLawful pairs
pairs-IsLawful = record {
  size-new = refl;
  size-append = λ md k v h. omega (arith, length-append md ((to_lower k, v) ∷ []), h);
  get-new = λ k. refl;
  get-append = λ md k v j. pairs_get-concat md (to_lower k) v j;
}

abbrev allowed : List Text
allowed = codes "X-Tenant" ∷ []

allowed_valid : All (λ h. all_valid h ≡ true) allowed
unfolding all_valid
allowed_valid = (refl, tt)

forward_metadata_example :
    ◌⊎◌
      (IsAbsent request.header allowed
        × (forward_metadata pairs (add_forwarded [] allowed) request ≡ request))
      (IsPresent request.header allowed
        × (md : Pairs) × (forward_metadata pairs (add_forwarded [] allowed) request
            ≡ record request { context = codes "outgoing" })
        × ((j : Text) → pairs_get md j ≡ collected request.header allowed j))
forward_metadata_example = forward_metadata_lem pairs pairs-IsLawful allowed request allowed_valid

-- A listed header that the request has, and one that it has not.
sent_test :
    forward_metadata pairs (add_forwarded [] allowed) request
    ≡ record request { context = codes "outgoing" }
unfolding forward_metadata add_forwarded header_values canonical_key lookup text_eq to_lower
sent_test = refl

unsent_test : forward_metadata pairs (add_forwarded [] (codes "X-Trace" ∷ [])) request ≡ request
unfolding forward_metadata add_forwarded header_values canonical_key lookup text_eq to_lower
unsent_test = refl

-- A router that refuses nothing and sends every request to the first pattern.
abbrev router : Router demo
router = record {
  refuses = λ patterns pattern_text. false;
  select = λ patterns r. if is_empty patterns then none else some (0, r);
  unmatched = λ g w r s. (w, s);
}

abbrev before : App demo
before = new demo (with_metadata_forward demo allowed ∷ [])

before-IsWellFormed : IsWellFormed before
unfolding new with_metadata_forward
before-IsWellFormed = record { targets = tt; documented = tt }

abbrev user_route : Served demo
user_route = as_served demo text_response [] (proxy demo get_user (by_id ∷ []))

abbrev after : App demo
after = record before {
  routes = before.routes ++ (user_route ∷ []);
  mux = before.mux ++ ((codes "GET /users/{id}", route_at 0) ∷ []);
  operations =
      before.operations
      ++ (record { method = codes "GET"; pattern_text = users_pattern; route = 0 } ∷ []);
}

registered :
    handle_verb demo router text_response []
      (codes "GET")
      users_pattern
      get_user
      (by_id ∷ [])
      before
    ≡ ok (after, 0)
unfolding handle_verb validate_path_binders pattern_path_params has_name path_string text_eq new
    with_metadata_forward
registered = refl

-- The route once the caller has called `OnSuccess` on it.
abbrev created_route : Served demo
created_route =
    as_served demo text_response [] (on_success demo 201 (proxy demo get_user (by_id ∷ [])))

operations-registered_example :
    operations demo globals (update_route demo 0 created_route after)
    ≡ operations demo globals before
      ++ (record (created_route.describe globals) {
        method = codes "GET";
        pattern_text = users_pattern;
      }
          ∷ [])
operations-registered_example =
    operations-registered demo router text_response [] (codes "GET") users_pattern get_user
      (by_id ∷ []) before after 0 registered globals created_route before-IsWellFormed

-- The allowlist, a route, and an option on the route.
built :
    Builds demo router ((codes "GET", users_pattern) ∷ []) (update_route demo 0 created_route after)
built = changes 0 created_route (
    registers text_response [] (codes "GET") users_pattern get_user (by_id ∷ [])
      (begins (allowed ∷ [])) registered)

operations-Builds_example :
    IsWellFormed (update_route demo 0 created_route after)
    × (map {B = Text × Text}
          (λ op. (op.method, op.pattern_text))
          (operations demo globals (update_route demo 0 created_route after))
        ≡ (codes "GET", users_pattern) ∷ [])
operations-Builds_example =
    operations-Builds demo router globals ((codes "GET", users_pattern) ∷ [])
      (update_route demo 0 created_route after) built

selected :
    router.select
      (map (λ e. e.0) after.mux)
      (forward_metadata pairs before.metadata_forward request)
    ≡ some (length before.mux, forward_metadata pairs before.metadata_forward request)
unfolding new with_metadata_forward
selected = refl

app_serve_http-registered_example :
    app_serve_http demo router pairs (update_route demo 0 created_route after) globals [] request 0
    ≡ created_route.serve globals [] (forward_metadata pairs before.metadata_forward request) 0
app_serve_http-registered_example =
    app_serve_http-registered demo router text_response [] (codes "GET") users_pattern get_user
      (by_id ∷ []) before after 0 registered globals created_route pairs [] request
      (forward_metadata pairs before.metadata_forward request) 0 selected
