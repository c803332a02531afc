-- ===== src/App.antt =====
-- app.go: `App`, the verb methods, and dispatch.
pub mod Operations
pub mod Verbs
pub mod Reachable
pub mod Dispatch
use grpc_composition.Common.{
  ℕ, zero, suc, ◌+◌, ◌-◌, ◌*◌, ◌^◌, ◌%◌, ◌≤◌, ◌<◌, ◌≡◌, refl, sym, ap, ◌∙◌, ◌≢◌, ◌↔◌, ◌⊎◌, inl, inr,
  Bool, true, false, not, ◌&&◌, ◌||◌, List, [], ◌∷◌, ◌++◌, map, append-nil, append_assoc, Option,
  none, some, arith, Text, codes, ◌==◌, leb, ltb, if◌then◌else◌, text_eq, text_eq_iff, text_eq_refl,
  Result, ok, err, is_empty, ◌>>=◌, map_err, Result-cases, ok-injective, Option-cases, Bool-cases,
  length, length-append, lookup, insert, lookup-insert, NodupKeys, last_some, or_else, or_option,
  gather,
}
use grpc_composition.Std.Http.{Writer}
use grpc_composition.Host.{Host, Err, Request}
use grpc_composition.Spec.{OperationInfo}
use grpc_composition.Globals.{Globals, Binder, ResponseType}
use grpc_composition.Route.{UnaryMethod, Route, proxy, serve_http, operation_info}
use grpc_composition.Patterns.{Panic, mux_refuses, validate_path_binders}
use grpc_composition.Forward.{Metadata, add_forwarded, forward_metadata}

-- `http.Handler`.
abbrev pub Handler : Host → Type 0
Handler H = Globals H → Writer → Request H → H.Backend → Writer × H.Backend

-- A `*Route` as the App sees it: an `http.Handler` and a `describable`.
pub record Served (H : Host) : Type 0 where
  pub serve : Handler H
  pub describe : Globals H → OperationInfo H

-- What a pattern is registered for: a route, by its place among the App's routes, or a handler.
pub data Target (H : Host) : Type 0 where
  route_at : ℕ → Target H
  handler : Handler H → Target H

-- `registeredOperation`. The route is a pointer, so a place among the App's routes.
pub record RegisteredOperation : Type 0 where
  pub method : Text
  pub pattern_text : Text
  pub route : ℕ

-- `App`. `routes` are the routes that the verb methods made: `mux` and `operations` and the caller
-- hold pointers to them.
pub record App (H : Host) : Type 0 where
  pub routes : List (Served H)
  pub mux : List (Text × Target H)
  pub metadata_forward : List Text
  pub operations : List RegisteredOperation

-- http.ServeMux: whether `Handle` panics on a pattern, given those that are registered, which of
-- them serves a request (with the path values stored in the request), and the handler of the
-- requests that none serves.
pub record Router (H : Host) : Type 0 where
  pub refuses : List Text → Text → Bool
  pub select : List Text → Request H → Option (ℕ × Request H)
  pub unmatched : Handler H

abbrev pub get_elem? {ℓ} : {A : Type ℓ} → List A → ℕ → Option A
get_elem? [] i = none
get_elem? (x ∷ xs) zero = some x
get_elem? (x ∷ xs) (suc i) = get_elem? xs i

abbrev pub set {ℓ} : {A : Type ℓ} → List A → ℕ → A → List A
set [] i v = []
set (x ∷ xs) zero v = v ∷ xs
set (x ∷ xs) (suc i) v = x ∷ set xs i v

module _ (H : Host) where
  -- `AppOption`, and `WithMetadataForward`.
  unfoldable pub with_metadata_forward : List Text → App H → App H
  unfolding add_forwarded
  with_metadata_forward headers a = record a {
    metadata_forward = add_forwarded a.metadata_forward headers;
  }

  apply_options : App H → List (App H → App H) → App H
  apply_options a [] = a
  apply_options a (opt ∷ opts) = apply_options (opt a) opts

  -- `New`.
  unfoldable pub new : List (App H → App H) → App H
  unfolding apply_options
  new opts =
      apply_options (record { routes = []; mux = []; metadata_forward = []; operations = [] }) opts

  -- A route as its two interfaces.
  unfoldable pub as_served :
      {Req Resp : Type 0} → ResponseType H Resp → Req → Route H Req Resp → Served H
  as_served t zero_req rt = record {
    serve = λ g w r s. serve_http H g t zero_req rt w r s;
    describe = λ g. operation_info H g t rt;
  }

  -- An option method that is called on the pointer a verb method returned: the route that the
  -- pointer leads to is now `rt`.
  unfoldable pub update_route : ℕ → Served H → App H → App H
  update_route i rt a = record a { routes = set a.routes i rt }

  module _ (X : Router H) where
    -- `handleVerb`: the App, and the pointer to the new route.
    unfoldable pub handle_verb :
        {Req Resp : Type 0}
        → ResponseType H Resp
        → Req
        → Text
        → Text
        → UnaryMethod H Req Resp
        → List (Binder H Req)
        → App H
        → Result Panic (App H × ℕ)
    unfolding as_served
    handle_verb t zero_req verb pattern_text method binders a =
        validate_path_binders H verb pattern_text binders >>= λ _.
        let rt = proxy H method binders in
        let full = verb ++ (codes " " ++ pattern_text) in
        let place = length a.routes in
        if X.refuses (map (λ e. e.0) a.mux) full
        then err mux_refuses
        else ok (
          record a {
            routes = a.routes ++ (as_served t zero_req rt ∷ []);
            mux = a.mux ++ ((full, route_at place) ∷ []);
            operations =
                a.operations
                ++ (record { method = verb; pattern_text = pattern_text; route = place } ∷ []);
          },
          place,
        )

    -- `Handle`.
    unfoldable pub handle : Text → Handler H → App H → Result Panic (App H)
    handle pattern_text h a =
        if X.refuses (map (λ e. e.0) a.mux) pattern_text
        then err mux_refuses
        else ok (record a { mux = a.mux ++ ((pattern_text, handler h) ∷ []) })

    -- What the router calls for the pattern that it selected.
    call_target : App H → Option (Text × Target H) → Handler H
    call_target a none = X.unmatched
    call_target a (some (_, handler h)) = h
    call_target a (some (_, route_at i)) = elim (get_elem? a.routes i) [
      | none ↦ X.unmatched
      | some rt ↦ rt.serve
    ]

    -- `ServeHTTP` of the router.
    mux_serve : App H → Handler H
    mux_serve a g w r s = elim (X.select (map (λ e. e.0) a.mux) r) [
      | none ↦ X.unmatched g w r s
      | some (i, r') ↦ call_target a (get_elem? a.mux i) g w r' s
    ]

    -- `ServeHTTP`.
    unfoldable pub app_serve_http : Metadata H → App H → Handler H
    unfolding mux_serve call_target forward_metadata
    app_serve_http M a g w r s = mux_serve a g w (forward_metadata M a.metadata_forward r) s

  -- `Handler`.
  unfoldable pub wrap_handler : Metadata H → App H → Handler H → Handler H
  unfolding forward_metadata
  wrap_handler M a inner = if is_empty a.metadata_forward then inner else λ g w r s.
      inner g w (forward_metadata M a.metadata_forward r) s

  -- One round of the loop of `Operations`. A pointer of an operation leads to a route.
  operation_of : Globals H → App H → RegisteredOperation → List (OperationInfo H)
  operation_of g a op = elim (get_elem? a.routes op.route) [
    | none ↦ []
    | some rt ↦ record (rt.describe g) { method = op.method; pattern_text = op.pattern_text } ∷ []
  ]

  operations_from : Globals H → App H → List RegisteredOperation → List (OperationInfo H)
  operations_from g a [] = []
  operations_from g a (op ∷ ops) = operation_of g a op ++ operations_from g a ops

  -- `Operations`.
  unfoldable pub operations : Globals H → App H → List (OperationInfo H)
  unfolding operation_of operations_from
  operations g a = operations_from g a a.operations
