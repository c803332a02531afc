-- ===== src/App/Operations.antt =====
-- Registered routes: what `Operations` lists and what requests reach.
use grpc_composition.Common.{
  All, ℕ, zero, suc, ◌≤◌, ◌<◌, ◌≡◌, refl, sym, ap, ◌∙◌, inl, inr, List, [], ◌∷◌, ◌++◌, map,
  append-nil, append_assoc, some, arith, Text, codes, Result, ok, err, Result-cases, ok-injective,
  Bool-cases, length, length-append,
}
use mathlib.Core.Path.{subst, ap₂}
use grpc_composition.Std.Http.{Writer}
use grpc_composition.Host.{Host, Request}
use grpc_composition.Globals.{Globals, Binder, ResponseType}
use grpc_composition.Route.{UnaryMethod, proxy}
use grpc_composition.Patterns.{validate_path_binders}
use grpc_composition.Forward.{Metadata, forward_metadata}
use grpc_composition.App.{
  Served, Target, route_at, handler, RegisteredOperation, App, Router, get_elem?, set, as_served,
  update_route, handle_verb, app_serve_http, mux_serve, call_target, operation_of, operations_from,
  operations,
}

pub err≢ok {ℓ κ} :
    {E : Type ℓ} {A : Type κ} {e : E} {a : A} → ◌≡◌ {A = Result E A} (err e) (ok a) → ⊥
err≢ok h = cc

module _ {ℓ} {A : Type ℓ} where
  get_elem?-append_left :
      (xs ys : List A) (i : ℕ) → i < length xs → get_elem? (xs ++ ys) i ≡ get_elem? xs i
  get_elem?-append_left [] ys i h = absurd (omega arith)
  get_elem?-append_left (x ∷ xs) ys zero h = refl
  get_elem?-append_left (x ∷ xs) ys (suc i) h = get_elem?-append_left xs ys i (omega arith)

  get_elem?-append_self : (xs : List A) (y : A) → get_elem? (xs ++ (y ∷ [])) (length xs) ≡ some y
  get_elem?-append_self [] y = refl
  get_elem?-append_self (x ∷ xs) y = get_elem?-append_self xs y

  set-append_self : (xs : List A) (y z : A) → set (xs ++ (y ∷ [])) (length xs) z ≡ xs ++ (z ∷ [])
  set-append_self [] y z = refl
  set-append_self (x ∷ xs) y z = ap (λ l. x ∷ l) (set-append_self xs y z)

  pub length-set : (xs : List A) (i : ℕ) (v : A) → length (set xs i v) ≡ length xs
  length-set [] i v = refl
  length-set (x ∷ xs) zero v = refl
  length-set (x ∷ xs) (suc i) v = ap suc (length-set xs i v)

pub All-concat {ℓ} :
    {A : Type ℓ} (P : A → Type 0) (xs : List A) (x : A) → All P xs → P x → All P (xs ++ (x ∷ []))
All-concat P [] x h p = (p, tt)
All-concat P (y ∷ ys) x h p = (h.0, All-concat P ys x h.1 p)

All-map {ℓ} :
    {A : Type ℓ} (P Q : A → Type 0) → ((x : A) → P x → Q x) → (xs : List A) → All P xs → All Q xs
All-map P Q f [] h = tt
All-map P Q f (x ∷ xs) h = (f x h.0, All-map P Q f xs h.1)

module _ {H : Host} where
  abbrev pub PointsBelow : ℕ → Target H → Type 0
  PointsBelow n (route_at i) = i < n
  PointsBelow n (handler _) = Unit

  -- Every pointer that the mux or the list of operations holds leads to a route of the App.
  pub record IsWellFormed (a : App H) : Type 0 where
    pub targets : All (λ e. PointsBelow (length a.routes) e.1) a.mux
    pub documented : All (λ op. op.route < length a.routes) a.operations

  PointsBelow-mono : (m n : ℕ) (t : Target H) → m ≤ n → PointsBelow m t → PointsBelow n t
  PointsBelow-mono m n (route_at i) h p = omega arith
  PointsBelow-mono m n (handler _) h p = tt

module _ (H : Host) (X : Router H) {Req Resp : Type 0} (t : ResponseType H Resp) (zero_req : Req)
    (verb pattern_text : Text) (method : UnaryMethod H Req Resp) (binders : List (Binder H Req))
    (a b : App H) (place : ℕ)
    (done : handle_verb H X t zero_req verb pattern_text method binders a ≡ ok (b, place)) where
  abbrev fresh : Served H
  fresh = as_served H t zero_req (proxy H method binders)

  -- The App with the new route at the end of its three lists.
  abbrev extended : App H
  extended = record a {
    routes = a.routes ++ (fresh ∷ []);
    mux = a.mux ++ ((verb ++ (codes " " ++ pattern_text), route_at (length a.routes)) ∷ []);
    operations =
        a.operations
        ++ (record { method = verb; pattern_text = pattern_text; route = length a.routes } ∷ []);
  }

  -- What a registration that succeeds leaves.
  pub registered :
      (validate_path_binders H verb pattern_text binders ≡ ok tt)
      × (b ≡ extended)
      × (place ≡ length a.routes)
  unfolding handle_verb
  registered = elim (Result-cases (validate_path_binders H verb pattern_text binders)) [
    | inr (p, refused) ↦ absurd (err≢ok (rw (refused, handle_verb) at done))
    | inl (_, valid) ↦
        elim (Bool-cases (X.refuses (map (λ e. e.0) a.mux) (verb ++ (codes " " ++ pattern_text)))) [
          | inl taken ↦ absurd (err≢ok (rw (valid, handle_verb, taken) at done))
          | inr free ↦
              let e : ◌≡◌ {A = App H × ℕ} (extended, length a.routes) (b, place) =
                ok-injective (rw (valid, handle_verb, free) at done) in
              (valid, ap (λ p. p.0) (sym e), ap (λ p. p.1) (sym e))
        ]
  ]

  grown : length (a.routes ++ (fresh ∷ [])) ≡ suc (length a.routes)
  grown = omega (arith, length-append a.routes (fresh ∷ []))

  -- A registration keeps the App well formed: the pointers that it held, and the new ones, lead
  -- to routes.
  pub handle_verb-IsWellFormed : IsWellFormed a → IsWellFormed b
  handle_verb-IsWellFormed wf = subst IsWellFormed (sym registered.1) (record {
    targets =
        All-concat _ a.mux _
          (All-map _ _
            (λ (e : Text × Target H) p. PointsBelow-mono _ _ e.1 (omega (arith, grown)) p) a.mux
            wf.targets)
          (omega (arith, grown));
    documented =
        All-concat _ a.operations _
          (All-map _ _ (λ (op : RegisteredOperation) p. omega (arith, grown)) a.operations
            wf.documented)
          (omega (arith, grown));
  })

  module _ (g : Globals H) (rt : Served H) where
    -- The App once the caller has changed the route through the pointer that it was given.
    abbrev changed : App H
    changed = record extended { routes = a.routes ++ (rt ∷ []) }

    update_route_registered : update_route H place rt b ≡ changed
    unfolding update_route
    update_route_registered =
        rw (registered.1, registered.2) (rw (set-append_self a.routes fresh rt))

    operation_of_old :
        (op : RegisteredOperation)
        → op.route < length a.routes
        → operation_of H g changed op ≡ operation_of H g a op
    unfolding operation_of
    operation_of_old op below =
        rw (operation_of, get_elem?-append_left a.routes (rt ∷ []) op.route below)

    abbrev new_operation : RegisteredOperation
    new_operation = record { method = verb; pattern_text = pattern_text; route = length a.routes }

    operation_of_new :
        operation_of H g changed new_operation
        ≡ record (rt.describe g) { method = verb; pattern_text = pattern_text } ∷ []
    unfolding operation_of
    operation_of_new = rw (operation_of, get_elem?-append_self a.routes rt)

    operations_from_old :
        (ops : List RegisteredOperation)
        → All (λ op. op.route < length a.routes) ops
        → operations_from H g changed ops ≡ operations_from H g a ops
    unfolding operations_from
    operations_from_old [] below = refl
    operations_from_old (op ∷ ops) below =
        ap₂ ◌++◌ (operation_of_old op below.0) (operations_from_old ops below.1)

    operations_from-concat :
        (ops : List RegisteredOperation) (op : RegisteredOperation)
        → operations_from H g changed (ops ++ (op ∷ []))
          ≡ operations_from H g changed ops ++ operation_of H g changed op
    unfolding operations_from
    operations_from-concat [] op = append-nil (operation_of H g changed op)
    operations_from-concat (o ∷ ops) op =
        rw (operations_from-concat ops op) (sym (append_assoc (operation_of H g changed o) _ _))

    -- `Operations` of a well-formed App lists the operation of a new registration behind those
    -- that it listed, with its verb and pattern, and describes the route as the caller has left it
    -- through the pointer, so that options set after the registration are seen.
    pub operations-registered :
        IsWellFormed a
        → operations H g (update_route H place rt b)
          ≡ operations H g a
            ++ (record (rt.describe g) { method = verb; pattern_text = pattern_text } ∷ [])
    unfolding operations
    operations-registered wf = rw update_route_registered (
        operations_from-concat a.operations new_operation
        ∙ ap₂ ◌++◌ (operations_from_old a.operations wf.documented) operation_of_new)

    -- A request for which the router selects the pattern of the registration is answered by the
    -- route as the caller has left it, after the headers have been forwarded.
    pub app_serve_http-registered :
        (M : Metadata H) (w : Writer) (r r' : Request H) (s : H.Backend)
        → X.select (map (λ e. e.0) b.mux) (forward_metadata M a.metadata_forward r)
          ≡ some (length a.mux, r')
        → app_serve_http H X M (update_route H place rt b) g w r s ≡ rt.serve g w r' s
    unfolding app_serve_http
    app_serve_http-registered M w r r' s selected =
        let chosen : X.select (map (λ e. e.0) extended.mux)
              (forward_metadata M a.metadata_forward r)
            ≡ some (length a.mux, r') =
          rw registered.1 at selected in
        rw update_route_registered (
          rw (
            app_serve_http,
            mux_serve,
            chosen,
            get_elem?-append_self a.mux
                (verb ++ (codes " " ++ pattern_text), route_at (length a.routes)),
            call_target,
            get_elem?-append_self a.routes rt,
          ))
