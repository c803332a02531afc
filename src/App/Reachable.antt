-- ===== src/App/Reachable.antt =====
-- The Apps that a program can make, step by step, and what `Operations` lists of them.
use grpc_composition.Common.{
  ℕ, zero, suc, ◌<◌, ◌≡◌, refl, ap, ◌∙◌, inl, inr, List, [], ◌∷◌, ◌++◌, map, some, arith, Text, ok,
  ok-injective, Bool-cases, length, All,
}
use mathlib.Core.Path.{subst}
use grpc_composition.Host.{Host}
use grpc_composition.Globals.{Globals, Binder, ResponseType}
use grpc_composition.Route.{UnaryMethod}
use grpc_composition.App.{
  App, Served, Handler, Router, RegisteredOperation, get_elem?, handler, new, apply_options,
  with_metadata_forward, update_route, handle_verb, handle, operation_of, operations_from,
  operations,
}
use grpc_composition.App.Operations.{
  IsWellFormed, All-concat, err≢ok, length-set, registered, handle_verb-IsWellFormed,
}

abbrev VerbPattern : Type 0
VerbPattern = Text × Text

abbrev written : RegisteredOperation → VerbPattern
written op = (op.method, op.pattern_text)

map-concat {ℓ κ} :
    {A : Type ℓ} {B : Type κ} (f : A → B) (xs : List A) (x : A)
    → map f (xs ++ (x ∷ [])) ≡ map f xs ++ (f x ∷ [])
map-concat f [] x = refl
map-concat f (y ∷ ys) x = ap (λ l. f y ∷ l) (map-concat f ys x)

get_elem?_below {ℓ} :
    {A : Type ℓ} (xs : List A) (i : ℕ) → i < length xs → (x : A) × (get_elem? xs i ≡ some x)
get_elem?_below [] i h = absurd (omega arith)
get_elem?_below (x ∷ xs) zero h = (x, refl)
get_elem?_below (x ∷ xs) (suc i) h = get_elem?_below xs i (omega arith)

module _ (H : Host) (X : Router H) where
  -- `Builds log a`: a program that calls `New` and then, in any order, the verb methods, `Handle`
  -- and options on the routes, none of which panics, has the App `a`; `log` are the verbs and
  -- patterns that it gave to the verb methods.
  pub data Builds : List VerbPattern → App H → Type 1 where
    begins :
        (headers : List (List Text)) → Builds [] (new H (map (with_metadata_forward H) headers))
    registers :
        {log : List VerbPattern} {a b : App H} {place : ℕ} {Req Resp : Type 0}
        (t : ResponseType H Resp) (zero_req : Req) (verb pattern_text : Text)
        (method : UnaryMethod H Req Resp) (binders : List (Binder H Req))
        → Builds log a
        → handle_verb H X t zero_req verb pattern_text method binders a ≡ ok (b, place)
        → Builds (log ++ ((verb, pattern_text) ∷ [])) b
    handles :
        {log : List VerbPattern} {a b : App H} (pattern_text : Text) (h : Handler H)
        → Builds log a
        → handle H X pattern_text h a ≡ ok b
        → Builds log b
    changes :
        {log : List VerbPattern} {a : App H} (i : ℕ) (rt : Served H)
        → Builds log a
        → Builds log (update_route H i rt a)

  -- What holds of every such App.
  abbrev Keeps : List VerbPattern → App H → Type 0
  Keeps log a = IsWellFormed a × (map written a.operations ≡ log)

  new-Keeps :
      (headers : List (List Text)) (a : App H)
      → Keeps [] a
      → Keeps [] (apply_options H a (map (with_metadata_forward H) headers))
  unfolding apply_options with_metadata_forward
  new-Keeps [] a h = h
  new-Keeps (hs ∷ headers) a (wf, e) =
      new-Keeps headers (with_metadata_forward H hs a)
        (record { targets = wf.targets; documented = wf.documented }, e)

  handle-Keeps :
      (log : List VerbPattern) (a b : App H) (pattern_text : Text) (h : Handler H)
      → handle H X pattern_text h a ≡ ok b
      → Keeps log a
      → Keeps log b
  unfolding handle
  handle-Keeps log a b pattern_text h done (wf, e) =
      elim (Bool-cases (X.refuses (map (λ e. e.0) a.mux) pattern_text)) [
        | inl taken ↦ absurd (err≢ok (rw taken at done))
        | inr free ↦ subst (Keeps log) (ok-injective (rw free at done)) (
          record {
            targets = All-concat _ a.mux (pattern_text, handler h) wf.targets tt;
            documented = wf.documented;
          },
          e,
        )
      ]

  update_route-Keeps :
      (log : List VerbPattern) (a : App H) (i : ℕ) (rt : Served H)
      → Keeps log a
      → Keeps log (update_route H i rt a)
  unfolding update_route
  update_route-Keeps log a i rt (wf, e) = (
    record {
      targets = rw (length-set a.routes i rt) wf.targets;
      documented = rw (length-set a.routes i rt) wf.documented;
    },
    e,
  )

  Builds-Keeps : (log : List VerbPattern) (a : App H) → Builds log a → Keeps log a
  unfolding new
  Builds-Keeps _ _ (begins headers) =
      new-Keeps headers _ (record { targets = tt; documented = tt }, refl)
  Builds-Keeps _ b
        (registers {log = log} {a = a} {place = place} t zero_req verb pattern_text method binders
          before done) =
      let (wf, e) = Builds-Keeps log a before in
      let (_, is, _) = registered H X t zero_req verb pattern_text method binders a b place done in
      (
        handle_verb-IsWellFormed H X t zero_req verb pattern_text method binders a b place done wf,
        rw is (map-concat written a.operations _ ∙ rw e),
      )
  Builds-Keeps log b (handles {a = a} pattern_text h before done) =
      handle-Keeps log a b pattern_text h done (Builds-Keeps log a before)
  Builds-Keeps log _ (changes {a = a} i rt before) =
      update_route-Keeps log a i rt (Builds-Keeps log a before)

  module _ (g : Globals H) where
    operations_from-written :
        (a : App H) (ops : List RegisteredOperation)
        → All (λ op. op.route < length a.routes) ops
        → map (λ op. (op.method, op.pattern_text)) (operations_from H g a ops) ≡ map written ops
    unfolding operations_from operation_of
    operations_from-written a [] h = refl
    operations_from-written a (op ∷ ops) h =
        let (rt, there) = get_elem?_below a.routes op.route h.0 in
        rw (operations_from, operation_of, there)
          (ap (λ l. written op ∷ l) (operations_from-written a ops h.1))

    -- In every App that a program makes by `New`, the verb methods, `Handle` and options on the
    -- routes, without a panic: each pointer that the mux or the list of operations holds leads to a
    -- route of the App, and `Operations` lists one operation for each call of a verb method, in the
    -- order of the calls, with the verb and the pattern of the call.
    pub operations-Builds :
        (log : List VerbPattern) (a : App H)
        → Builds log a
        → IsWellFormed a × (map (λ op. (op.method, op.pattern_text)) (operations H g a) ≡ log)
    unfolding operations
    operations-Builds log a built =
        let (wf, e) = Builds-Keeps log a built in
        (wf, operations_from-written a a.operations wf.documented ∙ e)
