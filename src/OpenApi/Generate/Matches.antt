-- ===== src/OpenApi/Generate/Matches.antt =====
-- Operations that are related to their routes, and which one the document has for a path and a method.
use grpc_composition.Common.{
  ◌≡◌, Bool, true, false, ◌&&◌, List, [], ◌∷◌, Option, none, some, Text, if◌then◌else◌, text_eq,
  last_some, All,
}
use grpc_composition.Host.{Host}
use grpc_composition.Spec.{OperationInfo}
use grpc_composition.OpenApi.{normalize_path}
use grpc_composition.OpenApi.Items.{is_verb, documents}
use grpc_composition.OpenApi.Generate.{Operation}

module _ {H : Host} where
  -- The last route with this method whose pattern is normalised to this path.
  abbrev pub route_of : Text → Text → List (OperationInfo H) → Option (OperationInfo H)
  route_of path method = last_some (λ info.
      if text_eq (normalize_path info.pattern_text) path && text_eq info.method method
      then some info
      else none)

module _ {H : Host} (Rel : OperationInfo H → Operation → Type 0) where
  -- The operations that the loop generates for the routes, in their order.
  abbrev pub Generated : List (OperationInfo H) → List (Text × Text × Operation) → Type 0
  Generated [] [] = Unit
  Generated [] (_ ∷ _) = ⊥
  Generated (_ ∷ _) [] = ⊥
  Generated (info ∷ infos) ((pattern_text, method, o) ∷ gen) =
      (pattern_text ≡ info.pattern_text) × (method ≡ info.method) × Rel info o × Generated infos gen

  -- A document answers for a route with an operation that is related to it, and for no route with
  -- no operation.
  abbrev pub Answers : Option (OperationInfo H) → Option Operation → Type 0
  Answers none none = Unit
  Answers none (some o) = ⊥
  Answers (some info) none = ⊥
  Answers (some info) (some o) = Rel info o

  pub all_verbs :
      (ops : List (OperationInfo H)) (gen : List (Text × Text × Operation))
      → Generated ops gen
      → All (λ (op : OperationInfo H). is_verb op.method ≡ true) ops
      → All (λ (e : Text × Text × Operation). is_verb e.1 ≡ true) gen
  all_verbs [] [] h known = tt
  all_verbs [] (_ ∷ _) h known = absurd h
  all_verbs (_ ∷ _) [] h known = absurd h
  all_verbs (op ∷ ops) (e ∷ gen) h known = (rw (h.1) known.0, all_verbs ops gen h.3 known.1)

  Answers-later :
      (later earlier : Option (OperationInfo H)) (o p : Option Operation)
      → Answers later o
      → Answers earlier p
      → Answers
          (elim later [ some i ↦ some i | none ↦ earlier ])
          (elim o [ some i ↦ some i | none ↦ p ])
  Answers-later none earlier none p h k = k
  Answers-later none earlier (some _) p h k = absurd h
  Answers-later (some _) earlier none p h k = absurd h
  Answers-later (some _) earlier (some _) p h k = h

  Answers-if :
      (b : Bool) (info : OperationInfo H) (o : Operation)
      → Rel info o
      → Answers (if b then some info else none) (if b then some o else none)
  Answers-if true info o h = h
  Answers-if false info o h = tt

  pub Answers-last_some :
      (ops : List (OperationInfo H)) (gen : List (Text × Text × Operation)) (path method : Text)
      → Generated ops gen
      → Answers (route_of path method ops) (last_some (documents path method) gen)
  Answers-last_some [] [] path method h = tt
  Answers-last_some [] (_ ∷ _) path method h = absurd h
  Answers-last_some (_ ∷ _) [] path method h = absurd h
  Answers-last_some (op ∷ ops) (e ∷ gen) path method h =
      Answers-later (route_of path method ops) _ (last_some (documents path method) gen) _
        (Answers-last_some ops gen path method h.3)
        (rw (h.0, h.1)
          (Answers-if (text_eq (normalize_path op.pattern_text) path && text_eq op.method method) op
            e.2 h.2))
