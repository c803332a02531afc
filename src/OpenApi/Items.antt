-- ===== src/OpenApi/Items.antt =====
-- Which operation the document holds for a path and a method.
use grpc_composition.Common.{
  ◌≡◌, refl, ◌∙◌, ◌⊎◌, inl, inr, Bool, true, false, ◌&&◌, ◌||◌, List, [], ◌∷◌, Option, none, some,
  arith, Text, codes, if◌then◌else◌, text_eq, text_eq_iff, Option-cases, Bool-cases, lookup,
  lookup-insert, last_some, or_option,
}
use grpc_composition.Common.{All}
use grpc_composition.OpenApi.{
  PathItem, blank_item, assign, normalize_path, add_operation, add_operations,
}

-- The methods that the document can hold.
abbrev pub is_verb : Text → Bool
is_verb method =
    text_eq method (codes "GET")
    || text_eq method (codes "POST")
    || text_eq method (codes "PUT")
    || text_eq method (codes "PATCH")
    || text_eq method (codes "DELETE")

or_option-none {ℓ} : {A : Type ℓ} (o : Option A) → or_option o none ≡ o
or_option-none none = refl
or_option-none (some a) = refl

abbrev IsVerb : Text → Type 0
IsVerb v =
    (v ≡ codes "GET")
    ⊎ ((v ≡ codes "POST") ⊎ ((v ≡ codes "PUT") ⊎ ((v ≡ codes "PATCH") ⊎ (v ≡ codes "DELETE"))))

is_verb-cases : (v : Text) → is_verb v ≡ true → IsVerb v
is_verb-cases v known = ground (
  arith,
  text_eq_iff v (codes "GET"),
  text_eq_iff v (codes "POST"),
  text_eq_iff v (codes "PUT"),
  text_eq_iff v (codes "PATCH"),
  text_eq_iff v (codes "DELETE"),
)

text_eq_sym : (s t : Text) → text_eq s t ≡ text_eq t s
text_eq_sym s t = ground (arith, text_eq_iff s t, text_eq_iff t s)

module _ {Op : Type 0} where
  -- The operation of an item for a method.
  abbrev pub operation_at : PathItem Op → Text → Option Op
  operation_at item method =
      if text_eq method (codes "GET")
      then item.get_op
      else if text_eq method (codes "POST")
      then item.post_op
      else if text_eq method (codes "PUT")
      then item.put_op
      else if text_eq method (codes "PATCH")
      then item.patch_op
      else if text_eq method (codes "DELETE")
      then item.delete_op
      else none

  -- The operation of the document for a path and a method.
  abbrev pub documented : List (Text × PathItem Op) → Text → Text → Option Op
  documented paths path method = elim (lookup path paths) [
    | none ↦ none
    | some item ↦ operation_at item method
  ]

  -- Splits on whether the method asked for is the one assigned.
  same_or_other :
      (item : PathItem Op) (verb : Text) (op : Op) (method : Text)
      → operation_at (assign item verb op) verb ≡ some op
      → (text_eq method verb ≡ false
          → operation_at (assign item verb op) method ≡ operation_at item method)
      → operation_at (assign item verb op) method
        ≡ (if text_eq verb method then some op else operation_at item method)
  same_or_other item verb op method same other = elim (Bool-cases (text_eq verb method)) [
    | inl e ↦ rw (e, ← (text_eq_iff verb method).0 e) same
    | inr e ↦ rw e (other (text_eq_sym method verb ∙ e))
  ]

  operation_at-assign :
      (item : PathItem Op) (verb : Text) (op : Op) (method : Text)
      → is_verb verb ≡ true
      → operation_at (assign item verb op) method
        ≡ (if text_eq verb method then some op else operation_at item method)
  unfolding assign text_eq
  operation_at-assign item verb op method known = elim (is_verb-cases verb known) [
    | inl e ↦ rw e (same_or_other item (codes "GET") op method refl (λ h. rw h))
    | inr (inl e) ↦ rw e (same_or_other item (codes "POST") op method refl (λ h. rw h))
    | inr (inr (inl e)) ↦ rw e (same_or_other item (codes "PUT") op method refl (λ h. rw h))
    | inr (inr (inr (inl e))) ↦ rw e (same_or_other item (codes "PATCH") op method refl (λ h. rw h))
    | inr (inr (inr (inr e))) ↦
        rw e (same_or_other item (codes "DELETE") op method refl (λ h. rw h))
  ]

  operation_at-blank_item :
      (method : Text) → ◌≡◌ {A = Option Op} (operation_at blank_item method) none
  operation_at-blank_item method = ground arith

  documented-add_operation :
      (paths : List (Text × PathItem Op)) (pattern_text verb : Text) (op : Op) (path method : Text)
      → is_verb verb ≡ true
      → documented (add_operation paths pattern_text verb op) path method ≡ (
          if text_eq (normalize_path pattern_text) path && text_eq verb method
          then some op
          else documented paths path method)
  unfolding add_operation
  documented-add_operation paths pattern_text verb op path method known =
      let key = normalize_path pattern_text in
      rw (documented, add_operation, lookup-insert)
        (elim (Bool-cases (text_eq key path)) [
          | inr other ↦ rw other
          | inl same ↦
              rw (same, operation_at-assign, ← (text_eq_iff key path).0 same)
                (elim (Option-cases (lookup key paths)) [
                  | inl fresh ↦ rw (documented, fresh, operation_at-blank_item) (ground arith)
                  | inr (item, there) ↦ rw (documented, there) (ground arith)
                ])
        ])

  -- What the document holds for a path and a method, of one route.
  abbrev pub documents : Text → Text → Text × Text × Op → Option Op
  documents path method (pattern_text, verb, op) =
      if text_eq (normalize_path pattern_text) path && text_eq verb method then some op else none

  documented-add_operations_onto :
      (paths : List (Text × PathItem Op)) (ops : List (Text × Text × Op)) (path method : Text)
      → All (λ e. is_verb e.1 ≡ true) ops
      → documented (add_operations paths ops) path method
        ≡ or_option (last_some (documents path method) ops) (documented paths path method)
  unfolding add_operations
  documented-add_operations_onto paths [] path method known = refl
  documented-add_operations_onto paths ((pattern_text, verb, op) ∷ ops) path method known =
      documented-add_operations_onto (add_operation paths pattern_text verb op) ops path method
        known.1
      ∙ (rw (documented-add_operation paths pattern_text verb op path method known.0)
          (ground arith))

  -- Of routes with the five methods, the document holds for a path and a method the operation of the
  -- last one with this method whose pattern is normalised to this path, and none if there is none:
  -- an earlier route with the same method and normalised path is lost.
  pub documented-add_operations :
      (ops : List (Text × Text × Op)) (path method : Text)
      → All (λ e. is_verb e.1 ≡ true) ops
      → documented (add_operations [] ops) path method ≡ last_some (documents path method) ops
  unfolding lookup
  documented-add_operations ops path method known =
      documented-add_operations_onto [] ops path method known
      ∙ or_option-none (last_some (documents path method) ops)
