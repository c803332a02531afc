-- ===== src/OpenApi/Templates.antt =====
-- The templates of a whole OpenAPI path.
use grpc_composition.Common.{
  ◌≡◌, refl, ap, ◌≢◌, ◌↔◌, inl, inr, true, false, List, [], ◌∷◌, ◌++◌, Option, none, some, arith,
  Text, codes, ◌==◌, text_eq, Option-cases, Bool-cases, gather,
}
use grpc_composition.Common.{All, Any}
use mathlib.Core.Option.{some-injective}
use mathlib.Core.Path.{subst}
use grpc_composition.Std.Strings.{split, join, strip_suffix, strip_suffix_iff}
use grpc_composition.Patterns.{pattern_path_params, has_name}
use grpc_composition.Patterns.Params.{in_braces, DeclaresParam, pattern_path_params_iff, Any_iff}
use grpc_composition.OpenApi.{normalize_segment, normalize_path}
use grpc_composition.OpenApi.Paths.{
  Lacks, normalize_from_lem, split-Lacks, split-join, All-append, All-append_left,
}
use grpc_composition.OpenApi.Params.{
  normalize_segment_iff, normalize_segment_dots, normalize_segment_plain,
}

none≢some {ℓ} : {A : Type ℓ} {a : A} → none ≢ some a
none≢some h = cc

-- What is kept of a segment has no slash either.
Lacks-normalize_segment :
    (seg out : Text) → Lacks b'/' seg → normalize_segment seg ≡ some out → Lacks b'/' out
unfolding normalize_segment text_eq
Lacks-normalize_segment seg out lacks h = elim (Option-cases (strip_suffix seg (codes "...}"))) [
  | inl bare ↦ elim (Bool-cases (text_eq seg (codes "{$}"))) [
    | inl exact ↦ let bad = rw (normalize_segment_plain seg bare, exact) at h in cc
    | inr other ↦
        subst (Lacks b'/')
          (some-injective seg out (rw (normalize_segment_plain seg bare, other) at h)) lacks
  ]
  | inr (q, e) ↦ suffixed q ((strip_suffix_iff seg (codes "...}") q).0 e)
]
  where
    suffixed : (q : Text) → seg ≡ q ++ codes "...}" → Lacks b'/' out
    suffixed [] e =
        subst (Lacks b'/') (some-injective (codes "...}") out (rw e at h))
          (refl, (refl, (refl, (refl, tt))))
    suffixed (c ∷ m) e =
        let parts : Lacks b'/' (c ∷ m) =
          All-append_left (λ d. (d == b'/') ≡ false) (c ∷ m) (codes "...}") (rw e at lacks) in
        elim (Bool-cases (c == b'{')) [
          | inl brace ↦
              subst (Lacks b'/')
                (some-injective (in_braces m) out (rw (e, normalize_segment_dots c m, brace) at h))
                (refl, All-append (λ d. (d == b'/') ≡ false) m (b'}' ∷ []) parts.1 (refl, tt))
          | inr plain ↦
              subst (Lacks b'/')
                (some-injective seg out
                  (rw (← e) at (rw (e, normalize_segment_dots c m, plain) at h)))
                lacks
        ]

Lacks-gather :
    (segs : List Text) → All (Lacks b'/') segs → All (Lacks b'/') (gather normalize_segment segs)
Lacks-gather [] h = tt
Lacks-gather (seg ∷ segs) h = elim (Option-cases (normalize_segment seg)) [
  | inl e ↦ rw e (Lacks-gather segs h.1)
  | inr (out, e) ↦ rw e (Lacks-normalize_segment seg out h.0 e, Lacks-gather segs h.1)
]

Any-gather :
    {A B : Type 0} (f : A → Option B) (b : B) (xs : List A)
    → Any (λ y. y ≡ b) (gather f xs) ↔ Any (λ x. f x ≡ some b) xs
Any-gather f b [] = (λ h. h, λ h. h)
Any-gather f b (x ∷ xs) = elim (Option-cases (f x)) [
  | inl e ↦ rw e (
    λ h. inr ((Any-gather f b xs).0 h),
    elim [ inl n ↦ absurd (none≢some n) | inr a ↦ (Any-gather f b xs).1 a ],
  )
  | inr (y, e) ↦ rw e (
    elim [ inl s ↦ inl (ap some s) | inr a ↦ inr ((Any-gather f b xs).0 a) ],
    elim [ inl s ↦ inl (some-injective _ _ s) | inr a ↦ inr ((Any-gather f b xs).1 a) ],
  )
]

-- The segments of the joined path are those that were joined, but for the empty list.
Any-split-join :
    (name : Text) (segs : List Text)
    → All (Lacks b'/') segs
    → Any (λ s. s ≡ in_braces name) (split (join segs b'/') b'/')
      ↔ Any (λ s. s ≡ in_braces name) segs
unfolding join split
Any-split-join name [] h = (elim [ inl e ↦ absurd (ground arith) | inr b ↦ b ], λ b. absurd b)
Any-split-join name (p ∷ ps) h = rw (split-join p ps b'/' h) (λ a. a, λ a. a)

-- A segment `{name}` stands in the OpenAPI path of a pattern exactly if `patternPathParams` finds
-- the parameter `name` in the pattern, for every name but "" and "$".
pub normalize_path-params :
    (pattern_text name : Text)
    → name ≢ []
    → name ≢ codes "$"
    → Any (λ seg. seg ≡ in_braces name) (split (normalize_path pattern_text) b'/')
      ↔ (has_name (pattern_path_params pattern_text) name ≡ true)
unfolding normalize_path
normalize_path-params pattern_text name nonempty no_dollar =
    let segs = split pattern_text b'/' in
    let kept =
      Any-split-join name (gather normalize_segment segs)
        (Lacks-gather segs (split-Lacks pattern_text b'/')) in
    let found = Any-gather normalize_segment (in_braces name) segs in
    let same =
      Any_iff (λ seg. normalize_segment seg ≡ some (in_braces name)) (DeclaresParam name)
        (normalize_segment_iff name nonempty no_dollar) segs in
    let declared = pattern_path_params_iff pattern_text name in
    rw (normalize_path, normalize_from_lem)
      (λ a. declared.1 (same.0 (found.0 (kept.0 a))), λ h. kept.1 (found.1 (same.1 (declared.0 h))))
