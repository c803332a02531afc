-- ===== src/Patterns/Params.antt =====
-- Which parameters a pattern declares, and when the check of path binders passes.
use grpc_composition.Common.{
  All, Any, ◌≡◌, refl, sym, ◌∙◌, ◌≢◌, ◌↔◌, ◌⊎◌, inl, inr, true, ◌||◌, List, [], ◌∷◌, ◌++◌,
  append-nil, Option, none, some, arith, Text, codes, text_eq, text_eq_iff, ok, Option-cases,
  Bool-cases, cons_some,
}
use mathlib.Core.Option.{some-injective}
use mathlib.Core.Path.{subst}
use mathlib.Core.Bool.{false≢true}
use grpc_composition.Std.Strings.{
  split, trim_suffix, split_last, strip_suffix, split_last_iff, strip_suffix_iff,
}
use grpc_composition.Host.{Host}
use grpc_composition.Spec.{ParamSpec, in_path}
use grpc_composition.Globals.{Binder}
use grpc_composition.Patterns.{
  braced, segment_name, add_names, pattern_path_params, has_name, spec_matches, validate_from,
  validate_path_binders,
}

abbrev pub dots : Text
dots = codes "..."

-- `{mid}`.
abbrev pub in_braces : Text → Text
in_braces mid = b'{' ∷ (mid ++ (b'}' ∷ []))

-- The segment declares the parameter `name`: as `{name...}`, or as `{name}` where the name does not
-- end in dots itself. Neither `{}` nor `{$}` declares any.
abbrev pub DeclaresParam : Text → Text → Type 0
DeclaresParam name seg =
    (name ≢ [])
    × (name ≢ codes "$")
    × ((seg ≡ in_braces (name ++ dots))
        ⊎ ((seg ≡ in_braces name) × (strip_suffix name dots ≡ none)))

braced_iff : (seg mid : Text) → (braced seg ≡ some mid) ↔ (seg ≡ in_braces mid)
unfolding braced
braced_iff [] mid = (λ h. cc, λ h. cc)
braced_iff (c ∷ rest) mid = elim (Option-cases (split_last rest)) [
  | inl e ↦ rw e (ground (arith, split_last_iff rest mid b'}'))
  | inr ((p, z), e) ↦ rw e (ground (arith, split_last_iff rest p z, split_last_iff rest mid b'}'))
]

trim_suffix_iff :
    (m t n : Text) → (trim_suffix m t ≡ n) ↔ ((m ≡ n ++ t) ⊎ ((m ≡ n) × (strip_suffix n t ≡ none)))
unfolding trim_suffix
trim_suffix_iff m t n = elim (Option-cases (strip_suffix m t)) [
  | inl no_suffix ↦ rw (no_suffix, trim_suffix) (ground (arith, strip_suffix_iff m t n))
  | inr (p, found) ↦ rw (found, trim_suffix) (ground (arith, strip_suffix_iff m t n))
]

segment_name_iff : (seg name : Text) → (segment_name seg ≡ some name) ↔ DeclaresParam name seg
unfolding segment_name
segment_name_iff seg name = elim (Option-cases (braced seg)) [
  | inl e ↦
      rw (e, segment_name) (ground (arith, braced_iff seg (name ++ dots), braced_iff seg name))
  | inr (mid, e) ↦
      rw (e, segment_name)
        (ground (
          arith,
          braced_iff seg (name ++ dots),
          braced_iff seg name,
          trim_suffix_iff mid dots name,
          text_eq_iff (trim_suffix mid dots) (codes "$"),
        ))
]

no_names : (name : Text) → has_name [] name ≡ true → ⊥
unfolding has_name
no_names name h = cc

has_name-append :
    (names more : List Text) (name : Text)
    → has_name (names ++ more) name ≡ (has_name names name || has_name more name)
unfolding has_name
has_name-append [] more name = refl
has_name-append (n ∷ names) more name = rw (has_name-append names more name) (ground arith)

has_name_added :
    (names : List Text) (o : Option Text) (name : Text)
    → (has_name (names ++ cons_some o []) name ≡ true)
      ↔ ((has_name names name ≡ true) ⊎ (o ≡ some name))
unfolding has_name
has_name_added names none name = rw append-nil (ground arith)
has_name_added names (some n) name =
    rw (has_name-append names (n ∷ []) name) (ground (arith, text_eq_iff n name))

regroup : {A B X Y Z : Type 0} → A ↔ (X ⊎ B) → X ↔ (Y ⊎ Z) → A ↔ (Y ⊎ (Z ⊎ B))
regroup f g = (
  λ a. elim (f.0 a) [
    | inr b ↦ inr (inr b)
    | inl x ↦ elim (g.0 x) [ inl y ↦ inl y | inr z ↦ inr (inl z) ]
  ],
  elim [
    | inl y ↦ f.1 (inl (g.1 (inl y)))
    | inr (inl z) ↦ f.1 (inl (g.1 (inr z)))
    | inr (inr b) ↦ f.1 (inr b)
  ],
)

has_name_add :
    (names segs : List Text) (name : Text)
    → (has_name (add_names names segs) name ≡ true)
      ↔ ((has_name names name ≡ true) ⊎ Any (λ seg. segment_name seg ≡ some name) segs)
unfolding add_names
has_name_add names [] name = (inl, elim [ inl h ↦ h | inr b ↦ absurd b ])
has_name_add names (seg ∷ segs) name =
    regroup (has_name_add (names ++ cons_some (segment_name seg) []) segs name)
      (has_name_added names (segment_name seg) name)

pub Any_iff :
    {A : Type 0} (P Q : A → Type 0) → ((x : A) → P x ↔ Q x) → (xs : List A) → Any P xs ↔ Any Q xs
Any_iff P Q h [] = (λ b. b, λ b. b)
Any_iff P Q h (x ∷ xs) = (
  elim [ inl p ↦ inl ((h x).0 p) | inr a ↦ inr ((Any_iff P Q h xs).0 a) ],
  elim [ inl q ↦ inl ((h x).1 q) | inr a ↦ inr ((Any_iff P Q h xs).1 a) ],
)

-- The set of `patternPathParams` holds exactly the names that some segment of the pattern declares:
-- as `{name...}`, or as `{name}` where the name does not end in dots, and never "" or "$".
pub pattern_path_params_iff :
    (pattern_text name : Text)
    → (has_name (pattern_path_params pattern_text) name ≡ true)
      ↔ Any (DeclaresParam name) (split pattern_text b'/')
unfolding pattern_path_params
pattern_path_params_iff pattern_text name =
    let added = has_name_add [] (split pattern_text b'/') name in
    let same =
      Any_iff (λ seg. segment_name seg ≡ some name) (DeclaresParam name)
        (λ seg. segment_name_iff seg name) (split pattern_text b'/') in
    (
      λ h. elim (added.0 h) [ inl e ↦ absurd (no_names name e) | inr a ↦ same.0 a ],
      λ a. added.1 (inr (same.1 a)),
    )

module _ (H : Host) where
  abbrev IsMatchedSpec : Text → ParamSpec → Type 0
  IsMatchedSpec pattern_text spec =
      spec.location ≡ in_path → Any (DeclaresParam spec.name) (split pattern_text b'/')

  spec_matches_iff :
      (names : List Text) (spec : ParamSpec)
      → (spec_matches H names spec ≡ true)
        ↔ (spec.location ≡ in_path → has_name names spec.name ≡ true)
  unfolding spec_matches
  spec_matches_iff names spec = elim (Bool-cases (text_eq spec.location in_path)) [
    | inl at ↦ rw at (λ h _. h, λ f. f ((text_eq_iff spec.location in_path).0 at))
    | inr elsewhere ↦ rw elsewhere (
      λ _ e. absurd (false≢true (sym elsewhere ∙ (text_eq_iff spec.location in_path).1 e)),
      λ _. refl,
    )
  ]

module _ (H : Host) {Req : Type 0} where
  -- A path binder whose parameter is declared by the pattern, or any other binder.
  abbrev pub IsMatched : Text → Binder H Req → Type 0
  IsMatched pattern_text b =
      (spec : ParamSpec)
      → b.param_spec ≡ some spec
      → spec.location ≡ in_path
      → Any (DeclaresParam spec.name) (split pattern_text b'/')

  validate_from_iff :
      (verb pattern_text : Text) (names : List Text)
      → ((name : Text)
          → (has_name names name ≡ true) ↔ Any (DeclaresParam name) (split pattern_text b'/'))
      → (bs : List (Binder H Req))
      → (validate_from H verb pattern_text names bs ≡ ok tt) ↔ All (IsMatched pattern_text) bs
  unfolding validate_from
  validate_from_iff verb pattern_text names same [] = (λ _. tt, λ _. refl)
  validate_from_iff verb pattern_text names same (b ∷ bs) =
      let later = validate_from_iff verb pattern_text names same bs in
      elim (Option-cases b.param_spec) [
        | inl bare ↦ rw (bare, validate_from) (λ h. (λ spec e loc. cc, later.0 h), λ p. later.1 p.1)
        | inr (spec, documented) ↦ elim (Bool-cases (spec_matches H names spec)) [
          | inl good ↦
              rw (documented, validate_from, good)
                (
                  λ h. (
                    λ spec' e.
                        subst (IsMatchedSpec H pattern_text) (some-injective spec spec' e)
                          (λ loc. (same spec.name).0 ((spec_matches_iff H names spec).0 good loc)),
                    later.0 h,
                  ),
                  λ p. later.1 p.1,
                )
          | inr bad ↦
              rw (documented, validate_from, bad)
                (
                  λ h. cc,
                  λ p. absurd (
                      false≢true (
                        sym bad
                        ∙ (spec_matches_iff H names spec).1
                            (λ loc. (same spec.name).1 (p.0 spec refl loc)))),
                )
        ]
      ]

  -- A registration passes the check of its binders exactly if the pattern declares the parameter of
  -- each binder that documents a path parameter.
  pub validate_path_binders_iff :
      (verb pattern_text : Text) (bs : List (Binder H Req))
      → (validate_path_binders H verb pattern_text bs ≡ ok tt) ↔ All (IsMatched pattern_text) bs
  unfolding validate_path_binders
  validate_path_binders_iff verb pattern_text bs =
      validate_from_iff verb pattern_text (pattern_path_params pattern_text)
        (pattern_path_params_iff pattern_text) bs
