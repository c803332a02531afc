-- ===== src/OpenApi/Params.antt =====
-- The parameters of a pattern and the templates of the OpenAPI path.
use grpc_composition.Common.{
  ℕ, ◌≡◌, sym, ap, ◌∙◌, ◌≢◌, ◌↔◌, inl, inr, true, false, [], ◌∷◌, ◌++◌, append_assoc, Option, none,
  some, arith, Text, codes, ◌==◌, leb, if◌then◌else◌, text_eq, text_eq_iff, Option-cases,
  Bool-cases, length, length-append,
}
use grpc_composition.Common.{==_iff}
use mathlib.Core.Option.{some-injective}
use grpc_composition.Std.Strings.{
  has_suffix, trim_suffix, strip_suffix, strip_suffix_iff, split_last-append, strip_suffix-append,
}
use grpc_composition.Patterns.Params.{dots, in_braces, DeclaresParam}
use grpc_composition.OpenApi.{inner_part, normalize_segment}

append-injective : (m n t : Text) → m ++ t ≡ n ++ t → m ≡ n
append-injective m n t e =
    some-injective m n (sym (strip_suffix-append m t) ∙ (rw e (strip_suffix-append n t)))

in_braces-injective : (m n : Text) → in_braces m ≡ in_braces n → m ≡ n
in_braces-injective m n e = append-injective m n (b'}' ∷ []) (ground arith)

trim_suffix-append : (m t : Text) → trim_suffix (m ++ t) t ≡ m
unfolding trim_suffix
trim_suffix-append m t = rw (trim_suffix, strip_suffix-append m t)

inner_part-dots : (c : ℕ) (m : Text) → inner_part ((c ∷ m) ++ codes "...}") ≡ m ++ dots
unfolding inner_part
inner_part-dots c m =
    rw (← append_assoc m dots (b'}' ∷ [])) (rw (inner_part, split_last-append (m ++ dots) b'}'))

has_suffix-append : (m t : Text) → has_suffix (m ++ t) t ≡ true
unfolding has_suffix
has_suffix-append m t = rw (has_suffix, strip_suffix-append m t)

-- A segment `c m...}`, which is no `{$}`.
text_eq-dots : (c : ℕ) (m : Text) → text_eq ((c ∷ m) ++ codes "...}") (codes "{$}") ≡ false
text_eq-dots c m = elim (Bool-cases (text_eq ((c ∷ m) ++ codes "...}") (codes "{$}"))) [
  | inr e ↦ e
  | inl e ↦ absurd (
      omega (
        arith,
        ap (length {0}) ((text_eq_iff ((c ∷ m) ++ codes "...}") (codes "{$}")).0 e),
        length-append m (codes "...}"),
      ))
]

pub normalize_segment_dots :
    (c : ℕ) (m : Text)
    → normalize_segment ((c ∷ m) ++ codes "...}")
      ≡ (if c == b'{' then some (in_braces m) else some ((c ∷ m) ++ codes "...}"))
unfolding normalize_segment
normalize_segment_dots c m =
    let long : leb 2 (length ((c ∷ m) ++ codes "...}")) ≡ true =
      ground (arith, length-append m (codes "...}")) in
    elim (Bool-cases (c == b'{')) [
      | inr e ↦ rw (e, normalize_segment, text_eq-dots c m, long)
      | inl e ↦
          rw
            (e, normalize_segment, text_eq-dots c m, long, has_suffix-append (c ∷ m) (codes "...}"))
            (ap (λ t. some (b'{' ∷ (t ++ (b'}' ∷ []))))
              (ap (λ t. trim_suffix t dots) (inner_part-dots c m) ∙ trim_suffix-append m dots))
    ]

-- A segment with no dots in front of its closing brace.
pub normalize_segment_plain :
    (seg : Text)
    → strip_suffix seg (codes "...}") ≡ none
    → normalize_segment seg ≡ (if text_eq seg (codes "{$}") then none else some seg)
unfolding normalize_segment has_suffix
normalize_segment_plain seg e = rw (normalize_segment, has_suffix, e) (ground arith)

in_braces-dots : (m : Text) → in_braces (m ++ dots) ≡ (b'{' ∷ m) ++ codes "...}"
in_braces-dots m = ap (λ t. b'{' ∷ t) (append_assoc m dots (b'}' ∷ []))

module _ (name : Text) (nonempty : name ≢ []) (no_dollar : name ≢ codes "$") where
  dotted_iff :
      (m : Text)
      → ◌↔◌
          (◌≡◌ {A = Option Text} (some (in_braces m)) (some (in_braces name)))
          (DeclaresParam name (in_braces (m ++ dots)))
  dotted_iff m = (
    λ h.
        let e : m ≡ name = in_braces-injective m name (some-injective _ _ h) in
        (nonempty, no_dollar, inl (ap (λ t. in_braces (t ++ dots)) e)),
    λ (_, _, d). elim d [
      | inl s ↦
          ap (λ t. some (in_braces t))
            (append-injective m name dots (in_braces-injective (m ++ dots) (name ++ dots) s))
      | inr (s, bare) ↦
          let found : strip_suffix name dots ≡ some m =
            rw (← in_braces-injective (m ++ dots) name s) (strip_suffix-append m dots) in
          cc
    ],
  )

  suffixed_iff :
      (q : Text)
      → (normalize_segment (q ++ codes "...}") ≡ some (in_braces name))
        ↔ DeclaresParam name (q ++ codes "...}")
  unfolding normalize_segment
  suffixed_iff [] = ground arith
  suffixed_iff (c ∷ m) = elim (Bool-cases (c == b'{')) [
    | inl e ↦
        rw ((==_iff c b'{').0 e, normalize_segment_dots b'{' m, ← in_braces-dots m) (dotted_iff m)
    | inr e ↦
        rw (normalize_segment_dots c m, e)
          (
            λ h. absurd (ground arith),
            λ (_, _, d). absurd (elim d [ inl s ↦ ground arith | inr (s, _) ↦ ground arith ]),
          )
  ]

  no_dots :
      (seg : Text)
      → strip_suffix seg (codes "...}") ≡ none
      → seg ≡ in_braces name
      → strip_suffix name dots ≡ none
  no_dots seg bare e = elim (Option-cases (strip_suffix name dots)) [
    | inl h ↦ h
    | inr (q, h) ↦
        let whole : seg ≡ (b'{' ∷ q) ++ codes "...}" =
          e ∙ (ap in_braces ((strip_suffix_iff name dots q).0 h) ∙ in_braces-dots q) in
        let found : strip_suffix seg (codes "...}") ≡ some (b'{' ∷ q) =
          (strip_suffix_iff seg (codes "...}") (b'{' ∷ q)).1 whole in
        cc
  ]

  plain_iff :
      (seg : Text)
      → strip_suffix seg (codes "...}") ≡ none
      → (normalize_segment seg ≡ some (in_braces name)) ↔ DeclaresParam name seg
  plain_iff seg bare = rw (normalize_segment_plain seg bare) (
    λ h. elim (Bool-cases (text_eq seg (codes "{$}"))) [
      | inl exact ↦ let bad = rw exact at h in cc
      | inr other ↦
          let e : seg ≡ in_braces name = some-injective _ _ (rw other at h) in
          (nonempty, no_dollar, inr (e, no_dots seg bare e))
    ],
    λ (_, _, d). elim d [
      | inl s ↦
          let found : strip_suffix seg (codes "...}") ≡ some (b'{' ∷ name) =
            (strip_suffix_iff seg (codes "...}") (b'{' ∷ name)).1 (s ∙ in_braces-dots name) in
          cc
      | inr (s, _) ↦ elim (Bool-cases (text_eq seg (codes "{$}"))) [
        | inl exact ↦ absurd (
            no_dollar (
              in_braces-injective name (codes "$")
                (sym s ∙ (text_eq_iff seg (codes "{$}")).0 exact)))
        | inr other ↦ rw other (ap some s)
      ]
    ],
  )

  pub normalize_segment_iff :
      (seg : Text) → (normalize_segment seg ≡ some (in_braces name)) ↔ DeclaresParam name seg
  normalize_segment_iff seg = elim (Option-cases (strip_suffix seg (codes "...}"))) [
    | inl bare ↦ plain_iff seg bare
    | inr (q, e) ↦ rw ((strip_suffix_iff seg (codes "...}") q).0 e) (suffixed_iff q)
  ]
