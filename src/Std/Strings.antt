-- ===== src/Std/Strings.antt =====
-- Package strings: ToLower, Split, HasSuffix and TrimSuffix.
use grpc_composition.Common.{
  ℕ, ◌+◌, ◌≡◌, refl, ◌↔◌, ap, Bool, true, false, ◌&&◌, List, [], ◌∷◌, ◌++◌, map, Option, none, some,
  arith, Text, ◌==◌, leb, if◌then◌else◌, text_eq, text_eq_iff, inl, inr, Bool-cases, length, ◌≢◌,
  Option-cases, text_eq_refl, length-append,
}
use mathlib.Core.Option

-- One byte of `strings.ToLower`, on ASCII.
unfoldable pub lower_byte : ℕ → ℕ
lower_byte c = if leb b'A' c && leb c b'Z' then c + 32 else c

-- `strings.ToLower(s)` on ASCII.
unfoldable pub to_lower : Text → Text
unfolding lower_byte
to_lower = map lower_byte

abbrev pub cons_head : ℕ → List Text → List Text
cons_head c [] = (c ∷ []) ∷ []
cons_head c (p ∷ ps) = (c ∷ p) ∷ ps

-- `strings.Split(s, sep)` for a separator of one byte.
unfoldable pub split : Text → ℕ → List Text
split [] sep = [] ∷ []
split (c ∷ s) sep = let rest = split s sep in if c == sep then [] ∷ rest else cons_head c rest

-- The first result of `strings.Cut(s, sep)` for a separator of one byte: the part before it, or all.
unfoldable pub cut_before : Text → ℕ → Text
cut_before [] sep = []
cut_before (c ∷ s) sep = if c == sep then [] else c ∷ cut_before s sep

-- `strings.Join(parts, sep)` for a separator of one byte.
unfoldable pub join : List Text → ℕ → Text
join [] sep = []
join (p ∷ []) sep = p
join (p ∷ q ∷ ps) sep = p ++ (sep ∷ join (q ∷ ps) sep)

-- What is left of `s` in front of the suffix `t`, if it has that suffix.
unfoldable pub strip_suffix : Text → Text → Option Text
strip_suffix [] t = if text_eq [] t then some [] else none
strip_suffix (c ∷ s) t =
    let rest = strip_suffix s t in
    if text_eq (c ∷ s) t then some [] else Option.map (λ p. c ∷ p) rest

abbrev pub is_some {ℓ} : {A : Type ℓ} → Option A → Bool
is_some none = false
is_some (some _) = true

unfoldable pub has_suffix : Text → Text → Bool
unfolding strip_suffix
has_suffix s t = is_some (strip_suffix s t)

abbrev or_whole : Text → Option Text → Text
or_whole s none = s
or_whole s (some p) = p

unfoldable pub trim_suffix : Text → Text → Text
unfolding strip_suffix
trim_suffix s t = or_whole s (strip_suffix s t)

-- The last byte, with what stands in front of it.
unfoldable pub split_last : Text → Option (Text × ℕ)
split_last [] = none
split_last (c ∷ s) = elim (split_last s) [ none ↦ some ([], c) | some (p, z) ↦ some (c ∷ p, z) ]

pub split_last-append : (p : Text) (z : ℕ) → split_last (p ++ (z ∷ [])) ≡ some (p, z)
unfolding split_last
split_last-append [] z = refl
split_last-append (c ∷ p) z = rw (split_last-append p z)

pub split_last-cons : (c : ℕ) (s : Text) → split_last (c ∷ s) ≢ none
unfolding split_last
split_last-cons c s = ground arith

pub append_of_split_last : (s p : Text) (z : ℕ) → split_last s ≡ some (p, z) → s ≡ p ++ (z ∷ [])
unfolding split_last
append_of_split_last [] p z h = cc
append_of_split_last (c ∷ s) p z h = elim (Option-cases (split_last s)) [
  | inl e ↦ ground arith
  | inr (q, e) ↦ ground (arith, append_of_split_last s q.0 q.1)
]

pub append_of_strip_suffix : (s t p : Text) → strip_suffix s t ≡ some p → s ≡ p ++ t
unfolding strip_suffix
append_of_strip_suffix [] t p h = ground (arith, text_eq_iff [] t)
append_of_strip_suffix (c ∷ s) t p h = elim (Option-cases (strip_suffix s t)) [
  | inl e ↦ ground (arith, text_eq_iff (c ∷ s) t)
  | inr (q, e) ↦ ground (arith, text_eq_iff (c ∷ s) t, append_of_strip_suffix s t q)
]

longer_ne : (c : ℕ) (p t : Text) → text_eq (c ∷ (p ++ t)) t ≡ false
longer_ne c p t = elim (Bool-cases (text_eq (c ∷ (p ++ t)) t)) [
  | inl e ↦
      absurd
        (omega (arith, ap (length {0}) ((text_eq_iff (c ∷ (p ++ t)) t).0 e), length-append p t))
  | inr e ↦ e
]

pub strip_suffix-append : (p t : Text) → strip_suffix (p ++ t) t ≡ some p
unfolding strip_suffix
strip_suffix-append [] [] = rw (text_eq_refl [])
strip_suffix-append [] (c ∷ t) = rw (text_eq_refl (c ∷ t))
strip_suffix-append (c ∷ p) t = rw (longer_ne c p t, strip_suffix-append p t)

pub strip_suffix_iff : (s t p : Text) → (strip_suffix s t ≡ some p) ↔ (s ≡ p ++ t)
strip_suffix_iff s t p = (append_of_strip_suffix s t p, λ e. rw e (strip_suffix-append p t))

pub split_last_iff : (s p : Text) (z : ℕ) → (split_last s ≡ some (p, z)) ↔ (s ≡ p ++ (z ∷ []))
split_last_iff s p z = (append_of_split_last s p z, λ e. rw e (split_last-append p z))
