-- ===== src/Bind/Enums/Lookup.antt =====
-- What `lookupEnum` accepts.
use grpc_composition.Common.{
  ◌^◌, ◌≡◌, sym, ap, ◌∙◌, ◌↔◌, ◌⊎◌, inl, inr, Bool, true, false, List, [], ◌∷◌, Option, none, some,
  arith, Text, ◌==◌, if◌then◌else◌, text_eq, ok, Result-cases, ok-injective, Option-cases,
  Bool-cases,
}
use mathlib.Core.Path.{subst}
use mathlib.Core.Bool.{false≢true}
use mathlib.Core.Option.{some-injective}
use grpc_composition.Std.Strconv.{ℤ, pos, negsuc, atoi, parse_int, to_int32}
use grpc_composition.Std.Strconv.ParseInt.{
  integer_value, IsBelow, parse_int_iff, to_int32_of_IsBelow,
}
use grpc_composition.Host.{Host}
use grpc_composition.Bind.Enums.{EnumValue, EnumDescriptor, lookup_enum}

-- `a == b` on integers.
abbrev pub int_eq : ℤ → ℤ → Bool
int_eq (pos m) (pos n) = m == n
int_eq (pos m) (negsuc n) = false
int_eq (negsuc m) (pos n) = false
int_eq (negsuc m) (negsuc n) = m == n

eq_of_int_eq : (a b : ℤ) → int_eq a b ≡ true → a ≡ b
eq_of_int_eq (pos m) (pos n) h = ground arith
eq_of_int_eq (pos m) (negsuc n) h = cc
eq_of_int_eq (negsuc m) (pos n) h = cc
eq_of_int_eq (negsuc m) (negsuc n) h = ground arith

int_eq_refl : (a : ℤ) → int_eq a a ≡ true
int_eq_refl (pos m) = ground arith
int_eq_refl (negsuc m) = ground arith

-- The first value that passes a test.
abbrev pub find : (EnumValue → Bool) → List EnumValue → Option EnumValue
find test [] = none
find test (v ∷ vs) = if test v then some v else find test vs

-- What the documentation of `EnumValueDescriptors` says of its two lookups: they return the value
-- of that name, and the first value of that number, or nil if the enum has none.
pub record IsLawful (d : EnumDescriptor) : Type 0 where
  pub by_name_lem : (s : Text) → d.by_name s ≡ find (λ v. text_eq v.name s) d.values
  pub by_number_lem : (n : ℤ) → d.by_number n ≡ find (λ v. int_eq v.number n) d.values

-- A value of the enum has this number.
abbrev pub Declares : List EnumValue → ℤ → Type 0
Declares [] n = ⊥
Declares (v ∷ vs) n = (v.number ≡ n) ⊎ Declares vs n

Declares-tail :
    (w : EnumValue) (vs : List EnumValue) (n : ℤ)
    → int_eq w.number n ≡ false
    → Declares (w ∷ vs) n
    → Declares vs n
Declares-tail w vs n miss (inl e) = absurd (false≢true (sym (rw e at miss) ∙ int_eq_refl n))
Declares-tail w vs n miss (inr h) = h

Declares-find :
    (test : EnumValue → Bool) (vs : List EnumValue) (v : EnumValue)
    → find test vs ≡ some v
    → Declares vs v.number
Declares-find test [] v h = cc
Declares-find test (w ∷ vs) v h = elim (Bool-cases (test w)) [
  | inl hit ↦ inl (ap (λ (u : EnumValue). u.number) (some-injective w v (rw hit at h)))
  | inr miss ↦ inr (Declares-find test vs v (rw miss at h))
]

number-find :
    (n : ℤ) (vs : List EnumValue) (v : EnumValue)
    → find (λ u. int_eq u.number n) vs ≡ some v
    → v.number ≡ n
number-find n [] v h = cc
number-find n (w ∷ vs) v h = elim (Bool-cases (int_eq w.number n)) [
  | inl hit ↦ rw (← some-injective w v (rw hit at h)) (eq_of_int_eq w.number n hit)
  | inr miss ↦ number-find n vs v (rw miss at h)
]

find_of_Declares :
    (n : ℤ) (vs : List EnumValue)
    → Declares vs n
    → (v : EnumValue) × (find (λ u. int_eq u.number n) vs ≡ some v)
find_of_Declares n [] h = absurd h
find_of_Declares n (w ∷ vs) h = elim (Bool-cases (int_eq w.number n)) [
  | inl hit ↦ (w, rw hit)
  | inr miss ↦
      let later = find_of_Declares n vs (Declares-tail w vs n miss h) in (later.0, rw miss later.1)
]

IsBelow-int64 : (z : ℤ) → IsBelow (2 ^ 31) z → IsBelow (2 ^ 63) z
IsBelow-int64 (pos n) h = omega arith
IsBelow-int64 (negsuc n) h = omega arith

module _ (H : Host) (d : EnumDescriptor) (law : IsLawful d) where
  -- Whatever the text, an accepted value is the number of a value of the enum, if the lookups of
  -- the descriptor do what their documentation says.
  pub Declares-lookup_enum : (raw : Text) (n : ℤ) → lookup_enum H d raw ≡ ok n → Declares d.values n
  unfolding lookup_enum
  Declares-lookup_enum raw n h = elim (Option-cases (d.by_name raw)) [
    | inr (v, named) ↦
        subst (Declares d.values) (ok-injective (rw (named, lookup_enum) at h))
          (Declares-find _ d.values v (sym (law.by_name_lem raw) ∙ named))
    | inl unnamed ↦ elim (Result-cases (atoi raw)) [
      | inr (e, fails) ↦ ground arith
      | inl (z, number) ↦ elim (Option-cases (d.by_number (to_int32 z))) [
        | inl missing ↦ ground arith
        | inr (v, found) ↦
            let e : v.number ≡ n = ground arith in
            subst (Declares d.values) e
              (Declares-find _ d.values v (sym (law.by_number_lem (to_int32 z)) ∙ found))
      ]
    ]
  ]

  -- A text that names no value and denotes an integer of 64 bits is looked up by that integer
  -- modulo 2^32: it is accepted as the value whose number is the wrapped one, if there is one,
  -- given that the lookups of the descriptor do what their documentation says.
  pub lookup_enum-wraps :
      (raw : Text) (z n : ℤ)
      → d.by_name raw ≡ none
      → integer_value raw ≡ some z
      → IsBelow (2 ^ 63) z
      → (lookup_enum H d raw ≡ ok n) ↔ ((to_int32 z ≡ n) × Declares d.values n)
  unfolding lookup_enum atoi
  lookup_enum-wraps raw z n unnamed denotes small =
      let read : parse_int 64 raw ≡ ok z = (parse_int_iff raw z).1.1 (denotes, small) in
      elim (Option-cases (d.by_number (to_int32 z))) [
        | inl missing ↦ (
          λ h. ground arith,
          λ (e, declared).
              ground (arith, law.by_number_lem n, (find_of_Declares n d.values declared).1),
        )
        | inr (v, found) ↦
            let same =
              number-find (to_int32 z) d.values v (sym (law.by_number_lem (to_int32 z)) ∙ found) in
            (
              λ h.
                  let e : v.number ≡ n = ground arith in
                  (
                    sym same ∙ e,
                    subst (Declares d.values) e
                        (Declares-find _ d.values v (sym (law.by_number_lem (to_int32 z)) ∙ found)),
                  ),
              λ (e, declared). ground arith,
            )
      ]

  -- A text that names no value and denotes an integer of 32 bits is accepted exactly if the enum
  -- has a value of this number, and the result is the number, if the lookups of the descriptor do
  -- what their documentation says.
  pub lookup_enum-int32 :
      (raw : Text) (z n : ℤ)
      → d.by_name raw ≡ none
      → integer_value raw ≡ some z
      → IsBelow (2 ^ 31) z
      → (lookup_enum H d raw ≡ ok n) ↔ ((z ≡ n) × Declares d.values n)
  lookup_enum-int32 raw z n unnamed denotes small =
      rw (to_int32_of_IsBelow z small) at
        (lookup_enum-wraps raw z n unnamed denotes (IsBelow-int64 z small))
