-- ===== src/Std/Strconv/ParseInt.antt =====
-- `ParseInt` against the integer that a text denotes.
use grpc_composition.Common.{
  ℕ, zero, suc, ◌+◌, ◌-◌, ◌*◌, ◌^◌, ◌≤◌, ◌<◌, ◌≡◌, ◌↔◌, inl, inr, Bool, true, false, ◌&&◌, [], ◌∷◌,
  Option, none, some, arith, Text, ◌==◌, leb, ltb, if◌then◌else◌, ok, ◌>>=◌, Result-cases,
  Option-cases, Bool-cases,
}
use mathlib.Core.Option
use grpc_composition.Std.Strconv.{
  ℤ, pos, negsuc, negate, scan, parse_uint, apply_sign, split_sign, parse_int, to_int32,
}

-- The number that decimal digits denote behind digits worth `acc`, of any size.
abbrev pub decimal_from : ℕ → Text → Option ℕ
decimal_from acc [] = some acc
decimal_from acc (c ∷ s) =
    let rest = decimal_from (acc * 10 + (c - b'0')) s in
    if leb b'0' c && leb c b'9' then rest else none

-- One decimal digit at least.
abbrev decimal_value : Text → Option ℕ
decimal_value [] = none
decimal_value (c ∷ s) = decimal_from 0 (c ∷ s)

-- The integer that a text denotes: an optional sign and decimal digits.
abbrev pub integer_value : Text → Option ℤ
integer_value [] = none
integer_value (c ∷ s) =
    if c == b'+'
    then Option.map pos (decimal_value s)
    else if c == b'-'
    then Option.map negate (decimal_value s)
    else Option.map pos (decimal_value (c ∷ s))

-- The integers of two's complement below the cutoff 2^(bits-1).
abbrev pub IsBelow : ℕ → ℤ → Type 0
IsBelow cutoff (pos n) = n < cutoff
IsBelow cutoff (negsuc n) = n < cutoff

decimal_from-le : (acc : ℕ) (s : Text) (n : ℕ) → decimal_from acc s ≡ some n → acc ≤ n
decimal_from-le acc [] n h = ground arith
decimal_from-le acc (c ∷ s) n h = ground (arith, decimal_from-le (acc * 10 + (c - b'0')) s n)

scan_iff :
    (max_val acc : ℕ) (s : Text) (n : ℕ)
    → acc ≤ max_val
    → (scan max_val acc s ≡ ok n) ↔ ((decimal_from acc s ≡ some n) × (n ≤ max_val))
unfolding scan
scan_iff max_val acc [] n low = ground arith
scan_iff max_val acc (c ∷ s) n low =
    let v = acc * 10 + (c - b'0') in
    elim (Bool-cases (ltb max_val v)) [
      | inl above ↦ ground (arith, decimal_from-le v s n)
      | inr within ↦ ground (arith, scan_iff max_val v s n)
    ]

parse_uint_iff :
    (max_val : ℕ) (s : Text) (n : ℕ)
    → (parse_uint max_val s ≡ ok n) ↔ ((decimal_value s ≡ some n) × (n ≤ max_val))
unfolding parse_uint
parse_uint_iff max_val [] n = ground arith
parse_uint_iff max_val (c ∷ s) n = scan_iff max_val 0 (c ∷ s) n (omega arith)

-- What remains of `ParseInt` once the digits denote `n`.
positive_sign :
    (cutoff n : ℕ) (z : ℤ)
    → (apply_sign false cutoff n ≡ ok z)
      ↔ ((◌≡◌ {A = Option ℤ} (some (pos n)) (some z)) × IsBelow cutoff z)
unfolding apply_sign
positive_sign cutoff n z = ground arith

negative_sign :
    (cutoff n : ℕ) (z : ℤ)
    → 0 < cutoff
    → (apply_sign true cutoff n ≡ ok z)
      ↔ ((◌≡◌ {A = Option ℤ} (some (negate n)) (some z)) × IsBelow cutoff z)
unfolding apply_sign
negative_sign cutoff zero z h = ground arith
negative_sign cutoff (suc n) z h = ground arith

-- Both signs at once: `sign` is how the digits become an integer.
module _ (cutoff max_val : ℕ) (neg : Bool) (sign : ℕ → ℤ)
    (one : (n : ℕ) (z : ℤ)
      → (apply_sign neg cutoff n ≡ ok z)
        ↔ ((◌≡◌ {A = Option ℤ} (some (sign n)) (some z)) × IsBelow cutoff z))
    (big : (n : ℕ) (z : ℤ) → max_val < n → sign n ≡ z → ¬ IsBelow cutoff z) (s : Text) (z : ℤ) where
  sign_iff :
      ((parse_uint max_val s >>= apply_sign neg cutoff) ≡ ok z)
      ↔ ((Option.map sign (decimal_value s) ≡ some z) × IsBelow cutoff z)
  sign_iff = elim (Result-cases (parse_uint max_val s)) [
    | inl (n, read) ↦ rw (read, ((parse_uint_iff max_val s n).0 read).0) (one n z)
    | inr (f, fails) ↦ elim (Option-cases (decimal_value s)) [
      | inl absent ↦ rw (fails, absent) (ground arith)
      | inr (m, found) ↦
          rw (fails, found) (λ h. cc, λ h. ground (arith, parse_uint_iff max_val s m, big m z))
    ]
  ]

module _ (cutoff max_val : ℕ) (low : cutoff ≤ max_val) (pos_cutoff : 0 < cutoff) where
  big_negative : (n : ℕ) (z : ℤ) → max_val < n → negate n ≡ z → ¬ IsBelow cutoff z
  big_negative zero z h e = ground arith
  big_negative (suc n) z h e = ground arith

  big_positive : (n : ℕ) (z : ℤ) → max_val < n → pos n ≡ z → ¬ IsBelow cutoff z
  big_positive n z h e = ground arith

  -- Over both signs, with a greatest unsigned value that is not below the cutoff.
  signed_iff :
      (s : Text) (z : ℤ)
      → ((parse_uint max_val (split_sign s).1 >>= apply_sign (split_sign s).0 cutoff) ≡ ok z)
        ↔ ((integer_value s ≡ some z) × IsBelow cutoff z)
  unfolding split_sign parse_uint
  signed_iff [] z = ground arith
  signed_iff (c ∷ s) z = elim (Bool-cases (c == b'+')) [
    | inl plus ↦
        rw (plus, split_sign)
          (sign_iff cutoff max_val false pos (positive_sign cutoff) big_positive s z)
    | inr rest ↦ elim (Bool-cases (c == b'-')) [
      | inl minus ↦
          rw (rest, minus, split_sign)
            (sign_iff cutoff max_val true negate (λ n y. negative_sign cutoff n y pos_cutoff)
              big_negative s z)
      | inr digits ↦
          rw (rest, digits, split_sign)
            (sign_iff cutoff max_val false pos (positive_sign cutoff) big_positive (c ∷ s) z)
    ]
  ]

-- At each of the two widths that the program uses, `ParseInt` accepts exactly the texts that denote
-- an integer of that width, and returns this integer.
pub parse_int_iff :
    (s : Text) (z : ℤ)
    → ((parse_int 32 s ≡ ok z) ↔ ((integer_value s ≡ some z) × IsBelow (2 ^ 31) z))
      × ((parse_int 64 s ≡ ok z) ↔ ((integer_value s ≡ some z) × IsBelow (2 ^ 63) z))
unfolding parse_int
parse_int_iff s z = (
  signed_iff (2 ^ 31) (2 ^ 32 - 1) (omega arith) (omega arith) s z,
  signed_iff (2 ^ 63) (2 ^ 64 - 1) (omega arith) (omega arith) s z,
)

-- The conversion of an integer that an `int32` holds changes nothing.
pub to_int32_of_IsBelow : (z : ℤ) → IsBelow (2 ^ 31) z → to_int32 z ≡ z
unfolding to_int32
to_int32_of_IsBelow (pos n) h = ground arith
to_int32_of_IsBelow (negsuc n) h = ground arith
