-- ===== src/Std/Strconv/Itoa.antt =====
-- `Itoa`, and that the text denotes the number.
use grpc_composition.Common.{
  ℕ, zero, suc, ◌+◌, ◌-◌, ◌*◌, ◌/◌, ◌%◌, ◌<◌, ◌≡◌, refl, sym, ap, ◌∙◌, inl, inr, true, [], ◌∷◌,
  some, arith, Text, codes, leb, ltb, if◌then◌else◌, Bool-cases,
}
use mathlib.Core.Option.{some-injective}
use grpc_composition.Std.Strconv.ParseInt.{decimal_from}

-- The decimal digits of a number in front of a text, on fuel above the number.
digits_onto : ℕ → ℕ → Text → Text
digits_onto zero n s = s
digits_onto (suc fuel) n s =
    let more = digits_onto fuel (n / 10) ((b'0' + n % 10) ∷ s) in
    if ltb n 10 then (b'0' + n) ∷ s else more

-- `Itoa(n)` for n ≥ 0.
unfoldable pub itoa : ℕ → Text
unfolding digits_onto
itoa n = digits_onto (suc n) n []

decimal_from-cons :
    (acc d : ℕ) (s : Text)
    → d < 10
    → decimal_from acc ((b'0' + d) ∷ s) ≡ decimal_from (acc * 10 + d) s
decimal_from-cons acc d s h =
    let low : leb b'0' (b'0' + d) ≡ true = ground arith in
    let high : leb (b'0' + d) b'9' ≡ true = ground arith in
    let digit : b'0' + d - b'0' ≡ d = omega arith in rw (low, high, digit)

decimal_from-digits_onto :
    (fuel n : ℕ) (s : Text) → n < fuel → decimal_from 0 (digits_onto fuel n s) ≡ decimal_from n s
unfolding digits_onto
decimal_from-digits_onto zero n s h = absurd (omega arith)
decimal_from-digits_onto (suc fuel) n s h = elim (Bool-cases (ltb n 10)) [
  | inl small ↦
      rw small (decimal_from-cons 0 n s (ground arith) ∙ ap (λ k. decimal_from k s) (omega arith))
  | inr large ↦ rw large (
      decimal_from-digits_onto fuel (n / 10) ((b'0' + n % 10) ∷ s) (ground arith)
      ∙ (decimal_from-cons (n / 10) (n % 10) s (omega arith)
          ∙ ap (λ k. decimal_from k s) (omega arith)))
]

pub decimal_from-itoa : (n : ℕ) → decimal_from 0 (itoa n) ≡ some n
unfolding itoa
decimal_from-itoa n = decimal_from-digits_onto (suc n) n [] (omega arith)

pub itoa-injective : (m n : ℕ) → itoa m ≡ itoa n → m ≡ n
itoa-injective m n e =
    some-injective m n (sym (decimal_from-itoa m) ∙ (ap (decimal_from 0) e ∙ decimal_from-itoa n))

itoa_test : itoa 404 ≡ codes "404"
unfolding itoa
itoa_test = refl
