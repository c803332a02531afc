-- ===== src/Std/Http/Body.antt =====
-- A request body as a reader, io.ReadAll and io.LimitReader.
use grpc_composition.Common.{
  ℕ, zero, suc, ◌≡◌, refl, ◌≤◌, List, [], ◌∷◌, Option, none, some, arith, Text, leb, length,
  if◌then◌else◌, Result, ok, err,
}
use grpc_composition.Std.Strconv.{ℤ, pos, negsuc}
use grpc_composition.Std.Errors.{Error}

-- The bytes that reads still deliver, and then either the end of the input or a failure.
pub record Reader (Foreign : Type 0) : Type 0 where
  pub content : Text
  pub failure : Option (Error Foreign)

abbrev pub take {ℓ} : {A : Type ℓ} → ℕ → List A → List A
take zero xs = []
take (suc n) [] = []
take (suc n) (x ∷ xs) = x ∷ take n xs

abbrev pub drop {ℓ} : {A : Type ℓ} → ℕ → List A → List A
drop zero xs = xs
drop (suc n) [] = []
drop (suc n) (x ∷ xs) = drop n xs

module _ {Foreign : Type 0} where
  -- `io.ReadAll(r)`.
  unfoldable pub read_all : Reader Foreign → Result (Error Foreign) Text
  read_all r = elim r.failure [ none ↦ ok r.content | some e ↦ err e ]

  -- `io.LimitReader(r, n)` delivers at most `n` bytes and does not read on for a failure behind
  -- them; it is at its end at once where `n` is not positive.
  unfoldable pub limit_reader : Reader Foreign → ℤ → Reader Foreign
  limit_reader r (pos n) =
      if leb n (length r.content) then record { content = take n r.content; failure = none } else r
  limit_reader r (negsuc n) = record { content = []; failure = none }

pub length-take {ℓ} : {A : Type ℓ} (n : ℕ) (xs : List A) → n ≤ length xs → length (take n xs) ≡ n
length-take zero xs h = refl
length-take (suc n) [] h = absurd (omega arith)
length-take (suc n) (x ∷ xs) h = omega (arith, length-take n xs (omega arith))
