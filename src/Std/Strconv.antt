-- ===== src/Std/Strconv.antt =====
-- Package strconv: ParseInt in base 10 at a width, Atoi and ParseBool, and the conversion to
-- `int32`. An `int` has 64 bits.
pub mod ParseInt
pub mod Itoa
use grpc_composition.Common.{
  ℕ, zero, suc, ◌+◌, ◌-◌, ◌*◌, ◌^◌, ◌%◌, ◌≡◌, refl, Bool, true, false, ◌&&◌, ◌||◌, List, [], ◌∷◌,
  Text, codes, ◌==◌, leb, ltb, if◌then◌else◌, text_eq, Result, ok, err, is_empty, ◌>>=◌,
}

-- `negsuc n` is -(n + 1).
pub data ℤ : Type 0 where
  pos : ℕ → ℤ
  negsuc : ℕ → ℤ

abbrev pub negate : ℕ → ℤ
negate zero = pos 0
negate (suc n) = negsuc n

pub data NumError : Type 0 where
  syntax range : NumError

-- The loop of `ParseUint`. A value above the greatest one of the width is refused at once.
scan : (max_val acc : ℕ) → Text → Result NumError ℕ
scan max_val acc [] = ok acc
scan max_val acc (c ∷ s) =
    let v = acc * 10 + (c - b'0') in
    let rest = scan max_val v s in
    if leb b'0' c && leb c b'9' then (if ltb max_val v then err range else rest) else err syntax

-- `ParseUint(s, 10, bits)`, where `max_val` is 2^bits - 1.
parse_uint : ℕ → Text → Result NumError ℕ
unfolding scan
parse_uint max_val s = if is_empty s then err syntax else scan max_val 0 s

-- The end of `ParseInt`: the test against the cutoff 2^(bits-1).
apply_sign : Bool → ℕ → ℕ → Result NumError ℤ
apply_sign true cutoff un = if ltb cutoff un then err range else ok (negate un)
apply_sign false cutoff un = if leb cutoff un then err range else ok (pos un)

split_sign : Text → Bool × Text
split_sign [] = (false, [])
split_sign (c ∷ s) =
    if c == b'+' then (false, s) else if c == b'-' then (true, s) else (false, c ∷ s)

-- `ParseInt(s, 10, bits)`.
unfoldable pub parse_int : ℕ → Text → Result NumError ℤ
unfolding parse_uint apply_sign split_sign
parse_int bits s =
    let (neg, digits) = split_sign s in
    parse_uint (2 ^ bits - 1) digits >>= apply_sign neg (2 ^ (bits - 1))

-- `Atoi(s)`.
unfoldable pub atoi : Text → Result NumError ℤ
unfolding parse_int
atoi = parse_int 64

is_one_of : Text → List Text → Bool
is_one_of s [] = false
is_one_of s (t ∷ ts) = text_eq s t || is_one_of s ts

-- `ParseBool(s)`.
unfoldable pub parse_bool : Text → Result NumError Bool
unfolding is_one_of text_eq
parse_bool s =
    if is_one_of s
      (codes "1" ∷ codes "t" ∷ codes "T" ∷ codes "true" ∷ codes "TRUE" ∷ codes "True" ∷ [])
    then ok true
    else if is_one_of s
        (codes "0" ∷ codes "f" ∷ codes "F" ∷ codes "false" ∷ codes "FALSE" ∷ codes "False" ∷ [])
    then ok false
    else err syntax

-- `int32(z)`: the residue modulo 2^32, read with its sign.
unfoldable pub to_int32 : ℤ → ℤ
to_int32 z =
    let u : ℕ = elim z [ pos n ↦ n % 2 ^ 32 | negsuc n ↦ 2 ^ 32 - 1 - n % 2 ^ 32 ] in
    if ltb u (2 ^ 31) then pos u else negsuc (2 ^ 32 - 1 - u)

-- `z + 1` on `int64`.
unfoldable pub succ_int64 : ℤ → ℤ
succ_int64 (pos n) = if n + 1 == 2 ^ 63 then negsuc (2 ^ 63 - 1) else pos (n + 1)
succ_int64 (negsuc zero) = pos 0
succ_int64 (negsuc (suc n)) = negsuc n
