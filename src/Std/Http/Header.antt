-- ===== src/Std/Http/Header.antt =====
-- http.Header: a map from canonical names to values.
use grpc_composition.Common.{
  ℕ, ◌+◌, ◌-◌, ◌≡◌, refl, Bool, true, false, ◌&&◌, ◌||◌, List, [], ◌∷◌, Option, none, some, arith,
  Text, codes, ◌==◌, leb, if◌then◌else◌, lookup, not, ap,
}
use grpc_composition.Std.Strings.{to_lower, lower_byte}

abbrev pub HeaderMap : Type 0
HeaderMap = List (Text × List Text)

abbrev is_upper : ℕ → Bool
is_upper c = leb b'A' c && leb c b'Z'

abbrev is_lower : ℕ → Bool
is_lower c = leb b'a' c && leb c b'z'

contains : Text → ℕ → Bool
contains [] c = false
contains (d ∷ ds) c = c == d || contains ds c

-- `validHeaderFieldByte`: the bytes of a token.
valid_byte : ℕ → Bool
unfolding contains
valid_byte c =
    is_upper c || is_lower c || (leb b'0' c && leb c b'9') || contains (codes "!#$%&'*+-.^_`|~") c

unfoldable pub all_valid : Text → Bool
unfolding valid_byte
all_valid [] = true
all_valid (c ∷ s) = valid_byte c && all_valid s

-- One byte of the loop: upper case at the start and behind a dash, lower case elsewhere.
canonical_byte : Bool → ℕ → ℕ
canonical_byte upper c =
    if upper && is_lower c then c - 32 else if not upper && is_upper c then c + 32 else c

canonical_from : Bool → Text → Text
canonical_from upper [] = []
canonical_from upper (c ∷ s) = let d = canonical_byte upper c in d ∷ canonical_from (d == b'-') s

-- `CanonicalHeaderKey(s)`: a name with a byte that no token has is left as it is.
unfoldable pub canonical_key : Text → Text
unfolding canonical_from canonical_byte all_valid
canonical_key s = if all_valid s then canonical_from true s else s

abbrev values_or_nil : Option (List Text) → List Text
values_or_nil none = []
values_or_nil (some vs) = vs

-- `h.Values(name)`.
unfoldable pub header_values : HeaderMap → Text → List Text
header_values h name = values_or_nil (lookup (canonical_key name) h)

abbrev first_or_empty : List Text → Text
first_or_empty [] = []
first_or_empty (v ∷ _) = v

-- `h.Get(name)`: the first value, or "".
unfoldable pub header_get : HeaderMap → Text → Text
unfolding header_values
header_get h name = first_or_empty (header_values h name)

valid_byte-lower : (c : ℕ) → valid_byte (lower_byte c) ≡ valid_byte c
unfolding valid_byte lower_byte
valid_byte-lower c = ground arith

canonical_byte-lower :
    (upper : Bool) (c : ℕ) → canonical_byte upper (lower_byte c) ≡ canonical_byte upper c
unfolding canonical_byte lower_byte
canonical_byte-lower upper c = ground arith

all_valid-lower : (s : Text) → all_valid (to_lower s) ≡ all_valid s
unfolding to_lower all_valid
all_valid-lower [] = refl
all_valid-lower (c ∷ s) = rw (valid_byte-lower c, all_valid-lower s)

canonical_from-lower :
    (upper : Bool) (s : Text) → canonical_from upper (to_lower s) ≡ canonical_from upper s
unfolding to_lower canonical_from
canonical_from-lower upper [] = refl
canonical_from-lower upper (c ∷ s) =
    rw (canonical_byte-lower upper c) (
      ap (λ t. canonical_byte upper c ∷ t)
        (canonical_from-lower (canonical_byte upper c == b'-') s))

-- Two spellings of a token that differ in case name the same header.
pub canonical_key-to_lower :
    (s : Text) → all_valid s ≡ true → canonical_key (to_lower s) ≡ canonical_key s
unfolding canonical_key
canonical_key-to_lower s valid = rw (all_valid-lower s, valid) (canonical_from-lower true s)

canonical_test : canonical_key (codes "x-request-ID") ≡ codes "X-Request-Id"
unfolding canonical_key
canonical_test = refl
