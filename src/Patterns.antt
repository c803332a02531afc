-- ===== src/Patterns.antt =====
-- app.go: the parameters of a ServeMux pattern, and the check of path binders against them.
pub mod Params
use grpc_composition.Common.{
  ℕ, zero, suc, ◌+◌, ◌-◌, ◌*◌, ◌^◌, ◌%◌, ◌≤◌, ◌<◌, ◌≡◌, refl, sym, ap, ◌∙◌, ◌≢◌, ◌↔◌, ◌⊎◌, inl, inr,
  Bool, true, false, not, ◌&&◌, ◌||◌, List, [], ◌∷◌, ◌++◌, map, append-nil, append_assoc, Option,
  none, some, arith, Text, codes, ◌==◌, leb, ltb, if◌then◌else◌, text_eq, text_eq_iff, text_eq_refl,
  Result, ok, err, is_empty, ◌>>=◌, map_err, Result-cases, ok-injective, Option-cases, Bool-cases,
  length, length-append, lookup, insert, lookup-insert, NodupKeys, last_some, or_else, or_option,
  gather, cons_some,
}
use grpc_composition.Std.Strings.{split, trim_suffix, split_last}
use grpc_composition.Host.{Host}
use grpc_composition.Spec.{ParamSpec, in_path}
use grpc_composition.Globals.{Binder}

-- `seg[1:len(seg)-1]` where `len(seg) >= 2`, `seg[0] == '{'` and `seg[len(seg)-1] == '}'`.
unfoldable pub braced : Text → Option Text
unfolding split_last
braced [] = none
braced (c ∷ rest) =
    if c == b'{'
    then (elim (split_last rest) [
      | none ↦ none
      | some (mid, z) ↦ if z == b'}' then some mid else none
    ])
    else none

-- The name that one segment adds to the set, if any.
unfoldable pub segment_name : Text → Option Text
unfolding braced trim_suffix
segment_name seg = elim (braced seg) [
  | none ↦ none
  | some mid ↦
      let name = trim_suffix mid (codes "...") in
      if not (is_empty name) && not (text_eq name (codes "$")) then some name else none
]

-- The loop of `patternPathParams`; the set is a list of names.
add_names : List Text → List Text → List Text
add_names names [] = names
add_names names (seg ∷ segs) = add_names (names ++ cons_some (segment_name seg) []) segs

-- `patternPathParams`.
unfoldable pub pattern_path_params : Text → List Text
unfolding add_names segment_name split
pattern_path_params pattern_text = add_names [] (split pattern_text b'/')

-- `names[name]`.
unfoldable pub has_name : List Text → Text → Bool
has_name [] name = false
has_name (n ∷ names) name = text_eq n name || has_name names name

-- What makes a registration panic.
pub data Panic : Type 0 where
  unmatched_binder : Text → Panic
  mux_refuses : Panic

module _ (H : Host) where
  panic_text : Text → Text → Text → Text
  panic_text verb pattern_text name =
      codes "composition: route "
      ++ (H.quote (verb ++ (codes " " ++ pattern_text))
          ++ (codes ": path binder "
              ++ (H.quote name
                  ++ (codes " has no matching {" ++ (name ++ codes "} segment in the pattern")))))

  -- The check of one spec in the loop.
  spec_matches : List Text → ParamSpec → Bool
  spec_matches names spec = not (text_eq spec.location in_path) || has_name names spec.name

  -- The loop of `validatePathBinders`.
  validate_from :
      {Req : Type 0} → Text → Text → List Text → List (Binder H Req) → Result Panic (Unit {0})
  validate_from verb pattern_text names [] = ok tt
  validate_from verb pattern_text names (b ∷ bs) =
      let rest = validate_from verb pattern_text names bs in
      elim b.param_spec [
        | none ↦ rest
        | some spec ↦
            if spec_matches names spec
            then rest
            else err (unmatched_binder (panic_text verb pattern_text spec.name))
      ]

  -- `validatePathBinders`.
  unfoldable pub validate_path_binders :
      {Req : Type 0} → Text → Text → List (Binder H Req) → Result Panic (Unit {0})
  unfolding validate_from spec_matches panic_text pattern_path_params has_name
  validate_path_binders verb pattern_text binders =
      validate_from verb pattern_text (pattern_path_params pattern_text) binders
