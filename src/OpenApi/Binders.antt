-- ===== src/OpenApi/Binders.antt =====
-- Registered path binders and the OpenAPI path of their route.
use grpc_composition.Common.{◌≡◌, ◌≢◌, inl, inr, List, [], ◌∷◌, some, Text, codes, ok}
use grpc_composition.Common.{All, Any}
use grpc_composition.Std.Strings.{split}
use grpc_composition.Host.{Host}
use grpc_composition.Spec.{ParamSpec, in_path}
use grpc_composition.Globals.{Binder}
use grpc_composition.Patterns.{validate_path_binders}
use grpc_composition.Patterns.Params.{
  in_braces, DeclaresParam, IsMatched, pattern_path_params_iff, validate_path_binders_iff,
}
use grpc_composition.OpenApi.{normalize_path}
use grpc_composition.OpenApi.Templates.{normalize_path-params}

proper_name :
    (name : Text) (segs : List Text)
    → Any (DeclaresParam name) segs
    → (name ≢ []) × (name ≢ codes "$")
proper_name name [] h = absurd h
proper_name name (seg ∷ segs) (inl (nonempty, no_dollar, _)) = (nonempty, no_dollar)
proper_name name (seg ∷ segs) (inr h) = proper_name name segs h

module _ (H : Host) {Req : Type 0} where
  -- The path parameter that a binder documents, if any, stands in the OpenAPI path of the pattern.
  abbrev pub StandsInPath : Text → Binder H Req → Type 0
  StandsInPath pattern_text b =
      (spec : ParamSpec)
      → b.param_spec ≡ some spec
      → spec.location ≡ in_path
      → Any (λ seg. seg ≡ in_braces spec.name) (split (normalize_path pattern_text) b'/')

  stands_of_matched :
      (pattern_text : Text) (b : Binder H Req)
      → IsMatched H pattern_text b
      → StandsInPath pattern_text b
  stands_of_matched pattern_text b matched spec e local =
      let declared = matched spec e local in
      let proper = proper_name spec.name (split pattern_text b'/') declared in
      (normalize_path-params pattern_text spec.name proper.0 proper.1).1
        ((pattern_path_params_iff pattern_text spec.name).1 declared)

  all_stand :
      (pattern_text : Text) (bs : List (Binder H Req))
      → All (IsMatched H pattern_text) bs
      → All (StandsInPath pattern_text) bs
  all_stand pattern_text [] h = tt
  all_stand pattern_text (b ∷ bs) h =
      (stands_of_matched pattern_text b h.0, all_stand pattern_text bs h.1)

  -- Where a registration passes the check of its binders, every path parameter that one of them
  -- documents stands as a segment `{name}` in the OpenAPI path of the route.
  pub validate_path_binders-StandsInPath :
      (verb pattern_text : Text) (bs : List (Binder H Req))
      → validate_path_binders H verb pattern_text bs ≡ ok tt
      → All (StandsInPath pattern_text) bs
  validate_path_binders-StandsInPath verb pattern_text bs valid =
      all_stand pattern_text bs ((validate_path_binders_iff H verb pattern_text bs).0 valid)
