-- ===== src/Route/Settings.antt =====
-- The setters of the package: what a sequence of calls of them puts in force.
use grpc_composition.Common.{
  ◌≡◌, refl, sym, ap, ◌∙◌, inl, inr, List, [], ◌∷◌, Option, none, some, Option-cases, last_some,
  or_else,
}
use grpc_composition.Std.Strconv.{ℤ}
use grpc_composition.Host.{Host, ErrorMapper}
use grpc_composition.Errors.{rfc7807_mapper}
use grpc_composition.Globals.{
  Globals, PathExtractor, set_default_path_extractor, set_default_marshal_options,
  set_default_error_mapper, set_default_max_body_bytes,
}

-- A call of a setter of the package.
pub data Setting (H : Host) : Type 0 where
  sets_path_extractor : Option (PathExtractor H) → Setting H
  sets_marshal_options : H.MarshalOptions → Setting H
  sets_error_mapper : Option (ErrorMapper H) → Setting H
  sets_max_body_bytes : ℤ → Setting H

-- A later value in force hides an earlier one.
pub or_else-last_some {ℓ κ} :
    {A : Type ℓ} {B : Type κ} (f : A → Option B) (x : A) (xs : List A) (b : B)
    → or_else (last_some f (x ∷ xs)) b ≡ or_else (last_some f xs) (or_else (f x) b)
or_else-last_some f x xs b = elim (Option-cases (last_some f xs)) [
  | inl e ↦ rw e refl
  | inr (c, e) ↦ rw e refl
]

module _ (H : Host) where
  -- The setters, called in their order.
  abbrev pub apply_setting : Setting H → Globals H → Globals H
  apply_setting (sets_path_extractor e) g = set_default_path_extractor H e g
  apply_setting (sets_marshal_options o) g = set_default_marshal_options H o g
  apply_setting (sets_error_mapper fn) g = set_default_error_mapper H fn g
  apply_setting (sets_max_body_bytes n) g = set_default_max_body_bytes H n g

  abbrev pub apply_settings : List (Setting H) → Globals H → Globals H
  apply_settings [] g = g
  apply_settings (x ∷ xs) g = apply_settings xs (apply_setting x g)

  -- What one setter puts in force, if it is about it; nil stands for the built-in mapper.
  abbrev pub marshal_setting : Setting H → Option H.MarshalOptions
  marshal_setting (sets_marshal_options o) = some o
  marshal_setting _ = none

  abbrev pub mapper_setting : Setting H → Option (ErrorMapper H)
  mapper_setting (sets_error_mapper fn) = some (or_else fn (rfc7807_mapper H))
  mapper_setting _ = none

  pub record Sets (xs : List (Setting H)) (g g' : Globals H) : Type 0 where
    pub marshal_lem : g'.marshal ≡ or_else (last_some marshal_setting xs) g.marshal
    pub mapper_lem : g'.error_mapper ≡ or_else (last_some mapper_setting xs) g.error_mapper

  apply_setting-Sets : (x : Setting H) (g : Globals H) → Sets (x ∷ []) g (apply_setting x g)
  unfolding set_default_path_extractor set_default_marshal_options set_default_error_mapper
      set_default_max_body_bytes
  apply_setting-Sets (sets_path_extractor none) g = record { marshal_lem = refl; mapper_lem = refl }
  apply_setting-Sets (sets_path_extractor (some e)) g = record {
    marshal_lem = refl;
    mapper_lem = refl;
  }
  apply_setting-Sets (sets_marshal_options o) g = record { marshal_lem = refl; mapper_lem = refl }
  apply_setting-Sets (sets_error_mapper none) g = record { marshal_lem = refl; mapper_lem = refl }
  apply_setting-Sets (sets_error_mapper (some fn)) g = record {
    marshal_lem = refl;
    mapper_lem = refl;
  }
  apply_setting-Sets (sets_max_body_bytes n) g = record { marshal_lem = refl; mapper_lem = refl }

  pub apply_settings-Sets :
      (xs : List (Setting H)) (g : Globals H) → Sets xs g (apply_settings xs g)
  apply_settings-Sets [] g = record { marshal_lem = refl; mapper_lem = refl }
  apply_settings-Sets (x ∷ xs) g =
      let one = apply_setting-Sets x g in
      let rest = apply_settings-Sets xs (apply_setting x g) in
      record {
        marshal_lem =
            rest.marshal_lem
            ∙ (ap (or_else (last_some marshal_setting xs)) one.marshal_lem
                ∙ sym (or_else-last_some marshal_setting x xs g.marshal));
        mapper_lem =
            rest.mapper_lem
            ∙ (ap (or_else (last_some mapper_setting xs)) one.mapper_lem
                ∙ sym (or_else-last_some mapper_setting x xs g.error_mapper));
      }
