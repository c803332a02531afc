-- ===== src/Bind/Enums/Documented.antt =====
-- bind/typed.go: the names that an enum is documented with, and what they are parsed to.
use grpc_composition.Common.{
  ◌≡◌, sym, ap, ◌≢◌, inl, inr, List, [], ◌∷◌, map, some, Text, text_eq, text_eq_iff, text_eq_refl,
  ok, Bool-cases, All, Any,
}
use grpc_composition.Host.{Host}
use grpc_composition.Bind.Enums.{EnumValue, EnumDescriptor, enum_value_names, lookup_enum}
use grpc_composition.Bind.Enums.Lookup.{IsLawful, find}

-- No two values have one name, which protobuf does not allow.
abbrev pub IsUnnamed : Text → List EnumValue → Type 0
IsUnnamed s vs = All (λ (v : EnumValue). v.name ≢ s) vs

abbrev pub HasOwnNames : List EnumValue → Type 0
HasOwnNames [] = Unit
HasOwnNames (v ∷ vs) = IsUnnamed v.name vs × HasOwnNames vs

other_name :
    (s : Text) (vs : List EnumValue) (v : EnumValue)
    → IsUnnamed s vs
    → Any (λ u. u ≡ v) vs
    → v.name ≢ s
other_name s [] v apart there = absurd there
other_name s (w ∷ vs) v apart (inl e) = rw e at apart.0
other_name s (w ∷ vs) v apart (inr h) = other_name s vs v apart.1 h

find-name :
    (vs : List EnumValue) (v : EnumValue)
    → HasOwnNames vs
    → Any (λ u. u ≡ v) vs
    → find (λ u. text_eq u.name v.name) vs ≡ some v
find-name [] v own there = absurd there
find-name (w ∷ vs) v own (inl e) = rw (e, text_eq_refl)
find-name (w ∷ vs) v own (inr h) = elim (Bool-cases (text_eq w.name v.name)) [
  | inl e ↦ absurd (other_name w.name vs v own.0 h (sym ((text_eq_iff w.name v.name).0 e)))
  | inr e ↦ rw e (find-name vs v own.1 h)
]

Any-names :
    (vs : List EnumValue) (v : EnumValue)
    → Any (λ u. u ≡ v) vs
    → Any (λ s. s ≡ v.name) (map (λ u. u.name) vs)
Any-names [] v there = absurd there
Any-names (w ∷ vs) v (inl e) = inl (ap (λ (u : EnumValue). u.name) e)
Any-names (w ∷ vs) v (inr h) = inr (Any-names vs v h)

module _ (H : Host) where
  -- Each value of an enum whose values have different names, and whose lookups are as documented, has
  -- its name among those that the documentation lists, and `lookupEnum` turns this name back into
  -- the number of the value.
  pub lookup_enum-name :
      (d : EnumDescriptor) (v : EnumValue)
      → IsLawful d
      → HasOwnNames d.values
      → Any (λ u. u ≡ v) d.values
      → Any (λ s. s ≡ v.name) (enum_value_names d) × (lookup_enum H d v.name ≡ ok v.number)
  unfolding enum_value_names lookup_enum
  lookup_enum-name d v lawful own there = (
    Any-names d.values v there,
    rw (lookup_enum, lawful.by_name_lem, find-name d.values v own there),
  )
