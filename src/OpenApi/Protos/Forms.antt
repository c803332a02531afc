-- ===== src/OpenApi/Protos/Forms.antt =====
-- The schemas of scalars and of well-known messages admit the forms that protojson gives them.
use grpc_composition.Common.{
  ◌≡◌, refl, inl, inr, Bool, true, false, List, [], ◌∷◌, map, Option, none, some, Text, codes,
  if◌then◌else◌, text_eq, Any,
}
use mathlib.Core.Bool.{false≢true}
use grpc_composition.Bind.Enums.{EnumValue}
use grpc_composition.OpenApi.Schema.{
  Schema, no_properties, typed, any_value, enum_schema, well_known_schema, absent, array_schema,
}
use grpc_composition.OpenApi.Components.{Schemas}
use grpc_composition.OpenApi.Json.{
  Json, Items, Members, no_items, item, no_members, member, null, boolean, integer, decimal, string,
  array, object, type_allows, EnumAllows, Admits, by_keywords, no_keyword, each, AdmitsEach, end,
  next, AdmitsMembers, not_object, all_members, AdmitsAll, end_of_members, next_member,
  unconstrained,
}
use grpc_composition.OpenApi.Protos.Protojson.{
  Form, has_form, documented_form, boolean_form, integer_form, number_form, string_form, array_form,
  object_form, any_form,
}

Any-map :
    (values : List EnumValue) (s : Text)
    → Any (λ (v : EnumValue). v.name ≡ s) values
    → Any (λ n. n ≡ s) (map (λ v. v.name) values)
Any-map [] s h = absurd h
Any-map (v ∷ vs) s (inl e) = inl e
Any-map (v ∷ vs) s (inr h) = inr (Any-map vs s h)

EnumAllows-names :
    (names : List Text) (s : Text) → Any (λ n. n ≡ s) names → EnumAllows names (string s)
EnumAllows-names [] s h = absurd h
EnumAllows-names (n ∷ names) s h = h

module _ (st : Schemas) where
  AdmitsAll-unconstrained : (ms : Members) → AdmitsAll st no_properties absent ms
  AdmitsAll-unconstrained no_members = end_of_members
  AdmitsAll-unconstrained (member k j ms) =
      next_member (unconstrained refl) (AdmitsAll-unconstrained ms)

  pub AdmitsMembers-unconstrained : (j : Json) → AdmitsMembers st no_properties absent j
  AdmitsMembers-unconstrained (object ms) = all_members (AdmitsAll-unconstrained ms)
  AdmitsMembers-unconstrained null = not_object refl
  AdmitsMembers-unconstrained (boolean _) = not_object refl
  AdmitsMembers-unconstrained (integer _) = not_object refl
  AdmitsMembers-unconstrained (decimal _) = not_object refl
  AdmitsMembers-unconstrained (string _) = not_object refl
  AdmitsMembers-unconstrained (array _) = not_object refl

  pub Admits-typed :
      (typ format : Text) (j : Json) → type_allows typ j ≡ true → Admits st (typed typ format) j
  Admits-typed typ format j h = by_keywords h tt no_keyword (AdmitsMembers-unconstrained j)

  pub Admits-any : (j : Json) → Admits st any_value j
  Admits-any null = Admits-typed [] [] null refl
  Admits-any (boolean b) = Admits-typed [] [] (boolean b) refl
  Admits-any (integer n) = Admits-typed [] [] (integer n) refl
  Admits-any (decimal n) = Admits-typed [] [] (decimal n) refl
  Admits-any (string s) = Admits-typed [] [] (string s) refl
  Admits-any (array js) = Admits-typed [] [] (array js) refl
  Admits-any (object ms) = Admits-typed [] [] (object ms) refl

  pub Admits-boolean :
      (format : Text) (j : Json)
      → has_form boolean_form j ≡ true
      → Admits st (typed (codes "boolean") format) j
  unfolding text_eq
  Admits-boolean format (boolean b) h = Admits-typed _ format (boolean b) refl
  Admits-boolean format _ h = absurd (false≢true h)

  pub Admits-integer :
      (format : Text) (j : Json)
      → has_form integer_form j ≡ true
      → Admits st (typed (codes "integer") format) j
  unfolding text_eq
  Admits-integer format (integer b) h = Admits-typed _ format (integer b) refl
  Admits-integer format _ h = absurd (false≢true h)

  pub Admits-number :
      (format : Text) (j : Json)
      → has_form number_form j ≡ true
      → Admits st (typed (codes "number") format) j
  unfolding text_eq
  Admits-number format (integer b) h = Admits-typed _ format (integer b) refl
  Admits-number format (decimal b) h = Admits-typed _ format (decimal b) refl
  Admits-number format _ h = absurd (false≢true h)

  pub Admits-string :
      (format : Text) (j : Json)
      → has_form string_form j ≡ true
      → Admits st (typed (codes "string") format) j
  unfolding text_eq
  Admits-string format (string b) h = Admits-typed _ format (string b) refl
  Admits-string format _ h = absurd (false≢true h)

  Admits-object :
      (j : Json) → has_form object_form j ≡ true → Admits st (typed (codes "object") []) j
  unfolding text_eq
  Admits-object (object ms) h = Admits-typed _ [] (object ms) refl
  Admits-object _ h = absurd (false≢true h)

  Admits-value : (j : Json) → has_form any_form j ≡ true → Admits st any_value j
  Admits-value j h = Admits-any j

  AdmitsEach-any : (js : Items) → AdmitsEach st any_value js
  AdmitsEach-any no_items = end
  AdmitsEach-any (item j js) = next (Admits-any j) (AdmitsEach-any js)

  Admits-array : (j : Json) → has_form array_form j ≡ true → Admits st (array_schema any_value) j
  unfolding text_eq
  Admits-array (array js) h =
      by_keywords refl tt (each (AdmitsEach-any js)) (AdmitsMembers-unconstrained (array js))
  Admits-array _ h = absurd (false≢true h)

  -- The names of the values of an enum.
  pub Admits-enum :
      (values : List EnumValue) (s : Text)
      → Any (λ (v : EnumValue). v.name ≡ s) values
      → Admits st (enum_schema (map (λ v. v.name) values)) (string s)
  unfolding text_eq
  Admits-enum values s there =
      by_keywords refl (EnumAllows-names (map (λ v. v.name) values) s (Any-map values s there))
        no_keyword (AdmitsMembers-unconstrained (string s))

  -- A schema for each message that has a form, which admits the values of this form.
  data Agree : Option Schema → Option Form → Type 0 where
    neither : Agree none none
    both :
        {s : Schema} {f : Form}
        → ((j : Json) → has_form f j ≡ true → Admits st s j)
        → Agree (some s) (some f)

  Agree-if :
      (b : Bool) (s s' : Option Schema) (f f' : Option Form)
      → Agree s f
      → Agree s' f'
      → Agree (if b then s else s') (if b then f else f')
  Agree-if true s s' f f' h k = h
  Agree-if false s s' f f' h k = k

  Agree-well_known : (name : Text) → Agree (well_known_schema name) (documented_form name)
  unfolding well_known_schema documented_form
  Agree-well_known name =
      search
        (
          Agree-if, neither, both, Admits-boolean, Admits-integer, Admits-number, Admits-string,
          Admits-object, Admits-array, Admits-value,
        )
        depth 40

  Agree-some :
      (s : Schema) (o : Option Form)
      → Agree (some s) o
      → (f : Form) × (o ≡ some f) × ((j : Json) → has_form f j ≡ true → Admits st s j)
  Agree-some s _ (both {f} h) = (f, refl, h)

  Agree-none : (o : Option Form) → Agree none o → o ≡ none
  Agree-none _ neither = refl

  -- A message with a well-known schema has a form, and one without has none.
  pub well_known_form :
      (name : Text) (s : Schema)
      → well_known_schema name ≡ some s
      → (f : Form) × (documented_form name ≡ some f)
        × ((j : Json) → has_form f j ≡ true → Admits st s j)
  well_known_form name s known =
      Agree-some s (documented_form name) (rw known at (Agree-well_known name))

  pub ordinary_form : (name : Text) → well_known_schema name ≡ none → documented_form name ≡ none
  ordinary_form name ordinary =
      Agree-none (documented_form name) (rw ordinary at (Agree-well_known name))
