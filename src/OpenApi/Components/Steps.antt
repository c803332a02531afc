-- ===== src/OpenApi/Components/Steps.antt =====
-- What a step that has returned has done.
use grpc_composition.Common.{
  ◌≡◌, sym, ap, ◌∙◌, inl, inr, none, some, Text, text_eq_refl, Option-cases, lookup, insert,
  lookup-insert,
}
use mathlib.Core.Option.{some-injective}
use grpc_composition.OpenApi.Schema.{Schema, any_value}
use grpc_composition.OpenApi.Components.{Schemas, Step, bind_step, reference, component}

-- The two steps of a chain that has returned.
pub bind_step-returned :
    {A B : Type 0} (m : Step A) (f : A → Step B) (st st' : Schemas) (b : B)
    → bind_step m f st ≡ some (b, st')
    → (a : A) × (st1 : Schemas) × (m st ≡ some (a, st1)) × (f a st1 ≡ some (b, st'))
bind_step-returned m f st st' b e = elim (Option-cases (m st)) [
  | inl never ↦ cc
  | inr (r, first) ↦ (r.0, r.1, first, rw (bind_step, first) at e)
]

-- `component` on a new name gives its reference, and the schema that is made is in the table.
pub component-made :
    (name : Text) (make : Step Schema) (st st' : Schemas) (v : Schema)
    → lookup name st ≡ none
    → component name make st ≡ some (v, st')
    → (s : Schema) × (st1 : Schemas) × (make (insert name any_value st) ≡ some (s, st1))
      × (v ≡ reference name)
      × (lookup name st' ≡ some s)
      × (st' ≡ insert name s st1)
component-made name make st st' v fresh e = elim (Option-cases (make (insert name any_value st))) [
  | inl never ↦ cc
  | inr (r, made) ↦
      let same : (reference name, insert name r.0 r.1) ≡ (v, st') =
        some-injective _ _ (rw (component, fresh, made) at e) in
      (
        r.0,
        r.1,
        made,
        sym (ap (λ x. x.0) same),
        rw (← ap (λ x. x.1) same, lookup-insert, text_eq_refl),
        sym (ap (λ x. x.1) same),
      )
]

-- `component` on a name in the table gives its reference and leaves the table.
pub component-found :
    (name : Text) (make : Step Schema) (st : Schemas) (s : Schema)
    → lookup name st ≡ some s
    → component name make st ≡ some (reference name, st)
component-found name make st s there = rw (component, there)

-- On either kind of name, `component` gives its reference, and the name is in the table afterwards.
pub component-returned :
    (name : Text) (make : Step Schema) (st st' : Schemas) (v : Schema)
    → component name make st ≡ some (v, st')
    → (s : Schema) × (v ≡ reference name) × (lookup name st' ≡ some s)
component-returned name make st st' v e = elim (Option-cases (lookup name st)) [
  | inr (s, there) ↦
      let same : (reference name, st) ≡ (v, st') =
        some-injective _ _ (sym (component-found name make st s there) ∙ e) in
      (s, sym (ap (λ x. x.0) same), rw (← ap (λ x. x.1) same) there)
  | inl fresh ↦
      let (s, st1, made, value, there, _) = component-made name make st st' v fresh e in
      (s, value, there)
]
