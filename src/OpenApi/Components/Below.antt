-- ===== src/OpenApi/Components/Below.antt =====
-- Steps that give at least the results of other ones: what more fuel gives.
use grpc_composition.Common.{
  ◌≡◌, sym, ◌∙◌, inl, inr, Bool, true, false, some, Text, if◌then◌else◌, Option-cases, lookup,
  insert,
}
use mathlib.Core.Option.{some-ne-none}
use grpc_composition.OpenApi.Schema.{Schema, any_value}
use grpc_composition.OpenApi.Components.{Schemas, Step, bind_step, component}
use grpc_composition.OpenApi.Components.Steps.{bind_step-returned}

-- Where the first step returns, the second returns the same.
abbrev pub Below : {A : Type 0} → Step A → Step A → Type 0
Below {A} m m' = (st : Schemas) (r : A × Schemas) → m st ≡ some r → m' st ≡ some r

module _ {A : Type 0} where
  pub Below-refl : (m : Step A) → Below m m
  Below-refl m st r e = e

  pub Below-bind :
      {B : Type 0} (m m' : Step A) (f f' : A → Step B)
      → Below m m'
      → ((a : A) → Below (f a) (f' a))
      → Below (bind_step m f) (bind_step m' f')
  Below-bind m m' f f' first rest st (b, st') e =
      let (a, st1, e1, e2) = bind_step-returned m f st st' b e in
      rw (bind_step, first st (a, st1) e1) (rest a st1 (b, st') e2)

  pub Below-if :
      (c : Bool) (m m' n n' : Step A)
      → Below m m'
      → Below n n'
      → Below (if c then m else n) (if c then m' else n')
  Below-if true m m' n n' h k = h
  Below-if false m m' n n' h k = k

pub Below-component :
    (name : Text) (make make' : Step Schema)
    → Below make make'
    → Below (component name make) (component name make')
Below-component name make make' below st r e = elim (Option-cases (lookup name st)) [
  | inr (s, there) ↦ rw (component, there) (rw (component, there) at e)
  | inl fresh ↦ elim (Option-cases (make (insert name any_value st))) [
    | inl never ↦ absurd (some-ne-none r (sym e ∙ rw (component, fresh, never)))
    | inr (made, is) ↦
        rw (component, fresh, below (insert name any_value st) made is)
          (rw (component, fresh, is) at e)
  ]
]
