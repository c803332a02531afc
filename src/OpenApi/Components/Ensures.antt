-- ===== src/OpenApi/Components/Ensures.antt =====
-- What a step that has returned gives, and where the entries of its table come from.
use grpc_composition.Common.{
  ◌≡◌, sym, ap, ◌∙◌, ◌⊎◌, inl, inr, Bool, true, false, some, Text, if◌then◌else◌, text_eq,
  text_eq_iff, Option-cases, Bool-cases, lookup, insert, lookup-insert,
}
use mathlib.Core.Option.{some-injective}
use mathlib.Core.Path.{subst}
use grpc_composition.OpenApi.Schema.{Schema, any_value}
use grpc_composition.OpenApi.Components.{Schemas, Step, pure, bind_step, reference, component}
use grpc_composition.OpenApi.Components.Steps.{bind_step-returned, component-made, component-found}

-- `Made` holds of the names and the entries that steps may put into the table.
module _ (Made : Text → Schema → Type 0) where
  -- Every entry of the second table stands in the first one, or is made.
  abbrev pub Extends : Schemas → Schemas → Type 0
  Extends st st' =
      (name : Text) (s : Schema)
      → lookup name st' ≡ some s
      → (lookup name st ≡ some s) ⊎ Made name s

  -- Where the step returns, its value has the property, and it extends the table.
  pub record Ensures {A : Type 0} (Q : A → Type 0) (m : Step A) : Type 0 where
    pub ensured : (st : Schemas) (r : A × Schemas) → m st ≡ some r → Extends st r.1 × Q r.0

  pub Extends-trans : (st st1 st2 : Schemas) → Extends st st1 → Extends st1 st2 → Extends st st2
  Extends-trans st st1 st2 h k name s e = elim (k name s e) [
    | inl before ↦ h name s before
    | inr made ↦ inr made
  ]

  module _ {A : Type 0} {Q : A → Type 0} where
    pub Ensures-pure : (a : A) → Q a → Ensures Q (pure a)
    Ensures-pure a q = record {
      ensured = λ st r e.
          let same : (a, st) ≡ r = some-injective _ _ e in
          subst (λ (r : A × Schemas). Extends st r.1 × Q r.0) same ((λ name s h. inl h), q);
    }

    pub Ensures-bind :
        {B : Type 0} {P : B → Type 0} (m : Step B) (f : B → Step A)
        → Ensures P m
        → ((b : B) → P b → Ensures Q (f b))
        → Ensures Q (bind_step m f)
    Ensures-bind m f first rest = record {
      ensured = λ st r e.
          let (b, st1, e1, e2) = bind_step-returned m f st r.1 r.0 e in
          let (grows, p) = first.ensured st (b, st1) e1 in
          let (grows', q) = (rest b p).ensured st1 r e2 in
          (Extends-trans st st1 r.1 grows grows', q);
    }

    pub Ensures-if :
        (c : Bool) (m n : Step A) → Ensures Q m → Ensures Q n → Ensures Q (if c then m else n)
    Ensures-if true m n h k = h
    Ensures-if false m n h k = k

  -- An entry of the table once the schema of a new name is put into it.
  placed :
      (st st1 : Schemas) (name : Text) (s : Schema) (k : Text) (t : Schema)
      → Extends (insert name any_value st) st1
      → Made name s
      → lookup k (insert name s st1) ≡ some t
      → (lookup k st ≡ some t) ⊎ Made k t
  placed st st1 name s k t grows q h = elim (Bool-cases (text_eq name k)) [
    | inl same ↦
        let is : s ≡ t = some-injective s t (rw (lookup-insert, same) at h) in
        inr (subst (λ t. Made k t) is (subst (λ k. Made k s) ((text_eq_iff name k).0 same) q))
    | inr other ↦ elim (grows k t (rw (lookup-insert, other) at h)) [
      | inl before ↦ inl (rw (lookup-insert, other) at before)
      | inr made ↦ inr made
    ]
  ]

  pub Ensures-component :
      (name : Text) (make : Step Schema)
      → Ensures (Made name) make
      → Ensures (λ s. s ≡ reference name) (component name make)
  Ensures-component name make made = record {
    ensured = λ st r e. elim (Option-cases (lookup name st)) [
      | inr (s, there) ↦
          let same : (reference name, st) ≡ r =
            some-injective _ _ (sym (component-found name make st s there) ∙ e) in
          ((λ k t h. inl (rw (ap (λ x. x.1) same) h)), sym (ap (λ x. x.0) same))
      | inl fresh ↦
          let (s, st1, is, value, _, table) = component-made name make st r.1 r.0 fresh e in
          let (grows, q) = made.ensured (insert name any_value st) (s, st1) is in
          ((λ k t h. placed st st1 name s k t grows q (rw table at h)), value)
    ];
  }
