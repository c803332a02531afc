-- ===== src/OpenApi/Components.antt =====
-- openapi/: the table of schemas that the generator fills, `generator.schemas`, and what its steps
-- keep of it.
pub mod Outcomes
pub mod Steps
pub mod Ensures
pub mod Below
use grpc_composition.Common.{
  ◌+◌, ◌-◌, ◌/◌, ◌≡◌, ◌⊎◌, inl, inr, List, [], ◌++◌, Option, none, some, Text, codes, text_eq,
  text_eq_iff, Bool-cases, lookup, insert, lookup-insert,
}
use mathlib.Core.Path.{subst}
use mathlib.Core.Option.{some-injective}
use grpc_composition.OpenApi.Schema.{
  Schema, MaybeSchema, Properties, schema, absent, present, no_properties, property, any_value,
  set_property,
}

-- `generator.schemas`.
abbrev pub Schemas : Type 0
Schemas = List (Text × Schema)

-- A step of the generator: it reads and fills the table, and gives a value. `none` means that the
-- fuel ran out.
abbrev pub Step : Type 0 → Type 0
Step A = Schemas → Option (A × Schemas)

abbrev pub pure : {A : Type 0} → A → Step A
pure a st = some (a, st)

abbrev pub bind_step : {A B : Type 0} → Step A → (A → Step B) → Step B
bind_step m f st = elim (m st) [ none ↦ none | some (a, st') ↦ f a st' ]

abbrev pub ref_prefix : Text
ref_prefix = codes "#/components/schemas/"

-- `&Schema{Ref: "#/components/schemas/" + name}`.
abbrev pub reference : Text → Schema
reference name = schema (ref_prefix ++ name) [] [] [] [] absent no_properties absent

-- What `messageRef` and `structRef` share: a name that is in the table is referred to; any other is
-- put there, first with a placeholder and then with the schema that `make` gives.
abbrev pub component : Text → Step Schema → Step Schema
component name make st = elim (lookup name st) [
  | some _ ↦ some (reference name, st)
  | none ↦ elim (make (insert name any_value st)) [
    | none ↦ none
    | some (s, st') ↦ some (reference name, insert name s st')
  ]
]

-- The member `$ref` of every schema within a schema.
unfoldable mutual
  pub Refs : (Text → Type 0) → Schema → Type 0
  Refs P (schema ref _ _ _ _ items properties additional) =
      P ref × MaybeRefs P items × PropertiesRefs P properties × MaybeRefs P additional

  pub MaybeRefs : (Text → Type 0) → MaybeSchema → Type 0
  MaybeRefs P absent = Unit
  MaybeRefs P (present s) = Refs P s

  pub PropertiesRefs : (Text → Type 0) → Properties → Type 0
  PropertiesRefs P no_properties = Unit
  PropertiesRefs P (property _ s rest) = Refs P s × PropertiesRefs P rest

module _ (P Q : Text → Type 0) (weaken : (ref : Text) → P ref → Q ref) where
  mutual
    unfolding Refs

    pub Refs-mono : (s : Schema) → Refs P s → Refs Q s
    Refs-mono (schema ref _ _ _ _ items properties additional) h = (
      weaken ref h.0,
      MaybeRefs-mono items h.1,
      PropertiesRefs-mono properties h.2,
      MaybeRefs-mono additional h.3,
    )

    pub MaybeRefs-mono : (s : MaybeSchema) → MaybeRefs P s → MaybeRefs Q s
    MaybeRefs-mono absent h = tt
    MaybeRefs-mono (present s) h = Refs-mono s h

    pub PropertiesRefs-mono : (s : Properties) → PropertiesRefs P s → PropertiesRefs Q s
    PropertiesRefs-mono no_properties h = tt
    PropertiesRefs-mono (property _ s rest) h = (Refs-mono s h.0, PropertiesRefs-mono rest h.1)

-- A reference is absent, or names an entry of the table.
abbrev pub Resolves : Schemas → Text → Type 0
Resolves st ref =
    (ref ≡ [])
    ⊎ ((name : Text) × (s : Schema) × (ref ≡ ref_prefix ++ name) × (lookup name st ≡ some s))

-- Every reference within an entry of the table resolves in the table.
abbrev pub IsClosed : Schemas → Type 0
IsClosed st = (name : Text) (s : Schema) → lookup name st ≡ some s → Refs (Resolves st) s

-- Every entry stays as it is.
abbrev pub Keeps : Schemas → Schemas → Type 0
Keeps st st' = (name : Text) (s : Schema) → lookup name st ≡ some s → lookup name st' ≡ some s

-- Every entry stays, though it may change.
abbrev pub Covers : Schemas → Schemas → Type 0
Covers st st' =
    (name : Text) (s : Schema)
    → lookup name st ≡ some s
    → (s' : Schema) × (lookup name st' ≡ some s')

pub Keeps-Covers : (st st' : Schemas) → Keeps st st' → Covers st st'
Keeps-Covers st st' keeps name s h = (s, keeps name s h)

pub Resolves-mono :
    (st st' : Schemas) → Covers st st' → (ref : Text) → Resolves st ref → Resolves st' ref
Resolves-mono st st' covers ref (inl e) = inl e
Resolves-mono st st' covers ref (inr (name, s, e, h)) =
    let (s', h') = covers name s h in inr (name, s', e, h')

pub Covers-insert : (st : Schemas) (name : Text) (s : Schema) → Covers st (insert name s st)
Covers-insert st name s k t h = elim (Bool-cases (text_eq name k)) [
  | inl e ↦ (s, rw (lookup-insert, e))
  | inr e ↦ (t, rw (lookup-insert, e) h)
]

-- The placeholder of a name that is not in the table.
pub Keeps-insert :
    (st : Schemas) (name : Text) (s : Schema) → lookup name st ≡ none → Keeps st (insert name s st)
Keeps-insert st name s fresh k t h = elim (Bool-cases (text_eq name k)) [
  | inl e ↦ let found : lookup name st ≡ some t = rw ((text_eq_iff name k).0 e) h in cc
  | inr e ↦ rw (lookup-insert, e) h
]

-- An entry whose references resolve in the table as it was.
pub IsClosed-insert :
    (st : Schemas) (name : Text) (s : Schema)
    → IsClosed st
    → Refs (Resolves st) s
    → IsClosed (insert name s st)
IsClosed-insert st name s closed refs k t h =
    Refs-mono (Resolves st) (Resolves (insert name s st))
      (Resolves-mono st (insert name s st) (Covers-insert st name s)) t
      (elim (Bool-cases (text_eq name k)) [
        | inl e ↦ subst (Refs (Resolves st)) (some-injective s t (rw (lookup-insert, e) at h)) refs
        | inr e ↦ closed k t (rw (lookup-insert, e) at h)
      ])
