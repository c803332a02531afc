-- ===== src/OpenApi/Components/Outcomes.antt =====
-- What the steps of the generator give: they return, keep the entries of the table and leave it
-- closed.
use grpc_composition.Common.{
  ℕ, suc, ◌≤◌, ◌<◌, ◌≡◌, refl, inl, inr, List, [], ◌∷◌, Option, none, some, arith, Text, text_eq,
  text_eq_iff, text_eq_refl, Option-cases, Bool-cases, lookup, insert, lookup-insert, Any,
}
use grpc_composition.OpenApi.Schema.{
  Schema, Properties, no_properties, property, any_value, set_property,
}
use grpc_composition.OpenApi.Components.{
  Schemas, Step, bind_step, reference, component, Refs, PropertiesRefs, Refs-mono,
  PropertiesRefs-mono, Resolves, IsClosed, Keeps, Covers, Keeps-Covers, Resolves-mono,
  Covers-insert, Keeps-insert, IsClosed-insert,
}

-- How many of the names are not in the table.
unfoldable pub missing : List Text → Schemas → ℕ
missing [] st = 0
missing (n ∷ names) st = elim (lookup n st) [
  | none ↦ suc (missing names st)
  | some _ ↦ missing names st
]

pub missing-le :
    (names : List Text) (st st' : Schemas) → Covers st st' → missing names st' ≤ missing names st
unfolding missing
missing-le [] st st' covers = omega arith
missing-le (n ∷ names) st st' covers = elim (Option-cases (lookup n st)) [
  | inl e ↦ ground (arith, missing-le names st st' covers)
  | inr (s, e) ↦ rw (missing, e, (covers n s e).1) (missing-le names st st' covers)
]

pub missing-insert :
    (names : List Text) (st : Schemas) (name : Text) (s : Schema)
    → Any (λ n. n ≡ name) names
    → lookup name st ≡ none
    → missing names (insert name s st) < missing names st
unfolding missing
missing-insert [] st name s h fresh = absurd h
missing-insert (n ∷ names) st name s (inl e) fresh =
    let never : lookup n st ≡ none = rw e fresh in
    let now : lookup n (insert name s st) ≡ some s = rw (e, lookup-insert, text_eq_refl) in
    let rest = missing-le names st (insert name s st) (Covers-insert st name s) in
    rw (missing, never, now) (omega arith)
missing-insert (n ∷ names) st name s (inr h) fresh =
    let fewer = missing-insert names st name s h fresh in
    elim (Option-cases (lookup n st)) [
      | inl e ↦ ground (arith, missing-insert names st name s h fresh)
      | inr (t, e) ↦ rw (missing, e, (Covers-insert st name s n t e).1) fewer
    ]

-- What a step that returns gives: the value and the table, with the entries that there were, closed
-- again, and the property of the value.
pub record Outcome {A : Type 0} (st : Schemas) (P : Schemas → A → Type 0) (r : Option (A × Schemas))
    : Type 0 where
  pub value : A
  pub table : Schemas
  pub returns : r ≡ some (value, table)
  pub keeps : Keeps st table
  pub closed : IsClosed table
  pub holds : P table value

module _ {A : Type 0} {P : Schemas → A → Type 0} where
  pub Outcome-pure : (st : Schemas) (a : A) → IsClosed st → P st a → Outcome st P (some (a, st))
  Outcome-pure st a closed holds = record {
    value = a;
    table = st;
    returns = refl;
    keeps = λ name s h. h;
    closed = closed;
    holds = holds;
  }

  -- One step behind another.
  pub Outcome-bind :
      {B : Type 0} {Q : Schemas → B → Type 0} (st : Schemas) (m : Step A) (f : A → Step B)
      (first : Outcome st P (m st))
      → Outcome first.table Q (f first.value first.table)
      → Outcome st Q (bind_step m f st)
  Outcome-bind st m f first second = record {
    value = second.value;
    table = second.table;
    returns = rw (first.returns, bind_step) second.returns;
    keeps = λ name s h. second.keeps name s (first.keeps name s h);
    closed = second.closed;
    holds = second.holds;
  }

  -- The same value and table, of which another property holds.
  pub Outcome-weaken :
      {Q : Schemas → A → Type 0} (st : Schemas) (r : Option (A × Schemas)) (o : Outcome st P r)
      → Q o.table o.value
      → Outcome st Q r
  Outcome-weaken st r o holds = record {
    value = o.value;
    table = o.table;
    returns = o.returns;
    keeps = o.keeps;
    closed = o.closed;
    holds = holds;
  }

  -- A table that a step leaves lacks no more names than before.
  pub missing-table :
      (names : List Text) (st : Schemas) (r : Option (A × Schemas)) (o : Outcome st P r)
      → missing names o.table ≤ missing names st
  missing-table names st r o = missing-le names st o.table (Keeps-Covers st o.table o.keeps)

-- All references within a schema, or within properties, resolve.
abbrev pub SchemaOk : Schemas → Schema → Type 0
SchemaOk st s = Refs (Resolves st) s

abbrev pub PropertiesOk : Schemas → Properties → Type 0
PropertiesOk st properties = PropertiesRefs (Resolves st) properties

pub PropertiesOk-mono :
    (st st' : Schemas) (properties : Properties)
    → Keeps st st'
    → PropertiesOk st properties
    → PropertiesOk st' properties
PropertiesOk-mono st st' properties keeps =
    PropertiesRefs-mono (Resolves st) (Resolves st')
      (Resolves-mono st st' (Keeps-Covers st st' keeps)) properties

pub SchemaOk-mono : (st st' : Schemas) (s : Schema) → Keeps st st' → SchemaOk st s → SchemaOk st' s
SchemaOk-mono st st' s keeps =
    Refs-mono (Resolves st) (Resolves st') (Resolves-mono st st' (Keeps-Covers st st' keeps)) s

pub PropertiesRefs-set_property :
    (P : Text → Type 0) (name : Text) (s : Schema) (properties : Properties)
    → Refs P s
    → PropertiesRefs P properties
    → PropertiesRefs P (set_property name s properties)
unfolding set_property Refs
PropertiesRefs-set_property P name s no_properties h k = (h, tt)
PropertiesRefs-set_property P name s (property j t rest) h k = elim (Bool-cases (text_eq j name)) [
  | inl e ↦ rw e (h, k.1)
  | inr e ↦ rw e (k.0, PropertiesRefs-set_property P name s rest h k.1)
]

Keeps-placeholder :
    (st st' : Schemas) (name : Text) (s : Schema)
    → lookup name st ≡ none
    → Keeps (insert name any_value st) st'
    → Keeps st (insert name s st')
Keeps-placeholder st st' name s fresh keeps k t h = elim (Bool-cases (text_eq name k)) [
  | inl e ↦ let found : lookup name st ≡ some t = rw ((text_eq_iff name k).0 e) h in cc
  | inr e ↦ rw (lookup-insert, e) (keeps k t (Keeps-insert st name any_value fresh k t h))
]

pub IsClosed-placeholder :
    (st : Schemas) (name : Text) → IsClosed st → IsClosed (insert name any_value st)
unfolding Refs
IsClosed-placeholder st name closed =
    IsClosed-insert st name any_value closed (inl refl, tt, tt, tt)

-- `component` gives a reference that resolves, if the schema is made of a new name.
pub Outcome-component :
    (st : Schemas) (name : Text) (make : Step Schema)
    → IsClosed st
    → (lookup name st ≡ none
        → Outcome (insert name any_value st) SchemaOk (make (insert name any_value st)))
    → Outcome st SchemaOk (component name make st)
unfolding Refs
Outcome-component st name make closed made = elim (Option-cases (lookup name st)) [
  | inr (s, there) ↦
      rw (component, there)
        (Outcome-pure st (reference name) closed (inr (name, s, refl, there), tt, tt, tt))
  | inl fresh ↦
      let o = made fresh in
      record {
        value = reference name;
        table = insert name o.value o.table;
        returns = rw (component, fresh, o.returns);
        keeps = Keeps-placeholder st o.table name o.value fresh o.keeps;
        closed = IsClosed-insert o.table name o.value o.closed o.holds;
        holds = (inr (name, o.value, refl, rw (lookup-insert, text_eq_refl)), tt, tt, tt);
      }
]
