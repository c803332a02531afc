-- ===== src/OpenApi/Json.antt =====
-- JSON values, and which of them a schema admits, by the keywords of JSON Schema that the generator
-- writes.
use grpc_composition.Common.{
  ◌≡◌, Bool, true, false, ◌||◌, List, [], Option, none, some, Text, codes, if◌then◌else◌, text_eq,
  is_empty, lookup, Any,
}
use grpc_composition.Std.Strconv.{ℤ}
use grpc_composition.OpenApi.Schema.{
  Schema, MaybeSchema, Properties, schema, absent, present, no_properties, property,
}
use grpc_composition.OpenApi.Components.{Schemas, reference}

-- A number is an integer, or the text of another number.
mutual
  pub data Json : Type 0 where
    null : Json
    boolean : Bool → Json
    integer : ℤ → Json
    decimal : Text → Json
    string : Text → Json
    array : Items → Json
    object : Members → Json

  pub data Items : Type 0 where
    no_items : Items
    item : Json → Items → Items

  pub data Members : Type 0 where
    no_members : Members
    member : Text → Json → Members → Members

-- What holds of every item, and of every member with its key.
abbrev pub EachItem : (Json → Type 0) → Items → Type 0
EachItem P no_items = Unit
EachItem P (item j js) = P j × EachItem P js

abbrev pub EachMember : (Text → Json → Type 0) → Members → Type 0
EachMember P no_members = Unit
EachMember P (member k j ms) = P k j × EachMember P ms

-- Keyword `type`; an empty text is its absence.
abbrev pub type_allows : Text → Json → Bool
type_allows t null = is_empty t || text_eq t (codes "null")
type_allows t (boolean _) = is_empty t || text_eq t (codes "boolean")
type_allows t (integer _) = is_empty t || text_eq t (codes "integer") || text_eq t (codes "number")
type_allows t (decimal _) = is_empty t || text_eq t (codes "number")
type_allows t (string _) = is_empty t || text_eq t (codes "string")
type_allows t (array _) = is_empty t || text_eq t (codes "array")
type_allows t (object _) = is_empty t || text_eq t (codes "object")

-- Keyword `enum`, whose values are texts; an empty list is its absence.
abbrev pub EnumAllows : List Text → Json → Type 0
EnumAllows [] j = Unit
EnumAllows names (string s) = Any (λ n. n ≡ s) names
EnumAllows names _ = ⊥

abbrev pub property_of : Text → Properties → Option Schema
property_of k no_properties = none
property_of k (property n s rest) = if text_eq n k then some s else property_of k rest

abbrev pub is_array : Json → Bool
is_array (array _) = true
is_array _ = false

abbrev pub is_object : Json → Bool
is_object (object _) = true
is_object _ = false

-- A schema admits a value. Keyword `format` is an annotation.
mutual
  pub data Admits (st : Schemas) : Schema → Json → Type 0 where
    -- Keyword `$ref`, which stands alone: an entry of the components admits the value.
    by_reference :
        {j : Json} (name : Text) (t : Schema)
        → lookup name st ≡ some t
        → Admits st t j
        → Admits st (reference name) j
    by_keywords :
        {j : Json} {typ format description : Text} {names : List Text} {items : MaybeSchema}
        {properties : Properties} {additional : MaybeSchema}
        → type_allows typ j ≡ true
        → EnumAllows names j
        → AdmitsItems st items j
        → AdmitsMembers st properties additional j
        → Admits st (schema [] typ format description names items properties additional) j

  -- Keyword `items`, which only arrays heed.
  pub data AdmitsItems (st : Schemas) : MaybeSchema → Json → Type 0 where
    no_keyword : {j : Json} → AdmitsItems st absent j
    not_array : {items : MaybeSchema} {j : Json} → is_array j ≡ false → AdmitsItems st items j
    each : {s : Schema} {js : Items} → AdmitsEach st s js → AdmitsItems st (present s) (array js)

  pub data AdmitsEach (st : Schemas) : Schema → Items → Type 0 where
    end : {s : Schema} → AdmitsEach st s no_items
    next :
        {s : Schema} {j : Json} {js : Items}
        → Admits st s j
        → AdmitsEach st s js
        → AdmitsEach st s (item j js)

  -- Keywords `properties` and `additionalProperties`, which only objects heed.
  pub data AdmitsMembers (st : Schemas) : Properties → MaybeSchema → Json → Type 0 where
    not_object :
        {properties : Properties} {additional : MaybeSchema} {j : Json}
        → is_object j ≡ false
        → AdmitsMembers st properties additional j
    all_members :
        {properties : Properties} {additional : MaybeSchema} {ms : Members}
        → AdmitsAll st properties additional ms
        → AdmitsMembers st properties additional (object ms)

  pub data AdmitsAll (st : Schemas) : Properties → MaybeSchema → Members → Type 0 where
    end_of_members :
        {properties : Properties} {additional : MaybeSchema}
        → AdmitsAll st properties additional no_members
    next_member :
        {properties : Properties} {additional : MaybeSchema} {ms : Members} {k : Text} {j : Json}
        → AdmitsMember st properties additional k j
        → AdmitsAll st properties additional ms
        → AdmitsAll st properties additional (member k j ms)

  pub data AdmitsMember (st : Schemas) : Properties → MaybeSchema → Text → Json → Type 0 where
    by_property :
        {properties : Properties} {additional : MaybeSchema} {k : Text} {j : Json} (s : Schema)
        → property_of k properties ≡ some s
        → Admits st s j
        → AdmitsMember st properties additional k j
    by_additional :
        {properties : Properties} {k : Text} {j : Json} (s : Schema)
        → property_of k properties ≡ none
        → Admits st s j
        → AdmitsMember st properties (present s) k j
    unconstrained :
        {properties : Properties} {k : Text} {j : Json}
        → property_of k properties ≡ none
        → AdmitsMember st properties absent k j
