-- ===== src/OpenApi/Protos/Protojson.antt =====
-- protojson: the documented mapping of messages to JSON, which the schemas follow.
use grpc_composition.Common.{
  ◌≡◌, ◌≢◌, ◌⊎◌, Bool, true, false, List, [], ◌∷◌, Option, none, some, Text, codes, if◌then◌else◌,
  text_eq, All, Any,
}
use grpc_composition.Host.{Host}
use grpc_composition.OpenApi.Schema.{one_of}
use grpc_composition.OpenApi.Json.{
  Json, Items, Members, boolean, integer, decimal, string, array, object, EachItem, EachMember,
}
use grpc_composition.OpenApi.Protos.{
  Kind, Protoreflect, bool_kind, enum_kind, int32_kind, sint32_kind, uint32_kind, int64_kind,
  sint64_kind, uint64_kind, sfixed32_kind, fixed32_kind, float_kind, sfixed64_kind, fixed64_kind,
  double_kind, string_kind, bytes_kind, message_kind, group_kind, unnamed_kind,
}
use grpc_composition.OpenApi.Protos.Shapes.{field_name}

pub data Form : Type 0 where
  boolean_form integer_form number_form string_form array_form object_form any_form : Form

abbrev pub has_form : Form → Json → Bool
has_form boolean_form (boolean _) = true
has_form integer_form (integer _) = true
has_form number_form (integer _) = true
has_form number_form (decimal _) = true
has_form string_form (string _) = true
has_form array_form (array _) = true
has_form object_form (object _) = true
has_form any_form _ = true
has_form _ _ = false

-- The table of the ProtoJSON format: the messages that have a form of their own. A floating-point
-- number is finite.
unfoldable pub documented_form : Text → Option Form
documented_form name =
    if text_eq name (codes "google.protobuf.Timestamp")
    then some string_form
    else if text_eq name (codes "google.protobuf.Duration")
    then some string_form
    else if text_eq name (codes "google.protobuf.StringValue")
    then some string_form
    else if text_eq name (codes "google.protobuf.BytesValue")
    then some string_form
    else if text_eq name (codes "google.protobuf.BoolValue")
    then some boolean_form
    else if text_eq name (codes "google.protobuf.Int32Value")
    then some integer_form
    else if text_eq name (codes "google.protobuf.UInt32Value")
    then some integer_form
    else if one_of name
        (codes "google.protobuf.Int64Value" ∷ codes "google.protobuf.UInt64Value" ∷ [])
    then some string_form
    else if text_eq name (codes "google.protobuf.FloatValue")
    then some number_form
    else if text_eq name (codes "google.protobuf.DoubleValue")
    then some number_form
    else if text_eq name (codes "google.protobuf.Struct")
    then some object_form
    else if text_eq name (codes "google.protobuf.Value")
    then some any_form
    else if text_eq name (codes "google.protobuf.ListValue")
    then some array_form
    else if text_eq name (codes "google.protobuf.FieldMask")
    then some string_form
    else if one_of name (codes "google.protobuf.Empty" ∷ codes "google.protobuf.Any" ∷ [])
    then some object_form
    else none

module _ {H : Host} (R : Protoreflect H) (opts : H.MarshalOptions) where
  -- No two fields of a message have one name in JSON.
  abbrev pub HasOwnNames : List R.FieldDescriptor → Type 0
  HasOwnNames [] = Unit
  HasOwnNames (fd ∷ fds) =
      All (λ other. field_name R opts other ≢ field_name R opts fd) fds × HasOwnNames fds

  module _ (Message : R.MessageDescriptor → Json → Type 0) where
    -- The form of one value of a field, by its kind; 64-bit integers are texts.
    abbrev pub ValueForm : Kind → R.FieldDescriptor → Json → Type 0
    ValueForm bool_kind fd j = has_form boolean_form j ≡ true
    ValueForm int32_kind fd j = has_form integer_form j ≡ true
    ValueForm sint32_kind fd j = has_form integer_form j ≡ true
    ValueForm sfixed32_kind fd j = has_form integer_form j ≡ true
    ValueForm uint32_kind fd j = has_form integer_form j ≡ true
    ValueForm fixed32_kind fd j = has_form integer_form j ≡ true
    ValueForm int64_kind fd j = has_form string_form j ≡ true
    ValueForm sint64_kind fd j = has_form string_form j ≡ true
    ValueForm sfixed64_kind fd j = has_form string_form j ≡ true
    ValueForm uint64_kind fd j = has_form string_form j ≡ true
    ValueForm fixed64_kind fd j = has_form string_form j ≡ true
    ValueForm float_kind fd j = has_form number_form j ≡ true
    ValueForm double_kind fd j = has_form number_form j ≡ true
    ValueForm string_kind fd j = has_form string_form j ≡ true
    ValueForm bytes_kind fd j = has_form string_form j ≡ true
    ValueForm enum_kind fd j =
        ((R.use_enum_numbers opts ≡ true) × (has_form integer_form j ≡ true))
        ⊎ ((R.use_enum_numbers opts ≡ false)
            × ((s : Text) × (j ≡ string s) × Any (λ v. v.name ≡ s) (R.enum_type fd).values))
    ValueForm message_kind fd j = Message (R.message_type fd) j
    ValueForm group_kind fd j = Message (R.message_type fd) j
    ValueForm (unnamed_kind _) fd j = Unit

    -- A map is an object, a list an array, by whether the field is a map and whether it is a list.
    abbrev pub FieldForm : Bool → Bool → R.FieldDescriptor → Json → Type 0
    FieldForm true _ fd j =
        (ms : Members) × (j ≡ object ms)
        × EachMember (λ k v. ValueForm (R.kind (R.map_value fd)) (R.map_value fd) v) ms
    FieldForm false true fd j =
        (js : Items) × (j ≡ array js) × EachItem (λ v. ValueForm (R.kind fd) fd v) js
    FieldForm false false fd j = ValueForm (R.kind fd) fd j

  -- `Encodes md j`: with these options, `j` is the JSON of a message with this descriptor, the
  -- floating-point numbers of which are finite, the enum values declared and not of
  -- google.protobuf.NullValue, with no extensions, and the unpopulated fields left out.
  pub record Protojson : Type 1 where
    pub Encodes : R.MessageDescriptor → Json → Type 0
    pub own_names : (md : R.MessageDescriptor) → HasOwnNames (R.fields md)
    pub form_lem :
        (md : R.MessageDescriptor) (j : Json) (f : Form)
        → documented_form (R.full_name md) ≡ some f
        → Encodes md j
        → has_form f j ≡ true
    pub members_lem :
        (md : R.MessageDescriptor) (j : Json)
        → documented_form (R.full_name md) ≡ none
        → Encodes md j
        → (ms : Members) × (j ≡ object ms)
          × EachMember
              (λ k v.
                Any
                  (λ fd.
                    (k ≡ field_name R opts fd)
                    × FieldForm Encodes (R.is_map fd) (R.is_list fd) fd v)
                  (R.fields md))
              ms
