-- ===== src/OpenApi/Schema.antt =====
-- openapi/openapi.go and protoschema.go: schemas, and those of the well-known types.
use grpc_composition.Common.{
  ◌≡◌, refl, Bool, false, ◌||◌, List, [], ◌∷◌, ◌++◌, Option, none, some, Text, codes, if◌then◌else◌,
  text_eq,
}
use grpc_composition.Spec.{ParamSpec}

-- `Schema`: the fields `Ref`, `Type`, `Format`, `Description`, `Enum`, `Items`, `Properties` and
-- `AdditionalProperties`.
mutual
  pub data Schema : Type 0 where
    schema :
        (ref type_name format description : Text) (enum_values : List Text) (items : MaybeSchema)
        (properties : Properties) (additional : MaybeSchema)
        → Schema

  -- A pointer that may be nil.
  pub data MaybeSchema : Type 0 where
    absent : MaybeSchema
    present : Schema → MaybeSchema

  pub data Properties : Type 0 where
    no_properties : Properties
    property : Text → Schema → Properties → Properties

-- `&Schema{Type: typ, Format: format}`.
abbrev pub typed : Text → Text → Schema
typed typ format = schema [] typ format [] [] absent no_properties absent

-- `&Schema{}`.
abbrev pub any_value : Schema
any_value = typed [] []

-- `s.Properties[name] = v`.
unfoldable pub set_property : Text → Schema → Properties → Properties
set_property name v no_properties = property name v no_properties
set_property name v (property k w rest) =
    if text_eq k name then property name v rest else property k w (set_property name v rest)

-- `&Schema{Type: "string", Enum: names}`.
abbrev pub enum_schema : List Text → Schema
enum_schema names = schema [] (codes "string") [] [] names absent no_properties absent

-- `&Schema{Type: "object", Properties: properties}`.
abbrev pub object_schema : Properties → Schema
object_schema properties = schema [] (codes "object") [] [] [] absent properties absent

-- `&Schema{Type: "array", Items: s}`.
abbrev pub array_schema : Schema → Schema
array_schema s = schema [] (codes "array") [] [] [] (present s) no_properties absent

-- `&Schema{Type: "object", AdditionalProperties: s}`.
abbrev pub map_schema : Schema → Schema
map_schema s = schema [] (codes "object") [] [] [] absent no_properties (present s)

abbrev pub one_of : Text → List Text → Bool
one_of name [] = false
one_of name (n ∷ names) = text_eq name n || one_of name names

-- `wellKnownSchema`, on the full name of the message.
unfoldable pub well_known_schema : Text → Option Schema
well_known_schema name =
    if text_eq name (codes "google.protobuf.Timestamp")
    then some (typed (codes "string") (codes "date-time"))
    else if text_eq name (codes "google.protobuf.Duration")
    then some (typed (codes "string") [])
    else if text_eq name (codes "google.protobuf.StringValue")
    then some (typed (codes "string") [])
    else if text_eq name (codes "google.protobuf.BytesValue")
    then some (typed (codes "string") (codes "byte"))
    else if text_eq name (codes "google.protobuf.BoolValue")
    then some (typed (codes "boolean") [])
    else if text_eq name (codes "google.protobuf.Int32Value")
    then some (typed (codes "integer") (codes "int32"))
    else if text_eq name (codes "google.protobuf.UInt32Value")
    then some (typed (codes "integer") [])
    else if one_of name
        (codes "google.protobuf.Int64Value" ∷ codes "google.protobuf.UInt64Value" ∷ [])
    then some (typed (codes "string") (codes "int64"))
    else if text_eq name (codes "google.protobuf.FloatValue")
    then some (typed (codes "number") (codes "float"))
    else if text_eq name (codes "google.protobuf.DoubleValue")
    then some (typed (codes "number") (codes "double"))
    else if text_eq name (codes "google.protobuf.Struct")
    then some (typed (codes "object") [])
    else if text_eq name (codes "google.protobuf.Value")
    then some any_value
    else if text_eq name (codes "google.protobuf.ListValue")
    then some (schema [] (codes "array") [] [] [] (present any_value) no_properties absent)
    else if text_eq name (codes "google.protobuf.FieldMask")
    then some (typed (codes "string") [])
    else if one_of name (codes "google.protobuf.Empty" ∷ codes "google.protobuf.Any" ∷ [])
    then some (typed (codes "object") [])
    else none

timestamp_test :
    well_known_schema (codes "google.protobuf.Timestamp")
    ≡ some (typed (codes "string") (codes "date-time"))
unfolding well_known_schema text_eq
timestamp_test = refl

any_test : well_known_schema (codes "google.protobuf.Any") ≡ some (typed (codes "object") [])
unfolding well_known_schema text_eq
any_test = refl

-- `Parameter`.
pub record Parameter : Type 0 where
  pub name : Text
  pub location : Text
  pub required : Bool
  pub parameter_schema : Schema

-- What one round of the first loop of `operation` appends.
abbrev pub parameter_of : ParamSpec → Parameter
parameter_of p = record {
  name = p.name;
  location = p.location;
  required = p.required;
  parameter_schema = schema [] p.type_name p.format [] p.enum_values absent no_properties absent;
}

-- The loop.
unfoldable pub add_parameters : List Parameter → List ParamSpec → List Parameter
add_parameters out [] = out
add_parameters out (p ∷ ps) = add_parameters (out ++ (parameter_of p ∷ [])) ps
