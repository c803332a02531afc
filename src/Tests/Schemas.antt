-- ===== src/Tests/Schemas.antt =====
-- Documents of concrete messages and Go types, which hold themselves.
use grpc_composition.Common.{
  ℕ, ◌≤◌, ◌<◌, ◌≡◌, refl, ap, ◌≢◌, inl, inr, Bool, true, false, List, [], ◌∷◌, none, some, arith,
  Text, codes, text_eq, length, lookup, insert, All, Any,
}
use mathlib.Core.Bool.{false≢true}
use grpc_composition.Std.Strings.{cut_before}
use grpc_composition.Host.{Host}
use grpc_composition.Bind.Enums.{EnumDescriptor}
use grpc_composition.Tests.Demo.{demo}
use grpc_composition.OpenApi.Schema.{
  Schema, no_properties, property, typed, object_schema, array_schema, set_property,
  well_known_schema, any_value,
}
use grpc_composition.OpenApi.Components.{Schemas, reference, IsClosed}
use grpc_composition.OpenApi.Components.Outcomes.{missing, SchemaOk}
use grpc_composition.OpenApi.Protos.{Protoreflect, Kind, message_ref, string_kind, message_kind}
use grpc_composition.OpenApi.Dtos.{
  GoKind, StructField, Reflection, dto_schema, slice_kind, pointer_kind, struct_kind, is_struct,
  promoted_type,
}
use grpc_composition.OpenApi.Dtos
use grpc_composition.OpenApi.Dtos.Parts.{IsGrounded, holds_element}
use grpc_composition.OpenApi.Dtos.Runs.{need}
use grpc_composition.OpenApi.Dtos.Named.{dto_schema-returns}

-- A message of a list, and a time.
pub data DemoMessage : Type 0 where
  node time : DemoMessage

pub data DemoField : Type 0 where
  name_field next_field at_field : DemoField

-- A user with friends, a page that embeds a user, and the types that these are made of.
pub data DemoType : Type 0 where
  user_type friends_type friend_type page_type text_type problem_type : DemoType

abbrev pub host : Host
host = record demo { GoType = DemoType }

abbrev pub node_fields : DemoMessage → List DemoField
node_fields node = name_field ∷ next_field ∷ at_field ∷ []
node_fields time = []

abbrev pub node_names : DemoMessage → Text
node_names node = codes "demo.Node"
node_names time = codes "google.protobuf.Timestamp"

abbrev pub field_names : DemoField → Text
field_names name_field = codes "name"
field_names next_field = codes "next"
field_names at_field = codes "at"

abbrev field_kinds : DemoField → Kind
field_kinds name_field = string_kind
field_kinds next_field = message_kind
field_kinds at_field = message_kind

abbrev field_messages : DemoField → DemoMessage
field_messages at_field = time
field_messages _ = node

abbrev no_enum : EnumDescriptor
no_enum = record { values = []; by_name = λ s. none; by_number = λ n. none }

abbrev pub messages : Protoreflect host
messages = record {
  MessageDescriptor = DemoMessage;
  FieldDescriptor = DemoField;
  descriptor = λ m. node;
  full_name = node_names;
  fields = node_fields;
  json_name = field_names;
  text_name = field_names;
  is_map = λ f. false;
  is_list = λ f. false;
  map_value = λ f. f;
  kind = field_kinds;
  enum_type = λ f. no_enum;
  message_type = field_messages;
  use_proto_names = λ o. false;
  use_enum_numbers = λ o. false;
}

abbrev type_kinds : DemoType → GoKind
type_kinds user_type = struct_kind
type_kinds friends_type = slice_kind
type_kinds friend_type = pointer_kind
type_kinds page_type = struct_kind
type_kinds text_type = Dtos.string_kind
type_kinds problem_type = struct_kind

abbrev elements : DemoType → DemoType
elements friends_type = friend_type
elements _ = user_type

abbrev type_names : DemoType → Text
type_names user_type = codes "User"
type_names problem_type = codes "ProblemDetails"
type_names _ = []

abbrev pub type_texts : DemoType → Text
type_texts user_type = codes "main.User"
type_texts problem_type = codes "composition.ProblemDetails"
type_texts _ = []

abbrev struct_field : Text → Text → Bool → DemoType → StructField host
struct_field name tag embedded t = record {
  field_name = name;
  exported = true;
  json_tag = tag;
  anonymous = embedded;
  field_type = t;
}

abbrev demo_fields : DemoType → List (StructField host)
demo_fields user_type =
    struct_field (codes "Name") (codes "name,omitempty") false text_type
    ∷ struct_field (codes "Friends") [] false friends_type
    ∷ []
demo_fields page_type = struct_field (codes "User") [] true user_type ∷ []
demo_fields problem_type = struct_field (codes "Title") (codes "title") false text_type ∷ []
demo_fields _ = []

abbrev pub types : Reflection host
types = record {
  kind = type_kinds;
  elem_type = elements;
  type_name = type_names;
  type_text = type_texts;
  is_time = λ t. false;
  struct_fields = demo_fields;
  problem_details = problem_type;
}

abbrev pub names : List Text
names =
    codes "demo.Node"
    ∷ codes "google.protobuf.Timestamp"
    ∷ codes "main.User"
    ∷ codes "composition.ProblemDetails"
    ∷ []

pub messages_listed : (md : DemoMessage) → Any (λ n. n ≡ node_names md) names
messages_listed node = inl refl
messages_listed time = inr (inl refl)

abbrev ranks : DemoType → ℕ
ranks user_type = 0
ranks friends_type = 2
ranks friend_type = 1
ranks page_type = 5
ranks text_type = 0
ranks problem_type = 0

abbrev field_ranks : DemoType → ℕ
field_ranks user_type = 3
field_ranks page_type = 4
field_ranks problem_type = 1
field_ranks _ = 0

rank-elements : (t : DemoType) → holds_element (type_kinds t) ≡ true → ranks (elements t) < ranks t
rank-elements friends_type h = omega arith
rank-elements friend_type h = omega arith
rank-elements _ h = absurd (false≢true h)

rank_inline :
    (t : DemoType) → type_kinds t ≡ struct_kind → type_names t ≡ [] → field_ranks t < ranks t
rank_inline page_type is unnamed = omega arith
rank_inline user_type is unnamed = absurd (omega (arith, ap length unnamed))
rank_inline problem_type is unnamed = absurd (omega (arith, ap length unnamed))
rank_inline _ is unnamed = absurd (false≢true (ap is_struct is))

rank_fields :
    (t : DemoType)
    → All
        (λ (f : StructField host).
          (ranks f.field_type < field_ranks t)
          × (f.anonymous ≡ true
              → is_struct (type_kinds (promoted_type types f.field_type)) ≡ true
              → field_ranks (promoted_type types f.field_type) < field_ranks t))
        (demo_fields t)
rank_fields user_type =
    ((omega arith, λ h. absurd (false≢true h)), ((omega arith, λ h. absurd (false≢true h)), tt))
rank_fields page_type = ((omega arith, λ h is. omega arith), tt)
rank_fields problem_type = ((omega arith, λ h. absurd (false≢true h)), tt)
rank_fields _ = tt

rank_bound : (t : DemoType) → ranks t ≤ 5
rank_bound t = grind arith

field_rank_bound : (t : DemoType) → field_ranks t ≤ 5
field_rank_bound t = grind arith

types_listed :
    (t : DemoType)
    → type_kinds t ≡ struct_kind
    → type_names t ≢ []
    → Any (λ n. n ≡ type_texts t) names
types_listed user_type is named = inr (inr (inl refl))
types_listed problem_type is named = inr (inr (inr (inl refl)))
types_listed _ is named = absurd (named refl)

pub grounded : IsGrounded types names 5
grounded = record {
  rank = ranks;
  field_rank = field_ranks;
  rank-elem_type = rank-elements;
  rank_inline = rank_inline;
  rank_fields = rank_fields;
  rank_bound = rank_bound;
  field_rank_bound = field_rank_bound;
  listed = types_listed;
}

abbrev no_schemas : Schemas
no_schemas = []

IsClosed-empty : IsClosed no_schemas
unfolding lookup
IsClosed-empty name s h = cc

abbrev other_entry : Schemas
other_entry = (codes "main.Other", any_value) ∷ []

-- The component of a node, which refers to itself.
abbrev pub node_component : Schema
node_component = object_schema (
    property (codes "name") (typed (codes "string") []) (
      property (codes "next") (reference (codes "demo.Node"))
        (property (codes "at") (typed (codes "string") (codes "date-time")) no_properties)))

abbrev nodes_table : Schemas
nodes_table = (codes "main.Other", any_value) ∷ (codes "demo.Node", node_component) ∷ []

nodes_test :
    message_ref messages tt 5 node other_entry ≡ some (reference (codes "demo.Node"), nodes_table)
unfolding message_ref well_known_schema text_eq lookup insert set_property
nodes_test = refl

users_room : need types names 5 grounded (missing names []) (grounded.rank page_type) < 30
unfolding missing lookup grounded
users_room = omega arith

dto_schema-returns_example :
    (s : Schema) × (st' : Schemas) × (dto_schema types 30 page_type [] ≡ some (s, st'))
    × SchemaOk st' s
dto_schema-returns_example =
    dto_schema-returns types names 5 grounded 30 page_type [] IsClosed-empty users_room

abbrev users_table : Schemas
users_table =
    (codes "main.Other", any_value)
    ∷ (
      codes "main.User",
      object_schema (
          property (codes "name") (typed (codes "string") []) (
            property (codes "Friends") (array_schema (reference (codes "main.User")))
              no_properties)),
    )
    ∷ []

users_test :
    dto_schema types 30 friends_type other_entry
    ≡ some (array_schema (reference (codes "main.User")), users_table)
unfolding dto_schema text_eq lookup insert set_property cut_before
users_test = refl
