-- ===== src/OpenApi/Protos.antt =====
-- openapi/protoschema.go: the schemas of proto messages, by their descriptors.
pub mod Runs
pub mod Named
pub mod Fuel
pub mod Shapes
pub mod Protojson
pub mod Forms
pub mod Fields
pub mod Values
pub mod Sound
use grpc_composition.Common.{
  ℕ, zero, suc, Bool, List, [], ◌∷◌, map, none, some, Text, codes, if◌then◌else◌,
}
use grpc_composition.Host.{Host}
use grpc_composition.Bind.Enums.{EnumDescriptor}
use grpc_composition.OpenApi.Schema.{
  Schema, MaybeSchema, Properties, schema, absent, present, no_properties, property, typed,
  any_value, enum_schema, set_property, object_schema, array_schema, map_schema, well_known_schema,
}
use grpc_composition.OpenApi.Components.{Schemas, Step, pure, bind_step, component}

-- `protoreflect.Kind`; `unnamed_kind` is any other number.
pub data Kind : Type 0 where
  bool_kind enum_kind int32_kind sint32_kind uint32_kind int64_kind sint64_kind uint64_kind
        sfixed32_kind fixed32_kind float_kind sfixed64_kind fixed64_kind double_kind string_kind
        bytes_kind message_kind group_kind :
      Kind
  unnamed_kind : ℕ → Kind

-- Package protoreflect, at the methods that the generator calls, and the two fields of
-- `protojson.MarshalOptions` that it reads.
pub record Protoreflect (H : Host) : Type 1 where
  pub MessageDescriptor : Type 0
  pub FieldDescriptor : Type 0
  pub descriptor : H.Message → MessageDescriptor
  pub full_name : MessageDescriptor → Text
  pub fields : MessageDescriptor → List FieldDescriptor
  pub json_name : FieldDescriptor → Text
  pub text_name : FieldDescriptor → Text
  pub is_map : FieldDescriptor → Bool
  pub is_list : FieldDescriptor → Bool
  pub map_value : FieldDescriptor → FieldDescriptor
  pub kind : FieldDescriptor → Kind
  pub enum_type : FieldDescriptor → EnumDescriptor
  pub message_type : FieldDescriptor → MessageDescriptor
  pub use_proto_names : H.MarshalOptions → Bool
  pub use_enum_numbers : H.MarshalOptions → Bool

-- `enumValueNames`.
unfoldable pub enum_value_names : EnumDescriptor → List Text
enum_value_names desc = map (λ v. v.name) desc.values

module _ {H : Host} (R : Protoreflect H) (opts : H.MarshalOptions) where
  -- The parts of a message's schema, over `call`, which is `messageRef` on the messages below.
  module _ (call : R.MessageDescriptor → Step Schema) where
    -- The `switch` of `singularSchema`.
    kind_schema : Kind → R.FieldDescriptor → Step Schema
    unfolding enum_value_names
    kind_schema bool_kind fd = pure (typed (codes "boolean") [])
    kind_schema int32_kind fd = pure (typed (codes "integer") (codes "int32"))
    kind_schema sint32_kind fd = pure (typed (codes "integer") (codes "int32"))
    kind_schema sfixed32_kind fd = pure (typed (codes "integer") (codes "int32"))
    kind_schema uint32_kind fd = pure (typed (codes "integer") [])
    kind_schema fixed32_kind fd = pure (typed (codes "integer") [])
    kind_schema int64_kind fd = pure (typed (codes "string") (codes "int64"))
    kind_schema sint64_kind fd = pure (typed (codes "string") (codes "int64"))
    kind_schema sfixed64_kind fd = pure (typed (codes "string") (codes "int64"))
    kind_schema uint64_kind fd = pure (typed (codes "string") (codes "int64"))
    kind_schema fixed64_kind fd = pure (typed (codes "string") (codes "int64"))
    kind_schema float_kind fd = pure (typed (codes "number") (codes "float"))
    kind_schema double_kind fd = pure (typed (codes "number") (codes "double"))
    kind_schema string_kind fd = pure (typed (codes "string") [])
    kind_schema bytes_kind fd = pure (typed (codes "string") (codes "byte"))
    kind_schema enum_kind fd = pure (
        if R.use_enum_numbers opts
        then typed (codes "integer") (codes "int32")
        else enum_schema (enum_value_names (R.enum_type fd)))
    kind_schema message_kind fd = call (R.message_type fd)
    kind_schema group_kind fd = call (R.message_type fd)
    kind_schema (unnamed_kind _) fd = pure any_value

    -- `singularSchema`.
    unfoldable pub singular_schema : R.FieldDescriptor → Step Schema
    unfolding kind_schema
    singular_schema fd = kind_schema (R.kind fd) fd

    -- `fieldSchema`.
    unfoldable pub field_schema : R.FieldDescriptor → Step Schema
    unfolding singular_schema
    field_schema fd =
        if R.is_map fd
        then bind_step (singular_schema (R.map_value fd)) (λ s. pure (map_schema s))
        else bind_step (singular_schema fd)
            (λ s. if R.is_list fd then pure (array_schema s) else pure s)

    -- The key of a field in the loop of `messageSchema`.
    abbrev property_name : R.FieldDescriptor → Text
    property_name fd = if R.use_proto_names opts then R.text_name fd else R.json_name fd

    -- The loop.
    unfoldable pub add_fields : List R.FieldDescriptor → Properties → Step Properties
    unfolding field_schema
    add_fields [] properties = pure properties
    add_fields (fd ∷ fds) properties =
        bind_step (field_schema fd)
          (λ s. add_fields fds (set_property (property_name fd) s properties))

    -- `messageSchema`.
    unfoldable pub message_schema : R.MessageDescriptor → Step Schema
    unfolding add_fields
    message_schema md =
        bind_step (add_fields (R.fields md) no_properties)
          (λ properties. pure (object_schema properties))

  -- `messageRef`, on fuel, since messages may hold themselves.
  unfoldable pub message_ref : ℕ → R.MessageDescriptor → Step Schema
  unfolding well_known_schema message_schema
  message_ref zero md st = none
  message_ref (suc fuel) md st =
      let name = R.full_name md in
      elim (well_known_schema name) [
        | some s ↦ some (s, st)
        | none ↦ component name (message_schema (message_ref fuel) md) st
      ]

  -- `protoSchema`.
  unfoldable pub proto_schema : ℕ → H.Message → Step Schema
  unfolding message_ref
  proto_schema fuel m = message_ref fuel (R.descriptor m)
