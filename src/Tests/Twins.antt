-- ===== src/Tests/Twins.antt =====
-- Go types that share their text, and one that is its own element.
use grpc_composition.Common.{
  ◌≡◌, refl, true, false, List, [], ◌∷◌, none, some, codes, text_eq, lookup, insert,
}
use grpc_composition.Host.{Host}
use grpc_composition.Tests.Demo.{demo}
use grpc_composition.OpenApi.Schema.{no_properties, object_schema}
use grpc_composition.OpenApi.Components.{Schemas, reference}
use grpc_composition.OpenApi.Dtos.{
  GoKind, StructField, Reflection, dto_schema, slice_kind, string_kind, struct_kind,
}
use grpc_composition.OpenApi.Dtos.Named.{IsNamedStruct, dto_schema-same_text, dto_schema-diverges}

-- Two structs of packages with one last element, and `type Tree []Tree`.
data Twin : Type 0 where
  v1_item v2_item tree text : Twin

abbrev host : Host
host = record demo { GoType = Twin }

abbrev twin_kinds : Twin → GoKind
twin_kinds v1_item = struct_kind
twin_kinds v2_item = struct_kind
twin_kinds tree = slice_kind
twin_kinds text = string_kind

abbrev twin_fields : Twin → List (StructField host)
twin_fields v2_item =
    record {
      field_name = codes "Name";
      exported = true;
      json_tag = [];
      anonymous = false;
      field_type = text;
    }
    ∷ []
twin_fields _ = []

abbrev twins : Reflection host
twins = record {
  kind = twin_kinds;
  elem_type = λ t. tree;
  type_name = λ t. codes "Item";
  type_text = λ t. codes "api.Item";
  is_time = λ t. false;
  struct_fields = twin_fields;
  problem_details = v1_item;
}

v1_item_named : IsNamedStruct twins v1_item
v1_item_named = record { struct_lem = refl; not_time = refl; named_lem = refl }

v2_item_named : IsNamedStruct twins v2_item
v2_item_named = record { struct_lem = refl; not_time = refl; named_lem = refl }

abbrev items : Schemas
items = (codes "api.Item", object_schema no_properties) ∷ []

v1_item_first : dto_schema twins 3 v1_item [] ≡ some (reference (codes "api.Item"), items)
unfolding dto_schema text_eq lookup insert
v1_item_first = refl

dto_schema-same_text_example :
    dto_schema twins 4 v2_item items ≡ some (reference (codes "api.Item"), items)
dto_schema-same_text_example =
    dto_schema-same_text twins v1_item v2_item 2 3 [] items (reference (codes "api.Item"))
      v1_item_named v2_item_named refl v1_item_first

dto_schema-diverges_example : dto_schema twins 1000 tree items ≡ none
dto_schema-diverges_example = dto_schema-diverges twins tree 1000 items refl refl
