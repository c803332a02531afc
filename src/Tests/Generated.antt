-- ===== src/Tests/Generated.antt =====
-- The document of two concrete routes.
use grpc_composition.Common.{
  ◌+◌, ◌≤◌, ◌≡◌, refl, true, false, List, [], ◌∷◌, Option, none, some, arith, Text, codes, text_eq,
  lookup, insert, All,
}
use grpc_composition.Std.Http.{status_text}
use grpc_composition.Spec.{ParamSpec, Doc, OperationInfo, in_path}
use grpc_composition.Tests.Schemas.{
  host, messages, types, names, messages_listed, grounded, node_component,
}
use grpc_composition.OpenApi.{PathItem}
use grpc_composition.OpenApi.Items.{is_verb, documented}
use grpc_composition.OpenApi.Schema.{
  Schema, parameter_of, set_property, typed, object_schema, property, no_properties,
}
use grpc_composition.OpenApi.Components.{reference}
use grpc_composition.OpenApi.Components.Outcomes.{SchemaOk}
use grpc_composition.OpenApi.Generate.{
  Info, Operation, RequestBody, Document, json_content, problem_content, generate,
}
use grpc_composition.OpenApi.Generate.Runs.{enough}
use grpc_composition.OpenApi.Generate.References.{Says}
use grpc_composition.OpenApi.Generate.Matches.{route_of, Answers}
use grpc_composition.OpenApi.Generate.Resolved.{
  schemas_of, generate-returns, generate-components, generate-documents,
}

abbrev doc_of : Text → Doc
doc_of name = record {
  operation_id = name;
  summary = [];
  description = [];
  tags = [];
  deprecated = false;
}

abbrev id_param : ParamSpec
id_param = record {
  location = in_path;
  name = codes "id";
  type_name = codes "string";
  format = [];
  enum_values = [];
  required = true;
}

abbrev pub get_node : OperationInfo host
get_node = record {
  method = codes "GET";
  pattern_text = codes "/nodes/{id...}";
  doc = doc_of (codes "get-node");
  success_status = 200;
  params = id_param ∷ [];
  body = none;
  response_proto = some [];
  response_dto = none;
  marshal = tt;
}

abbrev pub put_node : OperationInfo host
put_node = record {
  method = codes "PUT";
  pattern_text = codes "/nodes/{id}";
  doc = doc_of (codes "put-node");
  success_status = 201;
  params = id_param ∷ [];
  body = some (record { proto = some []; dto = none });
  response_proto = some [];
  response_dto = none;
  marshal = tt;
}

abbrev pub routes : List (OperationInfo host)
routes = get_node ∷ put_node ∷ []

abbrev pub title : Info
title = record { title = codes "nodes"; version = codes "1.0.0"; description = [] }

abbrev node_ref : Schema
node_ref = reference (codes "demo.Node")

abbrev node_operation : Text → Text → Text → Option RequestBody → Operation
node_operation name status reason body = record {
  operation_id = name;
  summary = [];
  description = [];
  tags = [];
  deprecated = false;
  parameters = parameter_of id_param ∷ [];
  request_body = body;
  responses =
      (status, record { description = reason; content = json_content node_ref })
      ∷ (
        codes "default",
        record {
          description = codes "Error";
          content = problem_content (reference (codes "composition.ProblemDetails"));
        },
      )
      ∷ [];
}

abbrev nodes_item : PathItem Operation
nodes_item = record {
  get_op = some (node_operation (codes "get-node") (codes "200") (codes "OK") none);
  post_op = none;
  put_op = some (
      node_operation (codes "put-node") (codes "201") (codes "Created")
        (some (record { required = true; content = json_content node_ref })));
  patch_op = none;
  delete_op = none;
}

abbrev pub document : Document
document = record {
  openapi = codes "3.1.0";
  info = title;
  paths = (codes "/nodes/{id}", nodes_item) ∷ [];
  components = some (record {
    schemas =
        (codes "demo.Node", node_component)
        ∷ (
          codes "composition.ProblemDetails",
          object_schema (property (codes "title") (typed (codes "string") []) no_properties),
        )
        ∷ [];
  });
}

pub generate_test : generate messages types 30 routes title ≡ some document
unfolding generate text_eq lookup insert status_text set_property
generate_test = refl

pub room : enough names 5 ≤ 30
room = omega arith

pub routes_known : All (λ (op : OperationInfo host). is_verb op.method ≡ true) routes
unfolding text_eq
routes_known = (refl, (refl, tt))

generate-returns_example :
    (doc : Document) × (generate messages types 30 routes title ≡ some doc)
    × (generate messages types (70 + 30) routes title ≡ some doc)
    × (doc.openapi ≡ codes "3.1.0")
    × (doc.info ≡ title)
generate-returns_example =
    generate-returns messages types names 5 grounded messages_listed 30 room routes title 70

node_there : lookup (codes "demo.Node") (schemas_of document) ≡ some node_component
unfolding lookup text_eq
node_there = refl

generate-components_example : SchemaOk (schemas_of document) node_component
generate-components_example =
    generate-components messages types names 5 grounded messages_listed 30 room routes title
      document (codes "demo.Node") node_component generate_test node_there

generate-documents_example :
    Answers
      (Says (schemas_of document))
      (route_of (codes "/nodes/{id}") (codes "PUT") routes)
      (documented document.paths (codes "/nodes/{id}") (codes "PUT"))
generate-documents_example =
    generate-documents messages types names 5 grounded messages_listed 30 room routes title document
      (codes "/nodes/{id}") (codes "PUT") generate_test routes_known
