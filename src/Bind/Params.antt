-- ===== src/Bind/Params.antt =====
-- bind/binder.go, path.go, query.go, header.go, ctx.go and the string binders of typed.go.
use grpc_composition.Common.{true, false, [], none, some, Text, codes, Result, ok, ◌>>=◌, map_err}
use grpc_composition.Std.Errors.{wrap}
use grpc_composition.Std.Http.{query_get, header_get}
use grpc_composition.Host.{Host, Err, Request}
use grpc_composition.Spec.{ParamSpec, in_path, in_query, in_header}
use grpc_composition.Globals.{Globals, Binder, binder_func, path_param}

-- `pathSpec`.
unfoldable pub path_spec : Text → Text → Text → ParamSpec
path_spec name typ format = record {
  location = in_path;
  name = name;
  type_name = typ;
  format = format;
  enum_values = [];
  required = true;
}

-- `querySpec`.
unfoldable pub query_spec : Text → Text → Text → ParamSpec
query_spec name typ format = record {
  location = in_query;
  name = name;
  type_name = typ;
  format = format;
  enum_values = [];
  required = false;
}

-- `headerSpec`.
unfoldable pub header_spec : Text → Text → Text → ParamSpec
header_spec name typ format = record {
  location = in_header;
  name = name;
  type_name = typ;
  format = format;
  enum_values = [];
  required = false;
}

abbrev pub string_type : Text
string_type = codes "string"

module _ (H : Host) {Req : Type 0} where
  -- `paramBinder`: a function on the request, which it only reads, and the metadata.
  abbrev pub param_binder :
      (Globals H → Request H → Req → Result (Err H) Req) → ParamSpec → Binder H Req
  param_binder fn spec = record {
    bind = λ g r req. fn g r req >>= λ req'. ok (req', r);
    param_spec = some spec;
    body_spec = none;
  }

  -- `Path`. A setter with an error result.
  unfoldable pub path : Text → (Req → Text → Result (Err H) Req) → Binder H Req
  unfolding path_spec path_param
  path name setter =
      param_binder (λ g r req. setter req (path_param H g r name)) (path_spec name string_type [])

  -- `Query`.
  unfoldable pub query : Text → (Req → Text → Result (Err H) Req) → Binder H Req
  unfolding query_spec query_get
  query name setter =
      param_binder (λ g r req. setter req (query_get r name)) (query_spec name string_type [])

  -- `Header`.
  unfoldable pub header : Text → (Req → Text → Result (Err H) Req) → Binder H Req
  unfolding header_spec header_get
  header name setter =
      param_binder (λ g r req. setter req (header_get r.header name))
        (header_spec name string_type [])

  -- `PathString`.
  unfoldable pub path_string : Text → (Req → Text → Req) → Binder H Req
  unfolding path_spec path_param
  path_string name setter =
      param_binder (λ g r req. ok (setter req (path_param H g r name)))
        (path_spec name string_type [])

  -- `QueryString`.
  unfoldable pub query_string : Text → (Req → Text → Req) → Binder H Req
  unfolding query_spec query_get
  query_string name setter =
      param_binder (λ g r req. ok (setter req (query_get r name))) (query_spec name string_type [])

  -- `HeaderString`.
  unfoldable pub header_string : Text → (Req → Text → Req) → Binder H Req
  unfolding header_spec header_get
  header_string name setter =
      param_binder (λ g r req. ok (setter req (header_get r.header name)))
        (header_spec name string_type [])

  -- `Ctx`: a `BinderFunc`, with no metadata.
  unfoldable pub ctx :
      {V : Type 0} → (H.Context → Result (Err H) V) → (Req → V → Req) → Binder H Req
  unfolding binder_func
  ctx get setter =
      binder_func H
        (λ g r req. map_err (wrap (codes "context")) (get r.context) >>= λ v. ok (setter req v, r))
