-- ===== src/Route.antt =====
-- composition.go: `Route`, its options, its documentation, and `ServeHTTP`.
pub mod Settings
pub mod Options
pub mod Configured
pub mod Serve
pub mod Info
use grpc_composition.Common.{
  ℕ, zero, suc, ◌+◌, ◌-◌, ◌*◌, ◌^◌, ◌%◌, ◌≤◌, ◌<◌, ◌≡◌, refl, sym, ap, ◌∙◌, ◌≢◌, ◌↔◌, ◌⊎◌, inl, inr,
  Bool, true, false, not, ◌&&◌, ◌||◌, List, [], ◌∷◌, ◌++◌, map, append-nil, append_assoc, Option,
  none, some, arith, Text, codes, ◌==◌, leb, ltb, if◌then◌else◌, text_eq, text_eq_iff, text_eq_refl,
  Result, ok, err, is_empty, ◌>>=◌, map_err, Result-cases, Option-cases, Bool-cases, length,
  length-append, lookup, insert, lookup-insert, NodupKeys,
}
use grpc_composition.Std.Http.{Writer, status_text}
use grpc_composition.Problem.{blank_problem, problem}
use grpc_composition.Host.{Host, Err, Request, Value, ErrorMapper, error_text}
use grpc_composition.Spec.{Doc, ParamSpec, BodySpec, OperationInfo}
use grpc_composition.Globals.{Globals, Binder, ResponseType}
use grpc_composition.Response.{bind_error_status, write_error, write_json, write_response}

-- `UnaryMethod`. A call reads the context and may change the services behind the client.
abbrev pub UnaryMethod : Host → Type 0 → Type 0 → Type 0
UnaryMethod H Req Resp = H.Context → Req → H.Backend → Result (Err H) Resp × H.Backend

-- `Route`. Where a field may be nil it is an `Option`.
pub record Route (H : Host) (Req Resp : Type 0) : Type 0 where
  pub method : UnaryMethod H Req Resp
  pub binders : List (Binder H Req)
  pub mapper : Option (Resp → Value H)
  pub map_out : Option H.GoType
  pub success_status : ℕ
  pub error_mapper : Option (ErrorMapper H)
  pub marshal : Option H.MarshalOptions
  pub doc : Doc

abbrev blank_doc : Doc
blank_doc = record {
  operation_id = [];
  summary = [];
  description = [];
  tags = [];
  deprecated = false;
}

module _ (H : Host) where
  -- `toErrorMapper`, with the conversion of the body type to `any`. A nil mapper stays nil.
  unfoldable pub to_error_mapper :
      {Body : Type 0} → (Body → Value H) → Option (Err H → ℕ × Body) → Option (ErrorMapper H)
  to_error_mapper to_any none = none
  to_error_mapper to_any (some fn) = some (λ e. let (status, body) = fn e in (status, to_any body))

  module _ {Req Resp : Type 0} where
    -- `Proxy`.
    unfoldable pub proxy : UnaryMethod H Req Resp → List (Binder H Req) → Route H Req Resp
    proxy method binders = record {
      method = method;
      binders = binders;
      mapper = none;
      map_out = none;
      success_status = 200;
      error_mapper = none;
      marshal = none;
      doc = blank_doc;
    }

    -- `Map`, with the conversion of the DTO type to `any` and its `reflect.Type`.
    unfoldable pub map_response :
        {Out : Type 0}
        → (Out → Value H)
        → H.GoType
        → Option (Resp → Out)
        → Route H Req Resp
        → Route H Req Resp
    map_response to_any out none rt = record rt { mapper = none; map_out = none }
    map_response to_any out (some fn) rt = record rt {
      mapper = some (λ resp. to_any (fn resp));
      map_out = some out;
    }

    -- `OnSuccess`.
    unfoldable pub on_success : ℕ → Route H Req Resp → Route H Req Resp
    on_success status rt = record rt { success_status = status }

    -- `WithErrorMapper`.
    unfoldable pub with_error_mapper :
        {Body : Type 0}
        → (Body → Value H)
        → Option (Err H → ℕ × Body)
        → Route H Req Resp
        → Route H Req Resp
    unfolding to_error_mapper
    with_error_mapper to_any fn rt = record rt { error_mapper = to_error_mapper to_any fn }

    -- `WithMarshalOptions`.
    unfoldable pub with_marshal_options : H.MarshalOptions → Route H Req Resp → Route H Req Resp
    with_marshal_options o rt = record rt { marshal = some o }

    -- `Doc`.
    unfoldable pub with_doc : Doc → Route H Req Resp → Route H Req Resp
    with_doc d rt = record rt { doc = d }

    -- `marshalOptions`.
    unfoldable pub marshal_options : Globals H → Route H Req Resp → H.MarshalOptions
    marshal_options g rt = elim rt.marshal [ some o ↦ o | none ↦ g.marshal ]

  -- One round of the loop of `operationInfo`.
  add_params : OperationInfo H → Option ParamSpec → OperationInfo H
  add_params info none = info
  add_params info (some spec) = record info { params = info.params ++ (spec ∷ []) }

  add_body : OperationInfo H → Option (BodySpec H) → OperationInfo H
  add_body info none = info
  add_body info (some spec) = record info { body = some spec }

  add_binders : {Req : Type 0} → OperationInfo H → List (Binder H Req) → OperationInfo H
  add_binders info [] = info
  add_binders info (b ∷ bs) = add_binders (add_body (add_params info b.param_spec) b.body_spec) bs

  -- The `switch` at its end.
  add_response :
      {Resp : Type 0} → ResponseType H Resp → OperationInfo H → Option H.GoType → OperationInfo H
  add_response t info (some out) = record info { response_dto = some out }
  add_response t info none = record info { response_proto = t.prototype }

  -- The loop of `ServeHTTP` over the binders.
  unfoldable pub bind_all :
      {Req : Type 0}
      → Globals H
      → List (Binder H Req)
      → Req
      → Request H
      → Result (Err H) (Req × Request H)
  bind_all g [] req r = ok (req, r)
  bind_all g (b ∷ bs) req r = b.bind g r req >>= λ (req', r'). bind_all g bs req' r'

  -- The error mapper in force.
  abbrev pub effective_mapper : Globals H → Option (ErrorMapper H) → ErrorMapper H
  effective_mapper g none = g.error_mapper
  effective_mapper g (some mapper) = mapper

  -- The answer to an error of a binder.
  unfoldable pub write_bind_error : Writer → Err H → Writer
  unfolding bind_error_status write_error
  write_bind_error w e =
      let code = bind_error_status H e in
      write_error H w code (
        problem (record (blank_problem code (status_text code)) {
          detail = codes "bind: " ++ error_text H e;
        }))

  module _ {Req Resp : Type 0} where
    -- `operationInfo`.
    unfoldable pub operation_info :
        Globals H → ResponseType H Resp → Route H Req Resp → OperationInfo H
    unfolding marshal_options add_params add_body add_binders add_response
    operation_info g t rt =
        let info : OperationInfo H = record {
          method = [];
          pattern_text = [];
          doc = rt.doc;
          success_status = rt.success_status;
          params = [];
          body = none;
          response_proto = none;
          response_dto = none;
          marshal = marshal_options g rt;
        } in
        add_response t (add_binders info rt.binders) rt.map_out

    -- The end of `ServeHTTP`, once the method has returned.
    unfoldable pub write_result :
        Globals H → ResponseType H Resp → Route H Req Resp → Writer → Result (Err H) Resp → Writer
    unfolding write_error write_json write_response marshal_options
    write_result g t rt w (err e) =
        let (status, body) = effective_mapper g rt.error_mapper e in write_error H w status body
    write_result g t rt w (ok resp) = elim rt.mapper [
      | some f ↦ write_json H w rt.success_status (f resp)
      | none ↦ write_response H w rt.success_status (t.to_any resp) (marshal_options g rt)
    ]

    -- `ServeHTTP`, from the zero value of `Req`.
    unfoldable pub serve_http :
        Globals H
        → ResponseType H Resp
        → Req
        → Route H Req Resp
        → Writer
        → Request H
        → H.Backend
        → Writer × H.Backend
    unfolding bind_all write_bind_error write_result
    serve_http g t zero_req rt w r s = elim (bind_all g rt.binders zero_req r) [
      | err e ↦ (write_bind_error w e, s)
      | ok (req, r') ↦
          let (result, s') = rt.method r'.context req s in (write_result g t rt w result, s')
    ]
