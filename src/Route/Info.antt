-- ===== src/Route/Info.antt =====
-- The documentation that a route gives of itself.
use grpc_composition.Common.{
  ◌≡◌, ◌∙◌, List, [], ◌∷◌, ◌++◌, append-nil, append_assoc, Option, none, some, arith, last_some,
  or_else, or_option, gather, cons_some,
}
use grpc_composition.Host.{Host}
use grpc_composition.Spec.{ParamSpec, BodySpec, OperationInfo}
use grpc_composition.Globals.{Globals, Binder, ResponseType}
use grpc_composition.Route.{Route, add_params, add_body, add_binders, operation_info}

module _ (H : Host) (info : OperationInfo H) (ps : List ParamSpec)
    (rest : Option (BodySpec H)) where
  -- One round of the loop, in front of what the later rounds gather.
  add_round :
      (p : Option ParamSpec) (q : Option (BodySpec H))
      → let added = add_body H (add_params H info p) q in
        ◌≡◌ {A = OperationInfo H}
          (record added { params = added.params ++ ps; body = or_option rest added.body })
          (record info {
            params = info.params ++ cons_some p ps;
            body = or_option (elim rest [ some b ↦ some b | none ↦ q ]) info.body;
          })
  unfolding add_body add_params
  add_round none none = ground arith
  add_round none (some q) = ground arith
  add_round (some p) none = rw append_assoc (ground arith)
  add_round (some p) (some q) = rw append_assoc (ground arith)

module _ (H : Host) where
  add_binders_lem :
      {Req : Type 0} (info : OperationInfo H) (bs : List (Binder H Req))
      → add_binders H info bs ≡ record info {
        params = info.params ++ gather (λ b. b.param_spec) bs;
        body = or_option (last_some (λ b. b.body_spec) bs) info.body;
      }
  unfolding add_binders
  add_binders_lem info [] = rw append-nil
  add_binders_lem info (b ∷ bs) =
      add_binders_lem (add_body H (add_params H info b.param_spec) b.body_spec) bs
      ∙ add_round H info (gather (λ c. c.param_spec) bs) (last_some (λ c. c.body_spec) bs)
          b.param_spec b.body_spec

  -- A route documents the parameters of all binders that have any, in the order of the binders,
  -- the body of the last binder that has one, its own documentation, status and marshal options,
  -- and as the response the DTO of the `Map` transformer, or else the proto message.
  pub operation_info_lem :
      {Req Resp : Type 0} (g : Globals H) (t : ResponseType H Resp) (rt : Route H Req Resp)
      → operation_info H g t rt ≡ record {
        method = [];
        pattern_text = [];
        doc = rt.doc;
        success_status = rt.success_status;
        params = gather (λ b. b.param_spec) rt.binders;
        body = last_some (λ b. b.body_spec) rt.binders;
        response_proto = elim rt.map_out [ none ↦ t.prototype | some _ ↦ none ];
        response_dto = rt.map_out;
        marshal = or_else rt.marshal g.marshal;
      }
  unfolding operation_info
  operation_info_lem g t rt = rw add_binders_lem (ground arith)
