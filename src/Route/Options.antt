-- ===== src/Route/Options.antt =====
-- The option methods of a route: what a sequence of calls of them puts in force.
use grpc_composition.Common.{
  ℕ, ◌≡◌, refl, sym, ap, ◌∙◌, List, [], ◌∷◌, Option, none, some, last_some, or_else,
}
use grpc_composition.Spec.{Doc}
use grpc_composition.Host.{Host, Err, Value, ErrorMapper}
use grpc_composition.Route.{
  Route, to_error_mapper, map_response, on_success, with_error_mapper, with_marshal_options,
  with_doc,
}
use grpc_composition.Route.Settings.{or_else-last_some}

-- A call of an option method of a route.
pub data RouteOption (H : Host) (Resp : Type 0) : Type 1 where
  maps : {Out : Type 0} → (Out → Value H) → H.GoType → Option (Resp → Out) → RouteOption H Resp
  succeeds_with : ℕ → RouteOption H Resp
  maps_errors : {Body : Type 0} → (Body → Value H) → Option (Err H → ℕ × Body) → RouteOption H Resp
  marshals : H.MarshalOptions → RouteOption H Resp
  documents : Doc → RouteOption H Resp

module _ (H : Host) where
  module _ {Req Resp : Type 0} where
    abbrev pub apply_option : RouteOption H Resp → Route H Req Resp → Route H Req Resp
    apply_option (maps to_any out fn) rt = map_response H to_any out fn rt
    apply_option (succeeds_with status) rt = on_success H status rt
    apply_option (maps_errors to_any fn) rt = with_error_mapper H to_any fn rt
    apply_option (marshals o) rt = with_marshal_options H o rt
    apply_option (documents d) rt = with_doc H d rt

    abbrev pub apply_options : List (RouteOption H Resp) → Route H Req Resp → Route H Req Resp
    apply_options [] rt = rt
    apply_options (x ∷ xs) rt = apply_options xs (apply_option x rt)

  module _ {Resp : Type 0} where
    -- What one option puts in force, if it is about it; `none` inside is nil.
    abbrev pub map_option : RouteOption H Resp → Option (Option (Resp → Value H))
    map_option (maps to_any out none) = some none
    map_option (maps to_any out (some fn)) = some (some (λ resp. to_any (fn resp)))
    map_option _ = none

    abbrev pub status_option : RouteOption H Resp → Option ℕ
    status_option (succeeds_with status) = some status
    status_option _ = none

    abbrev pub mapper_option : RouteOption H Resp → Option (Option (ErrorMapper H))
    mapper_option (maps_errors to_any none) = some none
    mapper_option (maps_errors to_any (some fn)) = some (some (λ e. ((fn e).0, to_any (fn e).1)))
    mapper_option _ = none

    abbrev pub marshal_option : RouteOption H Resp → Option (Option H.MarshalOptions)
    marshal_option (marshals o) = some (some o)
    marshal_option _ = none

    pub record Configures {Req : Type 0} (xs : List (RouteOption H Resp))
        (rt rt' : Route H Req Resp) : Type 1 where
      pub method_kept : rt'.method ≡ rt.method
      pub binders_kept : rt'.binders ≡ rt.binders
      pub map_lem : rt'.mapper ≡ or_else (last_some map_option xs) rt.mapper
      pub status_lem : rt'.success_status ≡ or_else (last_some status_option xs) rt.success_status
      pub mapper_lem : rt'.error_mapper ≡ or_else (last_some mapper_option xs) rt.error_mapper
      pub marshal_lem : rt'.marshal ≡ or_else (last_some marshal_option xs) rt.marshal

    apply_option-Configures :
        {Req : Type 0} (x : RouteOption H Resp) (rt : Route H Req Resp)
        → Configures (x ∷ []) rt (apply_option x rt)
    unfolding map_response on_success with_error_mapper with_marshal_options with_doc
        to_error_mapper
    apply_option-Configures (maps to_any out none) rt = record {
      method_kept = refl;
      binders_kept = refl;
      map_lem = refl;
      status_lem = refl;
      mapper_lem = refl;
      marshal_lem = refl;
    }
    apply_option-Configures (maps to_any out (some fn)) rt = record {
      method_kept = refl;
      binders_kept = refl;
      map_lem = refl;
      status_lem = refl;
      mapper_lem = refl;
      marshal_lem = refl;
    }
    apply_option-Configures (succeeds_with status) rt = record {
      method_kept = refl;
      binders_kept = refl;
      map_lem = refl;
      status_lem = refl;
      mapper_lem = refl;
      marshal_lem = refl;
    }
    apply_option-Configures (maps_errors to_any none) rt = record {
      method_kept = refl;
      binders_kept = refl;
      map_lem = refl;
      status_lem = refl;
      mapper_lem = refl;
      marshal_lem = refl;
    }
    apply_option-Configures (maps_errors to_any (some fn)) rt = record {
      method_kept = refl;
      binders_kept = refl;
      map_lem = refl;
      status_lem = refl;
      mapper_lem = refl;
      marshal_lem = refl;
    }
    apply_option-Configures (marshals o) rt = record {
      method_kept = refl;
      binders_kept = refl;
      map_lem = refl;
      status_lem = refl;
      mapper_lem = refl;
      marshal_lem = refl;
    }
    apply_option-Configures (documents d) rt = record {
      method_kept = refl;
      binders_kept = refl;
      map_lem = refl;
      status_lem = refl;
      mapper_lem = refl;
      marshal_lem = refl;
    }

    pub apply_options-Configures :
        {Req : Type 0} (xs : List (RouteOption H Resp)) (rt : Route H Req Resp)
        → Configures xs rt (apply_options xs rt)
    apply_options-Configures [] rt = record {
      method_kept = refl;
      binders_kept = refl;
      map_lem = refl;
      status_lem = refl;
      mapper_lem = refl;
      marshal_lem = refl;
    }
    apply_options-Configures (x ∷ xs) rt =
        let one = apply_option-Configures x rt in
        let rest = apply_options-Configures xs (apply_option x rt) in
        record {
          method_kept = rest.method_kept ∙ one.method_kept;
          binders_kept = rest.binders_kept ∙ one.binders_kept;
          map_lem =
              rest.map_lem
              ∙ (ap (or_else (last_some map_option xs)) one.map_lem
                  ∙ sym (or_else-last_some map_option x xs rt.mapper));
          status_lem =
              rest.status_lem
              ∙ (ap (or_else (last_some status_option xs)) one.status_lem
                  ∙ sym (or_else-last_some status_option x xs rt.success_status));
          mapper_lem =
              rest.mapper_lem
              ∙ (ap (or_else (last_some mapper_option xs)) one.mapper_lem
                  ∙ sym (or_else-last_some mapper_option x xs rt.error_mapper));
          marshal_lem =
              rest.marshal_lem
              ∙ (ap (or_else (last_some marshal_option xs)) one.marshal_lem
                  ∙ sym (or_else-last_some marshal_option x xs rt.marshal));
        }
