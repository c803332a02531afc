-- ===== src/Aggregate.antt =====
-- aggregate.go: `AggregateRoute`.
pub mod Serve
use grpc_composition.Common.{
  ℕ, zero, suc, ◌+◌, ◌-◌, ◌*◌, ◌^◌, ◌%◌, ◌≤◌, ◌<◌, ◌≡◌, refl, sym, ap, ◌∙◌, ◌≢◌, ◌↔◌, ◌⊎◌, inl, inr,
  Bool, true, false, not, ◌&&◌, ◌||◌, List, [], ◌∷◌, ◌++◌, map, append-nil, append_assoc, Option,
  none, some, arith, Text, codes, ◌==◌, leb, ltb, if◌then◌else◌, text_eq, text_eq_iff, text_eq_refl,
  Result, ok, err, is_empty, ◌>>=◌, map_err, Result-cases, Option-cases, Bool-cases, length,
  length-append, lookup, insert, lookup-insert, NodupKeys,
}
use grpc_composition.Std.Http.{Writer}
use grpc_composition.Host.{Host, Err, Request, Value, ErrorMapper}
use grpc_composition.Globals.{Globals}
use grpc_composition.Response.{write_error, write_response}
use grpc_composition.Route.{to_error_mapper, effective_mapper}

-- `AggregateFunc`. The handler may call services, which changes them.
abbrev pub AggregateFunc : Host → Type 0
AggregateFunc H = H.Context → Request H → H.Backend → Result (Err H) (Value H) × H.Backend

pub record AggregateRoute (H : Host) : Type 0 where
  pub fn : AggregateFunc H
  pub success_status : ℕ
  pub error_mapper : Option (ErrorMapper H)
  pub marshal : Option H.MarshalOptions

module _ (H : Host) where
  -- `Aggregate`.
  unfoldable pub aggregate : AggregateFunc H → AggregateRoute H
  aggregate fn = record { fn = fn; success_status = 200; error_mapper = none; marshal = none }

  -- `OnSuccess`.
  unfoldable pub on_success : ℕ → AggregateRoute H → AggregateRoute H
  on_success status rt = record rt { success_status = status }

  -- `WithErrorMapper`.
  unfoldable pub with_error_mapper :
      {Body : Type 0}
      → (Body → Value H)
      → Option (Err H → ℕ × Body)
      → AggregateRoute H
      → AggregateRoute H
  unfolding to_error_mapper
  with_error_mapper to_any fn rt = record rt { error_mapper = to_error_mapper H to_any fn }

  -- `WithMarshalOptions`.
  unfoldable pub with_marshal_options : H.MarshalOptions → AggregateRoute H → AggregateRoute H
  with_marshal_options o rt = record rt { marshal = some o }

  -- The end of `ServeHTTP`, once the handler has returned.
  unfoldable pub write_result :
      Globals H → AggregateRoute H → Writer → Result (Err H) (Value H) → Writer
  unfolding write_error write_response
  write_result g rt w (err e) =
      let (status, body) = effective_mapper H g rt.error_mapper e in write_error H w status body
  write_result g rt w (ok body) =
      let marshal : H.MarshalOptions = elim rt.marshal [ some o ↦ o | none ↦ g.marshal ] in
      write_response H w rt.success_status body marshal

  -- `ServeHTTP`.
  unfoldable pub serve_http :
      Globals H → AggregateRoute H → Writer → Request H → H.Backend → Writer × H.Backend
  unfolding write_result
  serve_http g rt w r s = let (result, s') = rt.fn r.context r s in (write_result g rt w result, s')
