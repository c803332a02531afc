-- ===== src/Bind/Body.antt =====
-- bind/body.go: binders that consume the request body.
pub mod Limit
use grpc_composition.Common.{
  ℕ, zero, suc, ◌+◌, ◌-◌, ◌*◌, ◌^◌, ◌%◌, ◌≤◌, ◌<◌, ◌≡◌, refl, sym, ap, ◌∙◌, ◌≢◌, ◌↔◌, ◌⊎◌, inl, inr,
  Bool, true, false, not, ◌&&◌, ◌||◌, List, [], ◌∷◌, ◌++◌, map, append-nil, append_assoc, Option,
  none, some, arith, Text, codes, ◌==◌, leb, ltb, if◌then◌else◌, text_eq, text_eq_iff, text_eq_refl,
  Result, ok, err, is_empty, ◌>>=◌, map_err, Result-cases, ok-injective, Option-cases, Bool-cases,
  length, length-append, lookup, insert, lookup-insert, NodupKeys, last_some, or_else, or_option,
  gather,
}
use grpc_composition.Std.Errors.{max_bytes}
use grpc_composition.Std.Strconv.{ℤ, pos, negsuc, succ_int64}
use grpc_composition.Std.Http.{Reader, read_all, limit_reader, drop}
use grpc_composition.Host.{Host, Err, Request}
use grpc_composition.Spec.{BodySpec}
use grpc_composition.Globals.{Globals, Binder}

module _ (H : Host) where
  -- The request once a reader limited to `n` bytes, or an unlimited one, has been read to its end.
  after_limit : Request H → ℤ → Request H
  after_limit r (pos n) = record r { body = record r.body { content = drop n r.body.content } }
  after_limit r (negsuc n) = r

  after_all : Request H → Request H
  after_all r = record r { body = record r.body { content = [] } }

  -- `readBody` under the limit `limit`: one byte more is read, to notice a longer body.
  read_limited : ℕ → Request H → Result (Err H) (Text × Request H)
  unfolding after_limit succ_int64 limit_reader read_all
  read_limited limit r = read_all (limit_reader r.body (succ_int64 (pos limit))) >>= λ bytes.
      if ltb limit (length bytes)
      then err max_bytes
      else ok (bytes, after_limit r (succ_int64 (pos limit)))

  -- `readBody`: the bytes, and the request with what is left unread.
  unfoldable pub read_body : Globals H → Request H → Result (Err H) (Text × Request H)
  unfolding read_limited after_all read_all
  read_body g r = elim g.max_body_bytes [
    | pos limit ↦
        if limit == 0
        then (read_all r.body >>= λ bytes. ok (bytes, after_all r))
        else read_limited limit r
    | negsuc _ ↦ read_all r.body >>= λ bytes. ok (bytes, after_all r)
  ]

  module _ {Req : Type 0} where
    -- `bodyBinder`: the body is read and handed to `use_body`, with the metadata.
    abbrev body_binder : (Text → Req → Result (Err H) Req) → BodySpec H → Binder H Req
    body_binder use_body spec = record {
      bind =
          λ g r req. read_body g r >>= λ (bytes, r'). use_body bytes req >>= λ req'. ok (req', r');
      param_spec = none;
      body_spec = some spec;
    }

    -- `BodyJSON`, over `protojson.Unmarshal` and the prototype `new(Req)`.
    unfoldable pub body_json : (Text → Req → Result (Err H) Req) → H.Message → Binder H Req
    unfolding read_body
    body_json unmarshal prototype =
        body_binder unmarshal (record { proto = some prototype; dto = none })

    module _ {Dto : Type 0} where
      -- `BodyJSONInto`, over `json.Unmarshal` into a zero DTO and the type of the DTO.
      unfoldable pub body_json_into :
          (Text → Result (Err H) Dto) → H.GoType → (Dto → Req → Result (Err H) Req) → Binder H Req
      unfolding read_body
      body_json_into unmarshal dto_type apply =
          body_binder (λ bytes req. unmarshal bytes >>= λ dto. apply dto req)
            (record { proto = none; dto = some dto_type })

      -- `BodyJSONMap`.
      unfoldable pub body_json_map :
          (Text → Result (Err H) Dto) → H.GoType → (Dto → Req → Req) → Binder H Req
      unfolding read_body
      body_json_map unmarshal dto_type apply =
          body_binder (λ bytes req. unmarshal bytes >>= λ dto. ok (apply dto req))
            (record { proto = none; dto = some dto_type })

    -- `Body`.
    unfoldable pub body : (Text → Req → Result (Err H) Req) → Binder H Req
    unfolding read_body
    body parse = body_binder parse (record { proto = none; dto = none })
