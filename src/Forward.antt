-- ===== src/Forward.antt =====
-- app.go: the allowlist of headers, and their way into outgoing gRPC metadata.
pub mod Values
use grpc_composition.Common.{
  ℕ, zero, suc, ◌+◌, ◌-◌, ◌*◌, ◌^◌, ◌%◌, ◌≤◌, ◌<◌, ◌≡◌, refl, sym, ap, ◌∙◌, ◌≢◌, ◌↔◌, ◌⊎◌, inl, inr,
  Bool, true, false, not, ◌&&◌, ◌||◌, List, [], ◌∷◌, ◌++◌, map, append-nil, append_assoc, Option,
  none, some, arith, Text, codes, ◌==◌, leb, ltb, if◌then◌else◌, text_eq, text_eq_iff, text_eq_refl,
  Result, ok, err, is_empty, ◌>>=◌, map_err, Result-cases, ok-injective, Option-cases, Bool-cases,
  length, length-append, lookup, insert, lookup-insert, NodupKeys, last_some, or_else, or_option,
  gather,
}
use grpc_composition.Std.Strings.{to_lower}
use grpc_composition.Std.Http.{HeaderMap, header_values}
use grpc_composition.Host.{Host, Request}

-- The metadata module of gRPC: `New(nil)`, `Append` of one value, `len` and `NewOutgoingContext`;
-- `get` reads the values of a key.
pub record Metadata (H : Host) : Type 1 where
  pub Md : Type 0
  pub new_md : Md
  pub append : Md → Text → Text → Md
  pub size : Md → ℕ
  pub get : Md → Text → List Text
  pub attach : H.Context → Md → H.Context

-- What its documentation says of these: a new map is empty, `Append` adds a value behind those of
-- the key, which it converts to lower case, and leaves the other keys alone.
pub record IsLawful {H : Host} (M : Metadata H) : Type 0 where
  pub size-new : M.size M.new_md ≡ 0
  pub size-append : (md : M.Md) (k v : Text) → M.size (M.append md k v) ≢ 0
  pub get-new : (k : Text) → M.get M.new_md k ≡ []
  pub get-append :
      (md : M.Md) (k v j : Text)
      → M.get (M.append md k v) j
        ≡ (if text_eq (to_lower k) j then M.get md j ++ (v ∷ []) else M.get md j)

-- The loop of `WithMetadataForward` over its arguments.
unfoldable pub add_forwarded : List Text → List Text → List Text
add_forwarded allowed [] = allowed
add_forwarded allowed (h ∷ hs) = add_forwarded (allowed ++ (to_lower h ∷ [])) hs

module _ {H : Host} (M : Metadata H) where
  -- The inner loop of `forwardMetadata`, over the values of one header.
  append_values : M.Md → Text → List Text → M.Md
  append_values md h [] = md
  append_values md h (v ∷ vs) = append_values (M.append md h v) h vs

  -- The outer loop, over the allowlist.
  unfoldable pub append_headers : HeaderMap → M.Md → List Text → M.Md
  unfolding append_values
  append_headers header md [] = md
  append_headers header md (h ∷ hs) =
      append_headers header (append_values md h (header_values header h)) hs

  -- `forwardMetadata`, given the allowlist.
  unfoldable pub forward_metadata : List Text → Request H → Request H
  unfolding append_headers
  forward_metadata allowed r =
      if is_empty allowed
      then r
      else let md = append_headers r.header M.new_md allowed in
        if M.size md == 0 then r else record r { context = M.attach r.context md }
