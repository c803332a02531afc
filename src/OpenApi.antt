-- ===== src/OpenApi.antt =====
-- openapi/openapi.go: OpenAPI paths, and the operations of each path.
pub mod Paths
pub mod Items
pub mod Params
pub mod Templates
pub mod Binders
pub mod Schema
pub mod Components
pub mod Protos
pub mod Dtos
pub mod Json
pub mod Generate
use grpc_composition.Common.{
  ℕ, zero, suc, ◌+◌, ◌-◌, ◌*◌, ◌^◌, ◌%◌, ◌≤◌, ◌<◌, ◌≡◌, refl, sym, ap, ◌∙◌, ◌≢◌, ◌↔◌, ◌⊎◌, inl, inr,
  Bool, true, false, not, ◌&&◌, ◌||◌, List, [], ◌∷◌, ◌++◌, map, append-nil, append_assoc, Option,
  none, some, arith, Text, codes, ◌==◌, leb, ltb, if◌then◌else◌, text_eq, text_eq_iff, text_eq_refl,
  Result, ok, err, is_empty, ◌>>=◌, map_err, Result-cases, ok-injective, Option-cases, Bool-cases,
  length, length-append, lookup, insert, lookup-insert, NodupKeys, last_some, or_else, or_option,
  gather, cons_some,
}
use grpc_composition.Std.Strings.{split, join, has_suffix, trim_suffix, split_last}

abbrev starts_with : ℕ → Text → Bool
starts_with b [] = false
starts_with b (c ∷ _) = c == b

-- `seg[1:len(seg)-1]` where `len(seg) >= 2`.
unfoldable pub inner_part : Text → Text
unfolding split_last
inner_part [] = []
inner_part (c ∷ rest) = elim (split_last rest) [ none ↦ [] | some (mid, _) ↦ mid ]

-- What the loop of `normalizePath` appends for one segment, if anything.
unfoldable pub normalize_segment : Text → Option Text
unfolding has_suffix trim_suffix inner_part
normalize_segment seg =
    if text_eq seg (codes "{$}")
    then none
    else if leb 2 (length seg) && starts_with b'{' seg && has_suffix seg (codes "...}")
    then some (codes "{" ++ (trim_suffix (inner_part seg) (codes "...") ++ codes "}"))
    else some seg

-- The loop of `normalizePath`.
pub normalize_from : List Text → List Text → List Text
normalize_from out [] = out
normalize_from out (seg ∷ segs) = normalize_from (out ++ cons_some (normalize_segment seg) []) segs

-- `normalizePath`.
unfoldable pub normalize_path : Text → Text
unfolding normalize_from normalize_segment split join
normalize_path pattern_text = join (normalize_from [] (split pattern_text b'/')) b'/'

-- `PathItem`, for operations of type `Op`.
pub record PathItem (Op : Type 0) : Type 0 where
  pub get_op : Option Op
  pub post_op : Option Op
  pub put_op : Option Op
  pub patch_op : Option Op
  pub delete_op : Option Op

module _ {Op : Type 0} where
  abbrev blank_item : PathItem Op
  blank_item = record {
    get_op = none;
    post_op = none;
    put_op = none;
    patch_op = none;
    delete_op = none;
  }

  -- `assign`.
  unfoldable pub assign : PathItem Op → Text → Op → PathItem Op
  assign item method op =
      if text_eq method (codes "GET")
      then record item { get_op = some op }
      else if text_eq method (codes "POST")
      then record item { post_op = some op }
      else if text_eq method (codes "PUT")
      then record item { put_op = some op }
      else if text_eq method (codes "PATCH")
      then record item { patch_op = some op }
      else if text_eq method (codes "DELETE")
      then record item { delete_op = some op }
      else item

  -- The body of the loop of `Generate`, for an operation that is generated: `item` is a pointer, so
  -- what `assign` writes is in the map.
  unfoldable pub add_operation :
      List (Text × PathItem Op) → Text → Text → Op → List (Text × PathItem Op)
  unfolding assign normalize_path
  add_operation paths pattern_text method op =
      let path = normalize_path pattern_text in
      insert path (assign (or_else (lookup path paths) blank_item) method op) paths

  -- The loop, over the pattern, the method and the operation of each route.
  unfoldable pub add_operations :
      List (Text × PathItem Op) → List (Text × Text × Op) → List (Text × PathItem Op)
  unfolding add_operation
  add_operations paths [] = paths
  add_operations paths ((pattern_text, method, op) ∷ ops) =
      add_operations (add_operation paths pattern_text method op) ops
