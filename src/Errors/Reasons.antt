-- ===== src/Errors/Reasons.antt =====
-- The reason tables of `MapReasons`.
use grpc_composition.Common.{
  ℕ, suc, ◌≡◌, refl, inl, inr, List, [], ◌∷◌, Option, none, some, arith, Text, leb, if◌then◌else◌,
  text_eq_iff, is_empty, Option-cases, lookup, insert, lookup-insert, NodupKeys, last_some, or_else,
  or_option,
}
use grpc_composition.Std.Http.{status_text}
use grpc_composition.Problem.{
  ProblemDetails, blank_problem, ErrorInfo, Detail, bad_request, error_info, other_detail, Status,
  problem,
}
use grpc_composition.Host.{Host, Err, ErrorMapper}
use grpc_composition.Errors.{
  internal_error, error_info_of, ReasonMapping, copy_reasons, reason_detail, map_reasons,
}
use grpc_composition.Errors.Details.{
  violations, reason_in, type_in, metadata_in, populate_details_lem,
}

abbrev pub Table : Type 0
Table = List (Text × ReasonMapping)

-- The copy holds at each key what the table holds there.
lookup-copy_reasons :
    (k : Text) (reasons table : Table)
    → NodupKeys table
    → lookup k (copy_reasons reasons table) ≡ or_option (lookup k table) (lookup k reasons)
unfolding copy_reasons lookup
lookup-copy_reasons k reasons [] u = refl
lookup-copy_reasons k reasons ((j, m) ∷ table) (fresh, u) =
    rw (lookup-copy_reasons k (insert j m reasons) table u, lookup-insert j k m reasons)
      (ground (arith, text_eq_iff j k, fresh))

insert-NodupKeys :
    (k : Text) (m : ReasonMapping) (t : Table) → NodupKeys t → NodupKeys (insert k m t)
unfolding insert lookup
insert-NodupKeys k m [] u = (refl, tt)
insert-NodupKeys k m ((j, w) ∷ t) (fresh, u) =
    ground
      (arith, insert-NodupKeys k m t u, lookup-insert k j m t, text_eq_iff j k, text_eq_iff k j)

copy_reasons-NodupKeys :
    (reasons table : Table) → NodupKeys reasons → NodupKeys (copy_reasons reasons table)
unfolding copy_reasons
copy_reasons-NodupKeys reasons [] u = u
copy_reasons-NodupKeys reasons ((j, m) ∷ table) u =
    copy_reasons-NodupKeys (insert j m reasons) table (insert-NodupKeys j m reasons u)

-- The table of `over` on top of the table `under`, as `maps.Copy(under, over)` leaves it.
abbrev pub merge : Table → Table → Table
merge over under = copy_reasons under over

-- How many `ErrorInfo` details there are.
abbrev pub infos : List Detail → ℕ
infos [] = 0
infos (error_info _ ∷ ds) = suc (infos ds)
infos (bad_request _ ∷ ds) = infos ds
infos (other_detail ∷ ds) = infos ds

lookup-copy_reasons_nil :
    (k : Text) (table : Table) → NodupKeys table → lookup k (copy_reasons [] table) ≡ lookup k table
unfolding lookup
lookup-copy_reasons_nil k table u = rw (lookup-copy_reasons k [] table u) (ground arith)

last-reason_none : (ds : List Detail) → infos ds ≡ 0 → last_some reason_in ds ≡ none
last-reason_none [] h = refl
last-reason_none (error_info _ ∷ ds) h = absurd (omega arith)
last-reason_none (bad_request _ ∷ ds) h = rw (last-reason_none ds h)
last-reason_none (other_detail ∷ ds) h = rw (last-reason_none ds h)

last-reason_single :
    (ds : List Detail) (info : ErrorInfo)
    → error_info_of ds ≡ some info
    → infos ds ≡ 1
    → last_some reason_in ds ≡ some info.reason
unfolding error_info_of
last-reason_single [] info first h = cc
last-reason_single (error_info v ∷ ds) info first h =
    rw (last-reason_none ds (omega arith)) (ground arith)
last-reason_single (bad_request _ ∷ ds) info first h = rw (last-reason_single ds info first h)
last-reason_single (other_detail ∷ ds) info first h = rw (last-reason_single ds info first h)

module _ (H : Host) where
  -- Stacked vocabularies: a table that falls back to another table maps every error as the one
  -- merged table does, in which the outer table's entries take precedence. Neither table has a key
  -- twice.
  pub map_reasons-merge :
      (over under : Table) (fallback : Option (ErrorMapper H)) (e : Err H)
      → NodupKeys over
      → NodupKeys under
      → map_reasons H over (some (map_reasons H under fallback)) e
        ≡ map_reasons H (merge over under) fallback e
  unfolding map_reasons
  map_reasons-merge over under fallback e u v = elim (Option-cases (H.from_error e)) [
    | inl absent ↦ ground arith
    | inr (st, found) ↦ elim (Option-cases (error_info_of st.details)) [
      | inl bare ↦ ground arith
      | inr (info, first) ↦
          let key = info.reason in
          ground (
            arith,
            lookup-copy_reasons_nil key over u,
            lookup-copy_reasons_nil key under v,
            lookup-copy_reasons key under over u,
            lookup-copy_reasons_nil key (merge over under) (copy_reasons-NodupKeys under over v),
          )
    ]
  ]

  -- An error whose first `ErrorInfo` has a reason of the table is answered with the table's status.
  -- The detail is the table's; where the table has none, it is "internal error" at a status of 500
  -- or above and the upstream message below. The other members are those that the details give,
  -- where a later `ErrorInfo` overrides the first one. The table has no key twice.
  pub map_reasons-detail :
      (table : Table) (fallback : Option (ErrorMapper H)) (e : Err H) (st : Status)
      (info : ErrorInfo) (m : ReasonMapping)
      → NodupKeys table
      → H.from_error e ≡ some st
      → error_info_of st.details ≡ some info
      → lookup info.reason table ≡ some m
      → map_reasons H table fallback e ≡ (
        m.status,
        problem (record {
          type_uri = or_else (last_some type_in st.details) [];
          title = status_text m.status;
          status = m.status;
          detail =
              if is_empty m.detail
              then (if leb 500 m.status then internal_error else st.message)
              else m.detail;
          instance_uri = [];
          reason = or_else (last_some reason_in st.details) [];
          errors = violations st.details;
          metadata = or_else (last_some metadata_in st.details) [];
        }),
      )
  unfolding map_reasons reason_detail
  map_reasons-detail table fallback e st info m u found first hit = ground (
    arith,
    lookup-copy_reasons_nil info.reason table u,
    populate_details_lem
        (record (blank_problem m.status (status_text m.status)) {
          detail = reason_detail m st.message;
        })
        st.details,
  )

  -- The body of a matched reason is a problem with the table's status that names the reason that
  -- was looked up, provided that the status carries one `ErrorInfo`. The table has no key twice.
  map_reasons-reason :
      (table : Table) (fallback : Option (ErrorMapper H)) (e : Err H) (st : Status)
      (info : ErrorInfo) (m : ReasonMapping)
      → NodupKeys table
      → H.from_error e ≡ some st
      → error_info_of st.details ≡ some info
      → infos st.details ≡ 1
      → lookup info.reason table ≡ some m
      → (p : ProblemDetails) × (map_reasons H table fallback e ≡ (m.status, problem p))
        × (p.reason ≡ info.reason)
        × (p.status ≡ m.status)
  map_reasons-reason table fallback e st info m u found first one hit = (
    _,
    map_reasons-detail table fallback e st info m u found first hit,
    rw (last-reason_single st.details info first one),
    refl,
  )
