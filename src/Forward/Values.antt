-- ===== src/Forward/Values.antt =====
-- Which values reach the services as metadata.
use grpc_composition.Common.{
  All, Any, ◌≢◌, is_empty, ℕ, ◌≡◌, refl, sym, ap, ◌∙◌, ◌⊎◌, inl, inr, Bool, true, false, List, [],
  ◌∷◌, ◌++◌, map, append-nil, append_assoc, arith, Text, ◌==◌, ==_iff, if◌then◌else◌, text_eq,
  Bool-cases,
}
use grpc_composition.Std.Strings.{to_lower, lower_byte}
use grpc_composition.Std.Http.{HeaderMap, header_values, all_valid, canonical_key-to_lower}
use grpc_composition.Host.{Host, Request}
use grpc_composition.Forward.{
  Metadata, IsLawful, add_forwarded, append_values, append_headers, forward_metadata,
}

-- The values that the allowlist gives to the key `j`: those of each header whose lower-case name is
-- the key, in the order of the list.
abbrev pub collected : HeaderMap → List Text → Text → List Text
collected header [] j = []
collected header (h ∷ hs) j =
    (if text_eq (to_lower h) j then header_values header h else []) ++ collected header hs j

lower_byte_idem : (c : ℕ) → lower_byte (lower_byte c) ≡ lower_byte c
unfolding lower_byte
lower_byte_idem c = ground arith

to_lower_idem : (s : Text) → to_lower (to_lower s) ≡ to_lower s
unfolding to_lower
to_lower_idem [] = refl
to_lower_idem (c ∷ s) = rw (lower_byte_idem c) (ap (λ t. lower_byte c ∷ t) (to_lower_idem s))

add_forwarded_lem :
    (allowed headers : List Text) → add_forwarded allowed headers ≡ allowed ++ map to_lower headers
unfolding add_forwarded
add_forwarded_lem allowed [] = sym (append-nil allowed)
add_forwarded_lem allowed (h ∷ hs) =
    add_forwarded_lem (allowed ++ (to_lower h ∷ [])) hs
    ∙ append_assoc allowed (to_lower h ∷ []) (map to_lower hs)

header_values-to_lower :
    (header : HeaderMap) (h : Text)
    → all_valid h ≡ true
    → header_values header (to_lower h) ≡ header_values header h
unfolding header_values
header_values-to_lower header h valid = rw (canonical_key-to_lower h valid)

-- The names of the allowlist stand for the same headers in lower case.
collected-map-to_lower :
    (header : HeaderMap) (hs : List Text) (j : Text)
    → All (λ h. all_valid h ≡ true) hs
    → collected header (map to_lower hs) j ≡ collected header hs j
collected-map-to_lower header [] j valid = refl
collected-map-to_lower header (h ∷ hs) j valid = rw (
  to_lower_idem h,
  header_values-to_lower header h valid.0,
  collected-map-to_lower header hs j valid.1,
)

-- No header of the list has a value in the request, or one of them has.
abbrev pub IsAbsent : HeaderMap → List Text → Type 0
IsAbsent header hs = All (λ h. header_values header h ≡ []) hs

abbrev pub IsPresent : HeaderMap → List Text → Type 0
IsPresent header hs = Any (λ h. header_values header h ≢ []) hs

nil-cases : (vs : List Text) → (vs ≡ []) ⊎ (vs ≢ [])
nil-cases [] = inl refl
nil-cases (v ∷ vs) = inr (λ h. cc)

IsPresent-cases : (header : HeaderMap) (hs : List Text) → IsAbsent header hs ⊎ IsPresent header hs
IsPresent-cases header [] = inl tt
IsPresent-cases header (h ∷ hs) = elim (nil-cases (header_values header h)) [
  | inr there ↦ inr (inl there)
  | inl missing ↦ elim (IsPresent-cases header hs) [
    | inl absent ↦ inl (missing, absent)
    | inr present ↦ inr (inr present)
  ]
]

-- The two exclude each other, also where the names are in lower case.
IsPresent-map-to_lower :
    (header : HeaderMap) (hs : List Text)
    → All (λ h. all_valid h ≡ true) hs
    → IsPresent header hs
    → IsAbsent header (map to_lower hs)
    → ⊥
IsPresent-map-to_lower header [] valid present absent = present
IsPresent-map-to_lower header (h ∷ hs) valid (inl there) absent =
    there (sym (header_values-to_lower header h valid.0) ∙ absent.0)
IsPresent-map-to_lower header (h ∷ hs) valid (inr present) absent =
    IsPresent-map-to_lower header hs valid.1 present absent.1

module _ {H : Host} (M : Metadata H) (law : IsLawful M) where
  get-append_values :
      (md : M.Md) (h : Text) (vs : List Text) (j : Text)
      → M.get (append_values M md h vs) j
        ≡ M.get md j ++ (if text_eq (to_lower h) j then vs else [])
  unfolding append_values
  get-append_values md h [] j = elim (Bool-cases (text_eq (to_lower h) j)) [
    | inl e ↦ rw e (sym (append-nil (M.get md j)))
    | inr e ↦ rw e (sym (append-nil (M.get md j)))
  ]
  get-append_values md h (v ∷ vs) j =
      get-append_values (M.append md h v) h vs j
      ∙ (rw law.get-append (added (text_eq (to_lower h) j)))
    where
      added :
          (same : Bool)
          → (if same then M.get md j ++ (v ∷ []) else M.get md j) ++ (if same then vs else [])
            ≡ M.get md j ++ (if same then v ∷ vs else [])
      added true = append_assoc (M.get md j) (v ∷ []) vs
      added false = refl

  get-append_headers :
      (header : HeaderMap) (md : M.Md) (hs : List Text) (j : Text)
      → M.get (append_headers M header md hs) j ≡ M.get md j ++ collected header hs j
  unfolding append_headers
  get-append_headers header md [] j = sym (append-nil (M.get md j))
  get-append_headers header md (h ∷ hs) j =
      get-append_headers header (append_values M md h (header_values header h)) hs j
      ∙ (rw (get-append_values, append_assoc))

  size-append_values :
      (md : M.Md) (h : Text) (vs : List Text)
      → M.size (append_values M md h vs) ≡ 0
      → (vs ≡ []) × (M.size md ≡ 0)
  unfolding append_values
  size-append_values md h [] e = (refl, e)
  size-append_values md h (v ∷ vs) e =
      absurd (law.size-append md h v (size-append_values (M.append md h v) h vs e).1)

  size-append_headers :
      (header : HeaderMap) (md : M.Md) (hs : List Text)
      → M.size (append_headers M header md hs) ≡ 0
      → All (λ h. header_values header h ≡ []) hs × (M.size md ≡ 0)
  unfolding append_headers
  size-append_headers header md [] e = (tt, e)
  size-append_headers header md (h ∷ hs) e =
      let later = size-append_headers header (append_values M md h (header_values header h)) hs e in
      let now = size-append_values md h (header_values header h) later.1 in
      ((now.0, later.0), now.1)

  append_headers_absent :
      (header : HeaderMap) (md : M.Md) (hs : List Text)
      → All (λ h. all_valid h ≡ true) hs
      → IsAbsent header hs
      → append_headers M header md (map to_lower hs) ≡ md
  unfolding append_headers append_values
  append_headers_absent header md [] valid absent = refl
  append_headers_absent header md (h ∷ hs) valid absent =
      ap (λ vs. append_headers M header (append_values M md (to_lower h) vs) (map to_lower hs))
        (header_values-to_lower header h valid.0 ∙ absent.0)
      ∙ append_headers_absent header md hs valid.1 absent.1

  module _ (headers : List Text) (r : Request H)
      (valid : All (λ h. all_valid h ≡ true) headers) where
    md : M.Md
    md = append_headers M r.header M.new_md (map to_lower headers)

    forward_metadata_absent :
        IsAbsent r.header headers → forward_metadata M (map to_lower headers) r ≡ r
    unfolding forward_metadata
    forward_metadata_absent absent = elim (Bool-cases (is_empty (map to_lower headers))) [
      | inl nothing ↦ rw (forward_metadata, nothing)
      | inr some_listed ↦ rw (
        forward_metadata,
        some_listed,
        append_headers_absent r.header M.new_md headers valid absent,
        law.size-new,
      )
    ]

    forward_metadata_present :
        IsPresent r.header headers
        → forward_metadata M (map to_lower headers) r ≡ record r { context = M.attach r.context md }
    unfolding forward_metadata md
    forward_metadata_present present = elim (Bool-cases (is_empty (map to_lower headers))) [
      | inl nothing ↦ absurd (nothing_listed headers nothing present)
      | inr some_listed ↦ elim (Bool-cases (M.size md == 0)) [
        | inl none_sent ↦ absurd (
            IsPresent-map-to_lower r.header headers valid present
              (size-append_headers r.header M.new_md (map to_lower headers)
                ((==_iff (M.size md) 0).0 none_sent)).0)
        | inr some_sent ↦ rw (forward_metadata, some_listed, some_sent)
      ]
    ]
      where
        nothing_listed :
            (hs : List Text) → is_empty (map to_lower hs) ≡ true → IsPresent r.header hs → ⊥
        nothing_listed [] e h = h
        nothing_listed (x ∷ xs) e h = cc

    get-md : (j : Text) → M.get md j ≡ collected r.header headers j
    unfolding md
    get-md j =
        get-append_headers r.header M.new_md (map to_lower headers) j
        ∙ (rw law.get-new (collected-map-to_lower r.header headers j valid))

  -- An App with the allowlist `headers`, of names that are tokens, whatever the case in which they
  -- are listed: a request in which none of these headers has a value is handed on as it is. One in
  -- which some of them has a value is handed on with the values of these headers as metadata, and only
  -- its context changed: the key `j` has those of each listed name that is `j` in lower case, in the
  -- order of the list.
  pub forward_metadata_lem :
      (headers : List Text) (r : Request H)
      → All (λ h. all_valid h ≡ true) headers
      → let sent = forward_metadata M (add_forwarded [] headers) r in
        (IsAbsent r.header headers × (sent ≡ r))
        ⊎ (IsPresent r.header headers
            × (md : M.Md) × (sent ≡ record r { context = M.attach r.context md })
            × ((j : Text) → M.get md j ≡ collected r.header headers j))
  forward_metadata_lem headers r valid =
      rw add_forwarded_lem (elim (IsPresent-cases r.header headers) [
        | inl absent ↦ inl (absent, forward_metadata_absent headers r valid absent)
        | inr present ↦ inr (
          present,
          md headers r valid,
          forward_metadata_present headers r valid present,
          get-md headers r valid,
        )
      ])
