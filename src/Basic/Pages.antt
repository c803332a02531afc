-- ===== src/Basic/Pages.antt =====
-- `ListUsers`: the page of users that a request selects.
use grpc_composition.Common.{
  ℕ, zero, suc, ◌-◌, ◌≡◌, refl, sym, ap, ◌∙◌, inl, inr, ◌&&◌, List, [], ◌∷◌, ◌++◌, append-nil,
  append_assoc, arith, ltb, if◌then◌else◌, ok, Bool-cases, length, length-append,
}
use grpc_composition.Host.{Host, Err}
use grpc_composition.Problem.{Status}
use grpc_composition.Std.Strconv.{ℤ, pos, negsuc, to_int32}
use grpc_composition.Std.Http.{take, drop, length-take}
use grpc_composition.Basic.{
  User, ListUsersRequest, same_role, filter_role, skip_offset, cut_limit, list_users,
}

-- The users with a role; the role 0 stands for any.
abbrev with_role : ℤ → List User → List User
with_role role [] = []
with_role role (u ∷ users) =
    if same_role u.role role then u ∷ with_role role users else with_role role users

abbrev pub selected : ℤ → List User → List User
selected role users = if same_role role (pos 0) then users else with_role role users

-- A number as the tests `off > 0` and `lim > 0` take it.
abbrev pub natural : ℤ → ℕ
natural (pos n) = n
natural (negsuc _) = 0

filter_role-append :
    (role : ℤ) (filtered users : List User)
    → filter_role role filtered users ≡ filtered ++ with_role role users
unfolding filter_role
filter_role-append role filtered [] = sym (append-nil filtered)
filter_role-append role filtered (u ∷ users) = elim (Bool-cases (same_role u.role role)) [
  | inl e ↦
      rw (filter_role, e)
        (filter_role-append role (filtered ++ (u ∷ [])) users
          ∙ append_assoc filtered (u ∷ []) (with_role role users))
  | inr e ↦ rw e (filter_role-append role filtered users)
]

take-drop : {A : Type 0} (n : ℕ) (xs : List A) → take n xs ++ drop n xs ≡ xs
take-drop zero xs = refl
take-drop (suc n) [] = refl
take-drop (suc n) (x ∷ xs) = ap (λ l. x ∷ l) (take-drop n xs)

-- How many of `n` users an offset leaves out, and how many of `n` a limit keeps.
abbrev pub skipped : ℕ → ℕ → ℕ
skipped off n = if ltb off n then off else 0

abbrev pub kept : ℕ → ℕ → ℕ
kept lim n = if ltb 0 lim && ltb lim n then lim else n

skip_offset_lem :
    (off : ℤ) (users : List User)
    → (front : List User) × (users ≡ front ++ skip_offset off users)
      × (length front ≡ skipped (natural off) (length users))
unfolding skip_offset
skip_offset_lem (negsuc _) [] = ([], refl, refl)
skip_offset_lem (negsuc _) (u ∷ users) = ([], refl, ground arith)
skip_offset_lem (pos off) users = elim (Bool-cases (ltb 0 off && ltb off (length users))) [
  | inl e ↦
      (take off users, rw e (sym (take-drop off users)), ground (arith, length-take off users))
  | inr e ↦ ([], rw e refl, ground arith)
]

cut_limit_lem :
    (lim : ℤ) (users : List User)
    → (back : List User) × (users ≡ cut_limit lim users ++ back)
      × (length (cut_limit lim users) ≡ kept (natural lim) (length users))
unfolding cut_limit
cut_limit_lem (negsuc _) users = ([], sym (append-nil users), refl)
cut_limit_lem (pos lim) users = elim (Bool-cases (ltb 0 lim && ltb lim (length users))) [
  | inl e ↦ (
    drop lim users,
    rw e (sym (take-drop lim users)),
    rw e (ground (arith, length-take lim users)),
  )
  | inr e ↦ ([], rw e (sym (append-nil users)), rw e refl)
]

module _ (H : Host) (raise : Status → Err H) where
  -- `ListUsers` answers every request, and leaves the users as they are. The page is a part without
  -- gaps of the users of the role that the request asks for (all of them for the role 0), in their
  -- order. As many users stand in front of it as the offset says when that is below their number,
  -- and else none, the page behind the last one being the first again. The page has as many users as
  -- the limit says when that is positive and as many are left, and else all that are left. The
  -- total is the number of users on the page. A negative offset or limit counts as zero.
  pub list_users-page :
      (req : ListUsersRequest) (users : List User)
      → (front page back : List User) × (selected req.role users ≡ front ++ (page ++ back))
        × (length front ≡ skipped (natural req.offset) (length (selected req.role users)))
        × (length page ≡ kept (natural req.limit) (length (selected req.role users) - length front))
        × (list_users H raise req users
            ≡ (ok (record { users = page; total = to_int32 (pos (length page)) }), users))
  unfolding list_users
  list_users-page req users =
      let chosen : List User = selected req.role users in
      let (front, e, skips) = skip_offset_lem req.offset chosen in
      let rest : List User = skip_offset req.offset chosen in
      let (back, e', keeps) = cut_limit_lem req.limit rest in
      let left : length rest ≡ length chosen - length front =
        omega (arith, ap length e, length-append front rest) in
      (
        front,
        cut_limit req.limit rest,
        back,
        e ∙ ap (λ l. front ++ l) e',
        skips,
        keeps ∙ ap (kept (natural req.limit)) left,
        rw (list_users, filter_role-append req.role [] users),
      )
