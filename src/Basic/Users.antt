-- ===== src/Basic/Users.antt =====
-- What the in-memory service keeps: its users are numbered in their order.
use grpc_composition.Common.{
  ℕ, suc, ◌+◌, ◌<◌, ◌≡◌, refl, ap, ◌∙◌, ◌≢◌, inl, inr, false, List, [], ◌∷◌, ◌++◌, arith, Text,
  text_eq, text_eq_iff, text_eq_refl, ok, is_empty, Bool-cases, length,
}
use grpc_composition.Std.Strconv.{pos}
use grpc_composition.Std.Strconv.Itoa.{itoa, itoa-injective}
use grpc_composition.Problem.{Status}
use grpc_composition.Host.{Host, Err}
use grpc_composition.Basic.{
  User, CreateUserRequest, find_user, get_user, create_user, new_user_server,
}

-- The ids of the users are the numbers from `n` on.
abbrev pub NumberedFrom : ℕ → List User → Type 0
NumberedFrom n [] = Unit
NumberedFrom n (u ∷ users) = (u.id ≡ itoa n) × NumberedFrom (suc n) users

pub new_user_server-NumberedFrom : NumberedFrom 1 new_user_server
unfolding new_user_server itoa
new_user_server-NumberedFrom = (refl, (refl, (refl, tt)))

pub NumberedFrom-append :
    (n : ℕ) (users : List User) (u : User)
    → NumberedFrom n users
    → u.id ≡ itoa (length users + n)
    → NumberedFrom n (users ++ (u ∷ []))
NumberedFrom-append n [] u h e = (e ∙ ap itoa (omega arith), tt)
NumberedFrom-append n (v ∷ users) u h e =
    (h.0, NumberedFrom-append (suc n) users u h.1 (rw e (ap itoa (omega arith))))

itoa_apart : (m n : ℕ) → m < n → text_eq (itoa m) (itoa n) ≡ false
itoa_apart m n h = elim (Bool-cases (text_eq (itoa m) (itoa n))) [
  | inl same ↦ absurd (omega (arith, itoa-injective m n ((text_eq_iff (itoa m) (itoa n)).0 same)))
  | inr apart ↦ apart
]

not_empty : (s : Text) → s ≢ [] → is_empty s ≡ false
not_empty [] h = absurd (h refl)
not_empty (_ ∷ _) h = refl

module _ (H : Host) (raise : Status → Err H) where
  find_user-append :
      (n : ℕ) (users : List User) (u : User)
      → NumberedFrom n users
      → u.id ≡ itoa (length users + n)
      → find_user H raise u.id (users ++ (u ∷ [])) ≡ ok u
  unfolding find_user
  find_user-append n [] u h e = rw text_eq_refl
  find_user-append n (v ∷ users) u h e =
      let other : text_eq v.id u.id ≡ false =
        rw (h.0, e) (itoa_apart n (suc (length users) + n) (omega arith)) in
      rw other (find_user-append (suc n) users u h.1 (rw e (ap itoa (omega arith))))

  pub get_user-create_user :
      (req : CreateUserRequest) (users : List User)
      → NumberedFrom 1 users
      → req.name ≢ []
      → (u : User) × (create_user H raise req users ≡ (ok u, users ++ (u ∷ [])))
        × (u.id ≡ itoa (length users + 1))
        × (u.name ≡ req.name)
        × (u.email ≡ req.email)
        × NumberedFrom 1 (users ++ (u ∷ []))
        × (get_user H raise u.id (users ++ (u ∷ [])) ≡ (ok u, users ++ (u ∷ [])))
  unfolding create_user get_user
  get_user-create_user req users h named =
      let u : User = record {
        id = itoa (length users + 1);
        name = req.name;
        email = req.email;
        role = pos 0;
      } in
      (
        u,
        rw (create_user, not_empty req.name named),
        refl,
        refl,
        refl,
        NumberedFrom-append 1 users u h refl,
        rw (get_user, find_user-append 1 users u h refl),
      )
