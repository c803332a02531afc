-- ===== src/Basic.antt =====
-- examples/basic/main.go: the in-memory service `userServer`.
pub mod Users
pub mod Wiring
pub mod Start
pub mod Served
pub mod Sessions
pub mod Pages
use grpc_composition.Common.{
  ℕ, ◌+◌, Bool, false, not, ◌&&◌, List, [], ◌∷◌, ◌++◌, Text, codes, ◌==◌, ltb, if◌then◌else◌,
  text_eq, Result, ok, err, is_empty, length,
}
use grpc_composition.Std.Strconv.{ℤ, pos, negsuc, to_int32}
use grpc_composition.Std.Strconv.Itoa.{itoa}
use grpc_composition.Std.Http.{take, drop}
use grpc_composition.Problem.{Status, not_found, invalid_argument}
use grpc_composition.Host.{Host, Err}

-- `userpb.User` and the requests and responses of the service; a role is its number.
pub record User : Type 0 where
  pub id : Text
  pub name : Text
  pub email : Text
  pub role : ℤ

pub record ListUsersRequest : Type 0 where
  pub limit : ℤ
  pub offset : ℤ
  pub role : ℤ

pub record ListUsersResponse : Type 0 where
  pub users : List User
  pub total : ℤ

pub record CreateUserRequest : Type 0 where
  pub name : Text
  pub email : Text
  pub role : ℤ

abbrev user : Text → Text → Text → ℕ → User
user id name email role = record { id = id; name = name; email = email; role = pos role }

-- `newUserServer`: the users of the server.
unfoldable pub new_user_server : List User
new_user_server =
    user (codes "1") (codes "Alice") (codes "alice@example.com") 2
    ∷ user (codes "2") (codes "Bob") (codes "bob@example.com") 1
    ∷ user (codes "3") (codes "Carol") (codes "carol@example.com") 1
    ∷ []

-- `req.Role`, tested as in `ListUsers`.
abbrev pub same_role : ℤ → ℤ → Bool
same_role (pos m) (pos n) = m == n
same_role (negsuc m) (negsuc n) = m == n
same_role _ _ = false

-- The loop of `ListUsers`.
unfoldable pub filter_role : ℤ → List User → List User → List User
filter_role role filtered [] = filtered
filter_role role filtered (u ∷ users) =
    filter_role role (if same_role u.role role then filtered ++ (u ∷ []) else filtered) users

-- `users[off:]` under its test.
unfoldable pub skip_offset : ℤ → List User → List User
skip_offset (negsuc _) users = users
skip_offset (pos off) users = if ltb 0 off && ltb off (length users) then drop off users else users

-- `users[:lim]` under its test.
unfoldable pub cut_limit : ℤ → List User → List User
cut_limit (negsuc _) users = users
cut_limit (pos lim) users = if ltb 0 lim && ltb lim (length users) then take lim users else users

-- Parameter `raise` is `status.Error`, with the details empty.
module _ (H : Host) (raise : Status → Err H) where
  -- The loop of `GetUser`.
  find_user : Text → List User → Result (Err H) User
  find_user id [] = err (
      raise (record {
        code = not_found;
        message = codes "user " ++ (H.quote id ++ codes " not found");
        details = [];
      }))
  find_user id (u ∷ users) = if text_eq u.id id then ok u else find_user id users

  -- `GetUser`, on the id of its request.
  unfoldable pub get_user : Text → List User → Result (Err H) User × List User
  unfolding find_user
  get_user id users = (find_user id users, users)

  -- `ListUsers`.
  unfoldable pub list_users :
      ListUsersRequest → List User → Result (Err H) ListUsersResponse × List User
  unfolding filter_role skip_offset cut_limit to_int32
  list_users req users =
      let chosen = if same_role req.role (pos 0) then users else filter_role req.role [] users in
      let page = cut_limit req.limit (skip_offset req.offset chosen) in
      (ok (record { users = page; total = to_int32 (pos (length page)) }), users)

  -- `CreateUser`.
  unfoldable pub create_user : CreateUserRequest → List User → Result (Err H) User × List User
  unfolding itoa
  create_user req users =
      if is_empty req.name
      then (
        err (
            raise (record {
              code = invalid_argument;
              message = codes "name is required";
              details = [];
            })),
        users,
      )
      else let u : User = record {
        id = itoa (length users + 1);
        name = req.name;
        email = req.email;
        role = pos 0;
      } in
        (ok u, users ++ (u ∷ []))
