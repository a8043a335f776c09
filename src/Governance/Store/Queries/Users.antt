-- ===== src/Governance/Store/Queries/Users.antt =====
-- crates/waf-governance/src/store.rs: the queries on accounts.
use light_waf.Prelude.{
  ℕ, ◌+◌, Bool, false, not, Option, none, some, List, [], ◌∷◌, ◌++◌, map, Bytes, codes, any,
  filterb, find, length, ◌==◌, ◌=bytes◌, if◌then◌else◌,
}
use light_waf.Governance.Rbac.{Role, as_str}
use light_waf.Governance.Store.{
  UserRow, Database, User, UserWithHash, conflict, Result, ok, err, row_to_user, read_all,
}

abbrev pub local : Bytes
local = codes "local"

abbrev pub oidc : Bytes
oidc = codes "oidc"

-- the rows that a test picks, each changed
abbrev pub update {ℓ} : {A : Type ℓ} → (A → Bool) → (A → A) → List A → List A
update test change = map λ a. if test a then change a else a

unfoldable pub count_users : Database → Result ℕ × Database
count_users d = (ok (length d.users), d)

unfoldable pub named : Bytes → UserRow → Bool
named username u = u.username =bytes username

-- `debug` is the `{:?}` of a string
unfoldable pub create_user :
    (Bytes → Bytes) → Bytes → Bytes → Role → ℕ → Database → Result ℕ × Database
unfolding named
create_user debug username password_hash role now d =
    if any (named username) d.users
    then (
      err (conflict (codes "username " ++ (debug username ++ codes " already exists"))),
      record d { next_user = d.next_user + 1 },
    )
    else (
      ok d.next_user,
      record d {
        users =
            d.users
            ++ (record {
              id = d.next_user;
              username = username;
              password_hash = some password_hash;
              role = as_str role;
              disabled = false;
              auth_source = local;
              created_at = now;
            }
                ∷ []);
        next_user = d.next_user + 1;
      },
    )

unfoldable pub get_user_with_hash : Bytes → Database → Result (Option UserWithHash) × Database
unfolding named row_to_user
get_user_with_hash username d = elim (find (named username) d.users) [
  | none ↦ (ok none, d)
  | some u ↦ elim (row_to_user u) [
    | err e ↦ (err e, d)
    | ok user ↦ (ok (some (record { user = user; password_hash = u.password_hash })), d)
  ]
]

unfoldable pub list_users : Database → Result (List User) × Database
unfolding read_all row_to_user
list_users d = (read_all row_to_user d.users, d)

abbrev pub has_id : ℕ → UserRow → Bool
has_id id u = u.id == id

-- an `UPDATE` of the row with an id; whether there was one
unfoldable pub update_user : ℕ → (UserRow → UserRow) → Database → Result Bool × Database
update_user id change d =
    (ok (any (has_id id) d.users), record d { users = update (has_id id) change d.users })

unfoldable pub set_user_role : ℕ → Role → Database → Result Bool × Database
unfolding update_user
set_user_role id role = update_user id (λ u. record u { role = as_str role })

unfoldable pub set_user_disabled : ℕ → Bool → Database → Result Bool × Database
unfolding update_user
set_user_disabled id disabled = update_user id (λ u. record u { disabled = disabled })

unfoldable pub set_password_hash : ℕ → Bytes → Database → Result Bool × Database
unfolding update_user
set_password_hash id password_hash =
    update_user id (λ u. record u { password_hash = some password_hash; auth_source = local })

-- the sessions of the row go with it
unfoldable pub delete_user : ℕ → Database → Result Bool × Database
delete_user id d = (
  ok (any (has_id id) d.users),
  record d {
    users = filterb (λ u. not (has_id id u)) d.users;
    sessions = filterb (λ s. not (s.user_id == id)) d.sessions;
  },
)

-- a new federated account; or one of the name that is federated gets the role; or a refusal
unfoldable pub upsert_oidc_user :
    (Bytes → Bytes) → Bytes → Role → ℕ → Database → Result User × Database
unfolding named row_to_user
upsert_oidc_user debug username role now d =
    let fresh : UserRow = record {
      id = d.next_user;
      username = username;
      password_hash = none;
      role = as_str role;
      disabled = false;
      auth_source = oidc;
      created_at = now;
    } in
    elim (find (named username) d.users) [
      | none ↦ (
        row_to_user fresh,
        record d { users = d.users ++ (fresh ∷ []); next_user = d.next_user + 1 },
      )
      | some u ↦
          if u.auth_source =bytes oidc
          then (
            row_to_user (record u { role = as_str role }),
            record d {
              users = update (named username) (λ v. record v { role = as_str role }) d.users;
              next_user = d.next_user + 1;
            },
          )
          else (
            err (conflict (codes "username " ++ (debug username ++ codes " is a local account"))),
            record d { next_user = d.next_user + 1 },
          )
    ]
