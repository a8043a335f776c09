-- ===== src/Governance/Store/Queries/Sessions.antt =====
-- crates/waf-governance/src/store.rs: the queries on sessions.
use light_waf.Prelude.{
  ℕ, Bool, not, ◌&&◌, Option, none, some, List, [], ◌∷◌, Bytes, any, filterb, find, length, ltb,
  leb, ◌==◌, ◌=bytes◌, if◌then◌else◌,
}
use light_waf.Governance.Store.{Session, Database, User, db, Result, ok, err, row_to_user}
use light_waf.Governance.Store.Queries.Users.{has_id}

-- a second row of one key, or one for no user, is an error of the database
unfoldable pub create_session : Bytes → ℕ → ℕ → ℕ → Database → Result (Unit {0}) × Database
create_session id user_id expires_at now d =
    if any (λ s. s.id =bytes id) d.sessions
    then (err db, d)
    else if any (has_id user_id) d.users
    then (
      ok tt,
      record d {
        sessions =
            record { id = id; user_id = user_id; created_at = now; expires_at = expires_at }
            ∷ d.sessions;
      },
    )
    else (err db, d)

-- the session with an id that has not expired
abbrev pub is_live : Bytes → ℕ → Session → Bool
is_live id now s = s.id =bytes id && ltb now s.expires_at

unfoldable pub get_session_with_user :
    Bytes → ℕ → Database → Result (Option (Session × User)) × Database
unfolding row_to_user
get_session_with_user id now d = elim (find (is_live id now) d.sessions) [
  | none ↦ (ok none, d)
  | some s ↦ elim (find (has_id s.user_id) d.users) [
    | none ↦ (ok none, d)
    | some u ↦ elim (row_to_user u) [ err e ↦ (err e, d) | ok user ↦ (ok (some (s, user)), d) ]
  ]
]

-- a `DELETE` of the sessions that a test picks; how many there were
unfoldable pub delete_sessions : (Session → Bool) → Database → Result ℕ × Database
delete_sessions test d = (
  ok (length (filterb test d.sessions)),
  record d { sessions = filterb (λ s. not (test s)) d.sessions },
)

-- whether there was one
unfoldable pub delete_session : Bytes → Database → Result Bool × Database
delete_session id d = (
  ok (any (λ (s : Session). s.id =bytes id) d.sessions),
  record d { sessions = filterb (λ s. not (s.id =bytes id)) d.sessions },
)

unfoldable pub delete_expired_sessions : ℕ → Database → Result ℕ × Database
unfolding delete_sessions
delete_expired_sessions now = delete_sessions (λ s. leb s.expires_at now)

unfoldable pub delete_sessions_for_user : ℕ → Database → Result ℕ × Database
unfolding delete_sessions
delete_sessions_for_user user_id = delete_sessions (λ s. s.user_id == user_id)

unfoldable pub delete_other_sessions_for_user : ℕ → Bytes → Database → Result ℕ × Database
unfolding delete_sessions
delete_other_sessions_for_user user_id keep_id =
    delete_sessions (λ s. s.user_id == user_id && not (s.id =bytes keep_id))

-- `ORDER BY created_at DESC`
insert_newest : Session → List Session → List Session
insert_newest s [] = s ∷ []
insert_newest s (t ∷ rest) =
    if leb t.created_at s.created_at then s ∷ t ∷ rest else t ∷ insert_newest s rest

unfoldable pub newest_first : List Session → List Session
unfolding insert_newest
newest_first [] = []
newest_first (s ∷ rest) = insert_newest s (newest_first rest)

unfoldable pub list_sessions_for_user : ℕ → Database → Result (List Session) × Database
unfolding newest_first
list_sessions_for_user user_id d =
    (ok (newest_first (filterb (λ s. s.user_id == user_id) d.sessions)), d)

unfoldable pub count_active_sessions : ℕ → Database → Result ℕ × Database
count_active_sessions now d = (ok (length (filterb (λ s. ltb now s.expires_at) d.sessions)), d)
