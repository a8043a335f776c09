-- ===== src/Governance/Store/Reads.antt =====
-- The queries that only read leave the tables as they are.
use light_waf.Prelude.{
  ◌≡◌, refl, subst, ◌⊎◌, inl, inr, ℕ, Bool, true, some, List, [], ◌∷◌, Bytes, All, find,
  Option-cases, Bool-cases, arith,
}
use light_waf.Governance.Store.{Database, Error, Result, ok, err, row_to_user}
use light_waf.Governance.Store.Queries.{
  named, get_user_with_hash, list_users, has_id, is_live, get_session_with_user, is_active,
  find_active_token, list_tokens, list_sessions_for_user, recent_audit, all_audit_ordered,
}

-- a result is one or the other
pub Result-cases {ℓ} :
    {A : Type ℓ} (r : Result A) → ((a : A) × (r ≡ ok a)) ⊎ ((e : Error) × (r ≡ err e))
Result-cases (ok a) = inl (a, refl)
Result-cases (err e) = inr (e, refl)

pub get_user_with_hash-reads :
    (username : Bytes) (d : Database) → (get_user_with_hash username d).1 ≡ d
unfolding get_user_with_hash
get_user_with_hash-reads username d = elim (Option-cases (find (named username) d.users)) [
  | inl missing ↦ rw (missing, get_user_with_hash) refl
  | inr (u, found) ↦ elim (Result-cases (row_to_user u)) [
    | inl (user, read) ↦ rw (found, get_user_with_hash) (rw read refl)
    | inr (e, failed) ↦ rw (found, get_user_with_hash) (rw failed refl)
  ]
]

pub list_users-reads : (d : Database) → (list_users d).1 ≡ d
unfolding list_users
list_users-reads d = refl

pub get_session_with_user-reads :
    (id : Bytes) (now : ℕ) (d : Database) → (get_session_with_user id now d).1 ≡ d
unfolding get_session_with_user
get_session_with_user-reads id now d = elim (Option-cases (find (is_live id now) d.sessions)) [
  | inl missing ↦ rw (missing, get_session_with_user) refl
  | inr (s, found) ↦ elim (Option-cases (find (has_id s.user_id) d.users)) [
    | inl gone ↦ rw (found, get_session_with_user) (rw gone refl)
    | inr (u, there) ↦ elim (Result-cases (row_to_user u)) [
      | inl (user, read) ↦ rw (found, get_session_with_user) (rw there (rw read refl))
      | inr (e, failed) ↦ rw (found, get_session_with_user) (rw there (rw failed refl))
    ]
  ]
]

pub find_active_token-reads :
    (token_hash : Bytes) (d : Database) → (find_active_token token_hash d).1 ≡ d
unfolding find_active_token
find_active_token-reads token_hash d = elim (Option-cases (find (is_active token_hash) d.tokens)) [
  | inl missing ↦ rw (missing, find_active_token) refl
  | inr (t, found) ↦ rw (found, find_active_token) refl
]

pub list_tokens-reads : (d : Database) → (list_tokens d).1 ≡ d
unfolding list_tokens
list_tokens-reads d = refl

pub list_sessions_for_user-reads :
    (user_id : ℕ) (d : Database) → (list_sessions_for_user user_id d).1 ≡ d
unfolding list_sessions_for_user
list_sessions_for_user-reads user_id d = refl

pub recent_audit-reads : (limit : ℕ) (d : Database) → (recent_audit limit d).1 ≡ d
unfolding recent_audit
recent_audit-reads limit d = refl

pub all_audit_ordered-reads : (d : Database) → (all_audit_ordered d).1 ≡ d
unfolding all_audit_ordered
all_audit_ordered-reads d = refl

-- a row that is found is one of the rows, and passes the test
pub find-test {ℓ} :
    {A : Type ℓ} (P : A → Type 0) (test : A → Bool) (rows : List A) (a : A)
    → All P rows
    → find test rows ≡ some a
    → P a × (test a ≡ true)
find-test P test [] a h e = absurd (ground arith)
find-test P test (b ∷ rows) a h e = elim (Bool-cases (test b)) [
  | inl here ↦ subst (λ x. P x × (test x ≡ true)) (some_eq (rw here at e)) (h.0, here)
  | inr there ↦ find-test P test rows a h.1 (rw there at e)
]
  where
    some_eq : some b ≡ some a → b ≡ a
    some_eq p = cc
