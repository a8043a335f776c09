-- ===== src/ControlPlane/Offboard/Resolve.antt =====
-- No request comes from an account that is disabled.
use light_waf.Prelude.{
  ◌≡◌, refl, sym, subst, ◌∙◌, ◌≢◌, ℕ, true, inl, inr, Option, none, some, Bytes, Bool-cases, arith,
}
use light_waf.Prelude.Dict.{OnSome}
use light_waf.Governance.Rbac.{Role, from_str}
use light_waf.Governance.Store.{
  UserRow, Session, User, config, Result, ok, err, with_role, row_to_user,
}
use light_waf.Governance.Store.Queries.{has_id}
use light_waf.Governance.Store.Reads.{find-test}
use light_waf.ControlPlane.Server.{Principal, Headers, Libraries, Settings, Env, AppState}
use light_waf.ControlPlane.Auth.{session_principal, of_session, token_principal, resolve_principal}
use light_waf.ControlPlane.Callers.{resolve_principal-IsFit}
use light_waf.ControlPlane.Keeps.Tables.{Of}
use light_waf.ControlPlane.Offboard.{IsOut, IsDisabled}

with_role-ok :
    (role : Bytes) (make : Role → User) (P : User → Type 0) (user : User)
    → ((r : Role) → P (make r))
    → with_role role make ≡ ok user
    → P user
unfolding with_role
with_role-ok role make P user each e = read (from_str role) e
  where
    ok_eq : (a b : User) → ok a ≡ ok b → a ≡ b
    ok_eq a b p = cc

    read :
        (o : Option Role)
        → elim o as (λ _. Result User) [ none ↦ err config | some r ↦ ok (make r) ] ≡ ok user
        → P user
    read none p = absurd (cc p)
    read (some r) p = subst P (ok_eq (make r) user p) (each r)

row_to_user-reads :
    (u : UserRow) (user : User)
    → row_to_user u ≡ ok user
    → (user.id ≡ u.id) × (user.disabled ≡ u.disabled)
unfolding row_to_user
row_to_user-reads u user e =
    with_role-ok u.role _ (λ (v : User). (v.id ≡ u.id) × (v.disabled ≡ u.disabled)) user
      (λ r. (refl, refl)) e

module _ (id : ℕ) where
  -- not a session of the account
  abbrev pub IsOther : Option Principal → Type 0
  IsOther = OnSome (λ p. p.user_id ≢ some id)

  of_session-IsOther :
      (s : Session) (user : User)
      → (user.id ≡ id → user.disabled ≡ true)
      → IsOther (of_session (ok (some (s, user))))
  unfolding of_session session_principal
  of_session-IsOther s user out = elim (Bool-cases user.disabled) [
    | inl disabled ↦ rw disabled tt
    | inr enabled ↦ rw enabled λ same. ground (arith, out)
  ]

  -- whoever a request comes from, it is not the account
  pub resolve_principal-IsOther :
      (lib : Libraries) (settings : Settings) (env : Env) (h : Headers) (s : AppState)
      → Of (IsDisabled id) s.pool.database
      → IsOther (resolve_principal lib settings env h s).0
  resolve_principal-IsOther lib settings env h s out =
      resolve_principal-IsFit (λ p. p.user_id ≢ some id)
        (λ name role. unfold token_principal in λ same. cc) lib settings env h s
        λ x u user _ there read. of_session-IsOther x user λ same.
          let row = row_to_user-reads u user read in
          row.1
          ∙ (find-test (IsOut id) (has_id x.user_id) s.pool.database.users u out.1 there).0
              (sym row.0 ∙ same)
