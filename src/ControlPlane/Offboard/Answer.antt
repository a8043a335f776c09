-- ===== src/ControlPlane/Offboard/Answer.antt =====
-- An update that disables an account and is answered with 200 has disabled it, and no later request is
-- served as that account's session.
use light_waf.Prelude.{
  ◌≡◌, refl, sym, ◌∙◌, ◌⊎◌, ℕ, ◌<◌, ◌==◌, ==_iff, Bool, true, false, not, ◌||◌, inl, inr, List, [],
  ◌∷◌, Option, none, some, All, any, Bool-cases, arith,
}
use light_waf.Governance.Audit.{AuditRecord}
use light_waf.Governance.Rbac.{Role, manage_users}
use light_waf.Governance.Store.{UserRow, TokenRow, Database, ok}
use light_waf.Governance.Store.Queries.{
  update, has_id, set_user_role, set_user_disabled, update_user,
}
use light_waf.ControlPlane.Server.{
  Principal, Headers, Libraries, Settings, Env, AppState, ◌>>=◌, pure, on_pool, or_500, or_else,
  if_so,
}
use light_waf.ControlPlane.Server.Grants.{Grants, Grants-refused, Grants-Keeps, Grants-query}
use light_waf.ControlPlane.Auth.{resolve_principal}
use light_waf.ControlPlane.Accounts.{UpdateUserBody, change, updated, nothing_changed}
use light_waf.ControlPlane.Accounts
use light_waf.ControlPlane.Keeps.Accounts.{updated-Keeps}
use light_waf.ControlPlane.Keeps.Serve.{Permits, serve_all-keeps, DrawsAny-All}
use light_waf.ControlPlane.Keeps.Tables.{Of}
use light_waf.ControlPlane.Router.{Request, Call, handle, serve, serve_all}
use light_waf.ControlPlane.Router
use light_waf.ControlPlane.Offboard.{
  IsOut, IsDisabled, Elsewhere, IsDisabled-keep, IsDisabled-sessions,
}
use light_waf.ControlPlane.Callers.{require-Grants}
use light_waf.ControlPlane.Offboard.Resolve.{IsOther, resolve_principal-IsOther}

-- the sequence is past every id it has given
abbrev pub HasFreshIds : List UserRow → ℕ → List TokenRow → List AuditRecord → Type 0
HasFreshIds users next_user tokens log = All (λ (u : UserRow). u.id < next_user) users

any-fresh :
    (id next : ℕ) (users : List UserRow)
    → All (λ (u : UserRow). u.id < next) users
    → any (has_id id) users ≡ true
    → id < next
any-fresh id next [] fresh h = absurd (cc h)
any-fresh id next (u ∷ users) fresh h = elim (Bool-cases (u.id == id)) [
  | inl same ↦ omega (arith, fresh.0, (==_iff u.id id).0 same)
  | inr other ↦ any-fresh id next users fresh.1 (rw other at h)
]

update-fresh :
    (next : ℕ) (test : UserRow → Bool) (f : UserRow → UserRow) (users : List UserRow)
    → ((u : UserRow) → (f u).id ≡ u.id)
    → All (λ (u : UserRow). u.id < next) users
    → All (λ (u : UserRow). u.id < next) (update test f users)
update-fresh next test f [] same fresh = tt
update-fresh next test f (u ∷ users) same fresh = elim (Bool-cases (test u)) [
  | inl picked ↦ rw picked (rw (same u) fresh.0, update-fresh next test f users same fresh.1)
  | inr other ↦ rw other (fresh.0, update-fresh next test f users same fresh.1)
]

disable-IsOut :
    (id : ℕ) (users : List UserRow)
    → All (IsOut id) (update (has_id id) (λ u. record u { disabled = true }) users)
disable-IsOut id [] = tt
disable-IsOut id (u ∷ users) = elim (Bool-cases (u.id == id)) [
  | inl same ↦ rw same ((λ _. refl), disable-IsOut id users)
  | inr other ↦
      rw other ((λ same. absurd (cc (sym other ∙ (==_iff u.id id).1 same))), disable-IsOut id users)
]

module _ (id : ℕ) where
  -- the ids are fresh, and the account is there if `c` says so
  abbrev HasChecked : Bool → List UserRow → ℕ → List TokenRow → List AuditRecord → Type 0
  HasChecked c users next_user tokens log =
      HasFreshIds users next_user tokens log × (c ≡ true → id < next_user)

  -- its rows are disabled, and the account is there if either says so
  abbrev HasSet : Bool → Bool → List UserRow → ℕ → List TokenRow → List AuditRecord → Type 0
  HasSet c c' users next_user tokens log =
      ((c || c') ≡ true → id < next_user) × All (IsOut id) users

  ok-eq : {A : Type 0} (a b : A) → ok a ≡ ok b → a ≡ b
  ok-eq a b p = cc

  role_says :
      (role : Role) (d : Database) (c : Bool)
      → Of HasFreshIds d
      → (set_user_role id role d).0 ≡ ok c
      → Of (HasChecked c) (set_user_role id role d).1
  unfolding set_user_role update_user
  role_says role d c fresh e = (
    update-fresh d.next_user (has_id id) _ d.users (λ u. refl) fresh,
    λ there. any-fresh id d.next_user d.users fresh (ok-eq _ c e ∙ there),
  )

  disabled_says :
      (c : Bool) (d : Database) (c' : Bool)
      → Of (HasChecked c) d
      → (set_user_disabled id true d).0 ≡ ok c'
      → Of (HasSet c c') (set_user_disabled id true d).1
  unfolding set_user_disabled update_user
  disabled_says c d c' h e = (either (Bool-cases c), disable-IsOut id d.users)
    where
      either : (c ≡ true) ⊎ (c ≡ false) → (c || c') ≡ true → id < d.next_user
      either (inl set) there = h.1 set
      either (inr unset) there =
          any-fresh id d.next_user d.users h.0 (ok-eq _ c' e ∙ (rw unset at there))

  module _ (lib : Libraries) (env : Env) (body : UpdateUserBody) (p : Principal) where
    conclude-Grants :
        (c c' : Bool)
        → Grants 200
            (Of (HasSet c c'))
            (Of (IsDisabled id))
            (if_so (not (c || c')) (pure nothing_changed) (updated lib env id body p))
    unfolding if_so
    conclude-Grants false false = Grants-refused nothing_changed refl
    conclude-Grants true c' =
        Grants-Keeps _ (λ d h. (h.0 refl, h.1))
          (updated-Keeps (IsDisabled-sessions lib id) env id body p)
    conclude-Grants false true =
        Grants-Keeps _ (λ d h. (h.0 refl, h.1))
          (updated-Keeps (IsDisabled-sessions lib id) env id body p)

    after_role :
        (c : Bool)
        → Grants 200 (Of (HasChecked c)) (Of (IsDisabled id)) (
            on_pool (set_user_disabled id true) >>= λ disabled_set.
            or_500 disabled_set
              λ c'. if_so (not (c || c')) (pure nothing_changed) (updated lib env id body p))
    after_role c =
        Grants-query refl (λ c'. Of (HasSet c c')) (set_user_disabled id true) _ (disabled_says c)
          (conclude-Grants c)

    keep_role : Grants 200 (Of HasFreshIds) (Of (IsDisabled id)) (
        pure (ok false) >>= λ r. or_500 r λ c.
          on_pool (set_user_disabled id true) >>= λ disabled_set.
          or_500 disabled_set
            λ c'. if_so (not (c || c')) (pure nothing_changed) (updated lib env id body p))
    unfolding or_500 ◌>>=◌ pure
    keep_role = record { at = λ s fresh h. (after_role false).at s (fresh, λ no. absurd (cc no)) h }

  module _ (lib : Libraries) (env : Env) (p : Principal) where
    update-Grants :
        (role : Option Role)
        → Grants 200
            (Of HasFreshIds)
            (Of (IsDisabled id))
            (Accounts.update_user lib env id (record { role = role; disabled = some true }) p)
    unfolding Accounts.update_user change or_else
    update-Grants (some role) =
        Grants-query refl (λ c. Of (HasChecked c)) (set_user_role id role) _ (role_says role)
          (after_role lib env (record { role = some role; disabled = some true }) p)
    update-Grants none = keep_role lib env (record { role = none; disabled = some true }) p

-- the request to disable an account, with or without a new role
abbrev pub disable : ℕ → Option Role → Headers → Env → Call
disable id role h env = record {
  request = Router.update_user id (record { role = role; disabled = some true });
  headers = h;
  env = env;
}

module _ (lib : Libraries) (settings : Settings) where
  serve-disable :
      (id : ℕ) (role : Option Role) (h : Headers) (env : Env) (s : AppState)
      → Of HasFreshIds s.pool.database
      → (serve lib settings (disable id role h env) s).0.status ≡ 200
      → Of (IsDisabled id) (serve lib settings (disable id role h env) s).1.pool.database
  unfolding serve handle
  serve-disable id role h env s fresh answered =
      (require-Grants lib settings env h manage_users _ (λ p. update-Grants id lib env p role)).at s
        fresh answered

  -- Once a request that disables an account is answered with 200, on tables whose sequence is past
  -- every id that it has given, then after any requests that do not enable that account again, with
  -- whatever headers, at whatever time and whatever becomes of their queries, no request resolves to
  -- a session of the account.
  pub resolve_principal-disable :
      (id : ℕ) (role : Option Role) (admin later : Headers) (env env' : Env) (calls : List Call)
      (s : AppState)
      → Of HasFreshIds s.pool.database
      → (serve lib settings (disable id role admin env) s).0.status ≡ 200
      → All (λ (c : Call). Permits (Elsewhere id) c.request) calls
      → IsOther id
          (resolve_principal lib settings env' later
            (serve_all lib settings calls (serve lib settings (disable id role admin env) s).1)).0
  resolve_principal-disable id role admin later env env' calls s fresh answered elsewhere =
      resolve_principal-IsOther id lib settings env' later _ (
        serve_all-keeps lib settings (IsDisabled-sessions lib id) (IsDisabled-keep lib id) calls
          (serve lib settings (disable id role admin env) s).1 (DrawsAny-All calls) elsewhere
          (serve-disable id role admin env s fresh answered))
