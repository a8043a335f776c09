-- ===== src/ControlPlane/Privilege.antt =====
-- Who may change what an account or a token allows.
use light_waf.Prelude.{
  ◌≡◌, refl, ◌≢◌, ◌∙◌, ap, ap₂, ℕ, Bool, false, not, inl, inr, List, [], ◌∷◌, map, Option, none,
  some, Bytes, codes, Bool-cases,
}
use light_waf.Governance.Audit.{AuditRecord}
use light_waf.Governance.Rbac.{
  Role, viewer, operator, admin, Permission, manage_users, manage_tokens, view_audit, allows,
}
use light_waf.Governance.Store.{UserRow, TokenRow, Database}
use light_waf.Governance.Store.Queries.{update, has_id, set_password_hash}
use light_waf.Governance.Store.Queries
use light_waf.ControlPlane.Server.{
  Principal, Response, Headers, Libraries, Settings, Env, AppState, M, ◌>>=◌, pure, or_else, if_so,
  reply, text,
}
use light_waf.ControlPlane.Server.Keeps.{Stable}
use light_waf.ControlPlane.Auth.{require, resolve_principal}
use light_waf.ControlPlane.Keeps.{DrawsAny, KeepsSessions, require-Keeps, resolve_principal-Keeps}
use light_waf.ControlPlane.Keeps.Tables.{Of, sessions_keep}
use light_waf.ControlPlane.Keeps.Login.{
  login-Keeps, oidc_login-Keeps, me-Keeps, logout-Keeps, list_sessions-Keeps, revoke_session-Keeps,
  change_password-Keeps,
}
use light_waf.ControlPlane.Router.{
  Request, login, oidc_login, oidc_callback, me, logout, list_sessions, revoke_session,
  change_password, list_users, create_user, update_user, delete_user, revoke_user_sessions,
  reset_password, list_tokens, create_token, revoke_token, Call, handle, serve, list_audit,
  verify_audit,
}

-- what an account may do: its name, its role and whether it is disabled
abbrev pub authority : UserRow → ℕ × Bytes × Bytes × Bool
authority u = (u.id, u.username, u.role, u.disabled)

abbrev pub authorities : Database → List (ℕ × Bytes × Bytes × Bool) × List TokenRow
authorities d = (map authority d.users, d.tokens)

-- every request but the callback of a federated login, whose role the provider gives
abbrev pub IsLocal : Request → Type 0
IsLocal (oidc_callback q) = ⊥
IsLocal _ = Unit

map-update :
    (test : UserRow → Bool) (f : UserRow → UserRow) (users : List UserRow)
    → ((u : UserRow) → authority (f u) ≡ authority u)
    → map authority (update test f users) ≡ map authority users
map-update test f [] same = refl
map-update test f (u ∷ users) same = elim (Bool-cases (test u)) [
  | inl picked ↦ rw picked (ap₂ ◌∷◌ (same u) (map-update test f users same))
  | inr other ↦ rw other (ap (◌∷◌ (authority u)) (map-update test f users same))
]

-- a permission that only an admin has
abbrev IsReserved : Permission → Type 0
IsReserved perm = (r : Role) → r ≢ admin → allows r perm ≡ false

manage_users-IsReserved : IsReserved manage_users
unfolding allows
manage_users-IsReserved viewer h = refl
manage_users-IsReserved operator h = refl
manage_users-IsReserved admin h = absurd (h refl)

manage_tokens-IsReserved : IsReserved manage_tokens
unfolding allows
manage_tokens-IsReserved viewer h = refl
manage_tokens-IsReserved operator h = refl
manage_tokens-IsReserved admin h = absurd (h refl)

view_audit-IsReserved : IsReserved view_audit
unfolding allows
view_audit-IsReserved viewer h = refl
view_audit-IsReserved operator h = refl
view_audit-IsReserved admin h = absurd (h refl)

module _ (lib : Libraries) (settings : Settings) (env : Env) (h : Headers) (s : AppState) where
  -- whoever the request comes from is no admin
  abbrev pub IsUnprivileged : Type 0
  IsUnprivileged =
      (p : Principal) → (resolve_principal lib settings env h s).0 ≡ some p → p.role ≢ admin

  module _ (P : Database → Type 0) (perm : Permission) (reserved : IsReserved perm)
      (next : Principal → M Response) where
    refused :
        (found : Option Principal) (s' : AppState)
        → ((p : Principal) → found ≡ some p → p.role ≢ admin)
        → P s'.pool.database
        → P
            (or_else found
              (pure (reply 401 (text (codes "unauthorized"))))
              (λ p.
                if_so
                  (not (allows p.role perm))
                  (pure (reply 403 (text (codes "forbidden"))))
                  (next p))
              s').1.pool.database
    unfolding or_else if_so pure
    refused none s' low holds = holds
    refused (some p) s' low holds = rw (reserved p.role (low p refl)) holds

    require-refused :
        IsUnprivileged
        → P s.pool.database
        → P (require lib settings perm env h next s).1.pool.database
    unfolding require ◌>>=◌
    require-refused low holds =
        refused (resolve_principal lib settings env h s).0
          (resolve_principal lib settings env h s).1 low
          ((resolve_principal-Keeps {P = P} lib settings env h).at s holds)

module _ (lib : Libraries) (settings : Settings)
    (before : List (ℕ × Bytes × Bytes × Bool) × List TokenRow) where
  -- the accounts and tokens are as before
  abbrev Same : List UserRow → ℕ → List TokenRow → List AuditRecord → Type 0
  Same users next_user tokens log = (map authority users, tokens) ≡ before

  Same-sessions : KeepsSessions lib DrawsAny (Of Same)
  Same-sessions = sessions_keep Same lib (λ _ _ _ _ _ _ h. h)

  password_leaves : (id : ℕ) (hash : Bytes) → Stable (Of Same) (set_password_hash id hash)
  unfolding set_password_hash Queries.update_user
  password_leaves id hash d h =
      ap (λ (l : List (ℕ × Bytes × Bytes × Bool)). (l, d.tokens))
        (map-update (has_id id) _ d.users (λ u. refl))
      ∙ h

  handle-Same :
      (r : Request) (h : Headers) (env : Env) (s : AppState)
      → IsLocal r
      → IsUnprivileged lib settings env h s
      → Of Same s.pool.database
      → Of Same (handle lib settings r h env s).1.pool.database
  unfolding handle
  handle-Same (login body) h env s _ low e = (login-Keeps Same-sessions settings env tt body).at s e
  handle-Same oidc_login h env s _ low e = (oidc_login-Keeps Same-sessions settings env tt).at s e
  handle-Same (oidc_callback q) h env s local low e = absurd local
  handle-Same me h env s _ low e =
      (require-Keeps lib settings _ env h _ (me-Keeps Same-sessions settings env tt)).at s e
  handle-Same logout h env s _ low e =
      (require-Keeps lib settings _ env h _ (logout-Keeps Same-sessions settings env tt h)).at s e
  handle-Same list_sessions h env s _ low e =
      (require-Keeps lib settings _ env h _ (list_sessions-Keeps Same-sessions settings env tt)).at
        s e
  handle-Same (revoke_session id) h env s _ low e =
      (require-Keeps lib settings _ env h _
          (revoke_session-Keeps Same-sessions settings env tt id)).at
        s e
  handle-Same (change_password body) h env s _ low e =
      (require-Keeps lib settings _ env h _
          (change_password-Keeps Same-sessions settings env tt password_leaves body)).at
        s e
  handle-Same list_users h env s _ low e =
      require-refused lib settings env h s (Of Same) _ manage_users-IsReserved _ low e
  handle-Same (create_user body) h env s _ low e =
      require-refused lib settings env h s (Of Same) _ manage_users-IsReserved _ low e
  handle-Same (update_user id body) h env s _ low e =
      require-refused lib settings env h s (Of Same) _ manage_users-IsReserved _ low e
  handle-Same (delete_user id) h env s _ low e =
      require-refused lib settings env h s (Of Same) _ manage_users-IsReserved _ low e
  handle-Same (revoke_user_sessions id) h env s _ low e =
      require-refused lib settings env h s (Of Same) _ manage_users-IsReserved _ low e
  handle-Same (reset_password id body) h env s _ low e =
      require-refused lib settings env h s (Of Same) _ manage_users-IsReserved _ low e
  handle-Same list_tokens h env s _ low e =
      require-refused lib settings env h s (Of Same) _ manage_tokens-IsReserved _ low e
  handle-Same (create_token body) h env s _ low e =
      require-refused lib settings env h s (Of Same) _ manage_tokens-IsReserved _ low e
  handle-Same (revoke_token id) h env s _ low e =
      require-refused lib settings env h s (Of Same) _ manage_tokens-IsReserved _ low e
  handle-Same (list_audit limit) h env s _ low e =
      require-refused lib settings env h s (Of Same) _ view_audit-IsReserved _ low e
  handle-Same verify_audit h env s _ low e =
      require-refused lib settings env h s (Of Same) _ view_audit-IsReserved _ low e

module _ (lib : Libraries) (settings : Settings) where
  -- A request other than the callback of a federated login, from nobody or from a caller that is no
  -- admin, leaves every account's name, role and being disabled, and every token, as they are, whatever
  -- becomes of its queries.
  pub serve-authorities :
      (c : Call) (s : AppState)
      → IsLocal c.request
      → IsUnprivileged lib settings c.env c.headers s
      → authorities (serve lib settings c s).1.pool.database ≡ authorities s.pool.database
  unfolding serve
  serve-authorities c s local low =
      handle-Same lib settings (authorities s.pool.database) c.request c.headers c.env s local low
        refl
