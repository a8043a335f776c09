-- ===== src/ControlPlane/Keeps/Serve.antt =====
-- Every request, and so any sequence of them, keeps of the tables what each query keeps.
use light_waf.Prelude.{◌≡◌, ℕ, Bool, List, [], ◌∷◌, some, All}
use light_waf.Governance.Store.{Database}
use light_waf.ControlPlane.Server.{Libraries, Settings, Env, Headers, AppState}
use light_waf.ControlPlane.Server.Keeps.{Keeps}
use light_waf.ControlPlane.Keeps.{DrawsAny, AllowsAny, KeepsSessions, KeepsAccounts, require-Keeps}
use light_waf.ControlPlane.Keeps.Login.{
  login-Keeps, oidc_login-Keeps, oidc_callback-Keeps, me-Keeps, logout-Keeps, list_sessions-Keeps,
  revoke_session-Keeps, change_password-Keeps,
}
use light_waf.ControlPlane.Keeps.Accounts.{
  list_users-Keeps, create_user-Keeps, update_user-Keeps, delete_user-Keeps,
  revoke_user_sessions-Keeps, reset_password-Keeps, list_tokens-Keeps, create_token-Keeps,
  revoke_token-Keeps, list_audit-Keeps, verify_audit-Keeps,
}
use light_waf.ControlPlane.Router.{
  Request, login, oidc_login, oidc_callback, me, logout, list_sessions, revoke_session,
  change_password, list_users, create_user, update_user, delete_user, revoke_user_sessions,
  reset_password, list_tokens, create_token, revoke_token, list_audit, verify_audit, Call, handle,
  serve, serve_all,
}

-- what a request says of accounts is allowed
abbrev pub Permits : (ℕ → Bool → Type 0) → Request → Type 0
Permits Allowed (update_user id body) = (b : Bool) → body.disabled ≡ some b → Allowed id b
Permits Allowed _ = Unit

module _ (lib : Libraries) (settings : Settings) {P : Database → Type 0} {Draws : Env → Type 0}
    {Allowed : ℕ → Bool → Type 0} (s : KeepsSessions lib Draws P)
    (a : KeepsAccounts lib Allowed P) where
  handle-Keeps :
      (r : Request) (h : Headers) (env : Env)
      → Draws env
      → Permits Allowed r
      → Keeps P (handle lib settings r h env)
  unfolding handle
  handle-Keeps (login body) h env draws _ = login-Keeps s settings env draws body
  handle-Keeps oidc_login h env draws _ = oidc_login-Keeps s settings env draws
  handle-Keeps (oidc_callback q) h env draws _ =
      oidc_callback-Keeps s settings env draws a.upsert_keeps q
  handle-Keeps me h env draws _ =
      require-Keeps lib settings _ env h _ (me-Keeps s settings env draws)
  handle-Keeps logout h env draws _ =
      require-Keeps lib settings _ env h _ (logout-Keeps s settings env draws h)
  handle-Keeps list_sessions h env draws _ =
      require-Keeps lib settings _ env h _ (list_sessions-Keeps s settings env draws)
  handle-Keeps (revoke_session id) h env draws _ =
      require-Keeps lib settings _ env h _ (revoke_session-Keeps s settings env draws id)
  handle-Keeps (change_password body) h env draws _ =
      require-Keeps lib settings _ env h _
        (change_password-Keeps s settings env draws a.set_password_keeps body)
  handle-Keeps list_users h env draws _ =
      require-Keeps lib settings _ env h _ (λ _. list_users-Keeps s env)
  handle-Keeps (create_user body) h env draws _ =
      require-Keeps lib settings _ env h _ (create_user-Keeps s env a body)
  handle-Keeps (update_user id body) h env draws allowed =
      require-Keeps lib settings _ env h _ (λ p. update_user-Keeps s env a id body p allowed)
  handle-Keeps (delete_user id) h env draws _ =
      require-Keeps lib settings _ env h _ (delete_user-Keeps s env a id)
  handle-Keeps (revoke_user_sessions id) h env draws _ =
      require-Keeps lib settings _ env h _ (revoke_user_sessions-Keeps s env id)
  handle-Keeps (reset_password id body) h env draws _ =
      require-Keeps lib settings _ env h _ (reset_password-Keeps s env a.set_password_keeps id body)
  handle-Keeps list_tokens h env draws _ =
      require-Keeps lib settings _ env h _ (λ _. list_tokens-Keeps s env)
  handle-Keeps (create_token body) h env draws _ =
      require-Keeps lib settings _ env h _ (create_token-Keeps s env a body)
  handle-Keeps (revoke_token id) h env draws _ =
      require-Keeps lib settings _ env h _ (revoke_token-Keeps s env a id)
  handle-Keeps (list_audit limit) h env draws _ =
      require-Keeps lib settings _ env h _ (λ _. list_audit-Keeps limit)
  handle-Keeps verify_audit h env draws _ =
      require-Keeps lib settings _ env h _ (λ _. verify_audit-Keeps lib)

  pub serve_all-keeps :
      (calls : List Call) (state : AppState)
      → All (λ (c : Call). Draws c.env) calls
      → All (λ (c : Call). Permits Allowed c.request) calls
      → P state.pool.database
      → P (serve_all lib settings calls state).pool.database
  unfolding serve_all serve
  serve_all-keeps [] state drawn all h = h
  serve_all-keeps (c ∷ calls) state drawn all h =
      serve_all-keeps calls _ drawn.1 all.1
        ((handle-Keeps c.request c.headers c.env drawn.0 all.0).at state h)

pub DrawsAny-All : (calls : List Call) → All (λ (c : Call). DrawsAny c.env) calls
DrawsAny-All [] = tt
DrawsAny-All (c ∷ calls) = (tt, DrawsAny-All calls)

pub Permits-All : (calls : List Call) → All (λ (c : Call). Permits AllowsAny c.request) calls
Permits-All [] = tt
Permits-All (c ∷ calls) = (permits c.request, Permits-All calls)
  where
    permits : (r : Request) → Permits AllowsAny r
    permits (update_user id body) = λ b e. tt
    permits (login body) = tt
    permits oidc_login = tt
    permits (oidc_callback q) = tt
    permits me = tt
    permits logout = tt
    permits list_sessions = tt
    permits (revoke_session id) = tt
    permits (change_password body) = tt
    permits list_users = tt
    permits (create_user body) = tt
    permits (delete_user id) = tt
    permits (revoke_user_sessions id) = tt
    permits (reset_password id body) = tt
    permits list_tokens = tt
    permits (create_token body) = tt
    permits (revoke_token id) = tt
    permits (list_audit limit) = tt
    permits verify_audit = tt
