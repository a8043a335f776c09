-- ===== src/ControlPlane/Router.antt =====
-- crates/waf-controlplane/src/gov_api.rs: `governed_router`, which puts each handler behind the permission
-- of its group, or behind none. The routes of rules, captures, alerts and
-- reports are not modelled.
use light_waf.Prelude.{ℕ, Option, List, [], ◌∷◌, Bytes}
use light_waf.Governance.Rbac.{read_observability, manage_users, manage_tokens, view_audit}
use light_waf.ControlPlane.Server.{Response, Headers, Libraries, Settings, Env, AppState, M}
use light_waf.ControlPlane.Auth.{require}
use light_waf.ControlPlane.Login.{LoginBody, OidcCallbackQuery, ChangePasswordBody}
use light_waf.ControlPlane.Login
use light_waf.ControlPlane.Accounts.{
  CreateUserBody, UpdateUserBody, ResetPasswordBody, CreateTokenBody,
}
use light_waf.ControlPlane.Accounts
use light_waf.ControlPlane.AuditLog.{Limit}
use light_waf.ControlPlane.AuditLog

pub data Request : Type 0 where
  login : LoginBody → Request
  oidc_login : Request
  oidc_callback : OidcCallbackQuery → Request
  me logout list_sessions : Request
  revoke_session : Bytes → Request
  change_password : ChangePasswordBody → Request
  list_users : Request
  create_user : CreateUserBody → Request
  update_user : ℕ → UpdateUserBody → Request
  delete_user revoke_user_sessions : ℕ → Request
  reset_password : ℕ → ResetPasswordBody → Request
  list_tokens : Request
  create_token : CreateTokenBody → Request
  revoke_token : ℕ → Request
  list_audit : Option Limit → Request
  verify_audit : Request

-- one request, with its headers and what it draws from outside
pub record Call : Type 0 where
  pub request : Request
  pub headers : Headers
  pub env : Env

module _ (lib : Libraries) (settings : Settings) where
  unfoldable pub handle : Request → Headers → Env → M Response
  handle (login body) h env = Login.login lib settings env body
  handle oidc_login h env = Login.oidc_login lib settings env
  handle (oidc_callback q) h env = Login.oidc_callback lib settings env q
  handle me h env = require lib settings read_observability env h (Login.me lib settings env)
  handle logout h env =
      require lib settings read_observability env h (Login.logout lib settings env h)
  handle list_sessions h env =
      require lib settings read_observability env h (Login.list_sessions lib settings env)
  handle (revoke_session id) h env =
      require lib settings read_observability env h (Login.revoke_session lib settings env id)
  handle (change_password body) h env =
      require lib settings read_observability env h (Login.change_password lib settings env body)
  handle list_users h env =
      require lib settings manage_users env h (λ _. Accounts.list_users lib env)
  handle (create_user body) h env =
      require lib settings manage_users env h (Accounts.create_user lib env body)
  handle (update_user id body) h env =
      require lib settings manage_users env h (Accounts.update_user lib env id body)
  handle (delete_user id) h env =
      require lib settings manage_users env h (Accounts.delete_user lib env id)
  handle (revoke_user_sessions id) h env =
      require lib settings manage_users env h (Accounts.revoke_user_sessions lib env id)
  handle (reset_password id body) h env =
      require lib settings manage_users env h (Accounts.reset_password lib env id body)
  handle list_tokens h env =
      require lib settings manage_tokens env h (λ _. Accounts.list_tokens lib env)
  handle (create_token body) h env =
      require lib settings manage_tokens env h (Accounts.create_token lib env body)
  handle (revoke_token id) h env =
      require lib settings manage_tokens env h (Accounts.revoke_token lib env id)
  handle (list_audit limit) h env =
      require lib settings view_audit env h (λ _. AuditLog.list_audit limit)
  handle verify_audit h env = require lib settings view_audit env h (λ _. AuditLog.verify_audit lib)

  unfoldable pub serve : Call → AppState → Response × AppState
  unfolding handle
  serve c = handle c.request c.headers c.env

  -- the state after requests, one after the other
  unfoldable pub serve_all : List Call → AppState → AppState
  unfolding serve
  serve_all [] s = s
  serve_all (c ∷ calls) s = serve_all calls (serve c s).1
