-- ===== src/ControlPlane/Keeps.antt =====
-- What finding out a caller keeps of the tables, and what the handlers need of each query to keep it.
pub mod Login
pub mod Accounts
pub mod Serve
pub mod Tables
pub mod Rest
pub mod Drawn
use light_waf.Prelude.{◌≡◌, refl, ℕ, Bool, true, Option, none, some, Bytes}
use light_waf.Schema.Value.{Value}
use light_waf.Governance.Rbac.{Role, Permission}
use light_waf.Governance.Store.{Database, User, UserWithHash, Result}
use light_waf.Governance.Store.Queries
use light_waf.Governance.Store.Reads.{
  get_user_with_hash-reads, list_users-reads, get_session_with_user-reads, find_active_token-reads,
  list_tokens-reads, list_sessions_for_user-reads, recent_audit-reads, all_audit_ordered-reads,
}
use light_waf.ControlPlane.Server.{
  Principal, Response, Headers, Libraries, Settings, Env, Verified, denied, verified, Identity, M,
  audit, on_pool,
}
use light_waf.ControlPlane.Server.Keeps.{
  Stable, Keeps, Keeps-on_pool, Keeps-read, Keeps-pure, Keeps-done, Keeps-ask_throttle,
  Keeps-on_throttle, Keeps-if_so, Keeps-or_500, Keeps-or_conflict, Keeps-bind, Keeps-or_else,
}
use light_waf.ControlPlane.Auth.{
  resolve_principal, require, by_session, by_token, by_bearer, look_up, or_next,
}

-- whatever a request draws
abbrev pub DrawsAny : Env → Type 0
DrawsAny env = Unit

-- each query of the sessions, of the login flows and of the audit log keeps `P`; a session or a flow is
-- only put under what a request draws, as `Draws` says
pub record KeepsSessions (lib : Libraries) (Draws : Env → Type 0) (P : Database → Type 0)
    : Type 0 where
  pub audit_keeps :
      (env : Env) (actor action : Bytes) (target : Option Bytes) (details : Value)
      → Keeps P (audit lib env actor action target details)
  pub create_session_keeps :
      (env : Env) (uid expires : ℕ)
      → Draws env
      → Stable P (Queries.create_session env.generate_session_id uid expires env.now)
  pub delete_session_keeps : (id : Bytes) → Stable P (Queries.delete_session id)
  pub delete_sessions_keeps : (uid : ℕ) → Stable P (Queries.delete_sessions_for_user uid)
  pub delete_others_keeps :
      (uid : ℕ) (keep : Bytes) → Stable P (Queries.delete_other_sessions_for_user uid keep)
  pub put_flow_keeps :
      (env : Env)
      → Draws env
      → Stable P (
          Queries.put_oidc_flow env.authorize.state env.authorize.pkce_verifier env.authorize.nonce
            env.now)
  pub take_flow_keeps : (state : Bytes) → Stable P (Queries.take_oidc_flow state)

-- whatever a request says of accounts
abbrev pub AllowsAny : ℕ → Bool → Type 0
AllowsAny id b = Unit

-- each query of the accounts and tokens keeps `P`; an account is disabled or enabled as `Allowed` says
pub record KeepsAccounts (lib : Libraries) (Allowed : ℕ → Bool → Type 0) (P : Database → Type 0)
    : Type 0 where
  pub create_user_keeps :
      (username hash : Bytes) (role : Role) (now : ℕ)
      → Stable P (Queries.create_user lib.debug username hash role now)
  pub set_user_role_keeps : (id : ℕ) (role : Role) → Stable P (Queries.set_user_role id role)
  pub set_user_disabled_keeps :
      (id : ℕ) (b : Bool) → Allowed id b → Stable P (Queries.set_user_disabled id b)
  pub delete_user_keeps : (id : ℕ) → Stable P (Queries.delete_user id)
  pub set_password_keeps : (id : ℕ) (hash : Bytes) → Stable P (Queries.set_password_hash id hash)
  pub upsert_keeps :
      (username : Bytes) (role : Role) (now : ℕ)
      → Stable P (Queries.upsert_oidc_user lib.debug username role now)
  pub create_token_keeps :
      (name hash : Bytes) (role : Role) (now : ℕ)
      → Stable P (Queries.create_token lib.debug name hash role now)
  pub revoke_token_keeps : (id : ℕ) → Stable P (Queries.revoke_token id)

module _ {P : Database → Type 0} where
  pub get_user_rule : (username : Bytes) → Keeps P (on_pool (Queries.get_user_with_hash username))
  get_user_rule username =
      Keeps-read P (Queries.get_user_with_hash username) (get_user_with_hash-reads username)

  pub list_users_rule : Keeps P (on_pool Queries.list_users)
  list_users_rule = Keeps-read P Queries.list_users list_users-reads

  pub get_session_rule :
      (id : Bytes) (now : ℕ) → Keeps P (on_pool (Queries.get_session_with_user id now))
  get_session_rule id now =
      Keeps-read P (Queries.get_session_with_user id now) (get_session_with_user-reads id now)

  pub find_token_rule : (hash : Bytes) → Keeps P (on_pool (Queries.find_active_token hash))
  find_token_rule hash =
      Keeps-read P (Queries.find_active_token hash) (find_active_token-reads hash)

  pub list_tokens_rule : Keeps P (on_pool Queries.list_tokens)
  list_tokens_rule = Keeps-read P Queries.list_tokens list_tokens-reads

  pub list_sessions_rule : (uid : ℕ) → Keeps P (on_pool (Queries.list_sessions_for_user uid))
  list_sessions_rule uid =
      Keeps-read P (Queries.list_sessions_for_user uid) (list_sessions_for_user-reads uid)

  pub recent_audit_rule : (limit : ℕ) → Keeps P (on_pool (Queries.recent_audit limit))
  recent_audit_rule limit = Keeps-read P (Queries.recent_audit limit) (recent_audit-reads limit)

  pub all_audit_rule : Keeps P (on_pool Queries.all_audit_ordered)
  all_audit_rule = Keeps-read P Queries.all_audit_ordered all_audit_ordered-reads

pub ruleset read_rules = (
  recent_audit_rule, all_audit_rule, Keeps-pure, Keeps-done, Keeps-ask_throttle, Keeps-on_throttle,
  Keeps-if_so, Keeps-or_500, Keeps-or_conflict, Keeps-bind, Keeps-or_else, get_user_rule,
  list_users_rule, get_session_rule, find_token_rule, list_tokens_rule, list_sessions_rule,
)

module _ {P : Database → Type 0} where
  look_up_rule :
      (o : Option Bytes) (f : Bytes → M (Option Principal))
      → ((b : Bytes) → Keeps P (f b))
      → Keeps P (look_up o f)
  unfolding look_up
  look_up_rule o f kf = search (read_rules) depth 16

  or_next_rule :
      (o : Option Principal) (m : M (Option Principal)) → Keeps P m → Keeps P (or_next o m)
  unfolding or_next
  or_next_rule none m km = km
  or_next_rule (some p) m km = Keeps-pure (some p)

  -- whoever a request comes from, finding it out changes nothing
  pub resolve_principal-Keeps :
      (lib : Libraries) (settings : Settings) (env : Env) (h : Headers)
      → Keeps P (resolve_principal lib settings env h)
  unfolding resolve_principal by_session by_token
  resolve_principal-Keeps lib settings env h =
      search (read_rules, look_up_rule, or_next_rule) depth 16

  pub require-Keeps :
      (lib : Libraries) (settings : Settings) (perm : Permission) (env : Env) (h : Headers)
      (next : Principal → M Response)
      → ((p : Principal) → Keeps P (next p))
      → Keeps P (require lib settings perm env h next)
  unfolding require
  require-Keeps lib settings perm env h next kn =
      search (read_rules, resolve_principal-Keeps) depth 16

module _ {lib : Libraries} {Draws : Env → Type 0} {P : Database → Type 0}
    (s : KeepsSessions lib Draws P) (env : Env) where
  pub audit_rule :
      (actor action : Bytes) (target : Option Bytes) (details : Value)
      → Keeps P (audit lib env actor action target details)
  audit_rule = s.audit_keeps env

  pub delete_sessions_rule : (uid : ℕ) → Keeps P (on_pool (Queries.delete_sessions_for_user uid))
  delete_sessions_rule uid =
      Keeps-on_pool P (Queries.delete_sessions_for_user uid) (s.delete_sessions_keeps uid)

module _ {P : Database → Type 0}
    (set_password_keeps : (id : ℕ) (hash : Bytes)
      → Stable P (Queries.set_password_hash id hash)) where
  pub set_password_rule :
      (id : ℕ) (hash : Bytes) → Keeps P (on_pool (Queries.set_password_hash id hash))
  set_password_rule id hash =
      Keeps-on_pool P (Queries.set_password_hash id hash) (set_password_keeps id hash)
