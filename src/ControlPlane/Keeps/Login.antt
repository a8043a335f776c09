-- ===== src/ControlPlane/Keeps/Login.antt =====
-- The handlers of logins keep of the tables what each query keeps.
use light_waf.Prelude.{ℕ, Bytes}
use light_waf.Governance.Rbac.{Role}
use light_waf.Governance.Store.{Database, User, UserWithHash}
use light_waf.Governance.Store.Queries
use light_waf.ControlPlane.Server.{
  Principal, Headers, Libraries, Settings, Env, Verified, denied, verified, Identity, on_pool,
}
use light_waf.ControlPlane.Server.Keeps.{Stable, Keeps, Keeps-on_pool}
use light_waf.ControlPlane.Keeps.{KeepsSessions, read_rules, audit_rule, set_password_rule}
use light_waf.ControlPlane.Login
use light_waf.ControlPlane.Login.{LoginBody, OidcCallbackQuery, ChangePasswordBody}

module _ {lib : Libraries} {Draws : Env → Type 0} {P : Database → Type 0}
    (s : KeepsSessions lib Draws P) (settings : Settings) (env : Env) (draws : Draws env) where
  create_session_rule :
      (uid expires : ℕ)
      → Keeps P (on_pool (Queries.create_session env.generate_session_id uid expires env.now))
  create_session_rule uid expires =
      Keeps-on_pool P (Queries.create_session env.generate_session_id uid expires env.now)
        (s.create_session_keeps env uid expires draws)

  delete_session_rule : (id : Bytes) → Keeps P (on_pool (Queries.delete_session id))
  delete_session_rule id = Keeps-on_pool P (Queries.delete_session id) (s.delete_session_keeps id)

  delete_others_rule :
      (uid : ℕ) (keep : Bytes) → Keeps P (on_pool (Queries.delete_other_sessions_for_user uid keep))
  delete_others_rule uid keep =
      Keeps-on_pool P (Queries.delete_other_sessions_for_user uid keep)
        (s.delete_others_keeps uid keep)

  put_flow_rule : Keeps P (
      on_pool (
        Queries.put_oidc_flow env.authorize.state env.authorize.pkce_verifier env.authorize.nonce
          env.now))
  put_flow_rule = Keeps-on_pool P _ (s.put_flow_keeps env draws)

  take_flow_rule : (state : Bytes) → Keeps P (on_pool (Queries.take_oidc_flow state))
  take_flow_rule state = Keeps-on_pool P (Queries.take_oidc_flow state) (s.take_flow_keeps state)

  login_fail_rule :
      (username reason : Bytes) → Keeps P (Login.login_fail lib settings env username reason)
  unfolding Login.login_fail
  login_fail_rule username reason = search (read_rules, audit_rule) depth 16

  open_session_rule :
      (body : LoginBody) (user : User) → Keeps P (Login.open_session lib settings env body user)
  unfolding Login.open_session
  open_session_rule body user = search (read_rules, audit_rule, create_session_rule) depth 16

  login_as_rule :
      (body : LoginBody) (uwh : UserWithHash) → Keeps P (Login.login_as lib settings env body uwh)
  unfolding Login.login_as
  login_as_rule body uwh = search (read_rules, login_fail_rule, open_session_rule) depth 16

  pub login-Keeps : (body : LoginBody) → Keeps P (Login.login lib settings env body)
  unfolding Login.login
  login-Keeps body = search (read_rules, audit_rule, login_fail_rule, login_as_rule) depth 16

  pub logout-Keeps : (h : Headers) (p : Principal) → Keeps P (Login.logout lib settings env h p)
  unfolding Login.logout
  logout-Keeps h p = search (read_rules, audit_rule, delete_session_rule) depth 16

  pub me-Keeps : (p : Principal) → Keeps P (Login.me lib settings env p)
  unfolding Login.me
  me-Keeps p = search (read_rules) depth 16

  pub list_sessions-Keeps : (p : Principal) → Keeps P (Login.list_sessions lib settings env p)
  unfolding Login.list_sessions
  list_sessions-Keeps p = search (read_rules) depth 16

  pub revoke_session-Keeps :
      (id : Bytes) (p : Principal) → Keeps P (Login.revoke_session lib settings env id p)
  unfolding Login.revoke_session
  revoke_session-Keeps id p = search (read_rules, audit_rule, delete_session_rule) depth 16

  pub oidc_login-Keeps : Keeps P (Login.oidc_login lib settings env)
  unfolding Login.oidc_login
  oidc_login-Keeps = search (read_rules, put_flow_rule) depth 16

  sso_denied_rule :
      (status : ℕ) (actor reason answer : Bytes)
      → Keeps P (Login.sso_denied lib settings env status actor reason answer)
  unfolding Login.sso_denied
  sso_denied_rule status actor reason answer = search (read_rules, audit_rule) depth 16

  sso_session_rule :
      (who : Identity) (user : User) → Keeps P (Login.sso_session lib settings env who user)
  unfolding Login.sso_session
  sso_session_rule who user =
      search (read_rules, audit_rule, sso_denied_rule, create_session_rule) depth 16

  module _
      (set_password_keeps : (id : ℕ) (hash : Bytes)
        → Stable P (Queries.set_password_hash id hash)) where
    replace_password_rule :
        (new : Bytes) (uid : ℕ) (sid : Bytes) (p : Principal)
        → Keeps P (Login.replace_password lib settings env new uid sid p)
    unfolding Login.replace_password
    replace_password_rule new uid sid p =
        search (read_rules, audit_rule, set_password_rule, delete_others_rule) depth 16

    pub change_password-Keeps :
        (body : ChangePasswordBody) (p : Principal)
        → Keeps P (Login.change_password lib settings env body p)
    unfolding Login.change_password
    change_password-Keeps body p = search (read_rules, replace_password_rule) depth 16

  module _
      (upsert_keeps : (username : Bytes) (role : Role) (now : ℕ)
        → Stable P (Queries.upsert_oidc_user lib.debug username role now)) where
    upsert_rule :
        (username : Bytes) (role : Role) (now : ℕ)
        → Keeps P (on_pool (Queries.upsert_oidc_user lib.debug username role now))
    upsert_rule username role now =
        Keeps-on_pool P (Queries.upsert_oidc_user lib.debug username role now)
          (upsert_keeps username role now)

    pub sso_user_rule : (v : Verified) → Keeps P (Login.sso_user lib settings env v)
    unfolding Login.sso_user
    sso_user_rule (denied msg) = sso_denied_rule 401 _ msg msg
    sso_user_rule (verified who) =
        search (read_rules, upsert_rule, sso_denied_rule, sso_session_rule) depth 16

    pub oidc_callback-Keeps :
        (q : OidcCallbackQuery) → Keeps P (Login.oidc_callback lib settings env q)
    unfolding Login.oidc_callback
    oidc_callback-Keeps q = search (read_rules, take_flow_rule, sso_user_rule) depth 16
