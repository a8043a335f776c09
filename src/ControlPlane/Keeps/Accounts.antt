-- ===== src/ControlPlane/Keeps/Accounts.antt =====
-- The handlers of an administrator keep of the tables what each query keeps.
use light_waf.Prelude.{◌≡◌, refl, ℕ, Bool, false, not, ◌||◌, Option, none, some, Bytes}
use light_waf.Governance.Rbac.{Role}
use light_waf.Governance.Store.{Database, Result, ok}
use light_waf.Governance.Store.Queries
use light_waf.ControlPlane.Server.{Principal, Libraries, Env, M, on_pool, or_else}
use light_waf.ControlPlane.Server.Keeps.{
  Stable, Keeps, Keeps-on_pool, Keeps-pure, Keeps-if_so, Keeps-or_500, Keeps-bind,
}
use light_waf.ControlPlane.Keeps.{
  KeepsSessions, KeepsAccounts, read_rules, audit_rule, delete_sessions_rule, set_password_rule,
}
use light_waf.ControlPlane.Accounts
use light_waf.ControlPlane.AuditLog
use light_waf.ControlPlane.AuditLog.{Limit}
use light_waf.ControlPlane.Accounts.{
  CreateUserBody, UpdateUserBody, ResetPasswordBody, CreateTokenBody,
}

module _ {lib : Libraries} {Draws : Env → Type 0} {P : Database → Type 0}
    (s : KeepsSessions lib Draws P) (env : Env) where
  pub revoke_user_sessions-Keeps :
      (uid : ℕ) (p : Principal) → Keeps P (Accounts.revoke_user_sessions lib env uid p)
  unfolding Accounts.revoke_user_sessions
  revoke_user_sessions-Keeps uid p = search (read_rules, audit_rule, delete_sessions_rule) depth 16

  pub list_users-Keeps : Keeps P (Accounts.list_users lib env)
  unfolding Accounts.list_users
  list_users-Keeps = search (read_rules) depth 16

  pub list_tokens-Keeps : Keeps P (Accounts.list_tokens lib env)
  unfolding Accounts.list_tokens
  list_tokens-Keeps = search (read_rules) depth 16

  pub updated-Keeps :
      (id : ℕ) (body : UpdateUserBody) (p : Principal)
      → Keeps P (Accounts.updated lib env id body p)
  unfolding Accounts.updated
  updated-Keeps id body p = search (read_rules, audit_rule, delete_sessions_rule) depth 16

  change_rule :
      {A : Type 0} (o : Option A) (f : A → M (Result Bool))
      → ((a : A) → o ≡ some a → Keeps P (f a))
      → Keeps P (Accounts.change o f)
  unfolding Accounts.change or_else
  change_rule none f kf = Keeps-pure (ok false)
  change_rule (some a) f kf = kf a refl

  module _ {Allowed : ℕ → Bool → Type 0} (a : KeepsAccounts lib Allowed P) where
    create_user_rule :
        (username hash : Bytes) (role : Role) (now : ℕ)
        → Keeps P (on_pool (Queries.create_user lib.debug username hash role now))
    create_user_rule username hash role now =
        Keeps-on_pool P (Queries.create_user lib.debug username hash role now)
          (a.create_user_keeps username hash role now)

    delete_user_rule : (id : ℕ) → Keeps P (on_pool (Queries.delete_user id))
    delete_user_rule id = Keeps-on_pool P (Queries.delete_user id) (a.delete_user_keeps id)

    create_token_rule :
        (name hash : Bytes) (role : Role) (now : ℕ)
        → Keeps P (on_pool (Queries.create_token lib.debug name hash role now))
    create_token_rule name hash role now =
        Keeps-on_pool P (Queries.create_token lib.debug name hash role now)
          (a.create_token_keeps name hash role now)

    revoke_token_rule : (id : ℕ) → Keeps P (on_pool (Queries.revoke_token id))
    revoke_token_rule id = Keeps-on_pool P (Queries.revoke_token id) (a.revoke_token_keeps id)

    pub create_user-Keeps :
        (body : CreateUserBody) (p : Principal) → Keeps P (Accounts.create_user lib env body p)
    unfolding Accounts.create_user
    create_user-Keeps body p = search (read_rules, audit_rule, create_user_rule) depth 16

    set_role_rule :
        (id : ℕ) (o : Option Role)
        → Keeps P (Accounts.change o (λ role. on_pool (Queries.set_user_role id role)))
    set_role_rule id o =
        change_rule o _
          λ role _. Keeps-on_pool P (Queries.set_user_role id role) (a.set_user_role_keeps id role)

    set_disabled_rule :
        (id : ℕ) (o : Option Bool)
        → ((b : Bool) → o ≡ some b → Allowed id b)
        → Keeps P (Accounts.change o (λ b. on_pool (Queries.set_user_disabled id b)))
    set_disabled_rule id o allowed = change_rule o _ λ b e.
        Keeps-on_pool P (Queries.set_user_disabled id b)
          (a.set_user_disabled_keeps id b (allowed b e))

    pub update_user-Keeps :
        (id : ℕ) (body : UpdateUserBody) (p : Principal)
        → ((b : Bool) → body.disabled ≡ some b → Allowed id b)
        → Keeps P (Accounts.update_user lib env id body p)
    unfolding Accounts.update_user
    update_user-Keeps id body p allowed = Keeps-bind _ _ (set_role_rule id body.role) λ role_set.
        Keeps-or_500 role_set _ λ c.
          Keeps-bind _ _ (set_disabled_rule id body.disabled allowed) λ disabled_set.
            Keeps-or_500 disabled_set _ λ c'.
              Keeps-if_so (not (c || c')) _ (Accounts.updated lib env id body p)
                (Keeps-pure Accounts.nothing_changed) (updated-Keeps id body p)

    pub delete_user-Keeps : (id : ℕ) (p : Principal) → Keeps P (Accounts.delete_user lib env id p)
    unfolding Accounts.delete_user
    delete_user-Keeps id p = search (read_rules, audit_rule, delete_user_rule) depth 16

    pub create_token-Keeps :
        (body : CreateTokenBody) (p : Principal) → Keeps P (Accounts.create_token lib env body p)
    unfolding Accounts.create_token
    create_token-Keeps body p = search (read_rules, audit_rule, create_token_rule) depth 16

    pub revoke_token-Keeps : (id : ℕ) (p : Principal) → Keeps P (Accounts.revoke_token lib env id p)
    unfolding Accounts.revoke_token
    revoke_token-Keeps id p = search (read_rules, audit_rule, revoke_token_rule) depth 16

  module _
      (set_password_keeps : (id : ℕ) (hash : Bytes)
        → Stable P (Queries.set_password_hash id hash)) where
    pub reset_password-Keeps :
        (id : ℕ) (body : ResetPasswordBody) (p : Principal)
        → Keeps P (Accounts.reset_password lib env id body p)
    unfolding Accounts.reset_password
    reset_password-Keeps id body p =
        search (read_rules, audit_rule, set_password_rule, delete_sessions_rule) depth 16

module _ {P : Database → Type 0} where
  pub list_audit-Keeps : (limit : Option Limit) → Keeps P (AuditLog.list_audit limit)
  unfolding AuditLog.list_audit
  list_audit-Keeps limit = search (read_rules) depth 16

  pub verify_audit-Keeps : (lib : Libraries) → Keeps P (AuditLog.verify_audit lib)
  unfolding AuditLog.verify_audit
  verify_audit-Keeps lib = search (read_rules) depth 16
