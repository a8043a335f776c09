-- ===== src/ControlPlane/Setup.antt =====
-- crates/waf-controlplane/src/gov_api.rs: `setup_governance`, with `GovernanceConfig` of config.rs. It is run
-- once, before the first request; what it reads from outside is the environment, the signer's and the
-- provider's answer, and the hash of a password.
pub mod Fresh
use light_waf.Prelude.{ℕ, ◌*◌, ◌==◌, Bool, not, Option, none, some, Bytes, codes, decimal}
use light_waf.Schema.Value.{Value, number, string, object, member_and, no_members}
use light_waf.Governance.Rbac.{admin}
use light_waf.Governance.Throttle.{LoginThrottle, new_throttle, seconds}
use light_waf.Governance.Store.{Database, Error, Result, ok, err}
use light_waf.Governance.Store.Queries
use light_waf.ControlPlane.Server.{
  Libraries, Settings, Env, M, ◌>>=◌, ◌>>◌, pure, done, on_pool, or_else, if_so, audit,
}
use light_waf.ControlPlane.Login.{hashed, is_some}

pub record GovernanceConfig : Type 0 where
  pub enabled : Bool
  pub session_ttl_hours : ℕ
  pub cookie_secure : Bool
  pub bootstrap_admin : Option Bytes
  pub login_max_failures : ℕ
  pub login_window_seconds : ℕ
  pub login_lockout_seconds : ℕ
  pub has_oidc : Bool

-- the variables of the environment, what `from_hex_seed` and `discover` complain of, and the database's
-- schema, whose tables are there afterwards
pub record Boot : Type 0 where
  pub audit_key : Option Bytes
  pub bootstrap_password : Option Bytes
  pub from_hex_seed : Bytes → Option Bytes
  pub discover : Option Bytes
  pub env : Env

-- why there is no state, where the configuration or a query is at fault
pub data Fault : Type 0 where
  no_variable : Bytes → Fault
  bad_value : Bytes → Fault
  failed : Error → Fault

-- `Ok(None)`, `Err(e)`, and `Ok(Some(governance))`
pub data Setup : Type 0 where
  off : Setup
  fault : Fault → Setup
  on : Settings → LoginThrottle → Setup

unfoldable pub apply_schema : Database → Result (Unit {0}) × Database
apply_schema d = (ok tt, d)

-- `map_err(…)?`
unfoldable pub or_fault {ℓ} : {A : Type ℓ} → Result A → (A → M Setup) → M Setup
unfolding pure
or_fault (ok a) f = f a
or_fault (err e) f = pure (fault (failed e))

-- the settings that the handlers are given, for a number of hours that a duration holds
unfoldable pub settings_of : GovernanceConfig → Option Bytes → Settings
settings_of config api_token = record {
  session_ttl = seconds (config.session_ttl_hours * 3600);
  cookie_secure = config.cookie_secure;
  api_token = api_token;
  oidc = config.has_oidc;
}

unfoldable pub throttle_of : GovernanceConfig → LoginThrottle
unfolding new_throttle
throttle_of config =
    new_throttle config.login_max_failures config.login_window_seconds config.login_lockout_seconds

-- the members of an object are ordered by their keys
unfoldable pub bootstrap_json : ℕ → Value
bootstrap_json id = object (
    member_and (codes "role") (string (codes "admin"))
      (member_and (codes "user_id") (number (decimal id)) no_members))

module _ (lib : Libraries) (config : GovernanceConfig) (boot : Boot)
    (api_token : Option Bytes) where
  -- the account for a deployment that has none
  unfoldable pub create_admin : Bytes → M Setup → M Setup
  unfolding or_else or_fault hashed on_pool Queries.create_user bootstrap_json audit ◌>>=◌ pure
  create_admin username rest =
      or_else boot.bootstrap_password
        (pure (fault (no_variable (codes "WAF_CP_BOOTSTRAP_ADMIN_PASSWORD"))))
        λ password. or_fault (hashed (boot.env.hash_password password)) λ hash. (do
          created ← on_pool (Queries.create_user lib.debug username hash admin boot.env.now)
          or_fault created λ id. (do
            audit lib boot.env (codes "system") (codes "bootstrap.admin") (some username)
                (bootstrap_json id)
            rest))

  unfoldable pub bootstrap : M Setup → M Setup
  unfolding or_else or_fault if_so on_pool Queries.count_users create_admin ◌>>=◌ pure
  bootstrap rest = or_else config.bootstrap_admin rest λ username. (do
    counted ← on_pool Queries.count_users
    or_fault counted λ n. if_so (n == 0) (create_admin username rest) rest)

  -- the provider is found at the start, or there is no start
  unfoldable pub discover : M Setup
  unfolding or_else if_so settings_of throttle_of pure
  discover =
      let ready = pure (on (settings_of config api_token) (throttle_of config)) in
      if_so config.has_oidc (or_else boot.discover ready λ e. pure (fault (bad_value e))) ready

  unfoldable pub setup_governance : M Setup
  unfolding or_else or_fault if_so on_pool apply_schema bootstrap discover ◌>>=◌ pure
  setup_governance = if_so (not config.enabled) (pure off) (do
    applied ← on_pool apply_schema
    or_fault applied λ _.
        or_else boot.audit_key (pure (fault (no_variable (codes "WAF_CP_AUDIT_KEY")))) λ seed.
          or_else (boot.from_hex_seed seed) (bootstrap discover) λ e. pure (fault (bad_value e)))
