-- ===== src/ControlPlane/Tests/Bootstrap.antt =====
-- A deployment that is set up without accounts, and the first login.
use light_waf.Prelude.{◌≡◌, refl, true, none, some, codes, ◌=bytes◌}
use light_waf.Governance.Rbac.{admin}
use light_waf.ControlPlane.Server.{AppState, identity, session}
use light_waf.ControlPlane.Login.{login}
use light_waf.ControlPlane.Setup.{
  GovernanceConfig, Boot, on, settings_of, throttle_of, setup_governance,
}
use light_waf.ControlPlane.Setup.Fresh.{fresh, started, first_login, login-setup_governance}
use light_waf.ControlPlane.Tests.{lib, env, tables, state}

abbrev config : GovernanceConfig
config = record {
  enabled = true;
  session_ttl_hours = 12;
  cookie_secure = true;
  bootstrap_admin = some (codes "ann");
  login_max_failures = 5;
  login_window_seconds = 300;
  login_lockout_seconds = 900;
  has_oidc = true;
}

abbrev boot : Boot
boot = record {
  audit_key = some (codes "00ff");
  bootstrap_password = some (codes "secret");
  from_hex_seed = λ seed. none;
  discover = none;
  env = env;
}

-- the state before it
abbrev bare : AppState
bare = fresh lib config boot none tables state.throttle

login-setup_governance_example :
    ((setup_governance lib config boot none bare).0
      ≡ on (settings_of config none) (throttle_of config))
    × ((login lib
          (settings_of config none)
          env
          (first_login lib config boot none tables state.throttle (codes "ann") (codes "secret"))
          (started lib config boot none tables state.throttle
            (setup_governance lib config boot none bare).1)).0.body
        ≡ identity (codes "ann") admin session)
unfolding ◌=bytes◌
login-setup_governance_example =
    login-setup_governance lib config boot none tables state.throttle (codes "00ff") (codes "ann")
      (codes "secret") (codes "secret") env (refl, refl, refl, refl) (refl, refl, refl, refl) refl
