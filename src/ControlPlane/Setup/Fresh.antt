-- ===== src/ControlPlane/Setup/Fresh.antt =====
-- A deployment that starts without accounts has an administrator afterwards, who can log in.
use light_waf.Prelude.{
  ◌≡◌, refl, ◌∙◌, ℕ, ◌+◌, true, false, Option, none, some, [], ◌∷◌, Bytes, codes, any, ◌=bytes◌,
  ◌==◌, ==_iff, Bool-cases, inl, inr,
}
use light_waf.Prelude.Dict.{=bytes_same, get}
use light_waf.Governance.Audit.{NewAudit, append_audit}
use light_waf.Governance.Rbac.{admin, as_str, from_str}
use light_waf.Governance.Throttle.{LoginThrottle, allowed, new_throttle}
use light_waf.Governance.Store.{
  UserWithHash, row_to_user, with_role, UserRow, Session, Database, ok, query,
}
use light_waf.Governance.Store.Queries.{
  named, get_user_with_hash, create_session, local, create_user, count_users,
}
use light_waf.ControlPlane.Server.{
  identity, session, ask_throttle, on_throttle, or_500, Libraries, Env, AppState, M, ◌>>=◌, pure,
  on_pool, or_else, if_so, audit,
}
use light_waf.ControlPlane.Login.{LoginBody, login, login_as, open_session, checked, hashed}
use light_waf.ControlPlane.Setup.{
  GovernanceConfig, Boot, Setup, on, settings_of, throttle_of, or_fault, apply_schema, create_admin,
  bootstrap, bootstrap_json, discover, setup_governance,
}

==_same : (n : ℕ) → (n == n) ≡ true
==_same n = (==_iff n n).1 refl

module _ (lib : Libraries) (config : GovernanceConfig) (boot : Boot) (api_token : Option Bytes)
    (d : Database) (throttle : LoginThrottle) where
  -- tables without accounts, whose queries are answered
  abbrev pub fresh : AppState
  fresh = record {
    pool = record { database = record d { users = [] }; outages = [] };
    throttle = throttle;
  }

  abbrev pub first_row : Bytes → Bytes → UserRow
  first_row username hash = record {
    id = d.next_user;
    username = username;
    password_hash = some hash;
    role = as_str admin;
    disabled = false;
    auth_source = local;
    created_at = boot.env.now;
  }

  abbrev entry : Bytes → NewAudit
  entry username = record {
    actor = codes "system";
    action = codes "bootstrap.admin";
    target = some username;
    details = lib.to_string (bootstrap_json d.next_user);
  }

  -- the same with the first account
  abbrev pub settled : Bytes → Bytes → AppState
  settled username hash = record fresh {
    pool = record {
      database = record d {
        users = first_row username hash ∷ [];
        next_user = d.next_user + 1;
        audit_log =
            append_audit lib.sha256 lib.hex_encode lib.sign_hash lib.stored d.audit_log boot.env.now
              (entry username);
      };
      outages = [];
    };
  }

  create_admin_lem :
      (username secret hash : Bytes) (rest : M Setup)
      → boot.bootstrap_password ≡ some secret
      → boot.env.hash_password secret ≡ some hash
      → create_admin lib config boot api_token username rest fresh ≡ rest (settled username hash)
  unfolding create_admin or_else or_fault hashed on_pool query create_user audit ◌>>=◌
  create_admin_lem username secret hash rest is_set is_hashed = rw (is_set, is_hashed) refl

  -- a provider that is wanted is found
  abbrev pub HasProvider : Type 0
  HasProvider = boot.discover ≡ none

  discover_lem :
      (s : AppState)
      → HasProvider
      → discover lib config boot api_token s
        ≡ (on (settings_of config api_token) (throttle_of config), s)
  unfolding discover or_else if_so pure
  discover_lem s found = elim (Bool-cases config.has_oidc) [
    | inl wanted ↦ rw (wanted, found) refl
    | inr plain ↦ rw plain refl
  ]

  setup_governance_lem :
      (seed username secret hash : Bytes)
      → config.enabled ≡ true
      → boot.audit_key ≡ some seed
      → boot.from_hex_seed seed ≡ none
      → config.bootstrap_admin ≡ some username
      → boot.bootstrap_password ≡ some secret
      → boot.env.hash_password secret ≡ some hash
      → HasProvider
      → setup_governance lib config boot api_token fresh
        ≡ (on (settings_of config api_token) (throttle_of config), settled username hash)
  unfolding setup_governance bootstrap or_else or_fault if_so on_pool query apply_schema count_users
      ◌>>=◌
  setup_governance_lem seed username secret hash enabled has_key good_key wanted is_set is_hashed
        found =
      rw (enabled, has_key, good_key, wanted)
        (create_admin_lem username secret hash (discover lib config boot api_token) is_set is_hashed
          ∙ discover_lem (settled username hash) found)

  -- the state that the first request meets
  abbrev pub started : AppState → AppState
  started s = record s { throttle = throttle_of config }

  abbrev pub first_login : Bytes → Bytes → LoginBody
  first_login username secret = record { username = username; password = secret }

  -- the account as it is read
  abbrev account : Bytes → Bytes → UserWithHash
  account username hash = record {
    user = record {
      id = d.next_user;
      username = username;
      role = admin;
      disabled = false;
      auth_source = local;
      created_at = boot.env.now;
    };
    password_hash = some hash;
  }

  get_user_lem :
      (username hash : Bytes)
      → get_user_with_hash username (settled username hash).pool.database
        ≡ (ok (some (account username hash)), (settled username hash).pool.database)
  unfolding get_user_with_hash named row_to_user with_role from_str as_str ◌=bytes◌
  get_user_lem username hash = rw (=bytes_same username, get_user_with_hash) refl

  module _ (username secret hash : Bytes) (later : Env)
      (right : lib.verify_password secret hash ≡ some true)
      (anew : any (λ (x : Session). x.id =bytes later.generate_session_id) d.sessions ≡ false) where
    create_session_lem :
        (expires : ℕ)
        → (create_session later.generate_session_id d.next_user expires later.now
            (settled username hash).pool.database).0
          ≡ ok tt
    unfolding create_session
    create_session_lem expires = rw (anew, create_session) (rw (==_same d.next_user) refl)

    open_session_lem :
        (open_session lib
          (settings_of config api_token)
          later
          (first_login username secret)
          (account username hash).user
          (started (settled username hash))).0.body
        ≡ identity username admin session
    unfolding open_session on_throttle on_pool query or_500 audit ◌>>=◌ pure
    open_session_lem = rw (create_session_lem _) refl

    login_as_lem :
        (login_as lib
          (settings_of config api_token)
          later
          (first_login username secret)
          (account username hash)
          (started (settled username hash))).0.body
        ≡ identity username admin session
    unfolding login_as or_else or_500 if_so checked
    login_as_lem = rw right open_session_lem

    login_lem :
        (login lib
          (settings_of config api_token)
          later
          (first_login username secret)
          (started (settled username hash))).0.body
        ≡ identity username admin session
    unfolding login ask_throttle allowed get on_pool query or_else or_500 if_so ◌>>=◌ throttle_of
        new_throttle
    login_lem = rw (get_user_lem username hash) login_as_lem

  -- A deployment with governance on, that starts without accounts, whose queries are answered, whose audit key
  -- and bootstrap password are set and good, and whose provider, if it wants one, is found, does start, with the
  -- settings and the login throttle of its configuration, and its first administrator can log in: a login with
  -- that name and password, which the hash verifies, is answered with the identity of an administrator who
  -- holds a session, provided that the session's generated id is in no session of the tables yet.
  pub login-setup_governance :
      (seed username secret hash : Bytes) (later : Env)
      → (config.enabled ≡ true)
        × (boot.audit_key ≡ some seed)
        × (boot.from_hex_seed seed ≡ none)
        × HasProvider
      → (config.bootstrap_admin ≡ some username)
        × (boot.bootstrap_password ≡ some secret)
        × (boot.env.hash_password secret ≡ some hash)
        × (lib.verify_password secret hash ≡ some true)
      → any (λ (x : Session). x.id =bytes later.generate_session_id) d.sessions ≡ false
      → ((setup_governance lib config boot api_token fresh).0
          ≡ on (settings_of config api_token) (throttle_of config))
        × ((login lib
              (settings_of config api_token)
              later
              (first_login username secret)
              (started (setup_governance lib config boot api_token fresh).1)).0.body
            ≡ identity username admin session)
  login-setup_governance seed username secret hash later (enabled, has_key, good_key, found)
        (wanted, is_set, is_hashed, right) anew =
      rw
        (setup_governance_lem seed username secret hash enabled has_key good_key wanted is_set
          is_hashed found)
        (refl, login_lem username secret hash later right anew)
