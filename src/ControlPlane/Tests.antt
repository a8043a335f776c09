-- ===== src/ControlPlane/Tests.antt =====
-- Runs of the control plane's handlers and of the export, and each theorem about them at an input that
-- meets its hypotheses.
mod Bootstrap
mod Keys
use light_waf.Prelude.{
  ◌≡◌, refl, sym, ap, ◌∙◌, ℕ, true, false, Option, none, some, [], ◌∷◌, Bytes, codes, split, trim,
  decimal, ◌=bytes◌, arith,
}
use light_waf.Prelude.Dict.{=bytes_same, get}
use light_waf.Governance.Audit.{append_audit, verify_chain, verify_from}
use light_waf.Governance.Rbac.{Role, viewer, admin, as_str, from_str, allows, rank}
use light_waf.Governance.Store.{
  UserRow, UserWithHash, ok, Session, Database, query, row_to_user, with_role,
}
use light_waf.Governance.Store.Queries.{
  local, get_session_with_user, set_user_disabled, update_user, delete_sessions_for_user,
  delete_sessions, named, get_user_with_hash, create_session,
}
use light_waf.ControlPlane.Server.{
  Principal, Headers, Libraries, Settings, Env, AuthStart, denied, AppState, ◌>>=◌, pure, on_pool,
  or_500, or_else, if_so, audit, ask_throttle, on_throttle,
}
use light_waf.ControlPlane.Auth.{
  session_id_in, session_id_from_cookies, session_principal, of_session, look_up, or_next,
  by_session, resolve_principal, require,
}
use light_waf.ControlPlane.Accounts
use light_waf.ControlPlane.Server
use light_waf.ControlPlane.Router.{Request, Call, handle, serve, serve_all}
use light_waf.ControlPlane.Router
use light_waf.ControlPlane.Offboard.Resolve.{IsOther}
use light_waf.ControlPlane.Offboard.Answer.{disable, resolve_principal-disable}
use light_waf.Governance.Throttle.{new_throttle, allowed, record_success}
use light_waf.ControlPlane.Login.{LoginBody, login, login_as, open_session, checked}
use light_waf.ControlPlane.Credentials.Present.{resolve_principal-login}
use light_waf.ControlPlane.Credentials.{opened, HasOpened, login-HasOpened}
use light_waf.ControlPlane.Accountable.{Extends, serve_all-Extends}
use light_waf.ControlPlane.Privilege.{authorities, IsUnprivileged, serve-authorities}

abbrev pub lib : Libraries
lib = record {
  debug = λ s. s;
  to_string = λ v. codes "{}";
  sha256 = λ s. s;
  hex_encode = λ s. s;
  sign_hash = λ h. h;
  public_key_hex = codes "key";
  verify_signature = ◌=bytes◌;
  verify_password = λ p h. some (p =bytes h);
  stored = λ t. t;
}

abbrev pub settings : Settings
settings = record { session_ttl = 1000; cookie_secure = true; api_token = none; oidc = false }

abbrev pub start : AuthStart
start = record {
  state = codes "st";
  pkce_verifier = codes "v";
  nonce = codes "n";
  authorize_url = codes "https://idp/";
}

abbrev pub env : Env
env = record {
  now = 10;
  generate_session_id = codes "s3";
  generate_token = codes "t1";
  hash_password = λ p. some p;
  authorize = start;
  verify_callback = λ c v n. denied (codes "no");
}

abbrev pub root : UserRow
root = record {
  id = 1;
  username = codes "root";
  password_hash = some (codes "pw");
  role = as_str admin;
  disabled = false;
  auth_source = local;
  created_at = 0;
}

abbrev pub bob : UserRow
bob = record root { id = 2; username = codes "bob"; role = as_str viewer }

abbrev pub session_of : Bytes → ℕ → Session
session_of id uid = record { id = id; user_id = uid; created_at = 0; expires_at = 500 }

abbrev pub tables : Database
tables = record {
  users = root ∷ bob ∷ [];
  next_user = 3;
  sessions = session_of (codes "s1") 1 ∷ session_of (codes "s2") 2 ∷ [];
  tokens = [];
  next_token = 1;
  flows = [];
  audit_log = [];
}

abbrev pub state : AppState
state = record {
  pool = record { database = tables; outages = [] };
  throttle = new_throttle 3 60 60;
}

abbrev pub with_cookie : Bytes → Headers
with_cookie c = record { cookie = some c; authorization = none }

abbrev pub as_root : Headers
as_root = with_cookie (codes "theme=dark; waf_cp_session=s1")

abbrev pub as_bob : Headers
as_bob = with_cookie (codes "waf_cp_session=s2")

abbrev pub bob_logs_in : Call
bob_logs_in = record {
  request = Router.login (record { username = codes "bob"; password = codes "pw" });
  headers = record { cookie = none; authorization = none };
  env = env;
}

abbrev bob_himself : Principal
bob_himself = record {
  actor = codes "bob";
  role = viewer;
  via = Server.session;
  user_id = some 2;
  session_id = some (codes "s2");
}

bob_is_known : (resolve_principal lib settings env as_bob state).0 ≡ some bob_himself
unfolding resolve_principal by_session look_up or_else or_next session_id_from_cookies session_id_in
    split on_pool query get_session_with_user row_to_user with_role from_str of_session
    session_principal as_str trim ◌=bytes◌ ◌>>=◌ pure
bob_is_known = refl

disable_is_answered : (serve lib settings (disable 2 none as_root env) state).0.status ≡ 200
unfolding serve handle require resolve_principal by_session look_up or_else or_next if_so or_500
    allows rank session_id_from_cookies session_id_in split trim on_pool query get_session_with_user
    row_to_user with_role from_str of_session session_principal as_str ◌=bytes◌ Accounts.update_user
    Accounts.change Accounts.updated Accounts.update_json set_user_disabled update_user
    delete_sessions_for_user delete_sessions audit append_audit decimal ◌>>=◌ pure
disable_is_answered = refl

resolve_principal-disable_example :
    IsOther 2
      (resolve_principal lib settings env as_bob (
        serve_all lib settings
          (bob_logs_in ∷ [])
          (serve lib settings (disable 2 none as_root env) state).1)).0
resolve_principal-disable_example =
    resolve_principal-disable lib settings 2 none as_root as_bob env env (bob_logs_in ∷ []) state
      (omega arith, (omega arith, tt)) disable_is_answered (tt, tt)

serve_all-Extends_example :
    Extends lib settings ◌=bytes◌
      (λ hash. =bytes_same hash)
      (λ now. refl)
      []
      (serve_all lib settings
        (bob_logs_in ∷ disable 2 none as_root env ∷ [])
        state).pool.database.audit_log
unfolding verify_chain verify_from
serve_all-Extends_example =
    serve_all-Extends lib settings ◌=bytes◌ (λ hash. =bytes_same hash) (λ now. refl) []
      (bob_logs_in ∷ disable 2 none as_root env ∷ []) state refl refl

-- the role of a principal, if there is one
abbrev role_or_viewer : Option Principal → Role
role_or_viewer none = viewer
role_or_viewer (some p) = p.role

bob_is_no_admin : IsUnprivileged lib settings env as_bob state
bob_is_no_admin p is_bob is_admin =
    absurd (cc (ap role_or_viewer (sym bob_is_known ∙ is_bob) ∙ is_admin))

serve-authorities_example :
    authorities (serve lib settings (disable 1 none as_bob env) state).1.pool.database
    ≡ authorities tables
serve-authorities_example =
    serve-authorities lib settings (disable 1 none as_bob env) state tt bob_is_no_admin

abbrev bobs_login : LoginBody
bobs_login = record { username = codes "bob"; password = codes "pw" }

login_is_answered : (login lib settings env bobs_login state).0.status ≡ 200
unfolding login login_as open_session checked ask_throttle on_throttle allowed record_success
    on_pool query get_user_with_hash named row_to_user with_role from_str create_session audit
    append_audit or_else or_500 if_so as_str ◌=bytes◌ ◌>>=◌ pure get new_throttle
login_is_answered = refl

login-HasOpened_example :
    (allowed (new_throttle 3 60 60) (codes "bob") 10 ≡ true)
    × HasOpened lib settings env bobs_login tables
        (login lib settings env bobs_login state).1.pool.database
login-HasOpened_example = login-HasOpened lib settings env bobs_login state login_is_answered

login_meets_no_outage : (login lib settings env bobs_login state).1.pool.outages ≡ []
unfolding login login_as open_session checked ask_throttle on_throttle allowed record_success
    on_pool query get_user_with_hash named row_to_user with_role from_str create_session audit
    append_audit or_else or_500 if_so as_str ◌=bytes◌ ◌>>=◌ pure get new_throttle
login_meets_no_outage = refl

abbrev as_bob_anew : Headers
as_bob_anew = with_cookie (codes "theme=dark; waf_cp_session=s3")

presents_s3 : session_id_from_cookies as_bob_anew ≡ some (codes "s3")
unfolding session_id_from_cookies session_id_in split trim
presents_s3 = refl

resolve_principal-login_example :
    (account : UserWithHash) × ((get_user_with_hash (codes "bob") tables).0 ≡ ok (some account))
    × ((resolve_principal lib settings
          (record env { now = 20 })
          as_bob_anew
          (login lib settings env bobs_login state).1).0
        ≡ some (
            session_principal
              (opened lib settings env bobs_login tables account.user)
              account.user))
resolve_principal-login_example =
    resolve_principal-login lib settings env (record env { now = 20 }) as_bob_anew bobs_login state
      (refl, (refl, tt)) login_is_answered login_meets_no_outage presents_s3 (omega arith)
