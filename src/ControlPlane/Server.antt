-- ===== src/ControlPlane/Server.antt =====
-- crates/waf-controlplane/src/gov_api.rs: the state that its handlers share, what they are given from
-- outside, and the steps they are built from.
--
-- A request is served at one instant, and whole before the next. Argon2, SHA-256, the signature, the
-- printing of a string for debugging and of JSON as text come from elsewhere; so do the random draws, and
-- what the identity provider answers.
pub mod Keeps
pub mod Grants
use light_waf.Prelude.{ℕ, ◌+◌, Bool, Option, none, some, List, ◌∷◌, Bytes, if◌then◌else◌}
use light_waf.Schema.Value.{Value, object, string, member_and, no_members}
use light_waf.Governance.Audit.{AuditRecord, NewAudit, append_audit}
use light_waf.Governance.Rbac.{Role, as_str}
use light_waf.Governance.Throttle.{LoginThrottle}
use light_waf.Governance.Store.{
  Database, User, ServiceToken, Session, Pool, Error, conflict, Result, ok, err, query,
}

pub data AuthVia : Type 0 where
  session token : AuthVia

pub record Principal : Type 0 where
  pub actor : Bytes
  pub role : Role
  pub via : AuthVia
  pub user_id : Option ℕ
  pub session_id : Option Bytes

pub record SessionInfo : Type 0 where
  pub id : Bytes
  pub created_at : ℕ
  pub expires_at : ℕ
  pub current : Bool

-- the texts of an error of the database and its like are not modelled
pub data Body : Type 0 where
  text : Bytes → Body
  json : Value → Body
  identity : Bytes → Role → AuthVia → Body
  users : List User → Body
  tokens : List ServiceToken → Body
  sessions : List SessionInfo → Body
  records : List AuditRecord → Body
  failure : Error → Body

pub record Response : Type 0 where
  pub status : ℕ
  pub set_cookie : Option Bytes
  pub location : Option Bytes
  pub body : Body

-- the two headers that are read, the first value of each
pub record Headers : Type 0 where
  pub cookie : Option Bytes
  pub authorization : Option Bytes

pub record Libraries : Type 0 where
  pub debug : Bytes → Bytes
  pub to_string : Value → Bytes
  pub sha256 : Bytes → Bytes
  pub hex_encode : Bytes → Bytes
  pub sign_hash : Bytes → Bytes
  -- the server's own key in hex, and the check of a signature of a hash against it
  pub public_key_hex : Bytes
  pub verify_signature : Bytes → Bytes → Bool
  -- the second argument is the hash; `none` is the error of a malformed one
  pub verify_password : Bytes → Bytes → Option Bool
  -- what a column keeps of a time
  pub stored : ℕ → ℕ

-- the settings, with `None` for no provider
pub record Settings : Type 0 where
  pub session_ttl : ℕ
  pub cookie_secure : Bool
  pub api_token : Option Bytes
  pub oidc : Bool

pub record AuthStart : Type 0 where
  pub state : Bytes
  pub pkce_verifier : Bytes
  pub nonce : Bytes
  pub authorize_url : Bytes

pub record Identity : Type 0 where
  pub username : Bytes
  pub role : Role

pub data Verified : Type 0 where
  denied : Bytes → Verified
  verified : Identity → Verified

-- what one request draws from outside
pub record Env : Type 0 where
  pub now : ℕ
  pub generate_session_id : Bytes
  pub generate_token : Bytes
  pub hash_password : Bytes → Option Bytes
  pub authorize : AuthStart
  pub verify_callback : Bytes → Bytes → Bytes → Verified

pub record AppState : Type 0 where
  pub pool : Pool
  pub throttle : LoginThrottle

-- a step of a handler
abbrev pub M {ℓ} : Type ℓ → Type ℓ
M A = AppState → A × AppState

abbrev continue {ℓ κ} : {A : Type ℓ} {B : Type κ} → (A → M B) → A × AppState → B × AppState
continue f (a, s) = f a s

infixl 5 ◌>>=◌ ◌>>◌
unfoldable pub ◌>>=◌ {ℓ κ} : {A : Type ℓ} {B : Type κ} → M A → (A → M B) → M B
◌>>=◌ m f s = continue f (m s)

abbrev pub ◌>>◌ {ℓ κ} : {A : Type ℓ} {B : Type κ} → M A → M B → M B
m >> k = m >>= λ _. k

unfoldable pub pure {ℓ} : {A : Type ℓ} → A → M A
pure a s = (a, s)

abbrev pub done : M (Unit {0})
done s = (tt, s)

abbrev at_pool {ℓ} : {A : Type ℓ} → AppState → A × Pool → A × AppState
at_pool s (a, pool) = (a, record s { pool = pool })

-- a query
unfoldable pub on_pool {ℓ} : {A : Type ℓ} → (Database → Result A × Database) → M (Result A)
unfolding query
on_pool f s = at_pool s (query f s.pool)

unfoldable pub ask_throttle {ℓ} : {A : Type ℓ} → (LoginThrottle → A) → M A
ask_throttle f s = (f s.throttle, s)

unfoldable pub on_throttle : (LoginThrottle → LoginThrottle) → M (Unit {0})
on_throttle f s = (tt, record s { throttle = f s.throttle })

abbrev pub reply : ℕ → Body → Response
reply status body = record { status = status; set_cookie = none; location = none; body = body }

abbrev pub err500 : Error → Response
err500 e = reply 500 (failure e)

-- `match r { Ok(a) => …, Err(e) => return err500(e) }`
unfoldable pub or_500 {ℓ} : {A : Type ℓ} → Result A → (A → M Response) → M Response
unfolding pure
or_500 (ok a) f = f a
or_500 (err e) f = pure (err500 e)

-- the same, where a conflict has a case of its own
unfoldable pub or_conflict {ℓ} :
    {A : Type ℓ} → Result A → (Bytes → M Response) → (A → M Response) → M Response
unfolding pure or_500
or_conflict (err (conflict msg)) g f = g msg
or_conflict r g f = or_500 r f

-- `let Some(a) = o else { … }`
unfoldable pub or_else {ℓ κ} : {A : Type ℓ} {B : Type κ} → Option A → M B → (A → M B) → M B
or_else none m f = m
or_else (some a) m f = f a

-- the condition of a branch or an early return
unfoldable pub if_so {ℓ} : {A : Type ℓ} → Bool → M A → M A → M A
if_so b m n = if b then m else n

-- a field of a JSON object, and one whose value is a text
abbrev pub one_field : Bytes → Value → Value
one_field k v = object (member_and k v no_members)

abbrev pub no_fields : Value
no_fields = object no_members

-- `json!({"role": role})`
abbrev pub role_json : Role → Value
role_json role = string (as_str role)

module _ (lib : Libraries) where
  -- The append is best effort: its failure changes nothing of the answer.
  unfoldable pub audit : Env → Bytes → Bytes → Option Bytes → Value → M (Result (Unit {0}))
  unfolding append_audit on_pool
  audit env actor action target details = on_pool λ d. (
    ok tt,
    record d {
      audit_log =
          append_audit lib.sha256 lib.hex_encode lib.sign_hash lib.stored d.audit_log env.now
            (record {
              actor = actor;
              action = action;
              target = target;
              details = lib.to_string details;
            });
    },
  )
