-- ===== src/ControlPlane/Credentials.antt =====
-- What a local login that is answered with 200 says of the caller, and the session that it opens.
pub mod Present
use light_waf.Prelude.{
  ◌≡◌, refl, subst, ◌∙◌, ap, ◌+◌, Bool, true, false, not, Option, none, some, ◌∷◌, Bytes, codes,
  arith,
}
use light_waf.Schema.Value.{Value}
use light_waf.Governance.Throttle.{allowed, record_success}
use light_waf.Governance.Store.{Session, User, UserWithHash, Database, Result, ok}
use light_waf.Governance.Store.Queries.{create_session, get_user_with_hash}
use light_waf.Governance.Store.Reads.{get_user_with_hash-reads}
use light_waf.ControlPlane.Server.{
  Response, Libraries, Settings, Env, AppState, M, ◌>>=◌, pure, ask_throttle, reply, text, on_pool,
  on_throttle, no_fields, session, identity, ◌>>◌, or_500, or_else, if_so, audit,
}
use light_waf.ControlPlane.Auth.{set_cookie}
use light_waf.ControlPlane.Server.Grants.{
  Grants, Grants-Keeps, Grants-if_so, Grants-or_else, Grants-ok, Grants-given, Grants-bind,
  Grants-query,
}
use light_waf.ControlPlane.Server.Keeps.{
  Keeps, Keeps-on_pool, Keeps-on_throttle, Keeps-bind, Keeps-pure,
}
use light_waf.ControlPlane.Login.{LoginBody, checked, login_fail, open_session, login_as, login}

checked_ok : (o : Option Bool) (b : Bool) → checked o ≡ ok b → o ≡ some b
unfolding checked
checked_ok o b e = ground arith

module _ (lib : Libraries) (settings : Settings) (env : Env) (body : LoginBody) where
  -- what follows when the name is free
  lookup : M Response
  lookup = do
    found ← on_pool (get_user_with_hash body.username)
    or_500 found λ o.
        or_else o (login_fail lib settings env body.username (codes "unknown user"))
          (login_as lib settings env body)

module _ (lib : Libraries) (settings : Settings) (env : Env) (body : LoginBody)
    (start : Database) where
  -- the session that is opened
  abbrev pub opened : User → Session
  opened user = record {
    id = env.generate_session_id;
    user_id = user.id;
    created_at = env.now;
    expires_at = env.now + settings.session_ttl;
  }

  -- the account has a password, which is the one given, and is not disabled
  pub record IsAdmitted (uwh : UserWithHash) : Type 0 where
    pub enabled : uwh.user.disabled ≡ false
    pub hash : Bytes
    pub has_hash : uwh.password_hash ≡ some hash
    pub verifies : lib.verify_password body.password hash ≡ some true

  -- the tables hold, before the others, a session of an account that is admitted
  pub record HasOpened (d : Database) : Type 0 where
    pub account : UserWithHash
    pub is_found : (get_user_with_hash body.username start).0 ≡ ok (some account)
    pub is_admitted : IsAdmitted account
    pub has_session : d.sessions ≡ opened account.user ∷ start.sessions
    pub has_users : d.users ≡ start.users

  audit_HasOpened :
      (actor action : Bytes) (target : Option Bytes) (details : Value)
      → Keeps HasOpened (audit lib env actor action target details)
  unfolding audit
  audit_HasOpened actor action target details = Keeps-on_pool _ _ (λ d h. record {
    account = h.account;
    is_found = h.is_found;
    is_admitted = h.is_admitted;
    has_session = h.has_session;
    has_users = h.has_users;
  })

  module _ {P Q : Database → Type 0} where
    fail-Grants :
        (reason : Bytes) → Grants 200 P Q (login_fail lib settings env body.username reason)
    unfolding login_fail ◌>>=◌ pure
    fail-Grants reason = record { at = λ s p e. absurd (omega arith) }

  module _ (uwh : UserWithHash)
      (found : (get_user_with_hash body.username start).0 ≡ ok (some uwh)) where
    HasSession : Database → Type 0
    HasSession d = (d.sessions ≡ opened uwh.user ∷ start.sessions) × (d.users ≡ start.users)

    abbrev create : Database → Result (Unit {0}) × Database
    create =
        create_session env.generate_session_id uwh.user.id (env.now + settings.session_ttl) env.now

    create_says :
        (d : Database) (a : Unit {0}) → d ≡ start → (create d).0 ≡ ok a → HasSession (create d).1
    unfolding HasSession create_session
    create_says d a p e = ground arith

    abbrev answer : M Response
    answer = do
      audit lib env body.username (codes "login.success") none no_fields
      pure (record {
        status = 200;
        set_cookie =
            some (set_cookie env.generate_session_id settings.session_ttl settings.cookie_secure);
        location = none;
        body = identity uwh.user.username uwh.user.role session;
      })

    answer-Keeps : Keeps HasOpened answer
    answer-Keeps = search (Keeps-bind, Keeps-pure, audit_HasOpened) depth 8

    open_session-Grants :
        IsAdmitted uwh
        → Grants 200 (λ d. d ≡ start) HasOpened (open_session lib settings env body uwh.user)
    unfolding open_session HasSession
    open_session-Grants admitted =
        Grants-bind (on_throttle (λ t. record_success t body.username)) _ (Keeps-on_throttle _)
          (λ _.
            Grants-query refl (λ _. HasSession) create (λ _. answer) create_says
              (λ _.
                Grants-Keeps _
                  (λ d h. record {
                    account = uwh;
                    is_found = found;
                    is_admitted = admitted;
                    has_session = h.0;
                    has_users = h.1;
                  })
                  answer-Keeps))

    login_as-Grants : Grants 200 (λ d. d ≡ start) HasOpened (login_as lib settings env body uwh)
    unfolding login_as
    login_as-Grants =
        Grants-if_so _ _ _ (λ e. fail-Grants _)
          λ enabled. Grants-or_else _ _ _ (fail-Grants _) λ hash has.
            Grants-ok refl _ _ λ right is_checked.
              Grants-if_so _ _ _
                (λ is_right. open_session-Grants (record {
                  enabled = enabled;
                  hash = hash;
                  has_hash = has;
                  verifies = checked_ok _ _ (is_checked ∙ ap ok is_right);
                }))
                (λ e. fail-Grants _)

  lookup_says :
      (d : Database) (o : Option UserWithHash)
      → d ≡ start
      → (get_user_with_hash body.username d).0 ≡ ok o
      → ((get_user_with_hash body.username d).1 ≡ start)
        × ((get_user_with_hash body.username start).0 ≡ ok o)
  lookup_says d o p e = (
    get_user_with_hash-reads body.username d ∙ p,
    subst (λ x. (get_user_with_hash body.username x).0 ≡ ok o) p e,
  )

  lookup-Grants : Grants 200 (λ d. d ≡ start) HasOpened (lookup lib settings env body)
  unfolding lookup
  lookup-Grants =
      Grants-query refl (λ o d. (d ≡ start) × ((get_user_with_hash body.username start).0 ≡ ok o))
        (get_user_with_hash body.username) _ lookup_says
        λ o.
          Grants-given
            λ e. Grants-or_else _ _ _ (fail-Grants _) λ uwh is. login_as-Grants uwh (e ∙ ap ok is)

module _ (lib : Libraries) (settings : Settings) (env : Env) (body : LoginBody) where
  abbrev throttled : M Response
  throttled = do
    audit lib env body.username (codes "login.throttled") none no_fields
    pure (reply 429 (text (codes "too many failed attempts; try again later")))

  abbrev Opens : M Response → AppState → Type 0
  Opens m s = HasOpened lib settings env body s.pool.database (m s).1.pool.database

  throttled_case : {C : Type 0} (s : AppState) → (throttled s).0.status ≡ 200 → C
  unfolding ◌>>=◌ pure
  throttled_case s h = absurd (omega arith)

  free_case :
      (free : Bool) (s : AppState)
      → (if_so (not free) throttled (lookup lib settings env body) s).0.status ≡ 200
      → (free ≡ true) × Opens (if_so (not free) throttled (lookup lib settings env body)) s
  unfolding if_so
  free_case true s h = (refl, (lookup-Grants lib settings env body s.pool.database).at s refl h)
  free_case false s h = throttled_case s h

  -- A login that is answered with 200, whatever becomes of its queries, was of a name that the throttle
  -- allows, of an account of that name that is not disabled and whose password hash the password given
  -- passes; and it leaves, before the sessions there were, one of that account under the drawn id, which
  -- expires after the configured time.
  pub login-HasOpened :
      (s : AppState)
      → (login lib settings env body s).0.status ≡ 200
      → (allowed s.throttle body.username env.now ≡ true)
        × HasOpened lib settings env body s.pool.database
            (login lib settings env body s).1.pool.database
  unfolding login ask_throttle ◌>>=◌ lookup
  login-HasOpened s h = free_case (allowed s.throttle body.username env.now) s h
