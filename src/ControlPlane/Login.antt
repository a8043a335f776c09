-- ===== src/ControlPlane/Login.antt =====
-- crates/waf-controlplane/src/gov_api.rs: the handlers of logins, local and federated, and those that act
-- on the caller's own sessions and password.
use light_waf.Prelude.{
  ℕ, ◌+◌, Bool, true, false, not, Option, none, some, [], ◌++◌, map, Bytes, codes, any, ◌=bytes◌,
}
use light_waf.Schema.Value.{string}
use light_waf.Governance.Throttle.{allowed, record_failure, record_success}
use light_waf.Governance.Store.{Session, User, UserWithHash, password, Result, ok, err}
use light_waf.Governance.Store.Queries
use light_waf.ControlPlane.Server.{
  session, Principal, SessionInfo, text, identity, sessions, Response, Headers, Libraries, Settings,
  Identity, Verified, denied, verified, Env, M, ◌>>=◌, ◌>>◌, pure, done, on_pool, ask_throttle,
  on_throttle, reply, or_500, or_conflict, or_else, if_so, one_field, no_fields, role_json, audit,
}
use light_waf.ControlPlane.Auth.{session_id_from_cookies, set_cookie, clear_cookie}

pub record LoginBody : Type 0 where
  pub username : Bytes
  pub password : Bytes

pub record OidcCallbackQuery : Type 0 where
  pub code : Option Bytes
  pub state : Option Bytes
  pub error : Option Bytes

pub record ChangePasswordBody : Type 0 where
  pub old_password : Bytes
  pub new_password : Bytes

-- what `verify_password` gives, as a result of the crate
unfoldable pub checked : Option Bool → Result Bool
checked none = err password
checked (some b) = ok b

unfoldable pub hashed : Option Bytes → Result Bytes
hashed none = err password
hashed (some h) = ok h

abbrev pub is_some {ℓ} : {A : Type ℓ} → Option A → Bool
is_some none = false
is_some (some a) = true

abbrev pub session_info : Option Bytes → Session → SessionInfo
session_info current s = record {
  id = s.id;
  created_at = s.created_at;
  expires_at = s.expires_at;
  current = elim current [ none ↦ false | some id ↦ id =bytes s.id ];
}

module _ (lib : Libraries) (settings : Settings) (env : Env) where
  -- the uniform refusal, which feeds the throttle
  unfoldable pub login_fail : Bytes → Bytes → M Response
  unfolding audit on_throttle record_failure ◌>>=◌ pure
  login_fail username reason = do
    audit lib env username (codes "login.failure") none (one_field (codes "reason") (string reason))
    on_throttle (λ t. record_failure t username env.now)
    pure (reply 401 (text (codes "invalid credentials")))

  -- the end of a local login: the throttle forgets, and a session is opened
  unfoldable pub open_session : LoginBody → User → M Response
  unfolding audit on_throttle record_success on_pool Queries.create_session set_cookie or_500 ◌>>=◌
      pure
  open_session body user = do
    on_throttle (λ t. record_success t body.username)
    let sid = env.generate_session_id
    created ← on_pool (Queries.create_session sid user.id (env.now + settings.session_ttl) env.now)
    or_500 created λ _. (do
      audit lib env body.username (codes "login.success") none no_fields
      pure (record {
        status = 200;
        set_cookie = some (set_cookie sid settings.session_ttl settings.cookie_secure);
        location = none;
        body = identity user.username user.role session;
      }))

  -- what follows once the account is found
  unfoldable pub login_as : LoginBody → UserWithHash → M Response
  unfolding login_fail open_session checked or_else or_500 if_so ◌>>=◌ pure
  login_as body uwh = if_so uwh.user.disabled (login_fail body.username (codes "disabled")) (
      or_else uwh.password_hash (login_fail body.username (codes "no local password (oidc)"))
        λ hash. or_500 (checked (lib.verify_password body.password hash)) λ right.
          if_so right (open_session body uwh.user)
            (login_fail body.username (codes "bad password")))

  unfoldable pub login : LoginBody → M Response
  unfolding login_fail login_as audit ask_throttle on_pool allowed Queries.get_user_with_hash or_500
      or_else if_so ◌>>=◌ pure
  login body = do
    free ← ask_throttle (λ t. allowed t body.username env.now)
    if_so (not free)
        (do
          audit lib env body.username (codes "login.throttled") none no_fields
          pure (reply 429 (text (codes "too many failed attempts; try again later"))))
        (do
          found ← on_pool (Queries.get_user_with_hash body.username)
          or_500 found
              λ o. or_else o (login_fail body.username (codes "unknown user")) (login_as body))

  unfoldable pub logout : Headers → Principal → M Response
  unfolding session_id_from_cookies clear_cookie on_pool Queries.delete_session audit or_else ◌>>=◌
      pure
  logout headers p = do
    or_else (session_id_from_cookies headers) (done)
        λ sid. (do on_pool (Queries.delete_session sid); done)
    audit lib env p.actor (codes "logout") none no_fields
    pure (record {
      status = 200;
      set_cookie = some (clear_cookie settings.cookie_secure);
      location = none;
      body = text (codes "ok");
    })

  unfoldable pub me : Principal → M Response
  unfolding pure
  me p = pure (reply 200 (identity p.actor p.role p.via))

  unfoldable pub list_sessions : Principal → M Response
  unfolding or_else or_500 on_pool Queries.list_sessions_for_user ◌>>=◌ pure
  list_sessions p = or_else p.user_id (pure (reply 200 (sessions []))) λ uid. (do
    found ← on_pool (Queries.list_sessions_for_user uid)
    or_500 found λ l. pure (reply 200 (sessions (map (session_info p.session_id) l))))

  -- only a session of one's own
  unfoldable pub revoke_session : Bytes → Principal → M Response
  unfolding or_else or_500 if_so on_pool Queries.list_sessions_for_user Queries.delete_session audit
      ◌>>=◌ pure
  revoke_session id p =
      or_else p.user_id (pure (reply 400 (text (codes "not a session principal")))) λ uid. (do
        found ← on_pool (Queries.list_sessions_for_user uid)
        or_500 found λ l.
            if_so (not (any (λ (s : Session). s.id =bytes id) l))
              (pure (reply 404 (text (codes "no such session"))))
              (do
                deleted ← on_pool (Queries.delete_session id)
                or_500 deleted λ _. (do
                  audit lib env p.actor (codes "session.revoke") (some id) no_fields
                  pure (reply 200 (text (codes "ok"))))))

  -- once the old password is right
  unfoldable pub replace_password : Bytes → ℕ → Bytes → Principal → M Response
  unfolding hashed or_500 on_pool Queries.set_password_hash Queries.delete_other_sessions_for_user
      audit ◌>>=◌ pure
  replace_password new_password uid sid p =
      or_500 (hashed (env.hash_password new_password)) λ new_hash. (do
        changed ← on_pool (Queries.set_password_hash uid new_hash)
        or_500 changed λ _. (do
          on_pool (Queries.delete_other_sessions_for_user uid sid)
          audit lib env p.actor (codes "password.change") none no_fields
          pure (reply 200 (text (codes "ok")))))

  unfoldable pub change_password : ChangePasswordBody → Principal → M Response
  unfolding or_else or_500 if_so on_pool Queries.get_user_with_hash checked replace_password ◌>>=◌
      pure
  change_password body p =
      let refused = pure (reply 400 (text (codes "not a session principal"))) in
      or_else p.user_id refused λ uid. or_else p.session_id refused λ sid. (do
        found ← on_pool (Queries.get_user_with_hash p.actor)
        or_500 found λ o. or_else o (pure (reply 404 (text (codes "no such user")))) λ uwh.
            or_else uwh.password_hash
              (pure (reply 400 (text (codes "OIDC user has no local password"))))
              λ hash. or_500 (checked (lib.verify_password body.old_password hash)) λ right.
                if_so right (replace_password body.new_password uid sid p)
                  (pure (reply 401 (text (codes "wrong current password")))))

  unfoldable pub oidc_login : M Response
  unfolding if_so or_500 on_pool Queries.put_oidc_flow ◌>>=◌ pure
  oidc_login =
      if_so (not settings.oidc) (pure (reply 404 (text (codes "oidc is not configured")))) (do
        let start = env.authorize
        put ← on_pool (Queries.put_oidc_flow start.state start.pkce_verifier start.nonce env.now)
        or_500 put λ _. pure (record {
          status = 302;
          set_cookie = none;
          location = some start.authorize_url;
          body = text [];
        }))

  unfoldable pub sso_denied : ℕ → Bytes → Bytes → Bytes → M Response
  unfolding audit ◌>>=◌ pure
  sso_denied status actor reason answer = do
    audit lib env actor (codes "login.sso.denied") none (one_field (codes "reason") (string reason))
    pure (reply status (text answer))

  -- the end of a federated login
  unfoldable pub sso_session : Identity → User → M Response
  unfolding if_so sso_denied or_500 on_pool Queries.create_session set_cookie audit ◌>>=◌ pure
  sso_session who user =
      if_so user.disabled
        (sso_denied 403 who.username (codes "disabled") (codes "account disabled"))
        (do
          let sid = env.generate_session_id
          created ←
              on_pool (Queries.create_session sid user.id (env.now + settings.session_ttl) env.now)
          or_500 created λ _. (do
            audit lib env who.username (codes "login.sso") none
                (one_field (codes "role") (role_json who.role))
            pure (record {
              status = 302;
              set_cookie = some (set_cookie sid settings.session_ttl settings.cookie_secure);
              location = some (codes "/");
              body = text [];
            })))

  unfoldable pub sso_user : Verified → M Response
  unfolding sso_denied sso_session or_conflict on_pool Queries.upsert_oidc_user ◌>>=◌ pure
  sso_user (denied msg) = sso_denied 401 (codes "oidc") msg msg
  sso_user (verified who) = do
    upserted ← on_pool (Queries.upsert_oidc_user lib.debug who.username who.role env.now)
    or_conflict upserted (λ msg. sso_denied 409 who.username msg msg) (sso_session who)

  unfoldable pub oidc_callback : OidcCallbackQuery → M Response
  unfolding if_so or_else or_500 on_pool Queries.take_oidc_flow sso_user ◌>>=◌ pure
  oidc_callback q =
      let missing = pure (reply 400 (text (codes "missing code/state"))) in
      if_so (not settings.oidc) (pure (reply 404 (text (codes "oidc is not configured")))) (
        if_so (is_some q.error)
          (or_else q.error missing λ e. pure (reply 401 (text (codes "idp error: " ++ e))))
          (or_else q.code missing λ code. or_else q.state missing λ st. (do
            taken ← on_pool (Queries.take_oidc_flow st)
            or_500 taken λ o.
                or_else o (pure (reply 400 (text (codes "unknown or expired login state"))))
                  λ flow. sso_user (env.verify_callback code flow.0 flow.1))))
