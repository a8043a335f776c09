-- ===== src/ControlPlane/Credentials/Present.antt =====
-- A local login and a later request that presents its session.
use light_waf.Prelude.{
  lt→ltb, ◌≡◌, refl, ap, ◌∙◌, ◌+◌, ◌<◌, false, some, List, [], ◌∷◌, Bytes, All, find, arith, lt→ltb,
}
use light_waf.Prelude.Dict.{=bytes_same}
use light_waf.Governance.Store.{
  Session, User, UserRow, UserWithHash, Database, ok, query, row_to_user, with_role,
}
use light_waf.Governance.Store.Queries.{
  is_live, has_id, named, get_user_with_hash, get_session_with_user,
}
use light_waf.Governance.Store.Reads.{find-test}
use light_waf.ControlPlane.Server.{
  Headers, Libraries, Settings, Env, AppState, ◌>>=◌, pure, on_pool, or_else,
}
use light_waf.ControlPlane.Auth.{
  session_id_from_cookies, session_principal, of_session, look_up, or_next, by_session,
  resolve_principal,
}
use light_waf.ControlPlane.Login.{LoginBody, login}
use light_waf.ControlPlane.Credentials.{opened, login-HasOpened}

-- the ids are a key: looked up by its id, a row is found itself
abbrev pub HasKey : Database → Type 0
HasKey d = All (λ (u : UserRow). find (has_id u.id) d.users ≡ some u) d.users

with_role-id : (r : UserRow) (u : User) → row_to_user r ≡ ok u → u.id ≡ r.id
unfolding row_to_user with_role
with_role-id r u e = ground arith

-- the row of an account that is found by name
found_row :
    (d : Database) (username : Bytes) (a : UserWithHash)
    → (get_user_with_hash username d).0 ≡ ok (some a)
    → (r : UserRow) × (find (named username) d.users ≡ some r) × (row_to_user r ≡ ok a.user)
unfolding get_user_with_hash
found_row d username a e = ground arith

key-row :
    (d : Database) (username : Bytes) (r : UserRow) (u : User)
    → HasKey d
    → find (named username) d.users ≡ some r
    → row_to_user r ≡ ok u
    → find (has_id u.id) d.users ≡ some r
key-row d username r u key is_named is_read =
    rw (with_role-id r u is_read)
      (find-test (λ (v : UserRow). find (has_id v.id) d.users ≡ some v) (named username) d.users r
        key is_named).0

module _ (lib : Libraries) (settings : Settings) (env later : Env) (h : Headers) where
  by_session_lem :
      (s : AppState) (sid : Bytes) (x : Session) (u : User)
      → session_id_from_cookies h ≡ some sid
      → s.pool.outages ≡ []
      → (get_session_with_user sid later.now s.pool.database).0 ≡ ok (some (x, u))
      → u.disabled ≡ false
      → (resolve_principal lib settings later h s).0 ≡ some (session_principal x u)
  unfolding resolve_principal by_session look_up or_else or_next on_pool query of_session ◌>>=◌ pure
  by_session_lem s sid x u presents no_outages is_found enabled =
      rw (presents, no_outages, is_found, enabled) refl

  find-first :
      (x : Session) (rest : List Session)
      → later.now < x.expires_at
      → find (is_live x.id later.now) (x ∷ rest) ≡ some x
  find-first x rest live = rw (=bytes_same x.id, lt→ltb later.now x.expires_at live) refl

  -- the first of the sessions, for an account that is there under its id
  get_session-first :
      (d : Database) (x : Session) (rest : List Session) (r : UserRow) (u : User)
      → d.sessions ≡ x ∷ rest
      → later.now < x.expires_at
      → find (has_id x.user_id) d.users ≡ some r
      → row_to_user r ≡ ok u
      → (get_session_with_user x.id later.now d).0 ≡ ok (some (x, u))
  unfolding get_session_with_user
  get_session-first d x rest r u first live is_there is_read =
      rw
        (
          ap (find (is_live x.id later.now)) first ∙ find-first x rest live,
          is_there,
          is_read,
          get_session_with_user,
        )
        refl

  -- After a login that is answered with 200, and whose queries were all answered, a request before the
  -- configured time is over, which presents the drawn id in its session cookie, is resolved to the
  -- account that was logged in, given that the ids of the accounts are a key.
  pub resolve_principal-login :
      (body : LoginBody) (s : AppState)
      → HasKey s.pool.database
      → (login lib settings env body s).0.status ≡ 200
      → (login lib settings env body s).1.pool.outages ≡ []
      → session_id_from_cookies h ≡ some env.generate_session_id
      → later.now < env.now + settings.session_ttl
      → (account : UserWithHash) × ((get_user_with_hash body.username s.pool.database).0
          ≡ ok (some account))
        × ((resolve_principal lib settings later h (login lib settings env body s).1).0
            ≡ some (
                session_principal
                  (opened lib settings env body s.pool.database account.user)
                  account.user))
  resolve_principal-login body s key answered_200 no_outages presents live =
      let opens = (login-HasOpened lib settings env body s answered_200).1 in
      let a = opens.account in
      let (r, is_named, is_read) = found_row s.pool.database body.username a opens.is_found in
      (
        a,
        opens.is_found,
        by_session_lem (login lib settings env body s).1 env.generate_session_id
            (opened lib settings env body s.pool.database a.user) a.user presents no_outages
            (get_session-first (login lib settings env body s).1.pool.database
              (opened lib settings env body s.pool.database a.user) s.pool.database.sessions r
              a.user opens.has_session live
              (ap (find (has_id a.user.id)) opens.has_users
                ∙ key-row s.pool.database body.username r a.user key is_named is_read)
              is_read)
            opens.is_admitted.enabled,
      )
