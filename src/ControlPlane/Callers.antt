-- ===== src/ControlPlane/Callers.antt =====
-- Whoever a request comes from has a property, if whoever has a session does.
use light_waf.Prelude.{
  not, arith, true, ◌≡◌, refl, inl, inr, ℕ, find, Option-cases, List, [], ◌∷◌, Option, none, some,
  Bytes, codes, Bool-cases,
}
use light_waf.Prelude.Dict.{OnSome}
use light_waf.Governance.Rbac.{allows, Role, Permission, admin}
use light_waf.Governance.Store.{
  Session, User, UserRow, row_to_user, Database, Outage, answered, lost_before, lost_after, db,
  Result, ok, err, query,
}
use light_waf.Governance.Store.Queries.{has_id, is_live, get_session_with_user, find_active_token}
use light_waf.Governance.Store.Reads.{Result-cases}
use light_waf.ControlPlane.Server.{
  reply, text, if_so, Principal, Response, Headers, Libraries, Settings, Env, AppState, M, ◌>>=◌,
  pure, on_pool, or_else,
}
use light_waf.ControlPlane.Auth.{
  of_session, of_token, look_up, or_next, hash_token, by_session, by_token, by_bearer, check_bearer,
  presented, token_principal, resolve_principal, require,
}
use light_waf.ControlPlane.Server.Grants.{
  Grants, Grants-bind, Grants-or_else, Grants-if_so, Grants-refused,
}
use light_waf.ControlPlane.Keeps.{resolve_principal-Keeps}

module _ {ℓ} {A : Type ℓ} (C : Result A → Type 0) (f : Database → Result A × Database) where
  answer_of :
      (d : Database) (outages : List Outage)
      → C (f d).0
      → C (err db)
      → C (query f (record { database = d; outages = outages })).0
  unfolding query
  answer_of d [] c lost = c
  answer_of d (answered ∷ rest) c lost = c
  answer_of d (lost_before ∷ rest) c lost = lost
  answer_of d (lost_after ∷ rest) c lost = lost

  -- what holds of a query's result and of a lost one
  pub on_pool-answer : (s : AppState) → C (f s.pool.database).0 → C (err db) → C (on_pool f s).0
  unfolding on_pool
  on_pool-answer s c lost = answer_of s.pool.database s.pool.outages c lost

module _ (Good : Principal → Type 0)
    (named : (name : Bytes) (role : Role) → Good (token_principal name role)) where
  -- if there is a caller, it has the property
  abbrev pub IsFit : Option Principal → Type 0
  IsFit = OnSome Good

  get_session-IsFit :
      (sid : Bytes) (now : ℕ) (d : Database)
      → ((s : Session) (u : UserRow) (user : User)
          → find (is_live sid now) d.sessions ≡ some s
          → find (has_id s.user_id) d.users ≡ some u
          → row_to_user u ≡ ok user
          → IsFit (of_session (ok (some (s, user)))))
      → IsFit (of_session (get_session_with_user sid now d).0)
  unfolding get_session_with_user
  get_session-IsFit sid now d fits = elim (Option-cases (find (is_live sid now) d.sessions)) [
    | inl missing ↦ rw (missing, get_session_with_user) (unfold of_session in tt)
    | inr (s, found) ↦ elim (Option-cases (find (has_id s.user_id) d.users)) [
      | inl gone ↦ rw (found, get_session_with_user) (rw gone (unfold of_session in tt))
      | inr (u, there) ↦ elim (Result-cases (row_to_user u)) [
        | inl (user, read) ↦
            rw (found, get_session_with_user) (rw there (rw read (fits s u user found there read)))
        | inr (e, failed) ↦
            rw (found, get_session_with_user) (rw there (rw failed (unfold of_session in tt)))
      ]
    ]
  ]

  look_up-IsFit :
      (o : Option Bytes) (f : Bytes → M (Option Principal)) (s : AppState)
      → ((b : Bytes) → IsFit (f b s).0)
      → IsFit (look_up o f s).0
  unfolding look_up or_else pure
  look_up-IsFit none f s h = tt
  look_up-IsFit (some b) f s h = h b

  or_next-IsFit :
      (o : Option Principal) (m : M (Option Principal)) (s : AppState)
      → IsFit o
      → IsFit (m s).0
      → IsFit (or_next o m s).0
  unfolding or_next pure
  or_next-IsFit none m s ho hm = hm
  or_next-IsFit (some p) m s ho hm = ho

  of_token-IsFit : (r : Result (Option (Bytes × Role))) → IsFit (of_token r)
  unfolding of_token token_principal
  of_token-IsFit (err e) = tt
  of_token-IsFit (ok none) = tt
  of_token-IsFit (ok (some (name, role))) = named name role

  module _ (lib : Libraries) (env : Env) (h : Headers) (s : AppState) where
    by_session-IsFit :
        ((sid : Bytes) → IsFit (of_session (get_session_with_user sid env.now s.pool.database).0))
        → IsFit (by_session lib env h s).0
    unfolding by_session ◌>>=◌ pure
    by_session-IsFit fits = look_up-IsFit _ _ s λ sid.
        on_pool-answer (λ r. IsFit (of_session r)) (get_session_with_user sid env.now) s (fits sid)
          (unfold of_session in tt)

    by_token-IsFit : IsFit (by_token lib h s).0
    unfolding by_token ◌>>=◌ pure
    by_token-IsFit = look_up-IsFit _ _ s λ t.
        on_pool-answer (λ r. IsFit (of_token r)) (find_active_token (hash_token lib t)) s
          (of_token-IsFit (find_active_token (hash_token lib t) s.pool.database).0)
          (of_token-IsFit (err db))

    by_bearer-IsFit : (api_token : Option Bytes) → IsFit (by_bearer lib api_token h)
    unfolding by_bearer token_principal
    by_bearer-IsFit none = tt
    by_bearer-IsFit (some t) = elim (Bool-cases (check_bearer (presented h) t)) [
      | inl right ↦ rw right (named (codes "api-token") admin)
      | inr wrong ↦ rw wrong tt
    ]

  pub resolve_principal-IsFit :
      (lib : Libraries) (settings : Settings) (env : Env) (h : Headers) (s : AppState)
      → ((x : Session) (u : UserRow) (user : User)
          → ((sid : Bytes) × (find (is_live sid env.now) s.pool.database.sessions ≡ some x))
          → find (has_id x.user_id) s.pool.database.users ≡ some u
          → row_to_user u ≡ ok user
          → IsFit (of_session (ok (some (x, user)))))
      → IsFit (resolve_principal lib settings env h s).0
  unfolding resolve_principal ◌>>=◌ pure
  resolve_principal-IsFit lib settings env h s fits =
      or_next-IsFit (by_session lib env h s).0 _ (by_session lib env h s).1
        (by_session-IsFit lib env h s λ sid.
          get_session-IsFit sid env.now s.pool.database
            λ x u user found. fits x u user (sid, found))
        (or_next-IsFit (by_token lib h (by_session lib env h s).1).0 _ _
          (by_token-IsFit lib env h (by_session lib env h s).1)
          (by_bearer-IsFit lib env h s settings.api_token))

module _ {P Q : Database → Type 0} (lib : Libraries) (settings : Settings) (env : Env)
    (h : Headers) where
  -- a handler behind a permission grants what it grants in front of none
  pub require-Grants :
      (perm : Permission) (next : Principal → M Response)
      → ((p : Principal) → Grants 200 P Q (next p))
      → Grants 200 P Q (require lib settings perm env h next)
  unfolding require
  require-Grants perm next granted =
      Grants-bind (resolve_principal lib settings env h) _
        (resolve_principal-Keeps lib settings env h)
        λ found.
          Grants-or_else _ _ _ (Grants-refused _ refl)
            λ p _. Grants-if_so _ _ _ (λ _. Grants-refused _ refl) (λ _. granted p)

module _ (lib : Libraries) (settings : Settings) (env : Env) (h : Headers) (s : AppState) where
  passed :
      (perm : Permission) (next : Principal → M Response) (found : Option Principal) (s' : AppState)
      → (or_else found
          (pure (reply 401 (text (codes "unauthorized"))))
          (λ p.
            if_so (not (allows p.role perm)) (pure (reply 403 (text (codes "forbidden")))) (next p))
          s').0.status
        ≡ 200
      → (p : Principal) × (found ≡ some p)
        × (allows p.role perm ≡ true)
        × ((or_else found
              (pure (reply 401 (text (codes "unauthorized"))))
              (λ p.
                if_so
                  (not (allows p.role perm))
                  (pure (reply 403 (text (codes "forbidden"))))
                  (next p))
              s')
            ≡ next p s')
  unfolding or_else if_so pure
  passed perm next none s' e = absurd (omega arith)
  passed perm next (some p) s' e = elim (Bool-cases (allows p.role perm)) [
    | inl allowed ↦ (p, refl, allowed, rw allowed refl)
    | inr refused ↦ absurd (ground arith)
  ]

  -- a request that is answered with 200 behind a permission is answered by the handler, for a caller that
  -- has the permission, from the same tables
  pub require-answered :
      (perm : Permission) (next : Principal → M Response)
      → (require lib settings perm env h next s).0.status ≡ 200
      → (p : Principal) × (s' : AppState) × (s'.pool.database ≡ s.pool.database)
        × (allows p.role perm ≡ true)
        × (require lib settings perm env h next s ≡ next p s')
  unfolding require ◌>>=◌
  require-answered perm next e =
      let (p, found, allowed, same) =
        passed perm next (resolve_principal lib settings env h s).0
          (resolve_principal lib settings env h s).1 e in
      (
        p,
        (resolve_principal lib settings env h s).1,
        (resolve_principal-Keeps {P = λ d. d ≡ s.pool.database} lib settings env h).at s refl,
        allowed,
        same,
      )
