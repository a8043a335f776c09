-- ===== src/ControlPlane/Revoked.antt =====
-- A session that was revoked is out, and a login state is used once: what is gone does not come back.
use light_waf.Prelude.{
  ◌≡◌, refl, ◌≢◌, ℕ, Bool, inl, inr, List, [], ◌∷◌, Option, some, Bytes, All, any, Bool-cases,
  ◌=bytes◌, not, codes,
}
use light_waf.Prelude.Dict.{OnSome, All-without}
use light_waf.Schema.Value.{Value}
use light_waf.Governance.Rbac.{read_observability}
use light_waf.Governance.Store.{Session, FlowRow, User, Database, ok}
use light_waf.Governance.Store.Reads.{find-test}
use light_waf.Governance.Store.Queries.{delete_session, list_sessions_for_user}
use light_waf.ControlPlane.Server.{
  Principal, Response, Headers, Libraries, Settings, Env, AppState, M, ◌>>=◌, ◌>>◌, pure, on_pool,
  or_500, if_so, audit, no_fields, reply, text,
}
use light_waf.ControlPlane.Server.Keeps.{Keeps, Keeps-bind, Keeps-pure}
use light_waf.ControlPlane.Server.Grants.{
  Grants, Grants-refused, Grants-Keeps, Grants-if_so, Grants-or_else, Grants-ok, Grants-bind,
  Grants-query,
}
use light_waf.ControlPlane.Auth.{of_session, session_principal, token_principal, resolve_principal}
use light_waf.ControlPlane.Login
use light_waf.ControlPlane.Callers.{resolve_principal-IsFit, require-Grants}
use light_waf.ControlPlane.Keeps.{list_sessions_rule}
use light_waf.ControlPlane.Keeps.Drawn.{Any, All-Any, Keyed, DrawsKeys, keys_keep, keys_rest}
use light_waf.ControlPlane.Keeps.Serve.{serve_all-keeps, Permits-All}
use light_waf.ControlPlane.Router.{Request, Call, handle, serve, serve_all}
use light_waf.ControlPlane.Router

module _ (sid : Bytes) where
  -- another id
  abbrev pub IsNot : Bytes → Type 0
  IsNot id = id ≢ sid

  -- no session has the id
  abbrev pub IsGone : Database → Type 0
  IsGone = Keyed IsNot Any

  -- not a principal of the session
  abbrev pub IsElse : Option Principal → Type 0
  IsElse = OnSome (λ p. p.session_id ≢ some sid)

  of_session-IsElse :
      (x : Session) (user : User) → IsNot x.id → IsElse (of_session (ok (some (x, user))))
  unfolding of_session session_principal
  of_session-IsElse x user other = elim (Bool-cases user.disabled) [
    | inl disabled ↦ rw disabled tt
    | inr enabled ↦ rw enabled λ same. other (cc same)
  ]

  resolve_principal-IsElse :
      (lib : Libraries) (settings : Settings) (env : Env) (h : Headers) (s : AppState)
      → IsGone s.pool.database
      → IsElse (resolve_principal lib settings env h s).0
  resolve_principal-IsElse lib settings env h s gone =
      resolve_principal-IsFit (λ p. p.session_id ≢ some sid)
        (λ name role. unfold token_principal in λ same. cc) lib settings env h s
        λ x u user found _ _.
          of_session-IsElse x user
            (find-test (λ (y : Session). IsNot y.id) _ s.pool.database.sessions x gone.0 found.1).0

drawn :
    (sid : Bytes) (calls : List Call)
    → All (λ (c : Call). c.env.generate_session_id ≢ sid) calls
    → All (λ (c : Call). DrawsKeys (IsNot sid) Any c.env) calls
drawn sid [] h = tt
drawn sid (c ∷ calls) h = ((h.0, tt), drawn sid calls h.1)

-- the request to revoke a session of the caller's own
abbrev pub revoke : Bytes → Headers → Env → Call
revoke sid h env = record { request = Router.revoke_session sid; headers = h; env = env }

module _ (lib : Libraries) (settings : Settings) (env : Env) (sid : Bytes) where
  deleted_says :
      (d : Database) (b : Bool)
      → Unit {0}
      → (delete_session sid d).0 ≡ ok b
      → IsGone sid (delete_session sid d).1
  unfolding delete_session
  deleted_says d b _ e = (
    All-without (λ (s : Session). s.id) sid d.sessions,
    All-Any (λ (f : FlowRow). f.state) d.flows,
  )

  abbrev answer : Principal → M Response
  answer p = do
    audit lib env p.actor (codes "session.revoke") (some sid) no_fields
    pure (reply 200 (text (codes "ok")))

  audit-Keeps :
      (actor action : Bytes) (target : Option Bytes) (details : Value)
      → Keeps (IsGone sid) (audit lib env actor action target details)
  audit-Keeps = (keys_keep (IsNot sid) Any lib).audit_keeps env

  answer-Keeps : (p : Principal) → Keeps (IsGone sid) (answer p)
  answer-Keeps p = search (Keeps-bind, Keeps-pure, audit-Keeps) depth 8

  -- what follows once the caller has an account
  abbrev revoke_own : Principal → ℕ → M Response
  revoke_own p uid = on_pool (list_sessions_for_user uid) >>= λ found. or_500 found λ l.
      if_so (not (any (λ (x : Session). x.id =bytes sid) l))
        (pure (reply 404 (text (codes "no such session"))))
        (on_pool (delete_session sid) >>= λ deleted. or_500 deleted (λ _. answer p))

  revoke_own-Grants :
      (p : Principal) (uid : ℕ) → Grants 200 (λ d. Unit) (IsGone sid) (revoke_own p uid)
  revoke_own-Grants p uid =
      Grants-bind (on_pool (list_sessions_for_user uid)) _ (list_sessions_rule uid) λ found.
        Grants-ok refl found _ λ l is_found.
          Grants-if_so _ _ _ (λ _. Grants-refused _ refl)
            λ owned.
              Grants-query refl (λ _. IsGone sid) (delete_session sid) (λ _. answer p) deleted_says
                λ b. Grants-Keeps _ (λ d h. h) (answer-Keeps p)

  revoke_session-Grants :
      (p : Principal)
      → Grants 200 (λ d. Unit) (IsGone sid) (Login.revoke_session lib settings env sid p)
  unfolding Login.revoke_session
  revoke_session-Grants p =
      Grants-or_else p.user_id _ (revoke_own p) (Grants-refused _ refl)
        λ uid is_user. revoke_own-Grants p uid

module _ (lib : Libraries) (settings : Settings) (sid : Bytes) where
  -- Once a caller's request to revoke a session of its own is answered with 200, then after any requests
  -- that do not draw its id again, with whatever headers, at whatever time and whatever becomes of their
  -- queries, no request resolves to that session.
  pub resolve_principal-revoke :
      (mine later : Headers) (env env' : Env) (calls : List Call) (s : AppState)
      → (serve lib settings (revoke sid mine env) s).0.status ≡ 200
      → All (λ (c : Call). c.env.generate_session_id ≢ sid) calls
      → IsElse sid
          (resolve_principal lib settings env' later
            (serve_all lib settings calls (serve lib settings (revoke sid mine env) s).1)).0
  unfolding serve handle
  resolve_principal-revoke mine later env env' calls s answered anew =
      resolve_principal-IsElse sid lib settings env' later _ (
        serve_all-keeps lib settings (keys_keep (IsNot sid) Any lib) (keys_rest (IsNot sid) Any lib)
          calls _ (drawn sid calls anew) (Permits-All calls)
          ((require-Grants lib settings env mine read_observability _
              (revoke_session-Grants lib settings env sid)).at
            s tt answered))
