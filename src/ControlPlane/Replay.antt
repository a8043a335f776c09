-- ===== src/ControlPlane/Replay.antt =====
-- The state of a federated login is good for one callback.
use light_waf.Prelude.{
  ◌∙◌, ◌≡◌, refl, ◌≢◌, Bool, true, false, not, inl, inr, List, [], ◌∷◌, Option, none, some, Bytes,
  All, find, Bool-cases, ◌=bytes◌, codes, =bytes_iff,
}
use light_waf.Prelude.Dict.{All-without}
use light_waf.Governance.Store.{Session, FlowRow, Database, Result, ok}
use light_waf.Governance.Store.Queries.{take_oidc_flow}
use light_waf.ControlPlane.Server.{
  Response, Headers, Libraries, Settings, Env, AppState, M, ◌>>=◌, pure, on_pool, or_500, or_else,
  if_so, reply, text,
}
use light_waf.ControlPlane.Server.Keeps.{Keeps-on_pool}
use light_waf.ControlPlane.Server.Grants.{
  Grants, Grants-refused, Grants-Keeps, Grants-if_so, Grants-or_else, Grants-query,
}
use light_waf.ControlPlane.Login
use light_waf.ControlPlane.Login.{OidcCallbackQuery}
use light_waf.ControlPlane.Callers.{on_pool-answer}
use light_waf.ControlPlane.Keeps.Drawn.{Any, All-Any, Keyed, DrawsKeys, keys_keep, keys_rest}
use light_waf.ControlPlane.Keeps.Login.{sso_user_rule}
use light_waf.ControlPlane.Keeps.Serve.{serve_all-keeps, Permits-All}
use light_waf.ControlPlane.Router.{Request, Call, handle, serve, serve_all}
use light_waf.ControlPlane.Router

module _ (st : Bytes) where
  -- another state
  abbrev IsNot : Bytes → Type 0
  IsNot state = state ≢ st

  -- no login under way has the state
  abbrev IsSpent : Database → Type 0
  IsSpent = Keyed Any IsNot

  find-spent :
      (flows : List FlowRow)
      → All (λ (f : FlowRow). IsNot f.state) flows
      → find (λ (f : FlowRow). f.state =bytes st) flows ≡ none
  find-spent [] h = refl
  find-spent (f ∷ flows) h = elim (Bool-cases (f.state =bytes st)) [
    | inl same ↦ absurd (h.0 ((=bytes_iff f.state st).0 same))
    | inr other ↦ rw other (find-spent flows h.1)
  ]

  take-spent : (d : Database) → IsSpent d → (take_oidc_flow st d).0 ≡ ok none
  unfolding take_oidc_flow
  take-spent d h = rw (find-spent d.flows h.1) refl

  take_says :
      (d : Database) (o : Option (Bytes × Bytes))
      → Unit {0}
      → (take_oidc_flow st d).0 ≡ ok o
      → IsSpent (take_oidc_flow st d).1
  unfolding take_oidc_flow
  take_says d o _ e = (
    All-Any (λ (s : Session). s.id) d.sessions,
    All-without (λ (f : FlowRow). f.state) st d.flows,
  )

  drawn :
      (calls : List Call)
      → All (λ (c : Call). c.env.authorize.state ≢ st) calls
      → All (λ (c : Call). DrawsKeys Any IsNot c.env) calls
  drawn [] h = tt
  drawn (c ∷ calls) h = ((tt, h.0), drawn calls h.1)

  module _ (lib : Libraries) (settings : Settings) (env : Env) where
    abbrev missing : M Response
    missing = pure (reply 400 (text (codes "missing code/state")))

    -- what follows once the flow is taken
    abbrev taken : Bytes → Option (Bytes × Bytes) → M Response
    taken code o =
        or_else o (pure (reply 400 (text (codes "unknown or expired login state"))))
          λ flow. Login.sso_user lib settings env (env.verify_callback code flow.0 flow.1)

    -- the part of the callback that consumes the state
    abbrev redeem : Bytes → M Response
    redeem code = on_pool (take_oidc_flow st) >>= λ r. or_500 r (taken code)

    redeem-Grants :
        (code : Bytes) → env.authorize.state ≢ st → Grants 302 (λ d. Unit) IsSpent (redeem code)
    redeem-Grants code anew =
        Grants-query refl (λ _. IsSpent) (take_oidc_flow st) (taken code) take_says
          λ o. Grants-or_else _ _ _ (Grants-refused _ refl) λ flow _.
            Grants-Keeps _ (λ d h. h)
              (sso_user_rule (keys_keep Any IsNot lib) settings env (tt, anew)
                ((keys_rest Any IsNot lib).upsert_keeps) _)

    -- no session is opened, and none handed out
    abbrev Refuses : AppState → M Response → Type 0
    Refuses s m =
        ((m s).0.set_cookie ≡ none) × ((m s).1.pool.database.sessions ≡ s.pool.database.sessions)

    Refuses-if_so :
        (s : AppState) (b : Bool) (m n : M Response)
        → Refuses s m
        → Refuses s n
        → Refuses s (if_so b m n)
    unfolding if_so
    Refuses-if_so s true m n rm rn = rm
    Refuses-if_so s false m n rm rn = rn

    Refuses-or_else :
        (s : AppState) (o : Option Bytes) (m : M Response) (f : Bytes → M Response)
        → Refuses s m
        → ((a : Bytes) → Refuses s (f a))
        → Refuses s (or_else o m f)
    unfolding or_else
    Refuses-or_else s none m f rm rf = rm
    Refuses-or_else s (some a) m f rm rf = rf a

    take-sessions :
        (s : AppState)
        → (on_pool (take_oidc_flow st) s).1.pool.database.sessions ≡ s.pool.database.sessions
    unfolding take_oidc_flow
    take-sessions s =
        (Keeps-on_pool (λ d. d.sessions ≡ s.pool.database.sessions) (take_oidc_flow st)
            (λ d h. h)).at
          s refl

    redeem-late : (code : Bytes) (s : AppState) → IsSpent s.pool.database → Refuses s (redeem code)
    unfolding ◌>>=◌
    redeem-late code s spent =
        let late =
          on_pool-answer After (take_oidc_flow st) s
            (λ s'.
              rw (take-spent s.pool.database spent) (unfold or_500 or_else pure in (refl, refl)))
            (λ s'. unfold or_500 pure in (refl, refl)) (on_pool (take_oidc_flow st) s).1 in
        (late.0, late.1 ∙ take-sessions s)
      where
        After : Result (Option (Bytes × Bytes)) → Type 0
        After r = (s' : AppState) → Refuses s' (or_500 r (taken code))

    abbrev query_of : Option Bytes → Option Bytes → OidcCallbackQuery
    query_of code error = record { code = code; state = some st; error = error }

    callback-Grants :
        (code error : Option Bytes)
        → env.authorize.state ≢ st
        → Grants 302
            (λ d. Unit)
            IsSpent
            (Login.oidc_callback lib settings env (query_of code error))
    unfolding Login.oidc_callback
    callback-Grants code error anew =
        Grants-if_so (not settings.oidc) _ _ (λ _. Grants-refused _ refl)
          λ _.
            Grants-if_so (Login.is_some error) _ _
              (λ _.
                Grants-or_else error missing _ (Grants-refused _ refl) λ e _. Grants-refused _ refl)
              (λ _.
                Grants-or_else code missing redeem (Grants-refused _ refl)
                  λ c _. redeem-Grants c anew)

    callback-late :
        (code error : Option Bytes) (s : AppState)
        → IsSpent s.pool.database
        → Refuses s (Login.oidc_callback lib settings env (query_of code error))
    unfolding Login.oidc_callback
    callback-late code error s spent =
        Refuses-if_so s (not settings.oidc) _ _ (refl, refl)
          (Refuses-if_so s (Login.is_some error) _ _
            (Refuses-or_else s error missing _ (refl, refl) λ e. (refl, refl))
            (Refuses-or_else s code missing redeem (refl, refl) λ c. redeem-late c s spent))

-- the callback of a federated login with a state
abbrev pub callback : Bytes → Option Bytes → Option Bytes → Headers → Env → Call
callback st code error h env = record {
  request = Router.oidc_callback (record { code = code; state = some st; error = error });
  headers = h;
  env = env;
}

module _ (lib : Libraries) (settings : Settings) where
  -- a request is answered without a session cookie, and leaves the sessions as they are
  abbrev pub IsRefused : Call → AppState → Type 0
  IsRefused c s =
      ((serve lib settings c s).0.set_cookie ≡ none)
      × ((serve lib settings c s).1.pool.database.sessions ≡ s.pool.database.sessions)

module _ (lib : Libraries) (settings : Settings) (st : Bytes) where
  -- Once a callback is answered with the redirect of a login, then after any requests, with whatever
  -- headers, at whatever time and whatever becomes of their queries, no other callback with its state
  -- opens a session or hands one out, given that none of the requests before draws the state again.
  pub serve-callback :
      (code error code' error' : Option Bytes) (h h' : Headers) (env env' : Env) (calls : List Call)
      (s : AppState)
      → (serve lib settings (callback st code error h env) s).0.status ≡ 302
      → env.authorize.state ≢ st
      → All (λ (c : Call). c.env.authorize.state ≢ st) calls
      → IsRefused lib settings
          (callback st code' error' h' env')
          (serve_all lib settings calls (serve lib settings (callback st code error h env) s).1)
  unfolding serve handle
  serve-callback code error code' error' h h' env env' calls s redirected anew others =
      callback-late st lib settings env' code' error' _ (
        serve_all-keeps lib settings (keys_keep Any (IsNot st) lib) (keys_rest Any (IsNot st) lib)
          calls _ (drawn st calls others) (Permits-All calls)
          ((callback-Grants st lib settings env code error anew).at s tt redirected))
