-- ===== src/ControlPlane/Keeps/Drawn.antt =====
-- The sessions and login flows have only keys that were drawn.
use light_waf.Prelude.{
  inl, inr, List, [], ◌∷◌, Bytes, All, All-filterb, any, Bool-cases, ◌=bytes◌, ℕ,
}
use light_waf.Governance.Audit.{AuditRecord}
use light_waf.Governance.Store.{Session, FlowRow, Database}
use light_waf.Governance.Store.Queries.{
  has_id, create_session, delete_sessions, delete_session, delete_sessions_for_user,
  delete_other_sessions_for_user, put_oidc_flow, take_oidc_flow,
}
use light_waf.ControlPlane.Server.{Libraries, Env, audit}
use light_waf.ControlPlane.Server.Keeps.{Stable, Keeps-on_pool}
use light_waf.ControlPlane.Keeps.{KeepsSessions, KeepsAccounts, AllowsAny}
use light_waf.ControlPlane.Keeps.Rest.{HoldsOfFewer, OfRest, rest_keep}

-- nothing is said of a key
abbrev pub Any : Bytes → Type 0
Any key = Unit

pub All-Any {ℓ} : {A : Type ℓ} (key : A → Bytes) (rows : List A) → All (λ (a : A). Any (key a)) rows
All-Any key [] = tt
All-Any key (a ∷ rows) = (tt, All-Any key rows)

module _ (S F : Bytes → Type 0) where
  -- each session's id and each flow's state has its property
  abbrev pub HasKeys : List Session → List FlowRow → List AuditRecord → Type 0
  HasKeys sessions flows log =
      All (λ (s : Session). S s.id) sessions × All (λ (f : FlowRow). F f.state) flows

  fewer : HoldsOfFewer HasKeys
  fewer test sessions flows log h = (All-filterb (λ (s : Session). S s.id) test sessions h.0, h.1)

  abbrev pub Keyed : Database → Type 0
  Keyed = OfRest HasKeys

  -- what a request draws has its property
  abbrev pub DrawsKeys : Env → Type 0
  DrawsKeys env = S env.generate_session_id × F env.authorize.state

  create_session_keys :
      (env : Env) (uid expires : ℕ)
      → DrawsKeys env
      → Stable Keyed (create_session env.generate_session_id uid expires env.now)
  unfolding create_session
  create_session_keys env uid expires draws d h =
      elim (Bool-cases (any (λ (s : Session). s.id =bytes env.generate_session_id) d.sessions)) [
        | inl twice ↦ rw (twice, create_session) h
        | inr new ↦ elim (Bool-cases (any (has_id uid) d.users)) [
          | inl there ↦ rw (new, create_session) (rw there ((draws.0, h.0), h.1))
          | inr gone ↦ rw (new, create_session) (rw gone h)
        ]
      ]

  put_flow_keys :
      (env : Env)
      → DrawsKeys env
      → Stable Keyed (
          put_oidc_flow env.authorize.state env.authorize.pkce_verifier env.authorize.nonce env.now)
  unfolding put_oidc_flow
  put_flow_keys env draws d h =
      elim (Bool-cases (any (λ (f : FlowRow). f.state =bytes env.authorize.state) d.flows)) [
        | inl twice ↦ rw (twice, put_oidc_flow) h
        | inr new ↦ rw (new, put_oidc_flow) (h.0, (draws.1, h.1))
      ]

  pub keys_keep : (lib : Libraries) → KeepsSessions lib DrawsKeys Keyed
  unfolding audit delete_session delete_sessions delete_sessions_for_user
      delete_other_sessions_for_user take_oidc_flow
  keys_keep lib = record {
    audit_keeps = λ env actor action target details. Keeps-on_pool Keyed _ (λ d h. h);
    create_session_keeps = create_session_keys;
    delete_session_keeps = λ id d h. fewer _ d.sessions d.flows d.audit_log h;
    delete_sessions_keeps = λ uid d h. fewer _ d.sessions d.flows d.audit_log h;
    delete_others_keeps = λ uid keep d h. fewer _ d.sessions d.flows d.audit_log h;
    put_flow_keeps = put_flow_keys;
    take_flow_keeps = λ state d h. (h.0, All-filterb (λ (f : FlowRow). F f.state) _ d.flows h.1);
  }

  pub keys_rest : (lib : Libraries) → KeepsAccounts lib AllowsAny Keyed
  keys_rest lib = rest_keep HasKeys lib fewer
