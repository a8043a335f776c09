-- ===== src/ControlPlane/Keeps/Rest.antt =====
-- The queries on accounts and tokens leave the login flows and the audit log as they are, and of the
-- sessions they only take some away.
use light_waf.Prelude.{
  ℕ, Bool, inl, inr, List, Bytes, any, find, filterb, Bool-cases, Option-cases, ◌=bytes◌,
}
use light_waf.Governance.Audit.{AuditRecord}
use light_waf.Governance.Rbac.{Role}
use light_waf.Governance.Store.{Session, FlowRow, TokenRow, Database}
use light_waf.Governance.Store.Queries.{
  named, oidc, create_user, set_user_role, set_user_disabled, update_user, delete_user,
  set_password_hash, upsert_oidc_user, create_token, revoke_token,
}
use light_waf.ControlPlane.Server.{Libraries}
use light_waf.ControlPlane.Server.Keeps.{Stable}
use light_waf.ControlPlane.Keeps.{KeepsAccounts, AllowsAny}

-- what holds of the sessions holds of fewer
abbrev pub HoldsOfFewer : (List Session → List FlowRow → List AuditRecord → Type 0) → Type 0
HoldsOfFewer Q =
    (test : Session → Bool) (sessions : List Session) (flows : List FlowRow)
    (log : List AuditRecord)
    → Q sessions flows log
    → Q (filterb test sessions) flows log

module _ (Q : List Session → List FlowRow → List AuditRecord → Type 0) where
  -- a statement about the sessions, the login flows and the audit log
  abbrev pub OfRest : Database → Type 0
  OfRest d = Q d.sessions d.flows d.audit_log

  module _ (lib : Libraries) where
    create_user_leaves :
        (username hash : Bytes) (role : Role) (now : ℕ)
        → Stable OfRest (create_user lib.debug username hash role now)
    unfolding create_user
    create_user_leaves username hash role now d h =
        elim (Bool-cases (any (named username) d.users)) [
          | inl taken ↦ rw (taken, create_user) h
          | inr new ↦ rw (new, create_user) h
        ]

    upsert_leaves :
        (username : Bytes) (role : Role) (now : ℕ)
        → Stable OfRest (upsert_oidc_user lib.debug username role now)
    unfolding upsert_oidc_user
    upsert_leaves username role now d h = elim (Option-cases (find (named username) d.users)) [
      | inl missing ↦ rw (missing, upsert_oidc_user) h
      | inr (u, found) ↦ elim (Bool-cases (u.auth_source =bytes oidc)) [
        | inl federated ↦ rw (found, upsert_oidc_user) (rw federated h)
        | inr owned ↦ rw (found, upsert_oidc_user) (rw owned h)
      ]
    ]

    create_token_leaves :
        (name hash : Bytes) (role : Role) (now : ℕ)
        → Stable OfRest (create_token lib.debug name hash role now)
    unfolding create_token
    create_token_leaves name hash role now d h =
        elim (Bool-cases (any (λ (t : TokenRow). t.name =bytes name) d.tokens)) [
          | inl taken ↦ rw (taken, create_token) h
          | inr new ↦ rw (new, create_token) h
        ]

    pub rest_keep : HoldsOfFewer Q → KeepsAccounts lib AllowsAny OfRest
    unfolding set_user_role set_user_disabled set_password_hash delete_user revoke_token update_user
    rest_keep fewer = record {
      create_user_keeps = create_user_leaves;
      set_user_role_keeps = λ i role d h. h;
      set_user_disabled_keeps = λ i b _ d h. h;
      delete_user_keeps = λ i d h. fewer _ d.sessions d.flows d.audit_log h;
      set_password_keeps = λ i hash d h. h;
      upsert_keeps = upsert_leaves;
      create_token_keeps = create_token_leaves;
      revoke_token_keeps = λ i d h. h;
    }
