-- ===== src/ControlPlane/Keeps/Tables.antt =====
-- The queries of sessions and login flows leave the accounts, the tokens and the audit log as they are.
use light_waf.Prelude.{ℕ, inl, inr, List, Bytes, any, Bool-cases, ◌=bytes◌}
use light_waf.Governance.Audit.{AuditRecord, NewAudit, append_audit}
use light_waf.Governance.Store.{UserRow, TokenRow, Session, FlowRow, Database}
use light_waf.Governance.Store.Queries.{
  has_id, create_session, delete_session, delete_sessions_for_user, delete_other_sessions_for_user,
  put_oidc_flow, take_oidc_flow,
}
use light_waf.ControlPlane.Server.{Libraries, audit}
use light_waf.ControlPlane.Server.Keeps.{Stable, Keeps-on_pool}
use light_waf.ControlPlane.Keeps.{KeepsSessions, DrawsAny}

module _ (Q : List UserRow → ℕ → List TokenRow → List AuditRecord → Type 0) where
  -- a statement about the accounts, the tokens and the audit log alone
  abbrev pub Of : Database → Type 0
  Of d = Q d.users d.next_user d.tokens d.audit_log

  create_session_leaves :
      (id : Bytes) (uid expires now : ℕ) → Stable Of (create_session id uid expires now)
  unfolding create_session
  create_session_leaves id uid expires now d h =
      elim (Bool-cases (any (λ (s : Session). s.id =bytes id) d.sessions)) [
        | inl twice ↦ rw (twice, create_session) h
        | inr new ↦ elim (Bool-cases (any (has_id uid) d.users)) [
          | inl there ↦ rw (new, create_session) (rw there h)
          | inr gone ↦ rw (new, create_session) (rw gone h)
        ]
      ]

  put_flow_leaves :
      (state verifier nonce : Bytes) (now : ℕ) → Stable Of (put_oidc_flow state verifier nonce now)
  unfolding put_oidc_flow
  put_flow_leaves state verifier nonce now d h =
      elim (Bool-cases (any (λ (f : FlowRow). f.state =bytes state) d.flows)) [
        | inl twice ↦ rw (twice, put_oidc_flow) h
        | inr new ↦ rw (new, put_oidc_flow) h
      ]

  -- what an append to the audit log keeps
  abbrev pub Appends : Libraries → Type 0
  Appends lib =
      (users : List UserRow) (next_user : ℕ) (tokens : List TokenRow) (rows : List AuditRecord)
      (now : ℕ) (entry : NewAudit)
      → Q users next_user tokens rows
      → Q users next_user tokens
          (append_audit lib.sha256 lib.hex_encode lib.sign_hash lib.stored rows now entry)

  pub sessions_keep : (lib : Libraries) → Appends lib → KeepsSessions lib DrawsAny Of
  unfolding audit delete_session delete_sessions_for_user delete_other_sessions_for_user
      take_oidc_flow
  sessions_keep lib appends = record {
    audit_keeps = λ env actor action target details.
        Keeps-on_pool Of _ (λ d h. appends d.users d.next_user d.tokens d.audit_log env.now _ h);
    create_session_keeps =
        λ env uid expires _. create_session_leaves env.generate_session_id uid expires env.now;
    delete_session_keeps = λ id d h. h;
    delete_sessions_keeps = λ uid d h. h;
    delete_others_keeps = λ uid keep d h. h;
    put_flow_keeps = λ env _. put_flow_leaves _ _ _ _;
    take_flow_keeps = λ state d h. h;
  }
