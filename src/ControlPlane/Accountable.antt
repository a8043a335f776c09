-- ===== src/ControlPlane/Accountable.antt =====
-- The audit log under the requests that are served: it only grows, and it keeps verifying.
use light_waf.Prelude.{
  refl, Option, length, arith, ◌≡◌, ◌∙◌, ap, sym, ℕ, Bool, true, List, [], ◌∷◌, ◌++◌, append_assoc,
  append-nil, none, Bytes,
}
use light_waf.Governance.Audit.{
  ChainBreak, AuditRecord, NewAudit, append_audit, next_link, new_record, genesis_prev, ts_micros,
  verify_chain,
}
use light_waf.Governance.Audit.Append.{append_all, verify_chain-append_all}
use light_waf.ControlPlane.AuditLog.{report, verify_audit}
use light_waf.ControlPlane.Callers.{on_pool-answer, require-answered}
use light_waf.Governance.Rbac.{view_audit}
use light_waf.Governance.Store.{Database, Result}
use light_waf.Governance.Store.Queries.{all_audit_ordered}
use light_waf.ControlPlane.Server.{
  Body, json, Headers, Env, Response, ◌>>=◌, pure, on_pool, or_500, reply, Libraries, Settings,
  AppState,
}
use light_waf.ControlPlane.Keeps.Tables.{sessions_keep}
use light_waf.ControlPlane.Keeps.Serve.{serve_all-keeps, DrawsAny-All, Permits-All}
use light_waf.ControlPlane.Keeps.Rest.{rest_keep}
use light_waf.ControlPlane.Router
use light_waf.ControlPlane.Router.{Call, serve, handle, serve_all}

module _ (lib : Libraries) (settings : Settings) (verify_signature : Bytes → Bytes → Bool)
    (signs : (hash : Bytes) → verify_signature hash (lib.sign_hash hash) ≡ true)
    (keeps_micros : (now : ℕ) → ts_micros (lib.stored now) ≡ ts_micros now)
    (rows : List AuditRecord) where
  -- the log begins with `rows`, and it verifies
  abbrev pub Extends : List AuditRecord → Type 0
  Extends log =
      ((more : List AuditRecord) × (log ≡ rows ++ more))
      × (verify_chain lib.sha256 lib.hex_encode verify_signature log ≡ none)

  append-Extends :
      (log : List AuditRecord) (now : ℕ) (entry : NewAudit)
      → Extends log
      → Extends (append_audit lib.sha256 lib.hex_encode lib.sign_hash lib.stored log now entry)
  unfolding append_audit append_all
  append-Extends log now entry ((more, e), h) = (
    (more ++ (r ∷ []), ap (λ l. l ++ (r ∷ [])) e ∙ append_assoc rows more (r ∷ [])),
    verify_chain-append_all lib.sha256 lib.hex_encode verify_signature lib.sign_hash lib.stored log
        ((now, entry) ∷ []) signs keeps_micros h,
  )
    where
      r : AuditRecord
      r =
          record (new_record lib.sha256 lib.hex_encode lib.sign_hash now entry
            (next_link 1 genesis_prev log)) { ts = lib.stored now }

  -- From tables whose audit log verifies, any requests, whatever becomes of their queries, leave a log
  -- that verifies and begins with the old one, given that a signature of the log's key passes its check
  -- and that the column keeps a time's microseconds.
  pub serve_all-Extends :
      (calls : List Call) (s : AppState)
      → s.pool.database.audit_log ≡ rows
      → verify_chain lib.sha256 lib.hex_encode verify_signature rows ≡ none
      → Extends (serve_all lib settings calls s).pool.database.audit_log
  serve_all-Extends calls s e h =
      serve_all-keeps lib settings
        (sessions_keep (λ _ _ _ log. Extends log) lib
          (λ _ _ _ log now entry h. append-Extends log now entry h))
        (rest_keep (λ _ _ log. Extends log) lib (λ _ _ _ _ h. h)) calls s (DrawsAny-All calls)
        (Permits-All calls) (([], e ∙ sym (append-nil rows)), rw e h)

-- the request to check the audit log
abbrev pub check : Headers → Env → Call
check h env = record { request = Router.verify_audit; headers = h; env = env }

module _ (lib : Libraries) (settings : Settings) where
  -- what the check of a log says
  abbrev checked : List AuditRecord → Body
  checked log = json (
      report lib.public_key_hex (length log)
        (verify_chain lib.sha256 lib.hex_encode lib.verify_signature log))

  verify_audit_lem :
      (s : AppState)
      → (verify_audit lib s).0.status ≡ 200
      → (verify_audit lib s).0.body ≡ checked s.pool.database.audit_log
  unfolding verify_audit ◌>>=◌
  verify_audit_lem s e =
      on_pool-answer Says all_audit_ordered s (unfold or_500 all_audit_ordered pure in λ s' _. refl)
        (unfold or_500 pure in λ s' h. absurd (omega arith)) (on_pool all_audit_ordered s).1 e
    where
      Says : Result (List AuditRecord) → Type 0
      Says r =
          (s' : AppState)
          → (or_500 r (λ l. pure (reply 200 (checked l))) s').0.status ≡ 200
          → (or_500 r (λ l. pure (reply 200 (checked l))) s').0.body
            ≡ checked s.pool.database.audit_log

  -- From tables whose audit log verifies under the server's own key, after any requests, whatever becomes
  -- of their queries, a request to check the log that is answered with 200 is told that the log is whole,
  -- with its length and the key, given that a signature by the server passes its check and that the
  -- column keeps a time's microseconds.
  pub serve-check :
      (signs : (hash : Bytes) → lib.verify_signature hash (lib.sign_hash hash) ≡ true)
      (keeps_micros : (now : ℕ) → ts_micros (lib.stored now) ≡ ts_micros now) (calls : List Call)
      (h : Headers) (env : Env) (s : AppState)
      → verify_chain lib.sha256 lib.hex_encode lib.verify_signature s.pool.database.audit_log ≡ none
      → (serve lib settings (check h env) (serve_all lib settings calls s)).0.status ≡ 200
      → (serve lib settings (check h env) (serve_all lib settings calls s)).0.body
        ≡ json (
            report lib.public_key_hex
              (length (serve_all lib settings calls s).pool.database.audit_log)
              none)
  unfolding serve handle
  serve-check signs keeps_micros calls h env s whole answered =
      let after = serve_all lib settings calls s in
      let (p, s', same, _, is) =
        require-answered lib settings env h after view_audit (λ _. verify_audit lib) answered in
      let extends =
        serve_all-Extends lib settings lib.verify_signature signs keeps_micros
          s.pool.database.audit_log calls s refl whole in
      ap (λ (r : Response × AppState). r.0.body) is
      ∙ verify_audit_lem s' (ap (λ (r : Response × AppState). r.0.status) (sym is) ∙ answered)
      ∙ ap (λ (d : Database). checked d.audit_log) same
      ∙ ap
          (λ (o : Option ChainBreak).
            json (report lib.public_key_hex (length after.pool.database.audit_log) o))
          extends.1
