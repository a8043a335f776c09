-- ===== src/Governance/Audit/Append.antt =====
-- A log that is only appended to verifies.
use light_waf.Prelude.{
  ℕ, ◌+◌, ◌%◌, ◌^◌, Bool, true, none, some, List, [], ◌∷◌, ◌++◌, Bytes, ◌≡◌, refl, arith, subst,
  take, get_elem?, suc, inl, inr, Option-cases,
}
use light_waf.Prelude.Dict.{=bytes_same}
use light_waf.Governance.Audit.{
  AuditRecord, NewAudit, ChainBreak, ts_micros, genesis_prev, compute_hash, recomputed,
  record_fault, verify_from, verify_chain, next_link, new_record, append_audit,
}
use light_waf.Governance.Audit.Tamper.{tip}

module _ (sha256 hex_encode : Bytes → Bytes) (verify_signature : Bytes → Bytes → Bool)
    (sign_hash : Bytes → Bytes) (stored : ℕ → ℕ) where
  -- appends at these times, one after the other
  unfoldable pub append_all : List AuditRecord → List (ℕ × NewAudit) → List AuditRecord
  append_all rows [] = rows
  append_all rows ((now, entry) ∷ entries) =
      append_all (append_audit sha256 hex_encode sign_hash stored rows now entry) entries

  verify_from-append :
      (index : ℕ) (prev : Bytes) (rows : List AuditRecord) (r : AuditRecord)
      → verify_from sha256 hex_encode verify_signature index prev rows ≡ none
      → record_fault sha256 hex_encode verify_signature (tip prev rows) r ≡ none
      → verify_from sha256 hex_encode verify_signature index prev (rows ++ (r ∷ [])) ≡ none
  unfolding verify_from
  verify_from-append index prev [] r h f = ground arith
  verify_from-append index prev (x ∷ rows) r h f =
      ground (arith, verify_from-append (index + 1) x.hash rows r)

  next_link-tip :
      (seq : ℕ) (prev : Bytes) (rows : List AuditRecord)
      → (next_link seq prev rows).1 ≡ tip prev rows
  unfolding next_link
  next_link-tip seq prev [] = refl
  next_link-tip seq prev (r ∷ rows) = next_link-tip ((r.seq + 1) % 2 ^ 64) r.hash rows

  new_record-fault :
      (now : ℕ) (entry : NewAudit) (link : ℕ × Bytes)
      → ((hash : Bytes) → verify_signature hash (sign_hash hash) ≡ true)
      → ts_micros (stored now) ≡ ts_micros now
      → record_fault sha256 hex_encode verify_signature link.1
          (record (new_record sha256 hex_encode sign_hash now entry link) { ts = stored now })
        ≡ none
  unfolding record_fault recomputed new_record
  new_record-fault now entry (seq, prev) signs keeps =
      let hash =
        compute_hash sha256 hex_encode seq (ts_micros now) entry.actor entry.action entry.target
          entry.details prev in
      rw (=bytes_same prev, keeps) (rw (=bytes_same hash, signs hash) refl)

  -- From a table that verifies, any sequence of appends, at any times and of any entries, leaves a table
  -- that verifies, given that a signature of the log's key passes its check and that the column keeps a
  -- time's microseconds.
  pub verify_chain-append_all :
      (rows : List AuditRecord) (entries : List (ℕ × NewAudit))
      → ((hash : Bytes) → verify_signature hash (sign_hash hash) ≡ true)
      → ((now : ℕ) → ts_micros (stored now) ≡ ts_micros now)
      → verify_chain sha256 hex_encode verify_signature rows ≡ none
      → verify_chain sha256 hex_encode verify_signature (append_all rows entries) ≡ none
  unfolding append_all append_audit verify_chain
  verify_chain-append_all rows [] signs keeps h = h
  verify_chain-append_all rows ((now, entry) ∷ entries) signs keeps h =
      let link = next_link 1 genesis_prev rows in
      let r = record (new_record sha256 hex_encode sign_hash now entry link) { ts = stored now } in
      verify_chain-append_all (rows ++ (r ∷ [])) entries signs keeps (
        verify_from-append 0 genesis_prev rows r h (
          subst (λ prev. record_fault sha256 hex_encode verify_signature prev r ≡ none)
            (next_link-tip 1 genesis_prev rows)
            (new_record-fault now entry link signs (keeps now))))

  -- what a break of the chain says, from the record with this index on
  abbrev BreaksAt : ℕ → Bytes → List AuditRecord → ChainBreak → Type 0
  BreaksAt index prev records b =
      (k : ℕ) × (r : AuditRecord) × (b.index ≡ index + k)
      × (get_elem? records k ≡ some r)
      × (b.seq ≡ r.seq)
      × (record_fault sha256 hex_encode verify_signature (tip prev (take k records)) r
          ≡ some b.reason)
      × (verify_from sha256 hex_encode verify_signature index prev (take k records) ≡ none)

  verify_from-BreaksAt :
      (index : ℕ) (prev : Bytes) (records : List AuditRecord) (b : ChainBreak)
      → verify_from sha256 hex_encode verify_signature index prev records ≡ some b
      → BreaksAt index prev records b
  unfolding verify_from
  verify_from-BreaksAt index prev [] b h = absurd (ground arith)
  verify_from-BreaksAt index prev (x ∷ records) b h =
      elim (Option-cases (record_fault sha256 hex_encode verify_signature prev x)) [
        | inl fine ↦
            let (k, r, i, at, s, f, before) =
              verify_from-BreaksAt (index + 1) x.hash records b (ground arith) in
            (suc k, r, omega (arith, i), at, s, f, ground arith)
        | inr (reason, bad) ↦ (0, x, ground arith, refl, ground arith, ground arith, refl)
      ]

  -- A break that `verify_chain` reports is at the first faulty record: the records before its index
  -- verify, its `seq` is that of the record at its index, and its reason is what is wrong with that record
  -- after the hash of the one before.
  pub verify_chain-break :
      (records : List AuditRecord) (b : ChainBreak)
      → verify_chain sha256 hex_encode verify_signature records ≡ some b
      → (verify_chain sha256 hex_encode verify_signature (take b.index records) ≡ none)
        × ((r : AuditRecord) × (get_elem? records b.index ≡ some r)
            × (b.seq ≡ r.seq)
            × (record_fault sha256 hex_encode verify_signature
                  (tip genesis_prev (take b.index records))
                  r
                ≡ some b.reason))
  unfolding verify_chain
  verify_chain-break records b h =
      let (k, r, i, at, s, f, before) = verify_from-BreaksAt 0 genesis_prev records b h in
      let same : k ≡ b.index = omega (arith, i) in
      subst
        (λ (n : ℕ).
          (verify_from sha256 hex_encode verify_signature 0 genesis_prev (take n records) ≡ none)
          × ((x : AuditRecord) × (get_elem? records n ≡ some x)
              × (b.seq ≡ x.seq)
              × (record_fault sha256 hex_encode verify_signature (tip genesis_prev (take n records))
                    x
                  ≡ some b.reason)))
        same (before, (r, at, s, f))
