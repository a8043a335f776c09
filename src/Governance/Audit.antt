-- ===== src/Governance/Audit.antt =====
-- crates/waf-governance/src/audit.rs, `AuditRecord` and `NewAudit` of model.rs, and `append_audit` of
-- store.rs: the audit log is a chain of hashes.
--
-- Strings are their bytes. An `i64` is its word of 64 bits, and a time is its number of nanoseconds since
-- the epoch. SHA-256, `hex::encode`, the signature and its check are parameters. The table is the list of
-- its rows by ascending `seq`; the advisory lock makes an append one step.
pub mod Encoding
pub mod Tamper
pub mod Append
use light_waf.Prelude.{
  ℕ, zero, suc, ◌+◌, ◌/◌, ◌%◌, ◌^◌, Bool, true, false, not, Option, none, some, List, [], ◌∷◌, ◌++◌,
  Bytes, codes, length, ◌=bytes◌, if◌then◌else◌,
}

abbrev pub genesis_prev : Bytes
genesis_prev = codes "0000000000000000000000000000000000000000000000000000000000000000"

pub record AuditRecord : Type 0 where
  pub seq : ℕ
  pub ts : ℕ
  pub actor : Bytes
  pub action : Bytes
  pub target : Option Bytes
  pub details : Bytes
  pub prev_hash : Bytes
  pub hash : Bytes
  pub signature : Bytes

pub record NewAudit : Type 0 where
  pub actor : Bytes
  pub action : Bytes
  pub target : Option Bytes
  pub details : Bytes

unfoldable pub ts_micros : ℕ → ℕ
ts_micros ts = ts / 1000 % 2 ^ 64

-- `to_be_bytes` of a word of `k` bytes
unfoldable pub be_bytes : ℕ → ℕ → Bytes
be_bytes zero n = []
be_bytes (suc k) n = be_bytes k (n / 256) ++ (n % 256 ∷ [])

-- what `feed` adds to the digest's input
unfoldable pub feed : Bytes → Bytes
feed field = be_bytes 8 (length field % 2 ^ 64) ++ field

-- `unwrap_or("")`
unfoldable pub or_empty : Option Bytes → Bytes
or_empty none = []
or_empty (some t) = t

-- all that `compute_hash` feeds to the digest
unfoldable pub hash_input : ℕ → ℕ → Bytes → Bytes → Option Bytes → Bytes → Bytes → Bytes
hash_input seq micros actor action target details prev_hash =
    be_bytes 8 seq
    ++ (be_bytes 8 micros
        ++ (feed actor
            ++ (feed action ++ (feed (or_empty target) ++ (feed details ++ feed prev_hash)))))

pub record ChainBreak : Type 0 where
  pub index : ℕ
  pub seq : ℕ
  pub reason : Bytes

-- the `seq` and the previous hash of the next row, after the row with the highest `seq`
unfoldable pub next_link : ℕ → Bytes → List AuditRecord → ℕ × Bytes
next_link seq prev [] = (seq, prev)
next_link seq prev (r ∷ rows) = next_link ((r.seq + 1) % 2 ^ 64) r.hash rows

module _ (sha256 hex_encode : Bytes → Bytes) where
  unfoldable pub sha256_hex : Bytes → Bytes
  sha256_hex bytes = hex_encode (sha256 bytes)

  unfoldable pub compute_hash : ℕ → ℕ → Bytes → Bytes → Option Bytes → Bytes → Bytes → Bytes
  unfolding sha256_hex
  compute_hash seq micros actor action target details prev_hash =
      sha256_hex (hash_input seq micros actor action target details prev_hash)

  -- `compute_hash` of what a record holds
  unfoldable pub recomputed : AuditRecord → Bytes
  recomputed r = compute_hash r.seq (ts_micros r.ts) r.actor r.action r.target r.details r.prev_hash

  -- what is wrong with one record after the hash `prev`; `none` where nothing is
  unfoldable pub record_fault : (Bytes → Bytes → Bool) → Bytes → AuditRecord → Option Bytes
  record_fault verify_signature prev r =
      if not (r.prev_hash =bytes prev)
      then some (codes "prev_hash does not link the previous record")
      else if not (recomputed r =bytes r.hash)
      then some (codes "hash does not match record content")
      else if not (verify_signature r.hash r.signature)
      then some (codes "signature does not verify")
      else none

  -- the loop of `verify_chain`, from a record's index and the previous hash on; `none` is `Ok(())`
  unfoldable pub verify_from :
      (Bytes → Bytes → Bool) → ℕ → Bytes → List AuditRecord → Option ChainBreak
  verify_from verify_signature index prev [] = none
  verify_from verify_signature index prev (r ∷ records) =
      elim (record_fault verify_signature prev r) [
        | some reason ↦ some (record { index = index; seq = r.seq; reason = reason })
        | none ↦ verify_from verify_signature (index + 1) r.hash records
      ]

  unfoldable pub verify_chain : (Bytes → Bytes → Bool) → List AuditRecord → Option ChainBreak
  verify_chain verify_signature records = verify_from verify_signature 0 genesis_prev records

  unfoldable pub new_record : (Bytes → Bytes) → ℕ → NewAudit → ℕ × Bytes → AuditRecord
  new_record sign_hash ts entry (seq, prev_hash) =
      let hash =
        compute_hash seq (ts_micros ts) entry.actor entry.action entry.target entry.details
          prev_hash in
      record {
        seq = seq;
        ts = ts;
        actor = entry.actor;
        action = entry.action;
        target = entry.target;
        details = entry.details;
        prev_hash = prev_hash;
        hash = hash;
        signature = sign_hash hash;
      }

  -- the table after an append; `stored` is what the column keeps of a time
  unfoldable pub append_audit :
      (Bytes → Bytes) → (ℕ → ℕ) → List AuditRecord → ℕ → NewAudit → List AuditRecord
  unfolding next_link new_record
  append_audit sign_hash stored rows now entry =
      let r = new_record sign_hash now entry (next_link 1 genesis_prev rows) in
      rows ++ (record r { ts = stored now } ∷ [])
