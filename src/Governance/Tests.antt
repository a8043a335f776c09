-- ===== src/Governance/Tests.antt =====
-- The theorems on roles, on the login throttle and on the audit log, each at a concrete input.
use light_waf.Prelude.{
  ℕ, ◌+◌, ◌*◌, ◌/◌, ◌%◌, ◌≤◌, Bool, true, none, some, List, [], ◌∷◌, ◌++◌, Bytes, codes, ◌≡◌, ◌↔◌,
  ◌⊎◌, refl, arith, map, length, ◌=bytes◌, =bytes_iff,
}
use light_waf.Governance.Rbac.{Role, operator, admin}
use light_waf.Prelude.Dict
use light_waf.Governance.Throttle.{LoginThrottle, seconds, new_throttle, allowed, or_default}
use light_waf.Governance.Throttle.Lockout.{allowed-fail_all, fail_all, last_of}
use light_waf.Governance.Throttle.Release.{failure, success, Event, run_events, allowed-run_events}
use light_waf.Governance.Audit.{
  AuditRecord, NewAudit, ts_micros, genesis_prev, sha256_hex, record_fault, verify_from, recomputed,
  compute_hash, hash_input, be_bytes, feed, or_empty, verify_chain,
}
use light_waf.Governance.Audit.Encoding.{content}
use light_waf.Governance.Audit.Tamper.{Collision, ZeroPreimage, verify_chain-tip}

abbrev groups : List (Bytes × Role)
groups = (codes "sre", operator) ∷ (codes "security", admin) ∷ []

abbrev throttle : LoginThrottle
throttle = record { max_failures = 3; window = seconds 60; lockout = seconds 300; state = [] }

allowed-fail_all_example :
    ((allowed (fail_all throttle (codes "alice") (10 ∷ 20 ∷ 30 ∷ [])) (codes "alice") 40 ≡ true)
      ↔ (last_of 10 (20 ∷ 30 ∷ []) + throttle.lockout ≤ 40))
    × (allowed (fail_all throttle (codes "alice") (10 ∷ 20 ∷ 30 ∷ [])) (codes "bob") 40
        ≡ allowed throttle (codes "bob") 40)
unfolding ◌=bytes◌ or_default Dict.get
allowed-fail_all_example =
    allowed-fail_all throttle (codes "alice") (codes "bob") 10 10 (20 ∷ 30 ∷ []) 40 (omega arith)
      refl (omega arith) refl refl

abbrev events : List Event
events =
    failure (codes "alice") 10
    ∷ failure (codes "alice") 20
    ∷ success (codes "bob")
    ∷ failure (codes "alice") 30
    ∷ []

allowed-run_events_example :
    allowed (run_events (new_throttle 3 60 300) events) (codes "alice") (30 + seconds 300) ≡ true
allowed-run_events_example =
    allowed-run_events 3 60 300 30 (30 + seconds 300) events (codes "alice") (omega arith)
      (omega arith)

-- a short digest, which stands for SHA-256
abbrev digest : Bytes → Bytes
digest bytes = length bytes % 256 ∷ []

abbrev as_is : Bytes → Bytes
as_is bytes = bytes

abbrev same_bytes : Bytes → Bytes → Bool
same_bytes hash signature = hash =bytes signature

abbrev to_micros : ℕ → ℕ
to_micros now = now / 1000 * 1000

same_bytes-as_is : (hash : Bytes) → same_bytes hash (as_is hash) ≡ true
same_bytes-as_is hash = (=bytes_iff hash hash).1 refl

ts_micros-to_micros : (now : ℕ) → ts_micros (to_micros now) ≡ ts_micros now
unfolding ts_micros
ts_micros-to_micros now = omega arith

abbrev entries : List (ℕ × NewAudit)
entries =
    (
      1500,
      record { actor = codes "admin"; action = codes "login"; target = none; details = codes "{}" },
    )
    ∷ (
      2700,
      record {
        actor = codes "admin";
        action = codes "push";
        target = some (codes "node");
        details = codes "{}";
      },
    )
    ∷ []

abbrev log : List AuditRecord
log =
    record {
      seq = 1;
      ts = 1000;
      actor = codes "admin";
      action = codes "login";
      target = none;
      details = codes "{}";
      prev_hash = genesis_prev;
      hash = 132 ∷ [];
      signature = 132 ∷ [];
    }
    ∷ record {
      seq = 2;
      ts = 2000;
      actor = codes "admin";
      action = codes "push";
      target = some (codes "node");
      details = codes "{}";
      prev_hash = 132 ∷ [];
      hash = 72 ∷ [];
      signature = 72 ∷ [];
    }
    ∷ []

verify_chain-tip_example :
    (map content log ≡ map content log)
    ⊎ (Collision (sha256_hex digest as_is) ⊎ ZeroPreimage (sha256_hex digest as_is))
unfolding verify_chain ◌=bytes◌ verify_from record_fault recomputed compute_hash hash_input be_bytes
    feed or_empty
verify_chain-tip_example =
    verify_chain-tip digest as_is same_bytes same_bytes log log refl refl (omega arith)
      (omega arith) refl

-- the log, with its records a second time
abbrev cut : List AuditRecord
cut = log ++ log
