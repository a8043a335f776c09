-- ===== src/Core/Decision.antt =====
-- crates/waf-core/src/lib.rs: decisions, severities and phases.
use light_waf.Prelude.{ℕ, Bool, true, false, Option, List, Bytes}

pub data Severity : Type 0 where
  critical error warning notice : Severity

pub record ScoreItem : Type 0 where
  pub rule_id : Bytes
  pub severity : Severity

-- `Block` and `Reject` carry the rule and the reason; `Reject` also an HTTP status and a delay.
pub data Decision : Type 0 where
  allow : Decision
  block : Bytes → Bytes → Decision
  monitor : Bytes → Decision
  score : Bytes → ℕ → Decision
  scores : List ScoreItem → Decision
  reject : Bytes → Bytes → ℕ → Option ℕ → Decision

pub data Phase : Type 0 where
  connection request_line headers body response : Phase

-- the derived `==`
unfoldable pub phase_eq : Phase → Phase → Bool
phase_eq connection connection = true
phase_eq request_line request_line = true
phase_eq headers headers = true
phase_eq body body = true
phase_eq response response = true
phase_eq _ _ = false

-- What `catch_unwind` around `inspect` sees.
pub data Inspected : Type 0 where
  returned : Decision → Inspected
  panicked : Inspected

-- One recorded contribution to the anomaly score.
pub record ScoreContribution : Type 0 where
  pub module_id : Bytes
  pub rule_id : Bytes
  pub severity : Option Severity
  pub points : ℕ
