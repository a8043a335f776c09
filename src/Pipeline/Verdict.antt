-- ===== src/Pipeline/Verdict.antt =====
-- crates/waf-pipeline/src/lib.rs: the verdict on a request.
use light_waf.Prelude.{ℕ, Option, Bytes}

-- `block` and `reject` carry the rule and the reason; `reject` also an HTTP status and a delay.
pub data PipelineVerdict : Type 0 where
  allow : PipelineVerdict
  block : Bytes → Bytes → PipelineVerdict
  reject : Bytes → Bytes → ℕ → Option ℕ → PipelineVerdict
