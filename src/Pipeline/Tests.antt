-- ===== src/Pipeline/Tests.antt =====
-- The pipeline on concrete requests, and each of its theorems at one.
use light_waf.Prelude.{
  ℕ, ◌+◌, ◌<◌, Bool, true, false, none, List, [], ◌∷◌, Bytes, codes, ◌≡◌, ◌↔◌, refl, arith, All,
}
use light_waf.Core.Decision.{
  allow, score, scores, critical, Phase, connection, request_line, headers, body, Inspected,
  returned, panicked,
}
use light_waf.Core.Config.{
  loopback, severity_scores_default, WafMode, blocking, FailMode, fail_open, fail_closed,
}
use light_waf.Core.Request.{RequestContext, normalized_default}
use light_waf.Pipeline.Verdict.{PipelineVerdict}
use light_waf.Pipeline.{
  WafModule, Pipeline, State, run, run_connection, run_inspection_gated, contain,
}
use light_waf.Pipeline.Threshold.{IsScoring, run-allow_iff}
use light_waf.Pipeline.Compose.{resume, run-run_connection}
use light_waf.Pipeline.Gate.{ContentIsInertOn, run_inspection_gated-skip}
use light_waf.Pipeline.Panics.{rescued, run-rescue}

abbrev request : RequestContext
request = record {
  client_ip = loopback;
  request_id = codes "r1";
  timestamp = 0;
  method = codes "GET";
  path = codes "/";
  raw_path = codes "/";
  query = none;
  http_version = codes "HTTP/1.1";
  headers = [];
  cookies = [];
  body = [];
  normalized = normalized_default;
  score = 0;
  score_contributions = [];
}

-- a module whose world counts its calls
abbrev counting : Bytes → Phase → Bool → Inspected → WafModule ℕ
counting id phase structural result = record {
  id = id;
  phase = phase;
  structural = structural;
  inspect = λ ctx calls. (result, calls + 1);
}

abbrev sqli : WafModule ℕ
sqli =
    counting (codes "sqli") body false
      (returned (scores (record { rule_id = codes "942100"; severity = critical } ∷ [])))

abbrev protocol : WafModule ℕ
protocol = counting (codes "protocol") request_line true (returned (score (codes "920100") 3))

abbrev limiter : WafModule ℕ
limiter = counting (codes "rate-limit") connection false (returned allow)

abbrev broken : WafModule ℕ
broken = counting (codes "broken") headers false panicked

-- a content module that does nothing on any request
abbrev quiet : WafModule ℕ
quiet = record {
  id = codes "quiet";
  phase = body;
  structural = false;
  inspect = λ ctx calls. (returned allow, calls);
}

abbrev pipeline : WafMode → FailMode → List (WafModule ℕ) → Pipeline ℕ
pipeline mode policy modules = record {
  modules = modules;
  block_threshold = 5;
  mode = mode;
  severity_scores = severity_scores_default;
  on_internal_error = policy;
}

abbrev start : State ℕ
start = record { ctx = request; world = 0; log = [] }

abbrev scoring : Pipeline ℕ
scoring = pipeline blocking fail_open (limiter ∷ protocol ∷ sqli ∷ [])

scoring_modules : All (IsScoring scoring) scoring.modules
unfolding contain
scoring_modules = (λ ctx world. tt, (λ ctx world. tt, (λ ctx world. tt, tt)))

run-allow_iff_example :
    ((run scoring start).0 ≡ PipelineVerdict.allow) ↔ ((run scoring start).1.ctx.score < 5)
run-allow_iff_example = run-allow_iff scoring refl start scoring_modules (omega arith)

run-run_connection_example : run scoring start ≡ resume scoring (run_connection scoring start)
run-run_connection_example = run-run_connection scoring start

abbrev gated : Pipeline ℕ
gated = pipeline blocking fail_open (protocol ∷ quiet ∷ [])

gated_modules : All (ContentIsInertOn request) gated.modules
gated_modules = ((λ e. cc), (λ e ctx world same. refl, tt))

run_inspection_gated-skip_example :
    run_inspection_gated gated false start ≡ run_inspection_gated gated true start
run_inspection_gated-skip_example = run_inspection_gated-skip gated start gated_modules

abbrev fragile : Pipeline ℕ
fragile = pipeline blocking fail_open (broken ∷ sqli ∷ [])

run-rescue_example : run fragile start ≡ run (rescued fragile refl) start
run-rescue_example = run-rescue fragile refl start

abbrev strict : Pipeline ℕ
strict = pipeline blocking fail_closed (broken ∷ sqli ∷ [])
