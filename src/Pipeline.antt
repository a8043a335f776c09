-- ===== src/Pipeline.antt =====
-- crates/waf-pipeline/src/lib.rs: the modules are run phase by phase, their decisions are summed up
-- into the anomaly score, and a verdict is reached.
--
-- A module may hold shared mutable state of its own (the rate limiter's buckets, a plugin's
-- instances), so `inspect` also reads and returns a world `W`. `u32` addition wraps, as a release
-- build does. The final decision log is an output; the other log lines are not modelled.
pub mod Modes
pub mod Score
pub mod Threshold
pub mod Compose
pub mod Gate
pub mod Panics
mod Tests
mod Verdict
pub use Verdict.{PipelineVerdict}
use light_waf.Prelude.{
  ℕ, ◌+◌, ◌%◌, ◌^◌, Bool, true, false, not, ◌&&◌, ◌||◌, Option, none, some, List, [], ◌∷◌, ◌++◌,
  map, Bytes, codes, decimal, filterb, ltb, if◌then◌else◌,
}
use light_waf.Core.Decision.{
  Severity, ScoreItem, Decision, allow, block, monitor, score, scores, reject, Phase, connection,
  request_line, headers, body, response, phase_eq, Inspected, returned, panicked, ScoreContribution,
}
use light_waf.Core.Config.{
  Config, SeverityScores, points_for, WafMode, detection_only, blocking, FailMode, fail_open,
  fail_closed,
}
use light_waf.Core.Request.{RequestContext}

-- `WafModule` behind `init`.
pub record WafModule (W : Type 0) : Type 0 where
  pub id : Bytes
  pub phase : Phase
  pub structural : Bool
  pub inspect : RequestContext → W → Inspected × W

-- `WafModule` before `init`.
pub record Uninitialised (W : Type 0) : Type 0 where
  pub init : Config → WafModule W

abbrev pub phase_order : List Phase
phase_order = connection ∷ request_line ∷ headers ∷ body ∷ response ∷ []

abbrev pub inspection_phases : List Phase
inspection_phases = request_line ∷ headers ∷ body ∷ response ∷ []

pub record Pipeline (W : Type 0) : Type 0 where
  pub modules : List (WafModule W)
  pub block_threshold : ℕ
  pub mode : WafMode
  pub severity_scores : SeverityScores
  pub on_internal_error : FailMode

-- `Pipeline::new`
unfoldable pub new : {W : Type 0} → Config → List (Uninitialised W) → Pipeline W
new config modules = record {
  modules = map (λ m. m.init config) modules;
  block_threshold = config.waf.block_threshold;
  mode = config.waf.mode;
  severity_scores = config.waf.severity_scores;
  on_internal_error = config.resilience.on_internal_error;
}

abbrev pub u32_mod : ℕ
u32_mod = 2 ^ 32

unfoldable pub accumulate : RequestContext → Bytes → Bytes → Option Severity → ℕ → RequestContext
accumulate ctx module_id rule_id severity points = record ctx {
  score = (ctx.score + points) % u32_mod;
  score_contributions =
      ctx.score_contributions
      ++ (record { module_id = module_id; rule_id = rule_id; severity = severity; points = points }
          ∷ []);
}

-- What the final decision log holds.
pub record DecisionLog : Type 0 where
  pub request_id : Bytes
  pub decision : Bytes
  pub score : ℕ
  pub threshold : ℕ
  pub mode : WafMode
  pub contributions : List ScoreContribution

-- The request, the modules' world, and the decisions logged so far.
pub record State (W : Type 0) : Type 0 where
  pub ctx : RequestContext
  pub world : W
  pub log : List DecisionLog

unfoldable pub decision_name : PipelineVerdict → Bytes
decision_name (PipelineVerdict.block _ _) = codes "block"
decision_name (PipelineVerdict.reject _ _ _ _) = codes "reject"
decision_name PipelineVerdict.allow = codes "allow"

unfoldable pub is_allow : PipelineVerdict → Bool
is_allow PipelineVerdict.allow = true
is_allow (PipelineVerdict.block _ _) = false
is_allow (PipelineVerdict.reject _ _ _ _) = false

-- After a loop body: `break` with a verdict, or go on.
unfoldable pub and_then :
    {W : Type 0}
    → Option PipelineVerdict × State W
    → (State W → Option PipelineVerdict × State W)
    → Option PipelineVerdict × State W
and_then (some v, s) go_on = (some v, s)
and_then (none, s) go_on = go_on s

module _ {W : Type 0} (p : Pipeline W) where
  unfoldable pub threshold_check : RequestContext → Bytes → Option PipelineVerdict
  threshold_check ctx rule_id = if ltb ctx.score p.block_threshold then none else elim p.mode [
    | blocking ↦ some (
        PipelineVerdict.block rule_id (
          codes "anomaly score "
          ++ decimal ctx.score
          ++ codes " >= threshold "
          ++ decimal p.block_threshold))
    | detection_only ↦ none
  ]

  -- the loop over `Decision::Scores`: the context, and the id of the last rule
  unfoldable pub accumulate_items :
      Bytes → List ScoreItem → RequestContext → Bytes → RequestContext × Bytes
  unfolding accumulate
  accumulate_items module_id [] ctx last = (ctx, last)
  accumulate_items module_id (item ∷ items) ctx last =
      accumulate_items module_id items
        (accumulate ctx module_id item.rule_id (some item.severity)
          (points_for p.severity_scores item.severity))
        item.rule_id

  -- a verdict that breaks out of the loops is taken in blocking mode only
  unfoldable pub if_blocking : PipelineVerdict → Option PipelineVerdict
  if_blocking v = elim p.mode [ blocking ↦ some v | detection_only ↦ none ]

  -- `match decision`: the verdict that ends the loops, if any, and the context
  unfoldable pub decide :
      Bytes → Decision → RequestContext → Option PipelineVerdict × RequestContext
  unfolding threshold_check accumulate_items if_blocking
  decide module_id allow ctx = (none, ctx)
  decide module_id (monitor rule_id) ctx = (none, ctx)
  decide module_id (score rule_id points) ctx =
      let ctx' = accumulate ctx module_id rule_id none points in
      (threshold_check ctx' rule_id, ctx')
  decide module_id (scores items) ctx =
      let (ctx', last_rule_id) = accumulate_items module_id items ctx [] in
      (threshold_check ctx' last_rule_id, ctx')
  decide module_id (block rule_id reason) ctx =
      (if_blocking (PipelineVerdict.block rule_id reason), ctx)
  decide module_id (reject rule_id reason status retry_after) ctx =
      (if_blocking (PipelineVerdict.reject rule_id reason status retry_after), ctx)

  -- the policy for a module that panicked
  unfoldable pub on_panic : Bytes → Decision
  on_panic module_id = elim p.on_internal_error [
    | fail_open ↦ allow
    | fail_closed ↦
        block (codes "internal-error") (codes "module " ++ module_id ++ codes " panicked")
  ]

  unfoldable pub contain : Bytes → Inspected → Decision
  unfolding on_panic
  contain module_id (returned d) = d
  contain module_id panicked = on_panic module_id

  -- the body of the inner loop
  unfoldable pub run_module : WafModule W → State W → Option PipelineVerdict × State W
  unfolding contain
  run_module m s =
      let (result, world') = m.inspect s.ctx s.world in
      let (verdict, ctx') = decide m.id (contain m.id result) s.ctx in
      (verdict, record s { ctx = ctx'; world = world' })

  -- the inner loop; a verdict is `break 'pipeline`
  unfoldable pub run_modules : List (WafModule W) → State W → Option PipelineVerdict × State W
  run_modules [] s = (none, s)
  run_modules (m ∷ ms) s = and_then (run_module m s) (run_modules ms)

  -- the modules that the inner loop visits
  unfoldable pub selected : Bool → Phase → List (WafModule W)
  selected structural_only phase =
      filterb (λ (m : WafModule W). phase_eq m.phase phase && (not structural_only || m.structural))
        p.modules

  -- the outer loop
  unfoldable pub run_loop : Bool → List Phase → State W → Option PipelineVerdict × State W
  run_loop structural_only [] s = (none, s)
  run_loop structural_only (phase ∷ phases) s =
      and_then (run_modules (selected structural_only phase) s) (run_loop structural_only phases)

  unfoldable pub conclude : Option PipelineVerdict → PipelineVerdict
  conclude found = elim p.mode [
    | blocking ↦ elim found [ some v ↦ v | none ↦ PipelineVerdict.allow ]
    | detection_only ↦ PipelineVerdict.allow
  ]

  unfoldable pub run_phases_filtered : List Phase → Bool → State W → PipelineVerdict × State W
  unfolding conclude
  run_phases_filtered phases structural_only s =
      let (found, s') = run_loop structural_only phases s in (conclude found, s')

  unfoldable pub run_phases : List Phase → State W → PipelineVerdict × State W
  run_phases phases = run_phases_filtered phases false

  unfoldable pub log_decision : PipelineVerdict → State W → State W
  log_decision verdict s = record s {
    log =
        s.log
        ++ (record {
          request_id = s.ctx.request_id;
          decision = decision_name verdict;
          score = s.ctx.score;
          threshold = p.block_threshold;
          mode = p.mode;
          contributions = s.ctx.score_contributions;
        }
            ∷ []);
  }

  unfoldable pub run : State W → PipelineVerdict × State W
  run s = let (verdict, s') = run_phases phase_order s in (verdict, log_decision verdict s')

  unfoldable pub run_connection : State W → PipelineVerdict × State W
  run_connection s =
      let (verdict, s') = run_phases (connection ∷ []) s in
      (verdict, if is_allow verdict then s' else log_decision verdict s')

  unfoldable pub run_inspection : State W → PipelineVerdict × State W
  run_inspection s =
      let (verdict, s') = run_phases inspection_phases s in (verdict, log_decision verdict s')

  unfoldable pub run_inspection_gated : Bool → State W → PipelineVerdict × State W
  run_inspection_gated true s = run_inspection s
  run_inspection_gated false s =
      let (verdict, s') = run_phases_filtered inspection_phases true s in
      (verdict, log_decision verdict s')
