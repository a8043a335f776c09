-- ===== src/Pipeline/Threshold.antt =====
-- Blocking mode: where no module blocks or rejects directly, the threshold alone decides.
use light_waf.Prelude.{
  ◌≤◌, ◌<◌, Bool, false, Option, none, some, List, [], ◌∷◌, Bytes, ◌≡◌, ◌≢◌, ◌↔◌, arith, All,
  All-filterb,
}
use light_waf.Core.Decision.{Decision, allow, block, monitor, score, scores, reject, Phase}
use light_waf.Core.Config.{blocking}
use light_waf.Core.Request.{RequestContext}
use light_waf.Pipeline.Verdict.{PipelineVerdict}
use light_waf.Pipeline.{
  WafModule, Pipeline, State, accumulate, accumulate_items, threshold_check, decide, contain,
  and_then, run_module, run_modules, run_loop, selected, conclude, run_phases_filtered, run_phases,
  phase_order, log_decision, run,
}

-- the decision only adds to the score, or does nothing
abbrev pub OnlyScores : Decision → Type 0
OnlyScores (block rule_id reason) = ⊥
OnlyScores (reject rule_id reason status retry_after) = ⊥
OnlyScores _ = Unit

module _ {W : Type 0} (p : Pipeline W) where
  -- whatever it inspects, the module's decision only adds to the score
  abbrev pub IsScoring : WafModule W → Type 0
  IsScoring m =
      (ctx : RequestContext) (world : W) → OnlyScores (contain p m.id (m.inspect ctx world).0)

  module _ (enforcing : p.mode ≡ blocking) where
    -- the loops end early exactly when the score has reached the threshold
    abbrev SettledAt : Option PipelineVerdict → RequestContext → Type 0
    SettledAt none ctx = ctx.score < p.block_threshold
    SettledAt (some v) ctx = (v ≢ PipelineVerdict.allow) × (p.block_threshold ≤ ctx.score)

    threshold_check-Settled :
        (ctx : RequestContext) (rule_id : Bytes) → SettledAt (threshold_check p ctx rule_id) ctx
    unfolding threshold_check
    threshold_check-Settled ctx rule_id = ground arith

    decide-Settled :
        (m : Bytes) (d : Decision) (ctx : RequestContext)
        → OnlyScores d
        → ctx.score < p.block_threshold
        → SettledAt (decide p m d ctx).0 (decide p m d ctx).1
    unfolding decide
    decide-Settled m allow ctx o h = h
    decide-Settled m (monitor rule_id) ctx o h = h
    decide-Settled m (score rule_id points) ctx o h =
        threshold_check-Settled (accumulate ctx m rule_id none points) rule_id
    decide-Settled m (scores items) ctx o h =
        let (ctx', last) = accumulate_items p m items ctx [] in threshold_check-Settled ctx' last
    decide-Settled m (block rule_id reason) ctx o h = absurd o
    decide-Settled m (reject rule_id reason status retry_after) ctx o h = absurd o

    abbrev Settled : Option PipelineVerdict × State W → Type 0
    Settled r = SettledAt r.0 r.1.ctx

    and_then-Settled :
        (r : Option PipelineVerdict × State W) (go_on : State W → Option PipelineVerdict × State W)
        → Settled r
        → (r.1.ctx.score < p.block_threshold → Settled (go_on r.1))
        → Settled (and_then r go_on)
    unfolding and_then
    and_then-Settled (none, s) go_on h k = k h
    and_then-Settled (some v, s) go_on h k = h

    run_modules-Settled :
        (ms : List (WafModule W)) (s : State W)
        → All IsScoring ms
        → s.ctx.score < p.block_threshold
        → Settled (run_modules p ms s)
    unfolding run_modules run_module
    run_modules-Settled [] s a h = h
    run_modules-Settled (m ∷ ms) s a h =
        and_then-Settled (run_module p m s) (run_modules p ms)
          (decide-Settled m.id _ s.ctx (a.0 s.ctx s.world) h)
          (run_modules-Settled ms (run_module p m s).1 a.1)

    run_loop-Settled :
        (only : Bool) (phases : List Phase) (s : State W)
        → All IsScoring p.modules
        → s.ctx.score < p.block_threshold
        → Settled (run_loop p only phases s)
    unfolding run_loop selected
    run_loop-Settled only [] s a h = h
    run_loop-Settled only (phase ∷ phases) s a h =
        let ms = selected p only phase in
        let r = run_modules p ms s in
        and_then-Settled r (run_loop p only phases)
          (run_modules-Settled ms s (All-filterb IsScoring _ p.modules a) h)
          (run_loop-Settled only phases r.1 a)

    conclude-Settled :
        (r : Option PipelineVerdict × State W)
        → Settled r
        → (conclude p r.0 ≡ PipelineVerdict.allow) ↔ (r.1.ctx.score < p.block_threshold)
    unfolding conclude
    conclude-Settled (none, s) h = ground arith
    conclude-Settled (some v, s) h = ground arith

    -- In blocking mode, with modules whose decisions only add to the score, a run that starts below
    -- the threshold allows the request exactly when it ends below the threshold.
    pub run-allow_iff :
        (s : State W)
        → All IsScoring p.modules
        → s.ctx.score < p.block_threshold
        → ((run p s).0 ≡ PipelineVerdict.allow) ↔ ((run p s).1.ctx.score < p.block_threshold)
    unfolding run run_phases run_phases_filtered log_decision
    run-allow_iff s a h =
        conclude-Settled (run_loop p false phase_order s) (run_loop-Settled false phase_order s a h)
