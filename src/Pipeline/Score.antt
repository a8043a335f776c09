-- ===== src/Pipeline/Score.antt =====
-- The anomaly score: it is the sum of the recorded contributions, and in blocking mode it alone
-- decides where no module blocks or rejects directly.
use light_waf.Prelude.{
  ℕ, ◌+◌, ◌%◌, Bool, false, Option, none, some, List, [], ◌∷◌, ◌++◌, Bytes, ◌≡◌, arith,
}
use light_waf.Core.Decision.{Severity, ScoreItem, Decision, score, scores, Phase, ScoreContribution}
use light_waf.Core.Request.{RequestContext}
use light_waf.Pipeline.Verdict.{PipelineVerdict}
use light_waf.Pipeline.{
  WafModule, Pipeline, State, u32_mod, accumulate, accumulate_items, decide, and_then, run_module,
  run_modules, run_loop, selected, run_phases_filtered, run_phases, phase_order, log_decision, run,
}

abbrev pub total : List ScoreContribution → ℕ
total [] = 0
total (c ∷ cs) = c.points + total cs

-- the score is the sum of the breakdown, as a `u32`
abbrev pub IsAccounted : RequestContext → Type 0
IsAccounted ctx = ctx.score ≡ total ctx.score_contributions % u32_mod

total-append : (cs ds : List ScoreContribution) → total (cs ++ ds) ≡ total cs + total ds
total-append [] ds = omega arith
total-append (c ∷ cs) ds = omega (arith, total-append cs ds)

accumulate-IsAccounted :
    (ctx : RequestContext) (m r : Bytes) (sev : Option Severity) (points : ℕ)
    → IsAccounted ctx
    → IsAccounted (accumulate ctx m r sev points)
unfolding accumulate
accumulate-IsAccounted ctx m r sev points h =
    let new : ScoreContribution = record {
      module_id = m;
      rule_id = r;
      severity = sev;
      points = points;
    } in
    omega (arith, total-append ctx.score_contributions (new ∷ []))

module _ {W : Type 0} (p : Pipeline W) where
  accumulate_items-IsAccounted :
      (m : Bytes) (items : List ScoreItem) (ctx : RequestContext) (last : Bytes)
      → IsAccounted ctx
      → IsAccounted (accumulate_items p m items ctx last).0
  unfolding accumulate_items
  accumulate_items-IsAccounted m [] ctx last h = h
  accumulate_items-IsAccounted m (item ∷ items) ctx last h =
      accumulate_items-IsAccounted m items _ item.rule_id
        (accumulate-IsAccounted ctx m item.rule_id (some item.severity) _ h)

  decide-IsAccounted :
      (m : Bytes) (d : Decision) (ctx : RequestContext)
      → IsAccounted ctx
      → IsAccounted (decide p m d ctx).1
  unfolding decide
  decide-IsAccounted m (score rule_id points) ctx h =
      accumulate-IsAccounted ctx m rule_id none points h
  decide-IsAccounted m (scores items) ctx h = accumulate_items-IsAccounted m items ctx [] h
  decide-IsAccounted m _ ctx h = h

  -- a property of the context that every module keeps holds after the loops
  module _ (P : RequestContext → Type 0)
      (keep : (m : WafModule W) (s : State W) → P s.ctx → P (run_module p m s).1.ctx) where
    and_then-keeps :
        (r : Option PipelineVerdict × State W) (go_on : State W → Option PipelineVerdict × State W)
        → P r.1.ctx
        → (P r.1.ctx → P (go_on r.1).1.ctx)
        → P (and_then r go_on).1.ctx
    unfolding and_then
    and_then-keeps (none, s) go_on h k = k h
    and_then-keeps (some v, s) go_on h k = h

    pub run_modules-keeps :
        (ms : List (WafModule W)) (s : State W) → P s.ctx → P (run_modules p ms s).1.ctx
    unfolding run_modules
    run_modules-keeps [] s h = h
    run_modules-keeps (m ∷ ms) s h =
        and_then-keeps (run_module p m s) (run_modules p ms) (keep m s h)
          (run_modules-keeps ms (run_module p m s).1)

    pub run_loop-keeps :
        (only : Bool) (phases : List Phase) (s : State W)
        → P s.ctx
        → P (run_loop p only phases s).1.ctx
    unfolding run_loop
    run_loop-keeps only [] s h = h
    run_loop-keeps only (phase ∷ phases) s h =
        let r = run_modules p (selected p only phase) s in
        and_then-keeps r (run_loop p only phases) (run_modules-keeps (selected p only phase) s h)
          (run_loop-keeps only phases r.1)

  -- Whatever the modules decide and in either mode, a run that starts with a score equal to the sum
  -- of the recorded contributions (modulo 2 ^ 32) ends with one.
  pub run-IsAccounted : (s : State W) → IsAccounted s.ctx → IsAccounted (run p s).1.ctx
  unfolding run run_phases run_phases_filtered log_decision
  run-IsAccounted s h = run_loop-keeps IsAccounted keep false phase_order s h
    where
      keep :
          (m : WafModule W) (t : State W) → IsAccounted t.ctx → IsAccounted (run_module p m t).1.ctx
      keep m t k = unfold run_module in decide-IsAccounted m.id _ t.ctx k
