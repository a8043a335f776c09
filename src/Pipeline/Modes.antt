-- ===== src/Pipeline/Modes.antt =====
-- Detection-only mode: nothing stops the chain, and every request is let through.
use light_waf.Prelude.{
  Bool, false, none, Option, some, List, [], ◌∷◌, ◌++◌, Bytes, ◌≡◌, refl, ◌∙◌, arith,
}
use light_waf.Core.Decision.{Decision, allow, block, monitor, score, scores, reject, Phase}
use light_waf.Core.Config.{detection_only}
use light_waf.Core.Request.{RequestContext}
use light_waf.Pipeline.Verdict.{PipelineVerdict}
use light_waf.Pipeline.{
  WafModule, Pipeline, State, and_then, accumulate, accumulate_items, threshold_check, decide,
  run_module, run_modules, run_loop, selected, run_phases_filtered, run_phases, phase_order,
  log_decision, run,
}

pub and_then-none :
    {W : Type 0} (r : Option PipelineVerdict × State W)
    (go_on : State W → Option PipelineVerdict × State W)
    → r.0 ≡ none
    → and_then r go_on ≡ go_on r.1
unfolding and_then
and_then-none (none, s) go_on h = refl
and_then-none (some v, s) go_on h = cc

module _ {W : Type 0} where
  pub and_then-congr :
      (r : Option PipelineVerdict × State W) (f g : State W → Option PipelineVerdict × State W)
      → f r.1 ≡ g r.1
      → and_then r f ≡ and_then r g
  unfolding and_then
  and_then-congr (none, s) f g h = h
  and_then-congr (some v, s) f g h = refl

module _ {W : Type 0} (p : Pipeline W) where
  -- every module in turn, whatever it decides
  abbrev pub observe_all : List (WafModule W) → State W → State W
  observe_all [] s = s
  observe_all (m ∷ ms) s = observe_all ms (run_module p m s).1

  -- the modules of some phases, phase by phase
  abbrev pub schedule : Bool → List Phase → List (WafModule W)
  schedule only [] = []
  schedule only (phase ∷ phases) = selected p only phase ++ schedule only phases

  pub observe_all-append :
      (ms ns : List (WafModule W)) (s : State W)
      → observe_all (ms ++ ns) s ≡ observe_all ns (observe_all ms s)
  observe_all-append [] ns s = refl
  observe_all-append (m ∷ ms) ns s = observe_all-append ms ns (run_module p m s).1

  module _ (observing : p.mode ≡ detection_only) where
    threshold_check-none :
        (ctx : RequestContext) (rule_id : Bytes) → threshold_check p ctx rule_id ≡ none
    unfolding threshold_check
    threshold_check-none ctx rule_id = ground arith

    decide-none :
        (module_id : Bytes) (d : Decision) (ctx : RequestContext)
        → (decide p module_id d ctx).0 ≡ none
    unfolding decide
    decide-none module_id allow ctx = refl
    decide-none module_id (monitor rule_id) ctx = refl
    decide-none module_id (score rule_id points) ctx =
        threshold_check-none (accumulate ctx module_id rule_id none points) rule_id
    decide-none module_id (scores items) ctx =
        let (ctx', last) = accumulate_items p module_id items ctx [] in
        threshold_check-none ctx' last
    decide-none module_id (block rule_id reason) ctx = ground arith
    decide-none module_id (reject rule_id reason status retry_after) ctx = ground arith

    run_module-none : (m : WafModule W) (s : State W) → (run_module p m s).0 ≡ none
    unfolding run_module
    run_module-none m s = decide-none _ _ s.ctx

    run_modules-observe_all :
        (ms : List (WafModule W)) (s : State W) → run_modules p ms s ≡ (none, observe_all ms s)
    unfolding run_modules
    run_modules-observe_all [] s = refl
    run_modules-observe_all (m ∷ ms) s =
        and_then-none (run_module p m s) (run_modules p ms) (run_module-none m s)
        ∙ run_modules-observe_all ms (run_module p m s).1

    pub run_loop-observe_all :
        (only : Bool) (phases : List Phase) (s : State W)
        → run_loop p only phases s ≡ (none, observe_all (schedule only phases) s)
    unfolding run_loop and_then
    run_loop-observe_all only [] s = refl
    run_loop-observe_all only (phase ∷ phases) s =
        let ms = selected p only phase in
        rw (run_modules-observe_all ms s, observe_all-append ms)
          (run_loop-observe_all only phases (observe_all ms s))

    -- In detection-only mode the verdict is to allow, and the state is what all modules of all
    -- phases in order make of it, with one entry in the decision log.
    pub run-detection_only :
        (s : State W)
        → run p s ≡ (
          PipelineVerdict.allow,
          log_decision p PipelineVerdict.allow (observe_all (schedule false phase_order) s),
        )
    unfolding run run_phases run_phases_filtered
    run-detection_only s = rw (run_loop-observe_all false phase_order s) (ground arith)
