-- ===== src/Pipeline/Compose.antt =====
-- Phases compose: the connection phase and then the others on the state that it leaves are the whole
-- pipeline. What a caller does to the request in between is left out.
use light_waf.Prelude.{
  Bool, false, Option, none, some, List, [], ◌∷◌, Bytes, ◌≡◌, ◌≢◌, refl, sym, if◌then◌else◌, arith,
}
use light_waf.Core.Decision.{Decision, Phase, connection}
use light_waf.Core.Request.{RequestContext}
use light_waf.Core.Config.{detection_only}
use light_waf.Pipeline.Verdict.{PipelineVerdict}
use light_waf.Pipeline.Modes.{run_loop-observe_all}
use light_waf.Pipeline.{
  WafModule, Pipeline, State, and_then, decide, run_module, run_modules, selected, run_loop,
  conclude, run_phases_filtered, run_phases, phase_order, inspection_phases, log_decision, is_allow,
  run, run_connection, run_inspection,
}

module _ {W : Type 0} where
  pub and_then_assoc :
      (r : Option PipelineVerdict × State W) (f g : State W → Option PipelineVerdict × State W)
      → and_then (and_then r f) g ≡ and_then r (λ s. and_then (f s) g)
  unfolding and_then
  and_then_assoc (none, s) f g = refl
  and_then_assoc (some v, s) f g = refl

module _ {W : Type 0} (p : Pipeline W) where
  -- a verdict that ends the loops is never to allow
  abbrev Stops : Option PipelineVerdict → Type 0
  Stops found = found ≢ some PipelineVerdict.allow

  decide-Stops :
      (module_id : Bytes) (d : Decision) (ctx : RequestContext) → Stops (decide p module_id d ctx).0
  unfolding decide
  decide-Stops module_id _ ctx = λ e. ground arith

  and_then-Stops :
      (r : Option PipelineVerdict × State W) (go_on : State W → Option PipelineVerdict × State W)
      → Stops r.0
      → Stops (go_on r.1).0
      → Stops (and_then r go_on).0
  unfolding and_then
  and_then-Stops (none, s) go_on h k = k
  and_then-Stops (some v, s) go_on h k = h

  run_modules-Stops : (ms : List (WafModule W)) (s : State W) → Stops (run_modules p ms s).0
  unfolding run_modules run_module
  run_modules-Stops [] s = λ e. cc
  run_modules-Stops (m ∷ ms) s =
      and_then-Stops (run_module p m s) (run_modules p ms) (decide-Stops _ _ s.ctx)
        (run_modules-Stops ms (run_module p m s).1)

  run_loop-Stops :
      (only : Bool) (phases : List Phase) (s : State W) → Stops (run_loop p only phases s).0
  unfolding run_loop
  run_loop-Stops only [] s = λ e. cc
  run_loop-Stops only (phase ∷ phases) s =
      let r = run_modules p (selected p only phase) s in
      and_then-Stops r (run_loop p only phases) (run_modules-Stops (selected p only phase) s)
        (run_loop-Stops only phases r.1)

  -- the phase order is the connection phase, and then the inspection phases
  run_loop-phase_order :
      (s : State W)
      → run_loop p false phase_order s
        ≡ and_then (run_loop p false (connection ∷ []) s) (run_loop p false inspection_phases)
  unfolding run_loop and_then
  run_loop-phase_order s = sym (
      and_then_assoc (run_modules p (selected p false connection) s) (λ t. (none, t))
        (run_loop p false inspection_phases))

  conclude-none : conclude p none ≡ PipelineVerdict.allow
  unfolding conclude
  conclude-none = ground arith

  conclude-some : (v : PipelineVerdict) → p.mode ≢ detection_only → conclude p (some v) ≡ v
  unfolding conclude
  conclude-some v h = ground arith

  -- `run_inspection` where `run_connection` has allowed, on the state that it leaves
  abbrev pub resume : PipelineVerdict × State W → PipelineVerdict × State W
  resume (PipelineVerdict.allow, s) = run_inspection p s
  resume (PipelineVerdict.block rule_id reason, s) = (PipelineVerdict.block rule_id reason, s)
  resume (PipelineVerdict.reject rule_id reason status retry_after, s) =
      (PipelineVerdict.reject rule_id reason status retry_after, s)

  abbrev finished : Option PipelineVerdict × State W → PipelineVerdict × State W
  finished (found, s) = (conclude p found, log_decision p (conclude p found) s)

  abbrev after_connection : Option PipelineVerdict × State W → PipelineVerdict × State W
  after_connection (found, s) =
      let v = conclude p found in (v, if is_allow v then s else log_decision p v s)

  resume-after_connection :
      (r : Option PipelineVerdict × State W)
      → Stops r.0
      → (p.mode ≡ detection_only → r.0 ≡ none)
      → finished (and_then r (run_loop p false inspection_phases)) ≡ resume (after_connection r)
  unfolding and_then run_inspection run_phases run_phases_filtered is_allow
  resume-after_connection (none, s) stops obs = rw conclude-none
  resume-after_connection (some PipelineVerdict.allow, s) stops obs = absurd (stops refl)
  resume-after_connection (some (PipelineVerdict.block a b), s) stops obs =
      rw (conclude-some _ (λ e. cc (obs e)))
  resume-after_connection (some (PipelineVerdict.reject a b c d), s) stops obs =
      rw (conclude-some _ (λ e. cc (obs e)))

  -- `run_connection`, and then `run_inspection` on the state that it leaves if it has allowed, give the
  -- verdict, the state and the decision log of one whole run.
  pub run-run_connection : (s : State W) → run p s ≡ resume (run_connection p s)
  unfolding run run_connection run_phases run_phases_filtered
  run-run_connection s =
      let first = connection ∷ [] in
      rw (run_loop-phase_order s) (
        resume-after_connection (run_loop p false first s) (run_loop-Stops false first s)
          (λ e. cc (run_loop-observe_all p e false first s)))
