-- ===== src/Pipeline/Panics.antt =====
-- Panic isolation: what a panicking module does to the request.
use light_waf.Prelude.{
  Bool, some, List, [], ◌∷◌, ◌++◌, Bytes, codes, ◌≡◌, refl, ap, ◌∙◌, map, filterb, if◌then◌else◌,
  true, false, ◌&&◌, ◌||◌, not,
}
use light_waf.Core.Decision.{
  ScoreItem, Decision, allow, scores, Phase, phase_eq, Inspected, returned, panicked,
}
use light_waf.Core.Config.{blocking, fail_open, fail_closed}
use light_waf.Core.Request.{RequestContext}
use light_waf.Pipeline.Verdict.{PipelineVerdict}
use light_waf.Pipeline.Modes.{and_then-congr}
use light_waf.Pipeline.{
  WafModule, Pipeline, State, accumulate_items, decide, on_panic, contain, and_then, run_module,
  run_modules, run_loop, selected, run_phases_filtered, run_phases, phase_order, conclude,
  log_decision, run,
}

-- a panic replaced by a decision
abbrev rescue_result : Inspected → Inspected
rescue_result (returned d) = returned d
rescue_result panicked = returned allow

-- the same module, with a handler around `inspect` that allows
abbrev pub rescue : {W : Type 0} → WafModule W → WafModule W
rescue m = record m {
  inspect =
      λ ctx world. let (result, world') = m.inspect ctx world in (rescue_result result, world');
}

module _ {W : Type 0} (p : Pipeline W) (available : p.on_internal_error ≡ fail_open) where
  abbrev pub rescued : Pipeline W
  rescued = record p { modules = map rescue p.modules }

  accumulate_items-rescue :
      (m : Bytes) (items : List ScoreItem) (ctx : RequestContext) (last : Bytes)
      → accumulate_items p m items ctx last ≡ accumulate_items rescued m items ctx last
  unfolding accumulate_items
  accumulate_items-rescue m [] ctx last = refl
  accumulate_items-rescue m (item ∷ items) ctx last = accumulate_items-rescue m items _ item.rule_id

  decide-rescue :
      (m : Bytes) (d : Decision) (ctx : RequestContext) → decide p m d ctx ≡ decide rescued m d ctx
  unfolding decide
  decide-rescue m (scores items) ctx = rw (accumulate_items-rescue m items ctx [])
  decide-rescue m _ ctx = refl

  contain-rescue :
      (m : Bytes) (result : Inspected)
      → contain p m result ≡ contain rescued m (rescue_result result)
  unfolding contain
  contain-rescue m (returned d) = refl
  contain-rescue m panicked = rw (available, on_panic)

  run_module-rescue :
      (m : WafModule W) (s : State W) → run_module p m s ≡ run_module rescued (rescue m) s
  unfolding run_module
  run_module-rescue m s =
      let result = (m.inspect s.ctx s.world).0 in
      rw (contain-rescue m.id result, decide-rescue m.id _ s.ctx)

  -- one module of the loop, kept or skipped by the filter
  run_modules-rescue_step :
      (kept : Bool) (m : WafModule W) (ms ns : List (WafModule W)) (s : State W)
      → ((t : State W) → run_modules p ms t ≡ run_modules rescued ns t)
      → run_modules p (if kept then m ∷ ms else ms) s
        ≡ run_modules rescued (if kept then rescue m ∷ ns else ns) s
  unfolding run_modules
  run_modules-rescue_step false m ms ns s rest = rest s
  run_modules-rescue_step true m ms ns s rest =
      let r = run_module p m s in
      and_then-congr r (run_modules p ms) (run_modules rescued ns) (rest r.1)
      ∙ ap (λ q. and_then q (run_modules rescued ns)) (run_module-rescue m s)

  abbrev wanted : Bool → Phase → WafModule W → Bool
  wanted only phase m = phase_eq m.phase phase && (not only || m.structural)

  run_modules-rescue :
      (only : Bool) (phase : Phase) (ms : List (WafModule W)) (s : State W)
      → run_modules p (filterb (wanted only phase) ms) s
        ≡ run_modules rescued (filterb (wanted only phase) (map rescue ms)) s
  unfolding run_modules
  run_modules-rescue only phase [] s = refl
  run_modules-rescue only phase (m ∷ ms) s =
      run_modules-rescue_step (wanted only phase m) m _ _ s (run_modules-rescue only phase ms)

  run_loop-rescue :
      (only : Bool) (phases : List Phase) (s : State W)
      → run_loop p only phases s ≡ run_loop rescued only phases s
  unfolding run_loop selected
  run_loop-rescue only [] s = refl
  run_loop-rescue only (phase ∷ phases) s =
      let r = run_modules p (selected p only phase) s in
      and_then-congr r (run_loop p only phases) (run_loop rescued only phases)
        (run_loop-rescue only phases r.1)
      ∙ ap (λ q. and_then q (run_loop rescued only phases))
          (run_modules-rescue only phase p.modules s)

  -- Under the fail-open policy, a run is the run of a pipeline in which every module that panics
  -- allows instead: no panic ends the request or changes what the other modules do.
  pub run-rescue : (s : State W) → run p s ≡ run rescued s
  unfolding run run_phases run_phases_filtered conclude log_decision
  run-rescue s = rw (run_loop-rescue false phase_order s)

module _ {W : Type 0} (p : Pipeline W) (secure : p.on_internal_error ≡ fail_closed)
    (enforcing : p.mode ≡ blocking) where
  -- Under the fail-closed policy in blocking mode, a module that panics ends the loops with a block,
  -- which leaves the request's score as it was.
  pub run_module-panicked :
      (m : WafModule W) (s : State W) (world' : W)
      → m.inspect s.ctx s.world ≡ (panicked, world')
      → run_module p m s ≡ (
        some (
            PipelineVerdict.block
              (codes "internal-error")
              (codes "module " ++ m.id ++ codes " panicked")),
        record s { world = world' },
      )
  unfolding run_module contain decide
  run_module-panicked m s world' h = rw (h, secure, enforcing)
