-- ===== src/Pipeline/Gate.antt =====
-- The fast path: where no content module has anything to say on a request, skipping the content
-- modules changes nothing.
use light_waf.Prelude.{
  Bool, true, false, not, ◌&&◌, ◌||◌, List, [], ◌∷◌, Bytes, ◌≡◌, refl, ◌∙◌, All, filterb,
  if◌then◌else◌,
}
use light_waf.Core.Decision.{Decision, allow, scores, Phase, phase_eq, ScoreItem, returned}
use light_waf.Core.Request.{RequestContext}
use light_waf.Pipeline.Modes.{and_then-congr}
use light_waf.Pipeline.Score.{run_modules-keeps}
use light_waf.Pipeline.{
  WafModule, Pipeline, State, accumulate, accumulate_items, decide, contain, and_then, run_module,
  run_modules, run_loop, selected, run_phases_filtered, run_phases, inspection_phases,
  run_inspection, run_inspection_gated,
}

-- the request without its score: what a content rule may look at, and no module changes
abbrev pub surface : RequestContext → RequestContext
surface ctx = record ctx { score = 0; score_contributions = [] }

module _ {W : Type 0} where
  -- On this request, whatever its score, the module allows and leaves its world as it was.
  abbrev pub IsInertOn : RequestContext → WafModule W → Type 0
  IsInertOn request m =
      (ctx : RequestContext) (world : W)
      → surface ctx ≡ surface request
      → m.inspect ctx world ≡ (returned allow, world)

  -- what the prefilter has to establish before inspection is skipped
  abbrev pub ContentIsInertOn : RequestContext → WafModule W → Type 0
  ContentIsInertOn request m = m.structural ≡ false → IsInertOn request m

module _ {W : Type 0} (p : Pipeline W) where
  surface-accumulate_items :
      (m : Bytes) (items : List ScoreItem) (ctx : RequestContext) (last : Bytes)
      → surface (accumulate_items p m items ctx last).0 ≡ surface ctx
  unfolding accumulate_items
  surface-accumulate_items m [] ctx last = refl
  surface-accumulate_items m (item ∷ items) ctx last =
      surface-accumulate_items m items _ item.rule_id

  surface-decide :
      (m : Bytes) (d : Decision) (ctx : RequestContext) → surface (decide p m d ctx).1 ≡ surface ctx
  unfolding decide accumulate
  surface-decide m (scores items) ctx = surface-accumulate_items m items ctx []
  surface-decide m _ ctx = refl

  module _ (request : RequestContext) where
    -- one module of the loop, kept or skipped by the filter
    run_modules-skip :
        (in_phase structural : Bool) (m : WafModule W) (short full : List (WafModule W))
        (s : State W)
        → (structural ≡ false → IsInertOn request m)
        → surface s.ctx ≡ surface request
        → ((t : State W)
            → surface t.ctx ≡ surface request
            → run_modules p short t ≡ run_modules p full t)
        → run_modules p (if in_phase && (not true || structural) then m ∷ short else short) s
          ≡ run_modules p (if in_phase && (not false || structural) then m ∷ full else full) s
    unfolding run_modules run_module
    run_modules-skip false structural m short full s inert same rest = rest s same
    run_modules-skip true true m short full s inert same rest =
        and_then-congr (run_module p m s) (run_modules p short) (run_modules p full)
          (rest (run_module p m s).1 (surface-decide m.id _ s.ctx ∙ same))
    run_modules-skip true false m short full s inert same rest =
        rest s same
        ∙ rw (inert refl s.ctx s.world, run_module) (unfold and_then decide contain in refl)

    run_modules-selected :
        (phase : Phase) (ms : List (WafModule W)) (s : State W)
        → All (ContentIsInertOn request) ms
        → surface s.ctx ≡ surface request
        → run_modules p
            (filterb (λ (m : WafModule W). phase_eq m.phase phase && (not true || m.structural)) ms)
            s
          ≡ run_modules p
              (filterb
                (λ (m : WafModule W). phase_eq m.phase phase && (not false || m.structural))
                ms)
              s
    run_modules-selected phase [] s a same = refl
    run_modules-selected phase (m ∷ ms) s a same =
        run_modules-skip (phase_eq m.phase phase) m.structural m _ _ s a.0 same
          (λ t h. run_modules-selected phase ms t a.1 h)

    surface-run_module :
        (m : WafModule W) (t : State W)
        → surface t.ctx ≡ surface request
        → surface (run_module p m t).1.ctx ≡ surface request
    unfolding run_module
    surface-run_module m t h = surface-decide m.id _ t.ctx ∙ h

    run_loop-skip :
        (phases : List Phase) (s : State W)
        → All (ContentIsInertOn request) p.modules
        → surface s.ctx ≡ surface request
        → run_loop p true phases s ≡ run_loop p false phases s
    unfolding run_loop selected
    run_loop-skip [] s a same = refl
    run_loop-skip (phase ∷ phases) s a same =
        let r = run_modules p (selected p false phase) s in
        rw (run_modules-selected phase p.modules s a same) (
          and_then-congr r (run_loop p true phases) (run_loop p false phases) (
            run_loop-skip phases r.1 a (
              run_modules-keeps p (λ ctx. surface ctx ≡ surface request) surface-run_module
                (selected p false phase) s same)))

  -- Where every content module is inert on the request, the gate gives the same verdict, state and
  -- decision log whether or not inspection is skipped.
  pub run_inspection_gated-skip :
      (s : State W)
      → All (ContentIsInertOn s.ctx) p.modules
      → run_inspection_gated p false s ≡ run_inspection_gated p true s
  unfolding run_inspection_gated run_inspection run_phases run_phases_filtered
  run_inspection_gated-skip s a = rw (run_loop-skip s.ctx inspection_phases s a refl)
