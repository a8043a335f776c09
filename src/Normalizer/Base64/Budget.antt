-- ===== src/Normalizer/Base64/Budget.antt =====
-- The base64 channel stays within its budget: it ends, and each variant it adds costs a unit.
use light_waf.Prelude.{
  ℕ, zero, suc, ◌+◌, ◌≤◌, false, List, [], ◌∷◌, ◌++◌, ◌≡◌, refl, ap, arith, Bytes, length,
  length-append, Option-cases, inl, inr,
}
use light_waf.Prelude.Utf8.{from_utf8_lossy}
use light_waf.Normalizer.Percent.{percent_overlong_fixpoint}
use light_waf.Normalizer.Percent.Fixpoint.{percent_overlong_fixpoint-Converged}
use light_waf.Normalizer.Canonical.{TextOps}
use light_waf.Normalizer.Base64.{decode_candidate, Expanded, expand_loop, expand_base64}

budget-le :
    (decoded : Bytes) (budget : ℕ)
    → (percent_overlong_fixpoint decoded false budget).budget ≤ budget
budget-le decoded budget =
    omega (arith, (percent_overlong_fixpoint-Converged decoded false budget).0)

module _ (ops : TextOps) where
  -- more fuel than budget makes no difference
  expand_loop-fuel :
      (f g : ℕ) (value : Bytes) (budget : ℕ) (out : List Bytes)
      → budget ≤ f
      → budget ≤ g
      → expand_loop ops f value budget out ≡ expand_loop ops g value budget out
  unfolding expand_loop
  expand_loop-fuel zero zero value budget out h k = refl
  expand_loop-fuel zero (suc g) value zero out h k = refl
  expand_loop-fuel zero (suc g) value (suc budget) out h k = absurd (omega arith)
  expand_loop-fuel (suc f) zero value zero out h k = refl
  expand_loop-fuel (suc f) zero value (suc budget) out h k = absurd (omega arith)
  expand_loop-fuel (suc f) (suc g) value zero out h k = refl
  expand_loop-fuel (suc f) (suc g) value (suc budget) out h k =
      elim (Option-cases (decode_candidate value)) [
        | inl stop ↦ rw (stop, expand_loop)
        | inr (decoded, e) ↦
            let d = percent_overlong_fixpoint decoded false budget in
            let fits = budget-le decoded budget in
            rw (e, expand_loop)
              (ap
                (λ (x : Expanded). record {
                  budget = x.budget;
                  out = x.out ++ (ops.nfkc (from_utf8_lossy d.bytes) ∷ []);
                })
                (expand_loop-fuel f g (ops.nfkc (from_utf8_lossy d.bytes)) d.budget out
                  (omega arith) (omega arith)))
      ]

  expand_loop-spent :
      (f : ℕ) (value : Bytes) (budget : ℕ) (out : List Bytes)
      → length (expand_loop ops f value budget out).out
          + (expand_loop ops f value budget out).budget
        ≤ length out + budget
  unfolding expand_loop
  expand_loop-spent zero value budget out = omega arith
  expand_loop-spent (suc f) value zero out = omega arith
  expand_loop-spent (suc f) value (suc budget) out = elim (Option-cases (decode_candidate value)) [
    | inl stop ↦ rw (stop, expand_loop) (omega arith)
    | inr (decoded, e) ↦
        let d = percent_overlong_fixpoint decoded false budget in
        let canon = ops.nfkc (from_utf8_lossy d.bytes) in
        rw (e, expand_loop)
          (omega (
            arith,
            budget-le decoded budget,
            length-append (expand_loop ops f canon d.budget out).out (canon ∷ []),
            expand_loop-spent f canon d.budget out,
          ))
  ]

  -- The recursion ends by itself within the budget: the fuel that `expand_base64` is run with gives
  -- what any larger fuel gives. Each variant pushed has cost at least a unit of the budget.
  pub expand_base64-budget :
      (value : Bytes) (budget fuel : ℕ) (out : List Bytes)
      → budget ≤ fuel
      → (expand_loop ops fuel value budget out ≡ expand_base64 ops value budget out)
        × (length (expand_base64 ops value budget out).out
              + (expand_base64 ops value budget out).budget
            ≤ length out + budget)
  unfolding expand_base64
  expand_base64-budget value budget fuel out h = (
    expand_loop-fuel fuel budget value budget out h (omega arith),
    expand_loop-spent budget value budget out,
  )
