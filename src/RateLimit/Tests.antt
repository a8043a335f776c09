-- ===== src/RateLimit/Tests.antt =====
-- The theorem on the cap, at whole numbers in place of floats.
use light_waf.Prelude.{
  ℕ, ◌+◌, ◌-◌, ◌*◌, ◌/◌, List, [], ◌∷◌, Bytes, codes, refl, arith, leb, inr, none, some,
  if◌then◌else◌,
}
use light_waf.RateLimit.{Floats, BucketParams, with_cap}
use light_waf.RateLimit.Capped.{answers, HasAnswers, answers-with_cap}

abbrev least : ℕ → ℕ → ℕ
least a b = if leb a b then a else b

abbrev whole : Floats
whole = record {
  F = ℕ;
  zero = 0;
  one = 1;
  add = λ a b. a + b;
  sub = λ a b. a - b;
  mul = λ a b. a * b;
  div = λ a b. (a + b - 1) / b;
  min = least;
  max = λ a b. if leb a b then b else a;
  ceil = λ a. a;
  le = leb;
  as_secs_f64 = λ n. n;
  from_secs_f64 = λ a. if leb a 1000000 then some a else none;
  as_u64 = λ a. a;
  of_u64 = λ n. n;
}

abbrev params : BucketParams whole
params = record { capacity = 10; refill_per_sec = 2 }

abbrev requests : List (ℕ × Bytes × ℕ)
requests =
    (0, codes "10.0.0.1", 7)
    ∷ (1, codes "10.0.0.2", 4)
    ∷ (9, codes "10.0.0.3", 1)
    ∷ (9, codes "10.0.0.1", 9)
    ∷ []

-- the keys of the first two requests are swept for the third, and the first of them is new for the fourth
answers-with_cap_example :
    HasAnswers whole params [] requests (answers whole params (with_cap whole 2) requests)
answers-with_cap_example = answers-with_cap whole params 2 0 requests (inr (5, refl)) (omega arith)
