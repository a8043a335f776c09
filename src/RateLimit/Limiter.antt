-- ===== src/RateLimit/Limiter.antt =====
-- crates/waf-detection/src/rate_limit.rs: the module that limits the rate of requests.
--
-- The store is the in-memory one, and its new state is passed on; `none` is a panic of the store. `to_string` of an address is a parameter.
use mathlib.Core.Option
use light_waf.Prelude.{ℕ, Bool, false, not, Option, none, some, Bytes, codes, if◌then◌else◌, ltb}
use light_waf.Core.Config.{Config, IpAddr, RateLimitAction, RateLimitKey}
use light_waf.Core.Decision.{Decision, allow, reject}
use light_waf.Core.Request.{RequestContext}
use light_waf.RateLimit.{Floats, BucketParams, Acquired, InMemoryStateStore, try_acquire}

pub record RateLimitModule (fl : Floats) : Type 0 where
  pub enabled : Bool
  pub params : BucketParams fl
  pub action : RateLimitAction
  pub score : ℕ
  pub key : RateLimitKey

-- `with_state`, before `init`
abbrev pub with_state : (fl : Floats) → RateLimitModule fl
with_state fl = record {
  enabled = false;
  params = record { capacity = fl.zero; refill_per_sec = fl.zero };
  action = RateLimitAction.block;
  score = 0;
  key = RateLimitKey.client_ip;
}

abbrev at_least_1 : ℕ → ℕ
at_least_1 n = if ltb n 1 then 1 else n

abbrev or_requests : Option ℕ → ℕ → ℕ
or_requests none requests = requests
or_requests (some burst) requests = burst

unfoldable pub init : (fl : Floats) → Config → RateLimitModule fl
init fl cfg = record {
  enabled = cfg.rate_limit.enabled;
  params = record {
    capacity = fl.of_u64 (at_least_1 (or_requests cfg.rate_limit.burst cfg.rate_limit.requests));
    refill_per_sec =
        fl.div (fl.of_u64 cfg.rate_limit.requests)
          (fl.of_u64 (at_least_1 cfg.rate_limit.window_seconds));
  };
  action = cfg.rate_limit.action;
  score = cfg.rate_limit.score;
  key = cfg.rate_limit.key;
}

unfoldable pub retry_after : (fl : Floats) → RateLimitModule fl → fl.F → ℕ
retry_after fl m tokens =
    if fl.le m.params.refill_per_sec fl.zero
    then 1
    else fl.as_u64 (fl.max (fl.ceil (fl.div (fl.sub fl.one tokens) m.params.refill_per_sec)) fl.one)

-- the decision over the budget, by the action
unfoldable pub over_budget : (fl : Floats) → RateLimitModule fl → RateLimitAction → fl.F → Decision
unfolding retry_after
over_budget fl m RateLimitAction.block tokens =
    reject (codes "rate-limit") (codes "rate limit exceeded") 429 (some (retry_after fl m tokens))
over_budget fl m RateLimitAction.score tokens = Decision.score (codes "rate-limit-exceeded") m.score

-- after the store's answer
unfoldable pub by_outcome :
    (fl : Floats)
    → RateLimitModule fl
    → Acquired fl × InMemoryStateStore fl
    → Decision × InMemoryStateStore fl
unfolding over_budget
by_outcome fl m (outcome, after) =
    if outcome.allowed
    then (allow, after)
    else (over_budget fl m m.action outcome.tokens_remaining, after)

unfoldable pub inspect :
    (fl : Floats)
    → (IpAddr → Bytes)
    → RateLimitModule fl
    → ℕ
    → RequestContext
    → InMemoryStateStore fl
    → Option (Decision × InMemoryStateStore fl)
unfolding by_outcome
inspect fl to_string m now ctx store =
    if not m.enabled
    then some (allow, store)
    else Option.map (by_outcome fl m)
        (try_acquire fl store now (to_string ctx.client_ip) fl.one m.params)
