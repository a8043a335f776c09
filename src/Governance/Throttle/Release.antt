-- ===== src/Governance/Throttle/Release.antt =====
-- No key stays locked: whatever has happened, the lockout after the last of it every key is allowed.
use light_waf.Prelude.{
  ℕ, ◌+◌, ◌^◌, ◌%◌, ◌≤◌, true, false, not, Option, none, some, List, [], ◌∷◌, ◌++◌, Bytes, ◌≡◌,
  refl, arith, All, filterb, length, leb, ltb, Bool-cases, inl, inr, subst, sym, ap,
}
use light_waf.Prelude.Dict
use light_waf.Prelude.Dict.{Dict, Values, Values-get, Values-set, Values-remove, OnSome}
use light_waf.Governance.Throttle.{
  Attempts, LoginThrottle, seconds, new_throttle, or_default, is_locked, allowed, fail,
  record_failure, record_success,
}

-- what a login reports to the throttle
pub data Event : Type 0 where
  failure : Bytes → ℕ → Event
  success : Bytes → Event

abbrev pub step : LoginThrottle → Event → LoginThrottle
step t (failure key now) = record_failure t key now
step t (success key) = record_success t key

unfoldable pub run_events : LoginThrottle → List Event → LoginThrottle
run_events t [] = t
run_events t (e ∷ events) = run_events (step t e) events

-- the failures are no later than `last`
abbrev pub IsUpTo : ℕ → Event → Type 0
IsUpTo last (failure key now) = now ≤ last
IsUpTo last (success key) = Unit

-- no lock ends later than `bound`
abbrev EndsBy : ℕ → Attempts → Type 0
EndsBy bound a = OnSome (λ until. until ≤ bound) a.locked_until

abbrev AllEndBy : ℕ → LoginThrottle → Type 0
AllEndBy bound t = Values (EndsBy bound) t.state

fail-EndsBy :
    (max_failures window lockout now last : ℕ) (a : Attempts)
    → now ≤ last
    → EndsBy (last + lockout) a
    → EndsBy (last + lockout) (fail max_failures window lockout now a)
unfolding fail
fail-EndsBy max_failures window lockout now last a h e =
    elim (Bool-cases (
      leb max_failures
        (length (filterb (λ t. ltb now (t + window)) a.failures ++ (now ∷ [])) % 2 ^ 32))) [
          | inl y ↦ rw y (omega arith)
          | inr n ↦ rw n e
        ]

or_default-EndsBy :
    (bound : ℕ) (o : Option Attempts) → OnSome (EndsBy bound) o → EndsBy bound (or_default o)
unfolding or_default
or_default-EndsBy bound none e = tt
or_default-EndsBy bound (some a) e = e

step-AllEndBy :
    (t : LoginThrottle) (e : Event) (last : ℕ)
    → IsUpTo last e
    → AllEndBy (last + t.lockout) t
    → AllEndBy (last + t.lockout) (step t e)
unfolding record_failure record_success
step-AllEndBy t (failure key now) last h a =
    Values-set (EndsBy (last + t.lockout)) key _ t.state
      (fail-EndsBy t.max_failures t.window t.lockout now last (or_default (Dict.get key t.state)) h
        (or_default-EndsBy (last + t.lockout) (Dict.get key t.state)
          (Values-get (EndsBy (last + t.lockout)) key t.state a)))
      a
step-AllEndBy t (success key) last h a = Values-remove (EndsBy (last + t.lockout)) key t.state a

lockout-step : (t : LoginThrottle) (e : Event) → (step t e).lockout ≡ t.lockout
unfolding record_failure record_success
lockout-step t (failure key now) = refl
lockout-step t (success key) = refl

run_events-AllEndBy :
    (t : LoginThrottle) (last bound : ℕ) (events : List Event)
    → All (IsUpTo last) events
    → last + t.lockout ≡ bound
    → AllEndBy bound t
    → AllEndBy bound (run_events t events)
unfolding run_events
run_events-AllEndBy t last bound [] h e a = a
run_events-AllEndBy t last bound (x ∷ events) h e a =
    run_events-AllEndBy (step t x) last bound events h.1 (rw (lockout-step t x) e) (
      subst (λ b. AllEndBy b (step t x)) e
        (step-AllEndBy t x last h.0 (subst (λ b. AllEndBy b t) (sym e) a)))

is_locked-OnSome :
    (o : Option ℕ) (bound at : ℕ)
    → OnSome (λ until. until ≤ bound) o
    → bound ≤ at
    → is_locked o at ≡ false
unfolding is_locked
is_locked-OnSome none bound at h b = refl
is_locked-OnSome (some until) bound at h b = ground arith

-- Start a throttle with any limits and let it take any sequence of failures and successes, of any keys,
-- none of the failures later than `last`. From `lockout_secs` seconds after `last` on, it allows a
-- login under every key.
pub allowed-run_events :
    (max_failures window_secs lockout_secs last at : ℕ) (events : List Event) (key : Bytes)
    → All (IsUpTo last) events
    → last + seconds lockout_secs ≤ at
    → allowed (run_events (new_throttle max_failures window_secs lockout_secs) events) key at ≡ true
unfolding allowed new_throttle
allowed-run_events max_failures window_secs lockout_secs last at events key h b =
    let bound = last + seconds lockout_secs in
    let start = new_throttle max_failures window_secs lockout_secs in
    let final = run_events start events in
    let entry = or_default (Dict.get key final.state) in
    let ends = or_default-EndsBy bound (Dict.get key final.state) (
      Values-get (EndsBy bound) key final.state
        (run_events-AllEndBy start last bound events h refl tt)) in
    ap not (is_locked-OnSome entry.locked_until bound at ends b)
