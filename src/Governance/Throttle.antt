-- ===== src/Governance/Throttle.antt =====
-- crates/waf-governance/src/throttle.rs: logins are refused for a while after repeated failures.
--
-- A time is its number of nanoseconds, and so is a duration; `new` is given seconds below 2 ^ 63, where
-- the cast to `i64` keeps the value, and a time that is computed is one that an `OffsetDateTime` holds, where
-- the arithmetic of times does not panic. The lock of the map is held for the whole of each operation.
pub mod Lockout
pub mod Release
use light_waf.Prelude.{
  ℕ, ◌+◌, ◌*◌, ◌^◌, ◌%◌, Bool, false, not, Option, none, some, List, [], ◌∷◌, ◌++◌, Bytes, filterb,
  length, leb, ltb, if◌then◌else◌,
}
use light_waf.Prelude.Dict
use light_waf.Prelude.Dict.{Dict}

pub record Attempts : Type 0 where
  pub failures : List ℕ
  pub locked_until : Option ℕ

-- the derived `Default`
abbrev pub no_attempts : Attempts
no_attempts = record { failures = []; locked_until = none }

pub record LoginThrottle : Type 0 where
  pub max_failures : ℕ
  pub window : ℕ
  pub lockout : ℕ
  pub state : Dict Attempts

abbrev pub seconds : ℕ → ℕ
seconds n = n * 10 ^ 9

-- `LoginThrottle::new`, for seconds below 2 ^ 63
unfoldable pub new_throttle : ℕ → ℕ → ℕ → LoginThrottle
new_throttle max_failures window_secs lockout_secs = record {
  max_failures = max_failures;
  window = seconds window_secs;
  lockout = seconds lockout_secs;
  state = [];
}

-- what the entry of a key holds, or a new entry
unfoldable pub or_default : Option Attempts → Attempts
or_default none = no_attempts
or_default (some a) = a

-- `matches!(until, Some(until) if until > now)`
unfoldable pub is_locked : Option ℕ → ℕ → Bool
is_locked none now = false
is_locked (some until) now = ltb now until

-- a key without an entry has no lock
unfoldable pub allowed : LoginThrottle → Bytes → ℕ → Bool
unfolding or_default is_locked
allowed t key now = not (is_locked (or_default (Dict.get key t.state)).locked_until now)

-- the entry after a failure; a time counts where it is after `now - window`
unfoldable pub fail : ℕ → ℕ → ℕ → ℕ → Attempts → Attempts
fail max_failures window lockout now a =
    let failures = filterb (λ t. ltb now (t + window)) a.failures ++ (now ∷ []) in
    if leb max_failures (length failures % 2 ^ 32)
    then record { failures = []; locked_until = some (now + lockout) }
    else record { failures = failures; locked_until = a.locked_until }

unfoldable pub record_failure : LoginThrottle → Bytes → ℕ → LoginThrottle
unfolding or_default fail
record_failure t key now = record t {
  state =
      Dict.set key (fail t.max_failures t.window t.lockout now (or_default (Dict.get key t.state)))
        t.state;
}

unfoldable pub record_success : LoginThrottle → Bytes → LoginThrottle
record_success t key = record t { state = Dict.remove key t.state }
