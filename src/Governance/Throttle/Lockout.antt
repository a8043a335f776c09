-- ===== src/Governance/Throttle/Lockout.antt =====
-- Enough failures within the window lock a key, and no other key, until the lockout is over.
use light_waf.Prelude.{
  ℕ, suc, ◌+◌, ◌%◌, ◌^◌, ◌≤◌, ◌<◌, true, false, not, some, List, [], ◌∷◌, ◌++◌, Bytes, ◌=bytes◌,
  ◌≡◌, ◌↔◌, refl, sym, subst, ap, ◌∙◌, arith, All, filterb, length, length-append, leb, ltb,
}
use light_waf.Prelude.Dict
use light_waf.Prelude.Dict.{Dict}
use light_waf.Governance.Throttle.{
  Attempts, LoginThrottle, or_default, is_locked, allowed, fail, record_failure,
}

-- the entry of a key
abbrev pub attempts_of : LoginThrottle → Bytes → Attempts
attempts_of t key = or_default (Dict.get key t.state)

pub attempts_of-record_failure :
    (t : LoginThrottle) (key : Bytes) (now : ℕ)
    → attempts_of (record_failure t key now) key
      ≡ fail t.max_failures t.window t.lockout now (attempts_of t key)
unfolding record_failure
attempts_of-record_failure t key now =
    ap or_default (Dict.get-set key _ t.state) ∙ unfold or_default in refl

pub attempts_of-record_failure_other :
    (t : LoginThrottle) (key other : Bytes) (now : ℕ)
    → (key =bytes other) ≡ false
    → attempts_of (record_failure t key now) other ≡ attempts_of t other
unfolding record_failure
attempts_of-record_failure_other t key other now h =
    ap or_default (Dict.get-set_other other key _ t.state h)

-- a login that fails again and again, at the times given
unfoldable pub fail_all : LoginThrottle → Bytes → List ℕ → LoginThrottle
fail_all t key [] = t
fail_all t key (now ∷ times) = fail_all (record_failure t key now) key times

-- within one window, from `start` on
abbrev pub Within : ℕ → ℕ → ℕ → Type 0
Within start window t = (start ≤ t) × (t < start + window)

keep-All :
    (start window now : ℕ) (times : List ℕ)
    → now < start + window
    → All (Within start window) times
    → filterb (λ t. ltb now (t + window)) times ≡ times
keep-All start window now [] h a = refl
keep-All start window now (t ∷ times) h a = rw (kept t a.0, keep-All start window now times h a.1)
  where
    kept : (t : ℕ) → Within start window t → ltb now (t + window) ≡ true
    kept t w = ground arith

module _ (max_failures window lockout start : ℕ) (fits : max_failures < 2 ^ 32) where
  fail-below :
      (now : ℕ) (a : Attempts)
      → Within start window now
      → All (Within start window) a.failures
      → suc (length a.failures) < max_failures
      → fail max_failures window lockout now a
        ≡ record { failures = a.failures ++ (now ∷ []); locked_until = a.locked_until }
  unfolding fail
  fail-below now a w all_within few =
      rw
        (
          keep-All start window now a.failures w.1 all_within,
          under (length (a.failures ++ (now ∷ [])))
              (omega (arith, length-append a.failures (now ∷ []))),
        )
        refl
    where
      under : (n : ℕ) → n < max_failures → leb max_failures (n % 2 ^ 32) ≡ false
      under n h = let small : n % 2 ^ 32 ≡ n = omega arith in rw small (ground arith)

  fail-reached :
      (now : ℕ) (a : Attempts)
      → Within start window now
      → All (Within start window) a.failures
      → suc (length a.failures) ≡ max_failures
      → fail max_failures window lockout now a
        ≡ record { failures = []; locked_until = some (now + lockout) }
  unfolding fail
  fail-reached now a w all_within enough =
      rw
        (
          keep-All start window now a.failures w.1 all_within,
          reached (length (a.failures ++ (now ∷ [])))
              (omega (arith, length-append a.failures (now ∷ []))),
        )
        refl
    where
      reached : (n : ℕ) → n ≡ max_failures → leb max_failures (n % 2 ^ 32) ≡ true
      reached n h = let small : n % 2 ^ 32 ≡ n = omega arith in rw small (ground arith)

All-snoc {ℓ κ} :
    {A : Type ℓ} (P : A → Type κ) (xs : List A) (x : A) → All P xs → P x → All P (xs ++ (x ∷ []))
All-snoc P [] x a p = (p, tt)
All-snoc P (y ∷ xs) x a p = (a.0, All-snoc P xs x a.1 p)

-- the last of some times
abbrev pub last_of : ℕ → List ℕ → ℕ
last_of t [] = t
last_of t (u ∷ times) = last_of u times

attempts_of-fail_all :
    (t : LoginThrottle) (key : Bytes) (start : ℕ) (a : Attempts) (now : ℕ) (times : List ℕ)
    → t.max_failures < 2 ^ 32
    → attempts_of t key ≡ a
    → All (Within start t.window) a.failures
    → All (Within start t.window) (now ∷ times)
    → suc (length a.failures + length times) ≡ t.max_failures
    → attempts_of (fail_all t key (now ∷ times)) key
      ≡ record { failures = []; locked_until = some (last_of now times + t.lockout) }
unfolding fail_all record_failure
attempts_of-fail_all t key start a now [] fits at past h count =
    attempts_of-record_failure t key now
    ∙ ap (fail t.max_failures t.window t.lockout now) at
    ∙ fail-reached t.max_failures t.window t.lockout start fits now a h.0 past (omega arith)
attempts_of-fail_all t key start a now (next ∷ times) fits at past h count =
    attempts_of-fail_all (record_failure t key now) key start
      (record { failures = a.failures ++ (now ∷ []); locked_until = a.locked_until }) next times
      fits
      (attempts_of-record_failure t key now
        ∙ ap (fail t.max_failures t.window t.lockout now) at
        ∙ fail-below t.max_failures t.window t.lockout start fits now a h.0 past (omega arith))
      (All-snoc (Within start t.window) a.failures now past h.0) h.1
      (omega (arith, length-append a.failures (now ∷ [])))

attempts_of-fail_all_other :
    (t : LoginThrottle) (key other : Bytes) (times : List ℕ)
    → (key =bytes other) ≡ false
    → attempts_of (fail_all t key times) other ≡ attempts_of t other
unfolding fail_all
attempts_of-fail_all_other t key other [] h = refl
attempts_of-fail_all_other t key other (now ∷ times) h =
    attempts_of-fail_all_other (record_failure t key now) key other times h
    ∙ attempts_of-record_failure_other t key other now h

allowed_iff : (until now : ℕ) → (not (is_locked (some until) now) ≡ true) ↔ (until ≤ now)
unfolding is_locked
allowed_iff until now = ground arith

-- A key that has no failures on record and then fails `max_failures` times (fewer than 2 ^ 32) within
-- one window is allowed a login again exactly from the lockout after the last failure on; whether
-- another key is allowed a login does not change.
pub allowed-fail_all :
    (t : LoginThrottle) (key other : Bytes) (start now : ℕ) (times : List ℕ) (at : ℕ)
    → t.max_failures < 2 ^ 32
    → (attempts_of t key).failures ≡ []
    → All (Within start t.window) (now ∷ times)
    → length (now ∷ times) ≡ t.max_failures
    → (key =bytes other) ≡ false
    → ((allowed (fail_all t key (now ∷ times)) key at ≡ true)
        ↔ (last_of now times + t.lockout ≤ at))
      × (allowed (fail_all t key (now ∷ times)) other at ≡ allowed t other at)
unfolding allowed
allowed-fail_all t key other start now times at fits none_yet h count ne = (
  subst
      (λ (a : Attempts).
        (not (is_locked a.locked_until at) ≡ true) ↔ (last_of now times + t.lockout ≤ at))
      (sym locked) (allowed_iff (last_of now times + t.lockout) at),
  ap (λ (a : Attempts). not (is_locked a.locked_until at))
      (attempts_of-fail_all_other t key other (now ∷ times) ne),
)
  where
    locked :
        attempts_of (fail_all t key (now ∷ times)) key
        ≡ record { failures = []; locked_until = some (last_of now times + t.lockout) }
    locked =
        attempts_of-fail_all t key start (attempts_of t key) now times fits refl (rw none_yet tt) h
          (rw none_yet (omega (arith, count)))
