-- ===== src/RateLimit.antt =====
-- crates/waf-core/src/state.rs, the in-memory store of token buckets, and
-- crates/waf-detection/src/rate_limit.rs, the module that draws on it.
--
-- An instant and a duration are numbers of nanoseconds, and the clock's reading is an argument. The lock
-- is held for the whole of an acquire, so an acquire is one step. The arithmetic of `f64` and the conversions
-- between an `f64` and a duration are a parameter. A panic is `none`: it poisons the lock, so that there is no
-- store after it.
pub mod Sweep
pub mod Capped
pub mod Limiter
pub mod Tests
use light_waf.Prelude.{
  ℕ, ◌-◌, Bool, true, false, not, ◌&&◌, Option, none, some, List, [], ◌∷◌, Bytes, codes, filterb,
  length, leb, ltb, if◌then◌else◌,
}
use light_waf.Prelude.Dict
use light_waf.Prelude.Dict.{Dict}

-- `f64`, and what of it the store and the module use; `le a b` is `a <= b`, and `from_secs_f64` panics for what
-- no duration holds
pub record Floats : Type 1 where
  pub F : Type 0
  pub zero : F
  pub one : F
  pub add : F → F → F
  pub sub : F → F → F
  pub mul : F → F → F
  pub div : F → F → F
  pub min : F → F → F
  pub max : F → F → F
  pub ceil : F → F
  pub le : F → F → Bool
  pub as_secs_f64 : ℕ → F
  pub from_secs_f64 : F → Option ℕ
  pub as_u64 : F → ℕ
  pub of_u64 : ℕ → F

pub record BucketParams (fl : Floats) : Type 0 where
  pub capacity : fl.F
  pub refill_per_sec : fl.F

pub record Acquired (fl : Floats) : Type 0 where
  pub allowed : Bool
  pub tokens_remaining : fl.F

pub record Bucket (fl : Floats) : Type 0 where
  pub tokens : fl.F
  pub last : ℕ

pub record InMemoryStateStore (fl : Floats) : Type 0 where
  pub max_tracked_keys : ℕ
  pub buckets : Dict (Bucket fl)

-- `with_clock_and_cap`
unfoldable pub with_cap : (fl : Floats) → ℕ → InMemoryStateStore fl
with_cap fl max_tracked_keys = record {
  max_tracked_keys = if ltb max_tracked_keys 1 then 1 else max_tracked_keys;
  buckets = [];
}

unfoldable pub tracked_keys : {fl : Floats} → InMemoryStateStore fl → ℕ
tracked_keys store = length store.buckets

abbrev pub full_refill : (fl : Floats) → BucketParams fl → Option ℕ
full_refill fl params = fl.from_secs_f64 (fl.div params.capacity params.refill_per_sec)

-- `retain`
unfoldable pub retain_refilling : (fl : Floats) → Dict (Bucket fl) → ℕ → ℕ → Dict (Bucket fl)
retain_refilling fl buckets now full =
    filterb (λ (p : Bytes × Bucket fl). ltb (now - p.1.last) full) buckets

unfoldable pub sweep_full_buckets :
    (fl : Floats) → Dict (Bucket fl) → ℕ → BucketParams fl → Option (Dict (Bucket fl))
unfolding retain_refilling
sweep_full_buckets fl buckets now params =
    if fl.le params.refill_per_sec fl.zero then some buckets else elim (full_refill fl params) [
      | none ↦ none
      | some full ↦ some (retain_refilling fl buckets now full)
    ]

-- `entry(key).or_insert`
unfoldable pub bucket_or_new : (fl : Floats) → Option (Bucket fl) → ℕ → BucketParams fl → Bucket fl
bucket_or_new fl none now params = record { tokens = params.capacity; last = now }
bucket_or_new fl (some b) now params = b

unfoldable pub refill : (fl : Floats) → Bucket fl → ℕ → BucketParams fl → Bucket fl
refill fl b now params = record {
  tokens =
      fl.min (fl.add b.tokens (fl.mul (fl.as_secs_f64 (now - b.last)) params.refill_per_sec))
        params.capacity;
  last = now;
}

-- the bucket and the answer, after the refill
unfoldable pub consume : (fl : Floats) → Bucket fl → fl.F → Acquired fl × Bucket fl
consume fl b cost =
    if fl.le cost b.tokens
    then (
      record { allowed = true; tokens_remaining = fl.sub b.tokens cost },
      record b { tokens = fl.sub b.tokens cost },
    )
    else (record { allowed = false; tokens_remaining = b.tokens }, b)

abbrev pub is_tracked : {fl : Floats} → Bytes → Dict (Bucket fl) → Bool
unfolding Dict.get
is_tracked key buckets = elim (Dict.get key buckets) [ none ↦ false | some b ↦ true ]

-- the buckets before a key is used: swept where the key is new at the cap
unfoldable pub make_room :
    (fl : Floats) → InMemoryStateStore fl → Bytes → ℕ → BucketParams fl → Option (Dict (Bucket fl))
unfolding sweep_full_buckets is_tracked
make_room fl store key now params =
    if not (is_tracked key store.buckets) && leb store.max_tracked_keys (length store.buckets)
    then sweep_full_buckets fl store.buckets now params
    else some store.buckets

-- what is left to do where there is room
unfoldable pub acquire_in :
    (fl : Floats)
    → InMemoryStateStore fl
    → Dict (Bucket fl)
    → ℕ
    → Bytes
    → fl.F
    → BucketParams fl
    → Acquired fl × InMemoryStateStore fl
unfolding bucket_or_new refill consume
acquire_in fl store buckets now key cost params =
    let after =
      consume fl (refill fl (bucket_or_new fl (Dict.get key buckets) now params) now params) cost in
    (after.0, record store { buckets = Dict.set key after.1 buckets })

unfoldable pub try_acquire :
    (fl : Floats)
    → InMemoryStateStore fl
    → ℕ
    → Bytes
    → fl.F
    → BucketParams fl
    → Option (Acquired fl × InMemoryStateStore fl)
unfolding make_room acquire_in
try_acquire fl store now key cost params = elim (make_room fl store key now params) [
  | none ↦ none
  | some buckets ↦ some (acquire_in fl store buckets now key cost params)
]
