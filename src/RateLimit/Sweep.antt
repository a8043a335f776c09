-- ===== src/RateLimit/Sweep.antt =====
-- What sweeping does to a key: nothing, or its bucket is full again after a whole refill time without use.
use light_waf.Prelude.{
  ℕ, ◌-◌, ◌≤◌, Bool, true, false, Option, none, some, Bytes, ◌≡◌, ◌⊎◌, inl, inr, refl, sym, ◌∙◌,
  subst, arith, Bool-cases, ltb, leb, length, not, ◌&&◌, ◌=bytes◌, =bytes_iff, if◌then◌else◌,
}
use light_waf.Prelude.Dict
use light_waf.Prelude.Dict.{
  Dict, HasDistinctKeys, keep, get-set, get-set_other, get-filterb, set-HasDistinctKeys,
  filterb-HasDistinctKeys,
}
use light_waf.RateLimit.{
  Floats, BucketParams, Bucket, Acquired, InMemoryStateStore, full_refill, retain_refilling,
  sweep_full_buckets, bucket_or_new, refill, consume, make_room, acquire_in, try_acquire,
  is_tracked,
}

module _ (fl : Floats) (params : BucketParams fl) where
  -- a duration holds the time that fills a bucket, if there is one
  abbrev pub HasRefillTime : Type 0
  HasRefillTime =
      (fl.le params.refill_per_sec fl.zero ≡ true) ⊎ ((n : ℕ) × (full_refill fl params ≡ some n))

  abbrev at_least : Option ℕ → ℕ → Bool
  at_least none n = false
  at_least (some full) n = leb full n

  -- buckets fill up, and this one was not used for the time that fills any
  unfoldable pub is_idle : ℕ → Bucket fl → Bool
  is_idle now b =
      not (fl.le params.refill_per_sec fl.zero) && at_least (full_refill fl params) (now - b.last)

  -- a bucket that may be forgotten, and is if so it is wanted
  unfoldable pub forgotten : Bool → ℕ → Option (Bucket fl) → Option (Bucket fl)
  unfolding is_idle
  forgotten forget now none = none
  forgotten forget now (some b) = if forget && is_idle now b then none else some b

  -- an acquire on a store without a cap
  unfoldable pub acquire_forgetting :
      Bool → Dict (Bucket fl) → ℕ → Bytes → fl.F → Acquired fl × Dict (Bucket fl)
  unfolding forgotten
  acquire_forgetting forget buckets now key cost =
      let before = forgotten forget now (Dict.get key buckets) in
      let after = consume fl (refill fl (bucket_or_new fl before now params) now params) cost in
      (after.0, Dict.set key after.1 buckets)

  -- a bucket that was dropped is idle at this time
  abbrev pub Agree : ℕ → Option (Bucket fl) → Option (Bucket fl) → Type 0
  Agree now o o' =
      (o ≡ o') ⊎ ((o ≡ none) × ((b : Bucket fl) × (o' ≡ some b) × (is_idle now b ≡ true)))

  abbrev pub Simulates : ℕ → Dict (Bucket fl) → Dict (Bucket fl) → Type 0
  Simulates now small big = (k : Bytes) → Agree now (Dict.get k small) (Dict.get k big)

  at_least-later : (o : Option ℕ) (m n : ℕ) → m ≤ n → at_least o m ≡ true → at_least o n ≡ true
  at_least-later none m n h e = absurd (cc e)
  at_least-later (some full) m n h e = ground arith

  is_idle-later : (t now : ℕ) (b : Bucket fl) → t ≤ now → is_idle t b ≡ true → is_idle now b ≡ true
  unfolding is_idle
  is_idle-later t now b h e = elim (Bool-cases (fl.le params.refill_per_sec fl.zero)) [
    | inl stopped ↦ absurd (
        cc (subst (λ x. (not x && at_least (full_refill fl params) (t - b.last)) ≡ true) stopped e))
    | inr runs ↦ rw runs (
        at_least-later (full_refill fl params) (t - b.last) (now - b.last) (omega arith)
          (subst (λ x. (not x && at_least (full_refill fl params) (t - b.last)) ≡ true) runs e))
  ]

  Agree-later : (t now : ℕ) (o o' : Option (Bucket fl)) → t ≤ now → Agree t o o' → Agree now o o'
  Agree-later t now o o' h (inl e) = inl e
  Agree-later t now o o' h (inr (e, (b, e', idle))) = inr (e, (b, e', is_idle-later t now b h idle))

  -- dropping a bucket that was left for the refill time
  Agree-keep :
      (now full : ℕ) (o o' : Option (Bucket fl))
      → fl.le params.refill_per_sec fl.zero ≡ false
      → full_refill fl params ≡ some full
      → Agree now o o'
      → Agree now (keep (λ (b : Bucket fl). ltb (now - b.last) full) o) o'
  unfolding is_idle
  Agree-keep now full none o' runs time a = a
  Agree-keep now full (some b) o' runs time (inr (e, rest)) = absurd (cc e)
  Agree-keep now full (some b) o' runs time (inl e) = elim (Bool-cases (ltb (now - b.last) full)) [
    | inl young ↦ rw young (inl e)
    | inr old ↦
        let reached : leb full (now - b.last) ≡ true = ground (arith, old) in
        rw old (inr (refl, (b, sym e, rw (runs, time) reached)))
  ]

  abbrev pub Keeps : ℕ → Dict (Bucket fl) → Dict (Bucket fl) → Type 0
  Keeps now small big = Simulates now small big × HasDistinctKeys small

  -- there is room, in buckets that keep up
  abbrev HasRoom : ℕ → Dict (Bucket fl) → Option (Dict (Bucket fl)) → Type 0
  HasRoom now big o = (small : Dict (Bucket fl)) × (o ≡ some small) × Keeps now small big

  swept-Keeps :
      (small big : Dict (Bucket fl)) (now full : ℕ)
      → fl.le params.refill_per_sec fl.zero ≡ false
      → full_refill fl params ≡ some full
      → Keeps now small big
      → Keeps now (retain_refilling fl small now full) big
  unfolding retain_refilling
  swept-Keeps small big now full runs time s = (
    λ k.
        subst (λ o. Agree now o (Dict.get k big))
          (sym (get-filterb (λ (b : Bucket fl). ltb (now - b.last) full) k small s.1))
          (Agree-keep now full (Dict.get k small) (Dict.get k big) runs time (s.0 k)),
    filterb-HasDistinctKeys (λ (b : Bucket fl). ltb (now - b.last) full) small s.1,
  )

  sweep_full_buckets-HasRoom :
      (small big : Dict (Bucket fl)) (now : ℕ)
      → HasRefillTime
      → Keeps now small big
      → HasRoom now big (sweep_full_buckets fl small now params)
  unfolding sweep_full_buckets
  sweep_full_buckets-HasRoom small big now time s =
      elim (Bool-cases (fl.le params.refill_per_sec fl.zero)) [
        | inl stopped ↦ rw stopped (small, refl, s)
        | inr runs ↦ elim time [
          | inl stopped ↦ absurd (cc (runs, stopped))
          | inr (full, at) ↦
              rw (runs, at)
                (retain_refilling fl small now full, refl, swept-Keeps small big now full runs at s)
        ]
      ]

  make_room-HasRoom :
      (store : InMemoryStateStore fl) (big : Dict (Bucket fl)) (key : Bytes) (t now : ℕ)
      → HasRefillTime
      → t ≤ now
      → Keeps t store.buckets big
      → HasRoom now big (make_room fl store key now params)
  unfolding make_room
  make_room-HasRoom store big key t now time h s =
      let later : Keeps now store.buckets big =
        (λ k. Agree-later t now (Dict.get k store.buckets) (Dict.get k big) h (s.0 k), s.1) in
      elim (Bool-cases
        (not (is_tracked key store.buckets) && leb store.max_tracked_keys (length store.buckets))) [
          | inl full ↦ rw full (sweep_full_buckets-HasRoom store.buckets big now time later)
          | inr fits ↦ rw fits (store.buckets, refl, later)
        ]

  -- the bucket that an acquire finds is the other's, forgotten or not
  Agree-forgotten :
      (now : ℕ) (o o' : Option (Bucket fl))
      → Agree now o o'
      → (forget : Bool) × (o ≡ forgotten forget now o')
  unfolding forgotten
  Agree-forgotten now o none (inl e) = (false, e)
  Agree-forgotten now o (some b) (inl e) = (false, e)
  Agree-forgotten now o none (inr (e, (b, e', idle))) = absurd (cc e')
  Agree-forgotten now o (some b') (inr (e, (b, e', idle))) =
      (let same : b' ≡ b = cc in (true, rw (same, idle) e))

  -- both stores after the bucket of a key is written
  set-Keeps :
      (now : ℕ) (small big : Dict (Bucket fl)) (key : Bytes) (b : Bucket fl)
      → Keeps now small big
      → Keeps now (Dict.set key b small) (Dict.set key b big)
  set-Keeps now small big key b s = (written, set-HasDistinctKeys key b small s.1)
    where
      written : Simulates now (Dict.set key b small) (Dict.set key b big)
      written k = elim (Bool-cases (key =bytes k)) [
        | inl same ↦
            subst
              (λ j. Agree now (Dict.get j (Dict.set key b small)) (Dict.get j (Dict.set key b big)))
              ((=bytes_iff key k).0 same) (inl (get-set key b small ∙ sym (get-set key b big)))
        | inr other ↦
            subst (λ o. Agree now o (Dict.get k (Dict.set key b big)))
              (sym (get-set_other k key b small other))
              (subst (Agree now (Dict.get k small)) (sym (get-set_other k key b big other)) (s.0 k))
      ]

  -- an acquire does not panic, and is one that forgets or does not
  abbrev pub IsForgetting :
      Dict (Bucket fl) → ℕ → Bytes → fl.F → Option (Acquired fl × InMemoryStateStore fl) → Type 0
  IsForgetting big now key cost o =
      (forget : Bool) × (store : InMemoryStateStore fl) × (o
        ≡ some ((acquire_forgetting forget big now key cost).0, store))
      × Keeps now store.buckets (acquire_forgetting forget big now key cost).1

  acquire_in-IsForgetting :
      (store : InMemoryStateStore fl) (small big : Dict (Bucket fl)) (now : ℕ) (key : Bytes)
      (cost : fl.F)
      → Keeps now small big
      → IsForgetting big now key cost (some (acquire_in fl store small now key cost params))
  unfolding acquire_in acquire_forgetting
  acquire_in-IsForgetting store small big now key cost s =
      let (forget, same) = Agree-forgotten now (Dict.get key small) (Dict.get key big) (s.0 key) in
      let after : Option (Bucket fl) → Acquired fl × Bucket fl =
        λ o. consume fl (refill fl (bucket_or_new fl o now params) now params) cost in
      rw same (
        forget,
        record store {
          buckets = Dict.set key (after (forgotten forget now (Dict.get key big))).1 small;
        },
        refl,
        set-Keeps now small big key (after (forgotten forget now (Dict.get key big))).1 s,
      )

  pub try_acquire-IsForgetting :
      (store : InMemoryStateStore fl) (big : Dict (Bucket fl)) (t now : ℕ) (key : Bytes)
      (cost : fl.F)
      → HasRefillTime
      → t ≤ now
      → Keeps t store.buckets big
      → IsForgetting big now key cost (try_acquire fl store now key cost params)
  unfolding try_acquire
  try_acquire-IsForgetting store big t now key cost time h s =
      let (small, fits, keeps) = make_room-HasRoom store big key t now time h s in
      rw (fits, try_acquire) (acquire_in-IsForgetting store small big now key cost keeps)
