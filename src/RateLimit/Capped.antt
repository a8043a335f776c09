-- ===== src/RateLimit/Capped.antt =====
-- The cap on the number of tracked keys changes no answer, but for buckets that are full again.
use light_waf.Prelude.{ℕ, ◌≤◌, Bool, Option, none, some, List, [], ◌∷◌, Bytes, ◌≡◌, refl, inl}
use light_waf.Prelude.Dict.{Dict}
use light_waf.RateLimit.{
  Floats, BucketParams, Bucket, Acquired, InMemoryStateStore, with_cap, try_acquire,
}
use light_waf.RateLimit.Sweep.{HasRefillTime, acquire_forgetting, Keeps, try_acquire-IsForgetting}

-- the answers to a sequence of requests, each a time, a key and a cost
module _ (fl : Floats) (params : BucketParams fl) where
  abbrev and_then : Acquired fl → Option (List (Acquired fl)) → Option (List (Acquired fl))
  and_then a none = none
  and_then a (some rest) = some (a ∷ rest)

  -- none where one of them panics
  unfoldable pub answers :
      InMemoryStateStore fl → List (ℕ × Bytes × fl.F) → Option (List (Acquired fl))
  answers store [] = some []
  answers store ((now, key, cost) ∷ requests) = elim (try_acquire fl store now key cost params) [
    | none ↦ none
    | some (a, after) ↦ and_then a (answers after requests)
  ]

  -- answers of a store without a cap, which before a request may forget the bucket of its key if that is idle
  abbrev pub IsAnswered : Dict (Bucket fl) → List (ℕ × Bytes × fl.F) → List (Acquired fl) → Type 0
  IsAnswered buckets [] [] = Unit
  IsAnswered buckets [] (a ∷ rest) = ⊥
  IsAnswered buckets (r ∷ requests) [] = ⊥
  IsAnswered buckets ((now, key, cost) ∷ requests) (a ∷ rest) =
      (forget : Bool) × (a ≡ (acquire_forgetting fl params forget buckets now key cost).0)
      × IsAnswered (acquire_forgetting fl params forget buckets now key cost).1 requests rest

  -- the clock does not go back
  abbrev pub IsOrdered : ℕ → List (ℕ × Bytes × fl.F) → Type 0
  IsOrdered t [] = Unit
  IsOrdered t ((now, key, cost) ∷ requests) = (t ≤ now) × IsOrdered now requests

  -- there are answers, and they are such
  abbrev pub HasAnswers :
      Dict (Bucket fl) → List (ℕ × Bytes × fl.F) → Option (List (Acquired fl)) → Type 0
  HasAnswers buckets requests o =
      (found : List (Acquired fl)) × (o ≡ some found) × IsAnswered buckets requests found

  answers-HasAnswers :
      (store : InMemoryStateStore fl) (big : Dict (Bucket fl)) (t : ℕ)
      (requests : List (ℕ × Bytes × fl.F))
      → HasRefillTime fl params
      → IsOrdered t requests
      → Keeps fl params t store.buckets big
      → HasAnswers big requests (answers store requests)
  unfolding answers
  answers-HasAnswers store big t [] time h s = ([], refl, tt)
  answers-HasAnswers store big t ((now, key, cost) ∷ requests) time h s =
      let (forget, after, same, keeps) =
        try_acquire-IsForgetting fl params store big t now key cost time h.0 s in
      let (found, rest, such) =
        answers-HasAnswers after (acquire_forgetting fl params forget big now key cost).1 now
          requests time h.1 keeps in
      rw (same, answers)
        (rw rest (
          (acquire_forgetting fl params forget big now key cost).0 ∷ found,
          refl,
          (forget, refl, such),
        ))

  -- From an empty store with any cap on its keys, any sequence of acquires, with times that do not go
  -- back and the same parameters throughout, is answered without a panic, and as a store without a cap
  -- answers it that may, before an acquire, forget the bucket of its key if buckets fill up and this
  -- one was not used for the time that the division of the capacity by the rate gives. It is given that
  -- the rate is not above zero or a duration holds that time; nothing else of the arithmetic is.
  pub answers-with_cap :
      (max_tracked_keys start : ℕ) (requests : List (ℕ × Bytes × fl.F))
      → HasRefillTime fl params
      → IsOrdered start requests
      → HasAnswers [] requests (answers (with_cap fl max_tracked_keys) requests)
  unfolding with_cap
  answers-with_cap max_tracked_keys start requests time h =
      answers-HasAnswers (with_cap fl max_tracked_keys) [] start requests time h
        ((λ k. inl refl), tt)
