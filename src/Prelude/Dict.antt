-- ===== src/Prelude/Dict.antt =====
-- Maps keyed by strings, as association lists: an insert replaces, and a lookup takes the first entry.
use mathlib.Core.Path.{◌≡◌, refl, sym, ◌∙◌}
use mathlib.Core.Logic.{◌≢◌, inl, inr}
use mathlib.Core.Bool.{Bool, true, false, not}
use mathlib.Core.Option.{Option, none, some}
use mathlib.Core.List.{List, [], ◌∷◌}
use native.Mathlib.Omega.{arith}
use light_waf.Prelude.Tests.{if◌then◌else◌, Bool-cases}
use light_waf.Prelude.Lists.{filterb, All, All-filterb}
use light_waf.Prelude.Text.{Bytes, ◌=bytes◌, =bytes_iff}

abbrev pub Dict {ℓ} : Type ℓ → Type ℓ
Dict A = List (Bytes × A)

module _ {ℓ} {A : Type ℓ} where
  unfoldable pub get : Bytes → Dict A → Option A
  get k [] = none
  get k ((j, a) ∷ d) = if j =bytes k then some a else get k d

  unfoldable pub set : Bytes → A → Dict A → Dict A
  set k a [] = (k, a) ∷ []
  set k a ((j, b) ∷ d) = if j =bytes k then (k, a) ∷ d else (j, b) ∷ set k a d

  unfoldable pub remove : Bytes → Dict A → Dict A
  remove k d = filterb (λ (p : Bytes × A). not (p.0 =bytes k)) d

pub =bytes_same : (k : Bytes) → (k =bytes k) ≡ true
=bytes_same k = (=bytes_iff k k).1 refl

pub apart_sym : (a b : Bytes) → (a =bytes b) ≡ false → (b =bytes a) ≡ false
apart_sym a b h = elim (Bool-cases (b =bytes a)) [
  | inl same ↦ absurd (cc ((=bytes_iff a b).1 (sym ((=bytes_iff b a).0 same))))
  | inr other ↦ other
]

module _ {ℓ} {A : Type ℓ} where
  pub get-set : (k : Bytes) (a : A) (d : Dict A) → get k (set k a d) ≡ some a
  unfolding get set
  get-set k a [] = rw (=bytes_same k)
  get-set k a ((j, b) ∷ d) = elim (Bool-cases (j =bytes k)) [
    | inl same ↦ rw same (rw (=bytes_same k) refl)
    | inr other ↦ rw other (rw other (get-set k a d))
  ]

  pub get-set_other :
      (i k : Bytes) (a : A) (d : Dict A) → (k =bytes i) ≡ false → get i (set k a d) ≡ get i d
  unfolding get set
  get-set_other i k a [] h = rw h
  get-set_other i k a ((j, b) ∷ d) h = elim (Bool-cases (j =bytes k)) [
    | inl same ↦ rw same (rw (h, moved j same) refl)
    | inr other ↦ rw other (elim (Bool-cases (j =bytes i)) [
      | inl here ↦ rw here refl
      | inr there ↦ rw there (get-set_other i k a d h)
    ])
  ]
    where
      moved : (j : Bytes) → (j =bytes k) ≡ true → (j =bytes i) ≡ false
      moved j same = rw ((=bytes_iff j k).0 same) h

  pub get-remove : (k : Bytes) (d : Dict A) → get k (remove k d) ≡ none
  unfolding get remove
  get-remove k [] = refl
  get-remove k ((j, b) ∷ d) = elim (Bool-cases (j =bytes k)) [
    | inl same ↦ rw same (get-remove k d)
    | inr other ↦ rw other (rw other (get-remove k d))
  ]

  pub get-remove_other :
      (i k : Bytes) (d : Dict A) → (k =bytes i) ≡ false → get i (remove k d) ≡ get i d
  unfolding get remove
  get-remove_other i k [] h = refl
  get-remove_other i k ((j, b) ∷ d) h = elim (Bool-cases (j =bytes k)) [
    | inl same ↦ rw same (rw (moved j same) (get-remove_other i k d h))
    | inr other ↦ rw other (elim (Bool-cases (j =bytes i)) [
      | inl here ↦ rw here refl
      | inr there ↦ rw there (get-remove_other i k d h)
    ])
  ]
    where
      moved : (j : Bytes) → (j =bytes k) ≡ true → (j =bytes i) ≡ false
      moved j same = rw ((=bytes_iff j k).0 same) h

module _ {ℓ κ} {A : Type ℓ} (P : A → Type κ) where
  -- what holds of every value
  abbrev pub Values : Dict A → Type κ
  Values = All (λ (p : Bytes × A). P p.1)

  -- what holds of the value, if there is one
  abbrev pub OnSome : Option A → Type κ
  OnSome none = Unit
  OnSome (some a) = P a

  pub Values-get : (k : Bytes) (d : Dict A) → Values d → OnSome (get k d)
  unfolding get
  Values-get k [] v = tt
  Values-get k ((j, b) ∷ d) v = elim (Bool-cases (j =bytes k)) [
    | inl same ↦ rw same v.0
    | inr other ↦ rw other (Values-get k d v.1)
  ]

  pub Values-set : (k : Bytes) (a : A) (d : Dict A) → P a → Values d → Values (set k a d)
  unfolding set
  Values-set k a [] p v = (p, tt)
  Values-set k a ((j, b) ∷ d) p v = elim (Bool-cases (j =bytes k)) [
    | inl same ↦ rw same (p, v.1)
    | inr other ↦ rw other (v.0, Values-set k a d p v.1)
  ]

  pub Values-remove : (k : Bytes) (d : Dict A) → Values d → Values (remove k d)
  unfolding remove
  Values-remove k d v =
      All-filterb (λ (p : Bytes × A). P p.1) (λ (p : Bytes × A). not (p.0 =bytes k)) d v

module _ {ℓ} {A : Type ℓ} where
  -- the keys are different
  abbrev pub HasDistinctKeys : Dict A → Type ℓ
  HasDistinctKeys [] = Unit
  HasDistinctKeys ((k, a) ∷ d) = (get k d ≡ none) × HasDistinctKeys d

  -- the value, if there is one and it is kept
  abbrev pub keep : (A → Bool) → Option A → Option A
  keep q none = none
  keep q (some a) = if q a then some a else none

  get-filterb-none :
      (q : A → Bool) (k : Bytes) (d : Dict A)
      → get k d ≡ none
      → get k (filterb (λ (p : Bytes × A). q p.1) d) ≡ none
  unfolding get
  get-filterb-none q k [] h = refl
  get-filterb-none q k ((j, b) ∷ d) h = elim (Bool-cases (j =bytes k)) [
    | inl same ↦ absurd (ground arith)
    | inr other ↦ elim (Bool-cases (q b)) [
      | inl kept ↦ rw kept (rw other (get-filterb-none q k d (ground arith)))
      | inr dropped ↦ rw dropped (get-filterb-none q k d (ground arith))
    ]
  ]

  -- a lookup after entries were dropped by their values
  pub get-filterb :
      (q : A → Bool) (k : Bytes) (d : Dict A)
      → HasDistinctKeys d
      → get k (filterb (λ (p : Bytes × A). q p.1) d) ≡ keep q (get k d)
  unfolding get
  get-filterb q k [] h = refl
  get-filterb q k ((j, b) ∷ d) h = elim (Bool-cases (j =bytes k)) [
    | inl same ↦ elim (Bool-cases (q b)) [
      | inl kept ↦ rw kept (rw same (rw kept refl))
      | inr dropped ↦
          rw dropped
            (rw same (rw dropped (get-filterb-none q k d (rw (← (=bytes_iff j k).0 same) h.0))))
    ]
    | inr other ↦ elim (Bool-cases (q b)) [
      | inl kept ↦ rw kept (rw other (get-filterb q k d h.1))
      | inr dropped ↦ rw dropped (rw other (get-filterb q k d h.1))
    ]
  ]

  pub set-HasDistinctKeys :
      (k : Bytes) (a : A) (d : Dict A) → HasDistinctKeys d → HasDistinctKeys (set k a d)
  unfolding set get
  set-HasDistinctKeys k a [] h = (refl, tt)
  set-HasDistinctKeys k a ((j, b) ∷ d) h = elim (Bool-cases (j =bytes k)) [
    | inl same ↦ rw same (rw (← (=bytes_iff j k).0 same) h.0, h.1)
    | inr other ↦
        rw other (get-set_other j k a d (apart_sym j k other) ∙ h.0, set-HasDistinctKeys k a d h.1)
  ]

  pub filterb-HasDistinctKeys :
      (q : A → Bool) (d : Dict A)
      → HasDistinctKeys d
      → HasDistinctKeys (filterb (λ (p : Bytes × A). q p.1) d)
  filterb-HasDistinctKeys q [] h = tt
  filterb-HasDistinctKeys q ((j, b) ∷ d) h = elim (Bool-cases (q b)) [
    | inl kept ↦ rw kept (get-filterb-none q j d h.0, filterb-HasDistinctKeys q d h.1)
    | inr dropped ↦ rw dropped (filterb-HasDistinctKeys q d h.1)
  ]

-- without the items of a key, every item has another
pub All-without {ℓ} :
    {A : Type ℓ} (key : A → Bytes) (k : Bytes) (items : List A)
    → All (λ (a : A). key a ≢ k) (filterb (λ (a : A). not (key a =bytes k)) items)
All-without key k [] = tt
All-without key k (a ∷ items) = elim (Bool-cases (key a =bytes k)) [
  | inl same ↦ rw same (All-without key k items)
  | inr other ↦
      rw other ((λ e. absurd (cc (other, (=bytes_iff (key a) k).1 e))), All-without key k items)
]
