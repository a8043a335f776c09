-- ===== src/Schema/Contract/Violations.antt =====
-- The set of violations: what an insertion adds, and that no element comes twice.
use light_waf.Prelude.{
  ℕ, ◌<◌, Bool, true, false, ◌||◌, ◌&&◌, List, [], ◌∷◌, ◌≡◌, arith, All, any, ◌==◌, ltb, inl, inr,
  Bool-cases,
}
use light_waf.Schema.Contract.{Violation, rank, insert, insert_if}

-- whether a set has this violation
abbrev pub has : Violation → List Violation → Bool
has v = any (λ w. rank v == rank w)

-- the elements are in order, each once
abbrev pub IsAscending : List Violation → Type 0
IsAscending [] = Unit
IsAscending (v ∷ out) = All (λ (w : Violation). rank v < rank w) out × IsAscending out

or_comm : (a b : Bool) → (a || b) ≡ (b || a)
or_comm a b = ground arith

or_assoc : (a b c : Bool) → (a || (b || c)) ≡ ((a || b) || c)
or_assoc a b c = ground arith

eq_absorbs :
    (v w x : ℕ) (h : Bool) → (w == x) ≡ true → ((v == x) || h) ≡ (((v == x) || h) || (v == w))
eq_absorbs v w x h same = ground arith

pub has-insert :
    (v w : Violation) (out : List Violation)
    → has v (insert w out) ≡ (has v out || (rank v == rank w))
unfolding insert
has-insert v w [] = ground arith
has-insert v w (x ∷ out) = elim (Bool-cases (rank w == rank x)) [
  | inl same ↦ rw same (eq_absorbs (rank v) (rank w) (rank x) (has v out) same)
  | inr other ↦ elim (Bool-cases (ltb (rank w) (rank x))) [
    | inl less ↦ rw (other, less) (or_comm (rank v == rank w) ((rank v == rank x) || has v out))
    | inr more ↦
        rw (other, more)
          (rw (has-insert v w out) (or_assoc (rank v == rank x) (has v out) (rank v == rank w)))
  ]
]

pub has-insert_if :
    (v : Violation) (b : Bool) (w : Violation) (out : List Violation)
    → has v (insert_if b w out) ≡ (has v out || (b && (rank v == rank w)))
unfolding insert_if
has-insert_if v true w out = has-insert v w out
has-insert_if v false w out = ground arith

All-insert :
    (u v : Violation) (out : List Violation)
    → rank u < rank v
    → All (λ (w : Violation). rank u < rank w) out
    → All (λ (w : Violation). rank u < rank w) (insert v out)
unfolding insert
All-insert u v [] h a = (h, tt)
All-insert u v (x ∷ out) h a = elim (Bool-cases (rank v == rank x)) [
  | inl same ↦ rw same a
  | inr other ↦ elim (Bool-cases (ltb (rank v) (rank x))) [
    | inl less ↦ rw (other, less) (h, a)
    | inr more ↦ rw (other, more) (a.0, All-insert u v out h a.1)
  ]
]

All-below :
    (m n : ℕ) (out : List Violation)
    → m < n
    → All (λ (w : Violation). n < rank w) out
    → All (λ (w : Violation). m < rank w) out
All-below m n [] h a = tt
All-below m n (w ∷ out) h a = (omega arith, All-below m n out h a.1)

pub insert-IsAscending :
    (v : Violation) (out : List Violation) → IsAscending out → IsAscending (insert v out)
unfolding insert
insert-IsAscending v [] h = (tt, tt)
insert-IsAscending v (x ∷ out) h = elim (Bool-cases (rank v == rank x)) [
  | inl same ↦ rw same h
  | inr other ↦ elim (Bool-cases (ltb (rank v) (rank x))) [
    | inl less ↦
        rw (other, less) ((ground arith, All-below (rank v) (rank x) out (ground arith) h.0), h)
    | inr more ↦
        rw (other, more) (All-insert x v out (ground arith) h.0, insert-IsAscending v out h.1)
  ]
]

pub insert_if-IsAscending :
    (b : Bool) (v : Violation) (out : List Violation)
    → IsAscending out
    → IsAscending (insert_if b v out)
unfolding insert_if
insert_if-IsAscending true v out h = insert-IsAscending v out h
insert_if-IsAscending false v out h = h
