-- ===== src/Capture/Ring/Queue.antt =====
-- What the ring stands for: a queue of captures with distinct ids, the oldest first.
use light_waf.Prelude.{
  ℕ, ◌+◌, ◌-◌, true, false, not, Option, none, some, List, [], ◌∷◌, ◌++◌, ◌≡◌, refl, ap, subst, ◌∙◌,
  arith, Bytes, ◌=bytes◌, =bytes_iff, filterb, ltb, if◌then◌else◌, Bool-cases, inl, inr,
}
use light_waf.Capture.Ring.{Entry, EntryMap, get, remove, RingInner, is_over}

abbrev pub keys : EntryMap → List Bytes
keys [] = []
keys ((k, e) ∷ q) = k ∷ keys q

abbrev pub sizes : EntryMap → ℕ
sizes [] = 0
sizes ((k, e) ∷ q) = e.bytes + sizes q

abbrev pub Absent : Bytes → EntryMap → Type 0
Absent k [] = Unit
Absent k ((j, e) ∷ q) = ((j =bytes k) ≡ false) × Absent k q

abbrev pub Distinct : EntryMap → Type 0
Distinct [] = Unit
Distinct ((k, e) ∷ q) = Absent k q × Distinct q

-- the ring that holds a queue
abbrev pub concrete : EntryMap → RingInner
concrete q = record { map = q; order = keys q; total_bytes = sizes q }

-- the oldest entries go while they are past their age
unfoldable pub expire : ℕ → ℕ → EntryMap → EntryMap
expire ttl now [] = []
expire ttl now ((k, e) ∷ q) =
    let rest = expire ttl now q in if ltb ttl (now - e.inserted) then rest else (k, e) ∷ q

-- the oldest entries go while the queue is over its bounds
unfoldable pub shed : ℕ → ℕ → EntryMap → EntryMap
shed capacity max_bytes [] = []
shed capacity max_bytes ((k, e) ∷ q) =
    let rest = shed capacity max_bytes q in
    if is_over capacity max_bytes ((k, e) ∷ q) (sizes ((k, e) ∷ q)) then rest else (k, e) ∷ q

pub =bytes_refl : (k : Bytes) → (k =bytes k) ≡ true
=bytes_refl k = (=bytes_iff k k).1 refl

pub =bytes_sym : (j k : Bytes) → (j =bytes k) ≡ false → (k =bytes j) ≡ false
=bytes_sym j k h = ground (arith, =bytes_iff j k, =bytes_iff k j)

pub get-Absent : (k : Bytes) (q : EntryMap) → Absent k q → get k q ≡ none
unfolding get
get-Absent k [] a = refl
get-Absent k ((j, e) ∷ q) a = rw (a.0, get-Absent k q a.1)

pub Absent-get : (k : Bytes) (q : EntryMap) → get k q ≡ none → Absent k q
unfolding get
Absent-get k [] h = tt
Absent-get k ((j, e) ∷ q) h = elim (Bool-cases (j =bytes k)) [
  | inl same ↦ let found : some e ≡ none = rw same at h in cc
  | inr other ↦ (other, Absent-get k q (rw other at h))
]

pub remove-Absent : (k : Bytes) (q : EntryMap) → Absent k q → remove k q ≡ q
unfolding remove
remove-Absent k [] a = refl
remove-Absent k ((j, e) ∷ q) a = rw (a.0, remove-Absent k q a.1)

pub remove_head : (k : Bytes) (e : Entry) (q : EntryMap) → Absent k q → remove k ((k, e) ∷ q) ≡ q
remove_head k e q a = head k (=bytes_refl k) ∙ remove-Absent k q a
  where
    head : (j : Bytes) → (j =bytes k) ≡ true → remove k ((j, e) ∷ q) ≡ remove k q
    head j h = unfold remove in rw h

pub get_head : (k : Bytes) (e : Entry) (q : EntryMap) → get k ((k, e) ∷ q) ≡ some e
unfolding get
get_head k e q = rw (=bytes_refl k)

Absent-remove : (j k : Bytes) (q : EntryMap) → Absent j q → Absent j (remove k q)
unfolding remove
Absent-remove j k [] a = tt
Absent-remove j k ((i, e) ∷ q) a = elim (Bool-cases (i =bytes k)) [
  | inl same ↦ rw same (Absent-remove j k q a.1)
  | inr other ↦ rw other (a.0, Absent-remove j k q a.1)
]

pub Distinct-remove : (k : Bytes) (q : EntryMap) → Distinct q → Distinct (remove k q)
unfolding remove
Distinct-remove k [] d = tt
Distinct-remove k ((i, e) ∷ q) d = elim (Bool-cases (i =bytes k)) [
  | inl same ↦ rw same (Distinct-remove k q d.1)
  | inr other ↦ rw other (Absent-remove i k q d.0, Distinct-remove k q d.1)
]

pub Absent-remove_self : (k : Bytes) (q : EntryMap) → Absent k (remove k q)
unfolding remove
Absent-remove_self k [] = tt
Absent-remove_self k ((i, e) ∷ q) = elim (Bool-cases (i =bytes k)) [
  | inl same ↦ rw same (Absent-remove_self k q)
  | inr other ↦ rw other (other, Absent-remove_self k q)
]

Absent-append :
    (j k : Bytes) (e : Entry) (q : EntryMap)
    → Absent j q
    → (k =bytes j) ≡ false
    → Absent j (q ++ ((k, e) ∷ []))
Absent-append j k e [] a h = (h, tt)
Absent-append j k e ((i, f) ∷ q) a h = (a.0, Absent-append j k e q a.1 h)

pub Distinct-append :
    (k : Bytes) (e : Entry) (q : EntryMap) → Distinct q → Absent k q → Distinct (q ++ ((k, e) ∷ []))
Distinct-append k e [] d a = (tt, tt)
Distinct-append k e ((i, f) ∷ q) d a =
    (Absent-append i k e q d.0 (=bytes_sym i k a.0), Distinct-append k e q d.1 a.1)

pub Distinct-expire : (ttl now : ℕ) (q : EntryMap) → Distinct q → Distinct (expire ttl now q)
unfolding expire
Distinct-expire ttl now [] d = tt
Distinct-expire ttl now ((k, e) ∷ q) d = elim (Bool-cases (ltb ttl (now - e.inserted))) [
  | inl old ↦ rw old (Distinct-expire ttl now q d.1)
  | inr fresh ↦ rw fresh d
]

pub Distinct-shed :
    (capacity max_bytes : ℕ) (q : EntryMap) → Distinct q → Distinct (shed capacity max_bytes q)
unfolding shed
Distinct-shed capacity max_bytes [] d = tt
Distinct-shed capacity max_bytes ((k, e) ∷ q) d =
    elim (Bool-cases (is_over capacity max_bytes ((k, e) ∷ q) (e.bytes + sizes q))) [
      | inl over ↦ rw over (Distinct-shed capacity max_bytes q d.1)
      | inr fits ↦ rw fits d
    ]

pub keys-append :
    (q : EntryMap) (k : Bytes) (e : Entry) → keys (q ++ ((k, e) ∷ [])) ≡ keys q ++ (k ∷ [])
keys-append [] k e = refl
keys-append ((j, f) ∷ q) k e = ap (◌∷◌ j) (keys-append q k e)

pub sizes-append :
    (q : EntryMap) (k : Bytes) (e : Entry) → sizes (q ++ ((k, e) ∷ [])) ≡ sizes q + e.bytes
sizes-append [] k e = omega arith
sizes-append ((j, f) ∷ q) k e = omega (arith, sizes-append q k e)

pub keys-remove :
    (k : Bytes) (q : EntryMap) → keys (remove k q) ≡ filterb (λ j. not (j =bytes k)) (keys q)
unfolding remove
keys-remove k [] = refl
keys-remove k ((i, e) ∷ q) = elim (Bool-cases (i =bytes k)) [
  | inl same ↦ rw same (keys-remove k q)
  | inr other ↦ rw other (ap (◌∷◌ i) (keys-remove k q))
]

Absent-eq : (i k : Bytes) (q : EntryMap) → (i =bytes k) ≡ true → Absent i q → Absent k q
Absent-eq i k q same a = subst (λ j. Absent j q) ((=bytes_iff i k).0 same) a

remove-shut : (k : Bytes) (q : EntryMap) → Absent k q → sizes (remove k q) ≡ sizes q
remove-shut k q a = rw (remove-Absent k q a)

some-bytes : (f e : Entry) → some f ≡ some e → f.bytes ≡ e.bytes
some-bytes f e h = ap (λ (o : Option Entry). elim o [ some t ↦ t.bytes | none ↦ 0 ]) h

-- the entry's bytes are among the queue's, so the subtraction does not stop at 0
pub sizes-remove :
    (k : Bytes) (q : EntryMap) (e : Entry)
    → Distinct q
    → get k q ≡ some e
    → sizes (remove k q) + e.bytes ≡ sizes q
unfolding remove get
sizes-remove k [] e d h = cc
sizes-remove k ((i, f) ∷ q) e d h = elim (Bool-cases (i =bytes k)) [
  | inl same ↦
      let found : some f ≡ some e = rw same at h in
      rw same (omega (arith, remove-shut k q (Absent-eq i k q same d.0), some-bytes f e found))
  | inr other ↦
      let found : get k q ≡ some e = rw other at h in
      rw other (omega (arith, sizes-remove k q e d.1 found))
]
