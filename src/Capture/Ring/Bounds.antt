-- ===== src/Capture/Ring/Bounds.antt =====
-- The bounds of the ring: what an insert leaves in it, and that the newest capture stays.
use light_waf.Prelude.{
  ℕ, ◌+◌, ◌-◌, ◌≤◌, true, false, some, [], ◌∷◌, ◌++◌, ◌≡◌, refl, ap, sym, subst, ◌∙◌, ◌⊎◌, inl, inr,
  arith, Bytes, ◌=bytes◌, length, ltb, Bool-cases,
}
use light_waf.Capture.Request.{CapturedRequest}
use light_waf.Capture.Ring.{Entry, EntryMap, get, CaptureRing, is_over, entry, insert, take, len}
use light_waf.Capture.Ring.Queue.{sizes, Absent, expire, shed, =bytes_refl, Absent-remove_self}
use light_waf.Capture.Ring.Refine.{
  IsConsistent, inserted, insert-IsConsistent, taken, take-IsConsistent,
}

-- the queue ends with the entry, and has its id nowhere else
Newest : Bytes → Entry → EntryMap → Type 0
Newest k e [] = false ≡ true
Newest k e ((j, f) ∷ q) = ((j ≡ k) × (f ≡ e) × (q ≡ [])) ⊎ (((j =bytes k) ≡ false) × Newest k e q)

Newest-append :
    (k : Bytes) (e : Entry) (q : EntryMap) → Absent k q → Newest k e (q ++ ((k, e) ∷ []))
unfolding Newest
Newest-append k e [] a = inl (refl, refl, refl)
Newest-append k e ((j, f) ∷ q) a = inr (a.0, Newest-append k e q a.1)

get-Newest : (k : Bytes) (e : Entry) (q : EntryMap) → Newest k e q → get k q ≡ some e
unfolding get Newest
get-Newest k e [] h = cc
get-Newest k e ((j, f) ∷ q) (inl (same, at, end)) = rw (same, =bytes_refl k) (ap some at)
get-Newest k e ((j, f) ∷ q) (inr (other, h)) = rw other (get-Newest k e q h)

one_fits :
    (capacity max_bytes total : ℕ) (p : Bytes × Entry)
    → 1 ≤ capacity
    → is_over capacity max_bytes (p ∷ []) total ≡ false
unfolding is_over
one_fits capacity max_bytes total p h = ground arith

Newest-shed :
    (capacity max_bytes : ℕ) (k : Bytes) (e : Entry) (q : EntryMap)
    → 1 ≤ capacity
    → Newest k e q
    → Newest k e (shed capacity max_bytes q)
unfolding shed Newest
Newest-shed capacity max_bytes k e [] c h = h
Newest-shed capacity max_bytes k e ((j, f) ∷ q) c (inl (same, at, end)) =
    rw (end, one_fits capacity max_bytes (f.bytes + 0) (j, f) c) (inl (same, at, refl))
Newest-shed capacity max_bytes k e ((j, f) ∷ q) c (inr (other, h)) =
    elim (Bool-cases (is_over capacity max_bytes ((j, f) ∷ q) (f.bytes + sizes q))) [
      | inl over ↦ rw over (Newest-shed capacity max_bytes k e q c h)
      | inr fits ↦ rw fits (inr (other, h))
    ]

Newest-expire :
    (ttl now : ℕ) (k : Bytes) (e : Entry) (q : EntryMap)
    → ltb ttl (now - e.inserted) ≡ false
    → Newest k e q
    → Newest k e (expire ttl now q)
unfolding expire Newest
Newest-expire ttl now k e [] c h = h
Newest-expire ttl now k e ((j, f) ∷ q) c (inl (same, at, end)) =
    let fresh = subst (λ (t : Entry). ltb ttl (now - t.inserted) ≡ false) (sym at) c in
    rw fresh (inl (same, at, end))
Newest-expire ttl now k e ((j, f) ∷ q) c (inr (other, h)) =
    elim (Bool-cases (ltb ttl (now - f.inserted))) [
      | inl old ↦ rw old (Newest-expire ttl now k e q c h)
      | inr fresh ↦ rw fresh (inr (other, h))
    ]

fits-within :
    (capacity max_bytes : ℕ) (p : Bytes × Entry) (q : EntryMap) (total : ℕ)
    → is_over capacity max_bytes (p ∷ q) total ≡ false
    → (length (p ∷ q) ≤ capacity) × ((total ≤ max_bytes) ⊎ (length (p ∷ q) ≤ 1))
unfolding is_over
fits-within capacity max_bytes p q total fits = ground arith

shed-IsBounded :
    (capacity max_bytes : ℕ) (q : EntryMap)
    → (length (shed capacity max_bytes q) ≤ capacity)
      × ((sizes (shed capacity max_bytes q) ≤ max_bytes) ⊎ (length (shed capacity max_bytes q) ≤ 1))
unfolding shed
shed-IsBounded capacity max_bytes [] = (omega arith, inl (omega arith))
shed-IsBounded capacity max_bytes ((k, e) ∷ q) =
    elim (Bool-cases (is_over capacity max_bytes ((k, e) ∷ q) (e.bytes + sizes q))) [
      | inl over ↦ rw over (shed-IsBounded capacity max_bytes q)
      | inr fits ↦ rw fits (fits-within capacity max_bytes (k, e) q (e.bytes + sizes q) fits)
    ]

-- After an insert into a ring whose order, byte count and map agree, the ring has at most `capacity`
-- captures, and its byte count is at most `max_bytes` unless a single capture is left.
pub insert-IsBounded :
    (ring : CaptureRing) (req : CapturedRequest) (now later : ℕ)
    → IsConsistent ring
    → (len (insert ring req now later) ≤ ring.capacity)
      × (((insert ring req now later).inner.total_bytes ≤ ring.max_bytes)
          ⊎ (len (insert ring req now later) ≤ 1))
unfolding len
insert-IsBounded ring req now later ok =
    rw (ap (λ g. g.total_bytes) made.0.0, made.1)
      (unfold inserted in shed-IsBounded ring.capacity ring.max_bytes _)
  where
    made :
        IsConsistent (insert ring req now later)
        × ((insert ring req now later).inner.map ≡ inserted ring req now later ring.inner.map)
    made = insert-IsConsistent ring req now later ok

Newest-inserted :
    (ring : CaptureRing) (req : CapturedRequest) (now later : ℕ) (q : EntryMap)
    → 1 ≤ ring.capacity
    → Newest req.request_id (entry req later) (inserted ring req now later q)
unfolding inserted
Newest-inserted ring req now later q c =
    Newest-shed ring.capacity ring.max_bytes req.request_id _ _ c
      (Newest-append req.request_id _ _ (Absent-remove_self req.request_id (expire ring.ttl now q)))

taken-some : (k : Bytes) (e : Entry) (q : EntryMap) → get k q ≡ some e → taken k q ≡ some e.req
unfolding taken
taken-some k e q h = rw (h, taken) refl

-- A take within `ttl` of an insert returns the inserted capture, whatever its size and whatever the
-- ring held, the same id included, where the order, byte count and map agreed and `capacity` is not 0.
pub take-insert :
    (ring : CaptureRing) (req : CapturedRequest) (now later at : ℕ)
    → IsConsistent ring
    → 1 ≤ ring.capacity
    → ltb ring.ttl (at - later) ≡ false
    → (take (insert ring req now later) req.request_id at).0 ≡ some req
unfolding insert entry
take-insert ring req now later at ok c fresh =
    (take-IsConsistent (insert ring req now later) req.request_id at made.0).1
    ∙ taken-some req.request_id (entry req later) _ (
        get-Newest req.request_id (entry req later) _ (
          Newest-expire ring.ttl at req.request_id (entry req later) _ fresh (
            subst (Newest req.request_id (entry req later)) (sym made.1)
              (Newest-inserted ring req now later ring.inner.map c))))
  where
    made :
        IsConsistent (insert ring req now later)
        × ((insert ring req now later).inner.map ≡ inserted ring req now later ring.inner.map)
    made = insert-IsConsistent ring req now later ok
