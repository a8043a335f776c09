-- ===== src/Capture/Ring/Refine.antt =====
-- The ring implements its queue: map, order and byte count stay in step through every operation.
use light_waf.Prelude.{
  ℕ, ◌+◌, ◌-◌, Option, none, some, [], ◌∷◌, ◌++◌, ◌≡◌, refl, ap, sym, subst, ◌∙◌, arith, Bytes, ltb,
  Bool-cases, Option-cases, inl, inr,
}
use light_waf.Capture.Request.{CapturedRequest}
use light_waf.Capture.Ring.{
  Entry, EntryMap, get, remove, RingInner, CaptureRing, expire_loop, evict_expired, is_over,
  evict_loop, discard, evict_over, entry, forget, push, insert, take_from, take,
}
use light_waf.Capture.Ring.Queue.{
  keys, sizes, Distinct, Absent-get, concrete, expire, shed, get_head, remove_head, remove-Absent,
  Distinct-remove, Absent-remove_self, Distinct-append, Distinct-expire, Distinct-shed, keys-append,
  sizes-append, keys-remove, sizes-remove,
}

expire_loop-concrete :
    (ttl now : ℕ) (q : EntryMap)
    → Distinct q
    → expire_loop ttl now (keys q) q (sizes q) ≡ concrete (expire ttl now q)
unfolding expire_loop expire
expire_loop-concrete ttl now [] d = refl
expire_loop-concrete ttl now ((k, e) ∷ q) d =
    rw (get_head k e q, expire_loop)
      (elim (Bool-cases (ltb ttl (now - e.inserted))) [
        | inl old ↦
            rw (old, expire_loop)
              (rw (remove_head k e q d.0, first e.bytes (sizes q))
                (expire_loop-concrete ttl now q d.1))
        | inr fresh ↦ rw (fresh, expire_loop)
      ])
  where
    first : (a b : ℕ) → a + b - a ≡ b
    first a b = omega arith

evict_loop-concrete :
    (capacity max_bytes : ℕ) (q : EntryMap)
    → Distinct q
    → evict_loop capacity max_bytes (keys q) q (sizes q) ≡ concrete (shed capacity max_bytes q)
unfolding evict_loop shed
evict_loop-concrete capacity max_bytes [] d = refl
evict_loop-concrete capacity max_bytes ((k, e) ∷ q) d =
    elim (Bool-cases (is_over capacity max_bytes ((k, e) ∷ q) (e.bytes + sizes q))) [
      | inl over ↦
          rw (over, evict_loop)
            (rw (get_head k e q, evict_loop)
              (rw (remove_head k e q d.0, first e.bytes (sizes q))
                (evict_loop-concrete capacity max_bytes q d.1)))
      | inr fits ↦ rw (fits, evict_loop)
    ]
  where
    first : (a b : ℕ) → a + b - a ≡ b
    first a b = omega arith

-- the order and the byte count follow the map, and its keys are distinct
abbrev pub IsConsistent : CaptureRing → Type 0
IsConsistent ring = (ring.inner ≡ concrete ring.inner.map) × Distinct ring.inner.map

discard-concrete :
    (k : Bytes) (e : Entry) (q : EntryMap)
    → Distinct q
    → get k q ≡ some e
    → discard k e (concrete q) ≡ concrete (remove k q)
unfolding discard
discard-concrete k e q d found = rw (sym (keys-remove k q), sizes_eq) refl
  where
    sizes_eq : sizes q - e.bytes ≡ sizes (remove k q)
    sizes_eq = omega (arith, sizes-remove k q e d found)

forget-concrete :
    (k : Bytes) (q : EntryMap) → Distinct q → forget k (concrete q) ≡ concrete (remove k q)
unfolding forget
forget-concrete k q d = elim (Option-cases (get k q)) [
  | inl absent ↦ rw (absent, forget) (rw (remove-Absent k q (Absent-get k q absent)) refl)
  | inr (e, found) ↦ rw (found, forget) (discard-concrete k e q d found)
]

push-concrete :
    (k : Bytes) (e : Entry) (q : EntryMap) → push k e (concrete q) ≡ concrete (q ++ ((k, e) ∷ []))
unfolding push
push-concrete k e q = rw (keys-append q k e, sizes-append q k e)

evict_expired-concrete :
    (ttl now : ℕ) (q : EntryMap)
    → Distinct q
    → evict_expired ttl now (concrete q) ≡ concrete (expire ttl now q)
unfolding evict_expired
evict_expired-concrete = expire_loop-concrete

evict_over-concrete :
    (capacity max_bytes : ℕ) (q : EntryMap)
    → Distinct q
    → evict_over capacity max_bytes (concrete q) ≡ concrete (shed capacity max_bytes q)
unfolding evict_over
evict_over-concrete = evict_loop-concrete

-- the queue after an insert: the expired leave, then the entry of the same id, the new one comes
-- last, and the oldest leave until the bounds hold
unfoldable pub inserted : CaptureRing → CapturedRequest → ℕ → ℕ → EntryMap → EntryMap
inserted ring req now later q =
    shed ring.capacity ring.max_bytes
      (remove req.request_id (expire ring.ttl now q) ++ ((req.request_id, entry req later) ∷ []))

Distinct-inserted :
    (ring : CaptureRing) (req : CapturedRequest) (now later : ℕ) (q : EntryMap)
    → Distinct q
    → Distinct (inserted ring req now later q)
unfolding inserted
Distinct-inserted ring req now later q d =
    Distinct-shed _ _ _ (
      Distinct-append _ _ _ (Distinct-remove _ _ (Distinct-expire _ _ _ d))
        (Absent-remove_self _ _))

insert-concrete :
    (ring : CaptureRing) (req : CapturedRequest) (now later : ℕ)
    → IsConsistent ring
    → (insert ring req now later).inner ≡ concrete (inserted ring req now later ring.inner.map)
unfolding insert inserted
insert-concrete ring req now later ok =
    ap (λ g. evict (push k e (forget k g)))
      (ap (evict_expired ring.ttl now) ok.0 ∙ evict_expired-concrete ring.ttl now q ok.1)
    ∙ ap (λ g. evict (push k e g)) (forget-concrete k (expire ring.ttl now q) fresh)
    ∙ ap evict (push-concrete k e (remove k (expire ring.ttl now q)))
    ∙ evict_over-concrete _ _ _
        (Distinct-append k e _ (Distinct-remove k _ fresh) (Absent-remove_self k _))
  where
    k : Bytes
    k = req.request_id

    e : Entry
    e = entry req later

    q : EntryMap
    q = ring.inner.map

    evict : RingInner → RingInner
    evict = evict_over ring.capacity ring.max_bytes

    fresh : Distinct (expire ring.ttl now q)
    fresh = Distinct-expire ring.ttl now q ok.1

-- A ring whose order, byte count and map agree, with distinct ids, is so again after an insert, and
-- holds the queue that the expired entries, the entry of the same id and, from the oldest on, those
-- over the bounds have left and that the new capture ends.
pub insert-IsConsistent :
    (ring : CaptureRing) (req : CapturedRequest) (now later : ℕ)
    → IsConsistent ring
    → IsConsistent (insert ring req now later)
      × ((insert ring req now later).inner.map ≡ inserted ring req now later ring.inner.map)
insert-IsConsistent ring req now later ok = (
  (
    step ∙ ap concrete (sym same),
    subst Distinct (sym same) (Distinct-inserted ring req now later ring.inner.map ok.1),
  ),
  same,
)
  where
    step : (insert ring req now later).inner ≡ concrete (inserted ring req now later ring.inner.map)
    step = insert-concrete ring req now later ok

    same : (insert ring req now later).inner.map ≡ inserted ring req now later ring.inner.map
    same = ap (λ (g : RingInner). g.map) step

-- what a lookup takes from a queue
unfoldable pub taken : Bytes → EntryMap → Option CapturedRequest
taken k q = elim (get k q) [ some e ↦ some e.req | none ↦ none ]

take_from-concrete :
    (ring : CaptureRing) (k : Bytes) (q : EntryMap)
    → Distinct q
    → ((take_from ring k (concrete q)).1.inner ≡ concrete (remove k q))
      × ((take_from ring k (concrete q)).0 ≡ taken k q)
unfolding take_from taken
take_from-concrete ring k q d = elim (Option-cases (get k q)) [
  | inl absent ↦
      rw (absent, take_from, taken)
        (ap concrete (sym (remove-Absent k q (Absent-get k q absent))), refl)
  | inr (e, found) ↦ rw (found, take_from, taken) (discard-concrete k e q d found, refl)
]

take-concrete :
    (ring : CaptureRing) (k : Bytes) (now : ℕ)
    → IsConsistent ring
    → ((take ring k now).1.inner ≡ concrete (remove k (expire ring.ttl now ring.inner.map)))
      × ((take ring k now).0 ≡ taken k (expire ring.ttl now ring.inner.map))
unfolding take
take-concrete ring k now ok = (
  ap (λ g. (take_from ring k g).1.inner) swept ∙ made.0,
  ap (λ g. (take_from ring k g).0) swept ∙ made.1,
)
  where
    q : EntryMap
    q = expire ring.ttl now ring.inner.map

    swept : evict_expired ring.ttl now ring.inner ≡ concrete q
    swept =
        ap (evict_expired ring.ttl now) ok.0
        ∙ evict_expired-concrete ring.ttl now ring.inner.map ok.1

    made :
        ((take_from ring k (concrete q)).1.inner ≡ concrete (remove k q))
        × ((take_from ring k (concrete q)).0 ≡ taken k q)
    made = take_from-concrete ring k q (Distinct-expire ring.ttl now ring.inner.map ok.1)

-- A ring whose order, byte count and map agree, with distinct ids, is so again after a take, which
-- returns the capture of the id in the queue that the expired entries have left, if there is one, and
-- keeps the others of that queue in their order.
pub take-IsConsistent :
    (ring : CaptureRing) (k : Bytes) (now : ℕ)
    → IsConsistent ring
    → IsConsistent (take ring k now).1
      × ((take ring k now).0 ≡ taken k (expire ring.ttl now ring.inner.map))
      × ((take ring k now).1.inner.map ≡ remove k (expire ring.ttl now ring.inner.map))
take-IsConsistent ring k now ok = (
  (
    made.0 ∙ ap concrete (sym same),
    subst Distinct (sym same)
        (Distinct-remove k _ (Distinct-expire ring.ttl now ring.inner.map ok.1)),
  ),
  made.1,
  same,
)
  where
    made :
        ((take ring k now).1.inner ≡ concrete (remove k (expire ring.ttl now ring.inner.map)))
        × ((take ring k now).0 ≡ taken k (expire ring.ttl now ring.inner.map))
    made = take-concrete ring k now ok

    same : (take ring k now).1.inner.map ≡ remove k (expire ring.ttl now ring.inner.map)
    same = ap (λ (g : RingInner). g.map) made.0
