-- ===== src/Capture/Ring.antt =====
-- crates/waf-capture/src/ring.rs: a ring of captures bounded in entries, bytes and age.
--
-- The hash map is an association list, and `insert` puts a new key last. An operation takes the time
-- that its reads of the clock give: one for the sweep of expired entries, one for the new entry.
pub mod Queue
pub mod Refine
pub mod Bounds
use light_waf.Prelude.{
  ℕ, ◌+◌, ◌-◌, Bool, not, ◌&&◌, ◌||◌, true, false, Option, none, some, List, [], ◌∷◌, ◌++◌, Bytes,
  ◌=bytes◌, filterb, length, ltb, if◌then◌else◌,
}
unfoldable pub use light_waf.Prelude.Dict.{get, remove}
use light_waf.Prelude.Dict.{Dict}
use Prim.Native.Nat.{max}
use light_waf.Capture.Request.{CapturedRequest, estimated_bytes}

pub record Entry : Type 0 where
  pub req : CapturedRequest
  pub inserted : ℕ
  pub bytes : ℕ

abbrev pub EntryMap : Type 0
EntryMap = Dict Entry

pub record RingInner : Type 0 where
  pub map : EntryMap
  pub order : List Bytes
  pub total_bytes : ℕ

pub record CaptureRing : Type 0 where
  pub inner : RingInner
  pub capacity : ℕ
  pub max_bytes : ℕ
  pub ttl : ℕ

-- `CaptureRing::new`
unfoldable pub new : ℕ → ℕ → ℕ → CaptureRing
new capacity max_bytes ttl = record {
  inner = record { map = []; order = []; total_bytes = 0 };
  capacity = max capacity 1;
  max_bytes = max_bytes;
  ttl = ttl;
}

-- the loop of `evict_expired`, on the order that is left
unfoldable pub expire_loop : ℕ → ℕ → List Bytes → EntryMap → ℕ → RingInner
expire_loop ttl now [] m total = record { map = m; order = []; total_bytes = total }
expire_loop ttl now (front ∷ order) m total = elim (get front m) [
  | some e ↦ elim (ltb ttl (now - e.inserted)) [
    | true ↦ expire_loop ttl now order (remove front m) (total - e.bytes)
    | false ↦ record { map = m; order = front ∷ order; total_bytes = total }
  ]
  | none ↦ record { map = m; order = front ∷ order; total_bytes = total }
]

unfoldable pub evict_expired : ℕ → ℕ → RingInner → RingInner
unfolding expire_loop
evict_expired ttl now g = expire_loop ttl now g.order g.map g.total_bytes

-- the condition of the eviction loop
unfoldable pub is_over : ℕ → ℕ → EntryMap → ℕ → Bool
is_over capacity max_bytes m total =
    ltb capacity (length m) || ltb max_bytes total && ltb 1 (length m)

-- the eviction loop of `insert`, on the order that is left
unfoldable pub evict_loop : ℕ → ℕ → List Bytes → EntryMap → ℕ → RingInner
evict_loop capacity max_bytes [] m total = record { map = m; order = []; total_bytes = total }
evict_loop capacity max_bytes (oldest ∷ order) m total = elim (is_over capacity max_bytes m total) [
  | true ↦ elim (get oldest m) [
    | some e ↦ evict_loop capacity max_bytes order (remove oldest m) (total - e.bytes)
    | none ↦ evict_loop capacity max_bytes order m total
  ]
  | false ↦ record { map = m; order = oldest ∷ order; total_bytes = total }
]

unfoldable pub evict_over : ℕ → ℕ → RingInner → RingInner
unfolding evict_loop
evict_over capacity max_bytes g = evict_loop capacity max_bytes g.order g.map g.total_bytes

-- the ring without an entry of its map: `insert` and `take` both remove one so
unfoldable pub discard : Bytes → Entry → RingInner → RingInner
discard key e g = record {
  map = remove key g.map;
  order = filterb (λ k. not (k =bytes key)) g.order;
  total_bytes = g.total_bytes - e.bytes;
}

-- a same-id entry goes, with its slot in the order
unfoldable pub forget : Bytes → RingInner → RingInner
unfolding discard
forget key g = elim (get key g.map) [ some old ↦ discard key old g | none ↦ g ]

unfoldable pub push : Bytes → Entry → RingInner → RingInner
push key e g = record {
  map = g.map ++ ((key, e) ∷ []);
  order = g.order ++ (key ∷ []);
  total_bytes = g.total_bytes + e.bytes;
}

-- the entry that `insert` makes
unfoldable pub entry : CapturedRequest → ℕ → Entry
entry req later = record { req = req; inserted = later; bytes = estimated_bytes req }

unfoldable pub insert : CaptureRing → CapturedRequest → ℕ → ℕ → CaptureRing
unfolding evict_expired forget push evict_over entry
insert ring req now later =
    let g = forget req.request_id (evict_expired ring.ttl now ring.inner) in
    record ring {
      inner = evict_over ring.capacity ring.max_bytes (push req.request_id (entry req later) g);
    }

-- the part of `take` after the sweep
unfoldable pub take_from : CaptureRing → Bytes → RingInner → Option CapturedRequest × CaptureRing
unfolding discard
take_from ring request_id g = elim (get request_id g.map) [
  | none ↦ (none, record ring { inner = g })
  | some e ↦ (some e.req, record ring { inner = discard request_id e g })
]

-- the capture, if it is still there, and the ring without it
unfoldable pub take : CaptureRing → Bytes → ℕ → Option CapturedRequest × CaptureRing
unfolding evict_expired take_from
take ring request_id now = take_from ring request_id (evict_expired ring.ttl now ring.inner)

unfoldable pub len : CaptureRing → ℕ
len ring = length ring.inner.map
