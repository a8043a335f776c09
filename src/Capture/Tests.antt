-- ===== src/Capture/Tests.antt =====
-- The theorems on the ring, each at a concrete ring.
use light_waf.Prelude.{◌≤◌, false, none, some, [], Bytes, codes, ◌≡◌, ◌⊎◌, refl, arith}
use light_waf.Capture.Request.{CapturedRequest}
use light_waf.Capture.Ring.{CaptureRing, new, insert, take, len}
use light_waf.Capture.Ring.Refine.{IsConsistent, inserted, insert-IsConsistent}
use light_waf.Capture.Ring.Bounds.{insert-IsBounded, take-insert}

abbrev captured : Bytes → Bytes → CapturedRequest
captured id body = record {
  request_id = id;
  method = codes "GET";
  path = codes "/";
  query = none;
  http_version = codes "HTTP/1.1";
  headers = [];
  cookies = [];
  body_b64 = body;
  body_size = 3;
  body_truncated = false;
  redacted = [];
}

abbrev r1 : CapturedRequest
r1 = captured (codes "r1") (codes "QUJD")

abbrev r2 : CapturedRequest
r2 = captured (codes "r2") (codes "REVG")

empty_ring-IsConsistent : IsConsistent (new 1 100 5)
unfolding new
empty_ring-IsConsistent = (refl, tt)

one_capture-IsConsistent : IsConsistent (insert (new 1 100 5) r1 0 0)
one_capture-IsConsistent = (insert-IsConsistent (new 1 100 5) r1 0 0 empty_ring-IsConsistent).0

abbrev one_capture : CaptureRing
one_capture = insert (new 1 100 5) r1 0 0

insert-IsConsistent_example :
    IsConsistent (insert one_capture r2 3 4)
    × ((insert one_capture r2 3 4).inner.map ≡ inserted one_capture r2 3 4 one_capture.inner.map)
insert-IsConsistent_example = insert-IsConsistent one_capture r2 3 4 one_capture-IsConsistent

insert-IsBounded_example :
    (len (insert one_capture r2 3 4) ≤ one_capture.capacity)
    × (((insert one_capture r2 3 4).inner.total_bytes ≤ one_capture.max_bytes)
        ⊎ (len (insert one_capture r2 3 4) ≤ 1))
insert-IsBounded_example = insert-IsBounded one_capture r2 3 4 one_capture-IsConsistent

take-insert_example : (take (insert (new 1 100 5) r2 3 4) (codes "r2") 9).0 ≡ some r2
unfolding new
take-insert_example = take-insert (new 1 100 5) r2 3 4 9 empty_ring-IsConsistent (omega arith) refl
