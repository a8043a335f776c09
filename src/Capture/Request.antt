-- ===== src/Capture/Request.antt =====
-- crates/waf-capture/src/capture.rs: a captured request, and its size.
use light_waf.Prelude.{ℕ, ◌+◌, Bool, Option, none, some, List, [], ◌∷◌, Bytes, length}

pub record CapturedRequest : Type 0 where
  pub request_id : Bytes
  pub method : Bytes
  pub path : Bytes
  pub query : Option Bytes
  pub http_version : Bytes
  pub headers : List (Bytes × Bytes)
  pub cookies : List (Bytes × Bytes)
  pub body_b64 : Bytes
  pub body_size : ℕ
  pub body_truncated : Bool
  pub redacted : List Bytes

unfoldable pub pair_bytes : List (Bytes × Bytes) → ℕ
pair_bytes [] = 0
pair_bytes ((k, v) ∷ rest) = length k + length v + pair_bytes rest

unfoldable pub estimated_bytes : CapturedRequest → ℕ
unfolding pair_bytes
estimated_bytes r =
    length r.body_b64
    + pair_bytes r.headers
    + pair_bytes r.cookies
    + length r.request_id
    + length r.method
    + length r.path
    + elim r.query [ some q ↦ length q | none ↦ 0 ]
