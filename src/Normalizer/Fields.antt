-- ===== src/Normalizer/Fields.antt =====
-- crates/waf-normalizer/src/url.rs: `parse_cookies_limited`.
pub mod Limits
use light_waf.Prelude.{
  ℕ, Bool, true, false, Option, none, some, List, [], ◌∷◌, ◌++◌, Bytes, split, split_once, trim,
  is_empty, length, leb, if◌then◌else◌,
}

-- the errors of src/lib.rs there; two carry the limit and the actual size
pub data NormalizationError : Type 0 where
  body_too_large header_too_large : ℕ → ℕ → NormalizationError
  too_many_headers too_many_params too_many_cookies : ℕ → NormalizationError
  json_depth_exceeded : ℕ → NormalizationError
  json_parse_error multipart_error : Bytes → NormalizationError

pub data Parsed (A : Type 0) : Type 0 where
  ok : A → Parsed A
  err : NormalizationError → Parsed A

-- the text before the first `=`, and behind it
unfoldable pub cookie : Bytes → Bytes × Bytes
cookie pair = elim (split_once b'=' pair) [ some (k, v) ↦ (trim k, trim v) | none ↦ (pair, []) ]

-- the loop, on the pieces that are left
unfoldable pub cookie_loop : ℕ → List Bytes → List (Bytes × Bytes) → Parsed (List (Bytes × Bytes))
unfolding cookie
cookie_loop max_cookies [] cookies = ok cookies
cookie_loop max_cookies (piece ∷ pieces) cookies =
    let pair = trim piece in
    let skipped = cookie_loop max_cookies pieces cookies in
    let more = cookie_loop max_cookies pieces (cookies ++ (cookie pair ∷ [])) in
    if is_empty pair
    then skipped
    else if leb max_cookies (length cookies)
    then err (too_many_cookies max_cookies)
    else more

unfoldable pub parse_cookies_limited : Bytes → ℕ → Parsed (List (Bytes × Bytes))
unfolding cookie_loop
parse_cookies_limited cookie_header max_cookies =
    cookie_loop max_cookies (split b';' cookie_header) []
