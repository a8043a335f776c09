-- ===== src/Normalizer/Path.antt =====
-- crates/waf-normalizer/src/url.rs: `normalize_path` and `resolve_path`.
pub mod Resolved
use light_waf.Prelude.{
  ℕ, Bool, false, not, List, [], ◌∷◌, ◌++◌, Bytes, codes, ◌=bytes◌, split, any, filterb, is_empty,
  leb, ◌==◌, if◌then◌else◌,
}
use light_waf.Prelude.Utf8.{from_utf8_lossy}
use light_waf.Normalizer.Percent.{Decoded, pipeline_cap, percent_overlong_fixpoint}
use light_waf.Normalizer.Canonical.{TextOps}

-- `Vec::pop`
unfoldable pub pop : List Bytes → List Bytes
pop [] = []
pop (x ∷ []) = []
pop (x ∷ y ∷ rest) = x ∷ pop (y ∷ rest)

-- one segment of the path
unfoldable pub take_segment : List Bytes → Bytes → List Bytes
unfolding pop
take_segment segments seg =
    if seg =bytes []
    then segments
    else if seg =bytes codes "."
    then segments
    else if seg =bytes codes ".."
    then pop segments
    else segments ++ (seg ∷ [])

unfoldable pub resolve_segments : List Bytes → List Bytes → List Bytes
unfolding take_segment
resolve_segments segments [] = segments
resolve_segments segments (seg ∷ rest) = resolve_segments (take_segment segments seg) rest

-- a slash before each segment
unfoldable pub render : List Bytes → Bytes
render [] = []
render (seg ∷ rest) = b'/' ∷ (seg ++ render rest)

-- a single slash if no segment is left
unfoldable pub or_root : Bytes → Bytes
or_root out = if is_empty out then b'/' ∷ [] else out

unfoldable pub resolve_path : Bytes → Bytes
unfolding resolve_segments render or_root
resolve_path path = or_root (render (resolve_segments [] (split b'/' path)))

pub record NormalizedPath : Type 0 where
  pub path : Bytes
  pub double_encoding_detected : Bool
  pub null_byte_detected : Bool

unfoldable pub normalize_path : TextOps → Bytes → NormalizedPath
normalize_path ops raw =
    let d = percent_overlong_fixpoint raw false pipeline_cap in
    let nfkc = ops.nfkc (from_utf8_lossy d.bytes) in
    let no_nulls = filterb (λ c. not (c == 0)) nfkc in
    record {
      path = resolve_path (ops.to_lowercase no_nulls);
      double_encoding_detected = leb 2 d.passes;
      null_byte_detected = any (λ c. c == 0) nfkc;
    }
