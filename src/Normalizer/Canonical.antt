-- ===== src/Normalizer/Canonical.antt =====
-- crates/waf-normalizer/src/url.rs: the canonical form of one value.
--
-- NFKC is the crate unicode_normalization's, and lower-casing is the standard library's, by the
-- Unicode tables: both are parameters, and nothing is assumed of them.
use light_waf.Prelude.{Bool, false, Bytes, leb}
use light_waf.Prelude.Utf8.{from_utf8_lossy}
use light_waf.Normalizer.Percent.{
  still_percent_encoded, percent_decode_bytes, collapse_overlong, pipeline_cap,
  percent_overlong_fixpoint,
}

pub record TextOps : Type 0 where
  pub nfkc : Bytes → Bytes
  pub to_lowercase : Bytes → Bytes

-- one pass, and whether what is left still holds an escape
unfoldable pub percent_decode : Bytes → Bool → Bytes × Bool
percent_decode input plus_as_space =
    let decoded = from_utf8_lossy (percent_decode_bytes plus_as_space input) in
    (decoded, still_percent_encoded decoded)

unfoldable pub decode_overlong_utf8 : Bytes → Bytes
decode_overlong_utf8 input = from_utf8_lossy (collapse_overlong input)

module _ (ops : TextOps) where
  unfoldable pub canonicalize_value : Bytes → Bool → Bytes × Bool
  canonicalize_value raw plus_as_space =
      let d = percent_overlong_fixpoint raw plus_as_space pipeline_cap in
      (ops.nfkc (from_utf8_lossy d.bytes), leb 2 d.passes)

  unfoldable pub canonicalize_multipart_field : Bytes → Bytes
  canonicalize_multipart_field raw = (canonicalize_value raw false).0
