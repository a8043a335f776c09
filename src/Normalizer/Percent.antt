-- ===== src/Normalizer/Percent.antt =====
-- crates/waf-normalizer/src/url.rs: percent decoding and the collapse of overlong UTF-8, each alone
-- and both to a fixed point within a budget. Bytes are numbers below 256; `<<` on a `u8` wraps.
pub mod Decode
pub mod Overlong
pub mod Fixpoint
use light_waf.Prelude.{
  ℕ, zero, suc, ◌+◌, ◌-◌, ◌*◌, ◌%◌, bit_and, bit_or, Bool, true, false, ◌&&◌, ◌||◌, List, [], ◌∷◌,
  Bytes, ◌=bytes◌, leb, ◌==◌, if◌then◌else◌,
}

-- `u8::is_ascii_hexdigit`
unfoldable pub is_hex : ℕ → Bool
is_hex b = leb b'0' b && leb b b'9' || leb b'a' b && leb b b'f' || leb b'A' b && leb b b'F'

unfoldable pub hex_val : ℕ → ℕ
hex_val b =
    if leb b'0' b && leb b b'9'
    then b - b'0'
    else if leb b'a' b && leb b b'f'
    then b - b'a' + 10
    else if leb b'A' b && leb b b'F'
    then b - b'A' + 10
    else 0

-- `(hex_val(hi) << 4) | hex_val(lo)`
unfoldable pub hex_byte : ℕ → ℕ → ℕ
unfolding hex_val
hex_byte hi lo = bit_or (hex_val hi * 16 % 256) (hex_val lo)

unfoldable pub still_percent_encoded : Bytes → Bool
unfolding is_hex
still_percent_encoded (a ∷ b ∷ c ∷ rest) =
    a == b'%' && (is_hex b && is_hex c) || still_percent_encoded (b ∷ c ∷ rest)
still_percent_encoded _ = false

-- a byte that starts no escape
unfoldable pub plain_byte : Bool → ℕ → ℕ
plain_byte plus_as_space c = if c == b'+' && plus_as_space then b' ' else c

unfoldable pub percent_decode_bytes : Bool → Bytes → Bytes
unfolding is_hex hex_byte plain_byte
percent_decode_bytes plus_as_space [] = []
percent_decode_bytes plus_as_space (c ∷ []) = plain_byte plus_as_space c ∷ []
percent_decode_bytes plus_as_space (c ∷ d ∷ []) =
    plain_byte plus_as_space c ∷ plain_byte plus_as_space d ∷ []
percent_decode_bytes plus_as_space (c ∷ h ∷ l ∷ rest) =
    let next = percent_decode_bytes plus_as_space (h ∷ l ∷ rest) in
    let after = percent_decode_bytes plus_as_space rest in
    if c == b'%' && (is_hex h && is_hex l)
    then hex_byte h l ∷ after
    else plain_byte plus_as_space c ∷ next

-- `0xC0` or `0xC1`, then a continuation byte
unfoldable pub is_overlong : ℕ → ℕ → Bool
is_overlong b b2 = (b == 0xc0 || b == 0xc1) && (leb 0x80 b2 && leb b2 0xbf)

-- `((b & 0x1F) << 6) | (b2 & 0x3F)`
unfoldable pub overlong_byte : ℕ → ℕ → ℕ
overlong_byte b b2 = bit_or (bit_and b 0x1f * 64 % 256) (bit_and b2 0x3f)

unfoldable pub collapse_overlong : Bytes → Bytes
unfolding is_overlong overlong_byte
collapse_overlong [] = []
collapse_overlong (b ∷ []) = b ∷ []
collapse_overlong (b ∷ b2 ∷ rest) =
    let next = collapse_overlong (b2 ∷ rest) in
    let after = collapse_overlong rest in
    if is_overlong b b2 then overlong_byte b b2 ∷ after else b ∷ next

-- one round of the fixed-point loop
unfoldable pub decode_pass : Bool → Bytes → Bytes
decode_pass plus_as_space bytes = collapse_overlong (percent_decode_bytes plus_as_space bytes)

pub record Decoded : Type 0 where
  pub bytes : Bytes
  pub passes : ℕ
  pub budget : ℕ

abbrev pub pipeline_cap : ℕ
pipeline_cap = 5

-- The loop, on the budget that is left; `+` is a space on the first pass only.
unfoldable pub fixpoint_loop : ℕ → Bool → Bytes → ℕ → Decoded
fixpoint_loop zero plus_as_space bytes passes = record {
  bytes = bytes;
  passes = passes;
  budget = zero;
}
fixpoint_loop (suc budget) plus_as_space bytes passes =
    let next = decode_pass (plus_as_space && passes == 0) bytes in
    let more = fixpoint_loop budget plus_as_space next (passes + 1) in
    if next =bytes bytes
    then record { bytes = bytes; passes = passes; budget = suc budget }
    else more

unfoldable pub percent_overlong_fixpoint : Bytes → Bool → ℕ → Decoded
unfolding fixpoint_loop
percent_overlong_fixpoint raw plus_as_space budget = fixpoint_loop budget plus_as_space raw 0
