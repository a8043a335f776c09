-- ===== src/Normalizer/Base64.antt =====
-- crates/waf-normalizer/src/url.rs: the base64 channel. Values are gated, decoded, kept if they look
-- like text, canonicalized, and decoded again within a budget shared with the percent decoding.
pub mod RoundTrip
pub mod Budget
use light_waf.Prelude.{
  ℕ, zero, suc, ◌+◌, ◌-◌, ◌*◌, ◌/◌, ◌%◌, ◌^◌, bit_or, Bool, true, false, not, ◌&&◌, ◌||◌, Option,
  none, some, List, [], ◌∷◌, ◌++◌, Bytes, all, any, filterb, is_empty, length, leb, ltb, ◌==◌,
  if◌then◌else◌,
}
use light_waf.Prelude.Utf8.{from_utf8_lossy}
use light_waf.Normalizer.Percent.{Decoded, pipeline_cap, percent_overlong_fixpoint}
use light_waf.Normalizer.Canonical.{TextOps}

abbrev pub base64_min_len : ℕ
base64_min_len = 12

-- `u8::is_ascii_alphanumeric`
unfoldable pub is_alphanumeric : ℕ → Bool
is_alphanumeric c = leb b'0' c && leb c b'9' || leb b'A' c && leb c b'Z' || leb b'a' c && leb c b'z'

-- `trim_end_matches('=')`
unfoldable pub trim_padding : Bytes → Bytes
trim_padding [] = []
trim_padding (c ∷ cs) =
    let rest = trim_padding cs in if c == b'=' && is_empty rest then [] else c ∷ rest

unfoldable pub is_base64_candidate : Bytes → ℕ → Bool
unfolding trim_padding is_alphanumeric
is_base64_candidate s len_min =
    if ltb (length s) len_min
    then false
    else let core = trim_padding s in
      not (is_empty core)
      && (not (length core % 4 == 1) && all (λ c. is_alphanumeric c || c == b'+' || c == b'/') core)

-- `val`
unfoldable pub base64_val : ℕ → Option ℕ
base64_val c =
    if leb b'A' c && leb c b'Z'
    then some (c - b'A')
    else if leb b'a' c && leb c b'z'
    then some (c - b'a' + 26)
    else if leb b'0' c && leb c b'9'
    then some (c - b'0' + 52)
    else if c == b'+'
    then some 62
    else if c == b'/'
    then some 63
    else none

-- The loop: a `u32` of bits read, whose upper bits are left over, and the number of bits not yet
-- written. The list is what has been written.
unfoldable pub decode_loop : Bytes → ℕ → ℕ → Bytes → Option Bytes
decode_loop [] buf bits out = some out
decode_loop (c ∷ cs) buf bits out = elim (base64_val c) [
  | none ↦ none
  | some v ↦
      let buf' = bit_or (buf * 64 % 2 ^ 32) v in
      let bits' = bits + 6 in
      if leb 8 bits'
      then decode_loop cs buf' (bits' - 8) (out ++ (buf' / 2 ^ (bits' - 8) % 256 ∷ []))
      else decode_loop cs buf' bits' out
]

unfoldable pub base64_decode : Bytes → Option Bytes
unfolding trim_padding decode_loop
base64_decode s = decode_loop (trim_padding s) 0 0 []

-- printable ASCII, CR, LF or TAB
unfoldable pub is_text_byte : ℕ → Bool
is_text_byte c = c == b'\r' || c == b'\n' || c == b'\t' || leb 0x20 c && leb c 0x7e

-- nine bytes in ten at least
unfoldable pub mostly_printable : Bytes → Bool
unfolding is_text_byte
mostly_printable b =
    if is_empty b then false else leb 90 (length (filterb is_text_byte b) * 100 / length b)

-- what is left of the budget, and the variants pushed
pub record Expanded : Type 0 where
  pub budget : ℕ
  pub out : List Bytes

-- the decoded text, if the value passes the gates
unfoldable pub decode_candidate : Bytes → Option Bytes
decode_candidate value =
    if is_base64_candidate value base64_min_len
    then elim (base64_decode value) [
      | none ↦ none
      | some decoded ↦ if mostly_printable decoded then some decoded else none
    ]
    else none

module _ (ops : TextOps) where
  -- Each call that goes on has spent a unit, so the budget bounds the depth: fuel is the budget on
  -- entry, and `expand_base64` gives exactly that.
  unfoldable pub expand_loop : ℕ → Bytes → ℕ → List Bytes → Expanded
  expand_loop zero value budget out = record { budget = budget; out = out }
  expand_loop (suc fuel) value zero out = record { budget = zero; out = out }
  expand_loop (suc fuel) value (suc budget) out = elim (decode_candidate value) [
    | none ↦ record { budget = suc budget; out = out }
    | some decoded ↦
        let d = percent_overlong_fixpoint decoded false budget in
        let canon = ops.nfkc (from_utf8_lossy d.bytes) in
        let inner = expand_loop fuel canon d.budget out in
        record { budget = inner.budget; out = inner.out ++ (canon ∷ []) }
  ]

  unfoldable pub expand_base64 : Bytes → ℕ → List Bytes → Expanded
  unfolding expand_loop
  expand_base64 value budget out = expand_loop budget value budget out

  unfoldable pub base64_derived : Bytes → List Bytes
  base64_derived value = (expand_base64 value pipeline_cap []).out
