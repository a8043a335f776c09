-- ===== src/Normalizer/Percent/Decode.antt =====
-- One pass of percent decoding: it undoes percent encoding, and never makes a value longer.
use light_waf.Prelude.{
  ℕ, ◌+◌, ◌*◌, ◌/◌, ◌%◌, ◌≤◌, ◌<◌, Bool, true, [], ◌∷◌, ◌≡◌, refl, arith, Bytes, All, length, ltb,
  if◌then◌else◌,
}
use light_waf.Prelude.Bits.{bit_or-disjoint}
use light_waf.Normalizer.Percent.{is_hex, hex_val, hex_byte, percent_decode_bytes}

abbrev pub IsByte : ℕ → Type 0
IsByte b = b < 256

-- an upper-case hexadecimal digit
abbrev pub hex_digit : ℕ → ℕ
hex_digit n = if ltb n 10 then n + 48 else n + 55

-- Percent encoding, of every byte.
abbrev pub percent_encode : Bytes → Bytes
percent_encode [] = []
percent_encode (b ∷ bs) = b'%' ∷ hex_digit (b / 16) ∷ hex_digit (b % 16) ∷ percent_encode bs

pub hex_digit-lt : (n : ℕ) → n < 16 → hex_digit n < 128
hex_digit-lt n h = ground arith

is_hex-hex_digit : (n : ℕ) → n < 16 → is_hex (hex_digit n) ≡ true
unfolding is_hex
is_hex-hex_digit n h = ground arith

hex_val-hex_digit : (n : ℕ) → n < 16 → hex_val (hex_digit n) ≡ n
unfolding hex_val
hex_val-hex_digit n h = ground arith

hex_byte-hex_digit : (b : ℕ) → IsByte b → hex_byte (hex_digit (b / 16)) (hex_digit (b % 16)) ≡ b
unfolding hex_byte
hex_byte-hex_digit b h =
    rw (hex_val-hex_digit (b / 16) (omega arith), hex_val-hex_digit (b % 16) (omega arith))
      (rw (small b h) (rw (bit_or-disjoint 4 (b / 16) (b % 16) (omega arith)) (omega arith)))
  where
    small : (b : ℕ) → b < 256 → b / 16 * 16 % 256 ≡ b / 16 * 16
    small b h = omega arith

pub percent_decode_bytes-escape :
    (plus : Bool) (h l : ℕ) (rest : Bytes)
    → is_hex h ≡ true
    → is_hex l ≡ true
    → percent_decode_bytes plus (b'%' ∷ h ∷ l ∷ rest)
      ≡ hex_byte h l ∷ percent_decode_bytes plus rest
unfolding percent_decode_bytes
percent_decode_bytes-escape plus h l rest p q = rw (p, q)

-- Decoding undoes the encoding of every byte string, in form mode and outside it.
pub percent_decode_bytes-percent_encode :
    (plus : Bool) (bs : Bytes) → All IsByte bs → percent_decode_bytes plus (percent_encode bs) ≡ bs
percent_decode_bytes-percent_encode plus [] a = unfold percent_decode_bytes in refl
percent_decode_bytes-percent_encode plus (b ∷ bs) a =
    rw
      (percent_decode_bytes-escape plus (hex_digit (b / 16)) (hex_digit (b % 16))
        (percent_encode bs) (is_hex-hex_digit (b / 16) (omega arith))
        (is_hex-hex_digit (b % 16) (omega arith)))
      (rw (hex_byte-hex_digit b a.0, percent_decode_bytes-percent_encode plus bs a.1))

pub length-percent_decode_bytes :
    (plus : Bool) (bs : Bytes) → length (percent_decode_bytes plus bs) ≤ length bs
unfolding percent_decode_bytes
length-percent_decode_bytes plus [] = omega arith
length-percent_decode_bytes plus (c ∷ []) = omega arith
length-percent_decode_bytes plus (c ∷ d ∷ []) = omega arith
length-percent_decode_bytes plus (c ∷ h ∷ l ∷ rest) =
    ground (
      arith,
      length-percent_decode_bytes plus (h ∷ l ∷ rest),
      length-percent_decode_bytes plus rest,
    )
