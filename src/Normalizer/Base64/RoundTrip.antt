-- ===== src/Normalizer/Base64/RoundTrip.antt =====
-- Base64 decoding undoes base64 encoding, padded or not.
use light_waf.Prelude.{
  ℕ, ◌+◌, ◌-◌, ◌*◌, ◌/◌, ◌%◌, ◌^◌, ◌<◌, bit_or, false, ◌≢◌, some, [], ◌∷◌, ◌++◌, append_assoc,
  append-nil, ◌≡◌, refl, sym, ap, ap₂, ◌∙◌, arith, Bytes, All, ltb, ◌==◌, if◌then◌else◌,
}
use light_waf.Prelude.Bits.{bit_or-disjoint}
use light_waf.Normalizer.Percent.Decode.{IsByte}
use light_waf.Normalizer.Base64.{trim_padding, base64_val, decode_loop, base64_decode}

-- the digit of a 6-bit number (RFC 4648, the standard alphabet)
abbrev pub base64_digit : ℕ → ℕ
base64_digit v =
    if ltb v 26
    then v + 65
    else if ltb v 52
    then v + 71
    else if ltb v 62
    then v - 4
    else if v == 62
    then 43
    else 47

-- Encoding without padding: three bytes become four digits.
abbrev pub encode_core : Bytes → Bytes
encode_core [] = []
encode_core (a ∷ []) = base64_digit (a / 4) ∷ base64_digit (a % 4 * 16) ∷ []
encode_core (a ∷ b ∷ []) =
    base64_digit (a / 4) ∷ base64_digit (a % 4 * 16 + b / 16) ∷ base64_digit (b % 16 * 4) ∷ []
encode_core (a ∷ b ∷ c ∷ rest) =
    base64_digit (a / 4)
    ∷ base64_digit (a % 4 * 16 + b / 16)
    ∷ base64_digit (b % 16 * 4 + c / 64)
    ∷ base64_digit (c % 64)
    ∷ encode_core rest

base64_val-base64_digit : (v : ℕ) → v < 64 → base64_val (base64_digit v) ≡ some v
unfolding base64_val
base64_val-base64_digit v h = ground arith

base64_digit-ne : (v : ℕ) → v < 64 → base64_digit v ≢ b'='
base64_digit-ne v h = ground arith

shift_in : (buf v : ℕ) → v < 64 → bit_or (buf * 64 % 2 ^ 32) v ≡ buf % 2 ^ 26 * 64 + v
shift_in buf v h = rw (drop_high buf) (bit_or-disjoint 6 (buf % 2 ^ 26) v h)
  where
    drop_high : (buf : ℕ) → buf * 64 % 2 ^ 32 ≡ buf % 2 ^ 26 * 64
    drop_high buf = omega arith

abbrev next_buf : ℕ → ℕ → ℕ
next_buf buf v = buf % 2 ^ 26 * 64 + v

module _ (c v : ℕ) (digit : base64_val c ≡ some v) (small : v < 64) (cs : Bytes) (buf : ℕ)
    (out : Bytes) where
  digit_at_0 : decode_loop (c ∷ cs) buf 0 out ≡ decode_loop cs (next_buf buf v) 6 out
  unfolding decode_loop
  digit_at_0 = rw (digit, decode_loop) (rw (shift_in buf v small))

  digit_at_6 :
      decode_loop (c ∷ cs) buf 6 out
      ≡ decode_loop cs (next_buf buf v) 4 (out ++ (next_buf buf v / 16 % 256 ∷ []))
  unfolding decode_loop
  digit_at_6 = rw (digit, decode_loop) (rw (shift_in buf v small))

  digit_at_4 :
      decode_loop (c ∷ cs) buf 4 out
      ≡ decode_loop cs (next_buf buf v) 2 (out ++ (next_buf buf v / 4 % 256 ∷ []))
  unfolding decode_loop
  digit_at_4 = rw (digit, decode_loop) (rw (shift_in buf v small))

  digit_at_2 :
      decode_loop (c ∷ cs) buf 2 out
      ≡ decode_loop cs (next_buf buf v) 0 (out ++ (next_buf buf v / 1 % 256 ∷ []))
  unfolding decode_loop
  digit_at_2 = rw (digit, decode_loop) (rw (shift_in buf v small))

first_of :
    (buf a w : ℕ)
    → IsByte a
    → w < 16
    → next_buf (next_buf buf (a / 4)) (a % 4 * 16 + w) / 16 % 256 ≡ a
first_of buf a w h k = omega arith

second_of :
    (buf a b w : ℕ)
    → IsByte b
    → w < 4
    → next_buf (next_buf buf (a % 4 * 16 + b / 16)) (b % 16 * 4 + w) / 4 % 256 ≡ b
second_of buf a b w h k = omega arith

third_of :
    (buf b c : ℕ) → IsByte c → next_buf (next_buf buf (b % 16 * 4 + c / 64)) (c % 64) / 1 % 256 ≡ c
third_of buf b c h = omega arith

abbrev digit_val : (v : ℕ) → v < 64 → base64_val (base64_digit v) ≡ some v
digit_val = base64_val-base64_digit

-- two digits write one byte, three write two and four write three
module _ (v w : ℕ) (hv : v < 64) (hw : w < 64) (cs : Bytes) (buf : ℕ) (out : Bytes) where
  abbrev buf_2 : ℕ
  buf_2 = next_buf (next_buf buf v) w

  abbrev out_1 : Bytes
  out_1 = out ++ (buf_2 / 16 % 256 ∷ [])

  two_digits :
      decode_loop (base64_digit v ∷ base64_digit w ∷ cs) buf 0 out ≡ decode_loop cs buf_2 4 out_1
  two_digits =
      digit_at_0 (base64_digit v) v (digit_val v hv) hv (base64_digit w ∷ cs) buf out
      ∙ digit_at_6 (base64_digit w) w (digit_val w hw) hw cs (next_buf buf v) out

module _ (v w x : ℕ) (hv : v < 64) (hw : w < 64) (hx : x < 64) (cs : Bytes) (buf : ℕ)
    (out : Bytes) where
  abbrev buf_3 : ℕ
  buf_3 = next_buf (next_buf (next_buf buf v) w) x

  abbrev out_2 : Bytes
  out_2 = (out ++ (next_buf (next_buf buf v) w / 16 % 256 ∷ [])) ++ (buf_3 / 4 % 256 ∷ [])

  three_digits :
      decode_loop (base64_digit v ∷ base64_digit w ∷ base64_digit x ∷ cs) buf 0 out
      ≡ decode_loop cs buf_3 2 out_2
  three_digits =
      two_digits v w hv hw (base64_digit x ∷ cs) buf out
      ∙ digit_at_4 (base64_digit x) x (digit_val x hx) hx cs (next_buf (next_buf buf v) w)
          (out ++ (next_buf (next_buf buf v) w / 16 % 256 ∷ []))

join_three :
    (out : Bytes) (a b c : ℕ) (rest : Bytes)
    → (((out ++ (a ∷ [])) ++ (b ∷ [])) ++ (c ∷ [])) ++ rest ≡ out ++ (a ∷ b ∷ c ∷ rest)
join_three out a b c rest = simp append_assoc

first_only : (buf a : ℕ) → IsByte a → next_buf (next_buf buf (a / 4)) (a % 4 * 16) / 16 % 256 ≡ a
first_only buf a h = omega arith

second_only :
    (buf a b : ℕ)
    → IsByte b
    → next_buf (next_buf buf (a % 4 * 16 + b / 16)) (b % 16 * 4) / 4 % 256 ≡ b
second_only buf a b h = omega arith

decode_loop-end : (buf bits : ℕ) (out : Bytes) → decode_loop [] buf bits out ≡ some out
unfolding decode_loop
decode_loop-end buf bits out = refl

decode_loop-encode_core :
    (bs : Bytes) (buf : ℕ) (out : Bytes)
    → All IsByte bs
    → decode_loop (encode_core bs) buf 0 out ≡ some (out ++ bs)
decode_loop-encode_core [] buf out h = decode_loop-end buf 0 out ∙ ap some (sym (append-nil out))
decode_loop-encode_core (a ∷ []) buf out h =
    two_digits (a / 4) (a % 4 * 16) (omega arith) (omega arith) [] buf out
    ∙ decode_loop-end _ 4 _
    ∙ ap (λ x. some (out ++ (x ∷ []))) (first_only buf a h.0)
decode_loop-encode_core (a ∷ b ∷ []) buf out h =
    three_digits (a / 4) (a % 4 * 16 + b / 16) (b % 16 * 4) (omega arith) (omega arith)
      (omega arith) [] buf out
    ∙ decode_loop-end _ 2 _
    ∙ ap₂ (λ x y. some ((out ++ (x ∷ [])) ++ (y ∷ []))) (first_of buf a (b / 16) h.0 (omega arith))
        (second_only (next_buf buf (a / 4)) a b h.1.0)
    ∙ ap some (append_assoc out (a ∷ []) (b ∷ []))
decode_loop-encode_core (a ∷ b ∷ c ∷ rest) buf out h =
    let v = a / 4 in
    let w = a % 4 * 16 + b / 16 in
    let x = b % 16 * 4 + c / 64 in
    let y = c % 64 in
    let buf3 = next_buf (next_buf (next_buf buf v) w) x in
    let last : y < 64 = omega arith in
    three_digits v w x (omega arith) (omega arith) (omega arith) (base64_digit y ∷ encode_core rest)
      buf out
    ∙ digit_at_2 (base64_digit y) y (digit_val y last) last (encode_core rest) buf3 _
    ∙ decode_loop-encode_core rest (next_buf buf3 y) _ h.1.1.1
    ∙ ap some (
        join_three out _ _ _ rest
        ∙ ap₂ (λ s t. out ++ (s ∷ t)) (first_of buf a (b / 16) h.0 (omega arith))
            (ap₂ (λ s t. s ∷ t ∷ rest) (second_of (next_buf buf v) a b (c / 64) h.1.0 (omega arith))
              (third_of (next_buf (next_buf buf v) w) b c h.1.1.0)))

abbrev pub padding : Bytes → Bytes
padding [] = []
padding (a ∷ []) = b'=' ∷ b'=' ∷ []
padding (a ∷ b ∷ []) = b'=' ∷ []
padding (a ∷ b ∷ c ∷ rest) = padding rest

trim_padding-append :
    (core pad : Bytes)
    → All (λ c. c ≢ b'=') core
    → All (λ c. c ≡ b'=') pad
    → trim_padding (core ++ pad) ≡ core
unfolding trim_padding
trim_padding-append [] [] n e = refl
trim_padding-append [] (c ∷ pad) n e = rw (trim_padding-append [] pad tt e.1, e.0) refl
trim_padding-append (c ∷ core) pad n e = rw (trim_padding-append core pad n.1, other c n.0) refl
  where
    other : (c : ℕ) → c ≢ b'=' → (c == b'=') ≡ false
    other c h = ground arith

padding-All : (bs : Bytes) → All (λ c. c ≡ b'=') (padding bs)
padding-All [] = tt
padding-All (a ∷ []) = (refl, (refl, tt))
padding-All (a ∷ b ∷ []) = (refl, tt)
padding-All (a ∷ b ∷ c ∷ rest) = padding-All rest

encode_core-All : (bs : Bytes) → All IsByte bs → All (λ c. c ≢ b'=') (encode_core bs)
encode_core-All [] h = tt
encode_core-All (a ∷ []) h =
    (base64_digit-ne (a / 4) (omega arith), (base64_digit-ne (a % 4 * 16) (omega arith), tt))
encode_core-All (a ∷ b ∷ []) h = (
  base64_digit-ne (a / 4) (omega arith),
  (
    base64_digit-ne (a % 4 * 16 + b / 16) (omega arith),
    (base64_digit-ne (b % 16 * 4) (omega arith), tt),
  ),
)
encode_core-All (a ∷ b ∷ c ∷ rest) h = (
  base64_digit-ne (a / 4) (omega arith),
  (
    base64_digit-ne (a % 4 * 16 + b / 16) (omega arith),
    (
      base64_digit-ne (b % 16 * 4 + c / 64) (omega arith),
      (base64_digit-ne (c % 64) (omega arith), encode_core-All rest h.1.1.1),
    ),
  ),
)

-- Decoding gives back every byte string from its base64 encoding, with `=` padding and without.
pub base64_decode-encode_core :
    (bs : Bytes)
    → All IsByte bs
    → (base64_decode (encode_core bs ++ padding bs) ≡ some bs)
      × (base64_decode (encode_core bs) ≡ some bs)
unfolding base64_decode
base64_decode-encode_core bs h =
    let plain = trim_padding-append (encode_core bs) [] (encode_core-All bs h) tt in
    (
      rw (trim_padding-append (encode_core bs) (padding bs) (encode_core-All bs h) (padding-All bs))
          (decode_loop-encode_core bs 0 [] h),
      rw (← append-nil (encode_core bs)) (rw plain (decode_loop-encode_core bs 0 [] h)),
    )
