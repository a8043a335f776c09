-- ===== src/Normalizer/Grpc/Varint.antt =====
-- Reading a base-128 varint gives back the number that its groups of seven bits spell.
use native.Mathlib.Nat.{pow-suc, mul-le-mul_right, mod-eq_of_lt}
use light_waf.Prelude.{
  ℕ, zero, suc, ◌+◌, ◌*◌, ◌/◌, ◌%◌, ◌^◌, ◌≤◌, ◌<◌, bit_and, bit_or, true, false, some, [], ◌∷◌,
  ◌++◌, Bytes, ◌≡◌, refl, ap, ◌∙◌, arith, ltb, ◌==◌, if◌then◌else◌, Bool-cases, inl, inr,
}
use light_waf.Prelude.Bits.{bit_and-ones, bit_or-disjoint, bit_or_comm, bit_and-shifted}
use light_waf.Normalizer.Grpc.{varint_loop, read_varint}

-- the groups of seven bits from the lowest on, each but the last with the top bit set; at most
-- `more` groups follow the first
abbrev pub encode_varint : ℕ → ℕ → Bytes
encode_varint zero v = v ∷ []
encode_varint (suc more) v =
    let rest = encode_varint more (v / 128) in if ltb v 128 then v ∷ [] else (128 + v % 128) ∷ rest

low_bits : (byte : ℕ) → bit_and byte 0x7f ≡ byte % 128
low_bits byte = bit_and-ones 7 byte

top_bit : (byte : ℕ) → bit_and byte 0x80 ≡ bit_and (byte / 128) 1 * 128
top_bit byte = bit_and-shifted 7 byte 1

top_bit-small : (byte : ℕ) → byte < 128 → (bit_and byte 0x80 == 0) ≡ true
top_bit-small byte h = rw (top_bit byte, none byte h) refl
  where
    none : (byte : ℕ) → byte < 128 → byte / 128 ≡ 0
    none byte h = omega arith

top_bit-set : (low : ℕ) → low < 128 → (bit_and (128 + low) 0x80 == 0) ≡ false
top_bit-set low h = rw (top_bit (128 + low), one low h) refl
  where
    one : (low : ℕ) → low < 128 → (128 + low) / 128 ≡ 1
    one low h = omega arith

weight-suc : (k : ℕ) → 2 ^ (7 * (k + 1)) ≡ 128 * 2 ^ (7 * k)
weight-suc k = ap (λ n. 2 ^ n) (place k) ∙ seven (7 * k)
  where
    place : (k : ℕ) → 7 * (k + 1) ≡ suc (suc (suc (suc (suc (suc (suc (7 * k)))))))
    place k = omega arith

    seven : (n : ℕ) → 2 ^ suc (suc (suc (suc (suc (suc (suc n)))))) ≡ 128 * 2 ^ n
    seven n =
        rw
          (
            pow-suc 2 _,
            pow-suc 2 _,
            pow-suc 2 _,
            pow-suc 2 _,
            pow-suc 2 _,
            pow-suc 2 _,
            pow-suc 2 n,
          )
          (omega arith)

-- one group is put above the groups that are read
join :
    (k result low : ℕ)
    → result < 2 ^ (7 * k)
    → low * 2 ^ (7 * k) < 2 ^ 64
    → bit_or result (low * 2 ^ (7 * k) % 2 ^ 64) ≡ result + low * 2 ^ (7 * k)
join k result low h l =
    rw
      (mod-eq_of_lt l, bit_or_comm result (low * 2 ^ (7 * k)), bit_or-disjoint (7 * k) low result h)
      (omega arith)

below : (p result low : ℕ) → result < p → low < 128 → result + low * p < 128 * p
below p result low h l = grind arith

low_part : (p result v : ℕ) → result + v * p < 2 ^ 64 → v % 128 * p < 2 ^ 64
low_part p result v h = go (v % 128) v (omega arith) h
  where
    go : (r v : ℕ) → r ≤ v → result + v * p < 2 ^ 64 → r * p < 2 ^ 64
    go r v l h = omega (arith, mul-le-mul_right p l)

regroup : (p result v : ℕ) → result + v % 128 * p + v / 128 * (128 * p) ≡ result + v * p
regroup p result v = split_at (v / 128) (v % 128) ∙ ap (λ t. result + t * p) (omega arith)
  where
    split_at : (q r : ℕ) → result + r * p + q * (128 * p) ≡ result + (q * 128 + r) * p
    split_at q r = grind arith

module _ (left k result : ℕ) (rest : Bytes) (r : result < 2 ^ (7 * k)) where
  last_group :
      (v : ℕ)
      → v < 128
      → result + v * 2 ^ (7 * k) < 2 ^ 64
      → varint_loop (suc left) k result (v ∷ rest) ≡ some (result + v * 2 ^ (7 * k), rest)
  unfolding varint_loop
  last_group v small fits =
      rw
        (top_bit-small v small, low_bits v, low_of v small, join k result v r (omega (arith, fits)))
        refl
    where
      low_of : (v : ℕ) → v < 128 → v % 128 ≡ v
      low_of v small = omega arith

  next_group :
      (low : ℕ)
      → low < 128
      → low * 2 ^ (7 * k) < 2 ^ 64
      → varint_loop (suc left) k result ((128 + low) ∷ rest)
        ≡ varint_loop left (k + 1) (result + low * 2 ^ (7 * k)) rest
  unfolding varint_loop
  next_group low small fits =
      rw (top_bit-set low small, low_bits (128 + low), low_of low small, join k result low r fits)
        refl
    where
      low_of : (low : ℕ) → low < 128 → (128 + low) % 128 ≡ low
      low_of low small = omega arith

varint_loop-encode_varint :
    (more left k result v : ℕ) (rest : Bytes)
    → more < left
    → v < 128 ^ suc more
    → result < 2 ^ (7 * k)
    → result + v * 2 ^ (7 * k) < 2 ^ 64
    → varint_loop left k result (encode_varint more v ++ rest)
      ≡ some (result + v * 2 ^ (7 * k), rest)
varint_loop-encode_varint more zero k result v rest l h r fits = absurd (omega arith)
varint_loop-encode_varint zero (suc left) k result v rest l h r fits =
    last_group left k result rest r v (omega arith) fits
varint_loop-encode_varint (suc more) (suc left) k result v rest l h r fits =
    elim (Bool-cases (ltb v 128)) [
      | inl small ↦ rw small (last_group left k result rest r v (ground arith) fits)
      | inr large ↦
          let low = v % 128 in
          let p = 2 ^ (7 * k) in
          let whole : result + low * p + v / 128 * 2 ^ (7 * (k + 1)) ≡ result + v * p =
            ap (λ w. result + low * p + v / 128 * w) (weight-suc k) ∙ regroup p result v in
          rw large (
            next_group left k result (encode_varint more (v / 128) ++ rest) r low (omega arith)
              (low_part p result v fits)
            ∙ varint_loop-encode_varint more left (k + 1) (result + low * p) (v / 128) rest
                (omega arith) (omega (arith, pow-suc 128 (suc more)))
                (omega (arith, weight-suc k, below p result low r (omega arith)))
                (omega (arith, whole))
            ∙ ap (λ n. some (n, rest)) whole)
    ]

-- Reading gives back every 64-bit number from its encoding in up to ten bytes, and leaves what stands
-- behind it.
pub read_varint-encode_varint :
    (v : ℕ) (rest : Bytes) → v < 2 ^ 64 → read_varint (encode_varint 9 v ++ rest) ≡ some (v, rest)
unfolding read_varint
read_varint-encode_varint v rest h =
    varint_loop-encode_varint 9 10 0 0 v rest (omega arith) (omega arith) (omega arith)
      (omega arith)
    ∙ ap (λ n. some (n, rest)) (omega arith)
