-- ===== src/Normalizer/Percent/Overlong.antt =====
-- The collapse of overlong sequences leaves none, so a second one changes nothing.
use light_waf.Prelude.{
  ℕ, ◌+◌, ◌*◌, ◌%◌, ◌≤◌, ◌<◌, true, false, [], ◌∷◌, ◌≡◌, refl, arith, Bytes, length, Bool-cases,
  inl, inr,
}
use light_waf.Prelude.Bits.{bit_or-disjoint, bit_and-ones}
use light_waf.Normalizer.Percent.{is_overlong, overlong_byte, collapse_overlong}

-- no two neighbours are an overlong sequence
abbrev pub NoOverlong : Bytes → Type 0
NoOverlong [] = Unit
NoOverlong (b ∷ []) = Unit
NoOverlong (b ∷ b2 ∷ rest) = (is_overlong b b2 ≡ false) × NoOverlong (b2 ∷ rest)

lead_low : (b b2 : ℕ) → is_overlong b b2 ≡ true → b % 32 ≤ 1
unfolding is_overlong
lead_low b b2 h = ground arith

-- the sequence stands for the 7-bit character that its bits spell
pub overlong_byte_lem :
    (b b2 : ℕ) → is_overlong b b2 ≡ true → overlong_byte b b2 ≡ b % 32 * 64 + b2 % 64
unfolding overlong_byte
overlong_byte_lem b b2 h =
    rw (bit_and-ones 5 b, bit_and-ones 6 b2)
      (rw (fits (b % 32) (lead_low b b2 h)) (bit_or-disjoint 6 (b % 32) (b2 % 64) (omega arith)))
  where
    fits : (m : ℕ) → m ≤ 1 → m * 64 % 256 ≡ m * 64
    fits m h = omega arith

overlong_byte-lt : (b b2 : ℕ) → is_overlong b b2 ≡ true → overlong_byte b b2 < 128
overlong_byte-lt b b2 h = omega (arith, overlong_byte_lem b b2 h, lead_low b b2 h)

-- An ASCII byte is no part of a sequence, on either side.
pub lead-not_overlong : (b b2 : ℕ) → b < 128 → is_overlong b b2 ≡ false
unfolding is_overlong
lead-not_overlong b b2 h = ground arith

tail-not_overlong : (b b2 : ℕ) → b2 < 128 → is_overlong b b2 ≡ false
unfolding is_overlong
tail-not_overlong b b2 h = ground arith

-- what a byte may stand before: it is ASCII, or starts no sequence with the byte behind it
abbrev Starts : ℕ → Bytes → Type 0
Starts b [] = Unit
Starts b (b2 ∷ rest) = is_overlong b b2 ≡ false

NoOverlong-cons : (b : ℕ) (bs : Bytes) → Starts b bs → NoOverlong bs → NoOverlong (b ∷ bs)
NoOverlong-cons b [] s n = tt
NoOverlong-cons b (b2 ∷ rest) s n = (s, n)

Starts-ascii : (b : ℕ) (bs : Bytes) → b < 128 → Starts b bs
Starts-ascii b [] h = tt
Starts-ascii b (b2 ∷ rest) h = lead-not_overlong b b2 h

Starts-collapse_overlong :
    (b b2 : ℕ) (rest : Bytes) → is_overlong b b2 ≡ false → Starts b (collapse_overlong (b2 ∷ rest))
unfolding collapse_overlong
Starts-collapse_overlong b b2 [] h = h
Starts-collapse_overlong b b2 (b3 ∷ rest) h = elim (Bool-cases (is_overlong b2 b3)) [
  | inl over ↦ rw over (tail-not_overlong b _ (overlong_byte-lt b2 b3 over))
  | inr none_here ↦ rw none_here h
]

pub collapse_overlong-NoOverlong : (bs : Bytes) → NoOverlong (collapse_overlong bs)
unfolding collapse_overlong
collapse_overlong-NoOverlong [] = tt
collapse_overlong-NoOverlong (b ∷ []) = tt
collapse_overlong-NoOverlong (b ∷ b2 ∷ rest) = elim (Bool-cases (is_overlong b b2)) [
  | inl over ↦ rw over (
      NoOverlong-cons (overlong_byte b b2) (collapse_overlong rest)
        (Starts-ascii _ (collapse_overlong rest) (overlong_byte-lt b b2 over))
        (collapse_overlong-NoOverlong rest))
  | inr none_here ↦ rw none_here (
      NoOverlong-cons b (collapse_overlong (b2 ∷ rest))
        (Starts-collapse_overlong b b2 rest none_here) (collapse_overlong-NoOverlong (b2 ∷ rest)))
]

pub collapse_overlong-id : (bs : Bytes) → NoOverlong bs → collapse_overlong bs ≡ bs
unfolding collapse_overlong
collapse_overlong-id [] n = refl
collapse_overlong-id (b ∷ []) n = refl
collapse_overlong-id (b ∷ b2 ∷ rest) n = rw (n.0, collapse_overlong-id (b2 ∷ rest) n.1)

-- The collapse leaves no overlong sequence behind, and a second collapse changes nothing.
pub collapse_overlong-IsCollapsed :
    (bs : Bytes)
    → NoOverlong (collapse_overlong bs)
      × (collapse_overlong (collapse_overlong bs) ≡ collapse_overlong bs)
collapse_overlong-IsCollapsed bs =
    let h = collapse_overlong-NoOverlong bs in (h, collapse_overlong-id (collapse_overlong bs) h)

pub length-collapse_overlong : (bs : Bytes) → length (collapse_overlong bs) ≤ length bs
unfolding collapse_overlong
length-collapse_overlong [] = omega arith
length-collapse_overlong (b ∷ []) = omega arith
length-collapse_overlong (b ∷ b2 ∷ rest) =
    ground (arith, length-collapse_overlong (b2 ∷ rest), length-collapse_overlong rest)
