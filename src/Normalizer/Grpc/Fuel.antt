-- ===== src/Normalizer/Grpc/Fuel.antt =====
-- The walk ends by itself: every field takes at least a byte, so the message's length is enough fuel.
use mathlib.Core.Option
use light_waf.Prelude.{
  ℕ, zero, suc, ◌+◌, ◌≤◌, ◌<◌, bit_and, Option, none, some, [], ◌∷◌, Bytes, ◌≡◌, refl, arith,
  length, length-take_le, length-drop, ltb, ◌==◌, Bool-cases, inl, inr,
}
use light_waf.Normalizer.Grpc.{
  GrpcLimits, GrpcExtract, Value, skipped, delimited, varint_loop, read_varint, skip, delimit,
  read_value, enter, take_field, after_value, after_tag, walk, parse_message,
}

-- what is read leaves fewer than `n` bytes
abbrev Shorter : ℕ → Option (ℕ × Bytes) → Type 0
Shorter n none = Unit
Shorter n (some (v, rest)) = length rest < n

varint_loop-Shorter :
    (left k result : ℕ) (bs : Bytes) → Shorter (length bs) (varint_loop left k result bs)
unfolding varint_loop
varint_loop-Shorter zero k result bs = tt
varint_loop-Shorter (suc left) k result [] = tt
varint_loop-Shorter (suc left) k result (byte ∷ rest) = elim (Bool-cases (bit_and byte 0x80 == 0)) [
  | inl last ↦ rw last (omega arith)
  | inr going ↦ rw going (
      later (length rest) (varint_loop left (k + 1) _ rest)
        (varint_loop-Shorter left (k + 1) _ rest))
]
  where
    later : (n : ℕ) (r : Option (ℕ × Bytes)) → Shorter n r → Shorter (suc n) r
    later n none h = tt
    later n (some (v, bs)) h = omega arith

read_varint-Shorter : (bs : Bytes) → Shorter (length bs) (read_varint bs)
unfolding read_varint
read_varint-Shorter = varint_loop-Shorter 10 0 0

-- neither the value nor what is behind it is longer than `n`
abbrev Fits : ℕ → Option Value → Type 0
Fits n none = Unit
Fits n (some (skipped rest)) = length rest ≤ n
Fits n (some (delimited field rest)) = (length field ≤ n) × (length rest ≤ n)

skip-Fits : (n : ℕ) (bs : Bytes) → Fits (length bs) (skip n bs)
unfolding skip
skip-Fits n bs = elim (Bool-cases (ltb (length bs) n)) [
  | inl short ↦ rw short tt
  | inr enough ↦ rw enough (omega (arith, length-drop n bs))
]

delimit-Fits : (n : ℕ) (r : Option (ℕ × Bytes)) → Shorter n r → Fits n (delimit r)
unfolding delimit
delimit-Fits n none h = tt
delimit-Fits n (some (len, bs)) h = elim (Bool-cases (ltb (length bs) len)) [
  | inl short ↦ rw short tt
  | inr enough ↦
      let room : len ≤ length bs = ground arith in
      rw enough (omega (arith, length-take_le len bs room), omega (arith, length-drop len bs))
]

scalar-Fits :
    (n : ℕ) (r : Option (ℕ × Bytes))
    → Shorter n r
    → Fits n (Option.map (λ (r : ℕ × Bytes). skipped r.1) r)
scalar-Fits n none h = tt
scalar-Fits n (some (v, rest)) h = omega arith

read_value-Fits : (wire : ℕ) (bs : Bytes) → Fits (length bs) (read_value wire bs)
unfolding read_value
read_value-Fits wire bs = elim (Bool-cases (wire == 0)) [
  | inl varint ↦ rw varint (scalar-Fits (length bs) (read_varint bs) (read_varint-Shorter bs))
  | inr not_0 ↦ rw not_0 (elim (Bool-cases (wire == 1)) [
    | inl long ↦ rw long (skip-Fits 8 bs)
    | inr not_1 ↦ rw not_1 (elim (Bool-cases (wire == 5)) [
      | inl word ↦ rw word (skip-Fits 4 bs)
      | inr not_5 ↦ rw not_5 (elim (Bool-cases (wire == 2)) [
        | inl len ↦ rw len (delimit-Fits (length bs) (read_varint bs) (read_varint-Shorter bs))
        | inr unknown ↦ rw unknown tt
      ])
    ])
  ])
]

module _ (limits : GrpcLimits) where
  abbrev Walk : Type 0
  Walk = Bytes → ℕ → GrpcExtract → GrpcExtract

  -- two walks agree on what is at most `n` bytes long
  abbrev Agree : ℕ → Walk → Walk → Type 0
  Agree n f g =
      (bs : Bytes) (depth : ℕ) (out : GrpcExtract) → length bs ≤ n → f bs depth out ≡ g bs depth out

  take_field-Agree :
      (n : ℕ) (f g : Walk) (field : Bytes) (depth : ℕ) (out : GrpcExtract)
      → Agree n f g
      → length field ≤ n
      → take_field limits f field depth out ≡ take_field limits g field depth out
  unfolding take_field
  take_field-Agree n f g field depth out same l =
      rw (same field (depth + 1) (enter (depth + 1) out) l)

  after_value-Agree :
      (n : ℕ) (f g : Walk) (value : Option Value) (depth : ℕ) (out : GrpcExtract)
      → Agree n f g
      → Fits n value
      → after_value limits f value depth out ≡ after_value limits g value depth out
  unfolding after_value
  after_value-Agree n f g none depth out same h = refl
  after_value-Agree n f g (some (skipped rest)) depth out same h = same rest depth out h
  after_value-Agree n f g (some (delimited field rest)) depth out same h =
      rw (take_field-Agree n f g field depth out same h.0) (same rest depth _ h.1)

  after_tag-Agree :
      (n : ℕ) (f g : Walk) (tag : Option (ℕ × Bytes)) (depth : ℕ) (out : GrpcExtract)
      → Agree n f g
      → Shorter (suc n) tag
      → after_tag limits f tag depth out ≡ after_tag limits g tag depth out
  unfolding after_tag
  after_tag-Agree n f g none depth out same h = refl
  after_tag-Agree n f g (some (tag, rest)) depth out same h = rw (
      after_value-Agree n f g (read_value (bit_and tag 7) rest) depth _ same
        (widen (read_value (bit_and tag 7) rest) (read_value-Fits (bit_and tag 7) rest)))
    where
      widen : (v : Option Value) → Fits (length rest) v → Fits n v
      widen none k = tt
      widen (some (skipped r)) k = omega arith
      widen (some (delimited field r)) k = (omega arith, omega arith)

  walk_fuel :
      (f g : ℕ) (bs : Bytes) (depth : ℕ) (out : GrpcExtract)
      → length bs ≤ f
      → length bs ≤ g
      → walk limits f bs depth out ≡ walk limits g bs depth out
  unfolding walk
  walk_fuel zero zero bs depth out _ _ = refl
  walk_fuel zero (suc g) [] depth out _ _ = refl
  walk_fuel (suc f) zero [] depth out _ _ = refl
  walk_fuel (suc f) (suc g) [] depth out _ _ = refl
  walk_fuel zero (suc g) (b ∷ bs) depth out l _ = absurd (omega arith)
  walk_fuel (suc f) zero (b ∷ bs) depth out _ l = absurd (omega arith)
  walk_fuel (suc f) (suc g) (b ∷ bs) depth out l k =
      after_tag-Agree (length bs) (walk limits f) (walk limits g) (read_varint (b ∷ bs)) depth out
        (λ cs d o h. walk_fuel f g cs d o (omega arith) (omega arith))
        (shorter (read_varint (b ∷ bs)) (read_varint-Shorter (b ∷ bs)))
    where
      shorter : (r : Option (ℕ × Bytes)) → Shorter (length (b ∷ bs)) r → Shorter (suc (length bs)) r
      shorter none h = tt
      shorter (some (v, rest)) h = omega arith

  -- The walk of a message ends by itself: with any fuel of at least the message's length, the loop
  -- gives what `parse_message` gives.
  pub parse_message-walk :
      (fuel : ℕ) (buf : Bytes) (depth : ℕ) (out : GrpcExtract)
      → length buf ≤ fuel
      → walk limits fuel buf depth (enter depth out) ≡ parse_message limits buf depth out
  unfolding parse_message
  parse_message-walk fuel buf depth out l =
      walk_fuel fuel (length buf) buf depth (enter depth out) l (omega arith)
