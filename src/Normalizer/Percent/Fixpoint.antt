-- ===== src/Normalizer/Percent/Fixpoint.antt =====
-- The fixed-point loop: what it spends, when it has converged, and how many layers it peels off.
use Prim.Native.Nat.add
use native.Mathlib.Nat.{add-zero}
use light_waf.Prelude.{
  ℕ, zero, suc, ◌+◌, ◌/◌, ◌%◌, ◌≤◌, ◌<◌, Bool, false, ◌&&◌, [], ◌∷◌, ◌≡◌, ◌⊎◌, inl, inr, refl, ap,
  ◌∙◌, arith, Bytes, ◌=bytes◌, =bytes_iff, All, length, ◌==◌, Bool-cases,
}
use light_waf.Normalizer.Percent.{
  percent_decode_bytes, decode_pass, Decoded, fixpoint_loop, percent_overlong_fixpoint,
}
use light_waf.Normalizer.Percent.Decode.{
  IsByte, percent_encode, hex_digit-lt, percent_decode_bytes-percent_encode,
  length-percent_decode_bytes,
}
use light_waf.Normalizer.Percent.Overlong.{
  NoOverlong, lead-not_overlong, collapse_overlong-id, length-collapse_overlong,
}

length-decode_pass : (plus : Bool) (bs : Bytes) → length (decode_pass plus bs) ≤ length bs
unfolding decode_pass
length-decode_pass plus bs = omega (
  arith,
  length-collapse_overlong (percent_decode_bytes plus bs),
  length-percent_decode_bytes plus bs,
)

-- the loop has stopped by itself, or the budget is spent
abbrev pub Converged : Bool → Decoded → Type 0
Converged plus d = (d.budget ≡ 0) ⊎ (decode_pass (plus && d.passes == 0) d.bytes ≡ d.bytes)

record LoopInv (budget : ℕ) (plus : Bool) (bytes : Bytes) (passes : ℕ) (d : Decoded) : Type 0 where
  spent : d.passes + d.budget ≡ passes + budget
  shorter : length d.bytes ≤ length bytes
  converged : Converged plus d

fixpoint_loop-LoopInv :
    (budget : ℕ) (plus : Bool) (bytes : Bytes) (passes : ℕ)
    → LoopInv budget plus bytes passes (fixpoint_loop budget plus bytes passes)
unfolding fixpoint_loop
fixpoint_loop-LoopInv zero plus bytes passes = record {
  spent = refl;
  shorter = omega arith;
  converged = inl refl;
}
fixpoint_loop-LoopInv (suc budget) plus bytes passes =
    let next = decode_pass (plus && passes == 0) bytes in
    let ih = fixpoint_loop-LoopInv budget plus next (passes + 1) in
    elim (Bool-cases (next =bytes bytes)) [
      | inl same ↦ rw same (record {
        spent = refl;
        shorter = omega arith;
        converged = inr ((=bytes_iff next bytes).0 same);
      })
      | inr more ↦ rw more (record {
        spent = omega (arith, ih.spent);
        shorter = omega (arith, ih.shorter, length-decode_pass (plus && passes == 0) bytes);
        converged = ih.converged;
      })
    ]

-- The loop spends one unit of its budget on each pass it counts, never makes the value longer, and
-- ends with the budget spent or with a value that another pass would not change.
pub percent_overlong_fixpoint-Converged :
    (raw : Bytes) (plus : Bool) (budget : ℕ)
    → ((percent_overlong_fixpoint raw plus budget).passes
          + (percent_overlong_fixpoint raw plus budget).budget
        ≡ budget)
      × (length (percent_overlong_fixpoint raw plus budget).bytes ≤ length raw)
      × Converged plus (percent_overlong_fixpoint raw plus budget)
unfolding percent_overlong_fixpoint
percent_overlong_fixpoint-Converged raw plus budget =
    let inv = fixpoint_loop-LoopInv budget plus raw 0 in
    (omega (arith, inv.spent), inv.shorter, inv.converged)

-- a value under some layers of percent encoding
abbrev pub encode_layers : ℕ → Bytes → Bytes
encode_layers zero bs = bs
encode_layers (suc n) bs = percent_encode (encode_layers n bs)

IsAscii : Bytes → Type 0
IsAscii = All (λ b. b < 128)

percent_encode-IsAscii : (bs : Bytes) → All IsByte bs → IsAscii (percent_encode bs)
unfolding IsAscii
percent_encode-IsAscii [] a = tt
percent_encode-IsAscii (b ∷ bs) a =
    let high = hex_digit-lt (b / 16) (omega arith) in
    let low = hex_digit-lt (b % 16) (omega arith) in
    (omega arith, (high, (low, percent_encode-IsAscii bs a.1)))

IsAscii-IsByte : (bs : Bytes) → IsAscii bs → All IsByte bs
unfolding IsAscii
IsAscii-IsByte [] a = tt
IsAscii-IsByte (b ∷ bs) a = (omega arith, IsAscii-IsByte bs a.1)

IsAscii-NoOverlong : (bs : Bytes) → IsAscii bs → NoOverlong bs
unfolding IsAscii
IsAscii-NoOverlong [] a = tt
IsAscii-NoOverlong (b ∷ []) a = tt
IsAscii-NoOverlong (b ∷ b2 ∷ rest) a =
    (lead-not_overlong b b2 a.0, IsAscii-NoOverlong (b2 ∷ rest) a.1)

-- what the loop can give back
abbrev pub IsPlain : Bytes → Type 0
IsPlain bs = All IsByte bs × NoOverlong bs

percent_encode-IsPlain : (bs : Bytes) → All IsByte bs → IsPlain (percent_encode bs)
percent_encode-IsPlain bs a =
    let h = percent_encode-IsAscii bs a in
    (IsAscii-IsByte (percent_encode bs) h, IsAscii-NoOverlong (percent_encode bs) h)

encode_layers-IsPlain : (n : ℕ) (bs : Bytes) → IsPlain bs → IsPlain (encode_layers n bs)
encode_layers-IsPlain zero bs h = h
encode_layers-IsPlain (suc n) bs h =
    percent_encode-IsPlain (encode_layers n bs) (encode_layers-IsPlain n bs h).0

decode_pass-percent_encode :
    (plus : Bool) (bs : Bytes) → IsPlain bs → decode_pass plus (percent_encode bs) ≡ bs
unfolding decode_pass
decode_pass-percent_encode plus bs h =
    rw (percent_decode_bytes-percent_encode plus bs h.0) (collapse_overlong-id bs h.1)

length-percent_encode : (bs : Bytes) → length bs ≤ length (percent_encode bs)
length-percent_encode [] = omega arith
length-percent_encode (b ∷ bs) = omega (arith, length-percent_encode bs)

-- an encoding is longer than what it encodes, if that is not empty
percent_encode-ne : (bs : Bytes) → 0 < length bs → (bs =bytes percent_encode bs) ≡ false
percent_encode-ne (b ∷ bs) h = elim (Bool-cases ((b ∷ bs) =bytes percent_encode (b ∷ bs))) [
  | inl same ↦ absurd (
      omega (
        arith,
        ap length ((=bytes_iff (b ∷ bs) (percent_encode (b ∷ bs))).0 same),
        length-percent_encode bs,
      ))
  | inr other ↦ other
]
percent_encode-ne [] h = absurd (omega arith)

length-encode_layers : (n : ℕ) (bs : Bytes) → length bs ≤ length (encode_layers n bs)
length-encode_layers zero bs = omega arith
length-encode_layers (suc n) bs =
    omega (arith, length-encode_layers n bs, length-percent_encode (encode_layers n bs))

fixpoint_loop-encode_layers :
    (n budget : ℕ) (plus : Bool) (bs : Bytes) (passes : ℕ)
    → IsPlain bs
    → 0 < length bs
    → fixpoint_loop (n + budget) plus (encode_layers n bs) passes
      ≡ fixpoint_loop budget plus bs (passes + n)
unfolding fixpoint_loop
fixpoint_loop-encode_layers zero budget plus bs passes h l = rw (add.zero budget, add-zero passes)
fixpoint_loop-encode_layers (suc n) budget plus bs passes h l =
    let inner = encode_layers n bs in
    rw (add.suc n budget) (
      rw
        (
          decode_pass-percent_encode (plus && passes == 0) inner (encode_layers-IsPlain n bs h),
          percent_encode-ne inner (omega (arith, length-encode_layers n bs)),
        )
        (fixpoint_loop-encode_layers n budget plus bs (passes + 1) h l
          ∙ ap (fixpoint_loop budget plus bs) (omega arith)))

-- A value that is not empty and has no overlong sequence is found again under n layers of percent
-- encoding of every byte: the loop goes on from the value itself, with n passes counted and n units
-- of the budget spent.
pub percent_overlong_fixpoint-encode_layers :
    (n budget : ℕ) (plus : Bool) (bs : Bytes)
    → IsPlain bs
    → 0 < length bs
    → percent_overlong_fixpoint (encode_layers n bs) plus (n + budget)
      ≡ fixpoint_loop budget plus bs n
unfolding percent_overlong_fixpoint
percent_overlong_fixpoint-encode_layers n budget plus bs h l =
    fixpoint_loop-encode_layers n budget plus bs 0 h l
    ∙ ap (fixpoint_loop budget plus bs) (omega arith)
