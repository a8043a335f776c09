-- ===== src/Normalizer/Grpc/Frames.antt =====
-- The frames of a well-formed body take up all of it.
use light_waf.Prelude.{
  ℕ, zero, suc, ◌+◌, ◌*◌, ◌^◌, ◌≤◌, ◌<◌, bit_and, true, false, Option, none, some, [], ◌∷◌, Bytes,
  ◌≡◌, refl, ◌∙◌, arith, length, length-drop, take, drop, is_empty, leb, ltb, ◌==◌, Bool-cases, inl,
  inr,
}
use light_waf.Prelude.Utf8.{is_utf8}
use light_waf.Normalizer.Grpc.{
  GrpcLimits, GrpcExtract, Value, skipped, delimited, read_varint, read_value, malform, enter,
  push_leaf, take_field, after_value, after_tag, walk, parse_message, take_frame, count_frame,
  frames, grpc_extract, grpc_extract_default, saturating_add,
}

-- a message's walk leaves the counts of frames as they are, and does not take back `malformed`
record Follows (before after : GrpcExtract) : Type 0 where
  messages : after.messages ≡ before.messages
  bytes : after.total_payload_bytes ≡ before.total_payload_bytes
  malformed : after.malformed ≡ false → before.malformed ≡ false

same : (out : GrpcExtract) → Follows out out
same out = record { messages = refl; bytes = refl; malformed = λ e. e }

Follows-trans : (a b c : GrpcExtract) → Follows a b → Follows b c → Follows a c
Follows-trans a b c h k = record {
  messages = k.messages ∙ h.messages;
  bytes = k.bytes ∙ h.bytes;
  malformed = λ e. h.malformed (k.malformed e);
}

malform-Follows : (out : GrpcExtract) → Follows out (malform out)
malform-Follows out = record { messages = refl; bytes = refl; malformed = λ e. cc }

whole-le : (n len : ℕ) → ltb n len ≡ false → len ≤ n
whole-le n len h = ground arith

module _ (limits : GrpcLimits) where
  push_leaf-Follows : (field : Bytes) (out : GrpcExtract) → Follows out (push_leaf limits field out)
  unfolding push_leaf
  push_leaf-Follows field out = elim (Bool-cases (ltb (length out.leaves) limits.max_leaves)) [
    | inl room ↦ rw room (record { messages = refl; bytes = refl; malformed = λ e. e })
    | inr full ↦ rw full (same out)
  ]

  module _ (next : Bytes → ℕ → GrpcExtract → GrpcExtract)
      (keep : (bs : Bytes) (depth : ℕ) (out : GrpcExtract) → Follows out (next bs depth out)) where
    take_field-Follows :
        (field : Bytes) (depth : ℕ) (out : GrpcExtract)
        → Follows out (take_field limits next field depth out)
    unfolding take_field
    take_field-Follows field depth out = elim (Bool-cases (is_utf8 field)) [
      | inl text ↦ rw text (elim (Bool-cases (is_empty field)) [
        | inl empty ↦ rw empty (same out)
        | inr some_text ↦ rw some_text (push_leaf-Follows field out)
      ])
      | inr binary ↦ rw binary (elim (Bool-cases (leb limits.max_depth depth)) [
        | inl deep ↦ rw deep (record { messages = refl; bytes = refl; malformed = λ e. e })
        | inr shallow ↦ rw shallow (
            let nested = keep field (depth + 1) (enter (depth + 1) out) in
            record {
              messages = nested.messages;
              bytes = nested.bytes;
              malformed = nested.malformed;
            })
      ])
    ]

    after_value-Follows :
        (value : Option Value) (depth : ℕ) (out : GrpcExtract)
        → Follows out (after_value limits next value depth out)
    unfolding after_value
    after_value-Follows none depth out = malform-Follows out
    after_value-Follows (some (skipped rest)) depth out = keep rest depth out
    after_value-Follows (some (delimited field rest)) depth out =
        Follows-trans _ _ _ (take_field-Follows field depth out) (keep rest depth _)

    after_tag-Follows :
        (tag : Option (ℕ × Bytes)) (depth : ℕ) (out : GrpcExtract)
        → Follows out (after_tag limits next tag depth out)
    unfolding after_tag
    after_tag-Follows none depth out = malform-Follows out
    after_tag-Follows (some (tag, rest)) depth out =
        elim (Bool-cases (ltb limits.max_fields (saturating_add 32 out.fields 1))) [
          | inl over ↦ rw over (record { messages = refl; bytes = refl; malformed = λ e. e })
          | inr fits ↦ rw fits (
              let rest_of =
                after_value-Follows (read_value (bit_and tag 7) rest) depth
                  (record out { fields = saturating_add 32 out.fields 1 }) in
              record {
                messages = rest_of.messages;
                bytes = rest_of.bytes;
                malformed = rest_of.malformed;
              })
        ]

  walk-Follows :
      (fuel : ℕ) (bs : Bytes) (depth : ℕ) (out : GrpcExtract)
      → Follows out (walk limits fuel bs depth out)
  unfolding walk
  walk-Follows zero bs depth out = same out
  walk-Follows (suc fuel) [] depth out = same out
  walk-Follows (suc fuel) (b ∷ bs) depth out =
      after_tag-Follows (walk limits fuel) (walk-Follows fuel) (read_varint (b ∷ bs)) depth out

  take_frame-Follows :
      (flag : ℕ) (msg : Bytes) (out : GrpcExtract) → Follows out (take_frame limits flag msg out)
  unfolding take_frame parse_message
  take_frame-Follows flag msg out = elim (Bool-cases (flag == 0)) [
    | inl plain ↦ rw plain (
        let walked = walk-Follows (length msg) msg 1 (enter 1 out) in
        record { messages = walked.messages; bytes = walked.bytes; malformed = walked.malformed })
    | inr other ↦ rw other (elim (Bool-cases (flag == 1)) [
      | inl packed ↦ rw packed (record { messages = refl; bytes = refl; malformed = λ e. e })
      | inr unknown ↦ rw unknown (malform-Follows out)
    ])
  ]

  -- the bytes that the frames so far have taken
  abbrev spent : GrpcExtract → ℕ
  spent out = 5 * out.messages + out.total_payload_bytes

  spent-take_frame :
      (flag len : ℕ) (msg : Bytes) (out : GrpcExtract)
      → spent out + 5 + len < 2 ^ 32
      → spent (take_frame limits flag msg (count_frame len out)) ≡ spent out + 5 + len
  spent-take_frame flag len msg out room =
      let follows = take_frame-Follows flag msg (count_frame len out) in
      omega (arith, follows.messages, follows.bytes, spent-count_frame out len room)
    where
      spent-count_frame :
          (out : GrpcExtract) (len : ℕ)
          → spent out + 5 + len < 2 ^ 32
          → spent (count_frame len out) ≡ spent out + 5 + len
      spent-count_frame out len room = unfold count_frame saturating_add in omega arith

  frames-spent :
      (fuel : ℕ) (bs : Bytes) (out : GrpcExtract)
      → length bs ≤ fuel
      → spent out + length bs < 2 ^ 32
      → (frames limits fuel bs out).malformed ≡ false
      → spent (frames limits fuel bs out) ≡ spent out + length bs
  unfolding frames
  frames-spent fuel [] out l room e = omega arith
  frames-spent (suc fuel) (flag ∷ b0 ∷ b1 ∷ b2 ∷ b3 ∷ rest) out l room e =
      let len = b0 * 2 ^ 24 + b1 * 2 ^ 16 + b2 * 2 ^ 8 + b3 in
      elim (Bool-cases (ltb (length rest) len)) [
        | inl short ↦ let bad : true ≡ false = rw short at e in cc
        | inr whole ↦
            let framed = take_frame limits flag (take len rest) (count_frame len out) in
            let fits : len ≤ length rest = whole-le (length rest) len whole in
            let ended : (frames limits fuel (drop len rest) framed).malformed ≡ false =
              rw whole at e in
            let sum : spent framed ≡ spent out + 5 + len =
              spent-take_frame flag len (take len rest) out (omega (arith, fits)) in
            let left = length-drop len rest in
            rw whole (
              omega (
                arith,
                sum,
                left,
                frames-spent fuel (drop len rest) framed (omega (arith, left))
                    (omega (arith, sum, left)) ended,
              ))
      ]
  frames-spent zero (flag ∷ bs) out l room e = absurd (omega arith)
  frames-spent (suc fuel) (flag ∷ []) out l room e = cc
  frames-spent (suc fuel) (flag ∷ b0 ∷ []) out l room e = cc
  frames-spent (suc fuel) (flag ∷ b0 ∷ b1 ∷ []) out l room e = cc
  frames-spent (suc fuel) (flag ∷ b0 ∷ b1 ∷ b2 ∷ []) out l room e = cc

  -- Of a body shorter than 2 ^ 32 bytes that is not reported as malformed, every byte belongs to a frame:
  -- five of header for each message counted, and the payload bytes counted.
  pub grpc_extract-spent :
      (body : Bytes)
      → length body < 2 ^ 32
      → (grpc_extract limits body).malformed ≡ false
      → 5 * (grpc_extract limits body).messages + (grpc_extract limits body).total_payload_bytes
        ≡ length body
  unfolding grpc_extract
  grpc_extract-spent body room e =
      omega
        (arith, frames-spent (length body) body grpc_extract_default (omega arith) (omega arith) e)
