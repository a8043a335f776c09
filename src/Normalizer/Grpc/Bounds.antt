-- ===== src/Normalizer/Grpc/Bounds.antt =====
-- The caps hold for every body: on the depth entered, on the leaves kept and on the fields walked.
use Prim.Native.Nat.{max}
use light_waf.Prelude.{
  ℕ, zero, suc, ◌+◌, ◌*◌, ◌^◌, ◌==◌, ◌≤◌, bit_and, false, Option, none, some, [], ◌∷◌, Bytes, ◌≡◌,
  arith, length, length-append, take, drop, is_empty, leb, ltb, Bool-cases, inl, inr,
}
use light_waf.Prelude.Utf8.{is_utf8}
use light_waf.Normalizer.Grpc.{
  GrpcLimits, GrpcExtract, Value, skipped, delimited, read_varint, read_value, malform, enter,
  push_leaf, take_field, after_value, after_tag, walk, parse_message, take_frame, count_frame,
  frames, grpc_extract, grpc_extract_default, saturating_add,
}

module _ (limits : GrpcLimits) where
  -- the first message has depth 1, whatever the limit
  abbrev pub deepest : ℕ
  deepest = max limits.max_depth 1

  pub record IsWithin (out : GrpcExtract) : Type 0 where
    pub depth : out.max_depth ≤ deepest
    pub leaves : length out.leaves ≤ limits.max_leaves
    pub fields : out.fields_exceeded ≡ false → out.fields ≤ limits.max_fields

  push_leaf-IsWithin :
      (field : Bytes) (out : GrpcExtract) → IsWithin out → IsWithin (push_leaf limits field out)
  unfolding push_leaf
  push_leaf-IsWithin field out h = elim (Bool-cases (ltb (length out.leaves) limits.max_leaves)) [
    | inl room ↦ rw room (record {
      depth = h.depth;
      leaves = ground (arith, length-append out.leaves (field ∷ []));
      fields = h.fields;
    })
    | inr full ↦ rw full h
  ]

  enter-IsWithin :
      (depth : ℕ) (out : GrpcExtract) → depth ≤ deepest → IsWithin out → IsWithin (enter depth out)
  enter-IsWithin depth out d h = record {
    depth = ground (arith, h.depth);
    leaves = h.leaves;
    fields = h.fields;
  }

  module _ (next : Bytes → ℕ → GrpcExtract → GrpcExtract)
      (keep : (bs : Bytes) (depth : ℕ) (out : GrpcExtract)
        → depth ≤ deepest
        → IsWithin out
        → IsWithin (next bs depth out)) where
    take_field-IsWithin :
        (field : Bytes) (depth : ℕ) (out : GrpcExtract)
        → depth ≤ deepest
        → IsWithin out
        → IsWithin (take_field limits next field depth out)
    unfolding take_field
    take_field-IsWithin field depth out d h = elim (Bool-cases (is_utf8 field)) [
      | inl text ↦ rw text (elim (Bool-cases (is_empty field)) [
        | inl empty ↦ rw empty h
        | inr some_text ↦ rw some_text (push_leaf-IsWithin field out h)
      ])
      | inr binary ↦ rw binary (elim (Bool-cases (leb limits.max_depth depth)) [
        | inl deep ↦ rw deep (record { depth = h.depth; leaves = h.leaves; fields = h.fields })
        | inr shallow ↦ rw shallow (
            let below : depth + 1 ≤ deepest = ground arith in
            keep field (depth + 1) _ below (enter-IsWithin (depth + 1) out below h))
      ])
    ]

    after_value-IsWithin :
        (value : Option Value) (depth : ℕ) (out : GrpcExtract)
        → depth ≤ deepest
        → IsWithin out
        → IsWithin (after_value limits next value depth out)
    unfolding after_value
    after_value-IsWithin none depth out d h = record {
      depth = h.depth;
      leaves = h.leaves;
      fields = h.fields;
    }
    after_value-IsWithin (some (skipped rest)) depth out d h = keep rest depth out d h
    after_value-IsWithin (some (delimited field rest)) depth out d h =
        keep rest depth _ d (take_field-IsWithin field depth out d h)

    after_tag-IsWithin :
        (tag : Option (ℕ × Bytes)) (depth : ℕ) (out : GrpcExtract)
        → depth ≤ deepest
        → IsWithin out
        → IsWithin (after_tag limits next tag depth out)
    unfolding after_tag
    after_tag-IsWithin none depth out d h = record {
      depth = h.depth;
      leaves = h.leaves;
      fields = h.fields;
    }
    after_tag-IsWithin (some (tag, rest)) depth out d h =
        elim (Bool-cases (ltb limits.max_fields (saturating_add 32 out.fields 1))) [
          | inl over ↦ rw over (record { depth = h.depth; leaves = h.leaves; fields = λ e. cc })
          | inr fits ↦ rw fits (
              after_value-IsWithin (read_value (bit_and tag 7) rest) depth _ d
                (record { depth = h.depth; leaves = h.leaves; fields = λ e. ground arith }))
        ]

  walk-IsWithin :
      (fuel : ℕ) (bs : Bytes) (depth : ℕ) (out : GrpcExtract)
      → depth ≤ deepest
      → IsWithin out
      → IsWithin (walk limits fuel bs depth out)
  unfolding walk
  walk-IsWithin zero bs depth out d h = h
  walk-IsWithin (suc fuel) [] depth out d h = h
  walk-IsWithin (suc fuel) (b ∷ bs) depth out d h =
      after_tag-IsWithin (walk limits fuel) (walk-IsWithin fuel) (read_varint (b ∷ bs)) depth out d
        h

  take_frame-IsWithin :
      (flag : ℕ) (msg : Bytes) (out : GrpcExtract)
      → IsWithin out
      → IsWithin (take_frame limits flag msg out)
  unfolding take_frame parse_message
  take_frame-IsWithin flag msg out h = elim (Bool-cases (flag == 0)) [
    | inl plain ↦
        rw plain
          (walk-IsWithin (length msg) msg 1 _ (omega arith) (enter-IsWithin 1 out (omega arith) h))
    | inr other ↦ rw other (elim (Bool-cases (flag == 1)) [
      | inl packed ↦ rw packed (record { depth = h.depth; leaves = h.leaves; fields = h.fields })
      | inr unknown ↦ rw unknown (record { depth = h.depth; leaves = h.leaves; fields = h.fields })
    ])
  ]

  count_frame-IsWithin :
      (len : ℕ) (out : GrpcExtract) → IsWithin out → IsWithin (count_frame len out)
  unfolding count_frame
  count_frame-IsWithin len out h = record { depth = h.depth; leaves = h.leaves; fields = h.fields }

  malform-IsWithin : (out : GrpcExtract) → IsWithin out → IsWithin (malform out)
  malform-IsWithin out h = record { depth = h.depth; leaves = h.leaves; fields = h.fields }

  frames-IsWithin :
      (fuel : ℕ) (bs : Bytes) (out : GrpcExtract)
      → IsWithin out
      → IsWithin (frames limits fuel bs out)
  unfolding frames
  frames-IsWithin fuel [] out h = h
  frames-IsWithin (suc fuel) (flag ∷ b0 ∷ b1 ∷ b2 ∷ b3 ∷ rest) out h =
      let len = b0 * 2 ^ 24 + b1 * 2 ^ 16 + b2 * 2 ^ 8 + b3 in
      elim (Bool-cases (ltb (length rest) len)) [
        | inl short ↦ rw short (malform-IsWithin out h)
        | inr whole ↦ rw whole (
            frames-IsWithin fuel (drop len rest) _
              (take_frame-IsWithin flag (take len rest) _ (count_frame-IsWithin len out h)))
      ]
  frames-IsWithin zero (flag ∷ bs) out h = malform-IsWithin out h
  frames-IsWithin (suc fuel) (flag ∷ []) out h = malform-IsWithin out h
  frames-IsWithin (suc fuel) (flag ∷ b0 ∷ []) out h = malform-IsWithin out h
  frames-IsWithin (suc fuel) (flag ∷ b0 ∷ b1 ∷ []) out h = malform-IsWithin out h
  frames-IsWithin (suc fuel) (flag ∷ b0 ∷ b1 ∷ b2 ∷ []) out h = malform-IsWithin out h

  -- Whatever the body, no message is entered below the depth limit (the first message aside), no more
  -- leaves than the limit are kept, and no more fields than the limit are walked unless
  -- `fields_exceeded` reports it.
  pub grpc_extract-IsWithin : (body : Bytes) → IsWithin (grpc_extract limits body)
  unfolding grpc_extract
  grpc_extract-IsWithin body =
      frames-IsWithin (length body) body grpc_extract_default
        (record { depth = omega arith; leaves = omega arith; fields = λ e. omega arith })
