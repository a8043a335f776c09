-- ===== src/Normalizer/Grpc.antt =====
-- crates/waf-normalizer/src/grpc.rs: gRPC frames, and the fields of their protobuf messages.
--
-- An index into the body is the list of the bytes that are left. A message is walked on fuel, and
-- its length is enough; the counters saturate as the source's integers do.
pub mod Bounds
pub mod Fuel
pub mod Varint
pub mod Frames
use Prim.Native.Nat.{max, min}
use mathlib.Core.Option
use light_waf.Prelude.{
  ℕ, zero, suc, ◌+◌, ◌-◌, ◌*◌, ◌%◌, ◌^◌, bit_and, bit_or, Bool, true, false, Option, none, some,
  List, [], ◌∷◌, ◌++◌, Bytes, length, take, drop, is_empty, leb, ltb, ◌==◌, if◌then◌else◌,
}
use light_waf.Prelude.Utf8.{is_utf8}

pub record GrpcLimits : Type 0 where
  pub max_depth : ℕ
  pub max_fields : ℕ
  pub max_leaves : ℕ

abbrev pub grpc_limits_default : GrpcLimits
grpc_limits_default = record { max_depth = 16; max_fields = 4096; max_leaves = 1024 }

pub record GrpcExtract : Type 0 where
  pub messages : ℕ
  pub total_payload_bytes : ℕ
  pub max_message_len : ℕ
  pub fields : ℕ
  pub max_depth : ℕ
  pub depth_exceeded : Bool
  pub fields_exceeded : Bool
  pub compressed : Bool
  pub malformed : Bool
  pub leaves : List Bytes

-- the derived `Default`
abbrev pub grpc_extract_default : GrpcExtract
grpc_extract_default = record {
  messages = 0;
  total_payload_bytes = 0;
  max_message_len = 0;
  fields = 0;
  max_depth = 0;
  depth_exceeded = false;
  fields_exceeded = false;
  compressed = false;
  malformed = false;
  leaves = [];
}

-- `saturating_add` of a word of `width` bits
unfoldable pub saturating_add : ℕ → ℕ → ℕ → ℕ
saturating_add width a b = min (a + b) (2 ^ width - 1)

-- the loop of `read_varint` from its pass `k` on, with the passes left
unfoldable pub varint_loop : ℕ → ℕ → ℕ → Bytes → Option (ℕ × Bytes)
varint_loop zero k result bs = none
varint_loop (suc left) k result [] = none
varint_loop (suc left) k result (byte ∷ rest) =
    let result' = bit_or result (bit_and byte 0x7f * 2 ^ (7 * k) % 2 ^ 64) in
    let more = varint_loop left (k + 1) result' rest in
    if bit_and byte 0x80 == 0 then some (result', rest) else more

-- the number, and the bytes behind it
unfoldable pub read_varint : Bytes → Option (ℕ × Bytes)
unfolding varint_loop
read_varint = varint_loop 10 0 0

-- a field's value: skipped, or length-delimited; and the bytes behind it
pub data Value : Type 0 where
  skipped : Bytes → Value
  delimited : Bytes → Bytes → Value

unfoldable pub skip : ℕ → Bytes → Option Value
skip n bs = if ltb (length bs) n then none else some (skipped (drop n bs))

unfoldable pub delimit : Option (ℕ × Bytes) → Option Value
delimit none = none
delimit (some (len, bs)) =
    if ltb (length bs) len then none else some (delimited (take len bs) (drop len bs))

-- the match on the wire type; `none` is a malformed value
unfoldable pub read_value : ℕ → Bytes → Option Value
unfolding skip delimit
read_value wire bs =
    if wire == 0
    then Option.map (λ (r : ℕ × Bytes). skipped r.1) (read_varint bs)
    else if wire == 1
    then skip 8 bs
    else if wire == 5
    then skip 4 bs
    else if wire == 2
    then delimit (read_varint bs)
    else none

abbrev pub malform : GrpcExtract → GrpcExtract
malform out = record out { malformed = true }

abbrev pub enter : ℕ → GrpcExtract → GrpcExtract
enter depth out = record out { max_depth = max out.max_depth depth }

unfoldable pub count_frame : ℕ → GrpcExtract → GrpcExtract
unfolding saturating_add
count_frame len out = record out {
  messages = saturating_add 32 out.messages 1;
  total_payload_bytes = saturating_add 64 out.total_payload_bytes len;
  max_message_len = max out.max_message_len len;
}

module _ (limits : GrpcLimits) where
  unfoldable pub push_leaf : Bytes → GrpcExtract → GrpcExtract
  push_leaf field out =
      if ltb (length out.leaves) limits.max_leaves
      then record out { leaves = out.leaves ++ (field ∷ []) }
      else out

  -- the rest of the loop, for a loop that is walked by `walk`
  module _ (walk : Bytes → ℕ → GrpcExtract → GrpcExtract) where
    -- a length-delimited field: a leaf, or a nested message
    unfoldable pub take_field : Bytes → ℕ → GrpcExtract → GrpcExtract
    unfolding push_leaf
    take_field field depth out =
        if is_utf8 field
        then if is_empty field then out else push_leaf field out
        else if leb limits.max_depth depth
        then record out { depth_exceeded = true }
        else walk field (depth + 1) (enter (depth + 1) out)

    unfoldable pub after_value : Option Value → ℕ → GrpcExtract → GrpcExtract
    unfolding take_field
    after_value none depth out = malform out
    after_value (some (skipped rest)) depth out = walk rest depth out
    after_value (some (delimited field rest)) depth out =
        walk rest depth (take_field field depth out)

    unfoldable pub after_tag : Option (ℕ × Bytes) → ℕ → GrpcExtract → GrpcExtract
    unfolding after_value read_value
    after_tag none depth out = malform out
    after_tag (some (tag, rest)) depth out =
        let counted = record out { fields = saturating_add 32 out.fields 1 } in
        if ltb limits.max_fields counted.fields
        then record counted { fields_exceeded = true }
        else after_value (read_value (bit_and tag 7) rest) depth counted

  -- the loop of `parse_message`
  unfoldable pub walk : ℕ → Bytes → ℕ → GrpcExtract → GrpcExtract
  unfolding after_tag
  walk zero bs depth out = out
  walk (suc fuel) [] depth out = out
  walk (suc fuel) (b ∷ bs) depth out = after_tag (walk fuel) (read_varint (b ∷ bs)) depth out

  unfoldable pub parse_message : Bytes → ℕ → GrpcExtract → GrpcExtract
  unfolding walk
  parse_message buf depth out = walk (length buf) buf depth (enter depth out)

  -- the match on a frame's flag
  unfoldable pub take_frame : ℕ → Bytes → GrpcExtract → GrpcExtract
  unfolding parse_message
  take_frame flag msg out =
      if flag == 0
      then parse_message msg 1 out
      else if flag == 1
      then record out { compressed = true }
      else malform out

  -- the loop of `grpc_extract`, with the test behind it
  unfoldable pub frames : ℕ → Bytes → GrpcExtract → GrpcExtract
  unfolding take_frame count_frame
  frames fuel [] out = out
  frames (suc fuel) (flag ∷ b0 ∷ b1 ∷ b2 ∷ b3 ∷ rest) out =
      let len = b0 * 2 ^ 24 + b1 * 2 ^ 16 + b2 * 2 ^ 8 + b3 in
      let more =
        frames fuel (drop len rest) (take_frame flag (take len rest) (count_frame len out)) in
      if ltb (length rest) len then malform out else more
  frames fuel bs out = malform out

  unfoldable pub grpc_extract : Bytes → GrpcExtract
  unfolding frames
  grpc_extract body = frames (length body) body grpc_extract_default
