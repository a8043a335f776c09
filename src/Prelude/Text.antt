-- ===== src/Prelude/Text.antt =====
-- Strings. A Rust `String` or `&str` is the list of its UTF-8 bytes, so that `as_bytes` and `len`
-- are the list and its length. Native texts stand for the literals of the source, which are ASCII.
use Prim.Native.Nat.{ℕ, zero, suc, ◌<◌, ◌+◌, ◌-◌, ◌*◌, ◌/◌, ◌%◌}
use Prim.Native.Char.{code}
use Prim.Native.String.{String}
use mathlib.Core.Path.{◌≡◌, refl, ap}
use mathlib.Core.Logic.{◌↔◌, inl, inr}
use mathlib.Core.Option
use mathlib.Core.Option.{Option, none, some}
use mathlib.Core.Bool.{Bool, true, false, ◌&&◌, ◌||◌}
use mathlib.Core.List.{List, [], ◌∷◌, ◌++◌, map}
use native.Mathlib.Omega.{arith}
use light_waf.Prelude.Lists.{All}
use light_waf.Prelude.Tests.{leb, ltb, ltb→lt, Bool-cases, ◌==◌, if◌then◌else◌}

abbrev pub Bytes : Type 0
Bytes = List ℕ

abbrev pub codes : String → Bytes
codes String.[] = []
codes (String.◌∷◌ c s) = code c ∷ codes s

-- `==` on strings and on byte slices
infix 50 ◌=bytes◌
unfoldable pub ◌=bytes◌ : Bytes → Bytes → Bool
[] =bytes [] = true
(x ∷ xs) =bytes (y ∷ ys) = x == y && xs =bytes ys
_ =bytes _ = false

pub =bytes_iff : (a b : Bytes) → ((a =bytes b) ≡ true) ↔ (a ≡ b)
unfolding ◌=bytes◌
=bytes_iff (x ∷ a) (y ∷ b) = ground (arith, =bytes_iff a b)
=bytes_iff _ _ = ground arith

-- `u8::to_ascii_lowercase`, and `str::to_ascii_lowercase`
abbrev pub ascii_lower : ℕ → ℕ
ascii_lower c = if leb b'A' c && leb c b'Z' then c + 32 else c

abbrev pub to_ascii_lowercase : Bytes → Bytes
to_ascii_lowercase = map ascii_lower

-- `str::split(sep)` at a one-byte separator: always at least one piece.
abbrev pub add_front : ℕ → List Bytes → List Bytes
add_front c [] = (c ∷ []) ∷ []
add_front c (p ∷ ps) = (c ∷ p) ∷ ps

unfoldable pub split : ℕ → Bytes → List Bytes
split sep [] = [] ∷ []
split sep (c ∷ cs) = let rest = split sep cs in if c == sep then [] ∷ rest else add_front c rest

-- The decimal digits of a number, as `{}` prints it.
digits : ℕ → ℕ → Bytes → Bytes
digits zero n out = out
digits (suc fuel) n out =
    let more = digits fuel (n / 10) ((48 + n % 10) ∷ out) in
    if ltb n 10 then (48 + n) ∷ out else more

unfoldable pub decimal : ℕ → Bytes
unfolding digits
decimal n = digits (suc n) n []

digits-All :
    (P : ℕ → Type 0) (fuel n : ℕ) (out : Bytes)
    → ((d : ℕ) → d < 10 → P (48 + d))
    → All P out
    → All P (digits fuel n out)
unfolding digits
digits-All P zero n out each h = h
digits-All P (suc fuel) n out each h = elim (Bool-cases (ltb n 10)) [
  | inl last ↦ rw last (each n (ltb→lt n 10 last), h)
  | inr more ↦ rw more (digits-All P fuel (n / 10) _ each (each (n % 10) (omega arith), h))
]

-- what holds of every digit
pub decimal-All : (P : ℕ → Type 0) (n : ℕ) → ((d : ℕ) → d < 10 → P (48 + d)) → All P (decimal n)
unfolding decimal
decimal-All P n each = digits-All P (suc n) n [] each tt

-- `str::strip_prefix`
abbrev pub strip_prefix : Bytes → Bytes → Option Bytes
strip_prefix [] s = some s
strip_prefix (p ∷ ps) [] = none
strip_prefix (p ∷ ps) (c ∷ cs) = if p == c then strip_prefix ps cs else none

-- Unicode's White_Space, by the length of its characters in UTF-8.
abbrev space_1 : ℕ → Bool
space_1 a = leb 9 a && leb a 13 || a == b' '

abbrev space_2 : ℕ → ℕ → Bool
space_2 a b = a == 0xc2 && (b == 0x85 || b == 0xa0)

abbrev space_3 : ℕ → ℕ → ℕ → Bool
space_3 a b c =
    a == 0xe1 && (b == 0x9a && c == 0x80)
    || a == 0xe2 && (b == 0x80 && (leb 0x80 c && leb c 0x8a || c == 0xa8 || c == 0xa9 || c == 0xaf))
    || a == 0xe2 && (b == 0x81 && c == 0x9f)
    || a == 0xe3 && (b == 0x80 && c == 0x80)

-- drops leading white space, its characters' bytes in the order that the tests read
trim_with : (ℕ → ℕ → Bool) → (ℕ → ℕ → ℕ → Bool) → Bytes → Bytes
trim_with two three [] = []
trim_with two three (a ∷ []) = if space_1 a then [] else a ∷ []
trim_with two three (a ∷ b ∷ []) =
    let after_1 = trim_with two three (b ∷ []) in
    if space_1 a then after_1 else if two a b then [] else a ∷ b ∷ []
trim_with two three (a ∷ b ∷ c ∷ rest) =
    let after_1 = trim_with two three (b ∷ c ∷ rest) in
    let after_2 = trim_with two three (c ∷ rest) in
    let after_3 = trim_with two three rest in
    if space_1 a
    then after_1
    else if two a b
    then after_2
    else if three a b c
    then after_3
    else a ∷ b ∷ c ∷ rest

-- `str::trim_start`
unfoldable pub trim_start : Bytes → Bytes
unfolding trim_with
trim_start s = trim_with space_2 space_3 s

abbrev reverse_onto : Bytes → Bytes → Bytes
reverse_onto acc [] = acc
reverse_onto acc (c ∷ cs) = reverse_onto (c ∷ acc) cs

-- `str::trim`: at the end, the bytes of each character are read backwards
unfoldable pub trim : Bytes → Bytes
unfolding trim_with
trim s =
    let front = trim_with space_2 space_3 s in
    reverse_onto []
      (trim_with (λ b a. space_2 a b) (λ c b a. space_3 a b c) (reverse_onto [] front))

-- `str::eq_ignore_ascii_case`
unfoldable pub eq_ignore_ascii_case : Bytes → Bytes → Bool
eq_ignore_ascii_case a b = to_ascii_lowercase a =bytes to_ascii_lowercase b

-- `str::split_once(sep)` at a one-byte separator
abbrev pub split_once : ℕ → Bytes → Option (Bytes × Bytes)
split_once sep [] = none
split_once sep (c ∷ cs) =
    let rest = split_once sep cs in
    if c == sep then some ([], cs) else Option.map (λ (p : Bytes × Bytes). (c ∷ p.0, p.1)) rest

-- `u8::from_str`: an optional plus sign, then digits, none of which takes the value past 255
u8_digits : ℕ → Bytes → Option ℕ
u8_digits n [] = some n
u8_digits n (c ∷ cs) =
    let n' = n * 10 + (c - 48) in
    if leb 48 c && (leb c 57 && leb n' 255) then u8_digits n' cs else none

unfoldable pub parse_u8 : Bytes → Option ℕ
unfolding u8_digits
parse_u8 [] = none
parse_u8 (c ∷ []) = u8_digits 0 (c ∷ [])
parse_u8 (c ∷ d ∷ cs) = if c == b'+' then u8_digits 0 (d ∷ cs) else u8_digits 0 (c ∷ d ∷ cs)

add_front-first :
    (c : ℕ) (ps : List Bytes) → (q : Bytes) × (qs : List Bytes) × (add_front c ps ≡ q ∷ qs)
add_front-first c [] = (c ∷ [], [], refl)
add_front-first c (p ∷ ps) = (c ∷ p, ps, refl)

split-first : (sep : ℕ) (a : Bytes) → (p : Bytes) × (ps : List Bytes) × (split sep a ≡ p ∷ ps)
unfolding split
split-first sep [] = ([], [], refl)
split-first sep (c ∷ cs) = elim (Bool-cases (c == sep)) [
  | inl same ↦ ([], split sep cs, rw same)
  | inr other ↦ rw other (add_front-first c (split sep cs))
]

add_front-append :
    (c : ℕ) (sep : ℕ) (a : Bytes) (qs : List Bytes)
    → add_front c (split sep a ++ qs) ≡ add_front c (split sep a) ++ qs
add_front-append c sep a qs = let (p, ps, e) = split-first sep a in rw e refl

-- splitting at a separator splits both sides
pub split-append : (sep : ℕ) (a b : Bytes) → split sep (a ++ (sep ∷ b)) ≡ split sep a ++ split sep b
unfolding split
split-append sep [] b = ground arith
split-append sep (c ∷ a) b = elim (Bool-cases (c == sep)) [
  | inl same ↦ rw same (ap (◌∷◌ []) (split-append sep a b))
  | inr other ↦ rw other (rw (split-append sep a b) (add_front-append c sep a (split sep b)))
]
