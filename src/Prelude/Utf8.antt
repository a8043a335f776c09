-- ===== src/Prelude/Utf8.antt =====
-- Rust's `str::from_utf8` and `String::from_utf8_lossy`, which the sources call on untrusted bytes.
-- A decoder reads byte by byte: between characters, or inside one, with the bytes still to come and
-- the range of the next. A byte that does not fit ends the character as ill-formed, and is read
-- again as a first byte, so each maximal ill-formed piece counts once.
use light_waf.Prelude.Tests.{leb, &&-eq-true, if◌then◌else◌}
use light_waf.Prelude.Text.{Bytes}
use light_waf.Prelude.Lists.{All}
use Prim.Native.Nat.{ℕ, zero, suc, ◌<◌}
use mathlib.Core.Path.{◌≡◌, refl, sym, ◌∙◌, ap}
use mathlib.Core.Bool.{Bool, true, false, ◌&&◌, false≢true}
use mathlib.Core.List.{[], ◌∷◌, ◌++◌, append_assoc, append-nil}
use native.Mathlib.Omega.{arith}

pub data Mode : Type 0 where
  boundary : Mode
  -- the bytes still to come after the next, the next byte's range, and what has been read
  inside : ℕ → ℕ → ℕ → Bytes → Mode

abbrev between : ℕ → ℕ → ℕ → Bool
between lo hi b = leb lo b && leb b hi

-- U+FFFD
abbrev pub replacement : Bytes
replacement = 0xef ∷ 0xbf ∷ 0xbd ∷ []

-- What a first byte does: the mode after it, what it gives at once, and whether it is well-formed.
pub record Read : Type 0 where
  pub mode : Mode
  pub out : Bytes
  pub fits : Bool

abbrev start_char : ℕ → ℕ → ℕ → ℕ → Read
start_char more lo hi b = record { mode = inside more lo hi (b ∷ []); out = []; fits = true }

unfoldable pub first_byte : ℕ → Read
first_byte b =
    if leb b 0x7f
    then record { mode = boundary; out = b ∷ []; fits = true }
    else if between 0xc2 0xdf b
    then start_char 0 0x80 0xbf b
    else if leb 0xe0 b && leb b 0xe0
    then start_char 1 0xa0 0xbf b
    else if between 0xe1 0xec b
    then start_char 1 0x80 0xbf b
    else if leb 0xed b && leb b 0xed
    then start_char 1 0x80 0x9f b
    else if between 0xee 0xef b
    then start_char 1 0x80 0xbf b
    else if leb 0xf0 b && leb b 0xf0
    then start_char 2 0x90 0xbf b
    else if between 0xf1 0xf3 b
    then start_char 2 0x80 0xbf b
    else if leb 0xf4 b && leb b 0xf4
    then start_char 2 0x80 0x8f b
    else record { mode = boundary; out = replacement; fits = false }

abbrev later_byte : ℕ → Bytes → ℕ → Read
later_byte zero held b = record { mode = boundary; out = held ++ (b ∷ []); fits = true }
later_byte (suc more) held b = record {
  mode = inside more 0x80 0xbf (held ++ (b ∷ []));
  out = [];
  fits = true;
}

abbrev restart : Read → Read
restart r = record { mode = r.mode; out = replacement ++ r.out; fits = false }

unfoldable pub read_byte : Mode → ℕ → Read
unfolding first_byte
read_byte boundary b = first_byte b
read_byte (inside more lo hi held) b =
    if between lo hi b then later_byte more held b else restart (first_byte b)

-- at the end of the input
abbrev flush : Mode → Bytes
flush boundary = []
flush (inside _ _ _ _) = replacement

abbrev at_boundary : Mode → Bool
at_boundary boundary = true
at_boundary (inside _ _ _ _) = false

abbrev held_bytes : Mode → Bytes
held_bytes boundary = []
held_bytes (inside _ _ _ held) = held

lossy_from : Mode → Bytes → Bytes
lossy_from m [] = flush m
lossy_from m (b ∷ bs) = let r = read_byte m b in r.out ++ lossy_from r.mode bs

valid_from : Mode → Bytes → Bool
valid_from m [] = at_boundary m
valid_from m (b ∷ bs) = let r = read_byte m b in r.fits && valid_from r.mode bs

unfoldable pub from_utf8_lossy : Bytes → Bytes
unfolding lossy_from read_byte
from_utf8_lossy = lossy_from boundary

-- `std::str::from_utf8(bytes).is_ok()`
unfoldable pub is_utf8 : Bytes → Bool
unfolding valid_from read_byte
is_utf8 = valid_from boundary

first_byte-fits :
    (b : ℕ)
    → (first_byte b).fits ≡ true
    → (first_byte b).out ++ held_bytes (first_byte b).mode ≡ b ∷ []
unfolding first_byte
first_byte-fits b h = ground arith

-- a byte that fits is held back or given out unchanged
read_byte-fits :
    (m : Mode) (b : ℕ)
    → (read_byte m b).fits ≡ true
    → (read_byte m b).out ++ held_bytes (read_byte m b).mode ≡ held_bytes m ++ (b ∷ [])
unfolding read_byte
read_byte-fits boundary b h = first_byte-fits b h
read_byte-fits (inside more lo hi held) b h = later more (between lo hi b) h
  where
    later :
        (more : ℕ) (fit : Bool)
        → (if fit then later_byte more held b else restart (first_byte b)).fits ≡ true
        → (if fit then later_byte more held b else restart (first_byte b)).out
            ++ held_bytes (if fit then later_byte more held b else restart (first_byte b)).mode
          ≡ held ++ (b ∷ [])
    later zero true e = append-nil (held ++ (b ∷ []))
    later (suc more) true e = refl
    later zero false e = absurd (false≢true e)
    later (suc more) false e = absurd (false≢true e)

lossy_step :
    (m : Mode) (b : ℕ) (bs : Bytes) (r : Read)
    → r.out ++ held_bytes r.mode ≡ held_bytes m ++ (b ∷ [])
    → r.out ++ (held_bytes r.mode ++ bs) ≡ held_bytes m ++ (b ∷ bs)
lossy_step m b bs r fit =
    sym (append_assoc r.out (held_bytes r.mode) bs)
    ∙ ap (λ t. t ++ bs) fit
    ∙ append_assoc (held_bytes m) (b ∷ []) bs

valid_from-lossy :
    (m : Mode) (bs : Bytes) → valid_from m bs ≡ true → lossy_from m bs ≡ held_bytes m ++ bs
unfolding valid_from lossy_from
valid_from-lossy boundary [] h = refl
valid_from-lossy (inside _ _ _ _) [] h = absurd (false≢true h)
valid_from-lossy m (b ∷ bs) h =
    let r = read_byte m b in
    let (fit, rest) = &&-eq-true r.fits (valid_from r.mode bs) h in
    rw (valid_from-lossy r.mode bs rest) (lossy_step m b bs r (read_byte-fits m b fit))

-- Well-formed text is decoded to itself.
pub from_utf8_lossy-is_utf8 : (bs : Bytes) → is_utf8 bs ≡ true → from_utf8_lossy bs ≡ bs
unfolding from_utf8_lossy is_utf8
from_utf8_lossy-is_utf8 = valid_from-lossy boundary

ascii_from : (bs : Bytes) → All (λ b. b < 128) bs → lossy_from boundary bs ≡ bs
unfolding lossy_from read_byte
ascii_from [] a = refl
ascii_from (b ∷ bs) a = rw (below b a.0, ascii_from bs a.1)
  where
    below : (b : ℕ) → b < 128 → leb b 0x7f ≡ true
    below b h = ground arith

pub from_utf8_lossy-ascii : (bs : Bytes) → All (λ b. b < 128) bs → from_utf8_lossy bs ≡ bs
unfolding from_utf8_lossy
from_utf8_lossy-ascii = ascii_from
