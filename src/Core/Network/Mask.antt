-- ===== src/Core/Network/Mask.antt =====
-- The mask comparison of CIDR membership is the comparison of the leading bits.
use mathlib.Core.Bool.{false≢true}
use native.Mathlib.Nat.{mod-eq_of_lt, div-lt_iff_lt-mul}
use light_waf.Prelude.{
  ℕ, zero, suc, ◌-◌, ◌*◌, ◌/◌, ◌%◌, ◌^◌, ◌≤◌, ◌<◌, bit_and, Bool, true, ◌&&◌, ◌≡◌, ◌↔◌, refl, sym,
  ap, subst, ◌∙◌, arith, inl, inr, leb, Bool-cases, ◌==◌, ==_iff,
}
use light_waf.Prelude.Bits.{ones, bit_and-ones, bit_and-shifted, two_pow_pos}
use light_waf.Core.Config.{IpAddr, v4, v6}
use light_waf.Core.Network.{prefix_mask, mask_eq_u32, mask_eq_u128, Cidr, cidr_4, cidr_6, contains}

-- a check on every prefix length up to the longest, by evaluation
each_length : (ℕ → Bool) → ℕ → Bool
each_length check zero = check 0
each_length check (suc longest) = each_length check longest && check (suc longest)

each_length_lem :
    (check : ℕ → Bool) (longest : ℕ)
    → each_length check longest ≡ true
    → (prefix : ℕ) → prefix ≤ longest
    → check prefix ≡ true
unfolding each_length
each_length_lem check zero table zero _ = table
each_length_lem check zero table (suc prefix) l = absurd (omega arith)
each_length_lem check (suc longest) table prefix l = elim (Bool-cases (leb prefix longest)) [
  | inl short ↦ each_length_lem check longest (ground arith) prefix (ground arith)
  | inr full ↦
      let this : prefix ≡ suc longest = ground arith in
      subst (λ n. check n ≡ true) (sym this) (ground arith)
]

-- the mask is the ones of the prefix, above zeros
abbrev is_ones : ℕ → ℕ → Bool
is_ones width p = prefix_mask width p == ones p * 2 ^ (width - p)

table_32 : each_length (is_ones 32) 32 ≡ true
unfolding each_length prefix_mask
table_32 = refl

table_128 : each_length (is_ones 128) 128 ≡ true
unfolding each_length prefix_mask
table_128 = refl

prefix_mask-32 : (p : ℕ) → p ≤ 32 → prefix_mask 32 p ≡ ones p * 2 ^ (32 - p)
prefix_mask-32 p h = (==_iff _ _).0 (each_length_lem (is_ones 32) 32 table_32 p h)

prefix_mask-128 : (p : ℕ) → p ≤ 128 → prefix_mask 128 p ≡ ones p * 2 ^ (128 - p)
prefix_mask-128 p h = (==_iff _ _).0 (each_length_lem (is_ones 128) 128 table_128 p h)

-- the leading `p` bits of a word of `p + k` bits
masked : (p k a : ℕ) → bit_and a (ones p * 2 ^ k) ≡ a / 2 ^ k % 2 ^ p * 2 ^ k
masked p k a = bit_and-shifted k a (ones p) ∙ ap (λ t. t * 2 ^ k) (bit_and-ones p (a / 2 ^ k))

cancel : (q x y : ℕ) → 0 < q → x * q ≡ y * q → x ≡ y
cancel q x y h e = grind arith

-- the two sides of the comparison, for any width that the tables have checked
module _ (width p a b : ℕ) (shape : prefix_mask width p ≡ ones p * 2 ^ (width - p))
    (whole : 2 ^ p * 2 ^ (width - p) ≡ 2 ^ width) (ha : a < 2 ^ width) (hb : b < 2 ^ width) where
  leading :
      (x : ℕ)
      → x < 2 ^ width
      → bit_and x (prefix_mask width p) ≡ x / 2 ^ (width - p) * 2 ^ (width - p)
  leading x h = rw shape (
      masked p (width - p) x
      ∙ ap (λ t. t * 2 ^ (width - p))
          (mod-eq_of_lt ((div-lt_iff_lt-mul (two_pow_pos (width - p))).1 (rw whole h))))

  masks_iff :
      ((bit_and a (prefix_mask width p) == bit_and b (prefix_mask width p)) ≡ true)
      ↔ (a / 2 ^ (width - p) ≡ b / 2 ^ (width - p))
  masks_iff = (
    λ e.
        cancel (2 ^ (width - p)) (a / 2 ^ (width - p)) (b / 2 ^ (width - p))
          (two_pow_pos (width - p)) (sym (leading a ha) ∙ (==_iff _ _).0 e ∙ leading b hb),
    λ e. (==_iff _ _).1 (leading a ha ∙ ap (λ t. t * 2 ^ (width - p)) e ∙ sym (leading b hb)),
  )

abbrev is_whole : ℕ → ℕ → Bool
is_whole width p = 2 ^ p * 2 ^ (width - p) == 2 ^ width

whole_32 : each_length (is_whole 32) 32 ≡ true
unfolding each_length
whole_32 = refl

whole_128 : each_length (is_whole 128) 128 ≡ true
unfolding each_length
whole_128 = refl

-- the two addresses agree in all but their last `k` bits
abbrev pub SameNetwork : ℕ → ℕ → ℕ → Type 0
SameNetwork k a b = a / 2 ^ k ≡ b / 2 ^ k

-- the network and the address are words of the family's width, and the prefix is no longer
abbrev pub InRange : Cidr → IpAddr → Type 0
InRange (cidr_4 net prefix) (v4 addr) = (prefix ≤ 32) × (net < 2 ^ 32) × (addr < 2 ^ 32)
InRange (cidr_6 net prefix) (v6 addr) = (prefix ≤ 128) × (net < 2 ^ 128) × (addr < 2 ^ 128)
InRange _ _ = Unit

-- what membership in a network means
abbrev pub IsMember : Cidr → IpAddr → Type 0
IsMember (cidr_4 net prefix) (v4 addr) = SameNetwork (32 - prefix) net addr
IsMember (cidr_6 net prefix) (v6 addr) = SameNetwork (128 - prefix) net addr
IsMember _ _ = ⊥

-- Where the words fit the family's width and the prefix is no longer than that, `contains` decides
-- membership, for every prefix length from 0 to that of the whole word and in both families; an
-- address of the other family is never a member.
pub contains_iff : (c : Cidr) (ip : IpAddr) → InRange c ip → (contains c ip ≡ true) ↔ IsMember c ip
unfolding contains mask_eq_u32 mask_eq_u128
contains_iff (cidr_4 net prefix) (v4 addr) (hp, hn, ha) =
    masks_iff 32 prefix net addr (prefix_mask-32 prefix hp)
      ((==_iff _ _).0 (each_length_lem (is_whole 32) 32 whole_32 prefix hp)) hn ha
contains_iff (cidr_6 net prefix) (v6 addr) (hp, hn, ha) =
    masks_iff 128 prefix net addr (prefix_mask-128 prefix hp)
      ((==_iff _ _).0 (each_length_lem (is_whole 128) 128 whole_128 prefix hp)) hn ha
contains_iff (cidr_4 net prefix) (v6 addr) h = (λ e. false≢true e, λ e. absurd e)
contains_iff (cidr_6 net prefix) (v4 addr) h = (λ e. false≢true e, λ e. absurd e)
