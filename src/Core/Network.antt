-- ===== src/Core/Network.antt =====
-- crates/waf-core/src/network/client_ip.rs: the client's address behind trusted proxies.
--
-- `IpAddr::from_str` is the standard library's; the parser is a parameter, and nothing is assumed of
-- it, so the theorems hold for every way to read an address.
pub mod Mask
pub mod Spoof
use light_waf.Prelude.{
  ℕ, ◌-◌, ◌*◌, ◌%◌, ◌^◌, bit_and, Bool, true, false, not, ◌&&◌, ◌||◌, Option, none, some, List, [],
  ◌∷◌, map, Bytes, split, split_once, trim, parse_u8, to_ascii_lowercase, eq_ignore_ascii_case, any,
  filterb, find, is_empty, length, get_elem?, leb, ltb, ◌==◌, if◌then◌else◌,
}
use mathlib.Core.Option
use light_waf.Core.Config.{IpAddr, v4, v6, NetworkConfig}

pub data IpSource : Type 0 where
  direct_peer trusted_header fallback_missing_header fallback_malformed : IpSource

pub record ResolvedClientIp : Type 0 where
  pub ip : IpAddr
  pub source : IpSource

-- the network's address and the length of the prefix
pub data Cidr : Type 0 where
  cidr_4 : ℕ → ℕ → Cidr
  cidr_6 : ℕ → ℕ → Cidr

-- the top `prefix` bits of a word of `width` bits; `<<` drops what leaves the word
unfoldable pub prefix_mask : ℕ → ℕ → ℕ
prefix_mask width prefix =
    if prefix == 0
    then 0
    else if prefix == width
    then 2 ^ width - 1
    else (2 ^ width - 1) * 2 ^ (width - prefix) % 2 ^ width

unfoldable pub mask_eq_u32 : ℕ → ℕ → ℕ → Bool
mask_eq_u32 a b prefix = let mask = prefix_mask 32 prefix in bit_and a mask == bit_and b mask

unfoldable pub mask_eq_u128 : ℕ → ℕ → ℕ → Bool
mask_eq_u128 a b prefix = let mask = prefix_mask 128 prefix in bit_and a mask == bit_and b mask

-- `Cidr::contains`
unfoldable pub contains : Cidr → IpAddr → Bool
contains (cidr_4 net prefix) (v4 addr) = mask_eq_u32 net addr prefix
contains (cidr_6 net prefix) (v6 addr) = mask_eq_u128 net addr prefix
contains (cidr_4 net prefix) (v6 addr) = false
contains (cidr_6 net prefix) (v4 addr) = false

-- the text before the slash, and the prefix behind it
abbrev split_prefix : Bytes → Bytes × Option Bytes
split_prefix s = elim (split_once b'/' (trim s)) [
  | some (a, p) ↦ (trim a, some (trim p))
  | none ↦ (trim s, none)
]

-- the prefix's length, `full` where none is written
unfoldable pub prefix_length : ℕ → Option Bytes → Option ℕ
prefix_length full none = some full
prefix_length full (some p) = elim (parse_u8 p) [
  | some n ↦ if leb n full then some n else none
  | none ↦ none
]

-- the first value of the header of that name
unfoldable pub header_value : Bytes → List (Bytes × Bytes) → Option Bytes
header_value name headers =
    Option.map (λ (h : Bytes × Bytes). h.1)
      (find (λ (h : Bytes × Bytes). eq_ignore_ascii_case h.0 name) headers)

-- the entries of the forwarded chain
unfoldable pub chain : Bytes → List Bytes
chain value = filterb (λ s. not (is_empty s)) (map trim (split b',' value))

module _ (from_str : Bytes → Option IpAddr) where
  -- `Cidr::parse`
  unfoldable pub parse_cidr : Bytes → Option Cidr
  unfolding prefix_length
  parse_cidr s =
      let (addr_part, prefix_part) = split_prefix s in
      elim (from_str addr_part) [
        | none ↦ none
        | some (v4 a) ↦ Option.map (cidr_4 a) (prefix_length 32 prefix_part)
        | some (v6 a) ↦ Option.map (cidr_6 a) (prefix_length 128 prefix_part)
      ]

  unfoldable pub is_valid_cidr : Bytes → Bool
  is_valid_cidr s = elim (parse_cidr s) [ some c ↦ true | none ↦ false ]

  -- `filter_map` over the configured entries
  unfoldable pub parse_all : List Bytes → List Cidr
  parse_all [] = []
  parse_all (s ∷ rest) =
      let others = parse_all rest in elim (parse_cidr s) [ some c ↦ c ∷ others | none ↦ others ]

pub record ClientIpResolver : Type 0 where
  pub trusted : List Cidr
  pub header : Bytes
  pub hops : ℕ

module _ (from_str : Bytes → Option IpAddr) where
  unfoldable pub from_config : NetworkConfig → ClientIpResolver
  from_config cfg = record {
    trusted = parse_all from_str cfg.trusted_proxies;
    header = to_ascii_lowercase cfg.client_ip_header;
    hops = cfg.trusted_hops;
  }

  -- the entry at the trusted position; the index is in range, so `none` is not reached
  unfoldable pub resolve_entry : IpAddr → Option Bytes → ResolvedClientIp
  resolve_entry peer none = record { ip = peer; source = fallback_malformed }
  resolve_entry peer (some token) = elim (from_str token) [
    | some ip ↦ record { ip = ip; source = trusted_header }
    | none ↦ record { ip = peer; source = fallback_malformed }
  ]

  -- the header's value is there, behind a trusted peer
  unfoldable pub resolve_chain : ℕ → IpAddr → List Bytes → ResolvedClientIp
  unfolding resolve_entry
  resolve_chain hops peer entries =
      if hops == 0 || ltb (length entries) hops
      then record { ip = peer; source = fallback_malformed }
      else resolve_entry peer (get_elem? entries (length entries - hops))

  -- behind a trusted peer, on the header's value
  unfoldable pub resolve_value : ℕ → IpAddr → Option Bytes → ResolvedClientIp
  resolve_value hops peer none = record { ip = peer; source = fallback_missing_header }
  resolve_value hops peer (some value) = resolve_chain hops peer (chain value)

  unfoldable pub resolve : ClientIpResolver → IpAddr → List (Bytes × Bytes) → ResolvedClientIp
  unfolding resolve_chain resolve_value
  resolve r peer headers =
      if any (λ c. contains c peer) r.trusted
      then resolve_value r.hops peer (header_value r.header headers)
      else record { ip = peer; source = direct_peer }

unfoldable pub trusted_count : ClientIpResolver → ℕ
trusted_count r = length r.trusted
