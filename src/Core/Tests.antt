-- ===== src/Core/Tests.antt =====
-- The theorems on the client's address and on the configuration, each at a concrete input.
use mathlib.Core.Option
use light_waf.Prelude.{
  ◌≤◌, true, Option, some, List, [], ◌∷◌, ◌++◌, Bytes, codes, ◌=bytes◌, split, trim,
  eq_ignore_ascii_case, parse_u8, length, ◌≡◌, ◌↔◌, ◌⊎◌, refl, arith,
}
use light_waf.Core.Config.{IpAddr, v4, loopback, config_default}
use light_waf.Core.Network.{cidr_4, contains, ClientIpResolver, header_value, chain, resolve}
use light_waf.Core.Network.Mask.{IsMember, contains_iff}
use light_waf.Core.Network.Spoof.{is_trusted, ReadAt, resolve-spoofed, resolve-provenance}
use light_waf.Core.Validate.{ok, validate}
use light_waf.Core.Validate.Valid.{IsValidConfig, validate_iff}

contains_iff_example :
    (contains (cidr_4 0x0a000000 8) (v4 0x0a010203) ≡ true)
    ↔ IsMember (cidr_4 0x0a000000 8) (v4 0x0a010203)
contains_iff_example =
    contains_iff (cidr_4 0x0a000000 8) (v4 0x0a010203) (omega arith, omega arith, omega arith)

-- a parser of addresses that reads the last byte only
abbrev read_address : Bytes → Option IpAddr
read_address s = Option.map v4 (parse_u8 s)

abbrev proxied : ClientIpResolver
proxied = record { trusted = cidr_4 0x7f000000 8 ∷ []; header = codes "x-forwarded-for"; hops = 1 }

abbrev honest : List (Bytes × Bytes)
honest = (codes "X-Forwarded-For", codes " 7") ∷ []

abbrev forged : List (Bytes × Bytes)
forged = (codes "X-Forwarded-For", codes "9, 8, 7") ∷ []

honest_header : header_value proxied.header honest ≡ some (codes " 7")
unfolding header_value eq_ignore_ascii_case ◌=bytes◌
honest_header = refl

forged_header : header_value proxied.header forged ≡ some (codes "9, 8" ++ (b',' ∷ codes " 7"))
unfolding header_value eq_ignore_ascii_case ◌=bytes◌
forged_header = refl

one_entry : 1 ≤ length (chain (codes " 7"))
unfolding chain split trim
one_entry = omega arith

resolve-spoofed_example :
    resolve read_address proxied loopback forged ≡ resolve read_address proxied loopback honest
resolve-spoofed_example =
    resolve-spoofed read_address proxied loopback honest forged (codes " 7") (codes "9, 8")
      honest_header forged_header one_entry

resolve-provenance_example :
    ((resolve read_address proxied loopback forged).ip ≡ loopback)
    ⊎ ((is_trusted proxied loopback ≡ true)
        × ((value : Bytes) × (header_value proxied.header forged ≡ some value)
            × ReadAt read_address proxied.hops
                (chain value)
                (resolve read_address proxied loopback forged).ip))
resolve-provenance_example = resolve-provenance read_address proxied loopback forged

validate_iff_example :
    (validate read_address config_default ≡ ok) ↔ IsValidConfig read_address config_default
validate_iff_example = validate_iff read_address config_default
