-- ===== src/Core/Network/Spoof.antt =====
-- A client cannot choose its own address: what it writes in front of the forwarded chain has no
-- effect, and without a trusted peer the header is not read.
use mathlib.Core.List.{map-append}
use light_waf.Prelude.{
  ℕ, ◌+◌, ◌-◌, ◌≤◌, Bool, true, not, ◌||◌, Option, none, some, List, [], ◌∷◌, ◌++◌, map, ◌≡◌, ◌⊎◌,
  inl, inr, refl, ap, arith, Bytes, split, split-append, trim, any, filterb-append, is_empty,
  length, length-append, get_elem?, get_elem?-append_right, ltb, ◌==◌, if◌then◌else◌, Bool-cases,
  Option-cases,
}
use light_waf.Core.Config.{IpAddr, NetworkConfig}
use light_waf.Core.Network.{
  direct_peer, contains, chain, header_value, ClientIpResolver, from_config, parse_all,
  resolve_entry, resolve_chain, resolve_value, resolve,
}

chain-append : (junk value : Bytes) → chain (junk ++ (b',' ∷ value)) ≡ chain junk ++ chain value
unfolding chain
chain-append junk value =
    rw (split-append b',' junk value, map-append)
      (filterb-append (λ s. not (is_empty s)) (map trim (split b',' junk))
        (map trim (split b',' value)))

abbrev pub is_trusted : ClientIpResolver → IpAddr → Bool
is_trusted r peer = any (λ c. contains c peer) r.trusted

module _ (from_str : Bytes → Option IpAddr) where
  resolve_chain-append :
      (hops : ℕ) (peer : IpAddr) (junk entries : List Bytes)
      → hops ≤ length entries
      → resolve_chain from_str hops peer (junk ++ entries)
        ≡ resolve_chain from_str hops peer entries
  unfolding resolve_chain
  resolve_chain-append hops peer junk entries h =
      rw (within (length (junk ++ entries)) (longer junk entries h), within (length entries) h)
        (rw (position junk entries h))
    where
      longer : (junk entries : List Bytes) → hops ≤ length entries → hops ≤ length (junk ++ entries)
      longer junk entries h = omega (arith, length-append junk entries)

      within : (n : ℕ) → hops ≤ n → (hops == 0 || ltb n hops) ≡ (hops == 0)
      within n h = ground arith

      position :
          (junk entries : List Bytes)
          → hops ≤ length entries
          → get_elem? (junk ++ entries) (length (junk ++ entries) - hops)
            ≡ get_elem? entries (length entries - hops)
      position junk entries h =
          rw (offset junk entries h) (get_elem?-append_right junk entries (length entries - hops))
        where
          offset :
              (junk entries : List Bytes)
              → hops ≤ length entries
              → length (junk ++ entries) - hops ≡ length junk + (length entries - hops)
          offset junk entries h = omega (arith, length-append junk entries)

  -- If the chain in one request's header has at least the trusted number of entries, then a request
  -- from the same peer whose header has any text and a comma in front of that chain, and whose other
  -- headers are any, gets the same address from the same source.
  pub resolve-spoofed :
      (r : ClientIpResolver) (peer : IpAddr) (honest forged : List (Bytes × Bytes))
      (value junk : Bytes)
      → header_value r.header honest ≡ some value
      → header_value r.header forged ≡ some (junk ++ (b',' ∷ value))
      → r.hops ≤ length (chain value)
      → resolve from_str r peer forged ≡ resolve from_str r peer honest
  unfolding resolve resolve_value
  resolve-spoofed r peer honest forged value junk h f enough =
      rw (f, h)
        (ap (λ x. if is_trusted r peer then x else record { ip = peer; source = direct_peer })
          (rw (chain-append junk value)
            (resolve_chain-append r.hops peer (chain junk) (chain value) enough)))

  -- an entry of the chain, at the trusted position, spells the address
  abbrev pub ReadAt : ℕ → List Bytes → IpAddr → Type 0
  ReadAt hops entries ip =
      (token : Bytes) × (get_elem? entries (length entries - hops) ≡ some token)
      × (from_str token ≡ some ip)
      × (1 ≤ hops)
      × (hops ≤ length entries)

  resolve_entry-cases :
      (peer : IpAddr) (entry : Option Bytes)
      → ((resolve_entry from_str peer entry).ip ≡ peer)
        ⊎ ((token : Bytes) × (entry ≡ some token)
            × (from_str token ≡ some (resolve_entry from_str peer entry).ip))
  unfolding resolve_entry
  resolve_entry-cases peer none = inl refl
  resolve_entry-cases peer (some token) = elim (Option-cases (from_str token)) [
    | inl bad ↦ inl (rw (bad, resolve_entry) refl)
    | inr (ip, e) ↦ inr (token, refl, rw (e, resolve_entry) refl)
  ]

  resolve_chain-cases :
      (hops : ℕ) (peer : IpAddr) (entries : List Bytes)
      → ((resolve_chain from_str hops peer entries).ip ≡ peer)
        ⊎ ReadAt hops entries (resolve_chain from_str hops peer entries).ip
  unfolding resolve_chain
  resolve_chain-cases hops peer entries =
      elim (Bool-cases (hops == 0 || ltb (length entries) hops)) [
        | inl short ↦ inl (rw short refl)
        | inr long ↦
            rw long (elim (resolve_entry-cases peer (get_elem? entries (length entries - hops))) [
              | inl own ↦ inl own
              | inr (token, e, f) ↦ inr (token, e, f, ground arith, ground arith)
            ])
      ]

  resolve_value-cases :
      (hops : ℕ) (peer : IpAddr) (found : Option Bytes)
      → ((resolve_value from_str hops peer found).ip ≡ peer)
        ⊎ ((value : Bytes) × (found ≡ some value)
            × ReadAt hops (chain value) (resolve_value from_str hops peer found).ip)
  unfolding resolve_value
  resolve_value-cases hops peer none = inl refl
  resolve_value-cases hops peer (some value) = elim (resolve_chain-cases hops peer (chain value)) [
    | inl own ↦ inl own
    | inr at ↦ inr (value, refl, at)
  ]

  -- The address is the peer's own, or else the peer is in a trusted network, the header is there, and
  -- the address is spelled by the entry that is the trusted number of hops from the right of its chain.
  pub resolve-provenance :
      (r : ClientIpResolver) (peer : IpAddr) (headers : List (Bytes × Bytes))
      → ((resolve from_str r peer headers).ip ≡ peer)
        ⊎ ((is_trusted r peer ≡ true)
            × ((value : Bytes) × (header_value r.header headers ≡ some value)
                × ReadAt r.hops (chain value) (resolve from_str r peer headers).ip))
  unfolding resolve
  resolve-provenance r peer headers = elim (Bool-cases (is_trusted r peer)) [
    | inl trusted ↦
        rw trusted (elim (resolve_value-cases r.hops peer (header_value r.header headers)) [
          | inl own ↦ inl own
          | inr at ↦ inr (refl, at)
        ])
    | inr untrusted ↦ inl (rw untrusted refl)
  ]

  -- With no trusted proxy configured, every request is attributed to its peer, whatever its headers.
  resolve-unconfigured :
      (cfg : NetworkConfig) (peer : IpAddr) (headers : List (Bytes × Bytes))
      → cfg.trusted_proxies ≡ []
      → resolve from_str (from_config from_str cfg) peer headers
        ≡ record { ip = peer; source = direct_peer }
  unfolding resolve from_config parse_all
  resolve-unconfigured cfg peer headers h = rw h refl
