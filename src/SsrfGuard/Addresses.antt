-- ===== src/SsrfGuard/Addresses.antt =====
-- What core/src/utils/ssrf_guard.ts says of the text of an IPv4 address.
use mathlib.Core.Path.{subst}
use adk_js.Prelude.{
  ℕ, ◌≤◌, ◌≡◌, refl, arith, String, Bool, false, ◌&&◌, Option, none, some, List, [], ◌∷◌, ◌==◌,
  Option-cases, inl, inr,
}
use adk_js.Prelude.Text.{split_on}
use adk_js.SsrfGuard.Parse.{parse_ipv4, four_octets, octet, decimal}
use adk_js.SsrfGuard.{
  Networks, load, is_non_global_ipv4, is_link_local_ipv4, is_non_global_address,
  is_link_local_address,
}
use adk_js.SsrfGuard.Ranges.{is_special, is_non_global_ipv4_lem}

-- Four numbers of eight bits.
abbrev pub AreOctets : List ℕ → Type 0
AreOctets (a ∷ b ∷ c ∷ d ∷ []) = (a ≤ 255) × (b ≤ 255) × (c ≤ 255) × (d ≤ 255)
AreOctets _ = ⊥

abbrev pub are_special : List ℕ → Bool
are_special (a ∷ b ∷ c ∷ d ∷ []) = is_special a b c
are_special _ = false

abbrev pub are_link_local : List ℕ → Bool
are_link_local (a ∷ b ∷ c ∷ d ∷ []) = (a == 169) && (b == 254)
are_link_local _ = false

octet_le : (s : String) (n : ℕ) → octet s ≡ some n → n ≤ 255
octet_le s n h = elim (Option-cases (decimal 0 s)) [
  | inl e ↦ ground (arith, e, h)
  | inr (m, e) ↦ ground (arith, e, h)
]

none_not_some : {A : Type 0} (a : A) (o : Option A) → o ≡ none → o ≡ some a → ⊥
none_not_some a o h k = cc

four_octets-AreOctets :
    (groups : List String) (os : List ℕ) → four_octets groups ≡ some os → AreOctets os
four_octets-AreOctets (s ∷ t ∷ u ∷ v ∷ []) os h = elim (Option-cases (octet s)) [
  | inl e ↦ absurd (none_not_some os _ (rw e refl) h)
  | inr (a, ea) ↦ elim (Option-cases (octet t)) [
    | inl e ↦ absurd (none_not_some os _ (rw (ea, e) refl) h)
    | inr (b, eb) ↦ elim (Option-cases (octet u)) [
      | inl e ↦ absurd (none_not_some os _ (rw (ea, eb, e) refl) h)
      | inr (c, ec) ↦ elim (Option-cases (octet v)) [
        | inl e ↦ absurd (none_not_some os _ (rw (ea, eb, ec, e) refl) h)
        | inr (d, ed) ↦
            let same : a ∷ b ∷ c ∷ d ∷ [] ≡ os = ground (arith, ea, eb, ec, ed, h) in
            subst AreOctets same
              (octet_le s a ea, octet_le t b eb, octet_le u c ec, octet_le v d ed)
      ]
    ]
  ]
]
four_octets-AreOctets [] os h = absurd (none_not_some os _ refl h)
four_octets-AreOctets (s ∷ []) os h = absurd (none_not_some os _ refl h)
four_octets-AreOctets (s ∷ t ∷ []) os h = absurd (none_not_some os _ refl h)
four_octets-AreOctets (s ∷ t ∷ u ∷ []) os h = absurd (none_not_some os _ refl h)
four_octets-AreOctets (s ∷ t ∷ u ∷ v ∷ w ∷ groups) os h = absurd (none_not_some os _ refl h)

module _ (is_ip : String → ℕ) (n : Networks) (loads : load is_ip ≡ some n) where
  of_octets :
      (os : List ℕ)
      → AreOctets os
      → (is_non_global_ipv4 n os ≡ are_special os) × (is_link_local_ipv4 n os ≡ are_link_local os)
  of_octets (a ∷ b ∷ c ∷ d ∷ []) (ha, hb, hc, hd) =
      is_non_global_ipv4_lem is_ip n a b c d loads ha hb hc hd
  of_octets [] h = absurd h
  of_octets (a ∷ []) h = absurd h
  of_octets (a ∷ b ∷ []) h = absurd h
  of_octets (a ∷ b ∷ c ∷ []) h = absurd h
  of_octets (a ∷ b ∷ c ∷ d ∷ e ∷ os) h = absurd h

  -- Once the module is loaded, a text that reads as an IPv4 address gives four octets of at most 255, and
  -- it is non-global just when they lie in 0/8, 10/8, 100.64/10, 127/8, 169.254/16, 172.16/12,
  -- 192.0.0/24, 192.0.2/24, 192.88.99/24, 192.168/16, 198.18/15, 198.51.100/24, 203.0.113/24 or from 224
  -- on, and link-local just when they lie in 169.254/16.
  pub is_non_global_address_lem :
      (address : String) (os : List ℕ)
      → parse_ipv4 address ≡ some os
      → AreOctets os
        × (is_non_global_address is_ip n address ≡ some (are_special os))
        × (is_link_local_address is_ip n address ≡ some (are_link_local os))
  unfolding is_non_global_address is_link_local_address parse_ipv4
  is_non_global_address_lem address os h =
      let bounds = four_octets-AreOctets (split_on 46 address) os h in
      let (special, link_local) = of_octets os bounds in
      (bounds, ground (arith, h, special), ground (arith, h, link_local))
