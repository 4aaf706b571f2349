-- ===== src/SsrfGuard/Embedded.antt =====
-- IPv6 addresses that carry an IPv4 address (core/src/utils/ssrf_guard.ts).
use Prim.Native.Nat.{◌^◌}
use adk_js.Prelude.{
  ℕ, ◌+◌, ◌*◌, ◌/◌, ◌≤◌, ◌≡◌, refl, ap, ◌∙◌, arith, String, true, false, not, ◌&&◌, ◌||◌, Option,
  none, some, List, [], ◌∷◌, All, ◌==◌, ltb, if◌then◌else◌, Bool-cases, inl, inr,
}
use adk_js.SsrfGuard.Parse.{ipv4_to_int}
use adk_js.SsrfGuard.{
  Networks, load, matches_ipv6_cidr, hextets_to_octets, embedded_ipv4, is_non_global_ipv4,
  is_non_global_ipv6, is_link_local_ipv4, is_link_local_ipv6,
}
use adk_js.SsrfGuard.Packing.{
  IsHextet, number, pack_lem, first_of_eight, six_of_eight, hextets_to_octets_lem,
}
use adk_js.SsrfGuard.Loading.{standard, load-standard}

module _ (h_0 h_1 h_2 h_3 h_4 h_5 h_6 h_7 : ℕ) where
  abbrev eight : List ℕ
  eight = h_0 ∷ h_1 ∷ h_2 ∷ h_3 ∷ h_4 ∷ h_5 ∷ h_6 ∷ h_7 ∷ []

  abbrev six : ℕ
  six = number 0 (h_0 ∷ h_1 ∷ h_2 ∷ h_3 ∷ h_4 ∷ h_5 ∷ [])

  match_16 :
      (base : ℕ)
      → All IsHextet eight
      → matches_ipv6_cidr eight (record { base = base; prefix = 16 }) ≡ (h_0 == base / 2 ^ 112)
  unfolding matches_ipv6_cidr
  match_16 base a =
      ap (λ x. x / 2 ^ 112 == base / 2 ^ 112) (pack_lem eight 0 a)
      ∙ ap (λ x. x == base / 2 ^ 112) (first_of_eight h_0 h_1 h_2 h_3 h_4 h_5 h_6 h_7 a)

  match_96 :
      (base : ℕ)
      → All IsHextet eight
      → matches_ipv6_cidr eight (record { base = base; prefix = 96 }) ≡ (six == base / 2 ^ 32)
  unfolding matches_ipv6_cidr
  match_96 base a =
      let (_, (_, (_, (_, (_, (_, (b_6, (b_7, _)))))))) = a in
      ap (λ x. x / 2 ^ 32 == base / 2 ^ 32) (pack_lem eight 0 a)
      ∙ ap (λ x. x == base / 2 ^ 32) (six_of_eight six h_6 h_7 b_6 b_7)

  -- What is embedded, by the hextets.
  abbrev embedded : Option (List ℕ)
  embedded =
      if h_0 == 0x2002
      then some (hextets_to_octets h_1 h_2)
      else if (six == 0xffff) || (six == 0x0064ff9b0000000000000000)
      then some (hextets_to_octets h_6 h_7)
      else if (six == 0) && (not (h_6 == 0) || ltb 1 h_7)
      then some (hextets_to_octets h_6 h_7)
      else none

  embedded_lem : All IsHextet eight → embedded_ipv4 standard eight ≡ embedded
  unfolding embedded_ipv4
  embedded_lem a =
      let s = match_16 0x20020000000000000000000000000000 a in
      let m = match_96 0x00000000000000000000ffff00000000 a in
      let t = match_96 0x0064ff9b000000000000000000000000 a in
      let c = match_96 0 a in rw (s, m, t, c) refl

-- The same answers for an IPv6 address as for four octets.
abbrev pub Same : Networks → List ℕ → List ℕ → Type 0
Same n hs octets =
    (is_non_global_ipv6 n hs ≡ is_non_global_ipv4 n octets)
    × (is_link_local_ipv6 n hs ≡ is_link_local_ipv4 n octets)

Same-of_embedded :
    (hs octets : List ℕ) → embedded_ipv4 standard hs ≡ some octets → Same standard hs octets
unfolding is_non_global_ipv6 is_link_local_ipv6
Same-of_embedded hs octets e = (ground (arith, e), ground (arith, e))

lowest : Same standard (0 ∷ 0 ∷ 0 ∷ 0 ∷ 0 ∷ 0 ∷ 0 ∷ 0 ∷ []) (0 ∷ 0 ∷ 0 ∷ 0 ∷ [])
unfolding is_non_global_ipv6 is_link_local_ipv6 ipv4_to_int
lowest = (refl, refl)

one_up : Same standard (0 ∷ 0 ∷ 0 ∷ 0 ∷ 0 ∷ 0 ∷ 0 ∷ 1 ∷ []) (0 ∷ 0 ∷ 0 ∷ 1 ∷ [])
unfolding is_non_global_ipv6 is_link_local_ipv6 ipv4_to_int
one_up = (refl, refl)

module _ (a b c d : ℕ) (ha : a ≤ 255) (hb : b ≤ 255) (hc : c ≤ 255) (hd : d ≤ 255) where
  high-IsHextet : IsHextet (a * 2 ^ 8 + b)
  high-IsHextet = omega arith

  low-IsHextet : IsHextet (c * 2 ^ 8 + d)
  low-IsHextet = omega arith

  octets_back : hextets_to_octets (a * 2 ^ 8 + b) (c * 2 ^ 8 + d) ≡ a ∷ b ∷ c ∷ d ∷ []
  octets_back = hextets_to_octets_lem a b c d ha hb hc hd

  zero-IsHextet : IsHextet 0
  zero-IsHextet = omega arith

  six_to_four-Same :
      (x y z u v : ℕ)
      → All IsHextet (x ∷ y ∷ z ∷ u ∷ v ∷ [])
      → Same standard
          (0x2002 ∷ (a * 2 ^ 8 + b) ∷ (c * 2 ^ 8 + d) ∷ x ∷ y ∷ z ∷ u ∷ v ∷ [])
          (a ∷ b ∷ c ∷ d ∷ [])
  six_to_four-Same x y z u v rest = Same-of_embedded _ _ (
      embedded_lem 0x2002 (a * 2 ^ 8 + b) (c * 2 ^ 8 + d) x y z u v
        (omega arith, (high-IsHextet, (low-IsHextet, rest)))
      ∙ ap some octets_back)

  -- Six hextets that say that the last two are an IPv4 address.
  behind-Same :
      (h_0 h_1 h_2 h_3 h_4 h_5 : ℕ)
      → All IsHextet (h_0 ∷ h_1 ∷ h_2 ∷ h_3 ∷ h_4 ∷ h_5 ∷ (a * 2 ^ 8 + b) ∷ (c * 2 ^ 8 + d) ∷ [])
      → (h_0 == 0x2002) ≡ false
      → ((six h_0 h_1 h_2 h_3 h_4 h_5 0 0 == 0xffff)
          || (six h_0 h_1 h_2 h_3 h_4 h_5 0 0 == 0x0064ff9b0000000000000000))
        ≡ true
      → Same standard
          (h_0 ∷ h_1 ∷ h_2 ∷ h_3 ∷ h_4 ∷ h_5 ∷ (a * 2 ^ 8 + b) ∷ (c * 2 ^ 8 + d) ∷ [])
          (a ∷ b ∷ c ∷ d ∷ [])
  behind-Same h_0 h_1 h_2 h_3 h_4 h_5 hs k l = Same-of_embedded _ _ (
      embedded_lem h_0 h_1 h_2 h_3 h_4 h_5 (a * 2 ^ 8 + b) (c * 2 ^ 8 + d) hs
      ∙ rw (k, l) (ap some octets_back))

  -- The address `::a.b.c.d`; `::` and `::1` are networks of their own.
  compatible-Same :
      Same standard
        (0 ∷ 0 ∷ 0 ∷ 0 ∷ 0 ∷ 0 ∷ (a * 2 ^ 8 + b) ∷ (c * 2 ^ 8 + d) ∷ [])
        (a ∷ b ∷ c ∷ d ∷ [])
  compatible-Same = elim (Bool-cases (not (a * 2 ^ 8 + b == 0) || ltb 1 (c * 2 ^ 8 + d))) [
    | inl k ↦
        let z = zero-IsHextet in
        Same-of_embedded _ _ (
          embedded_lem 0 0 0 0 0 0 (a * 2 ^ 8 + b) (c * 2 ^ 8 + d)
            (z, (z, (z, (z, (z, (z, (high-IsHextet, (low-IsHextet, tt))))))))
          ∙ rw k (ap some octets_back))
    | inr k ↦
        let a_none : a ≡ 0 = ground (arith, k) in
        let b_none : b ≡ 0 = ground (arith, k) in
        let c_none : c ≡ 0 = ground (arith, k) in
        elim (Bool-cases (d == 0)) [
          | inl e ↦
              let d_none : d ≡ 0 = ground (arith, e) in rw (a_none, b_none, c_none, d_none) lowest
          | inr e ↦
              let d_one : d ≡ 1 = ground (arith, e, k) in rw (a_none, b_none, c_none, d_one) one_up
        ]
  ]

-- Once the module is loaded, an IPv6 address that carries four octets (as an IPv4-mapped, NAT64, 6to4
-- or IPv4-compatible address) is non-global just when the octets are, and link-local just when they are.
pub embedded_addresses-Same :
    (is_ip : String → ℕ) (n : Networks) (a b c d x y z u v : ℕ)
    → load is_ip ≡ some n
    → a ≤ 255
    → b ≤ 255
    → c ≤ 255
    → d ≤ 255
    → All IsHextet (x ∷ y ∷ z ∷ u ∷ v ∷ [])
    → Same n
        (0 ∷ 0 ∷ 0 ∷ 0 ∷ 0 ∷ 0xffff ∷ (a * 2 ^ 8 + b) ∷ (c * 2 ^ 8 + d) ∷ [])
        (a ∷ b ∷ c ∷ d ∷ [])
      × Same n
          (0x64 ∷ 0xff9b ∷ 0 ∷ 0 ∷ 0 ∷ 0 ∷ (a * 2 ^ 8 + b) ∷ (c * 2 ^ 8 + d) ∷ [])
          (a ∷ b ∷ c ∷ d ∷ [])
      × Same n
          (0x2002 ∷ (a * 2 ^ 8 + b) ∷ (c * 2 ^ 8 + d) ∷ x ∷ y ∷ z ∷ u ∷ v ∷ [])
          (a ∷ b ∷ c ∷ d ∷ [])
      × Same n (0 ∷ 0 ∷ 0 ∷ 0 ∷ 0 ∷ 0 ∷ (a * 2 ^ 8 + b) ∷ (c * 2 ^ 8 + d) ∷ []) (a ∷ b ∷ c ∷ d ∷ [])
embedded_addresses-Same is_ip n a b c d x y z u v e ha hb hc hd rest =
    rw (load-standard is_ip n e) (
      behind-Same a b c d ha hb hc hd 0 0 0 0 0 0xffff behind refl refl,
      behind-Same a b c d ha hb hc hd 0x64 0xff9b 0 0 0 0 behind_nat64 refl refl,
      six_to_four-Same a b c d ha hb hc hd x y z u v rest,
      compatible-Same a b c d ha hb hc hd,
    )
  where
    high : IsHextet (a * 2 ^ 8 + b)
    high = high-IsHextet a b c d ha hb hc hd

    low : IsHextet (c * 2 ^ 8 + d)
    low = low-IsHextet a b c d ha hb hc hd

    behind : All IsHextet (0 ∷ 0 ∷ 0 ∷ 0 ∷ 0 ∷ 0xffff ∷ (a * 2 ^ 8 + b) ∷ (c * 2 ^ 8 + d) ∷ [])
    behind = (
      omega arith,
      (omega arith, (omega arith, (omega arith, (omega arith, (omega arith, (high, (low, tt))))))),
    )

    behind_nat64 :
        All IsHextet (0x64 ∷ 0xff9b ∷ 0 ∷ 0 ∷ 0 ∷ 0 ∷ (a * 2 ^ 8 + b) ∷ (c * 2 ^ 8 + d) ∷ [])
    behind_nat64 = (
      omega arith,
      (omega arith, (omega arith, (omega arith, (omega arith, (omega arith, (high, (low, tt))))))),
    )
