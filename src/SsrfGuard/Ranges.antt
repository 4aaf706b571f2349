-- ===== src/SsrfGuard/Ranges.antt =====
-- Which IPv4 addresses core/src/utils/ssrf_guard.ts holds to be non-global, by their octets.
use Prim.Native.Nat.{◌^◌, bit_and}
use native.Mathlib.Nat.{mul-div_cancel, one-le-pow}
use adk_js.Prelude.{
  ℕ, ◌+◌, ◌-◌, ◌*◌, ◌/◌, ◌%◌, ◌≤◌, ◌<◌, ◌≡◌, refl, sym, ap, ◌∙◌, arith, String, Bool, true, false,
  ◌&&◌, ◌||◌, some, List, [], ◌∷◌, ◌==◌, leb, Bool-cases, inl, inr,
}
use adk_js.SsrfGuard.{Networks, load, matches_ipv4_cidr, is_non_global_ipv4, is_link_local_ipv4}
use adk_js.SsrfGuard.Bits.{and_high}
use adk_js.SsrfGuard.Packing.{ipv4_to_int_lem}
use adk_js.SsrfGuard.Loading.{load-standard}

same_product : (q p n : ℕ) → 0 < n → (q * n == p * n) ≡ (q == p)
same_product q p n h = elim (Bool-cases (q == p)) [
  | inl e ↦ let same : q ≡ p = ground (arith, e) in rw same (self (p * n) ∙ sym (self p))
  | inr e ↦ elim (Bool-cases (q * n == p * n)) [
    | inr k ↦ k ∙ sym e
    | inl k ↦
        let same : q * n ≡ p * n = ground (arith, k) in
        let back : q ≡ p = sym (mul-div_cancel q h) ∙ ap (λ x. x / n) same ∙ mul-div_cancel p h in
        absurd (apart back e)
  ]
]
  where
    self : (x : ℕ) → (x == x) ≡ true
    self x = ground arith

    apart : q ≡ p → (q == p) ≡ false → ⊥
    apart x y = ground (arith, x, y)

-- An address is in a network if what stands before the last `k` bits is the same.
in_network :
    (k w p q r : ℕ)
    → q < 2 ^ w
    → r < 2 ^ k
    → (bit_and (q * 2 ^ k + r) ((2 ^ w - 1) * 2 ^ k) == p * 2 ^ k) ≡ (q == p)
in_network k w p q r h l =
    ap (λ x. x == p * 2 ^ k) (and_high k w q r h l)
    ∙ same_product q p (2 ^ k) (omega (arith, one-le-pow k 2))

module _ (a b c d : ℕ) (ha : a ≤ 255) (hb : b ≤ 255) (hc : c ≤ 255) (hd : d ≤ 255) where
  abbrev octets : List ℕ
  octets = a ∷ b ∷ c ∷ d ∷ []

  -- The network whose addresses begin with the bits of `p`.
  abbrev Begins : ℕ → ℕ → ℕ → Bool → Type 0
  Begins k w p test =
      matches_ipv4_cidr octets (record { base = p * 2 ^ k; mask = (2 ^ w - 1) * 2 ^ k }) ≡ test

  begins :
      (k w p q r : ℕ)
      → a * 2 ^ 24 + b * 2 ^ 16 + c * 2 ^ 8 + d ≡ q * 2 ^ k + r
      → q < 2 ^ w
      → r < 2 ^ k
      → Begins k w p (q == p)
  unfolding matches_ipv4_cidr
  begins k w p q r e h l =
      ap (λ x. bit_and x ((2 ^ w - 1) * 2 ^ k) == p * 2 ^ k)
        (ipv4_to_int_lem a b c d ha hb hc hd ∙ e)
      ∙ in_network k w p q r h l

  begins_8 : (p : ℕ) → Begins 24 8 p (a == p)
  begins_8 p =
      begins 24 8 p a (b * 2 ^ 16 + c * 2 ^ 8 + d) (omega arith) (omega arith) (omega arith)

  begins_16 : (p q : ℕ) → q ≤ 255 → Begins 16 16 (p * 2 ^ 8 + q) ((a == p) && (b == q))
  begins_16 p q h =
      begins 16 16 (p * 2 ^ 8 + q) (a * 2 ^ 8 + b) (c * 2 ^ 8 + d) (omega arith) (omega arith)
        (omega arith)
      ∙ ground arith

  begins_24 :
      (p q r : ℕ)
      → q ≤ 255
      → r ≤ 255
      → Begins 8 24 (p * 2 ^ 16 + q * 2 ^ 8 + r) ((a == p) && ((b == q) && (c == r)))
  begins_24 p q r h l =
      begins 8 24 (p * 2 ^ 16 + q * 2 ^ 8 + r) (a * 2 ^ 16 + b * 2 ^ 8 + c) d (omega arith)
        (omega arith) (omega arith)
      ∙ ground arith

  shared : Begins 22 10 (0x64 * 2 ^ 2 + 1) ((a == 100) && (leb 64 b && leb b 127))
  shared =
      begins 22 10 (0x64 * 2 ^ 2 + 1) (a * 2 ^ 2 + b / 64) (b % 64 * 2 ^ 16 + c * 2 ^ 8 + d)
        (omega arith) (omega arith) (omega arith)
      ∙ ground arith

  private_12 : Begins 20 12 0xac1 ((a == 172) && (leb 16 b && leb b 31))
  private_12 =
      begins 20 12 0xac1 (a * 2 ^ 4 + b / 16) (b % 16 * 2 ^ 16 + c * 2 ^ 8 + d) (omega arith)
        (omega arith) (omega arith)
      ∙ ground arith

  benchmark : Begins 17 15 (198 * 2 ^ 7 + 9) ((a == 198) && (leb 18 b && leb b 19))
  benchmark =
      begins 17 15 (198 * 2 ^ 7 + 9) (a * 2 ^ 7 + b / 2) (b % 2 * 2 ^ 16 + c * 2 ^ 8 + d)
        (omega arith) (omega arith) (omega arith)
      ∙ ground arith

  begins_4 : (p : ℕ) → Begins 28 4 p (a / 16 == p)
  begins_4 p =
      begins 28 4 p (a / 16) (a % 16 * 2 ^ 24 + b * 2 ^ 16 + c * 2 ^ 8 + d) (omega arith)
        (omega arith) (omega arith)

-- The ranges of addresses that are not globally routable, by their octets.
abbrev pub is_special : ℕ → ℕ → ℕ → Bool
is_special a b c =
    (a == 0)
    || ((a == 10)
        || (((a == 100) && (leb 64 b && leb b 127))
            || ((a == 127)
                || (((a == 169) && (b == 254))
                    || (((a == 172) && (leb 16 b && leb b 31))
                        || (((a == 192) && ((b == 0) && (c == 0)))
                            || (((a == 192) && ((b == 0) && (c == 2)))
                                || (((a == 192) && ((b == 88) && (c == 99)))
                                    || (((a == 192) && (b == 168))
                                        || (((a == 198) && (leb 18 b && leb b 19))
                                            || (((a == 198) && ((b == 51) && (c == 100)))
                                                || (((a == 203) && ((b == 0) && (c == 113)))
                                                    || leb 224 a))))))))))))

-- Once the module is loaded, the address of four octets is non-global just when they lie in the ranges
-- 0/8, 10/8, 100.64/10, 127/8, 169.254/16, 172.16/12, 192.0.0/24, 192.0.2/24, 192.88.99/24, 192.168/16,
-- 198.18/15, 198.51.100/24, 203.0.113/24 or from 224 on, and link-local just when they are in 169.254/16.
pub is_non_global_ipv4_lem :
    (is_ip : String → ℕ) (n : Networks) (a b c d : ℕ)
    → load is_ip ≡ some n
    → a ≤ 255
    → b ≤ 255
    → c ≤ 255
    → d ≤ 255
    → (is_non_global_ipv4 n (a ∷ b ∷ c ∷ d ∷ []) ≡ is_special a b c)
      × (is_link_local_ipv4 n (a ∷ b ∷ c ∷ d ∷ []) ≡ ((a == 169) && (b == 254)))
unfolding is_non_global_ipv4 is_link_local_ipv4
is_non_global_ipv4_lem is_ip n a b c d e ha hb hc hd = rw (load-standard is_ip n e) (
  (rw
      (
        m_8 0,
        m_8 10,
        shared a b c d ha hb hc hd,
        m_8 127,
        m_16 169 254 (omega arith),
        private_12 a b c d ha hb hc hd,
        m_24 192 0 0 (omega arith) (omega arith),
        m_24 192 0 2 (omega arith) (omega arith),
        m_24 192 88 99 (omega arith) (omega arith),
        m_16 192 168 (omega arith),
        benchmark a b c d ha hb hc hd,
        m_24 198 51 100 (omega arith) (omega arith),
        m_24 203 0 113 (omega arith) (omega arith),
        m_4 14,
        m_4 15,
        top,
      )
      refl),
  m_16 169 254 (omega arith),
)
  where
    top : ((a / 16 == 14) || ((a / 16 == 15) || false)) ≡ leb 224 a
    top = ground arith

    m_8 : (p : ℕ) → Begins a b c d ha hb hc hd 24 8 p (a == p)
    m_8 = begins_8 a b c d ha hb hc hd

    m_4 : (p : ℕ) → Begins a b c d ha hb hc hd 28 4 p (a / 16 == p)
    m_4 = begins_4 a b c d ha hb hc hd

    m_16 :
        (p q : ℕ)
        → q ≤ 255
        → Begins a b c d ha hb hc hd 16 16 (p * 2 ^ 8 + q) ((a == p) && (b == q))
    m_16 = begins_16 a b c d ha hb hc hd

    m_24 :
        (p q r : ℕ)
        → q ≤ 255
        → r ≤ 255
        → Begins a b c d ha hb hc hd 8 24
            (p * 2 ^ 16 + q * 2 ^ 8 + r)
            ((a == p) && ((b == q) && (c == r)))
    m_24 = begins_24 a b c d ha hb hc hd
