-- ===== src/SsrfGuard/Bits.antt =====
-- The bit operations of core/src/utils/ssrf_guard.ts as arithmetic: fields put together by `|`, and low
-- and high bits taken by `&`.
use Prim.Native.Nat.{
  min, max, digits, bitwise, bit_and, bit_or, bit_and-bitwise, bit_or-bitwise, ◌^◌,
}
use native.Mathlib.Nat.{pow-suc, one-le-pow}
use adk_js.Prelude.{ℕ, zero, suc, ◌+◌, ◌-◌, ◌*◌, ◌/◌, ◌%◌, ◌≤◌, ◌<◌, ◌≡◌, refl, sym, ap, ◌∙◌, arith}

module _ (z : ℕ → ℕ) (f : ℕ → ℕ → ℕ) where
  -- More fuel than the first number changes nothing.
  digits_enough : (bound n a b : ℕ) → n ≤ bound → a ≤ n → digits z f n a b ≡ digits z f a a b
  digits_enough bound zero zero b h k = refl
  digits_enough bound zero (suc a) b h k = absurd (omega arith)
  digits_enough bound (suc n) zero b h k = refl
  digits_enough zero (suc n) (suc a) b h k = absurd (omega arith)
  digits_enough (suc bound) (suc n) (suc a) b h k =
      let more = digits_enough bound n (suc a / 2) (b / 2) (omega arith) (omega arith) in
      let less = digits_enough bound a (suc a / 2) (b / 2) (omega arith) (omega arith) in
      omega (arith, more, less)

  lowest_digit :
      (a b : ℕ)
      → bitwise z f (suc a) b ≡ f (suc a % 2) (b % 2) + 2 * bitwise z f (suc a / 2) (b / 2)
  lowest_digit a b =
      let e = digits_enough a a (suc a / 2) (b / 2) (omega arith) (omega arith) in omega (arith, e)

and_digit : (a b : ℕ) → bit_and a b ≡ min (a % 2) (b % 2) + 2 * bit_and (a / 2) (b / 2)
and_digit zero b = simp bit_and-bitwise (omega arith)
and_digit (suc a) b = simp bit_and-bitwise (lowest_digit (λ b. zero) min a b)

or_digit : (a b : ℕ) → bit_or a b ≡ max (a % 2) (b % 2) + 2 * bit_or (a / 2) (b / 2)
or_digit zero b = simp bit_or-bitwise (omega arith)
or_digit (suc a) b = simp bit_or-bitwise (lowest_digit (λ b. b) max a b)

twice : (q k : ℕ) → q * 2 ^ suc k ≡ 2 * (q * 2 ^ k)
twice q k = omega (arith, ap (λ t. q * t) (pow-suc 2 k))

-- By halves.
halving : (P : ℕ → Type 0) → P 0 → ((n : ℕ) → P (n / 2) → P n) → (n : ℕ) → P n
halving P start step n = go n n (omega arith)
  where
    go : (bound n : ℕ) → n ≤ bound → P n
    go bound zero h = start
    go zero (suc n) h = absurd (omega arith)
    go (suc bound) (suc n) h = step (suc n) (go bound (suc n / 2) (omega arith))

or_zero : (a : ℕ) → bit_or a 0 ≡ a
or_zero = halving (λ a. bit_or a 0 ≡ a) refl (λ n h. omega (arith, or_digit n 0, h))

and_zero : (a : ℕ) → bit_and a 0 ≡ 0
and_zero = halving (λ a. bit_and a 0 ≡ 0) refl (λ n h. omega (arith, and_digit n 0, h))

pub or_field : (k q r : ℕ) → r < 2 ^ k → bit_or (q * 2 ^ k) r ≡ q * 2 ^ k + r
or_field zero q r h =
    let none_low : r ≡ 0 = omega arith in rw none_low (omega (arith, or_zero (q * 1)))
or_field (suc k) q r h =
    let two = twice q k in
    let rest = or_field k q (r / 2) (omega (arith, pow-suc 2 k)) in
    ground (arith, or_digit (q * 2 ^ suc k) r, two, rest)

-- `&` goes over fields.
and_fields :
    (k q r p s : ℕ)
    → r < 2 ^ k
    → s < 2 ^ k
    → bit_and (q * 2 ^ k + r) (p * 2 ^ k + s) ≡ bit_and q p * 2 ^ k + bit_and r s
and_fields zero q r p s h l =
    let r_none : r ≡ 0 = omega arith in
    let s_none : s ≡ 0 = omega arith in
    rw (r_none, s_none) (rw (one q, one p) (omega (arith, and_zero 0)))
  where
    one : (n : ℕ) → n * 2 ^ 0 + 0 ≡ n
    one n = omega arith
and_fields (suc k) q r p s h l =
    let left = twice q k in
    let right = twice p k in
    let out = twice (bit_and q p) k in
    let two = pow-suc 2 k in
    let rest = and_fields k q (r / 2) p (s / 2) (omega arith) (omega arith) in
    ground (
      arith,
      and_digit (q * 2 ^ suc k + r) (p * 2 ^ suc k + s),
      and_digit r s,
      rest,
      left,
      right,
      out,
      two,
    )

-- All of the bits.
and_full : (k a : ℕ) → a < 2 ^ k → bit_and a (2 ^ k - 1) ≡ a
and_full zero a h = let none : a ≡ 0 = omega arith in rw none (and_zero 0)
and_full (suc k) a h =
    let two = pow-suc 2 k in
    let some = one-le-pow k 2 in
    let rest = and_full k (a / 2) (omega arith) in
    ground (arith, and_digit a (2 ^ suc k - 1), rest, two, some)

-- The low `k` bits.
pub and_low : (k q r : ℕ) → r < 2 ^ k → bit_and (q * 2 ^ k + r) (2 ^ k - 1) ≡ r
and_low k q r h =
    let some = one-le-pow k 2 in
    let split = and_fields k q r 0 (2 ^ k - 1) h (omega arith) in
    let mask : 0 * 2 ^ k + (2 ^ k - 1) ≡ 2 ^ k - 1 = omega arith in
    sym (ap (λ m. bit_and (q * 2 ^ k + r) m) mask)
    ∙ split
    ∙ rw (and_zero q, and_full k r h) (omega arith)

-- The high bits, above `k`.
pub and_high :
    (k w q r : ℕ)
    → q < 2 ^ w
    → r < 2 ^ k
    → bit_and (q * 2 ^ k + r) ((2 ^ w - 1) * 2 ^ k) ≡ q * 2 ^ k
and_high k w q r h l =
    let split = and_fields k q r (2 ^ w - 1) 0 l (omega (arith, one-le-pow k 2)) in
    let mask : (2 ^ w - 1) * 2 ^ k + 0 ≡ (2 ^ w - 1) * 2 ^ k = omega arith in
    sym (ap (λ m. bit_and (q * 2 ^ k + r) m) mask)
    ∙ split
    ∙ rw (and_full w q h, and_zero r) (omega arith)
