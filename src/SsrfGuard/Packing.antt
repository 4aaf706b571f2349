-- ===== src/SsrfGuard/Packing.antt =====
-- Addresses as numbers in core/src/utils/ssrf_guard.ts, written out.
use Prim.Native.Nat.{◌^◌, bit_or}
use adk_js.Prelude.{ℕ, ◌+◌, ◌*◌, ◌/◌, ◌≤◌, ◌<◌, ◌≡◌, refl, ap, ◌∙◌, arith, List, [], ◌∷◌, All}
use adk_js.SsrfGuard.Bits.{or_field, and_low}
use adk_js.SsrfGuard.Parse.{ipv4_to_int, shift_left, pack}
use adk_js.SsrfGuard.{hextets_to_octets}

-- Four octets.
pub ipv4_to_int_lem :
    (a b c d : ℕ)
    → a ≤ 255
    → b ≤ 255
    → c ≤ 255
    → d ≤ 255
    → ipv4_to_int (a ∷ b ∷ c ∷ d ∷ []) ≡ a * 2 ^ 24 + b * 2 ^ 16 + c * 2 ^ 8 + d
unfolding ipv4_to_int
ipv4_to_int_lem a b c d ha hb hc hd =
    let sa : shift_left a 24 ≡ a * 2 ^ 24 = omega arith in
    let sb : shift_left b 16 ≡ b * 2 ^ 16 = omega arith in
    let sc : shift_left c 8 ≡ c * 2 ^ 8 = omega arith in
    let ab = or_field 24 a (b * 2 ^ 16) (omega arith) in
    let abc : bit_or (a * 2 ^ 24 + b * 2 ^ 16) (c * 2 ^ 8) ≡ a * 2 ^ 24 + b * 2 ^ 16 + c * 2 ^ 8 =
      ap (λ x. bit_or x (c * 2 ^ 8)) (fields a b)
      ∙ or_field 16 (a * 2 ^ 8 + b) (c * 2 ^ 8) (omega arith)
      ∙ omega arith in
    ap (λ x. bit_or x d) (rw (sa, sb, sc) (ap (λ x. bit_or x (c * 2 ^ 8)) ab ∙ abc) ∙ low a b c)
    ∙ or_field 8 (a * 2 ^ 16 + b * 2 ^ 8 + c) d (omega arith)
    ∙ omega arith
  where
    fields : (a b : ℕ) → a * 2 ^ 24 + b * 2 ^ 16 ≡ (a * 2 ^ 8 + b) * 2 ^ 16
    fields a b = omega arith

    low : (a b c : ℕ) → a * 2 ^ 24 + b * 2 ^ 16 + c * 2 ^ 8 ≡ (a * 2 ^ 16 + b * 2 ^ 8 + c) * 2 ^ 8
    low a b c = omega arith

abbrev pub IsHextet : ℕ → Type 0
IsHextet h = h < 2 ^ 16

-- The number that hextets make behind a value.
abbrev pub number : ℕ → List ℕ → ℕ
number v [] = v
number v (h ∷ hs) = number (v * 2 ^ 16 + h) hs

pub pack_lem : (hs : List ℕ) (v : ℕ) → All IsHextet hs → pack v hs ≡ number v hs
pack_lem [] v a = refl
pack_lem (h ∷ hs) v (b, a) =
    ap (λ x. pack x hs) (or_field 16 v h b) ∙ pack_lem hs (v * 2 ^ 16 + h) a

-- The first hextet of eight is what a shift by 112 leaves.
pub first_of_eight :
    (h_0 h_1 h_2 h_3 h_4 h_5 h_6 h_7 : ℕ)
    → All IsHextet (h_0 ∷ h_1 ∷ h_2 ∷ h_3 ∷ h_4 ∷ h_5 ∷ h_6 ∷ h_7 ∷ [])
    → number 0 (h_0 ∷ h_1 ∷ h_2 ∷ h_3 ∷ h_4 ∷ h_5 ∷ h_6 ∷ h_7 ∷ []) / 2 ^ 112 ≡ h_0
first_of_eight h_0 h_1 h_2 h_3 h_4 h_5 h_6 h_7
      (b_0, (b_1, (b_2, (b_3, (b_4, (b_5, (b_6, (b_7, _)))))))) =
    omega arith

-- A shift by 32 leaves the first six.
pub six_of_eight :
    (v h_6 h_7 : ℕ) → IsHextet h_6 → IsHextet h_7 → number v (h_6 ∷ h_7 ∷ []) / 2 ^ 32 ≡ v
six_of_eight v h_6 h_7 b_6 b_7 = omega arith

pub hextets_to_octets_lem :
    (a b c d : ℕ)
    → a ≤ 255
    → b ≤ 255
    → c ≤ 255
    → d ≤ 255
    → hextets_to_octets (a * 2 ^ 8 + b) (c * 2 ^ 8 + d) ≡ a ∷ b ∷ c ∷ d ∷ []
hextets_to_octets_lem a b c d ha hb hc hd =
    rw (and_low 8 a b (omega arith), and_low 8 c d (omega arith))
      (rw (high a b hb, high c d hd) refl)
  where
    high : (a b : ℕ) → b ≤ 255 → (a * 2 ^ 8 + b) / 2 ^ 8 ≡ a
    high a b h = omega arith
