-- ===== src/SsrfGuard/Parse.antt =====
-- core/src/utils/ssrf_guard.ts: addresses and networks as texts, and as numbers. An error is `none`.
use Prim.Native.Char.{Char, code}
use Prim.Native.String.{[], ◌∷◌}
use Prim.Native.Nat.{◌^◌, bit_or}
use adk_js.Prelude.{
  ℕ, suc, ◌+◌, ◌-◌, ◌*◌, ◌%◌, String, Bool, ◌&&◌, Option, none, some, List, [], ◌∷◌, ◌++◌, length,
  leb, ltb, ◌==◌, replicate, if◌then◌else◌, str_eq,
}
use adk_js.Prelude.Text.{split_on, has_char}

infixl 5 ◌>>=◌
abbrev pub ◌>>=◌ {ℓ κ} : {A : Type ℓ} {B : Type κ} → Option A → (A → Option B) → Option B
none >>= rest = none
some a >>= rest = rest a

-- The bits of `x << k` on 32-bit integers. What is read of them goes through `>>> 0`, or is small.
abbrev pub shift_left : ℕ → ℕ → ℕ
shift_left x k = x * 2 ^ (k % 32) % 2 ^ 32

abbrev is_digit : Char → Bool
is_digit c = leb 48 (code c) && leb (code c) 57

-- The number that a text of digits spells, after those that spell the first argument.
abbrev pub decimal : ℕ → String → Option ℕ
decimal n [] = some n
decimal n (c ∷ s) = if is_digit c then decimal (n * 10 + (code c - 48)) s else none

abbrev pub text_length : String → ℕ
text_length [] = 0
text_length (c ∷ s) = suc (text_length s)

-- `\d{1,3}`, as a number; at most 255.
abbrev pub octet : String → Option ℕ
octet s =
    if leb 1 (text_length s) && leb (text_length s) 3
    then (decimal 0 s >>= λ n. if ltb 255 n then none else some n)
    else none

abbrev pub four_octets : List String → Option (List ℕ)
four_octets (a ∷ b ∷ c ∷ d ∷ []) = do
  a ← octet a
  b ← octet b
  c ← octet c
  d ← octet d
  some (a ∷ b ∷ c ∷ d ∷ [])
four_octets groups = none

-- `none` is `null`.
unfoldable pub parse_ipv4 : String → Option (List ℕ)
parse_ipv4 address = four_octets (split_on 46 address)

-- `parseInt(group, 16)` on the digits that start a group; without any it is NaN, which throws where it
-- becomes a BigInt.
abbrev pub hex_digit : ℕ → Option ℕ
hex_digit n =
    if leb 48 n && leb n 57
    then some (n - 48)
    else if leb 97 n && leb n 102
    then some (n - 87)
    else if leb 65 n && leb n 70
    then some (n - 55)
    else none

abbrev pub hex_digits : ℕ → String → ℕ
hex_digits n [] = n
hex_digits n (c ∷ s) = elim (hex_digit (code c)) [ none ↦ n | some d ↦ hex_digits (n * 16 + d) s ]

abbrev pub parse_hex : String → Option ℕ
parse_hex [] = none
parse_hex (c ∷ s) = elim (hex_digit (code c)) [ none ↦ none | some d ↦ some (hex_digits d s) ]

-- The two hextets of an embedded IPv4 group.
abbrev pub two_hextets : List ℕ → List ℕ
two_hextets (a ∷ b ∷ c ∷ d ∷ []) = bit_or (shift_left a 8) b ∷ bit_or (shift_left c 8) d ∷ []
two_hextets octets = []

abbrev pub group_hextets : String → Option (List ℕ)
group_hextets group =
    if has_char 46 group
    then (parse_ipv4 group >>= λ octets. some (two_hextets octets))
    else (parse_hex group >>= λ n. some (n ∷ []))

abbrev pub hextets_of : List String → Option (List ℕ)
hextets_of [] = some []
hextets_of (g ∷ gs) = do here ← group_hextets g; rest ← hextets_of gs; some (here ++ rest)

pub expand_hextets : String → Option (List ℕ)
unfolding parse_ipv4
expand_hextets fragment = hextets_of (split_on 58 fragment)

-- The text before the first `::`.
abbrev pub before_gap : String → String
before_gap [] = ""
before_gap (c ∷ []) = c ∷ []
before_gap (c ∷ d ∷ s) =
    let rest = before_gap (d ∷ s) in if (code c == 58) && (code d == 58) then "" else c ∷ rest

-- The text behind the first `::`, if there is one.
abbrev pub behind_gap : String → Option String
behind_gap [] = none
behind_gap (c ∷ []) = none
behind_gap (c ∷ d ∷ s) =
    let rest = behind_gap (d ∷ s) in if (code c == 58) && (code d == 58) then some s else rest

abbrev pub expand_if_any : String → Option (List ℕ)
expand_if_any s = if str_eq s "" then some [] else expand_hextets s

-- `new Array(n)` throws if `n` is negative.
abbrev pub compress : List ℕ → List ℕ → Option (List ℕ)
compress high low =
    if ltb 8 (length high + length low)
    then none
    else some (high ++ replicate (8 - (length high + length low)) 0 ++ low)

-- The eight hextets of a text that is an IPv6 address.
pub expand_ipv6 : String → Option (List ℕ)
unfolding expand_hextets
expand_ipv6 address = do
  high ← expand_if_any (before_gap address)
  elim (behind_gap address) as (λ _. Option (List ℕ)) [
    | none ↦ some high
    | some behind ↦ (expand_if_any (before_gap behind) >>= λ low. compress high low)
  ]

-- What reading an address as IPv6 comes to.
pub data Ipv6 : Type 0 where
  null : Ipv6
  throws : Ipv6
  hextets : List ℕ → Ipv6

abbrev pub ipv6_of : Option (List ℕ) → Ipv6
ipv6_of none = throws
ipv6_of (some h) = hextets h

-- `isIP` of node:net is a parameter.
unfoldable pub parse_ipv6 : (String → ℕ) → String → Ipv6
unfolding expand_ipv6
parse_ipv6 is_ip address = if is_ip address == 6 then ipv6_of (expand_ipv6 address) else null

unfoldable pub ipv4_to_int : List ℕ → ℕ
ipv4_to_int (a ∷ b ∷ c ∷ d ∷ []) =
    bit_or (bit_or (bit_or (shift_left a 24) (shift_left b 16)) (shift_left c 8)) d
ipv4_to_int octets = 0

-- The loop of `hextetsToBigInt`, from a value on.
abbrev pub pack : ℕ → List ℕ → ℕ
pack value [] = value
pack value (h ∷ hs) = pack (bit_or (value * 2 ^ 16) h) hs

abbrev pub hextets_to_big_int : List ℕ → ℕ
hextets_to_big_int hs = pack 0 hs
