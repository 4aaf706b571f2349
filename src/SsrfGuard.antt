-- ===== src/SsrfGuard.antt =====
-- core/src/utils/ssrf_guard.ts: the networks that a fetch must not reach, and the tests of an address.
-- The module computes its networks when it is loaded; `load` is that, and the tests read what it made.
-- `isIP` of node:net and the lookup of node:dns are parameters; `isLocalhostHostname` is left out.
pub mod Parse
pub mod Bits
pub mod Packing
pub mod Loading
pub mod Ranges
pub mod Addresses
pub mod Embedded
mod Tests
use Prim.Native.Char.{code}
use Prim.Native.String.{[], ◌∷◌}
use Prim.Native.Nat.{◌^◌, bit_and}
use adk_js.Prelude.{
  ℕ, ◌-◌, ◌*◌, ◌/◌, ◌%◌, String, Bool, true, false, not, ◌&&◌, ◌||◌, Option, none, some, List, [],
  ◌∷◌, ltb, ◌==◌, str_eq, get_elem?, if◌then◌else◌,
}
use adk_js.Prelude.Names.{contains, insert_all}
use adk_js.Prelude.Text.{split_on}
use adk_js.SsrfGuard.Parse.{
  ◌>>=◌, shift_left, decimal, parse_ipv4, parse_ipv6, Ipv6, null, throws, hextets, ipv4_to_int,
  hextets_to_big_int,
}

pub record Ipv4Cidr : Type 0 where
  pub base : ℕ
  pub mask : ℕ

pub record Ipv6Cidr : Type 0 where
  pub base : ℕ
  pub prefix : ℕ

-- The address and the prefix length of a network.
abbrev pub cidr_parts : String → Option (String × ℕ)
cidr_parts cidr = elim (split_on 47 cidr) [
  | address ∷ prefix ∷ rest ↦ (decimal 0 prefix >>= λ n. some (address, n))
  | _ ↦ none
]

-- The mask of a prefix length.
abbrev pub mask_of : ℕ → ℕ
mask_of prefix = shift_left 0xffffffff (32 - prefix)

pub parse_ipv4_cidr : String → Option Ipv4Cidr
parse_ipv4_cidr cidr = do
  (address, prefix) ← cidr_parts cidr
  octets ← parse_ipv4 address
  some (record { base = bit_and (ipv4_to_int octets) (mask_of prefix); mask = mask_of prefix })

abbrev pub ipv6_cidr_of : Ipv6 → ℕ → Option Ipv6Cidr
ipv6_cidr_of null prefix = none
ipv6_cidr_of throws prefix = none
ipv6_cidr_of (hextets h) prefix = some (record { base = hextets_to_big_int h; prefix = prefix })

pub parse_ipv6_cidr : (String → ℕ) → String → Option Ipv6Cidr
parse_ipv6_cidr is_ip cidr = do
  (address, prefix) ← cidr_parts cidr
  ipv6_cidr_of (parse_ipv6 is_ip address) prefix

abbrev pub all_of {ℓ κ} : {A : Type ℓ} {B : Type κ} → (A → Option B) → List A → Option (List B)
all_of f [] = some []
all_of f (x ∷ xs) = do y ← f x; ys ← all_of f xs; some (y ∷ ys)

abbrev pub non_global_ipv4_texts : List String
non_global_ipv4_texts =
    "0.0.0.0/8" ∷ "10.0.0.0/8" ∷ "100.64.0.0/10" ∷ "127.0.0.0/8" ∷ "169.254.0.0/16"
    ∷ "172.16.0.0/12" ∷ "192.0.0.0/24" ∷ "192.0.2.0/24" ∷ "192.88.99.0/24" ∷ "192.168.0.0/16"
    ∷ "198.18.0.0/15" ∷ "198.51.100.0/24" ∷ "203.0.113.0/24" ∷ "224.0.0.0/4" ∷ "240.0.0.0/4" ∷ []

abbrev pub non_global_ipv6_texts : List String
non_global_ipv6_texts =
    "::/128" ∷ "::1/128" ∷ "64:ff9b:1::/48" ∷ "100::/64" ∷ "2001:db8::/32" ∷ "fc00::/7"
    ∷ "fe80::/10" ∷ "ff00::/8" ∷ []

-- The constants of the module.
pub record Networks : Type 0 where
  pub non_global_ipv4 : List Ipv4Cidr
  pub non_global_ipv6 : List Ipv6Cidr
  pub link_local_ipv4 : Ipv4Cidr
  pub link_local_ipv6 : Ipv6Cidr
  pub ipv4_mapped : Ipv6Cidr
  pub nat64 : Ipv6Cidr
  pub six_to_four : Ipv6Cidr
  pub ipv4_compatible : Ipv6Cidr

pub load : (String → ℕ) → Option Networks
unfolding parse_ipv4_cidr parse_ipv6_cidr
load is_ip = do
  non_global_ipv4 ← all_of parse_ipv4_cidr non_global_ipv4_texts
  non_global_ipv6 ← all_of (parse_ipv6_cidr is_ip) non_global_ipv6_texts
  link_local_ipv4 ← parse_ipv4_cidr "169.254.0.0/16"
  link_local_ipv6 ← parse_ipv6_cidr is_ip "fe80::/10"
  ipv4_mapped ← parse_ipv6_cidr is_ip "::ffff:0:0/96"
  nat64 ← parse_ipv6_cidr is_ip "64:ff9b::/96"
  six_to_four ← parse_ipv6_cidr is_ip "2002::/16"
  ipv4_compatible ← parse_ipv6_cidr is_ip "::/96"
  some (record {
    non_global_ipv4 = non_global_ipv4;
    non_global_ipv6 = non_global_ipv6;
    link_local_ipv4 = link_local_ipv4;
    link_local_ipv6 = link_local_ipv6;
    ipv4_mapped = ipv4_mapped;
    nat64 = nat64;
    six_to_four = six_to_four;
    ipv4_compatible = ipv4_compatible;
  })

pub matches_ipv4_cidr : List ℕ → Ipv4Cidr → Bool
matches_ipv4_cidr octets cidr = bit_and (ipv4_to_int octets) cidr.mask == cidr.base

pub matches_ipv6_cidr : List ℕ → Ipv6Cidr → Bool
matches_ipv6_cidr hs cidr =
    hextets_to_big_int hs / 2 ^ (128 - cidr.prefix) == cidr.base / 2 ^ (128 - cidr.prefix)

abbrev pub hextets_to_octets : ℕ → ℕ → List ℕ
hextets_to_octets high low = high / 2 ^ 8 ∷ bit_and high 0xff ∷ low / 2 ^ 8 ∷ bit_and low 0xff ∷ []

abbrev pub at : List ℕ → ℕ → ℕ
at hs i = elim (get_elem? hs i) [ none ↦ 0 | some h ↦ h ]

pub embedded_ipv4 : Networks → List ℕ → Option (List ℕ)
unfolding matches_ipv6_cidr
embedded_ipv4 n hs =
    if matches_ipv6_cidr hs n.six_to_four
    then some (hextets_to_octets (at hs 1) (at hs 2))
    else if matches_ipv6_cidr hs n.ipv4_mapped || matches_ipv6_cidr hs n.nat64
    then some (hextets_to_octets (at hs 6) (at hs 7))
    else if matches_ipv6_cidr hs n.ipv4_compatible && (not (at hs 6 == 0) || ltb 1 (at hs 7))
    then some (hextets_to_octets (at hs 6) (at hs 7))
    else none

abbrev pub any_ipv4 : List Ipv4Cidr → List ℕ → Bool
any_ipv4 [] octets = false
any_ipv4 (c ∷ cs) octets = matches_ipv4_cidr octets c || any_ipv4 cs octets

abbrev pub any_ipv6 : List Ipv6Cidr → List ℕ → Bool
any_ipv6 [] hs = false
any_ipv6 (c ∷ cs) hs = matches_ipv6_cidr hs c || any_ipv6 cs hs

pub is_non_global_ipv4 : Networks → List ℕ → Bool
unfolding matches_ipv4_cidr
is_non_global_ipv4 n octets = any_ipv4 n.non_global_ipv4 octets

pub is_non_global_ipv6 : Networks → List ℕ → Bool
unfolding embedded_ipv4 is_non_global_ipv4
is_non_global_ipv6 n hs = elim (embedded_ipv4 n hs) [
  | some octets ↦ is_non_global_ipv4 n octets
  | none ↦ any_ipv6 n.non_global_ipv6 hs
]

pub is_link_local_ipv4 : Networks → List ℕ → Bool
is_link_local_ipv4 n octets = matches_ipv4_cidr octets n.link_local_ipv4

pub is_link_local_ipv6 : Networks → List ℕ → Bool
unfolding embedded_ipv4 is_link_local_ipv4
is_link_local_ipv6 n hs = elim (embedded_ipv4 n hs) [
  | some octets ↦ is_link_local_ipv4 n octets
  | none ↦ matches_ipv6_cidr hs n.link_local_ipv6
]

abbrev pub classify_ipv6 : (List ℕ → Bool) → Ipv6 → Option Bool
classify_ipv6 matches_ipv6 null = some true
classify_ipv6 matches_ipv6 throws = none
classify_ipv6 matches_ipv6 (hextets h) = some (matches_ipv6 h)

-- `none` is an error that is thrown.
abbrev pub classify_address :
    (String → ℕ) → String → (List ℕ → Bool) → (List ℕ → Bool) → Option Bool
classify_address is_ip address matches_ipv4 matches_ipv6 = elim (parse_ipv4 address) [
  | some octets ↦ some (matches_ipv4 octets)
  | none ↦ classify_ipv6 matches_ipv6 (parse_ipv6 is_ip address)
]

pub is_non_global_address : (String → ℕ) → Networks → String → Option Bool
unfolding is_non_global_ipv6
is_non_global_address is_ip n address =
    classify_address is_ip address (is_non_global_ipv4 n) (is_non_global_ipv6 n)

pub is_link_local_address : (String → ℕ) → Networks → String → Option Bool
unfolding is_link_local_ipv6
is_link_local_address is_ip n address =
    classify_address is_ip address (is_link_local_ipv4 n) (is_link_local_ipv6 n)

-- `none` is an error: of the lookup, or for no address.
abbrev pub some_address : List String → Option (List String)
some_address [] = none
some_address (a ∷ others) = some (a ∷ others)

pub resolve_host_addresses :
    (String → ℕ) → (String → Option (List String)) → String → Option (List String)
resolve_host_addresses is_ip lookup hostname =
    if is_ip hostname == 0
    then (lookup hostname >>= λ records. some_address (insert_all [] records))
    else some (hostname ∷ [])

-- `url.protocol` is the argument.
pub is_http_url : String → Bool
is_http_url protocol = contains protocol ("http:" ∷ "https:" ∷ [])

-- `slice(0, -1)`
abbrev without_last : String → String
without_last [] = ""
without_last (c ∷ []) = ""
without_last (c ∷ d ∷ s) = c ∷ without_last (d ∷ s)

-- `[::1]` becomes `::1`.
pub normalize_host : String → String
normalize_host [] = ""
normalize_host (c ∷ s) = if code c == 91 then without_last s else c ∷ s
