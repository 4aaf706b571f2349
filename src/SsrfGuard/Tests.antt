-- ===== src/SsrfGuard/Tests.antt =====
-- Addresses that are read, and networks that are loaded.
use adk_js.Prelude.{ℕ, ◌≡◌, refl, String, true, false, some, [], ◌∷◌, if◌then◌else◌, arith}
use adk_js.Prelude.Names.{insert_all}
use adk_js.Prelude.Text.{has_char}
use adk_js.SsrfGuard.Parse.{parse_ipv4, parse_ipv6, ipv4_to_int, hextets}
use adk_js.SsrfGuard.{
  load, is_non_global_address, is_link_local_address, resolve_host_addresses, matches_ipv4_cidr,
  normalize_host,
}
use adk_js.SsrfGuard.Loading.{standard}
use adk_js.SsrfGuard.Embedded.{Same, embedded_addresses-Same}
use adk_js.SsrfGuard.Addresses.{AreOctets, are_special, are_link_local, is_non_global_address_lem}

-- For the texts that are used here, `isIP`.
abbrev is_ip : String → ℕ
is_ip s = if has_char 58 s then 6 else if has_char 46 s then 4 else 0

reads_ipv6 :
    parse_ipv6 is_ip "64:ff9b::169.254.169.254"
    ≡ hextets (0x64 ∷ 0xff9b ∷ 0 ∷ 0 ∷ 0 ∷ 0 ∷ 0xa9fe ∷ 0xa9fe ∷ [])
unfolding parse_ipv6 parse_ipv4
reads_ipv6 = refl

loaded : load is_ip ≡ some standard
unfolding load parse_ipv4 parse_ipv6 ipv4_to_int
loaded = refl

metadata_is_link_local : is_link_local_address is_ip standard "::ffff:169.254.169.254" ≡ some true
unfolding is_link_local_address parse_ipv4 parse_ipv6 ipv4_to_int matches_ipv4_cidr
metadata_is_link_local = refl

public_is_global : is_non_global_address is_ip standard "8.8.8.8" ≡ some false
unfolding is_non_global_address parse_ipv4 ipv4_to_int
public_is_global = refl

neither_is_blocked : is_non_global_address (λ _. 0) standard "256.1.1.1" ≡ some true
unfolding is_non_global_address parse_ipv4 parse_ipv6
neither_is_blocked = refl

each_address_once :
    resolve_host_addresses is_ip (λ _. some ("8.8.8.8" ∷ "8.8.8.8" ∷ [])) "host"
    ≡ some ("8.8.8.8" ∷ [])
unfolding resolve_host_addresses insert_all
each_address_once = refl

embedded_addresses-Same_example :
    Same standard (0 ∷ 0 ∷ 0 ∷ 0 ∷ 0 ∷ 0xffff ∷ 0x7f00 ∷ 1 ∷ []) (127 ∷ 0 ∷ 0 ∷ 1 ∷ [])
    × Same standard (0x64 ∷ 0xff9b ∷ 0 ∷ 0 ∷ 0 ∷ 0 ∷ 0x7f00 ∷ 1 ∷ []) (127 ∷ 0 ∷ 0 ∷ 1 ∷ [])
    × Same standard (0x2002 ∷ 0x7f00 ∷ 1 ∷ 1 ∷ 2 ∷ 3 ∷ 4 ∷ 5 ∷ []) (127 ∷ 0 ∷ 0 ∷ 1 ∷ [])
    × Same standard (0 ∷ 0 ∷ 0 ∷ 0 ∷ 0 ∷ 0 ∷ 0x7f00 ∷ 1 ∷ []) (127 ∷ 0 ∷ 0 ∷ 1 ∷ [])
embedded_addresses-Same_example =
    embedded_addresses-Same is_ip standard 127 0 0 1 1 2 3 4 5 loaded (omega arith) (omega arith)
      (omega arith) (omega arith)
      (omega arith, (omega arith, (omega arith, (omega arith, (omega arith, tt)))))

brackets_go : normalize_host "[::1]" ≡ "::1"
unfolding normalize_host
brackets_go = refl

shared_address : parse_ipv4 "100.64.0.1" ≡ some (100 ∷ 64 ∷ 0 ∷ 1 ∷ [])
unfolding parse_ipv4
shared_address = refl

is_non_global_address_lem_example :
    AreOctets (100 ∷ 64 ∷ 0 ∷ 1 ∷ [])
    × (is_non_global_address is_ip standard "100.64.0.1"
        ≡ some (are_special (100 ∷ 64 ∷ 0 ∷ 1 ∷ [])))
    × (is_link_local_address is_ip standard "100.64.0.1"
        ≡ some (are_link_local (100 ∷ 64 ∷ 0 ∷ 1 ∷ [])))
is_non_global_address_lem_example =
    is_non_global_address_lem is_ip standard loaded "100.64.0.1" (100 ∷ 64 ∷ 0 ∷ 1 ∷ [])
      shared_address
