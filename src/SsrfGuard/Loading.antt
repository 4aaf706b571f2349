-- ===== src/SsrfGuard/Loading.antt =====
-- The networks that core/src/utils/ssrf_guard.ts computes when it is loaded, whatever `isIP` says of
-- other texts: if it loads, they are these.
use adk_js.Prelude.{
  ℕ, ◌≡◌, refl, sym, ap, ◌∙◌, String, Option, none, some, List, [], ◌∷◌, ◌==◌, inl, inr, Bool-cases,
}
use adk_js.SsrfGuard.Parse.{◌>>=◌, parse_ipv4, parse_ipv6, ipv4_to_int}
use adk_js.SsrfGuard.{
  Networks, load, parse_ipv4_cidr, parse_ipv6_cidr, ipv6_cidr_of, cidr_parts, all_of, Ipv4Cidr,
  Ipv6Cidr, non_global_ipv4_texts, non_global_ipv6_texts,
}

-- Where the first gives a value, so does the second.
abbrev Refines {ℓ} : {A : Type ℓ} → Option A → Option A → Type ℓ
Refines {A = A} o p = (a : A) → o ≡ some a → p ≡ some a

bind-Refines {ℓ κ} :
    {A : Type ℓ} {B : Type κ} (o p : Option A) (f g : A → Option B)
    → Refines o p
    → ((a : A) → Refines (f a) (g a))
    → Refines (o >>= f) (p >>= g)
bind-Refines none p f g h k b e = absurd (none_some e)
  where
    none_some : none ≡ some b → ⊥
    none_some x = cc
bind-Refines (some a) p f g h k b e = rw (h a refl) (k a b e)

parse_ipv6_cidr-Refines :
    (is_ip : String → ℕ) (s : String)
    → Refines (parse_ipv6_cidr is_ip s) (parse_ipv6_cidr (λ _. 6) s)
unfolding parse_ipv6_cidr parse_ipv6
parse_ipv6_cidr-Refines is_ip s =
    bind-Refines (cidr_parts s) (cidr_parts s) _ _ (λ a e. e) (λ p. known p.0 p.1)
  where
    known :
        (address : String) (prefix : ℕ)
        → Refines
            (ipv6_cidr_of (parse_ipv6 is_ip address) prefix)
            (ipv6_cidr_of (parse_ipv6 (λ _. 6) address) prefix)
    known address prefix a e = elim (Bool-cases (is_ip address == 6)) [
      | inl k ↦ rw k at e
      | inr k ↦ absurd (none_some (rw k at e))
    ]
      where
        none_some : none ≡ some a → ⊥
        none_some x = cc

all_of-Refines {ℓ κ} :
    {A : Type ℓ} {B : Type κ} (f g : A → Option B) (xs : List A)
    → ((a : A) → Refines (f a) (g a))
    → Refines (all_of f xs) (all_of g xs)
all_of-Refines f g [] h = λ a e. e
all_of-Refines f g (x ∷ xs) h =
    bind-Refines (f x) (g x) _ _ (h x)
      (λ y. bind-Refines (all_of f xs) (all_of g xs) _ _ (all_of-Refines f g xs h) (λ ys a e. e))

load-Refines : (is_ip : String → ℕ) → Refines (load is_ip) (load (λ _. 6))
unfolding load
load-Refines is_ip =
    let six = parse_ipv6_cidr-Refines is_ip in
    bind-Refines (all_of parse_ipv4_cidr non_global_ipv4_texts)
      (all_of parse_ipv4_cidr non_global_ipv4_texts) _ _ (λ a e. e)
      (λ x.
        bind-Refines (all_of (parse_ipv6_cidr is_ip) non_global_ipv6_texts)
          (all_of (parse_ipv6_cidr (λ _. 6)) non_global_ipv6_texts) _ _
          (all_of-Refines _ _ non_global_ipv6_texts six)
          (λ y.
            bind-Refines (parse_ipv4_cidr "169.254.0.0/16") (parse_ipv4_cidr "169.254.0.0/16") _ _
              (λ a e. e)
              (λ z.
                bind-Refines (parse_ipv6_cidr is_ip "fe80::/10")
                  (parse_ipv6_cidr (λ _. 6) "fe80::/10") _ _ (six "fe80::/10")
                  (λ v.
                    bind-Refines (parse_ipv6_cidr is_ip "::ffff:0:0/96")
                      (parse_ipv6_cidr (λ _. 6) "::ffff:0:0/96") _ _ (six "::ffff:0:0/96")
                      (λ w.
                        bind-Refines (parse_ipv6_cidr is_ip "64:ff9b::/96")
                          (parse_ipv6_cidr (λ _. 6) "64:ff9b::/96") _ _ (six "64:ff9b::/96")
                          (λ t.
                            bind-Refines (parse_ipv6_cidr is_ip "2002::/16")
                              (parse_ipv6_cidr (λ _. 6) "2002::/16") _ _ (six "2002::/16")
                              (λ u.
                                bind-Refines (parse_ipv6_cidr is_ip "::/96")
                                  (parse_ipv6_cidr (λ _. 6) "::/96") _ _ (six "::/96")
                                  (λ r a e. e))))))))

abbrev v4 : ℕ → ℕ → Ipv4Cidr
v4 base mask = record { base = base; mask = mask }

abbrev v6 : ℕ → ℕ → Ipv6Cidr
v6 base prefix = record { base = base; prefix = prefix }

abbrev pub standard : Networks
standard = record {
  non_global_ipv4 =
      v4 0 0xff000000
      ∷ v4 0x0a000000 0xff000000
      ∷ v4 0x64400000 0xffc00000
      ∷ v4 0x7f000000 0xff000000
      ∷ v4 0xa9fe0000 0xffff0000
      ∷ v4 0xac100000 0xfff00000
      ∷ v4 0xc0000000 0xffffff00
      ∷ v4 0xc0000200 0xffffff00
      ∷ v4 0xc0586300 0xffffff00
      ∷ v4 0xc0a80000 0xffff0000
      ∷ v4 0xc6120000 0xfffe0000
      ∷ v4 0xc6336400 0xffffff00
      ∷ v4 0xcb007100 0xffffff00
      ∷ v4 0xe0000000 0xf0000000
      ∷ v4 0xf0000000 0xf0000000
      ∷ [];
  non_global_ipv6 =
      v6 0 128
      ∷ v6 1 128
      ∷ v6 0x0064ff9b000100000000000000000000 48
      ∷ v6 0x01000000000000000000000000000000 64
      ∷ v6 0x20010db8000000000000000000000000 32
      ∷ v6 0xfc000000000000000000000000000000 7
      ∷ v6 0xfe800000000000000000000000000000 10
      ∷ v6 0xff000000000000000000000000000000 8
      ∷ [];
  link_local_ipv4 = v4 0xa9fe0000 0xffff0000;
  link_local_ipv6 = v6 0xfe800000000000000000000000000000 10;
  ipv4_mapped = v6 0x00000000000000000000ffff00000000 96;
  nat64 = v6 0x0064ff9b000000000000000000000000 96;
  six_to_four = v6 0x20020000000000000000000000000000 16;
  ipv4_compatible = v6 0 96;
}

loads : load (λ _. 6) ≡ some standard
unfolding load parse_ipv4 parse_ipv6 ipv4_to_int
loads = refl

-- The networks that the module has, if it loads.
pub load-standard : (is_ip : String → ℕ) (n : Networks) → load is_ip ≡ some n → n ≡ standard
load-standard is_ip n h = ap (from_some n) (sym (load-Refines is_ip n h) ∙ loads)
  where
    from_some : Networks → Option Networks → Networks
    from_some d none = d
    from_some d (some x) = x
