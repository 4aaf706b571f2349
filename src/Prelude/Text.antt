-- ===== src/Prelude/Text.antt =====
-- Prefixes of texts, and texts taken apart.
use Prim.Native.Char.{Char, code}
use Prim.Native.String.{String, [], ◌∷◌}
use Prim.Native.String.{◌++◌ as str_append}
use Prim.Native.Nat.{ℕ}
use mathlib.Core.List.{List, [], ◌∷◌}
use mathlib.Core.Path.{◌≡◌, ap}
use mathlib.Core.Bool.{Bool, true, false}
use mathlib.Core.Logic.{inl, inr}
use mathlib.Core.Option.{Option, none, some}
use native.Mathlib.Omega.{arith}
use text.Mathlib.TextEquality.{codes_equal}
use text.Mathlib.TextLemmas.{nil-append, cons-append}
use adk_js.Prelude.Tests.{◌==◌, if◌then◌else◌, Bool-cases}

-- What is left of a text behind a prefix, if it starts with it: `s.startsWith(p)`, and then
-- `s.replace(p, '')`, which takes out the first occurrence.
abbrev pub strip_prefix : String → String → Option String
strip_prefix [] s = some s
strip_prefix (c ∷ p) [] = none
strip_prefix (c ∷ p) (d ∷ s) = if code c == code d then strip_prefix p s else none

abbrev pub starts_with : String → String → Bool
starts_with p s = elim (strip_prefix p s) [ none ↦ false | some r ↦ true ]

abbrev push_char : Char → List String → List String
push_char c [] = (c ∷ []) ∷ []
push_char c (s ∷ l) = (c ∷ s) ∷ l

-- `s.split(separator)`, with a separator of one character, given by its code.
abbrev pub split_on : ℕ → String → List String
split_on separator [] = "" ∷ []
split_on separator (c ∷ s) =
    let rest = split_on separator s in if code c == separator then "" ∷ rest else push_char c rest

-- `s.includes(character)`
abbrev pub has_char : ℕ → String → Bool
has_char n [] = false
has_char n (c ∷ s) = if code c == n then true else has_char n s

pub strip_prefix-append : (p s : String) → strip_prefix p (str_append p s) ≡ some s
strip_prefix-append [] s = ap some (nil-append s)
strip_prefix-append (c ∷ p) s = rw cons-append (ground (arith, strip_prefix-append p s))

same_char : (c d : Char) → (code c == code d) ≡ true → c ≡ d
same_char c d h = codes_equal c d (ground arith)

pub append-strip_prefix : (p s r : String) → strip_prefix p s ≡ some r → s ≡ str_append p r
append-strip_prefix [] s r h = rw nil-append (ground (arith, h))
append-strip_prefix (c ∷ p) [] r h = cc
append-strip_prefix (c ∷ p) (d ∷ s) r h = elim (Bool-cases (code c == code d)) [
  | inl e ↦
      rw (cons-append, same_char c d e) (ap (λ t. d ∷ t) (append-strip_prefix p s r (rw e at h)))
  | inr e ↦ cc (rw e at h)
]
