-- ===== src/Prelude/Names.antt =====
-- Sets of strings as lists in insertion order, as a JavaScript `Set` iterates them.
use Prim.Native.Nat.{ℕ, suc, ◌<◌, ◌≤◌}
use Prim.Native.String.{String}
use mathlib.Core.Path.{◌≡◌, refl}
use mathlib.Core.Logic.{◌⊎◌}
use mathlib.Core.Bool.{Bool, true, false, ◌||◌}
use mathlib.Core.List.{List, [], ◌∷◌, ◌++◌}
use native.Mathlib.Omega.{arith}
use text.Mathlib.TextEquality.{eq_iff}
use adk_js.Prelude.Lists.{All, length}
use adk_js.Prelude.Tests.{str_eq, if◌then◌else◌}

-- `set.has(n)`
abbrev pub contains : String → List String → Bool
contains n [] = false
contains n (m ∷ l) = if str_eq n m then true else contains n l

-- `set.add(n)`
abbrev pub insert : String → List String → List String
insert n l = if contains n l then l else l ++ n ∷ []

-- `new Set(names)`, after what `l` holds.
unfoldable pub insert_all : List String → List String → List String
insert_all l [] = l
insert_all l (n ∷ ns) = insert_all (insert n l) ns

pub contains_head : (n : String) (l : List String) → contains n (n ∷ l) ≡ true
contains_head n l = ground (arith, eq_iff n n)

pub contains_tail :
    (n m : String) (l : List String) → contains n l ≡ true → contains n (m ∷ l) ≡ true
contains_tail n m l h = ground (arith, eq_iff n m)

pub contains_cases :
    (n m : String) (l : List String) → contains n (m ∷ l) ≡ true → (n ≡ m) ⊎ (contains n l ≡ true)
contains_cases n m l h = ground (arith, eq_iff n m)

pub contains-append :
    (n : String) (l m : List String) → contains n (l ++ m) ≡ (contains n l || contains n m)
contains-append n [] m = refl
contains-append n (k ∷ l) m = ground (arith, contains-append n l m, eq_iff n k)

-- Every name of `l` is in `m`.
abbrev pub IsSubset : List String → List String → Type 0
IsSubset l m = (n : String) → contains n l ≡ true → contains n m ≡ true

-- How many of the names, counted by occurrence, are outside of `l`.
pub outside : List String → List String → ℕ
outside l [] = 0
outside l (n ∷ ns) = let rest = outside l ns in if contains n l then rest else suc rest

pub outside_le : (m : String) (l ns : List String) → outside (m ∷ l) ns ≤ outside l ns
unfolding outside
outside_le m l [] = omega arith
outside_le m l (n ∷ ns) = ground (arith, outside_le m l ns, eq_iff n m)

-- A new name of `ns` in `l` leaves fewer outside.
pub outside_lt :
    (m : String) (l ns : List String)
    → contains m ns ≡ true
    → contains m l ≡ false
    → outside (m ∷ l) ns < outside l ns
unfolding outside
outside_lt m l [] h k = cc
outside_lt m l (n ∷ ns) h k =
    ground (arith, outside_lt m l ns, outside_le m l ns, eq_iff n m, eq_iff m n)

pub outside-le-length : (l ns : List String) → outside l ns ≤ length ns
unfolding outside
outside-le-length l [] = omega arith
outside-le-length l (n ∷ ns) = ground (arith, outside-le-length l ns)

pub All-of_contains {ℓ} :
    (ns : List String) (P : String → Type ℓ)
    → ((n : String) → contains n ns ≡ true → P n)
    → All P ns
All-of_contains [] P h = tt
All-of_contains (n ∷ ns) P h =
    (h n (contains_head n ns), All-of_contains ns P (λ m k. h m (contains_tail m n ns k)))

pub contains-insert_all :
    (n : String) (l ns : List String)
    → contains n (insert_all l ns) ≡ (contains n l || contains n ns)
unfolding insert_all
contains-insert_all n l [] = ground arith
contains-insert_all n l (m ∷ ns) =
    ground (arith, contains-insert_all n (insert m l) ns, contains-append n l (m ∷ []), eq_iff n m)

-- No name stands twice.
abbrev pub AllDistinct : List String → Type 0
AllDistinct [] = Unit
AllDistinct (n ∷ ns) = (contains n ns ≡ false) × AllDistinct ns
