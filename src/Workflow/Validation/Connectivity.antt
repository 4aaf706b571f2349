-- ===== src/Workflow/Validation/Connectivity.antt =====
-- Edges and reachability as relations, and what one round of the search does to its sets.
use adk_js.Prelude.{
  ℕ, suc, ◌+◌, ◌≤◌, ◌≡◌, ◌⊎◌, inl, inr, String, Bool, true, false, ◌&&◌, ◌||◌, List, [], ◌∷◌,
  length, length-append, arith, eq_iff, Bool-cases, str_eq, if◌then◌else◌,
}
use adk_js.Prelude.Names.{contains, insert, contains-append}
use adk_js.Workflow.Graph.{start_name, Edge}
use adk_js.Workflow.Validation.{targets_from, push_new}

-- Some edge leads from `a` to `b`.
abbrev pub has_edge : String → String → List Edge → Bool
has_edge a b [] = false
has_edge a b (e ∷ es) =
    if str_eq e.from_node.name a && str_eq b e.to_node.name then true else has_edge a b es

-- There is a chain of edges from START.
pub data Reachable (edges : List Edge) : String → Type 0 where
  start : Reachable edges start_name
  follow : {a b : String} → Reachable edges a → has_edge a b edges ≡ true → Reachable edges b

pub contains-insert :
    (b m : String) (l : List String) → contains b (insert m l) ≡ (contains b l || str_eq b m)
contains-insert b m l = ground (arith, contains-append b l (m ∷ []), eq_iff b m)

pub contains-targets_from :
    (a b : String) (found : List String) (es : List Edge)
    → contains b (targets_from a found es) ≡ (contains b found || has_edge a b es)
unfolding targets_from
contains-targets_from a b found [] = ground arith
contains-targets_from a b found (e ∷ es) = elim (Bool-cases (str_eq e.from_node.name a)) [
  | inl h ↦ rw h (
      ground (
        arith,
        contains-targets_from a b (insert e.to_node.name found) es,
        contains-insert b e.to_node.name found,
      ))
  | inr h ↦ rw h (contains-targets_from a b found es)
]

-- What is on the stack after a push: what was there, and the new names.
pub contains-push_new :
    (b : String) (reachable ns stack : List String)
    → contains b reachable ≡ false
    → contains b (push_new reachable ns stack) ≡ (contains b stack || contains b ns)
contains-push_new b reachable [] stack h = ground arith
contains-push_new b reachable (n ∷ ns) stack h = elim (Bool-cases (contains n reachable)) [
  | inl k ↦ rw k (ground (arith, contains-push_new b reachable ns stack h, eq_iff b n))
  | inr k ↦ rw k (ground (arith, contains-push_new b reachable ns (n ∷ stack) h, eq_iff b n))
]

pub push_new_sound :
    (b : String) (reachable ns stack : List String)
    → contains b (push_new reachable ns stack) ≡ true
    → (contains b stack ≡ true) ⊎ (contains b ns ≡ true)
push_new_sound b reachable [] stack h = inl h
push_new_sound b reachable (n ∷ ns) stack h = elim (Bool-cases (contains n reachable)) [
  | inl k ↦ ground (arith, push_new_sound b reachable ns stack, eq_iff b n)
  | inr k ↦ ground (arith, push_new_sound b reachable ns (n ∷ stack), eq_iff b n)
]

pub push_new_keeps :
    (b : String) (reachable ns stack : List String)
    → contains b stack ≡ true
    → contains b (push_new reachable ns stack) ≡ true
push_new_keeps b reachable [] stack h = h
push_new_keeps b reachable (n ∷ ns) stack h =
    push_new_keeps b reachable ns (if contains n reachable then stack else n ∷ stack)
      (ground (arith, eq_iff b n))

-- The edges from `a`, and those whose source is not in `l`.
pub out_degree : String → List Edge → ℕ
out_degree a [] = 0
out_degree a (e ∷ es) =
    let rest = out_degree a es in if str_eq e.from_node.name a then suc rest else rest

pub out_left : List String → List Edge → ℕ
out_left l [] = 0
out_left l (e ∷ es) =
    let rest = out_left l es in if contains e.from_node.name l then rest else suc rest

pub out_left_visit :
    (a : String) (l : List String) (es : List Edge)
    → contains a l ≡ false
    → out_left (a ∷ l) es + out_degree a es ≡ out_left l es
unfolding out_left out_degree
out_left_visit a l [] h = omega arith
out_left_visit a l (e ∷ es) h = ground (arith, out_left_visit a l es, eq_iff e.from_node.name a)

pub out_left-le-length : (l : List String) (es : List Edge) → out_left l es ≤ length es
unfolding out_left
out_left-le-length l [] = omega arith
out_left-le-length l (e ∷ es) = ground (arith, out_left-le-length l es)

length-insert : (n : String) (l : List String) → length (insert n l) ≤ suc (length l)
length-insert n l = ground (arith, length-append l (n ∷ []))

pub length-targets_from :
    (a : String) (found : List String) (es : List Edge)
    → length (targets_from a found es) ≤ length found + out_degree a es
unfolding targets_from out_degree
length-targets_from a found [] = omega arith
length-targets_from a found (e ∷ es) = elim (Bool-cases (str_eq e.from_node.name a)) [
  | inl h ↦ rw h (
      omega (
        arith,
        length-targets_from a (insert e.to_node.name found) es,
        length-insert e.to_node.name found,
      ))
  | inr h ↦ rw h (length-targets_from a found es)
]

pub length-push_new :
    (reachable ns stack : List String)
    → length (push_new reachable ns stack) ≤ length stack + length ns
length-push_new reachable [] stack = omega arith
length-push_new reachable (n ∷ ns) stack = elim (Bool-cases (contains n reachable)) [
  | inl k ↦ rw k (omega (arith, length-push_new reachable ns stack))
  | inr k ↦ rw k (omega (arith, length-push_new reachable ns (n ∷ stack)))
]
