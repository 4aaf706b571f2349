-- ===== src/Workflow/Branch/Prefix.antt =====
-- What the common prefix of paths is (core/src/workflow/branch_path.ts).
use mathlib.Core.Path.{subst}
use adk_js.Prelude.{
  ℕ, zero, suc, ◌+◌, ◌≤◌, ◌≡◌, refl, inl, inr, String, Bool, true, false, ◌&&◌, none, some, List,
  [], ◌∷◌, length, get_elem?, ◌∙◌, drop, leb, str_eq, arith, eq_iff, Bool-cases, Option-cases,
}
use adk_js.Workflow.Branch.{
  BranchPath, starts, min_length, all_have, prefix_loop, common_prefix_of_paths,
}

-- Each path starts with the segments, from the index on.
all_start_at : BranchPath → ℕ → List BranchPath → Bool
all_start_at a i [] = true
all_start_at a i (p ∷ ps) = starts a (drop i p) && all_start_at a i ps

-- Each path starts with the segments.
abbrev pub all_start : BranchPath → List BranchPath → Bool
all_start a [] = true
all_start a (p ∷ ps) = starts a p && all_start a ps

next_start : BranchPath → BranchPath → ℕ → String → Bool
next_start a p i s = elim (get_elem? p i) [
  | none ↦ false
  | some t ↦ str_eq t s && starts a (drop (suc i) p)
]

starts-drop :
    (s : String) (a p : BranchPath) (i : ℕ) → starts (s ∷ a) (drop i p) ≡ next_start a p i s
unfolding next_start
starts-drop s a [] zero = refl
starts-drop s a [] (suc i) = refl
starts-drop s a (t ∷ p) zero = refl
starts-drop s a (t ∷ p) (suc i) = starts-drop s a p i

all_start_at_nil : (i : ℕ) (ps : List BranchPath) → all_start_at [] i ps ≡ true
unfolding all_start_at
all_start_at_nil i [] = refl
all_start_at_nil i (p ∷ ps) = all_start_at_nil i ps

all_start_at_cons :
    (s : String) (a : BranchPath) (i : ℕ) (ps : List BranchPath)
    → all_start_at (s ∷ a) i ps ≡ (all_have i s ps && all_start_at a (suc i) ps)
unfolding all_start_at next_start
all_start_at_cons s a i [] = refl
all_start_at_cons s a i (p ∷ ps) = elim (Option-cases (get_elem? p i)) [
  | inl e ↦ ground (arith, starts-drop s a p i, all_start_at_cons s a i ps, e)
  | inr (t, e) ↦ ground (arith, starts-drop s a p i, all_start_at_cons s a i ps, e)
]

get_elem?-none : (p : BranchPath) (i : ℕ) → length p ≤ i → get_elem? p i ≡ none
get_elem?-none [] i h = refl
get_elem?-none (s ∷ p) zero h = ground arith
get_elem?-none (s ∷ p) (suc i) h = get_elem?-none p i (omega arith)

all_have_short :
    (i : ℕ) (s : String) (p : BranchPath) (ps : List BranchPath)
    → min_length p ps ≤ i
    → all_have i s (p ∷ ps) ≡ false
all_have_short i s p [] h = let gone = get_elem?-none p i h in ground (arith, gone)
all_have_short i s p (q ∷ ps) h = elim (Bool-cases (leb (length p) (min_length q ps))) [
  | inl e ↦
      let k : length p ≤ i = ground (arith, e, h) in
      let gone = get_elem?-none p i k in ground (arith, gone)
  | inr e ↦
      let k : min_length q ps ≤ i = ground (arith, e, h) in
      let here = all_have_short i s q ps k in
      elim (Option-cases (get_elem? p i)) [
        | inl o ↦ ground (arith, o)
        | inr (t, o) ↦ ground (arith, o, here)
      ]
]

all_have_first :
    (i : ℕ) (s t : String) (p : BranchPath) (ps : List BranchPath)
    → get_elem? p i ≡ some t
    → all_have i s (p ∷ ps) ≡ (str_eq t s && all_have i t (p ∷ ps))
all_have_first i s t p ps h = elim (Bool-cases (str_eq t s)) [
  | inr e ↦ ground (arith, h, e)
  | inl e ↦
      let same : t ≡ s = ground (arith, eq_iff t s, e) in
      subst (λ x. all_have i x (p ∷ ps) ≡ (str_eq t x && all_have i t (p ∷ ps))) same
        (ground (arith, eq_iff t t))
]

prefix_loop_lem :
    (a : BranchPath) (rounds i : ℕ) (p : BranchPath) (ps : List BranchPath)
    → min_length p ps ≤ rounds + i
    → starts a (prefix_loop rounds i p (p ∷ ps)) ≡ all_start_at a i (p ∷ ps)
unfolding prefix_loop
prefix_loop_lem [] rounds i p ps h = ground (arith, all_start_at_nil i (p ∷ ps))
prefix_loop_lem (s ∷ a) zero i p ps h =
    ground (arith, all_start_at_cons s a i (p ∷ ps), all_have_short i s p ps (omega arith))
prefix_loop_lem (s ∷ a) (suc rounds) i p ps h = elim (Option-cases (get_elem? p i)) [
  | inl e ↦ ground (arith, all_start_at_cons s a i (p ∷ ps), e)
  | inr (t, e) ↦
      let IH = prefix_loop_lem a rounds (suc i) p ps (omega arith) in
      let first = all_have_first i s t p ps e in
      elim (Bool-cases (all_have i t (p ∷ ps))) [
        | inl k ↦ ground (arith, all_start_at_cons s a i (p ∷ ps), IH, first, e, k)
        | inr k ↦ ground (arith, all_start_at_cons s a i (p ∷ ps), first, e, k)
      ]
]

all_start_at_zero : (a : BranchPath) (ps : List BranchPath) → all_start_at a 0 ps ≡ all_start a ps
unfolding all_start_at
all_start_at_zero a [] = refl
all_start_at_zero a (p ∷ ps) = ground (arith, all_start_at_zero a ps)

-- The common prefix of one or more paths is their longest: a path starts it just when it starts
-- each of them.
pub common_prefix_of_paths_lem :
    (a p : BranchPath) (ps : List BranchPath)
    → starts a (common_prefix_of_paths (p ∷ ps)) ≡ all_start a (p ∷ ps)
unfolding common_prefix_of_paths
common_prefix_of_paths_lem a p ps =
    prefix_loop_lem a (min_length p ps) 0 p ps (omega arith) ∙ all_start_at_zero a (p ∷ ps)
