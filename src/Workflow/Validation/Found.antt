-- ===== src/Workflow/Validation/Found.antt =====
-- A cycle that the check reports is there, and the check ends within its fuel.
use adk_js.Prelude.{
  ℕ, zero, suc, ◌≤◌, ◌<◌, ◌≡◌, refl, ◌⊎◌, inl, inr, String, true, false, List, [], ◌∷◌, length, All,
  arith, Bool-cases, if◌then◌else◌,
}
use adk_js.Prelude.Names.{
  All-of_contains, contains, contains_head, contains_tail, contains_cases, outside, outside_lt,
  outside-le-length,
}
use adk_js.Workflow.Graph.{Edge}
use adk_js.Workflow.Validation.{
  Result, ok, throws, unconditional_cycle, unconditional_targets, visit_neighbors, cut, dfs,
  detect_unconditional_cycles,
}
use adk_js.Workflow.Validation.Cycles.{has_plain, PlainPath, edge, then_edge, acyclic_of_ok}

-- The result is a set, or a report of a name (the first of the list) that lies on a cycle.
pub data Reports (edges : List Edge) : Result (List String) → Type 0 where
  passed : (done : List String) → Reports edges (ok done)
  cycle :
      (m : String) (path : List String)
      → PlainPath edges m m
      → Reports edges (throws (unconditional_cycle (m ∷ path)))

module _ (edges : List Edge) where
  abbrev continue :
      Result (List String) → (List String → Result (List String)) → Result (List String)
  continue r k = elim r [ throws e ↦ throws e | ok d ↦ k d ]

  continue-Reports :
      (r : Result (List String)) (k : List String → Result (List String))
      → Reports edges r
      → ((d : List String) → Reports edges (k d))
      → Reports edges (continue r k)
  continue-Reports r k (passed d) h = h d
  continue-Reports r k (cycle m path p) h = cycle m path p

  visit-Reports :
      (g : String → List String → List String → Result (List String)) (path done ms : List String)
      → ((m : String) → contains m ms ≡ true → contains m path ≡ true → PlainPath edges m m)
      → ((m : String) (d : List String)
          → contains m ms ≡ true
          → contains m path ≡ false
          → Reports edges (g m path d))
      → Reports edges (visit_neighbors g path done ms)
  unfolding visit_neighbors
  visit-Reports g path done [] back deeper = passed done
  visit-Reports g path done (m ∷ ms) back deeper =
      let later = λ (d : List String).
        visit-Reports g path d ms (λ n k. back n (contains_tail n m ms k))
          (λ n d' k. deeper n d' (contains_tail n m ms k)) in
      elim (Bool-cases (contains m path)) [
        | inl on_path ↦
            rw on_path (cycle m (cut m path (m ∷ [])) (back m (contains_head m ms) on_path))
        | inr off ↦ elim (Bool-cases (contains m done)) [
          | inl old ↦ rw (off, old) (later done)
          | inr new ↦
              rw (off, new)
                (continue-Reports (g m path done) (λ d. visit_neighbors g path d ms)
                  (deeper m done (contains_head m ms) off) later)
        ]
      ]

  module _ (names : List String)
      (closed : (a b : String) → has_plain a b edges ≡ true → contains b names ≡ true) where
    dfs-Reports :
        (f : ℕ) (n : String) (path done : List String)
        → outside path names < f
        → contains n names ≡ true
        → contains n path ≡ false
        → ((a : String) → contains a path ≡ true → PlainPath edges a n)
        → Reports edges (dfs f edges n path done)
    unfolding dfs
    dfs-Reports zero n path done lt here off chain = elim lt [ ]
    dfs-Reports (suc f) n path done lt here off chain =
        continue-Reports _ (λ d. ok (if contains n d then d else n ∷ d))
          (visit-Reports (dfs f edges) (n ∷ path) done (unconditional_targets n edges)
            (λ m k on. elim (contains_cases m n path on) [
              | inl same ↦ rw same (edge (rw same at k))
              | inr old ↦ then_edge (chain m old) k
            ])
            (λ m d k off'.
              dfs-Reports f m (n ∷ path) d (omega (arith, outside_lt n path names here off))
                (closed n m k) off'
                (λ a on. elim (contains_cases a n path on) [
                  | inl same ↦ rw same (edge k)
                  | inr old ↦ then_edge (chain a old) k
                ])))
          (λ d. passed _)

    detect-Reports :
        outside [] names ≤ length names → Reports edges (detect_unconditional_cycles edges names)
    unfolding detect_unconditional_cycles
    detect-Reports lt =
        visit-Reports (dfs (suc (length names)) edges) [] [] names (λ m k on. cc)
          (λ m d k off. dfs-Reports (suc (length names)) m [] d (omega arith) k refl (λ a on. cc))

abbrev pub Decides : List Edge → List String → Result (List String) → Type 0
Decides edges names r =
    ((done : List String) × (r ≡ ok done) × All (λ a. ¬ PlainPath edges a a) names)
    ⊎ ((m : String) × (path : List String) × (r ≡ throws (unconditional_cycle (m ∷ path)))
        × PlainPath edges m m)

Decides-of :
    (edges : List Edge) (names : List String) (r : Result (List String))
    → detect_unconditional_cycles edges names ≡ r
    → Reports edges r
    → Decides edges names r
Decides-of edges names r e (passed done) = inl (
  done,
  refl,
  All-of_contains names (λ a. ¬ PlainPath edges a a) (λ a h. acyclic_of_ok edges names done a e h),
)
Decides-of edges names r e (cycle m path p) = inr (m, path, refl, p)

-- On names that hold the target of every unconditional edge, the check ends within its fuel: it
-- passes and no name lies on a cycle of unconditional edges, or it throws the cycle error, whose
-- first name lies on such a cycle.
pub detect_unconditional_cycles-Decides :
    (edges : List Edge) (names : List String)
    → ((a b : String) → has_plain a b edges ≡ true → contains b names ≡ true)
    → Decides edges names (detect_unconditional_cycles edges names)
detect_unconditional_cycles-Decides edges names closed =
    Decides-of edges names _ refl (detect-Reports edges names closed (outside-le-length [] names))
