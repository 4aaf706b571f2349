-- ===== src/Workflow/Validation/Cycles.antt =====
-- A graph that passes the cycle check has no cycle of unconditional edges.
use mathlib.Core.Path.{subst}
use adk_js.Prelude.{
  ℕ, zero, suc, ◌≤◌, ◌<◌, ◌≡◌, ◌⊎◌, inl, inr, String, Bool, true, false, List, [], ◌∷◌, length,
  arith, eq_iff, Bool-cases, str_eq, if◌then◌else◌,
}
use adk_js.Prelude.Names.{contains, IsSubset, contains_head, contains_tail, contains_cases}
use adk_js.Workflow.Graph.{Edge}
use adk_js.Workflow.Validation.{
  Result, ok, unconditional_targets, visit_neighbors, finish, dfs, detect_unconditional_cycles,
}

-- Some unconditional edge leads from `a` to `b`.
abbrev pub has_plain : String → String → List Edge → Bool
has_plain a b edges = contains b (unconditional_targets a edges)

-- A chain of one or more unconditional edges.
pub data PlainPath (edges : List Edge) (a : String) : String → Type 0 where
  edge : {b : String} → has_plain a b edges ≡ true → PlainPath edges a b
  then_edge :
      {b c : String} → PlainPath edges a b → has_plain b c edges ≡ true → PlainPath edges a c

ok_elim {ℓ κ} : {A : Type ℓ} (P : A → Type κ) {a b : A} → ok a ≡ ok b → P a → P b
ok_elim P {a} {b} e h = subst P (cc) h

IsSubset-cons :
    (m : String) (ms d : List String) → contains m d ≡ true → IsSubset ms d → IsSubset (m ∷ ms) d
IsSubset-cons m ms d h s b k = elim (contains_cases b m ms k) [
  | inl same ↦ rw same h
  | inr old ↦ s b old
]

-- A round of the loop that did not throw skipped the name, or visited it.
visit_cases :
    (g : String → List String → List String → Result (List String)) (path done ms : List String)
    (m : String) (done' : List String)
    → visit_neighbors g path done (m ∷ ms) ≡ ok done'
    → ((contains m done ≡ true) × (visit_neighbors g path done ms ≡ ok done'))
      ⊎ ((mid : List String) × (g m path done ≡ ok mid)
          × (visit_neighbors g path mid ms ≡ ok done'))
unfolding visit_neighbors
visit_cases g path done ms m done' e = ground arith

dfs_cases :
    (f : ℕ) (edges : List Edge) (n : String) (path done done' : List String)
    → dfs (suc f) edges n path done ≡ ok done'
    → (mid : List String) × (visit_neighbors
          (dfs f edges)
          (n ∷ path)
          done
          (unconditional_targets n edges)
        ≡ ok mid)
      × (ok (finish n mid) ≡ ok done')
unfolding dfs
dfs_cases f edges n path done done' e = ground arith

module _ (edges : List Edge) where
  -- Each name stands before the targets of its unconditional edges, and only once.
  abbrev Topological : List String → Type 0
  Topological [] = Unit
  Topological (n ∷ ds) =
      ((b : String) → has_plain n b edges ≡ true → contains b ds ≡ true)
      × (contains n ds ≡ false)
      × Topological ds

  -- What a depth-first visit of `n` returns, if it returns a set.
  abbrev Finishes : (String → List String → List String → Result (List String)) → Type 0
  Finishes g =
      (n : String) (path done done' : List String)
      → Topological done
      → g n path done ≡ ok done'
      → Topological done' × IsSubset done done' × (contains n done' ≡ true)

  abbrev After : List String → List String → List String → Type 0
  After done ms done' = Topological done' × IsSubset done done' × IsSubset ms done'

  visit-Finishes :
      (g : String → List String → List String → Result (List String))
      → Finishes g
      → (path done done' ms : List String) → Topological done
      → visit_neighbors g path done ms ≡ ok done'
      → After done ms done'
  unfolding visit_neighbors
  visit-Finishes g h path done done' [] t e =
      (ok_elim Topological e t, λ b k. ok_elim (λ d. contains b d ≡ true) e k, λ b k. cc)
  visit-Finishes g h path done done' (m ∷ ms) t e = elim (visit_cases g path done ms m done' e) [
    | inl (old, e') ↦
        let (t', s, all) = visit-Finishes g h path done done' ms t e' in
        (t', s, IsSubset-cons m ms done' (s m old) all)
    | inr (mid, d, e') ↦
        let (tm, sm, here) = h m path done mid t d in
        let (t', s, all) = visit-Finishes g h path mid done' ms tm e' in
        (t', λ b k. s b (sm b k), IsSubset-cons m ms done' (s m here) all)
  ]

  dfs-Finishes : (f : ℕ) → Finishes (dfs f edges)
  unfolding dfs
  dfs-Finishes zero n path done done' t e = cc
  dfs-Finishes (suc f) n path done done' t e =
      let (mid, v, e') = dfs_cases f edges n path done done' e in
      let (t', s, all) =
        visit-Finishes (dfs f edges) (dfs-Finishes f) (n ∷ path) done mid
          (unconditional_targets n edges) t v in
      ok_elim (λ d. Topological d × IsSubset done d × (contains n d ≡ true)) e'
        (elim (Bool-cases (contains n mid)) [
          | inl old ↦ rw old (t', s, old)
          | inr new ↦
              rw new ((all, new, t'), λ b k. contains_tail b n mid (s b k), contains_head n mid)
        ])

  -- The place of a name in the list, counted from the end.
  rank : String → List String → ℕ
  rank n [] = 0
  rank n (m ∷ ds) = let rest = rank n ds in if str_eq n m then suc (length ds) else rest

  rank-le-length : (n : String) (ds : List String) → rank n ds ≤ length ds
  unfolding rank
  rank-le-length n [] = omega arith
  rank-le-length n (m ∷ ds) = ground (arith, rank-le-length n ds)

  rank_edge :
      (ds : List String) (a b : String)
      → Topological ds
      → contains a ds ≡ true
      → has_plain a b edges ≡ true
      → (contains b ds ≡ true) × (rank b ds < rank a ds)
  unfolding rank
  rank_edge [] a b t h k = cc
  rank_edge (m ∷ ds) a b (succ, once, t) h k = elim (contains_cases a m ds h) [
    | inl same ↦
        let inside : contains b ds ≡ true = succ b (rw same at k) in
        (
          contains_tail b m ds inside,
          ground (arith, rank-le-length b ds, eq_iff b m, eq_iff a m, same, inside, once),
        )
    | inr old ↦
        let (inside, less) = rank_edge ds a b t old k in
        (
          contains_tail b m ds inside,
          ground (arith, eq_iff b m, eq_iff a m, old, inside, once, less),
        )
  ]

  rank_path :
      (ds : List String) {a b : String}
      → Topological ds
      → contains a ds ≡ true
      → PlainPath edges a b
      → (contains b ds ≡ true) × (rank b ds < rank a ds)
  rank_path ds {a} t h (edge {b} k) = rank_edge ds a b t h k
  rank_path ds {a} t h (then_edge {b} {c} p k) =
      let (inside, less) = rank_path ds t h p in
      let (inside', less') = rank_edge ds b c t inside k in (inside', omega arith)

  pub acyclic_of_ok :
      (names done : List String) (a : String)
      → detect_unconditional_cycles edges names ≡ ok done
      → contains a names ≡ true
      → ¬ PlainPath edges a a
  unfolding detect_unconditional_cycles
  acyclic_of_ok names done a e h p =
      let (t, s, all) =
        visit-Finishes (dfs (suc (length names)) edges) (dfs-Finishes (suc (length names))) [] []
          done names tt e in
      let (inside, less) = rank_path done t (all a h) p in absurd (omega arith)
