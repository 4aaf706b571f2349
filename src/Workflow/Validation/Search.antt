-- ===== src/Workflow/Validation/Search.antt =====
-- The search from START ends within its fuel, and finds exactly the reachable names.
use adk_js.Prelude.{
  ℕ, zero, suc, ◌+◌, ◌≤◌, ◌<◌, ◌≡◌, refl, ◌↔◌, inl, inr, String, true, false, ◌||◌, some, List, [],
  ◌∷◌, length, arith, eq_iff, Bool-cases,
}
use adk_js.Prelude.Names.{contains, contains_head, contains_tail, contains_cases}
use adk_js.Workflow.Graph.{start_name, Edge}
use adk_js.Workflow.Validation.{targets_from, push_new, search_loop, reachable_from_start}
use adk_js.Workflow.Validation.Connectivity.{
  has_edge, Reachable, start, follow, contains-targets_from, contains-push_new, push_new_sound,
  push_new_keeps, out_left, out_left_visit, out_left-le-length, length-targets_from,
  length-push_new,
}

module _ (edges : List Edge) where
  abbrev visit : String → List String → List String → List String
  visit n stack reachable = push_new (n ∷ reachable) (targets_from n [] edges) stack

  visit_smaller :
      (n : String) (stack reachable : List String)
      → contains n reachable ≡ false
      → length (visit n stack reachable) + out_left (n ∷ reachable) edges
        ≤ length stack + out_left reachable edges
  visit_smaller n stack reachable h = omega (
    arith,
    length-push_new (n ∷ reachable) (targets_from n [] edges) stack,
    length-targets_from n [] edges,
    out_left_visit n reachable edges h,
  )

  -- The search ends with a result if the stack and the edges that are left number less than the
  -- fuel.
  search_total :
      (f : ℕ) (stack reachable : List String)
      → length stack + out_left reachable edges < f
      → (r : List String) × (search_loop f edges stack reachable ≡ some r)
  unfolding search_loop
  search_total zero stack reachable h = elim h [ ]
  search_total (suc f) [] reachable h = (reachable, refl)
  search_total (suc f) (n ∷ stack) reachable h = elim (Bool-cases (contains n reachable)) [
    | inl seen ↦ rw seen (search_total f stack reachable (omega arith))
    | inr new ↦ rw new (
        search_total f (visit n stack reachable) (n ∷ reachable)
          (omega (arith, visit_smaller n stack reachable new)))
  ]

  abbrev AllReachable : List String → Type 0
  AllReachable l = (b : String) → contains b l ≡ true → Reachable edges b

  visit_reachable :
      (n : String) (stack reachable : List String)
      → AllReachable (n ∷ stack)
      → AllReachable (visit n stack reachable)
  visit_reachable n stack reachable h b k =
      elim (push_new_sound b (n ∷ reachable) (targets_from n [] edges) stack k) [
        | inl old ↦ h b (contains_tail b n stack old)
        | inr new ↦
            follow (h n (contains_head n stack))
              (ground (arith, contains-targets_from n b [] edges))
      ]

  search_sound :
      (f : ℕ) (stack reachable r : List String)
      → AllReachable stack
      → AllReachable reachable
      → search_loop f edges stack reachable ≡ some r
      → AllReachable r
  unfolding search_loop
  search_sound zero stack reachable r hs hr e = λ b k. cc
  search_sound (suc f) [] reachable r hs hr e = λ b k. hr b (ground (arith, e, k))
  search_sound (suc f) (n ∷ stack) reachable r hs hr e = elim (Bool-cases (contains n reachable)) [
    | inl seen ↦
        search_sound f stack reachable r (λ b k. hs b (contains_tail b n stack k)) hr (rw seen at e)
    | inr new ↦
        search_sound f (visit n stack reachable) (n ∷ reachable) r
          (visit_reachable n stack reachable hs)
          (λ b k. elim (contains_cases b n reachable k) [
            | inl same ↦ rw same (hs n (contains_head n stack))
            | inr old ↦ hr b old
          ])
          (rw new at e)
  ]

  -- An edge out of a visited name leads to a visited name or to one on the stack.
  abbrev Covers : List String → List String → Type 0
  Covers reachable stack =
      (a b : String)
      → contains a reachable ≡ true
      → has_edge a b edges ≡ true
      → (contains b reachable || contains b stack) ≡ true

  Covers-skip :
      (n : String) (stack reachable : List String)
      → contains n reachable ≡ true
      → Covers reachable (n ∷ stack)
      → Covers reachable stack
  Covers-skip n stack reachable seen c a b h k = ground (arith, c a b h k, eq_iff b n)

  Covers-visit :
      (n : String) (stack reachable : List String)
      → Covers reachable (n ∷ stack)
      → Covers (n ∷ reachable) (visit n stack reachable)
  Covers-visit n stack reachable c a b h k = elim (Bool-cases (contains b (n ∷ reachable))) [
    | inl old ↦ ground (arith, old)
    | inr new ↦ elim (contains_cases a n reachable h) [
      | inl same ↦ ground (
        arith,
        new,
        contains-push_new b (n ∷ reachable) (targets_from n [] edges) stack new,
        contains-targets_from n b [] edges,
        eq_iff a n,
      )
      | inr was ↦ ground (
        arith,
        new,
        contains-push_new b (n ∷ reachable) (targets_from n [] edges) stack new,
        c a b was k,
        eq_iff b n,
      )
    ]
  ]

  search_closed :
      (f : ℕ) (stack reachable r : List String)
      → Covers reachable stack
      → search_loop f edges stack reachable ≡ some r
      → Covers r []
  unfolding search_loop
  search_closed zero stack reachable r c e = λ a b h k. cc
  search_closed (suc f) [] reachable r c e =
      λ a b h k. ground (arith, e, c a b (ground (arith, e, h)) k)
  search_closed (suc f) (n ∷ stack) reachable r c e = elim (Bool-cases (contains n reachable)) [
    | inl seen ↦
        search_closed f stack reachable r (Covers-skip n stack reachable seen c) (rw seen at e)
    | inr new ↦
        search_closed f (visit n stack reachable) (n ∷ reachable) r
          (Covers-visit n stack reachable c) (rw new at e)
  ]

  -- What the search has visited or holds on its stack it still has at the end.
  search_keeps :
      (f : ℕ) (stack reachable r : List String) (b : String)
      → (contains b reachable || contains b stack) ≡ true
      → search_loop f edges stack reachable ≡ some r
      → contains b r ≡ true
  unfolding search_loop
  search_keeps zero stack reachable r b h e = cc
  search_keeps (suc f) [] reachable r b h e = ground (arith, e, h)
  search_keeps (suc f) (n ∷ stack) reachable r b h e = elim (Bool-cases (contains n reachable)) [
    | inl seen ↦ search_keeps f stack reachable r b (ground (arith, eq_iff b n)) (rw seen at e)
    | inr new ↦
        search_keeps f (visit n stack reachable) (n ∷ reachable) r b
          (ground
            (arith, eq_iff b n, push_new_keeps b (n ∷ reachable) (targets_from n [] edges) stack))
          (rw new at e)
  ]

  reachable_mem :
      (r : List String) {b : String}
      → contains start_name r ≡ true
      → Covers r []
      → Reachable edges b
      → contains b r ≡ true
  reachable_mem r s c start = s
  reachable_mem r s c (follow {a} {b} p h) = ground (arith, c a b (reachable_mem r s c p) h)

-- The search from START always returns a set within its fuel, and a name is in it exactly when a
-- chain of edges leads to it from START.
pub reachable_from_start_iff :
    (edges : List Edge)
    → (r : List String) × (reachable_from_start edges ≡ some r)
      × ((b : String) → (contains b r ≡ true) ↔ Reachable edges b)
unfolding reachable_from_start
reachable_from_start_iff edges =
    let fuel = suc (suc (length edges)) in
    let (r, e) =
      search_total edges fuel (start_name ∷ []) [] (omega (arith, out_left-le-length [] edges)) in
    (
      r,
      e,
      λ b. (
        search_sound edges fuel (start_name ∷ []) [] r
            (λ c k. elim (contains_cases c start_name [] k) [
              | inl same ↦ rw same start
              | inr no_more ↦ cc
            ])
            (λ c k. cc) e b,
        reachable_mem edges r
            (search_keeps edges fuel (start_name ∷ []) [] r start_name (contains_head start_name [])
              e)
            (search_closed edges fuel (start_name ∷ []) [] r (λ a c h k. cc) e),
      ),
    )
