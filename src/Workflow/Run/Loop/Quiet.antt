-- ===== src/Workflow/Run/Loop/Quiet.antt =====
-- What is left in the trigger buffer when the loop of core/src/workflow/workflow.ts ends.
use mathlib.Core.Path.{subst}
use adk_js.Prelude.{
  refl, sym, str_eq, ℕ, ◌≤◌, ◌≡◌, ◌∙◌, ◌⊎◌, inl, inr, String, Bool, true, false, not, ◌&&◌, Option,
  none, some, List, [], ◌∷◌, All, arith, length, eq_iff, Bool-cases, Option-cases,
}
use adk_js.Prelude.Dict.{Dict, lookup, has}
use adk_js.Prelude.Names.{contains, insert_all}
use adk_js.Workflow.Run.State.{RehydratedNode, LoopState, Setting, NodeState, Trigger}
use adk_js.Workflow.Run.{is_nil, is_waiting, keys, at_concurrency_limit}
use adk_js.Workflow.Run.Loop.{
  schedule_ready_nodes, Reaches, finalize, interrupted, collect, is_held, final_of,
}
use adk_js.Workflow.Run.Loop.Consistent.{IsConsistent, is_running_state, has_interrupts}
use adk_js.Workflow.Run.Loop.Scheduling.{schedule_lem, Skipped}
use adk_js.Workflow.Run.Loop.Completing.{insert_all-is_nil}
use adk_js.Workflow.Run.Loop.Invariant.{Ready, Reaches-Ready, Reaches-IsConsistent}

All-contains {ℓ} :
    (ns : List String) (P : String → Type ℓ) (n : String) → All P ns → contains n ns ≡ true → P n
All-contains [] P n a h = absurd (false_not_true h)
  where
    false_not_true : false ≡ true → ⊥
    false_not_true k = cc
All-contains (m ∷ ns) P n (p, ps) h = elim (Bool-cases (str_eq m n)) [
  | inl e ↦ subst P (ground (arith, eq_iff m n, e)) p
  | inr e ↦ All-contains ns P n ps (ground (arith, eq_iff m n, eq_iff n m, e, h))
]

pub keys-contains {ℓ} : {A : Type ℓ} (d : Dict A) (n : String) → contains n (keys d) ≡ has n d
keys-contains [] n = refl
keys-contains ((k, v) ∷ d) n = ground (arith, keys-contains d n, eq_iff k n, eq_iff n k)

-- The constructor of `Workflow` refuses a bound below one.
abbrev pub HasRoom : Option ℕ → Type 0
HasRoom none = Unit
HasRoom (some bound) = 1 ≤ bound

module _ {V : Type 0} where
  -- The node is WAITING with interrupts that have no answer yet.
  abbrev pub waits_for_answers : Option (NodeState V) → Bool
  waits_for_answers none = false
  waits_for_answers (some s) = is_waiting s.status && not (is_nil s.interrupts)

  held_cases :
      (o : Option (NodeState V))
      → is_held o ≡ true
      → is_running_state o ≡ false
      → (waits_for_answers o ≡ true) × (has_interrupts o ≡ true)
  held_cases none h r = absurd (none_held h)
    where
      none_held : false ≡ true → ⊥
      none_held k = cc
  held_cases (some s) h r = (ground (arith, h, r), ground (arith, h, r))

module _ {V : Type 0} (c : Setting V) where
  collect-is_nil :
      (d : Dict (NodeState V)) (ids : List String)
      → is_nil ids ≡ false
      → is_nil (collect c ids d) ≡ false
  collect-is_nil [] ids h = h
  collect-is_nil ((n, s) ∷ d) ids h = elim (Bool-cases (is_waiting s.status)) [
    | inl w ↦
        rw w (collect-is_nil d (insert_all ids s.interrupts) (insert_all-is_nil s.interrupts ids h))
    | inr w ↦ rw w (collect-is_nil d ids h)
  ]

  has_room :
      (l : LoopState V)
      → HasRoom c.max_concurrency
      → l.pending ≡ []
      → at_concurrency_limit c l ≡ false
  unfolding at_concurrency_limit
  has_room l h p = elim (Option-cases c.max_concurrency) [
    | inl e ↦ rw e refl
    | inr (bound, e) ↦ ground (arith, e, h, p)
  ]

  -- What ends the workflow with interrupts.
  abbrev pub EndsInterrupted : LoopState V → List String → Type 0
  EndsInterrupted l dynamic = (ids : List String) × (finalize c l dynamic ≡ interrupted ids)

  finalize-interrupted :
      (l : LoopState V) (dynamic : List String)
      → is_nil l.interrupt_ids ≡ false
      → EndsInterrupted l dynamic
  unfolding finalize
  finalize-interrupted l dynamic h = go (insert_all (collect c l.interrupt_ids l.nodes) dynamic) (
      insert_all-is_nil dynamic (collect c l.interrupt_ids l.nodes)
        (collect-is_nil l.nodes l.interrupt_ids h))
    where
      go :
          (ids : List String)
          → is_nil ids ≡ false
          → (is : List String) × (final_of c l ids ≡ interrupted is)
      go [] k = absurd (true_not_false k)
        where
          true_not_false : true ≡ false → ⊥
          true_not_false e = cc
      go (i ∷ is) k = (i ∷ is, refl)

  both : {b : Bool} → b ≡ false → b ≡ true → ⊥
  both h k = cc

  -- A name in a buffer that a scheduling left alone.
  left_alone :
      (l : LoopState V) (n : String) (ts : List (Trigger V))
      → IsConsistent c l
      → l.pending ≡ []
      → Skipped c l n
      → lookup n l.trigger_buffer ≡ some ts
      → (waits_for_answers (lookup n l.nodes) ≡ true) × (is_nil l.interrupt_ids ≡ false)
  left_alone l n ts v p s b =
      let idle : has n l.pending ≡ false = rw p refl in
      let stopped : is_running_state (lookup n l.nodes) ≡ false = sym (v.running_iff n) ∙ idle in
      elim s [
        | inl h ↦ absurd (both idle h)
        | inr (inr h) ↦ absurd (both (v.buffered n) (ground (arith, b, h)))
        | inr (inl h) ↦
            let (w, i) = held_cases (lookup n l.nodes) h stopped in
            (w, elim (v.recorded n) [ inl none_there ↦ absurd (both none_there i) | inr r ↦ r ])
      ]

  -- A consistent loop that is scheduled and has no task has only triggers of nodes that wait.
  Ready-quiet :
      (l : LoopState V) (n : String)
      → HasRoom c.max_concurrency
      → Ready c l
      → IsConsistent c l
      → l.pending ≡ []
      → (lookup n l.trigger_buffer ≡ none)
        ⊎ ((waits_for_answers (lookup n l.nodes) ≡ true) × (is_nil l.interrupt_ids ≡ false))
  unfolding schedule_ready_nodes
  Ready-quiet l n room r v p =
      let (_, scheduled) =
        schedule_lem c (keys r.before.trigger_buffer) r.before l r.before_consistent r.scheduled in
      elim scheduled [
        | inl more ↦ absurd (none_pending p more)
        | inr (same, inl full) ↦ absurd (
            both (has_room l room p) (subst (λ x. at_concurrency_limit c x ≡ true) (sym same) full))
        | inr (same, inr all) ↦
            let all' = subst (λ x. All (Skipped c x) (keys x.trigger_buffer)) (sym same) all in
            elim (Option-cases (lookup n l.trigger_buffer)) [
              | inl gone ↦ inl gone
              | inr (ts, b) ↦ inr (
                  left_alone l n ts v p
                    (All-contains (keys l.trigger_buffer) (Skipped c l) n all'
                      (keys-contains l.trigger_buffer n ∙ ground (arith, b)))
                    b)
            ]
      ]
    where
      none_pending : l.pending ≡ [] → 1 ≤ length l.pending → ⊥
      none_pending h k = ground (arith, h, k)

  -- Whatever tasks complete, in any order and with any results: if `maxConcurrency` is at least one
  -- where it is set, and the loop ends since no task is pending, then a trigger is left in the buffer
  -- only for a node that is WAITING for the answers to its interrupts, and then the workflow ends with
  -- interrupts, whatever the interrupts of dynamic children.
  pub Reaches-quiet :
      (rehydrated : Dict (List (RehydratedNode V))) (node_input : Option V) (l : LoopState V)
      (n : String) (dynamic : List String)
      → HasRoom c.max_concurrency
      → Reaches c rehydrated node_input l
      → l.pending ≡ []
      → (lookup n l.trigger_buffer ≡ none)
        ⊎ ((waits_for_answers (lookup n l.nodes) ≡ true) × EndsInterrupted l dynamic)
  Reaches-quiet rehydrated node_input l n dynamic room h p =
      elim (Ready-quiet l n room (Reaches-Ready c rehydrated node_input l h)
        (Reaches-IsConsistent c rehydrated node_input l h) p) [
          | inl gone ↦ inl gone
          | inr (w, i) ↦ inr (w, finalize-interrupted l dynamic i)
        ]
