-- ===== src/Workflow/Rehydration/Answers.antt =====
-- The answers that the earlier runs of a node have, as core/src/workflow/utils/rehydration_utils.ts gives them.
use adk_js.Prelude.{
  ℕ, zero, suc, ◌≡◌, refl, arith, String, Bool, true, false, ◌&&◌, Option, none, some, List, [],
  ◌∷◌, All, get_elem?, Bool-cases, inl, inr,
}
use adk_js.Prelude.Dict.{Dict, put}
use adk_js.Prelude.Names.{contains, insert_all, contains-insert_all}
use adk_js.Workflow.Run.State.{RehydratedNode}
use adk_js.Workflow.Rehydration.{NodeEvent, is_run_closed, add_to_runs, last_index, answer_at}

insert_all-keeps :
    (id : String) (ns ids : List String)
    → contains id ids ≡ true
    → contains id (insert_all ids ns) ≡ true
insert_all-keeps id ns ids h = ground (arith, contains-insert_all id ids ns, h)

insert_all-has :
    (id : String) (ns ids : List String)
    → contains id ns ≡ true
    → contains id (insert_all ids ns) ≡ true
insert_all-has id ns ids h = ground (arith, contains-insert_all id ids ns, h)

module _ {V : Type 0} where
  abbrev pub answers_own : Dict V → List String → Bool
  answers_own [] ids = true
  answers_own ((id, v) ∷ d) ids = contains id ids && answers_own d ids

  -- The answers that each run has are to interrupts that it raised.
  abbrev pub AnswersOwn : List (RehydratedNode V) → Type 0
  AnswersOwn ns = All (λ n. answers_own n.resolved_responses n.interrupt_ids ≡ true) ns

  answers_own-put :
      (id : String) (v : V) (d : Dict V) (ids : List String)
      → contains id ids ≡ true
      → answers_own d ids ≡ true
      → answers_own (put id v d) ids ≡ true
  answers_own-put id v [] ids c h = ground (arith, c)
  answers_own-put id v ((j, w) ∷ d) ids c h = ground (arith, c, h, answers_own-put id v d ids c)

  answers_own-insert_all :
      (d : Dict V) (ns ids : List String)
      → answers_own d ids ≡ true
      → answers_own d (insert_all ids ns) ≡ true
  answers_own-insert_all [] ns ids h = refl
  answers_own-insert_all ((id, v) ∷ d) ns ids h =
      ground (arith, h, insert_all-keeps id ns ids, answers_own-insert_all d ns ids)

  -- The run is there and raised the interrupt.
  abbrev pub owns : String → Option (RehydratedNode V) → Bool
  owns id none = false
  owns id (some n) = contains id n.interrupt_ids

  pub add_to_runs-owns :
      (e : NodeEvent V) (ns : List (RehydratedNode V)) (i : ℕ) (id : String)
      → owns id (get_elem? ns i) ≡ true
      → owns id (get_elem? (add_to_runs e ns) i) ≡ true
  add_to_runs-owns e [] i id h = absurd (false_not_true h)
    where
      false_not_true : false ≡ true → ⊥
      false_not_true k = cc
  add_to_runs-owns e (n ∷ []) zero id h = elim (Bool-cases (is_run_closed n)) [
    | inl c ↦ rw c h
    | inr c ↦ rw c (insert_all-keeps id e.long_running_tool_ids n.interrupt_ids h)
  ]
  add_to_runs-owns e (n ∷ []) (suc i) id h = absurd (false_not_true h)
    where
      false_not_true : false ≡ true → ⊥
      false_not_true k = cc
  add_to_runs-owns e (n ∷ m ∷ ns) zero id h = h
  add_to_runs-owns e (n ∷ m ∷ ns) (suc i) id h = add_to_runs-owns e (m ∷ ns) i id h

  last_index-behind :
      (n : RehydratedNode V) (e : NodeEvent V) (ns : List (RehydratedNode V))
      → last_index (n ∷ add_to_runs e ns) ≡ suc (last_index (add_to_runs e ns))
  last_index-behind n e [] = refl
  last_index-behind n e (m ∷ []) = elim (Bool-cases (is_run_closed m)) [
    | inl c ↦ rw c refl
    | inr c ↦ rw c refl
  ]
  last_index-behind n e (m ∷ k ∷ ns) = refl

  -- The last run has the interrupts of the event.
  pub add_to_runs-last_index :
      (e : NodeEvent V) (ns : List (RehydratedNode V)) (id : String)
      → contains id e.long_running_tool_ids ≡ true
      → owns id (get_elem? (add_to_runs e ns) (last_index (add_to_runs e ns))) ≡ true
  add_to_runs-last_index e [] id h = insert_all-has id e.long_running_tool_ids [] h
  add_to_runs-last_index e (n ∷ []) id h = elim (Bool-cases (is_run_closed n)) [
    | inl c ↦ rw c (insert_all-has id e.long_running_tool_ids [] h)
    | inr c ↦ rw c (insert_all-has id e.long_running_tool_ids n.interrupt_ids h)
  ]
  add_to_runs-last_index e (n ∷ m ∷ ns) id h =
      rw (last_index-behind n e (m ∷ ns)) (add_to_runs-last_index e (m ∷ ns) id h)

  pub add_to_runs-AnswersOwn :
      (e : NodeEvent V) (ns : List (RehydratedNode V))
      → AnswersOwn ns
      → AnswersOwn (add_to_runs e ns)
  add_to_runs-AnswersOwn e [] h = (refl, tt)
  add_to_runs-AnswersOwn e (n ∷ []) (a, h) = elim (Bool-cases (is_run_closed n)) [
    | inl c ↦ rw c (a, (refl, tt))
    | inr c ↦
        rw c (
          answers_own-insert_all n.resolved_responses e.long_running_tool_ids n.interrupt_ids a,
          tt,
        )
  ]
  add_to_runs-AnswersOwn e (n ∷ m ∷ ns) (a, h) = (a, add_to_runs-AnswersOwn e (m ∷ ns) h)

  pub answer_at-AnswersOwn :
      (i : ℕ) (id : String) (v : V) (ns : List (RehydratedNode V))
      → owns id (get_elem? ns i) ≡ true
      → AnswersOwn ns
      → AnswersOwn (answer_at i id v ns)
  answer_at-AnswersOwn i id v [] o h = tt
  answer_at-AnswersOwn zero id v (n ∷ ns) o (a, h) =
      (answers_own-put id v n.resolved_responses n.interrupt_ids o a, h)
  answer_at-AnswersOwn (suc i) id v (n ∷ ns) o (a, h) = (a, answer_at-AnswersOwn i id v ns o h)

  pub answer_at-owns :
      (i : ℕ) (id : String) (v : V) (ns : List (RehydratedNode V)) (j : ℕ) (id' : String)
      → owns id' (get_elem? (answer_at i id v ns) j) ≡ owns id' (get_elem? ns j)
  answer_at-owns i id v [] j id' = refl
  answer_at-owns zero id v (n ∷ ns) zero id' = refl
  answer_at-owns zero id v (n ∷ ns) (suc j) id' = refl
  answer_at-owns (suc i) id v (n ∷ ns) zero id' = refl
  answer_at-owns (suc i) id v (n ∷ ns) (suc j) id' = answer_at-owns i id v ns j id'
