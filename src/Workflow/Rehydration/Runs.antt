-- ===== src/Workflow/Rehydration/Runs.antt =====
-- The earlier runs of a node that core/src/workflow/utils/rehydration_utils.ts reconstructs.
use adk_js.Prelude.{
  ℕ, zero, suc, ◌≡◌, String, true, Option, none, some, List, [], ◌∷◌, str_eq, Bool-cases, inl, inr,
}
use adk_js.Prelude.Dict.{Dict, lookup, put, lookup-put}
use adk_js.Workflow.Run.State.{RehydratedNode}
use adk_js.Workflow.Rehydration.{NodeEvent, is_run_closed, add_to_runs, answer_at}

module _ {V : Type 0} where
  -- There is a run, and each but the last is closed.
  abbrev pub AreRuns : List (RehydratedNode V) → Type 0
  AreRuns [] = ⊥
  AreRuns (n ∷ []) = Unit
  AreRuns (n ∷ m ∷ ns) = (is_run_closed n ≡ true) × AreRuns (m ∷ ns)

  abbrev pub AreRunsOrNone : Option (List (RehydratedNode V)) → Type 0
  AreRunsOrNone none = Unit
  AreRunsOrNone (some ns) = AreRuns ns

  pub add_to_runs-AreRuns :
      (e : NodeEvent V) (ns : List (RehydratedNode V)) → AreRuns ns → AreRuns (add_to_runs e ns)
  add_to_runs-AreRuns e [] h = absurd h
  add_to_runs-AreRuns e (n ∷ []) h = elim (Bool-cases (is_run_closed n)) [
    | inl c ↦ rw c (c, tt)
    | inr c ↦ rw c tt
  ]
  add_to_runs-AreRuns e (n ∷ m ∷ ns) (c, h) =
      behind n (add_to_runs e (m ∷ ns)) c (add_to_runs-AreRuns e (m ∷ ns) h)
    where
      behind :
          (n : RehydratedNode V) (ms : List (RehydratedNode V))
          → is_run_closed n ≡ true
          → AreRuns ms
          → AreRuns (n ∷ ms)
      behind n [] c h = absurd h
      behind n (m ∷ ms) c h = (c, h)

  pub answer_at-AreRuns :
      (i : ℕ) (id : String) (v : V) (ns : List (RehydratedNode V))
      → AreRuns ns
      → AreRuns (answer_at i id v ns)
  answer_at-AreRuns i id v [] h = absurd h
  answer_at-AreRuns zero id v (n ∷ []) h = tt
  answer_at-AreRuns (suc i) id v (n ∷ []) h = tt
  answer_at-AreRuns zero id v (n ∷ m ∷ ns) (c, h) = (c, h)
  answer_at-AreRuns (suc i) id v (n ∷ m ∷ ns) (c, h) =
      behind n (answer_at i id v (m ∷ ns)) c (answer_at-AreRuns i id v (m ∷ ns) h)
    where
      behind :
          (n : RehydratedNode V) (ms : List (RehydratedNode V))
          → is_run_closed n ≡ true
          → AreRuns ms
          → AreRuns (n ∷ ms)
      behind n [] c h = absurd h
      behind n (m ∷ ms) c h = (c, h)

  pub put-AreRuns :
      (key : String) (ns : List (RehydratedNode V)) (d : Dict (List (RehydratedNode V)))
      → AreRuns ns
      → ((k : String) → AreRunsOrNone (lookup k d))
      → (k : String) → AreRunsOrNone (lookup k (put key ns d))
  put-AreRuns key ns d h all k = elim (Bool-cases (str_eq key k)) [
    | inl e ↦ rw (lookup-put key k ns d, e) h
    | inr e ↦ rw (lookup-put key k ns d, e) (all k)
  ]
