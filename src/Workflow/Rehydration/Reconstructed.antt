-- ===== src/Workflow/Rehydration/Reconstructed.antt =====
-- The earlier runs of nodes, as core/src/workflow/utils/rehydration_utils.ts reconstructs
-- them event by event.
use adk_js.Prelude.{
  ℕ, ◌≡◌, refl, sym, ◌∙◌, ◌⊎◌, arith, eq_iff, String, Bool, true, false, Option, none, some, List,
  [], ◌∷◌, str_eq, get_elem?, if◌then◌else◌, Bool-cases, inl, inr,
}
use mathlib.Core.Path.{subst}
use adk_js.Prelude.Dict.{Dict, lookup, put, lookup-put}
use adk_js.Prelude.Names.{contains}
use adk_js.Workflow.Run.State.{RehydratedNode}
use adk_js.Workflow.Rehydration.{
  NodeEvent, Nodes, add_to_runs, runs_or_nil, last_index, answer_at, answer_one, answer_all,
  own_all, add_node_event, user_responses, step_of, reconstruct_step, reconstruct_loop,
  reconstruct_runs, reconstruct_node_runs, key_fn,
}
use adk_js.Workflow.Rehydration.Answers.{
  AnswersOwn, owns, add_to_runs-owns, add_to_runs-last_index, add_to_runs-AnswersOwn,
  answer_at-AnswersOwn, answer_at-owns,
}
use adk_js.Workflow.Rehydration.Runs.{
  AreRuns, AreRunsOrNone, add_to_runs-AreRuns, answer_at-AreRuns, put-AreRuns,
}

own_all-lookup :
    (run : String × ℕ) (ids : List String) (d : Dict (String × ℕ)) (id : String) (o : String × ℕ)
    → lookup id (own_all run ids d) ≡ some o
    → ((contains id ids ≡ true) × (run ≡ o)) ⊎ (lookup id d ≡ some o)
own_all-lookup run [] d id o h = inr h
own_all-lookup run (n ∷ ids) d id o h = elim (own_all-lookup run ids (put n run d) id o h) [
  | inl (c, e) ↦ inl (ground (arith, c), e)
  | inr k ↦ elim (Bool-cases (str_eq n id)) [
    | inl e ↦
        inl
          (ground (arith, e, eq_iff n id, eq_iff id n), ground (arith, lookup-put n id run d, e, k))
    | inr e ↦ inr (ground (arith, lookup-put n id run d, e, k))
  ]
]

module _ {V : Type 0} where
  run_at : Nodes V → String → ℕ → Option (RehydratedNode V)
  run_at s key i = get_elem? (runs_or_nil (lookup key s.nodes)) i

  -- What the loop keeps: the runs of each key, whose answers are their own; and the owner of an
  -- interrupt raised it.
  record IsFine (s : Nodes V) : Type 0 where
    runs : (k : String) → AreRunsOrNone (lookup k s.nodes)
    answers : (k : String) → AnswersOwn (runs_or_nil (lookup k s.nodes))
    owners :
        (id key : String) (i : ℕ)
        → lookup id s.interrupt_owner ≡ some (key, i)
        → owns id (run_at s key i) ≡ true

  -- Writes to one key that keep what the runs own.
  put-owns :
      (key : String) (ns : List (RehydratedNode V)) (s : Nodes V) (id k : String) (i : ℕ)
      → ((j : ℕ) → owns id (run_at s key j) ≡ true → owns id (get_elem? ns j) ≡ true)
      → owns id (run_at s k i) ≡ true
      → owns id (get_elem? (runs_or_nil (lookup k (put key ns s.nodes))) i) ≡ true
  unfolding run_at
  put-owns key ns s id k i keep h = elim (Bool-cases (str_eq key k)) [
    | inl e ↦
        let same : key ≡ k = ground (arith, eq_iff key k, e) in
        rw (lookup-put key k ns s.nodes, e)
          (keep i (
            subst (λ x. owns id (get_elem? (runs_or_nil (lookup x s.nodes)) i) ≡ true) (sym same)
              h))
    | inr e ↦ rw (lookup-put key k ns s.nodes, e) h
  ]

  put-AnswersOwn :
      (key : String) (ns : List (RehydratedNode V)) (d : Dict (List (RehydratedNode V)))
      → AnswersOwn ns
      → ((k : String) → AnswersOwn (runs_or_nil (lookup k d)))
      → (k : String) → AnswersOwn (runs_or_nil (lookup k (put key ns d)))
  put-AnswersOwn key ns d h all k = elim (Bool-cases (str_eq key k)) [
    | inl e ↦ rw (lookup-put key k ns d, e) h
    | inr e ↦ rw (lookup-put key k ns d, e) (all k)
  ]

  add_node_event-IsFine :
      (key : String) (e : NodeEvent V) (s : Nodes V) → IsFine s → IsFine (add_node_event key e s)
  unfolding run_at
  add_node_event-IsFine key e s v =
      let old = runs_or_nil (lookup key s.nodes) in
      let new = add_to_runs e old in
      record {
        runs = put-AreRuns key new s.nodes (added (lookup key s.nodes) (v.runs key)) v.runs;
        answers =
            put-AnswersOwn key new s.nodes (add_to_runs-AnswersOwn e old (v.answers key)) v.answers;
        owners = λ id k i h.
            elim (own_all-lookup (key, last_index new) e.long_running_tool_ids s.interrupt_owner id
              (k, i) h) [
                | inr before ↦
                    put-owns key new s id k i (λ j. add_to_runs-owns e old j id)
                      (v.owners id k i before)
                | inl (c, same) ↦
                    subst
                      (λ (o : String × ℕ).
                        owns id (get_elem? (runs_or_nil (lookup o.0 (put key new s.nodes))) o.1)
                        ≡ true)
                      same (here key new s.nodes id (add_to_runs-last_index e old id c))
              ];
      }
    where
      added :
          (o : Option (List (RehydratedNode V)))
          → AreRunsOrNone o
          → AreRuns (add_to_runs e (runs_or_nil o))
      added none h = tt
      added (some ns) h = add_to_runs-AreRuns e ns h

      here :
          (key : String) (ns : List (RehydratedNode V)) (d : Dict (List (RehydratedNode V)))
          (id : String)
          → owns id (get_elem? ns (last_index ns)) ≡ true
          → owns id (get_elem? (runs_or_nil (lookup key (put key ns d))) (last_index ns)) ≡ true
      here key ns d id h =
          let e : str_eq key key ≡ true = ground (arith, eq_iff key key) in
          rw (lookup-put key key ns d, e) h

  answer_one-IsFine :
      (id : String) (v : Option V) (o : Option (String × ℕ)) (s : Nodes V)
      → lookup id s.interrupt_owner ≡ o
      → IsFine s
      → IsFine (answer_one id v o s)
  unfolding run_at
  answer_one-IsFine id none o s e f = f
  answer_one-IsFine id (some v) none s e f = f
  answer_one-IsFine id (some v) (some (key, i)) s e f =
      let old = runs_or_nil (lookup key s.nodes) in
      let new = answer_at i id v old in
      let owned = f.owners id key i e in
      record {
        runs =
            put-AreRuns key new s.nodes (answered (lookup key s.nodes) (f.runs key) owned) f.runs;
        answers =
            put-AnswersOwn key new s.nodes (answer_at-AnswersOwn i id v old owned (f.answers key))
              f.answers;
        owners = λ id' k j h.
            put-owns key new s id' k j (λ m o. answer_at-owns i id v old m id' ∙ o)
              (f.owners id' k j h);
      }
    where
      answered :
          (o : Option (List (RehydratedNode V)))
          → AreRunsOrNone o
          → owns id (get_elem? (runs_or_nil o) i) ≡ true
          → AreRuns (answer_at i id v (runs_or_nil o))
      answered none h k = absurd (false_not_true k)
        where
          false_not_true : false ≡ true → ⊥
          false_not_true x = cc
      answered (some ns) h k = answer_at-AreRuns i id v ns h

  answer_all-IsFine :
      (resolved : Dict V) (ids : List (Option String)) (s : Nodes V)
      → IsFine s
      → IsFine (answer_all resolved ids s)
  answer_all-IsFine resolved [] s f = f
  answer_all-IsFine resolved (none ∷ ids) s f = answer_all-IsFine resolved ids s f
  answer_all-IsFine resolved (some id ∷ ids) s f =
      answer_all-IsFine resolved ids _ (answered (str_eq id ""))
    where
      answered :
          (b : Bool)
          → IsFine
              (if b then s else answer_one id (lookup id resolved) (lookup id s.interrupt_owner) s)
      answered true = f
      answered false =
          answer_one-IsFine id (lookup id resolved) (lookup id s.interrupt_owner) s refl f

  step_of-IsFine :
      (ids : Option (List (Option String))) (key : Option String) (resolved : Dict V)
      (e : NodeEvent V) (s : Nodes V)
      → IsFine s
      → IsFine (step_of ids key resolved e s)
  step_of-IsFine (some ids) key resolved e s f = answer_all-IsFine resolved ids s f
  step_of-IsFine none none resolved e s f = f
  step_of-IsFine none (some key) resolved e s f = keyed (str_eq key "")
    where
      keyed : (b : Bool) → IsFine (if b then s else add_node_event key e s)
      keyed true = f
      keyed false = add_node_event-IsFine key e s f

  reconstruct_step-IsFine :
      (key_for : NodeEvent V → Option String) (resolved : Dict V) (e : NodeEvent V) (s : Nodes V)
      → IsFine s
      → IsFine (reconstruct_step key_for resolved e s)
  unfolding reconstruct_step
  reconstruct_step-IsFine key_for resolved e s f =
      step_of-IsFine (user_responses e) (key_for e) resolved e s f

  reconstruct_loop-IsFine :
      (key_for : NodeEvent V → Option String) (resolved : Dict V) (es : List (NodeEvent V))
      (s : Nodes V)
      → IsFine s
      → IsFine (reconstruct_loop key_for resolved es s)
  unfolding reconstruct_loop
  reconstruct_loop-IsFine key_for resolved [] s f = f
  reconstruct_loop-IsFine key_for resolved (e ∷ es) s f =
      reconstruct_loop-IsFine key_for resolved es (reconstruct_step key_for resolved e s)
        (reconstruct_step-IsFine key_for resolved e s f)

  -- Whatever the events, the answers and the parent: of the earlier runs that are reconstructed for a
  -- node, each but the last is closed by an output, a route or an interrupt; there is one at least if
  -- the node has an entry; and each answer that a run holds is to an interrupt which that run raised.
  pub reconstruct_node_runs-AreRuns :
      (events : List (NodeEvent V)) (parent : Option String) (resolved : Dict V) (key : String)
      → AreRunsOrNone (lookup key (reconstruct_node_runs events parent resolved))
        × AnswersOwn (runs_or_nil (lookup key (reconstruct_node_runs events parent resolved)))
  unfolding reconstruct_node_runs reconstruct_runs
  reconstruct_node_runs-AreRuns events parent resolved key =
      let f =
        reconstruct_loop-IsFine (key_fn parent) resolved events
          (record { nodes = []; interrupt_owner = [] })
          (record {
            runs = λ k. tt;
            answers = λ k. tt;
            owners = λ id k i h. absurd (none_some (k, i) h);
          }) in
      (f.runs key, f.answers key)
    where
      none_some : (o : String × ℕ) → none ≡ some o → ⊥
      none_some o h = cc
