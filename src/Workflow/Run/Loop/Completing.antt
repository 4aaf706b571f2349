-- ===== src/Workflow/Run/Loop/Completing.antt =====
-- What handling a completion leaves of the loop of core/src/workflow/workflow.ts.
use mathlib.Core.Path.{subst}
use adk_js.Prelude.{
  ℕ, ◌≤◌, ◌≡◌, refl, sym, ◌∙◌, ◌⊎◌, inl, inr, String, true, false, not, ◌&&◌, Option, none, some,
  List, [], ◌∷◌, length, arith, eq_iff, Bool-cases, Option-cases,
}
use adk_js.Prelude.Dict.{Dict, lookup, put, remove, lookup-put}
use adk_js.Prelude.Names.{insert, insert_all}
use adk_js.Workflow.Run.State.{
  completed, waiting, NodeState, Trigger, NodeResult, RehydratedNode, LoopState, Setting,
}
use adk_js.Workflow.Graph.{Edge}
use adk_js.Workflow.Run.{
  is_running, is_nil, is_none, get_static_node, push_trigger, push_start_triggers,
  seed_start_triggers, new_loop, start_edges,
}
use adk_js.Workflow.Run.Loop.{
  buffer_one, buffer_all, buffer_downstream_triggers, handle_completion, state_of, with_node,
  join_trigger, predecessors, all_completed, completed_loop,
}
use adk_js.Workflow.Run.Loop.Consistent.{
  none_not_some, length-remove_le, has-remove, IsWithin, has_interrupts, is_empty_buffer,
  IsConsistent, push_trigger-buffered,
}

insert-is_nil : (n : String) (l : List String) → is_nil (insert n l) ≡ false
insert-is_nil n [] = refl
insert-is_nil n (m ∷ l) = ground (arith, eq_iff n m)

pub insert_all-is_nil : (ns l : List String) → is_nil l ≡ false → is_nil (insert_all l ns) ≡ false
unfolding insert_all
insert_all-is_nil [] l h = h
insert_all-is_nil (n ∷ ns) l h = insert_all-is_nil ns (insert n l) (insert-is_nil n l)

insert_all_nonempty : (ns l : List String) → is_nil ns ≡ false → is_nil (insert_all l ns) ≡ false
unfolding insert_all
insert_all_nonempty [] l h = absurd (true_not_false h)
  where
    true_not_false : true ≡ false → ⊥
    true_not_false k = cc
insert_all_nonempty (n ∷ ns) l h = insert_all-is_nil ns (insert n l) (insert-is_nil n l)

IsWithin-le : (o : Option ℕ) (n m : ℕ) → IsWithin o n → m ≤ n → IsWithin o m
IsWithin-le none n m h k = tt
IsWithin-le (some bound) n m h k = omega arith

module _ {V : Type 0} where
  -- One loop is another but for its buffer, where no list is empty if none was.
  pub record Buffers (l m : LoopState V) : Type 0 where
    pub same_pending : m.pending ≡ l.pending
    pub same_nodes : m.nodes ≡ l.nodes
    pub same_ids : m.interrupt_ids ≡ l.interrupt_ids
    pub keeps :
        ((n : String) → is_empty_buffer (lookup n l.trigger_buffer) ≡ false)
        → (n : String) → is_empty_buffer (lookup n m.trigger_buffer) ≡ false

  Buffers-refl : (l : LoopState V) → Buffers l l
  Buffers-refl l = record {
    same_pending = refl;
    same_nodes = refl;
    same_ids = refl;
    keeps = λ h. h;
  }

  Buffers-trans : {l m k : LoopState V} → Buffers l m → Buffers m k → Buffers l k
  Buffers-trans f g = record {
    same_pending = g.same_pending ∙ f.same_pending;
    same_nodes = g.same_nodes ∙ f.same_nodes;
    same_ids = g.same_ids ∙ f.same_ids;
    keeps = λ h. g.keeps (f.keeps h);
  }

  push_trigger-Buffers :
      (l : LoopState V) (name : String) (t : Trigger V) → Buffers l (push_trigger l name t)
  unfolding push_trigger
  push_trigger-Buffers l name t = record {
    same_pending = refl;
    same_nodes = refl;
    same_ids = refl;
    keeps = push_trigger-buffered l name t;
  }

  push_start_triggers-Buffers :
      (es : List Edge) (l : LoopState V) (t : Trigger V) → Buffers l (push_start_triggers l t es)
  unfolding push_start_triggers
  push_start_triggers-Buffers [] l t = Buffers-refl l
  push_start_triggers-Buffers (e ∷ es) l t =
      Buffers-trans (push_trigger-Buffers l e.to_node.name t)
        (push_start_triggers-Buffers es (push_trigger l e.to_node.name t) t)

module _ {V : Type 0} (c : Setting V) where
  Buffers-IsConsistent : (l m : LoopState V) → Buffers l m → IsConsistent c l → IsConsistent c m
  Buffers-IsConsistent l m b v = record {
    bounded = subst (λ p. IsWithin c.max_concurrency (length p)) (sym b.same_pending) v.bounded;
    running_iff = λ n. rw b.same_pending (rw b.same_nodes (v.running_iff n));
    buffered = b.keeps v.buffered;
    recorded = λ n. rw b.same_nodes (rw b.same_ids (v.recorded n));
  }

  new_loop-IsConsistent :
      (rehydrated : Dict (List (RehydratedNode V))) → IsConsistent c (new_loop rehydrated)
  new_loop-IsConsistent rehydrated = record {
    bounded = elim c.max_concurrency as (λ o. IsWithin o 0) [ none ↦ tt | some n ↦ zero_le n ];
    running_iff = λ n. refl;
    buffered = λ n. refl;
    recorded = λ n. inl refl;
  }
    where
      zero_le : (n : ℕ) → 0 ≤ n
      zero_le n = omega arith

  -- The loop before the first scheduling is consistent.
  pub seed_start_triggers-IsConsistent :
      (rehydrated : Dict (List (RehydratedNode V))) (v : Option V)
      → IsConsistent c (seed_start_triggers c.graph (new_loop rehydrated) v)
  unfolding seed_start_triggers
  seed_start_triggers-IsConsistent rehydrated v =
      Buffers-IsConsistent (new_loop rehydrated)
        (seed_start_triggers c.graph (new_loop rehydrated) v)
        (push_start_triggers-Buffers (start_edges c.graph.edges) (new_loop rehydrated) _)
        (new_loop-IsConsistent rehydrated)

  buffer_one-Buffers :
      (l m : LoopState V) (t : Trigger V) (target : String)
      → buffer_one c l t target ≡ some m
      → Buffers l m
  unfolding buffer_one
  buffer_one-Buffers l m t target h = elim (Option-cases (get_static_node c.graph target)) [
    | inl missing ↦ absurd (none_not_some (buffer_one c l t target) m (ground (arith, missing)) h)
    | inr (node, found) ↦ elim (Bool-cases node.requires_all_predecessors) [
      | inr any ↦
          let D : push_trigger l target t ≡ m = ground (arith, found, any, h) in
          subst (Buffers l) D (push_trigger-Buffers l target t)
      | inl each ↦ elim (Bool-cases (all_completed c l (predecessors c target))) [
        | inl all ↦
            let D : push_trigger l target (join_trigger c l target) ≡ m =
              ground (arith, found, each, all, h) in
            subst (Buffers l) D (push_trigger-Buffers l target (join_trigger c l target))
        | inr missing ↦
            let D : l ≡ m = ground (arith, found, each, missing, h) in
            subst (Buffers l) D (Buffers-refl l)
      ]
    ]
  ]

  buffer_all-Buffers :
      (targets : List String) (l m : LoopState V) (t : Trigger V)
      → buffer_all c l t targets ≡ some m
      → Buffers l m
  unfolding buffer_all
  buffer_all-Buffers [] l m t h = let D : l ≡ m = cc in subst (Buffers l) D (Buffers-refl l)
  buffer_all-Buffers (target ∷ targets) l m t h = elim (Option-cases (buffer_one c l t target)) [
    | inl e ↦ absurd (none_not_some (buffer_all c l t (target ∷ targets)) m (ground (arith, e)) h)
    | inr (k, e) ↦
        Buffers-trans (buffer_one-Buffers l k t target e)
          (buffer_all-Buffers targets k m t (ground (arith, e, h)))
  ]

  -- A loop from which the task of a node went, and whose node does not run any more.
  settled-IsConsistent :
      (l m : LoopState V) (name : String) (s : NodeState V)
      → IsConsistent c l
      → m.pending ≡ remove name l.pending
      → m.nodes ≡ put name s l.nodes
      → m.trigger_buffer ≡ l.trigger_buffer
      → is_running s.status ≡ false
      → ((has_interrupts (lookup name l.nodes) ≡ not (is_nil s.interrupts))
          × (m.interrupt_ids ≡ l.interrupt_ids))
        ⊎ (is_nil m.interrupt_ids ≡ false)
      → IsConsistent c m
  settled-IsConsistent l m name s v p n b r i = record {
    bounded =
        let le =
          IsWithin-le c.max_concurrency (length l.pending) (length (remove name l.pending))
            v.bounded (length-remove_le name l.pending) in
        subst (λ q. IsWithin c.max_concurrency (length q)) (sym p) le;
    running_iff = λ j. rw p (
        rw n (
          ground
            (arith, has-remove name j l.pending, lookup-put name j s l.nodes, v.running_iff j, r)));
    buffered = λ j. rw b (v.buffered j);
    recorded = λ j. elim i [
      | inr some_ids ↦ inr some_ids
      | inl (same, ids) ↦
          rw n (
            rw ids (ground (arith, lookup-put name j s l.nodes, v.recorded j, eq_iff name j, same)))
    ];
  }

  state_of_interrupts :
      (l : LoopState V) (name : String)
      → has_interrupts (lookup name l.nodes) ≡ not (is_nil (state_of l name).interrupts)
  state_of_interrupts l name = ground arith

  -- Handling a completion keeps the loop consistent, once the task is gone.
  pub handle_completion-IsConsistent :
      (l m : LoopState V) (name : String) (r : NodeResult V)
      → IsConsistent c l
      → handle_completion c (record l { pending = remove name l.pending }) name r ≡ some m
      → IsConsistent c m
  unfolding handle_completion buffer_downstream_triggers
  handle_completion-IsConsistent l m name r v h =
      let k = record l { pending = remove name l.pending } in
      let s = state_of l name in
      let old = state_of_interrupts l name in
      elim (Option-cases (get_static_node c.graph name)) [
        | inl missing ↦
            absurd (none_not_some (handle_completion c k name r) m (ground (arith, missing)) h)
        | inr (node, found) ↦ elim (Bool-cases (is_nil r.interrupt_ids)) [
          | inr asks ↦
              let s' = record s { status = waiting; interrupts = r.interrupt_ids } in
              let w = record (with_node k name s') {
                interrupt_ids = insert_all l.interrupt_ids r.interrupt_ids;
              } in
              let D : w ≡ m = ground (arith, found, asks, h) in
              subst (IsConsistent c) D (
                settled-IsConsistent l w name s' v refl refl refl refl
                  (inr (insert_all_nonempty r.interrupt_ids l.interrupt_ids asks)))
          | inl done ↦
              elim (Bool-cases (node.wait_for_output && (is_none r.output && is_none r.route))) [
                | inl waits ↦
                    let s' = record s { status = waiting } in
                    let w = with_node k name s' in
                    let D : w ≡ m = ground (arith, found, done, waits, h) in
                    subst (IsConsistent c) D
                      (settled-IsConsistent l w name s' v refl refl refl refl (inl (old, refl)))
                | inr gives ↦
                    let s' = record s { status = completed } in
                    let w = completed_loop k name r in
                    let D : buffer_downstream_triggers c w name r ≡ some m =
                      ground (arith, found, done, gives, h) in
                    Buffers-IsConsistent w m (buffer_all-Buffers _ w m _ D)
                      (settled-IsConsistent l w name s' v refl refl refl refl (inl (old, refl)))
              ]
        ]
      ]
