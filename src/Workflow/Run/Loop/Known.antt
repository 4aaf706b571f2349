-- ===== src/Workflow/Run/Loop/Known.antt =====
-- Scheduling and buffering in core/src/workflow/workflow.ts do not throw for names of the graph's nodes.
use adk_js.Prelude.{
  ◌≡◌, refl, sym, ap, ◌∙◌, inl, inr, String, true, false, Option, none, some, List, [], ◌∷◌, ◌++◌,
  All, arith, eq_iff, str_eq, Bool-cases, Option-cases,
}
use adk_js.Prelude.Dict.{Dict, lookup, has, lookup-put, lookup-remove}
use adk_js.Prelude.Names.{insert, All-of_contains}
use adk_js.Workflow.Graph.{BaseNode}
use adk_js.Workflow.Graph.Nodes.{is_named}
use adk_js.Workflow.Run.State.{LoopState, Setting, Trigger, running}
use adk_js.Workflow.Run.{
  find_node, push_trigger, triggers_or_nil, keys, put_rest, prepare_node_state_for_starting,
  counter_of, create_node_state,
}
use adk_js.Workflow.Run.Loop.{
  Visit, skip, stop, start, throw, visit, start_node_task, schedule, schedule_ready_nodes,
  buffer_one, buffer_all, join_trigger, predecessors, all_completed, settled, take_prior,
}
use adk_js.Workflow.Run.Loop.Consistent.{has-put}
use adk_js.Workflow.Run.Loop.Starting.{start_node_task-Started}
use adk_js.Workflow.Run.Loop.Quiet.{keys-contains}
use adk_js.Workflow.Run.Loop.Scheduling.{
  CanStart, Visited, skips, stops, starts, throws, visit-Visited, prepared,
}

pub find_node_named :
    (ns : List BaseNode) (name : String)
    → is_named ns name ≡ true
    → (n : BaseNode) × (find_node ns name ≡ some n)
find_node_named (n ∷ ns) name h = elim (Bool-cases (str_eq n.name name)) [
  | inl e ↦ (n, ground (arith, e))
  | inr e ↦ let (m, k) = find_node_named ns name (ground (arith, e, h)) in (m, ground (arith, e, k))
]
find_node_named [] name h = absurd (false_not_true h)
  where
    false_not_true : false ≡ true → ⊥
    false_not_true k = cc

module _ {V : Type 0} (c : Setting V) where
  -- Pending tasks and buffered triggers belong to nodes of the graph.
  pub record IsKnown (l : LoopState V) : Type 0 where
    pub tasks : (n : String) → has n l.pending ≡ true → is_named c.graph.nodes n ≡ true
    pub triggers : (n : String) → has n l.trigger_buffer ≡ true → is_named c.graph.nodes n ≡ true

  start_node_task_total :
      (l : LoopState V) (name : String) (t : Trigger V)
      → is_named c.graph.nodes name ≡ true
      → start_node_task c l name t ≡ none
      → ⊥
  unfolding start_node_task
  start_node_task_total l name t h e =
      let (node, found) = find_node_named c.graph.nodes name h in
      elim (Option-cases
        (settled c node (take_prior (record l { activated = insert name l.activated }) name).0)) [
          | inl a ↦ ground (arith, found, a, e)
          | inr (r, a) ↦ ground (arith, found, a, e)
        ]

  put_rest_known :
      (name n : String) (ts : List (Trigger V)) (d : Dict (List (Trigger V)))
      → has name d ≡ true
      → has n (put_rest name ts d) ≡ true
      → has n d ≡ true
  put_rest_known name n [] d h k = ground (arith, lookup-remove name n d, k, h, eq_iff name n)
  put_rest_known name n (t ∷ ts) d h k =
      ground (arith, lookup-put name n (t ∷ ts) d, k, h, eq_iff name n)

  CanStart-IsKnown :
      (l l' : LoopState V) (name : String) → IsKnown l → CanStart c l l' name → IsKnown l'
  unfolding prepare_node_state_for_starting
  CanStart-IsKnown l l' name v s =
      let cut = record l { trigger_buffer = put_rest name s.others l.trigger_buffer } in
      let m = prepare_node_state_for_starting cut name s.first in
      let state = record (create_node_state (counter_of (lookup name l.nodes))) {
        input = s.first.input;
        status = running;
      } in
      let t =
        start_node_task-Started c m l' name s.first state (prepared c cut name s.first) s.task in
      let there : has name l.trigger_buffer ≡ true = ground (arith, s.buffer) in
      record {
        tasks = λ n h.
            ground (arith, t.pending_of n, h, v.tasks n, v.triggers name, there, eq_iff name n);
        triggers = λ n h. v.triggers n (
            put_rest_known name n s.others l.trigger_buffer there
              (sym (ap (λ d. has n d) t.same_buffer) ∙ h));
      }

  -- A scheduling over names of the graph does not throw.
  abbrev pub Goes : Option (LoopState V) → Type 0
  Goes o = (l : LoopState V) × (o ≡ some l) × IsKnown l

  schedule_step :
      (name : String) (names : List String) (l : LoopState V) (v : Visit c)
      → ((k : LoopState V) → IsKnown k → Goes (schedule c k names))
      → IsKnown l
      → is_named c.graph.nodes name ≡ true
      → Visited c l name v
      → visit c l name ≡ v
      → Goes (schedule c l (name ∷ names))
  unfolding schedule
  schedule_step name names l skip IH k h (skips _) e =
      let (l', d, k') = IH l k in (l', ground (arith, e, d), k')
  schedule_step name names l stop IH k h (stops _) e = (l, ground (arith, e), k)
  schedule_step name names l (start m) IH k h (starts s) e =
      let (l', d, k') = IH m (CanStart-IsKnown l m name k s) in (l', ground (arith, e, d), k')
  schedule_step name names l throw IH k h (throws m t missing) e =
      absurd (start_node_task_total m name t h missing)

  schedule-Goes :
      (names : List String) (l : LoopState V)
      → All (λ n. is_named c.graph.nodes n ≡ true) names
      → IsKnown l
      → Goes (schedule c l names)
  unfolding schedule
  schedule-Goes [] l a k = (l, refl, k)
  schedule-Goes (name ∷ names) l (h, a) k =
      schedule_step name names l (visit c l name) (λ m. schedule-Goes names m a) k h
        (visit-Visited c l name) refl

  -- The buffer's names are of the graph, so the scheduling of ready nodes does not throw.
  pub schedule_ready_nodes-Goes : (l : LoopState V) → IsKnown l → Goes (schedule_ready_nodes c l)
  unfolding schedule_ready_nodes
  schedule_ready_nodes-Goes l k =
      schedule-Goes (keys l.trigger_buffer) l
        (All-of_contains (keys l.trigger_buffer) (λ n. is_named c.graph.nodes n ≡ true)
          (λ n h. k.triggers n (sym (keys-contains l.trigger_buffer n) ∙ h)))
        k

  pub push_trigger-IsKnown :
      (l : LoopState V) (name : String) (t : Trigger V)
      → is_named c.graph.nodes name ≡ true
      → IsKnown l
      → IsKnown (push_trigger l name t)
  unfolding push_trigger
  push_trigger-IsKnown l name t h k = record {
    tasks = k.tasks;
    triggers = λ n e. ground (
      arith,
      has-put name n (triggers_or_nil (lookup name l.trigger_buffer) ++ t ∷ []) l.trigger_buffer,
      e,
      h,
      k.triggers n,
      eq_iff name n,
    );
  }

  buffer_one-Goes :
      (l : LoopState V) (t : Trigger V) (target : String)
      → is_named c.graph.nodes target ≡ true
      → IsKnown l
      → Goes (buffer_one c l t target)
  unfolding buffer_one
  buffer_one-Goes l t target h k =
      let (node, found) = find_node_named c.graph.nodes target h in
      elim (Bool-cases node.requires_all_predecessors) [
        | inr any ↦ (
          push_trigger l target t,
          ground (arith, found, any),
          push_trigger-IsKnown l target t h k,
        )
        | inl each ↦ elim (Bool-cases (all_completed c l (predecessors c target))) [
          | inl all ↦ (
            push_trigger l target (join_trigger c l target),
            ground (arith, found, each, all),
            push_trigger-IsKnown l target (join_trigger c l target) h k,
          )
          | inr missing ↦ (l, ground (arith, found, each, missing), k)
        ]
      ]

  pub buffer_all-Goes :
      (targets : List String) (l : LoopState V) (t : Trigger V)
      → All (λ n. is_named c.graph.nodes n ≡ true) targets
      → IsKnown l
      → Goes (buffer_all c l t targets)
  unfolding buffer_all
  buffer_all-Goes [] l t a k = (l, refl, k)
  buffer_all-Goes (target ∷ targets) l t (h, a) k =
      let (m, e, km) = buffer_one-Goes l t target h k in
      let (l', d, k') = buffer_all-Goes targets m t a km in (l', ground (arith, e, d), k')
