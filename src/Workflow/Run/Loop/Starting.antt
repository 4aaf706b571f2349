-- ===== src/Workflow/Run/Loop/Starting.antt =====
-- What starting a node's task leaves of the loop of core/src/workflow/workflow.ts.
use mathlib.Core.Path.{subst}
use adk_js.Prelude.{
  suc, ◌≤◌, ◌≡◌, ap, inl, inr, String, true, not, some, length, arith, eq_iff, str_eq, Option-cases,
  if◌then◌else◌,
}
use adk_js.Prelude.Dict.{lookup, put, has, lookup-put}
use adk_js.Prelude.Names.{contains, insert}
use adk_js.Workflow.Run.State.{NodeState, Trigger, Task, resolved, executing, LoopState, Setting}
use adk_js.Workflow.Run.{is_running, is_nil, get_static_node}
use adk_js.Workflow.Run.Loop.{
  start_node_task, with_pending, take_prior, with_run_id, settled, input_for, state_of,
}
use adk_js.Workflow.Run.Loop.Consistent.{
  none_not_some, length-put_le, length-put_pos, has-put, is_running_state, has_interrupts,
}

module _ {V : Type 0} where
  -- What a started task leaves of the loop.
  pub record Started (l l' : LoopState V) (name : String) : Type 0 where
    pub more : length l'.pending ≤ suc (length l.pending)
    pub some_pending : 1 ≤ length l'.pending
    pub pending_of :
        (n : String) → has n l'.pending ≡ (if str_eq name n then true else has n l.pending)
    pub same_buffer : l'.trigger_buffer ≡ l.trigger_buffer
    pub same_ids : l'.interrupt_ids ≡ l.interrupt_ids
    pub running_of :
        (n : String)
        → is_running_state (lookup n l'.nodes) ≡ (
            if str_eq name n
            then is_running (state_of l name).status
            else is_running_state (lookup n l.nodes))
    pub interrupts_of :
        (n : String)
        → has_interrupts (lookup n l'.nodes) ≡ (
            if str_eq name n
            then not (is_nil (state_of l name).interrupts)
            else has_interrupts (lookup n l.nodes))

  take_prior_rest :
      (l : LoopState V) (name : String)
      → ((take_prior l name).1.pending ≡ l.pending)
        × ((take_prior l name).1.trigger_buffer ≡ l.trigger_buffer)
        × ((take_prior l name).1.interrupt_ids ≡ l.interrupt_ids)
        × ((take_prior l name).1.nodes ≡ l.nodes)
  take_prior_rest l name = (ground arith, ground arith, ground arith, ground arith)

  -- The state that a started task's node has.
  with_run_id_rest :
      (s : NodeState V)
      → ((with_run_id s).status ≡ s.status) × ((with_run_id s).interrupts ≡ s.interrupts)
  with_run_id_rest s = (ground arith, ground arith)

  Started-resolved :
      (l m : LoopState V) (name : String) (task : Task V) (s : NodeState V)
      → lookup name l.nodes ≡ some s
      → m.pending ≡ l.pending
      → m.trigger_buffer ≡ l.trigger_buffer
      → m.interrupt_ids ≡ l.interrupt_ids
      → m.nodes ≡ l.nodes
      → Started l (with_pending m name task) name
  Started-resolved l m name task s here p b i n = record {
    more = rw p (length-put_le name task l.pending);
    some_pending = length-put_pos name task m.pending;
    pending_of = λ j. rw p (has-put name j task l.pending);
    same_buffer = b;
    same_ids = i;
    running_of = λ j. rw n (ground (arith, here, eq_iff name j));
    interrupts_of = λ j. rw n (ground (arith, here, eq_iff name j));
  }

  Started-executing :
      (l m : LoopState V) (name : String) (task : Task V) (s : NodeState V)
      → lookup name l.nodes ≡ some s
      → m.pending ≡ l.pending
      → m.trigger_buffer ≡ l.trigger_buffer
      → m.interrupt_ids ≡ l.interrupt_ids
      → m.nodes ≡ l.nodes
      → Started l
          (with_pending
            (record m { nodes = put name (with_run_id (state_of l name)) m.nodes })
            name
            task)
          name
  Started-executing l m name task s here p b i n =
      let state = with_run_id (state_of l name) in
      let (rs, ri) = with_run_id_rest (state_of l name) in
      record {
        more = rw p (length-put_le name task l.pending);
        some_pending = length-put_pos name task m.pending;
        pending_of = λ j. rw p (has-put name j task l.pending);
        same_buffer = b;
        same_ids = i;
        running_of = λ j. rw n (ground (arith, lookup-put name j state l.nodes, ap is_running rs));
        interrupts_of = λ j. rw n (ground (arith, lookup-put name j state l.nodes, ri));
      }

module _ {V : Type 0} (c : Setting V) where
  pub start_node_task-Started :
      (l l' : LoopState V) (name : String) (t : Trigger V) (s : NodeState V)
      → lookup name l.nodes ≡ some s
      → start_node_task c l name t ≡ some l'
      → Started l l' name
  unfolding start_node_task
  start_node_task-Started l l' name t s here e =
      let l₁ = record l { activated = insert name l.activated } in
      let (p, b, i, n) = take_prior_rest l₁ name in
      let m = (take_prior l₁ name).1 in
      elim (Option-cases (get_static_node c.graph name)) [
        | inl missing ↦
            absurd (none_not_some (start_node_task c l name t) l' (ground (arith, missing)) e)
        | inr (node, found) ↦ elim (Option-cases (settled c node (take_prior l₁ name).0)) [
          | inr (r, done) ↦
              let D : with_pending m name (resolved r) ≡ l' = ground (arith, found, done, e) in
              subst (λ x. Started l x name) D
                (Started-resolved l m name (resolved r) s here p b i n)
          | inl runs ↦
              let state = with_run_id (state_of l name) in
              let task : Task V = executing (record {
                run_id = state.run_id;
                input = input_for c (take_prior l₁ name).0 t;
                repeat_activation = contains name l.activated;
                use_sub_branch = t.use_sub_branch;
                branch = t.branch;
                isolation_scope = t.isolation_scope;
              }) in
              let D : with_pending (record m { nodes = put name state m.nodes }) name task ≡ l' =
                ground (arith, found, runs, e) in
              subst (λ x. Started l x name) D (Started-executing l m name task s here p b i n)
        ]
      ]
