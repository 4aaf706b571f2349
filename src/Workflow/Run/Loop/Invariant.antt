-- ===== src/Workflow/Run/Loop/Invariant.antt =====
-- Every loop that core/src/workflow/workflow.ts reaches is consistent.
use adk_js.Prelude.{arith, inl, inr, ◌≡◌, String, Option, some, List, Option-cases}
use adk_js.Prelude.Dict.{Dict, remove}
use adk_js.Workflow.Run.State.{RehydratedNode, LoopState, Setting, NodeResult}
use adk_js.Workflow.Run.{seed_start_triggers, new_loop, keys}
use adk_js.Workflow.Run.Loop.{
  schedule_ready_nodes, handle_completion, complete_round, begin, Reaches, begins, completes,
}
use adk_js.Workflow.Run.Loop.Consistent.{none_not_some, IsConsistent}
use adk_js.Workflow.Run.Loop.Scheduling.{schedule_lem}
use adk_js.Workflow.Run.Loop.Completing.{
  seed_start_triggers-IsConsistent, handle_completion-IsConsistent,
}

module _ {V : Type 0} (c : Setting V) where
  -- A loop that a scheduling ends, of one that is consistent.
  pub record Ready (l : LoopState V) : Type 0 where
    pub before : LoopState V
    pub before_consistent : IsConsistent c before
    pub scheduled : schedule_ready_nodes c before ≡ some l

  complete_round-Ready :
      (l m : LoopState V) (name : String) (r : NodeResult V)
      → IsConsistent c l
      → complete_round c l name r ≡ some m
      → Ready m
  unfolding complete_round
  complete_round-Ready l m name r v h =
      let k = record l { pending = remove name l.pending } in
      elim (Option-cases (handle_completion c k name r)) [
        | inl e ↦ absurd (none_not_some (complete_round c l name r) m (ground (arith, e)) h)
        | inr (b, e) ↦ record {
          before = b;
          before_consistent = handle_completion-IsConsistent c l b name r v e;
          scheduled = ground (arith, e, h);
        }
      ]

  Ready-IsConsistent : (l : LoopState V) → Ready l → IsConsistent c l
  unfolding schedule_ready_nodes
  Ready-IsConsistent l r =
      (schedule_lem c (keys r.before.trigger_buffer) r.before l r.before_consistent r.scheduled).0

  pub Reaches-Ready :
      (rehydrated : Dict (List (RehydratedNode V))) (node_input : Option V) (l : LoopState V)
      → Reaches c rehydrated node_input l
      → Ready l
  unfolding begin
  Reaches-Ready rehydrated node_input l (begins h) = record {
    before = seed_start_triggers c.graph (new_loop rehydrated) node_input;
    before_consistent = seed_start_triggers-IsConsistent c rehydrated node_input;
    scheduled = h;
  }
  Reaches-Ready rehydrated node_input m (completes {l = l} name task r reached _ _ h) =
      complete_round-Ready l m name r
        (Ready-IsConsistent l (Reaches-Ready rehydrated node_input l reached)) h

  -- Whatever tasks complete, in any order and with any results: before each race of the loop, the
  -- number of pending tasks keeps to `maxConcurrency`; a node has a pending task just when its status
  -- is RUNNING; no list in the trigger buffer is empty; and if a node has interrupts, then the loop
  -- has recorded some.
  pub Reaches-IsConsistent :
      (rehydrated : Dict (List (RehydratedNode V))) (node_input : Option V) (l : LoopState V)
      → Reaches c rehydrated node_input l
      → IsConsistent c l
  Reaches-IsConsistent rehydrated node_input l h =
      Ready-IsConsistent l (Reaches-Ready rehydrated node_input l h)
