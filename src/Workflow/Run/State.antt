-- ===== src/Workflow/Run/State.antt =====
-- What the orchestration of core/src/workflow/workflow.ts keeps: `LoopState`, with node_state.ts,
-- node_status.ts, trigger.ts, and what it takes from earlier turns (utils/rehydration_utils.ts). `V` is
-- the type of inputs and outputs. A run id that the loop makes is the number whose decimal it is.
use adk_js.Prelude.{ℕ, String, Bool, Option, List}
use adk_js.Prelude.Dict.{Dict}
use adk_js.Workflow.Graph.{Graph, Routes}

pub data NodeStatus : Type 0 where
  inactive : NodeStatus
  pending : NodeStatus
  running : NodeStatus
  completed : NodeStatus
  waiting : NodeStatus
  failed : NodeStatus
  cancelled : NodeStatus

module _ (V : Type 0) where
  -- The fields that the loop sets or reads. What a node's run does to its attempt count is its own.
  pub record NodeState : Type 0 where
    pub status : NodeStatus
    pub input : Option V
    pub interrupts : List String
    pub run_counter : ℕ
    pub run_id : Option ℕ

  pub record Trigger : Type 0 where
    pub input : Option V
    pub use_sub_branch : Bool
    pub branch : Option String
    pub isolation_scope : Option String

  pub record NodeResult : Type 0 where
    pub output : Option V
    pub route : Option Routes
    pub branch : Option String
    pub interrupt_ids : List String

  pub record RehydratedNode : Type 0 where
    pub output : Option V
    pub route : Option Routes
    pub branch : Option String
    pub input : Option V
    pub interrupt_ids : List String
    pub resolved_responses : Dict V

  -- The arguments of `executeChildNode`; with a repeated activation the node gets no resume inputs.
  pub record Execution : Type 0 where
    pub run_id : Option ℕ
    pub input : Option V
    pub repeat_activation : Bool
    pub use_sub_branch : Bool
    pub branch : Option String
    pub isolation_scope : Option String

  -- A promise in `pending`: one that is resolved at once, or a node that runs.
  pub data Task : Type 0 where
    resolved : NodeResult → Task
    executing : Execution → Task

  pub record LoopState : Type 0 where
    pub nodes : Dict NodeState
    pub node_outputs : Dict V
    pub node_branches : Dict String
    pub trigger_buffer : Dict (List Trigger)
    pub pending : Dict Task
    pub interrupt_ids : List String
    pub rehydrated : Dict (List RehydratedNode)
    pub activated : List String
    pub error_shut_down : Bool

  -- What the loop reads and does not change: the workflow, the context's branch and the answers to
  -- interrupts. An object of outputs and an array of answers are values that the program makes.
  pub record Setting : Type 0 where
    pub graph : Graph
    pub max_concurrency : Option ℕ
    pub branch : Option String
    pub resume_inputs : Dict V
    pub object_of : List (String × Option V) → V
    pub array_of : List V → V
