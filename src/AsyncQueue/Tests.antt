-- ===== src/AsyncQueue/Tests.antt =====
-- A queue of numbers with texts as errors, and the theorems of `Order` at it.
use adk_js.Prelude.{ℕ, ◌≡◌, refl, String, true, some, List, [], ◌∷◌}
use adk_js.AsyncQueue.{
  AsyncQueue, Op, push_op, fail_op, close_op, next_op, value, rejected, new_queue, step, run,
}
use adk_js.AsyncQueue.Order.{IsWellFormed, IsOrdered, accepted, async_run-IsOrdered, run-failure}

abbrev ops : List (Op ℕ String)
ops =
    next_op
    ∷ push_op 1
    ∷ push_op 2
    ∷ fail_op "a"
    ∷ close_op
    ∷ fail_op "b"
    ∷ push_op 3
    ∷ next_op
    ∷ next_op
    ∷ []

run_example :
    (run (new_queue ℕ String) ops).settled ≡ (0, value 1) ∷ (1, value 2) ∷ (2, rejected "a") ∷ []
unfolding run step
run_example = refl

async_run-IsOrdered_example :
    IsWellFormed (run (new_queue ℕ String) ops)
    × IsOrdered (accepted (new_queue ℕ String) ops) (run (new_queue ℕ String) ops)
async_run-IsOrdered_example = async_run-IsOrdered {T = ℕ} {E = String} ops

abbrev failed : AsyncQueue ℕ String
failed = record (new_queue ℕ String) { queue = 1 ∷ []; closed = true; failure = some "a" }

run-failure_example : (run failed ops).failure ≡ some "a"
run-failure_example = run-failure failed ops "a" refl
