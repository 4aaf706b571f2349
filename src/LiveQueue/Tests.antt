-- ===== src/LiveQueue/Tests.antt =====
-- A queue of texts at work, and the theorems of the siblings at concrete queues.
use adk_js.Prelude.{ℕ, ◌≡◌, refl, true, false, String, some, List, [], ◌∷◌, arith}
use adk_js.LiveQueue.{
  Genai, LiveRequest, blank_request, close_request, resolved, aborted, LiveRequestQueue, new_queue,
  Op, send_op, get_op, abort_op, close_op, run, iterate, step,
}
use adk_js.LiveQueue.Order.{IsWellFormed, IsFifo, accepted, live_run-IsFifo}
use adk_js.LiveQueue.Iterate.{iterate_closed}

abbrev texts : Genai
texts = record {
  Content = String;
  Blob = ℕ;
  ActivityStart = Unit;
  ActivityEnd = Unit;
  empty_start = tt;
  empty_end = tt;
}

abbrev say : String → LiveRequest texts
say s = record (blank_request texts) { content = some s }

-- Two readers wait, one gives up, three requests come, the queue is closed, and one more is refused.
abbrev ops : List (Op texts)
ops =
    get_op false
    ∷ get_op false
    ∷ abort_op 0
    ∷ send_op (say "a")
    ∷ send_op (say "b")
    ∷ send_op (say "c")
    ∷ close_op
    ∷ send_op (say "d")
    ∷ []

run_example :
    ((run (new_queue texts) ops).settled ≡ (0, aborted) ∷ (1, resolved (say "a")) ∷ [])
    × ((run (new_queue texts) ops).queue ≡ say "b" ∷ say "c" ∷ [])
unfolding run step
run_example = (refl, refl)

live_run-IsFifo_example :
    IsWellFormed (run (new_queue texts) ops)
    × IsFifo (accepted (new_queue texts) ops) (run (new_queue texts) ops)
live_run-IsFifo_example = live_run-IsFifo {g = texts} ops

abbrev closed : LiveRequestQueue texts
closed = record (new_queue texts) { queue = say "b" ∷ say "c" ∷ []; is_closed = true }

iterate_closed_example : iterate 3 closed ≡ (say "b" ∷ say "c" ∷ close_request texts ∷ [], true)
iterate_closed_example = iterate_closed 3 closed refl (refl, (refl, tt)) (omega arith)
