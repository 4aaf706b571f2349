-- ===== src/LiveQueue.antt =====
-- core/src/agents/live_request_queue.ts: the queue between the user's side of a live connection and
-- the model's. A promise is a number, and `settled` lists what the promises were settled with, in
-- order. The types of @google/genai are a parameter.
pub mod Order
pub mod Iterate
mod Tests
use adk_js.Prelude.{
  ℕ, zero, suc, ◌+◌, Bool, true, false, Option, none, some, List, [], ◌∷◌, ◌++◌, map, ◌==◌,
  if◌then◌else◌,
}

-- What the queue takes from @google/genai: four types, and the `{}` of the two signals.
pub record Genai : Type 1 where
  pub Content : Type 0
  pub Blob : Type 0
  pub ActivityStart : Type 0
  pub ActivityEnd : Type 0
  pub empty_start : ActivityStart
  pub empty_end : ActivityEnd

pub record LiveRequest (g : Genai) : Type 0 where
  pub content : Option g.Content
  pub blob : Option g.Blob
  pub activity_start : Option g.ActivityStart
  pub activity_end : Option g.ActivityEnd
  pub close : Bool

abbrev pub blank_request : (g : Genai) → LiveRequest g
blank_request g = record {
  content = none;
  blob = none;
  activity_start = none;
  activity_end = none;
  close = false;
}

abbrev pub close_request : (g : Genai) → LiveRequest g
close_request g = record (blank_request g) { close = true }

pub data Outcome (g : Genai) : Type 0 where
  resolved : LiveRequest g → Outcome g
  aborted : Outcome g

pub record LiveRequestQueue (g : Genai) : Type 0 where
  pub queue : List (LiveRequest g)
  pub resolve_fns : List ℕ
  pub is_closed : Bool
  pub settled : List (ℕ × Outcome g)
  pub next_promise : ℕ

abbrev pub new_queue : (g : Genai) → LiveRequestQueue g
new_queue g = record {
  queue = [];
  resolve_fns = [];
  is_closed = false;
  settled = [];
  next_promise = 0;
}

abbrev remove : ℕ → List ℕ → List ℕ
remove i [] = []
remove i (j ∷ js) = if i == j then js else j ∷ remove i js

abbrev contains : ℕ → List ℕ → Bool
contains i [] = false
contains i (j ∷ js) = if i == j then true else contains i js

module _ {g : Genai} where
  -- `none` is the error that a closed queue throws.
  send : LiveRequest g → LiveRequestQueue g → Option (LiveRequestQueue g)
  send req q =
      if q.is_closed
      then none
      else some (elim q.resolve_fns [
        | [] ↦ record q { queue = q.queue ++ req ∷ [] }
        | i ∷ is ↦ record q { resolve_fns = is; settled = q.settled ++ (i, resolved req) ∷ [] }
      ])

  settle_new : Outcome g → LiveRequestQueue g → LiveRequestQueue g
  settle_new o q = record q {
    settled = q.settled ++ (q.next_promise, o) ∷ [];
    next_promise = suc q.next_promise;
  }

  -- The Boolean is `abortSignal?.aborted`.
  get : Bool → LiveRequestQueue g → LiveRequestQueue g
  unfolding settle_new
  get is_aborted q = elim q.queue [
    | r ∷ rs ↦ settle_new (resolved r) (record q { queue = rs })
    | [] ↦
        if q.is_closed
        then settle_new (resolved (close_request g)) q
        else if is_aborted
        then settle_new aborted q
        else record q {
          resolve_fns = q.resolve_fns ++ q.next_promise ∷ [];
          next_promise = suc q.next_promise;
        }
  ]

  -- `onAbort` of the parked promise `i`. A promise that is settled has dropped its listener.
  abort : ℕ → LiveRequestQueue g → LiveRequestQueue g
  abort i q =
      if contains i q.resolve_fns
      then record q {
        resolve_fns = remove i q.resolve_fns;
        settled = q.settled ++ (i, aborted) ∷ [];
      }
      else q

  -- The first loop of `close`: what is left of both lists, and the promises that it resolves.
  satisfy : List ℕ → List (LiveRequest g) → List ℕ × List (LiveRequest g) × List (ℕ × Outcome g)
  satisfy [] rs = ([], rs, [])
  satisfy (i ∷ is) [] = (i ∷ is, [], [])
  satisfy (i ∷ is) (r ∷ rs) = let rest = satisfy is rs in (rest.0, rest.1, (i, resolved r) ∷ rest.2)

  abbrev end_signal : ℕ → ℕ × Outcome g
  end_signal i = (i, resolved (close_request g))

  close : LiveRequestQueue g → LiveRequestQueue g
  unfolding satisfy
  close q =
      if q.is_closed
      then q
      else (let rest = satisfy q.resolve_fns q.queue in
          record q {
            is_closed = true;
            queue = rest.1;
            resolve_fns = [];
            settled = q.settled ++ (rest.2 ++ map end_signal rest.0);
          })

  send_content : g.Content → LiveRequestQueue g → Option (LiveRequestQueue g)
  send_content c = send (record (blank_request g) { content = some c })

  send_realtime : g.Blob → LiveRequestQueue g → Option (LiveRequestQueue g)
  send_realtime b = send (record (blank_request g) { blob = some b })

  send_activity_start : LiveRequestQueue g → Option (LiveRequestQueue g)
  send_activity_start = send (record (blank_request g) { activity_start = some g.empty_start })

  send_activity_end : LiveRequestQueue g → Option (LiveRequestQueue g)
  send_activity_end = send (record (blank_request g) { activity_end = some g.empty_end })

  -- The requests that the async iterator yields, and whether it broke off at a close signal; with
  -- `false` it still waits for a request, or the fuel ran out.
  pub iterate : ℕ → LiveRequestQueue g → List (LiveRequest g) × Bool
  iterate zero q = ([], false)
  iterate (suc fuel) q = elim q.queue [
    | r ∷ rs ↦
        let rest = iterate fuel (get false q) in
        if r.close then (r ∷ [], true) else (r ∷ rest.0, rest.1)
    | [] ↦ if q.is_closed then (close_request g ∷ [], true) else ([], false)
  ]

-- What the program does to a queue, in any order.
pub data Op (g : Genai) : Type 0 where
  send_op : LiveRequest g → Op g
  get_op : Bool → Op g
  abort_op : ℕ → Op g
  close_op : Op g

module _ {g : Genai} where
  abbrev or_unchanged : LiveRequestQueue g → Option (LiveRequestQueue g) → LiveRequestQueue g
  or_unchanged q none = q
  or_unchanged q (some q') = q'

  pub step : LiveRequestQueue g → Op g → LiveRequestQueue g
  unfolding send get abort close
  step q (send_op r) = or_unchanged q (send r q)
  step q (get_op b) = get b q
  step q (abort_op i) = abort i q
  step q close_op = close q

  pub run : LiveRequestQueue g → List (Op g) → LiveRequestQueue g
  run q [] = q
  run q (op ∷ ops) = run (step q op) ops
