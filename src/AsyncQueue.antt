-- ===== src/AsyncQueue.antt =====
-- core/src/utils/async_queue.ts: the single-consumer queue that bridges a pushing producer to an
-- async iterator. A promise is a number; `settled` lists the settled promises in order.
pub mod Order
mod Tests
use adk_js.Prelude.{
  ℕ, suc, Bool, true, false, Option, none, some, List, [], ◌∷◌, ◌++◌, map, length, if◌then◌else◌,
}

-- How a promise of `next()` was settled: a value, the end of the iteration, or an error.
pub data Outcome (T E : Type 0) : Type 0 where
  value : T → Outcome T E
  done : Outcome T E
  rejected : E → Outcome T E

pub record AsyncQueue (T E : Type 0) : Type 0 where
  pub queue : List T
  pub resolvers : List ℕ
  pub closed : Bool
  pub failure : Option E
  pub settled : List (ℕ × Outcome T E)
  pub next_promise : ℕ

abbrev pub new_queue : (T E : Type 0) → AsyncQueue T E
new_queue T E = record {
  queue = [];
  resolvers = [];
  closed = false;
  failure = none;
  settled = [];
  next_promise = 0;
}

pub data Op (T E : Type 0) : Type 0 where
  push_op : T → Op T E
  fail_op : E → Op T E
  error_op : E → Op T E
  close_op next_op : Op T E

module _ {T E : Type 0} where
  size : AsyncQueue T E → ℕ
  size q = length q.queue

  push : T → AsyncQueue T E → AsyncQueue T E
  push v q = if q.closed then q else (elim q.resolvers [
    | [] ↦ record q { queue = q.queue ++ v ∷ [] }
    | i ∷ is ↦ record q { resolvers = is; settled = q.settled ++ (i, value v) ∷ [] }
  ])

  abbrev settle_all : Outcome T E → List ℕ → List (ℕ × Outcome T E)
  settle_all o is = map (λ i. (i, o)) is

  fail : E → AsyncQueue T E → AsyncQueue T E
  fail e q = elim q.failure [
    | some first ↦ q
    | none ↦ record q {
      failure = some e;
      closed = true;
      resolvers = [];
      settled = q.settled ++ settle_all (rejected e) q.resolvers;
    }
  ]

  error : E → AsyncQueue T E → AsyncQueue T E
  unfolding fail
  error e q = fail e q

  close : AsyncQueue T E → AsyncQueue T E
  close q = if q.closed then q else record q {
    closed = true;
    resolvers = [];
    settled = q.settled ++ settle_all done q.resolvers;
  }

  settle_new : Outcome T E → AsyncQueue T E → AsyncQueue T E
  settle_new o q = record q {
    settled = q.settled ++ (q.next_promise, o) ∷ [];
    next_promise = suc q.next_promise;
  }

  -- `next` of the iterator.
  next : AsyncQueue T E → AsyncQueue T E
  unfolding settle_new
  next q = elim q.queue [
    | v ∷ vs ↦ settle_new (value v) (record q { queue = vs })
    | [] ↦ elim q.failure [
      | some e ↦ settle_new (rejected e) q
      | none ↦ if q.closed then settle_new done q else record q {
        resolvers = q.resolvers ++ q.next_promise ∷ [];
        next_promise = suc q.next_promise;
      }
    ]
  ]

  pub step : AsyncQueue T E → Op T E → AsyncQueue T E
  unfolding push error close next
  step q (push_op v) = push v q
  step q (fail_op e) = fail e q
  step q (error_op e) = error e q
  step q close_op = close q
  step q next_op = next q

  pub run : AsyncQueue T E → List (Op T E) → AsyncQueue T E
  run q [] = q
  run q (op ∷ ops) = run (step q op) ops
