-- ===== src/AsyncQueue/Order.antt =====
-- Values come in the order of pushing, and every value before the end or the error.
use adk_js.Prelude.{
  ℕ, ◌≡◌, refl, sym, ap, ◌⊎◌, inl, inr, Bool, true, false, Option, none, some, List, [], ◌∷◌, ◌++◌,
  map, append-nil, append_assoc, arith, if◌then◌else◌,
}
use mathlib.Core.List.{map-append}
use adk_js.AsyncQueue.{
  Outcome, value, done, rejected, AsyncQueue, new_queue, push, fail, error, close, next, settle_all,
  Op, push_op, fail_op, error_op, close_op, next_op, step, run,
}

module _ {T E : Type 0} where
  -- The values that were pushed while the queue was open.
  pub accepted : AsyncQueue T E → List (Op T E) → List T
  accepted q [] = []
  accepted q (push_op v ∷ ops) =
      let rest = accepted (step q (push_op v)) ops in if q.closed then rest else v ∷ rest
  accepted q (op ∷ ops) = accepted (step q op) ops

  abbrev pub outcomes : List (ℕ × Outcome T E) → List (Outcome T E)
  outcomes [] = []
  outcomes ((i, o) ∷ l) = o ∷ outcomes l

  -- An end of the iteration, by `done` or by the error that the queue has stored.
  abbrev pub Ends : Option E → List (Outcome T E) → Type 0
  Ends f [] = Unit
  Ends f (o ∷ os) = ((o ≡ done) ⊎ ((e : E) × (f ≡ some e) × (o ≡ rejected e))) × Ends f os

  -- What the consumer was given is first values and then ends; the values, with those still held,
  -- are those that were pushed.
  pub record IsOrdered (pushed : List T) (q : AsyncQueue T E) : Type 0 where
    pub delivered : List T
    pub ends : List (Outcome T E)
    pub split : outcomes q.settled ≡ map value delivered ++ ends
    pub order : delivered ++ q.queue ≡ pushed
    pub only_ends : Ends q.failure ends
    pub at_end : (ends ≡ []) ⊎ ((q.closed ≡ true) × (q.queue ≡ []))

  -- A consumer waits only on an open and empty queue; a failed queue is closed.
  pub record IsWellFormed (q : AsyncQueue T E) : Type 0 where
    pub waiting : (q.resolvers ≡ []) ⊎ ((q.closed ≡ false) × (q.queue ≡ []))
    pub failed : (q.failure ≡ none) ⊎ (q.closed ≡ true)

  step-IsWellFormed : (q : AsyncQueue T E) (op : Op T E) → IsWellFormed q → IsWellFormed (step q op)
  unfolding step push fail close next error
  step-IsWellFormed q (push_op v) w = ground (arith, w.waiting, w.failed)
  step-IsWellFormed q (fail_op e) w = ground (arith, w.waiting, w.failed)
  step-IsWellFormed q (error_op e) w = ground (arith, w.waiting, w.failed)
  step-IsWellFormed q close_op w = ground (arith, w.waiting, w.failed)
  step-IsWellFormed q next_op w = ground (arith, w.waiting, w.failed)

  outcomes-append : (l m : List (ℕ × Outcome T E)) → outcomes (l ++ m) ≡ outcomes l ++ outcomes m
  outcomes-append [] m = refl
  outcomes-append ((i, o) ∷ l) m = ap (λ t. o ∷ t) (outcomes-append l m)

  Ends-append : (f : Option E) (l m : List (Outcome T E)) → Ends f l → Ends f m → Ends f (l ++ m)
  Ends-append f [] m h k = k
  Ends-append f (o ∷ l) m (p, h) k = (p, Ends-append f l m h k)

  -- An end that came before a failure was no error.
  Ends-fail : (e : E) (l : List (Outcome T E)) → Ends none l → Ends (some e) l
  Ends-fail e [] h = tt
  Ends-fail e (o ∷ l) (inl p, h) = (inl p, Ends-fail e l h)
  Ends-fail e (o ∷ l) (inr (d, p, _), h) = cc p

Ends-done :
    (T : Type 0) {E : Type 0} (f : Option E) (is : List ℕ)
    → Ends f (outcomes (settle_all {T = T} done is))
Ends-done T f [] = tt
Ends-done T f (i ∷ is) = (inl refl, Ends-done T f is)

Ends-rejected :
    (T : Type 0) {E : Type 0} (e : E) (is : List ℕ)
    → Ends (some e) (outcomes (settle_all {T = T} (rejected e) is))
Ends-rejected T e [] = tt
Ends-rejected T e (i ∷ is) = (inr (e, refl, refl), Ends-rejected T e is)

module _ {T E : Type 0} where
  add_value :
      (l : List (ℕ × Outcome T E)) (i : ℕ) (v : T) (vs : List T) (os : List (Outcome T E))
      → outcomes l ≡ map value vs ++ os
      → os ≡ []
      → outcomes (l ++ (i, value v) ∷ []) ≡ map value (vs ++ v ∷ []) ++ os
  add_value l i v vs os e n =
      rw (outcomes-append, e, n, append-nil, append-nil) (sym (map-append value vs (v ∷ [])))

  add_ends :
      (l m : List (ℕ × Outcome T E)) (vs : List T) (os : List (Outcome T E))
      → outcomes l ≡ map value vs ++ os
      → outcomes (l ++ m) ≡ map value vs ++ (os ++ outcomes m)
  add_ends l m vs os e = rw (outcomes-append, e) (append_assoc (map value vs) os (outcomes m))

  abbrev adds : AsyncQueue T E → Op T E → List T
  adds q (push_op v) = if q.closed then [] else v ∷ []
  adds q _ = []

  abbrev parts : List T → List ℕ → Bool → Option E → List (ℕ × Outcome T E) → ℕ → AsyncQueue T E
  parts vs is c f l n = record {
    queue = vs;
    resolvers = is;
    closed = c;
    failure = f;
    settled = l;
    next_promise = n;
  }

  module _ (pushed : List T) (l : List (ℕ × Outcome T E)) (n : ℕ) where
    push_parts :
        (vs : List T) (is : List ℕ) (c : Bool) (f : Option E) (v : T)
        → IsWellFormed (parts vs is c f l n)
        → IsOrdered pushed (parts vs is c f l n)
        → IsOrdered
            (pushed ++ adds (parts vs is c f l n) (push_op v))
            (push v (parts vs is c f l n))
    unfolding push
    push_parts vs is true f v w h = rw append-nil h
    push_parts vs [] false f v w h = record {
      delivered = h.delivered;
      ends = h.ends;
      split = h.split;
      order = rw (← append_assoc, h.order);
      only_ends = h.only_ends;
      at_end = inl (ground arith);
    }
    push_parts vs (i ∷ is) false f v w h = record {
      delivered = h.delivered ++ v ∷ [];
      ends = h.ends;
      split = add_value l i v h.delivered h.ends h.split (ground arith);
      order =
          ground
            (arith, w.waiting, append-nil h.delivered, append-nil (h.delivered ++ v ∷ []), h.order);
      only_ends = h.only_ends;
      at_end = inl (ground arith);
    }

    next_parts :
        (vs : List T) (is : List ℕ) (c : Bool) (f : Option E)
        → IsWellFormed (parts vs is c f l n)
        → IsOrdered pushed (parts vs is c f l n)
        → IsOrdered pushed (next (parts vs is c f l n))
    unfolding next
    next_parts (v ∷ vs) is c f w h = record {
      delivered = h.delivered ++ v ∷ [];
      ends = h.ends;
      split = add_value l n v h.delivered h.ends h.split (ground arith);
      order = rw append_assoc h.order;
      only_ends = h.only_ends;
      at_end = inl (ground arith);
    }
    next_parts [] is c (some e) w h = record {
      delivered = h.delivered;
      ends = h.ends ++ rejected e ∷ [];
      split = add_ends l ((n, rejected e) ∷ []) h.delivered h.ends h.split;
      order = h.order;
      only_ends = Ends-append (some e) h.ends _ h.only_ends (inr (e, refl, refl), tt);
      at_end = ground (arith, w.failed);
    }
    next_parts [] is true none w h = record {
      delivered = h.delivered;
      ends = h.ends ++ done ∷ [];
      split = add_ends l ((n, done) ∷ []) h.delivered h.ends h.split;
      order = h.order;
      only_ends = Ends-append none h.ends _ h.only_ends (inl refl, tt);
      at_end = inr (refl, refl);
    }
    next_parts [] is false none w h = record {
      delivered = h.delivered;
      ends = h.ends;
      split = h.split;
      order = h.order;
      only_ends = h.only_ends;
      at_end = h.at_end;
    }

    -- Ending all the waiting promises at once.
    all_ends :
        (vs : List T) (is : List ℕ) (c : Bool) (f f' : Option E) (o : Outcome T E)
        → IsWellFormed (parts vs is c f l n)
        → (h : IsOrdered pushed (parts vs is c f l n)) → Ends f' h.ends
        → Ends f' (outcomes (settle_all o is))
        → IsOrdered pushed (parts vs [] true f' (l ++ settle_all o is) n)
    all_ends vs [] c f f' o w h k m = record {
      delivered = h.delivered;
      ends = h.ends;
      split = rw append-nil h.split;
      order = h.order;
      only_ends = k;
      at_end = ground arith;
    }
    all_ends vs (i ∷ is) c f f' o w h k m = record {
      delivered = h.delivered;
      ends = h.ends ++ outcomes (settle_all o (i ∷ is));
      split = add_ends l (settle_all o (i ∷ is)) h.delivered h.ends h.split;
      order = h.order;
      only_ends = Ends-append f' h.ends _ k m;
      at_end = ground (arith, w.waiting);
    }

    fail_parts :
        (vs : List T) (is : List ℕ) (c : Bool) (f : Option E) (e : E)
        → IsWellFormed (parts vs is c f l n)
        → IsOrdered pushed (parts vs is c f l n)
        → IsOrdered pushed (fail e (parts vs is c f l n))
    unfolding fail
    fail_parts vs is c (some first) e w h = h
    fail_parts vs is c none e w h =
        all_ends vs is c none (some e) (rejected e) w h (Ends-fail e h.ends h.only_ends)
          (Ends-rejected T e is)

    close_parts :
        (vs : List T) (is : List ℕ) (c : Bool) (f : Option E)
        → IsWellFormed (parts vs is c f l n)
        → IsOrdered pushed (parts vs is c f l n)
        → IsOrdered pushed (close (parts vs is c f l n))
    unfolding close
    close_parts vs is true f w h = h
    close_parts vs is false f w h = all_ends vs is false f f done w h h.only_ends (Ends-done T f is)

  -- A failure stays: neither a later failure nor `close` replaces it.
  step-failure :
      (q : AsyncQueue T E) (op : Op T E) (e : E) → q.failure ≡ some e → (step q op).failure ≡ some e
  unfolding step push fail error close next
  step-failure q (push_op v) e h = ground arith
  step-failure q (fail_op d) e h = ground arith
  step-failure q (error_op d) e h = ground arith
  step-failure q close_op e h = ground arith
  step-failure q next_op e h = ground arith

  step-IsOrdered :
      (q : AsyncQueue T E) (op : Op T E) (pushed : List T)
      → IsWellFormed q
      → IsOrdered pushed q
      → IsOrdered (pushed ++ adds q op) (step q op)
  unfolding step error
  step-IsOrdered q (push_op v) p w h =
      push_parts p q.settled q.next_promise q.queue q.resolvers q.closed q.failure v w h
  step-IsOrdered q (fail_op e) p w h =
      rw append-nil
        (fail_parts p q.settled q.next_promise q.queue q.resolvers q.closed q.failure e w h)
  step-IsOrdered q (error_op e) p w h =
      rw append-nil
        (fail_parts p q.settled q.next_promise q.queue q.resolvers q.closed q.failure e w h)
  step-IsOrdered q close_op p w h =
      rw append-nil
        (close_parts p q.settled q.next_promise q.queue q.resolvers q.closed q.failure w h)
  step-IsOrdered q next_op p w h =
      rw append-nil
        (next_parts p q.settled q.next_promise q.queue q.resolvers q.closed q.failure w h)

  accepted-cons :
      (q : AsyncQueue T E) (op : Op T E) (ops : List (Op T E))
      → accepted q (op ∷ ops) ≡ adds q op ++ accepted (step q op) ops
  unfolding accepted
  accepted-cons q (push_op v) ops = ground arith
  accepted-cons q (fail_op e) ops = refl
  accepted-cons q (error_op e) ops = refl
  accepted-cons q close_op ops = refl
  accepted-cons q next_op ops = refl

  run-IsOrdered :
      (q : AsyncQueue T E) (ops : List (Op T E)) (pushed : List T)
      → IsWellFormed q
      → IsOrdered pushed q
      → IsWellFormed (run q ops) × IsOrdered (pushed ++ accepted q ops) (run q ops)
  unfolding run
  run-IsOrdered q [] p w h = (w, unfold accepted in rw append-nil h)
  run-IsOrdered q (op ∷ ops) p w h =
      rw (accepted-cons q op ops, ← append_assoc)
        (run-IsOrdered (step q op) ops (p ++ adds q op) (step-IsWellFormed q op w)
          (step-IsOrdered q op p w h))

  new-IsWellFormed : IsWellFormed (new_queue T E)
  new-IsWellFormed = record { waiting = inl refl; failed = inl refl }

  new-IsOrdered : IsOrdered [] (new_queue T E)
  new-IsOrdered = record {
    delivered = [];
    ends = [];
    split = refl;
    order = refl;
    only_ends = tt;
    at_end = inl refl;
  }

  -- Whatever is pushed, failed, closed and read, in any order, from a new queue on: a consumer
  -- waits only while the queue is open and empty, and a failed queue is closed; the consumer is
  -- given first values and then ends, where the values with those still held are exactly the
  -- values pushed while the queue was open, in order, and an end comes only once the queue is
  -- closed and empty, and is `done` or carries the stored failure.
  pub async_run-IsOrdered :
      (ops : List (Op T E))
      → IsWellFormed (run (new_queue T E) ops)
        × IsOrdered (accepted (new_queue T E) ops) (run (new_queue T E) ops)
  async_run-IsOrdered ops = run-IsOrdered (new_queue T E) ops [] new-IsWellFormed new-IsOrdered

  -- Once a failure is stored, no later operation, `fail` and `close` included, replaces it.
  pub run-failure :
      (q : AsyncQueue T E) (ops : List (Op T E)) (e : E)
      → q.failure ≡ some e
      → (run q ops).failure ≡ some e
  unfolding run
  run-failure q [] e h = h
  run-failure q (op ∷ ops) e h = run-failure (step q op) ops e (step-failure q op e h)
