-- ===== src/LiveQueue/Order.antt =====
-- Every request that the queue accepted reaches one reader, in the order of sending.
use adk_js.Prelude.{
  ℕ, zero, suc, ◌≡◌, refl, ap, ◌⊎◌, inl, inr, Bool, true, false, List, [], ◌∷◌, ◌++◌, map,
  append-nil, append_assoc, replicate, arith, if◌then◌else◌,
}
use adk_js.LiveQueue.{
  Genai, LiveRequest, close_request, Outcome, resolved, aborted, LiveRequestQueue, new_queue,
  satisfy, end_signal, Op, send_op, get_op, abort_op, close_op, step, run,
}

module _ {ℓ} {A : Type ℓ} where
  replicate_zero : (n : ℕ) (a : A) → n ≡ 0 → replicate n a ≡ []
  replicate_zero zero a e = refl
  replicate_zero (suc n) a e = absurd (omega arith)

  replicate_snoc : (n : ℕ) (a : A) → a ∷ replicate n a ≡ replicate n a ++ a ∷ []
  replicate_snoc zero a = refl
  replicate_snoc (suc n) a = ap (λ t. a ∷ t) (replicate_snoc n a)

module _ {g : Genai} where
  -- No reader waits while a request is at hand, or once the queue is closed.
  pub record IsWellFormed (q : LiveRequestQueue g) : Type 0 where
    pub one_side : (q.resolve_fns ≡ []) ⊎ (q.queue ≡ [])
    pub closed_side : (q.is_closed ≡ false) ⊎ (q.resolve_fns ≡ [])

  -- The requests among the settled promises.
  pub received : List (ℕ × Outcome g) → List (LiveRequest g)
  received [] = []
  received ((i, resolved r) ∷ l) = r ∷ received l
  received ((i, aborted) ∷ l) = received l

  -- The requests that the operations sent and that `send` did not refuse.
  pub accepted : LiveRequestQueue g → List (Op g) → List (LiveRequest g)
  accepted q [] = []
  accepted q (send_op r ∷ ops) =
      let rest = accepted (step q (send_op r)) ops in if q.is_closed then rest else r ∷ rest
  accepted q (op ∷ ops) = accepted (step q op) ops

  -- After `sent` the queue has handed out or holds just that, and then close signals; a close
  -- signal is handed out only when nothing is left.
  pub record IsFifo (sent : List (LiveRequest g)) (q : LiveRequestQueue g) : Type 0 where
    pub signals : ℕ
    pub order : received q.settled ++ q.queue ≡ sent ++ replicate signals (close_request g)
    pub at_end : (signals ≡ 0) ⊎ ((q.is_closed ≡ true) × (q.queue ≡ []))

  received-append : (l m : List (ℕ × Outcome g)) → received (l ++ m) ≡ received l ++ received m
  unfolding received
  received-append [] m = refl
  received-append ((i, resolved r) ∷ l) m = ap (λ t. r ∷ t) (received-append l m)
  received-append ((i, aborted) ∷ l) m = received-append l m

  received-map :
      (is : List ℕ)
      → (n : ℕ) × (received (map (end_signal {g = g}) is) ≡ replicate n (close_request g))
  unfolding received
  received-map [] = (0, refl)
  received-map (i ∷ is) = let (n, e) = received-map is in (suc n, ap (λ t. close_request g ∷ t) e)

  step-IsWellFormed :
      (q : LiveRequestQueue g) (op : Op g) → IsWellFormed q → IsWellFormed (step q op)
  unfolding step
  step-IsWellFormed q (send_op r) w = ground (arith, w.closed_side, w.one_side)
  step-IsWellFormed q (get_op b) w = ground (arith, w.closed_side, w.one_side)
  step-IsWellFormed q (abort_op i) w = ground (arith, w.closed_side, w.one_side)
  step-IsWellFormed q close_op w = ground (arith, w.closed_side, w.one_side)

  -- What one operation adds to the accepted requests.
  abbrev adds : LiveRequestQueue g → Op g → List (LiveRequest g)
  adds q (send_op r) = if q.is_closed then [] else r ∷ []
  adds q _ = []

  -- While the queue is open it has given no close signal.
  open_order :
      (q : LiveRequestQueue g) (sent : List (LiveRequest g))
      → IsFifo sent q
      → q.is_closed ≡ false
      → received q.settled ++ q.queue ≡ sent
  open_order q sent h e =
      ground (arith, replicate_zero h.signals (close_request g), append-nil sent, h.order)

  abbrev parts :
      List (LiveRequest g) → List ℕ → Bool → List (ℕ × Outcome g) → ℕ → LiveRequestQueue g
  parts rs is c l n = record {
    queue = rs;
    resolve_fns = is;
    is_closed = c;
    settled = l;
    next_promise = n;
  }

  module _ (sent : List (LiveRequest g)) (l : List (ℕ × Outcome g)) (n : ℕ) where
    send_parts :
        (rs : List (LiveRequest g)) (is : List ℕ) (c : Bool) (r : LiveRequest g)
        → IsWellFormed (parts rs is c l n)
        → IsFifo sent (parts rs is c l n)
        → IsFifo
            (sent ++ adds (parts rs is c l n) (send_op r))
            (step (parts rs is c l n) (send_op r))
    unfolding step received
    send_parts rs is true r w h = rw append-nil h
    send_parts rs [] false r w h = record {
      signals = 0;
      order = simp (← append_assoc, append-nil, open_order (parts rs [] false l n) sent h refl);
      at_end = inl refl;
    }
    send_parts rs (i ∷ is) false r w h = record {
      signals = 0;
      order = ground (
        arith,
        received-append l ((i, resolved r) ∷ []),
        append-nil (sent ++ r ∷ []),
        append-nil (received l ++ r ∷ []),
        append-nil (received l),
        open_order (parts rs (i ∷ is) false l n) sent h refl,
        w.one_side,
      );
      at_end = inl refl;
    }

    get_parts :
        (rs : List (LiveRequest g)) (is : List ℕ) (c b : Bool)
        → IsFifo sent (parts rs is c l n)
        → IsFifo sent (step (parts rs is c l n) (get_op b))
    unfolding step received
    get_parts (r ∷ rs) is c b h = record {
      signals = h.signals;
      order = rw (received-append, append_assoc) h.order;
      at_end = ground arith;
    }
    get_parts [] is true b h = record {
      signals = suc h.signals;
      order = cc (
        received-append l ((n, resolved (close_request g)) ∷ []),
        append-nil (received l ++ close_request g ∷ []),
        append-nil (received l),
        replicate_snoc h.signals (close_request g),
        append_assoc sent (replicate h.signals (close_request g)) (close_request g ∷ []),
      );
      at_end = inr (refl, refl);
    }
    get_parts [] is false true h = record {
      signals = h.signals;
      order = rw (received-append, append-nil) h.order;
      at_end = h.at_end;
    }
    get_parts [] is false false h = record {
      signals = h.signals;
      order = h.order;
      at_end = h.at_end;
    }

  abort-IsFifo :
      (q : LiveRequestQueue g) (i : ℕ) (sent : List (LiveRequest g))
      → IsFifo sent q
      → IsFifo sent (step q (abort_op i))
  unfolding step received
  abort-IsFifo q i sent h = record {
    signals = h.signals;
    order =
        ground
          (arith, received-append q.settled ((i, aborted) ∷ []), append-nil (received q.settled));
    at_end = ground arith;
  }

  -- What the first loop of `close` hands out, and what it leaves.
  satisfy-order :
      (is : List ℕ) (rs : List (LiveRequest g))
      → received (satisfy is rs).2 ++ (satisfy is rs).1 ≡ rs
  unfolding satisfy received
  satisfy-order [] rs = refl
  satisfy-order (i ∷ is) [] = refl
  satisfy-order (i ∷ is) (r ∷ rs) = ap (λ t. r ∷ t) (satisfy-order is rs)

  satisfy-left :
      (is : List ℕ) (rs : List (LiveRequest g))
      → ((satisfy is rs).0 ≡ []) ⊎ ((satisfy is rs).1 ≡ [])
  unfolding satisfy
  satisfy-left [] rs = inl refl
  satisfy-left (i ∷ is) [] = inr refl
  satisfy-left (i ∷ is) (r ∷ rs) = satisfy-left is rs

  module _ (sent : List (LiveRequest g)) (l : List (ℕ × Outcome g)) (n : ℕ) where
    -- What `close` adds to the settled promises.
    close-received :
        (is : List ℕ) (rs : List (LiveRequest g))
        → (k : ℕ) × (received ((satisfy is rs).2 ++ map end_signal (satisfy is rs).0)
              ++ (satisfy is rs).1
            ≡ rs ++ replicate k (close_request g))
          × ((k ≡ 0) ⊎ ((satisfy is rs).1 ≡ []))
    unfolding received
    close-received is rs = elim (satisfy-left is rs) [
      | inl e ↦ (0, rw (received-append, e, append-nil, append-nil) (satisfy-order is rs), inl refl)
      | inr e ↦
          let (k, m) = received-map (satisfy is rs).0 in
          (
            k,
            cc (
              e,
              m,
              append-nil (received (satisfy is rs).2),
              append-nil (received (satisfy is rs).2 ++ replicate k (close_request g)),
              append-nil (received ((satisfy is rs).2 ++ map end_signal (satisfy is rs).0)),
              received-append (satisfy is rs).2 (map end_signal (satisfy is rs).0),
              satisfy-order is rs,
            ),
            inr e,
          )
    ]

    close_parts :
        (rs : List (LiveRequest g)) (is : List ℕ) (c : Bool)
        → IsFifo sent (parts rs is c l n)
        → IsFifo sent (step (parts rs is c l n) close_op)
    unfolding step
    close_parts rs is true h = record { signals = h.signals; order = h.order; at_end = h.at_end }
    close_parts rs is false h =
        let (k, order, at_end) = close-received is rs in
        record {
          signals = k;
          order =
              rw (received-append, append_assoc, order, ← append_assoc)
                (ap (λ t. t ++ replicate k (close_request g))
                  (open_order (parts rs is false l n) sent h refl));
          at_end = ground arith;
        }

  step-IsFifo :
      (q : LiveRequestQueue g) (op : Op g) (sent : List (LiveRequest g))
      → IsWellFormed q
      → IsFifo sent q
      → IsFifo (sent ++ adds q op) (step q op)
  step-IsFifo q (send_op r) sent w h =
      send_parts sent q.settled q.next_promise q.queue q.resolve_fns q.is_closed r w h
  step-IsFifo q (get_op b) sent w h =
      rw append-nil (get_parts sent q.settled q.next_promise q.queue q.resolve_fns q.is_closed b h)
  step-IsFifo q (abort_op i) sent w h = rw append-nil (abort-IsFifo q i sent h)
  step-IsFifo q close_op sent w h =
      rw append-nil (close_parts sent q.settled q.next_promise q.queue q.resolve_fns q.is_closed h)

  accepted-cons :
      (q : LiveRequestQueue g) (op : Op g) (ops : List (Op g))
      → accepted q (op ∷ ops) ≡ adds q op ++ accepted (step q op) ops
  unfolding accepted
  accepted-cons q (send_op r) ops = ground arith
  accepted-cons q (get_op b) ops = refl
  accepted-cons q (abort_op i) ops = refl
  accepted-cons q close_op ops = refl

  run-IsFifo :
      (q : LiveRequestQueue g) (ops : List (Op g)) (sent : List (LiveRequest g))
      → IsWellFormed q
      → IsFifo sent q
      → IsWellFormed (run q ops) × IsFifo (sent ++ accepted q ops) (run q ops)
  unfolding run
  run-IsFifo q [] sent w h = (w, unfold accepted in rw append-nil h)
  run-IsFifo q (op ∷ ops) sent w h =
      rw (accepted-cons q op ops, ← append_assoc)
        (run-IsFifo (step q op) ops (sent ++ adds q op) (step-IsWellFormed q op w)
          (step-IsFifo q op sent w h))

  new-IsFifo : IsFifo [] (new_queue g)
  unfolding received
  new-IsFifo = record { signals = 0; order = refl; at_end = inl refl }

  new-IsWellFormed : IsWellFormed (new_queue g)
  new-IsWellFormed = record { one_side = inl refl; closed_side = inl refl }

  -- Whatever is sent, read, aborted and closed, in any order, from a new queue on: no reader waits
  -- while a request is at hand or once the queue is closed, and the requests handed to readers, in
  -- order, with those still held are exactly the requests that `send` accepted, in order, and
  -- behind them close signals, of which there are none unless the queue is closed and empty.
  pub live_run-IsFifo :
      (ops : List (Op g))
      → IsWellFormed (run (new_queue g) ops)
        × IsFifo (accepted (new_queue g) ops) (run (new_queue g) ops)
  live_run-IsFifo ops = run-IsFifo (new_queue g) ops [] new-IsWellFormed new-IsFifo
