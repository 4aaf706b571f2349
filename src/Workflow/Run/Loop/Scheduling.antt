-- ===== src/Workflow/Run/Loop/Scheduling.antt =====
-- What the scheduling of ready nodes comes to (core/src/workflow/workflow.ts).
use mathlib.Core.Path.{subst}
use adk_js.Prelude.{
  ℕ, suc, ◌≤◌, ◌≡◌, refl, sym, ◌⊎◌, inl, inr, String, true, false, Option, none, some, List, [],
  ◌∷◌, length, All, arith, eq_iff, Bool-cases, Option-cases,
}
use adk_js.Prelude.Dict.{lookup, has, lookup-put}
use adk_js.Workflow.Run.State.{running, Trigger, LoopState, Setting}
use adk_js.Workflow.Run.{
  is_nil, put_rest, at_concurrency_limit, triggers_or_nil, prepare_node_state_for_starting,
  create_node_state, counter_of,
}
use adk_js.Workflow.Run.Loop.{
  start_node_task, visit, Visit, skip, stop, start, throw, schedule, is_held,
}
use adk_js.Workflow.Run.Loop.Consistent.{none_not_some, IsWithin, IsConsistent, put_rest-buffered}
use adk_js.Workflow.Run.Loop.Starting.{start_node_task-Started}

module _ {V : Type 0} (c : Setting V) where
  -- What there was where a visit starts a task.
  pub record CanStart (l l' : LoopState V) (name : String) : Type 0 where
    pub idle : has name l.pending ≡ false
    pub free : is_held (lookup name l.nodes) ≡ false
    pub room : at_concurrency_limit c l ≡ false
    pub first : Trigger V
    pub others : List (Trigger V)
    pub buffer : lookup name l.trigger_buffer ≡ some (first ∷ others)
    pub task :
        start_node_task c
          (prepare_node_state_for_starting
            (record l { trigger_buffer = put_rest name others l.trigger_buffer })
            name
            first)
          name
          first
        ≡ some l'

  -- Why a visit leaves a node alone.
  abbrev pub Skipped : LoopState V → String → Type 0
  Skipped l name =
      (has name l.pending ≡ true)
      ⊎ ((is_held (lookup name l.nodes) ≡ true)
          ⊎ (is_nil (triggers_or_nil (lookup name l.trigger_buffer)) ≡ true))

  -- What each outcome of a visit says.
  pub data Visited (l : LoopState V) (name : String) : Visit c → Type 0 where
    skips : Skipped l name → Visited l name skip
    stops : at_concurrency_limit c l ≡ true → Visited l name stop
    starts : {l' : LoopState V} → CanStart l l' name → Visited l name (start l')
    throws :
        (m : LoopState V) (t : Trigger V) → start_node_task c m name t ≡ none → Visited l name throw

  visited_trigger :
      (l : LoopState V) (name : String) (t : Trigger V) (ts : List (Trigger V))
      (o : Option (LoopState V))
      → has name l.pending ≡ false
      → is_held (lookup name l.nodes) ≡ false
      → at_concurrency_limit c l ≡ false
      → lookup name l.trigger_buffer ≡ some (t ∷ ts)
      → start_node_task c
          (prepare_node_state_for_starting
            (record l { trigger_buffer = put_rest name ts l.trigger_buffer })
            name
            t)
          name
          t
        ≡ o
      → Visited l name (visit c l name)
  unfolding visit
  visited_trigger l name t ts none h k r b e =
      let D : visit c l name ≡ throw = ground (arith, h, k, r, b, e) in
      subst (Visited l name) (sym D) (throws _ t e)
  visited_trigger l name t ts (some l') h k r b e =
      let D : visit c l name ≡ start l' = ground (arith, h, k, r, b, e) in
      subst (Visited l name) (sym D) (
        starts
          (record { idle = h; free = k; room = r; first = t; others = ts; buffer = b; task = e }))

  visited_buffer :
      (l : LoopState V) (name : String) (ts : List (Trigger V))
      → has name l.pending ≡ false
      → is_held (lookup name l.nodes) ≡ false
      → at_concurrency_limit c l ≡ false
      → lookup name l.trigger_buffer ≡ some ts
      → Visited l name (visit c l name)
  unfolding visit
  visited_buffer l name [] h k r b =
      let D : visit c l name ≡ skip = ground (arith, h, k, r, b) in
      subst (Visited l name) (sym D) (skips (inr (inr (ground (arith, b)))))
  visited_buffer l name (t ∷ ts) h k r b = visited_trigger l name t ts _ h k r b refl

  pub visit-Visited : (l : LoopState V) (name : String) → Visited l name (visit c l name)
  unfolding visit
  visit-Visited l name = elim (Bool-cases (has name l.pending)) [
    | inl h ↦
        let D : visit c l name ≡ skip = ground (arith, h) in
        subst (Visited l name) (sym D) (skips (inl h))
    | inr h ↦ elim (Bool-cases (is_held (lookup name l.nodes))) [
      | inl k ↦
          let D : visit c l name ≡ skip = ground (arith, h, k) in
          subst (Visited l name) (sym D) (skips (inr (inl k)))
      | inr k ↦ elim (Bool-cases (at_concurrency_limit c l)) [
        | inl r ↦
            let D : visit c l name ≡ stop = ground (arith, h, k, r) in
            subst (Visited l name) (sym D) (stops r)
        | inr r ↦ elim (Option-cases (lookup name l.trigger_buffer)) [
          | inl b ↦
              let D : visit c l name ≡ skip = ground (arith, h, k, r, b) in
              subst (Visited l name) (sym D) (skips (inr (inr (ground (arith, b)))))
          | inr (ts, b) ↦ visited_buffer l name ts h k r b
        ]
      ]
    ]
  ]

  pub prepared :
      (l : LoopState V) (name : String) (t : Trigger V)
      → let s = record (create_node_state (counter_of (lookup name l.nodes))) {
        input = t.input;
        status = running;
      } in
        lookup name (prepare_node_state_for_starting l name t).nodes ≡ some s
  unfolding prepare_node_state_for_starting
  prepared l name t =
      let s = record (create_node_state (counter_of (lookup name l.nodes))) {
        input = t.input;
        status = running;
      } in
      ground (arith, lookup-put name name s l.nodes, eq_iff name name)

  IsWithin-of :
      (l : LoopState V) (n : ℕ)
      → at_concurrency_limit c l ≡ false
      → n ≤ suc (length l.pending)
      → IsWithin c.max_concurrency n
  unfolding at_concurrency_limit
  IsWithin-of l n h le = elim (Option-cases c.max_concurrency) [
    | inl e ↦ rw e tt
    | inr (bound, e) ↦ rw e (ground (arith, e, h, le))
  ]

  CanStart-IsConsistent :
      (l l' : LoopState V) (name : String)
      → IsConsistent c l
      → CanStart l l' name
      → IsConsistent c l' × (1 ≤ length l'.pending)
  unfolding prepare_node_state_for_starting
  CanStart-IsConsistent l l' name v s =
      let cut = record l { trigger_buffer = put_rest name s.others l.trigger_buffer } in
      let m = prepare_node_state_for_starting cut name s.first in
      let state = record (create_node_state (counter_of (lookup name l.nodes))) {
        input = s.first.input;
        status = running;
      } in
      let here = prepared cut name s.first in
      let t = start_node_task-Started c m l' name s.first state here s.task in
      (
        record {
          bounded = IsWithin-of l (length l'.pending) s.room t.more;
          running_iff = λ n.
              let at = lookup-put name n state l.nodes in
              let p = t.pending_of n in
              let r = t.running_of n in
              let h = v.running_iff n in ground (arith, p, r, h, at, here);
          buffered = λ n.
              let h = put_rest-buffered name s.others l.trigger_buffer v.buffered n in
              rw t.same_buffer h;
          recorded = λ n.
              let at = lookup-put name n state l.nodes in
              let i = t.interrupts_of n in
              let same = t.same_ids in let h = v.recorded n in ground (arith, i, same, h, at, here);
        },
        t.some_pending,
      )

  -- What the loop over some names comes to: a task is pending, or nothing changed, and then either
  -- there was no room or each name was left alone.
  abbrev pub Scheduled : LoopState V → List String → LoopState V → Type 0
  Scheduled l names l' =
      (1 ≤ length l'.pending)
      ⊎ ((l' ≡ l) × ((at_concurrency_limit c l ≡ true) ⊎ All (Skipped l) names))

  abbrev ScheduleLem : List String → Type 0
  ScheduleLem names =
      (l l' : LoopState V)
      → IsConsistent c l
      → schedule c l names ≡ some l'
      → IsConsistent c l' × Scheduled l names l'

  schedule_step :
      (name : String) (names : List String) (l l' : LoopState V) (v : Visit c)
      → ScheduleLem names
      → IsConsistent c l
      → Visited l name v
      → visit c l name ≡ v
      → schedule c l (name ∷ names) ≡ some l'
      → IsConsistent c l' × Scheduled l (name ∷ names) l'
  unfolding schedule
  schedule_step name names l l' skip IH k (skips s) e h =
      let (k', rest) = IH l l' k (ground (arith, e, h)) in
      (
        k',
        elim rest [
          | inl p ↦ inl p
          | inr (same, inl full) ↦ inr (same, inl full)
          | inr (same, inr all) ↦ inr (same, inr (s, all))
        ],
      )
  schedule_step name names l l' stop IH k (stops full) e h =
      let same : l' ≡ l = ground (arith, e, h) in
      (subst (IsConsistent c) (sym same) k, inr (same, inl full))
  schedule_step name names l l' (start m) IH k (starts s) e h =
      let (km, p) = CanStart-IsConsistent l m name k s in
      let (k', rest) = IH m l' km (ground (arith, e, h)) in
      (
        k',
        elim rest [
          | inl q ↦ inl q
          | inr (same, _) ↦ inl (subst (λ x. 1 ≤ length x.pending) (sym same) p)
        ],
      )
  schedule_step name names l l' throw IH k (throws _ _ _) e h =
      absurd (none_not_some (schedule c l (name ∷ names)) l' (ground (arith, e)) h)

  pub schedule_lem : (names : List String) → ScheduleLem names
  unfolding schedule
  schedule_lem [] l l' k h =
      let same : l' ≡ l = cc in (subst (IsConsistent c) (sym same) k, inr (same, inr tt))
  schedule_lem (name ∷ names) l l' k h =
      schedule_step name names l l' (visit c l name) (schedule_lem names) k (visit-Visited l name)
        refl h
