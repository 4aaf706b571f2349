-- ===== src/Workflow/Rehydration/CurrentRun.antt =====
-- Which events core/src/workflow/utils/rehydration_utils.ts keeps for the run in progress.
use mathlib.Core.Path.{subst}
use adk_js.Prelude.{
  ℕ, zero, suc, ◌+◌, ◌≤◌, ◌≡◌, refl, sym, ap, ◌∙◌, arith, eq_iff, String, Bool, true, false, Option,
  none, some, List, [], ◌∷◌, ◌++◌, All, length, drop, length-append, str_eq, Bool-cases, inl, inr,
}
use adk_js.Workflow.Rehydration.{
  NodeEvent, PriorRun, Scan, same_id, id_or_last, has_path, note_run, walk_back, nat_or, scan_one,
  scan, events_for_current_run,
}

drop-append {ℓ} :
    {A : Type ℓ} (k : ℕ) (xs ys : List A) → k ≤ length xs → drop k (xs ++ ys) ≡ drop k xs ++ ys
drop-append zero xs ys h = refl
drop-append (suc k) [] ys h = absurd (omega arith)
drop-append (suc k) (x ∷ xs) ys h = drop-append k xs ys (omega arith)

-- The runs start, and the current invocation too, no later than at the index.
abbrev IsWithin : ℕ → Scan → Type 0
IsWithin m s = All (λ r. r.start ≤ m) s.prior_runs × (nat_or 0 s.current_start ≤ m)

note_run-All :
    (m i : ℕ) (id : Option String) (raised : Bool) (rs : List PriorRun)
    → i ≤ m
    → All (λ r. r.start ≤ m) rs
    → All (λ r. r.start ≤ m) (note_run i id raised rs)
note_run-All m i id raised [] h a = (h, tt)
note_run-All m i id raised (r ∷ rs) h (p, a) = elim (Bool-cases (same_id r.invocation_id id)) [
  | inl e ↦ rw e (p, a)
  | inr e ↦ rw e (h, (p, a))
]

walk_back_le :
    (m b : ℕ) (rs : List PriorRun) → b ≤ m → All (λ r. r.start ≤ m) rs → walk_back b rs ≤ m
walk_back_le m b [] h a = h
walk_back_le m b (r ∷ rs) h (p, a) = elim (Bool-cases r.paused) [
  | inl e ↦ rw e (walk_back_le m r.start rs p a)
  | inr e ↦ rw e h
]

nat_or_le : (m i : ℕ) (o : Option ℕ) → i ≤ m → nat_or 0 o ≤ m → nat_or i o ≤ m
nat_or_le m i none h k = h
nat_or_le m i (some n) h k = k

module _ {V : Type 0} (current : String) where
  scan_one-IsWithin :
      (m i : ℕ) (e : NodeEvent V) (s : Scan)
      → i ≤ m
      → IsWithin m s
      → IsWithin m (scan_one current i e s)
  unfolding scan_one
  scan_one-IsWithin m i e s h (a, c) =
      let id = id_or_last e.invocation_id s.last_invocation_id in
      elim (Bool-cases (same_id id (some current))) [
        | inl k ↦ rw k (a, nat_or_le m i s.current_start h c)
        | inr k ↦ rw k (elim (Bool-cases (has_path e.path)) [
          | inl p ↦ rw p (note_run-All m i id e.raises_interrupt s.prior_runs h a, c)
          | inr p ↦ rw p (a, c)
        ])
      ]

  scan-IsWithin :
      (es : List (NodeEvent V)) (m i : ℕ) (s : Scan)
      → i + length es ≤ m
      → IsWithin m s
      → IsWithin m (scan current i es s)
  unfolding scan
  scan-IsWithin [] m i s h w = w
  scan-IsWithin (e ∷ es) m i s h w =
      scan-IsWithin es m (suc i) (scan_one current i e s) (omega arith)
        (scan_one-IsWithin m i e s (omega arith) w)

  scan-append :
      (es fs : List (NodeEvent V)) (i : ℕ) (s : Scan)
      → scan current i (es ++ fs) s ≡ scan current (i + length es) fs (scan current i es s)
  unfolding scan
  scan-append [] fs i s = ap (λ k. scan current k fs s) none_more
    where
      none_more : i ≡ i + 0
      none_more = omega arith
  scan-append (e ∷ es) fs i s =
      scan-append es fs (suc i) (scan_one current i e s)
      ∙ ap (λ k. scan current k fs (scan current (suc i) es (scan_one current i e s))) one_more
    where
      one_more : suc i + length es ≡ i + suc (length es)
      one_more = omega arith

  module _ (named : str_eq current "" ≡ false) where
    -- An event of the current invocation marks its start, unless an earlier one did.
    scan_one-current :
        (i : ℕ) (e : NodeEvent V) (s : Scan)
        → e.invocation_id ≡ current
        → scan_one current i e s ≡ record s {
          current_start = some (nat_or i s.current_start);
          last_invocation_id = some current;
        }
    unfolding scan_one
    scan_one-current i e s h =
        let same : str_eq current current ≡ true = ground (arith, eq_iff current current) in
        rw (h, named, same) refl

    scan-current :
        (es : List (NodeEvent V)) (i n : ℕ) (s : Scan)
        → All (λ e. e.invocation_id ≡ current) es
        → s.current_start ≡ some n
        → ((scan current i es s).prior_runs ≡ s.prior_runs)
          × ((scan current i es s).current_start ≡ some n)
    unfolding scan
    scan-current [] i n s a h = (refl, h)
    scan-current (e ∷ es) i n s (p, a) h =
        let next = record s {
          current_start = some (nat_or i s.current_start);
          last_invocation_id = some current;
        } in
        let started : next.current_start ≡ some n = rw h refl in
        subst
          (λ x.
            ((scan current (suc i) es x).prior_runs ≡ s.prior_runs)
            × ((scan current (suc i) es x).current_start ≡ some n))
          (sym (scan_one-current i e s p)) (scan-current es (suc i) n next a started)

    boundary_le :
        (now : List (NodeEvent V)) (m : ℕ) (s : Scan)
        → All (λ e. e.invocation_id ≡ current) now
        → IsWithin m s
        → walk_back
            (nat_or (m + length now) (scan current m now s).current_start)
            (scan current m now s).prior_runs
          ≤ m
    unfolding scan
    boundary_le [] m s a (w, c) =
        walk_back_le m _ s.prior_runs (nat_or_le m (m + 0) s.current_start (omega arith) c) w
    boundary_le (e ∷ now) m s (p, a) (w, c) =
        let next = record s {
          current_start = some (nat_or m s.current_start);
          last_invocation_id = some current;
        } in
        let (runs, start) = scan-current now (suc m) (nat_or m s.current_start) next a refl in
        subst
          (λ x.
            walk_back (nat_or (m + suc (length now)) (scan current (suc m) now x).current_start)
              (scan current (suc m) now x).prior_runs
            ≤ m)
          (sym (scan_one-current m e s p))
          (rw (runs, start)
            (walk_back_le m _ s.prior_runs (nat_or_le m m s.current_start (omega arith) c) w))

    -- For events that end with those of the current invocation (whose id is not empty), the events of the
    -- run in progress are those of the current invocation, all of them, behind an end of what came before.
    pub events_for_current_run_lem :
        (before now : List (NodeEvent V))
        → All (λ e. e.invocation_id ≡ current) now
        → (k : ℕ) × (k ≤ length before)
          × (events_for_current_run (before ++ now) current ≡ drop k before ++ now)
    unfolding events_for_current_run
    events_for_current_run_lem before now a =
        let init : Scan = record {
          prior_runs = [];
          current_start = none;
          last_invocation_id = none;
        } in
        let s = scan current 0 before init in
        let m = length before in
        let k =
          walk_back (nat_or (m + length now) (scan current m now s).current_start)
            (scan current m now s).prior_runs in
        let w = scan-IsWithin before m 0 init (omega arith) (tt, omega arith) in
        let le = boundary_le now m s a w in
        let bound =
          λ (t : Scan). walk_back (nat_or (length (before ++ now)) t.current_start) t.prior_runs in
        let same : bound (scan current 0 (before ++ now) init) ≡ k =
          ap bound (scan-append before now 0 init ∙ ap (λ i. scan current i now s) zero_more)
          ∙ ap
              (λ n.
                walk_back (nat_or n (scan current m now s).current_start)
                  (scan current m now s).prior_runs)
              (length-append before now) in
        (k, le, ap (λ x. drop x (before ++ now)) same ∙ drop-append k before now le)
      where
        zero_more : 0 + length before ≡ length before
        zero_more = omega arith
