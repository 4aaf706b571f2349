-- ===== src/Compaction/ThoughtPruning.antt =====
-- core/src/context/trajectory_thought_pruning_compactor.ts: older events lose their thoughts. The
-- constructor's check that the retention size is not negative holds of every natural number.
use adk_js.Prelude.{
  ℕ, zero, suc, ◌-◌, ◌≡◌, refl, ap, sym, ◌∙◌, inl, inr, String, Bool, true, false, not, Option,
  none, some, List, [], ◌∷◌, ◌++◌, map, length, take, drop, set, get_elem?, keep_if, leb, arith,
  Bool-cases, if◌then◌else◌,
}
use adk_js.Event.{Event, has_thoughts, prune_thoughts}
use adk_js.Event.Thoughts.{prune_thoughts_lem}
use adk_js.Compaction.{is_event_visible_in_isolation_scope}
use adk_js.Compaction.Indices.{indices_from, length-indices_from, indices_shift, take-map}

module _ {V : Type 0} where
  any_has_thoughts : List ℕ → List (Event V) → Bool
  any_has_thoughts [] events = false
  any_has_thoughts (i ∷ is) events = elim (get_elem? events i) [
    | none ↦ any_has_thoughts is events
    | some e ↦ if has_thoughts e then true else any_has_thoughts is events
  ]

  pub should_compact : ℕ → Option String → List (Event V) → Bool
  unfolding any_has_thoughts
  should_compact size scope events =
      let visible = indices_from 0 (is_event_visible_in_isolation_scope scope) events in
      if leb (length visible) size
      then false
      else any_has_thoughts (take (length visible - size) visible) events

  -- One round of the loop.
  prune_one : ℕ → List (Event V) → List (Event V)
  prune_one i events = elim (get_elem? events i) [
    | none ↦ events
    | some e ↦ if has_thoughts e then set events i (prune_thoughts e) else events
  ]

  prune_at : List ℕ → List (Event V) → List (Event V)
  unfolding prune_one
  prune_at [] events = events
  prune_at (i ∷ is) events = prune_at is (prune_one i events)

  pub compact : ℕ → Option String → List (Event V) → List (Event V)
  unfolding prune_at
  compact size scope events =
      let visible = indices_from 0 (is_event_visible_in_isolation_scope scope) events in
      if leb (length visible) size
      then events
      else prune_at (take (length visible - size) visible) events

  prune_one_head :
      (e : Event V) (es : List (Event V)) → prune_one 0 (e ∷ es) ≡ prune_thoughts e ∷ es
  unfolding prune_one
  prune_one_head e es = let (_, _, _, h) = prune_thoughts_lem e in ground arith

  prune_one_tail :
      (i : ℕ) (e : Event V) (es : List (Event V)) → prune_one (suc i) (e ∷ es) ≡ e ∷ prune_one i es
  unfolding prune_one
  prune_one_tail i e es = ground arith

  module _ (scope : Option String) where
    abbrev visible : Event V → Bool
    visible = is_event_visible_in_isolation_scope scope

    visible-prune : (e : Event V) → visible (prune_thoughts e) ≡ visible e
    unfolding prune_thoughts
    visible-prune e = ground arith

    -- The same without indices: the first `n` visible events are pruned.
    prune_first : ℕ → List (Event V) → List (Event V)
    prune_first n [] = []
    prune_first zero (e ∷ es) = e ∷ es
    prune_first (suc n) (e ∷ es) =
        let hit = prune_thoughts e ∷ prune_first n es in
        let miss = e ∷ prune_first (suc n) es in if visible e then hit else miss

    prune_at-cons :
        (i : ℕ) (is : List ℕ) (es : List (Event V))
        → prune_at (i ∷ is) es ≡ prune_at is (prune_one i es)
    unfolding prune_at
    prune_at-cons i is es = refl

    prune_shift :
        (is : List ℕ) (e : Event V) (es : List (Event V))
        → prune_at (map suc is) (e ∷ es) ≡ e ∷ prune_at is es
    unfolding prune_at
    prune_shift [] e es = refl
    prune_shift (i ∷ is) e es =
        ap (prune_at (map suc is)) (prune_one_tail i e es) ∙ prune_shift is e (prune_one i es)

    prune_later :
        (n : ℕ) (e : Event V) (es : List (Event V))
        → prune_at (take n (indices_from 1 visible es)) (e ∷ es)
          ≡ e ∷ prune_at (take n (indices_from 0 visible es)) es
    prune_later n e es =
        rw (indices_shift visible 0 es, take-map)
          (prune_shift (take n (indices_from 0 visible es)) e es)

    prune-eq-prune_first :
        (n : ℕ) (es : List (Event V))
        → prune_at (take n (indices_from 0 visible es)) es ≡ prune_first n es
    unfolding prune_at prune_first
    prune-eq-prune_first zero [] = refl
    prune-eq-prune_first (suc n) [] = refl
    prune-eq-prune_first zero (e ∷ es) = refl
    prune-eq-prune_first (suc n) (e ∷ es) = elim (Bool-cases (visible e)) [
      | inl h ↦ rw h (
          ap (prune_at (take n (indices_from 1 visible es))) (prune_one_head e es)
          ∙ prune_later n (prune_thoughts e) es
          ∙ ap (λ t. prune_thoughts e ∷ t) (prune-eq-prune_first n es))
      | inr h ↦ rw h (prune_later (suc n) e es ∙ ap (λ t. e ∷ t) (prune-eq-prune_first (suc n) es))
    ]

    passing :
        (n : ℕ) (es : List (Event V))
        → keep_if visible (prune_first n es)
          ≡ map prune_thoughts (take n (keep_if visible es)) ++ drop n (keep_if visible es)
    unfolding prune_first
    passing zero [] = refl
    passing (suc n) [] = refl
    passing zero (e ∷ es) = refl
    passing (suc n) (e ∷ es) = ground (arith, passing n es, passing (suc n) es, visible-prune e)

    failing :
        (n : ℕ) (es : List (Event V))
        → keep_if (λ e. not (visible e)) (prune_first n es) ≡ keep_if (λ e. not (visible e)) es
    unfolding prune_first
    failing n [] = refl
    failing zero (e ∷ es) = refl
    failing (suc n) (e ∷ es) = ground (arith, failing n es, failing (suc n) es, visible-prune e)

    prune_first_zero : (es : List (Event V)) → prune_first 0 es ≡ es
    unfolding prune_first
    prune_first_zero [] = refl
    prune_first_zero (e ∷ es) = refl

    compact-eq-prune_first :
        (size : ℕ) (es : List (Event V))
        → compact size scope es ≡ prune_first (length (keep_if visible es) - size) es
    unfolding compact
    compact-eq-prune_first size es = elim (Bool-cases (leb (length (keep_if visible es)) size)) [
      | inl h ↦
          rw (length-indices_from visible, h)
            (sym (
              ap (λ n. prune_first n es) (all_kept (length (keep_if visible es)) size h)
              ∙ prune_first_zero es))
      | inr h ↦
          rw (length-indices_from visible, h)
            (prune-eq-prune_first (length (keep_if visible es) - size) es)
    ]
      where
        all_kept : (n m : ℕ) → leb n m ≡ true → n - m ≡ 0
        all_kept n m h = ground arith

    -- Of the events that the caller sees, all but the newest `size` have their thoughts pruned, and
    -- the newest are as they were; the events of other scopes are as they were.
    pub thought_pruning_compact_lem :
        (size : ℕ) (es : List (Event V))
        → (keep_if visible (compact size scope es)
            ≡ map prune_thoughts (take (length (keep_if visible es) - size) (keep_if visible es))
              ++ drop (length (keep_if visible es) - size) (keep_if visible es))
          × (keep_if (λ e. not (visible e)) (compact size scope es)
              ≡ keep_if (λ e. not (visible e)) es)
    thought_pruning_compact_lem size es =
        let n = length (keep_if visible es) - size in
        (rw (compact-eq-prune_first, passing n es), rw (compact-eq-prune_first, failing n es))
