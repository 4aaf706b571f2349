-- ===== src/Compaction/Truncating.antt =====
-- core/src/context/truncating_context_compactor.ts: dropping the oldest events past the leading ones.
use adk_js.Prelude.{
  ℕ, zero, suc, ◌+◌, ◌-◌, ◌≤◌, ◌≡◌, refl, ap, sym, ◌∙◌, inl, inr, String, Bool, true, false, not,
  Option, List, [], ◌∷◌, ◌++◌, map, length, take, drop, keep_if, length-append, length-take,
  length-drop, leb, ltb, arith, Bool-cases, if◌then◌else◌,
}
use adk_js.Event.{Event}
use adk_js.Compaction.Indices.{indices_from, indices_shift, take-map, drop-map, length-indices_from}
use adk_js.Compaction.{is_event_visible_in_isolation_scope}

pub record TruncatingContextCompactor : Type 0 where
  pub threshold : ℕ
  pub preserve_leading_events : ℕ

module _ {ℓ} {A : Type ℓ} where
  -- `events.splice(index, 1)`
  splice : ℕ → List A → List A
  splice i [] = []
  splice zero (x ∷ xs) = xs
  splice (suc i) (x ∷ xs) = x ∷ splice i xs

  -- The loop over the reversed indices: the last index is removed first.
  splice_from_last : List ℕ → List A → List A
  splice_from_last [] xs = xs
  splice_from_last (i ∷ is) xs = splice i (splice_from_last is xs)

module _ {V : Type 0} where
  pub should_compact : TruncatingContextCompactor → Option String → List (Event V) → Bool
  should_compact c scope events =
      ltb (c.threshold + c.preserve_leading_events)
        (length (keep_if (is_event_visible_in_isolation_scope scope) events))

  pub compact : TruncatingContextCompactor → Option String → List (Event V) → List (Event V)
  unfolding splice splice_from_last
  compact c scope events =
      let visible = indices_from 0 (is_event_visible_in_isolation_scope scope) events in
      let excess = length visible - c.threshold - c.preserve_leading_events in
      if leb excess 0
      then events
      else splice_from_last (take excess (drop c.preserve_leading_events visible)) events

module _ {ℓ} {A : Type ℓ} (test : A → Bool) where
  -- The same without indices: among the elements that pass the test, the first `pre` stay and the
  -- next `n` go.
  cut_out : ℕ → ℕ → List A → List A
  cut_out pre n [] = []
  cut_out zero zero (x ∷ xs) = x ∷ cut_out zero zero xs
  cut_out zero (suc n) (x ∷ xs) =
      let gone = cut_out zero n xs in
      let kept = x ∷ cut_out zero (suc n) xs in if test x then gone else kept
  cut_out (suc pre) n (x ∷ xs) = x ∷ cut_out (if test x then pre else suc pre) n xs

  splice_shift :
      (is : List ℕ) (x : A) (xs : List A)
      → splice_from_last (map suc is) (x ∷ xs) ≡ x ∷ splice_from_last is xs
  unfolding splice_from_last splice
  splice_shift [] x xs = refl
  splice_shift (i ∷ is) x xs = rw (splice_shift is x xs)

  cut_out_zero : (xs : List A) → cut_out 0 0 xs ≡ xs
  unfolding cut_out
  cut_out_zero [] = refl
  cut_out_zero (x ∷ xs) = ap (λ t. x ∷ t) (cut_out_zero xs)

  splice_later :
      (pre n : ℕ) (x : A) (xs : List A)
      → splice_from_last (take n (drop pre (indices_from 1 test xs))) (x ∷ xs)
        ≡ x ∷ splice_from_last (take n (drop pre (indices_from 0 test xs))) xs
  splice_later pre n x xs =
      rw (indices_shift test 0 xs, drop-map, take-map)
        (splice_shift (take n (drop pre (indices_from 0 test xs))) x xs)

  splice_none : (pre n : ℕ) → splice_from_last {A = A} (take n (drop {A = ℕ} pre [])) [] ≡ []
  unfolding splice_from_last
  splice_none zero zero = refl
  splice_none zero (suc n) = refl
  splice_none (suc pre) zero = refl
  splice_none (suc pre) (suc n) = refl

  first_case :
      (n : ℕ) (x : A) (xs : List A)
      → splice_from_last (take n (drop 0 (indices_from 0 test xs))) xs ≡ cut_out 0 n xs
      → splice_from_last (take (suc n) (drop 0 (indices_from 0 test xs))) xs ≡ cut_out 0 (suc n) xs
      → splice_from_last (take (suc n) (drop 0 (indices_from 0 test (x ∷ xs)))) (x ∷ xs)
        ≡ cut_out 0 (suc n) (x ∷ xs)
  unfolding cut_out splice_from_last splice
  first_case n x xs one more = elim (Bool-cases (test x)) [
    | inl h ↦ rw (h, splice_later 0 n x xs) one
    | inr h ↦ rw h (splice_later 0 (suc n) x xs ∙ ap (λ t. x ∷ t) more)
  ]

  splice-eq-cut_out :
      (pre n : ℕ) (xs : List A)
      → splice_from_last (take n (drop pre (indices_from 0 test xs))) xs ≡ cut_out pre n xs
  unfolding cut_out
  splice-eq-cut_out pre n [] = splice_none pre n
  splice-eq-cut_out zero zero (x ∷ xs) =
      unfold splice_from_last in ap (λ t. x ∷ t) (sym (cut_out_zero xs))
  splice-eq-cut_out zero (suc n) (x ∷ xs) =
      first_case n x xs (splice-eq-cut_out zero n xs) (splice-eq-cut_out zero (suc n) xs)
  splice-eq-cut_out (suc pre) n (x ∷ xs) = elim (Bool-cases (test x)) [
    | inl h ↦ rw h (splice_later pre n x xs ∙ ap (λ t. x ∷ t) (splice-eq-cut_out pre n xs))
    | inr h ↦
        rw h (splice_later (suc pre) n x xs ∙ ap (λ t. x ∷ t) (splice-eq-cut_out (suc pre) n xs))
  ]

  abbrev nothing : List A
  nothing = []

  parts_nil : (pre n : ℕ) → take pre [] ++ drop n (drop pre []) ≡ nothing
  parts_nil zero zero = refl
  parts_nil zero (suc n) = refl
  parts_nil (suc pre) zero = refl
  parts_nil (suc pre) (suc n) = refl

  -- Of the elements that pass the test, a block is gone.
  cut_out-passing :
      (pre n : ℕ) (xs : List A)
      → keep_if test (cut_out pre n xs)
        ≡ take pre (keep_if test xs) ++ drop n (drop pre (keep_if test xs))
  unfolding cut_out
  cut_out-passing pre n [] = sym (parts_nil pre n)
  cut_out-passing zero zero (x ∷ xs) = ground (arith, cut_out-passing zero zero xs)
  cut_out-passing zero (suc n) (x ∷ xs) =
      ground (arith, cut_out-passing zero n xs, cut_out-passing zero (suc n) xs)
  cut_out-passing (suc pre) n (x ∷ xs) =
      ground (arith, cut_out-passing pre n xs, cut_out-passing (suc pre) n xs)

  -- All others stay.
  cut_out-failing :
      (pre n : ℕ) (xs : List A)
      → keep_if (λ x. not (test x)) (cut_out pre n xs) ≡ keep_if (λ x. not (test x)) xs
  unfolding cut_out
  cut_out-failing pre n [] = refl
  cut_out-failing zero zero (x ∷ xs) = ground (arith, cut_out-failing zero zero xs)
  cut_out-failing zero (suc n) (x ∷ xs) =
      ground (arith, cut_out-failing zero n xs, cut_out-failing zero (suc n) xs)
  cut_out-failing (suc pre) n (x ∷ xs) =
      ground (arith, cut_out-failing pre n xs, cut_out-failing (suc pre) n xs)

  cut_out_none : (pre : ℕ) (xs : List A) → cut_out pre 0 xs ≡ xs
  unfolding cut_out
  cut_out_none pre [] = refl
  cut_out_none zero (x ∷ xs) = ap (λ t. x ∷ t) (cut_out_none zero xs)
  cut_out_none (suc pre) (x ∷ xs) =
      ap (λ t. x ∷ t) (cut_out_none (if test x then pre else suc pre) xs)

module _ {V : Type 0} (c : TruncatingContextCompactor) (scope : Option String)
    (events : List (Event V)) where
  abbrev visible : Event V → Bool
  visible = is_event_visible_in_isolation_scope scope

  abbrev excess : ℕ
  excess = length (keep_if visible events) - c.threshold - c.preserve_leading_events

  compact-eq-cut_out :
      compact c scope events ≡ cut_out visible c.preserve_leading_events excess events
  unfolding compact
  compact-eq-cut_out = elim (Bool-cases (leb excess 0)) [
    | inl h ↦
        rw (length-indices_from, h)
          (sym (
            ap (λ n. cut_out visible c.preserve_leading_events n events) (no_excess excess h)
            ∙ cut_out_none visible c.preserve_leading_events events))
    | inr h ↦
        rw (length-indices_from, h)
          (splice-eq-cut_out visible c.preserve_leading_events excess events)
  ]
    where
      no_excess : (n : ℕ) → leb n 0 ≡ true → n ≡ 0
      no_excess n h = ground arith

  -- Of the events that the caller sees, the leading ones that are to be preserved stay, the oldest
  -- behind them go until no more than the threshold are left behind the leading ones, and the
  -- newest stay, in order; the events of other scopes all stay, in order; and there is nothing
  -- left to compact.
  pub truncating_compact_lem :
      (keep_if visible (compact c scope events)
        ≡ take c.preserve_leading_events (keep_if visible events)
          ++ drop excess (drop c.preserve_leading_events (keep_if visible events)))
      × (keep_if (λ e. not (visible e)) (compact c scope events)
          ≡ keep_if (λ e. not (visible e)) events)
      × (should_compact c scope (compact c scope events) ≡ false)
  unfolding should_compact
  truncating_compact_lem =
      let seen = keep_if visible events in
      let pre = c.preserve_leading_events in
      let parts = cut_out-passing visible pre excess events in
      (
        rw (compact-eq-cut_out, parts),
        rw (compact-eq-cut_out, cut_out-failing visible pre excess events),
        rw (compact-eq-cut_out, parts)
            (few _ (
              omega (
                arith,
                length-append (take pre seen) (drop excess (drop pre seen)),
                length-take pre seen,
                length-drop excess (drop pre seen),
                length-drop pre seen,
              ))),
      )
    where
      few :
          (m : ℕ)
          → m ≤ c.threshold + c.preserve_leading_events
          → ltb (c.threshold + c.preserve_leading_events) m ≡ false
      few m h = ground arith
