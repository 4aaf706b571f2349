-- ===== src/Compaction/TokenBased/Summary.antt =====
-- What a session's events show to an agent before and behind a compaction by tokens.
use adk_js.Prelude.{
  ℕ, zero, suc, ◌≤◌, ◌<◌, ◌≡◌, refl, ◌∙◌, sym, ap, inl, inr, String, true, false, ◌&&◌, Option,
  none, some, List, [], ◌∷◌, ◌++◌, append-nil, append_assoc, length, length-drop, take, drop,
  keep_if, keep_if-append, take-append-drop, leb, arith, eq_iff, Bool-cases, Option-cases,
}
use adk_js.Event.{Event, Compaction}
use adk_js.Compaction.{
  is_event_visible_in_isolation_scope, get_active_events, calculate_retain_start_index,
}
use adk_js.Compaction.Retain.{IsRetainStart, calculate_retain_start_index_lem}
use adk_js.Compaction.TokenBased.{
  TokenBasedContextCompactor, raw_events, find_compacted, tag, compact,
}
use adk_js.Compaction.TokenBased.Active.{
  end_of, IsChronological, raw, later, visible, latest_compacted-append, later-drop, IsActive-split,
  IsActive-later, get_active_events-IsActive,
}

module _ {V : Type 0} where
  -- What a summarizer promises of its event: it is a compacted one, ends with the last event that
  -- it got, and has no isolation scope.
  pub record IsSummary (es : List (Event V)) (s : Event V) : Type 0 where
    pub compaction : Compaction
    pub compacted : s.compacted ≡ some compaction
    pub ends : end_of es ≡ some compaction.end_time
    pub untagged : s.isolation_scope ≡ none

  end_of-append :
      (xs : List (Event V)) (y : Event V) (ys : List (Event V))
      → end_of (xs ++ y ∷ ys) ≡ end_of (y ∷ ys)
  end_of-append [] y ys = refl
  end_of-append (x ∷ []) y ys = refl
  end_of-append (x ∷ z ∷ xs) y ys = end_of-append (z ∷ xs) y ys

  end_of-append-take :
      (xs ys : List (Event V)) (i : ℕ)
      → i < length ys
      → end_of (xs ++ take (suc i) ys) ≡ end_of (take (suc i) ys)
  end_of-append-take xs [] i h = absurd (omega arith)
  end_of-append-take xs (y ∷ ys) i h = end_of-append xs y (take i ys)

  tag_visible :
      (scope : Option String) (s : Event V)
      → s.isolation_scope ≡ none
      → is_event_visible_in_isolation_scope scope (tag scope s) ≡ true
  tag_visible none s h = ground (arith, h)
  tag_visible (some t) s h = ground (arith, h, eq_iff t t)

  tag_compacted : (scope : Option String) (s : Event V) → (tag scope s).compacted ≡ s.compacted
  tag_compacted scope s = elim (Option-cases s.isolation_scope) [
    | inl n ↦ ground (arith, n)
    | inr (t, n) ↦ ground (arith, n)
  ]

  -- What is active once a compacted event stands at the end.
  active_behind :
      (events : List (Event V)) (scope : Option String) (s : Event V) (c : Compaction)
      → is_event_visible_in_isolation_scope scope s ≡ true
      → s.compacted ≡ some c
      → get_active_events (events ++ s ∷ []) scope
        ≡ s ∷ keep_if (λ e. raw e && later c.end_time e) (visible events scope)
  unfolding get_active_events
  active_behind events scope s c v m =
      let recent = λ (e : Event V). raw e && later c.end_time e in
      let one : visible (s ∷ []) scope ≡ s ∷ [] = ground (arith, v) in
      let shown : visible (events ++ s ∷ []) scope ≡ visible events scope ++ s ∷ [] =
        keep_if-append (is_event_visible_in_isolation_scope scope) events (s ∷ [])
        ∙ ap (λ x. visible events scope ++ x) one in
      let gone : keep_if recent (s ∷ []) ≡ [] = ground (arith, m) in
      let kept : keep_if recent (visible events scope ++ s ∷ [])
          ≡ keep_if recent (visible events scope) =
        keep_if-append recent (visible events scope) (s ∷ [])
        ∙ ap (λ x. keep_if recent (visible events scope) ++ x) gone
        ∙ append-nil _ in
      rw (get_active_events, shown, latest_compacted-append (visible events scope) s c m)
        (ap (λ x. s ∷ keep_if recent x) shown ∙ ap (λ x. s ∷ x) kept)

module _ {V : Type 0} (size : ℕ) (scope : Option String) (events : List (Event V)) where
  -- The events that a compaction replaces: all the active ones but the raw ones from an index on,
  -- which is the highest that keeps `size` of them and parts no pair, and is not zero.
  pub record IsOld (i : ℕ) (old : List (Event V)) : Type 0 where
    pub some_old : 0 < i
    pub start : IsRetainStart (raw_events events scope) size i
    pub enough : size ≤ length (drop i (raw_events events scope))
    pub active : get_active_events events scope ≡ old ++ drop i (raw_events events scope)

  -- How a compaction may end, with the new events or an error.
  pub data Outcome (summarize : List (Event V) → Option (Event V))
      : Option (List (Event V)) → Type 0 where
    few : length (raw_events events scope) ≤ size → Outcome summarize (some events)
    uncut : IsRetainStart (raw_events events scope) size 0 → Outcome summarize (some events)
    rejected :
        (i : ℕ) (old : List (Event V)) → IsOld i old → summarize old ≡ none → Outcome summarize none
    appended :
        (i : ℕ) (old : List (Event V)) (s : Event V)
        → IsOld i old
        → summarize old ≡ some s
        → get_active_events (events ++ tag scope s ∷ []) scope
          ≡ tag scope s ∷ drop i (raw_events events scope)
        → Outcome summarize (some (events ++ tag scope s ∷ []))

module _ {V : Type 0} where
  -- The active events behind a summary of all of them but the later raw ones.
  active_summary :
      (scope : Option String) (events : List (Event V)) (i : ℕ) (s : Event V)
      → IsChronological (raw_events events scope)
      → i < length (raw_events events scope)
      → IsSummary
          (find_compacted (get_active_events events scope)
            ++ take (suc i) (raw_events events scope))
          s
      → get_active_events (events ++ tag scope s ∷ []) scope
        ≡ tag scope s ∷ drop (suc i) (raw_events events scope)
  active_summary scope events i s d h promise =
      let record { compaction = c; compacted = m; ends = e; untagged = n } = promise in
      let active = get_active_events events scope in
      let raws = raw_events events scope in
      let end : end_of (take (suc i) raws) ≡ some c.end_time =
        sym (end_of-append-take (find_compacted active) raws i h) ∙ e in
      active_behind events scope (tag scope s) c (tag_visible scope s n) (tag_compacted scope s ∙ m)
      ∙ ap (λ es. tag scope s ∷ es)
          (sym (
              IsActive-later (visible events scope) active (suc i) c.end_time
                (get_active_events-IsActive events scope) end)
            ∙ later-drop raws i c.end_time d end)

  take-IsOld :
      (scope : Option String) (events : List (Event V)) (size i : ℕ)
      → size ≤ length (raw_events events scope)
      → IsRetainStart (raw_events events scope) size (suc i)
      → IsOld size scope events (suc i) (
          find_compacted (get_active_events events scope) ++ take (suc i) (raw_events events scope))
  take-IsOld scope events size i h start =
      let active = get_active_events events scope in
      let raws = raw_events events scope in
      let bound = start.bound in
      record {
        some_old = omega arith;
        start = start;
        enough = omega (arith, length-drop (suc i) raws);
        active =
            IsActive-split (visible events scope) active (get_active_events-IsActive events scope)
            ∙ ap (λ es. find_compacted active ++ es) (sym (take-append-drop (suc i) raws))
            ∙ sym (append_assoc (find_compacted active) (take (suc i) raws) (drop (suc i) raws));
      }

  compact-Outcome :
      (summarize : List (Event V) → Option (Event V)) (c : TokenBasedContextCompactor)
      (scope : Option String) (events : List (Event V)) (i : ℕ)
      → IsChronological (raw_events events scope)
      → ((es : List (Event V)) (s : Event V) → summarize es ≡ some s → IsSummary es s)
      → leb (length (raw_events events scope)) c.event_retention_size ≡ false
      → calculate_retain_start_index (raw_events events scope) c.event_retention_size ≡ some i
      → IsRetainStart (raw_events events scope) c.event_retention_size i
      → Outcome c.event_retention_size scope events summarize (compact summarize c scope events)
  unfolding compact
  compact-Outcome summarize c scope events zero d promise n found start =
      let same : compact summarize c scope events ≡ some events = rw (compact, n, found) refl in
      rw same (uncut start)
  compact-Outcome summarize c scope events (suc i) d promise n found start =
      let raws = raw_events events scope in
      let old = find_compacted (get_active_events events scope) ++ take (suc i) raws in
      let is_old = take-IsOld scope events c.event_retention_size i (ground (arith, n)) start in
      elim (Option-cases (summarize old)) [
        | inl r ↦
            let same : compact summarize c scope events ≡ none = ground (arith, n, found, r) in
            rw same (rejected (suc i) old is_old r)
        | inr (s, r) ↦
            let same : compact summarize c scope events ≡ some (events ++ tag scope s ∷ []) =
              ground (arith, n, found, r) in
            let in_range : i < length raws = ground (arith, n, start.bound) in
            let shown = active_summary scope events i s d in_range (promise old s r) in
            rw same (appended (suc i) old s is_old r shown)
      ]

  -- For a retention size of at least one, raw events at increasing times, and a summarizer whose
  -- events are compacted ones that end with the last event it got and have no isolation scope.
  -- Compaction appends the summary of an initial part of the active events, which ends with a raw
  -- one; behind it the active events are the summary and the other raw events, which are at least
  -- as many as the retention size. The cut is not between an event with a function call and an
  -- event with a response right behind it, and is the highest such. Nothing is appended only where
  -- the raw events are no more than the retention size or the highest such cut is before the first
  -- of them, and the only error is that the summarizer rejects what it is to summarise.
  pub token_based_compact_lem :
      (summarize : List (Event V) → Option (Event V)) (c : TokenBasedContextCompactor)
      (scope : Option String) (events : List (Event V))
      → 0 < c.event_retention_size
      → IsChronological (raw_events events scope)
      → ((es : List (Event V)) (s : Event V) → summarize es ≡ some s → IsSummary es s)
      → Outcome c.event_retention_size scope events summarize (compact summarize c scope events)
  unfolding compact
  token_based_compact_lem summarize c scope events h d promise =
      let raws = raw_events events scope in
      let size = c.event_retention_size in
      let (i, found, start) = calculate_retain_start_index_lem raws size h in
      elim (Bool-cases (leb (length raws) size)) [
        | inl y ↦
            let same : compact summarize c scope events ≡ some events = rw (compact, y) refl in
            rw same (few (ground (arith, y)))
        | inr n ↦ compact-Outcome summarize c scope events i d promise n found start
      ]
