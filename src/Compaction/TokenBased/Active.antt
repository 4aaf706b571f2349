-- ===== src/Compaction/TokenBased/Active.antt =====
-- The active events: how `getActiveEvents` and the raw ones among them fit together.
use adk_js.Prelude.{
  ℕ, zero, suc, ◌<◌, ◌≡◌, refl, ◌∙◌, sym, ap, inl, inr, String, Bool, true, not, ◌&&◌, Option, none,
  some, List, [], ◌∷◌, ◌++◌, take, drop, keep_if, keep_if_ext, keep_if-All, take-All,
  keep_if-keep_if, All, ltb, arith, Option-cases,
}
use adk_js.Event.{Event, Compaction, is_compacted_event}
use adk_js.Compaction.{is_event_visible_in_isolation_scope, latest_compacted, get_active_events}
use adk_js.Compaction.TokenBased.{find_compacted}

module _ {V : Type 0} where
  -- The time of the last event.
  abbrev pub end_of : List (Event V) → Option ℕ
  end_of [] = none
  end_of (e ∷ []) = some e.timestamp
  end_of (e ∷ f ∷ es) = end_of (f ∷ es)

  -- Each event is later than those before it.
  abbrev pub IsChronological : List (Event V) → Type 0
  IsChronological [] = Unit
  IsChronological (e ∷ es) = All (λ f. e.timestamp < f.timestamp) es × IsChronological es

  abbrev pub raw : Event V → Bool
  raw e = not (is_compacted_event e)

  abbrev pub later : ℕ → Event V → Bool
  later t e = ltb t e.timestamp

  pub latest_compacted-append :
      (es : List (Event V)) (s : Event V) (c : Compaction)
      → s.compacted ≡ some c
      → latest_compacted (es ++ s ∷ []) ≡ some (s, c)
  latest_compacted-append [] s c h = simp (h) refl
  latest_compacted-append (e ∷ es) s c h = rw (latest_compacted-append es s c h) refl

  latest_compacted_lem :
      (es : List (Event V)) (s : Event V) (c : Compaction)
      → latest_compacted es ≡ some (s, c)
      → s.compacted ≡ some c
  latest_compacted_lem [] s c h = cc
  latest_compacted_lem (e ∷ es) s c h = elim (Option-cases (latest_compacted es)) [
    | inr ((f, d), g) ↦ latest_compacted_lem es s c (g ∙ (rw g at h))
    | inl n ↦ elim (Option-cases e.compacted) [
      | inl m ↦ cc (rw (n, m) at h)
      | inr (d, m) ↦
          let g : some (e, d) ≡ latest_compacted (e ∷ es) = ground (arith, n, m) in
          let g' = g ∙ h in
          let (same, same') : (e ≡ s) × (d ≡ c) = (cc, cc) in
          sym (ap (λ x. x.compacted) same) ∙ m ∙ ap some same'
    ]
  ]

  no_compacted :
      (es : List (Event V))
      → latest_compacted es ≡ none
      → (keep_if raw es ≡ es) × (find_compacted es ≡ [])
  no_compacted [] h = (refl, refl)
  no_compacted (e ∷ es) h = elim (Option-cases (latest_compacted es)) [
    | inr (f, g) ↦ cc (rw g at h)
    | inl n ↦ elim (Option-cases e.compacted) [
      | inr (d, m) ↦ cc (rw (n, m) at h)
      | inl m ↦ let (k, f) = no_compacted es n in (ground (arith, m, k), ground (arith, m, f))
    ]
  ]

  abbrev pub visible : List (Event V) → Option String → List (Event V)
  visible events scope = keep_if (is_event_visible_in_isolation_scope scope) events

  -- The active events are all the visible ones, none of them compacted, or a compacted one and the
  -- raw ones later than its end.
  pub data IsActive (vs : List (Event V)) : List (Event V) → Type 0 where
    all : keep_if raw vs ≡ vs → find_compacted vs ≡ [] → IsActive vs vs
    since :
        (l : Event V) (c : Compaction)
        → l.compacted ≡ some c
        → IsActive vs (l ∷ keep_if (λ e. raw e && later c.end_time e) vs)

  pub get_active_events-IsActive :
      (events : List (Event V)) (scope : Option String)
      → IsActive (visible events scope) (get_active_events events scope)
  unfolding get_active_events
  get_active_events-IsActive events scope =
      elim (Option-cases (latest_compacted (visible events scope))) [
        | inl n ↦
            let (k, f) = no_compacted (visible events scope) n in
            rw (get_active_events, n) (all k f)
        | inr ((l, c), h) ↦
            rw (get_active_events, h)
              (since l c (latest_compacted_lem (visible events scope) l c h))
      ]

  raw_twice :
      (vs : List (Event V)) (t : ℕ)
      → keep_if raw (keep_if (λ e. raw e && later t e) vs) ≡ keep_if (λ e. raw e && later t e) vs
  raw_twice vs t =
      keep_if-keep_if (λ e. raw e && later t e) raw vs ∙ keep_if_ext _ _ vs (λ e. ground arith)

  raw_of-cons :
      (l : Event V) (c : Compaction) (es : List (Event V))
      → l.compacted ≡ some c
      → (keep_if raw (l ∷ es) ≡ keep_if raw es) × (find_compacted (l ∷ es) ≡ l ∷ [])
  raw_of-cons l c es h = (ground (arith, h), ground (arith, h))

  pub IsActive-split :
      (vs active : List (Event V))
      → IsActive vs active
      → active ≡ find_compacted active ++ keep_if raw active
  IsActive-split vs _ (all k f) = rw (f, k) refl
  IsActive-split vs _ (since l c h) =
      let es = keep_if (λ e. raw e && later c.end_time e) vs in
      let (k, f) = raw_of-cons l c es h in
      ap (λ x. l ∷ x) (sym (k ∙ raw_twice vs c.end_time))
      ∙ ap (λ x. x ++ keep_if raw (l ∷ es)) (sym f)

  end_of-All :
      (P : Event V → Type 0) (es : List (Event V)) (t : ℕ)
      → All P es
      → end_of es ≡ some t
      → (e : Event V) × (e.timestamp ≡ t) × P e
  end_of-All P [] t h g = cc
  end_of-All P (e ∷ []) t (h, hs) g = (e, cc, h)
  end_of-All P (e ∷ f ∷ es) t (h, hs) g = end_of-All P (f ∷ es) t hs g

  keep_later :
      (es : List (Event V)) (t : ℕ) → All (λ f. t < f.timestamp) es → keep_if (later t) es ≡ es
  keep_later [] t h = refl
  keep_later (e ∷ es) t (h, hs) = ground (arith, h, keep_later es t hs)

  -- The raw events later than the last of the first ones are the others.
  pub later-drop :
      (es : List (Event V)) (i t : ℕ)
      → IsChronological es
      → end_of (take (suc i) es) ≡ some t
      → keep_if (later t) es ≡ drop (suc i) es
  later-drop [] i t d h = cc
  later-drop (e ∷ es) zero t (l, d) h =
      let now : e.timestamp ≡ t = cc in ground (arith, now, keep_later es t (rw now at l))
  later-drop (e ∷ []) (suc i) t (l, d) h = ground (arith, h)
  later-drop (e ∷ f ∷ es) (suc i) t (l, d) h =
      let after = λ (g : Event V). e.timestamp < g.timestamp in
      let rest = take (suc i) (f ∷ es) in
      let (g, at, lt) = end_of-All after rest t (take-All after (suc i) (f ∷ es) l) h in
      ground (arith, at, lt, later-drop (f ∷ es) i t d h)

  pub IsActive-later :
      (vs active : List (Event V)) (i t : ℕ)
      → IsActive vs active
      → end_of (take i (keep_if raw active)) ≡ some t
      → keep_if (later t) (keep_if raw active) ≡ keep_if (λ e. raw e && later t e) vs
  IsActive-later vs _ i t (all k f) h = keep_if-keep_if raw (later t) vs
  IsActive-later vs _ i t (since l c m) h =
      let recent = λ (e : Event V). raw e && later c.end_time e in
      let same = (raw_of-cons l c (keep_if recent vs) m).0 ∙ raw_twice vs c.end_time in
      let known = keep_if-All recent vs in
      let (g, at, in_time) =
        end_of-All (λ e. recent e ≡ true) (take i (keep_if recent vs)) t
          (take-All (λ e. recent e ≡ true) i (keep_if recent vs) known) (rw same at h) in
      let after : c.end_time < t = ground (arith, at, in_time) in
      ap (keep_if (later t)) same
      ∙ keep_if-keep_if recent (later t) vs
      ∙ keep_if_ext _ _ vs (λ e. ground arith)
