-- ===== src/Compaction/Retain.antt =====
-- The index at which a history is cut.
use adk_js.Prelude.{
  ℕ, zero, suc, ◌-◌, ◌≤◌, ◌<◌, ◌≡◌, ◌≢◌, refl, ◌⊎◌, inl, inr, true, false, none, some, List, [],
  ◌∷◌, length, get_elem?, arith,
}
use adk_js.Event.{Event}
use adk_js.Event.Calls.{Calls, Responds, get_function_calls-cases, get_function_responses-cases}
use adk_js.Compaction.{separates, step_back, calculate_retain_start_index}

module _ {V : Type 0} where
  -- A cut at an index falls between an event with a function call and, right behind it, an event
  -- with a function response.
  pub data IsParted (raw : List (Event V)) : ℕ → Type 0 where
    parted :
        (k : ℕ) (before here : Event V)
        → get_elem? raw k ≡ some before
        → get_elem? raw (suc k) ≡ some here
        → Calls before
        → Responds here
        → IsParted raw (suc k)

  -- So does every cut above `i` up to `j`.
  pub data AllParted (raw : List (Event V)) (i : ℕ) : ℕ → Type 0 where
    same : AllParted raw i i
    above : {j : ℕ} → AllParted raw i j → IsParted raw (suc j) → AllParted raw i (suc j)

  -- The highest cut that keeps `size` events, if there are so many, and is not such a one.
  pub record IsRetainStart (raw : List (Event V)) (size i : ℕ) : Type 0 where
    pub bound : i ≤ length raw - size
    pub whole : ¬ IsParted raw i
    pub highest : AllParted raw i (length raw - size)

  get_elem?-some :
      (raw : List (Event V)) (i : ℕ) → i < length raw → (e : Event V) × (get_elem? raw i ≡ some e)
  get_elem?-some [] i h = elim h [ ]
  get_elem?-some (e ∷ raw) zero h = (e, refl)
  get_elem?-some (e ∷ raw) (suc i) h = get_elem?-some raw i (omega arith)

  get_elem?_end : (raw : List (Event V)) → get_elem? raw (length raw) ≡ none
  get_elem?_end [] = refl
  get_elem?_end (e ∷ raw) = get_elem?_end raw

  separates-cases :
      (before here : Event V)
      → ((separates before here ≡ true) × Calls before × Responds here)
        ⊎ ((separates before here ≡ false) × ¬ (Calls before × Responds here))
  separates-cases before here = elim (get_function_responses-cases here) [
    | inr (n, h) ↦ inr (rw n refl, λ (c, r). h r)
    | inl (y, r) ↦ elim (get_function_calls-cases before) [
      | inr (n, h) ↦ inr (rw (y, n) refl, λ (c, r'). h c)
      | inl (y', c) ↦ inl (rw (y, y') refl, c, r)
    ]
  ]

  IsParted-zero : (raw : List (Event V)) → ¬ IsParted raw 0
  IsParted-zero raw h = elim h [ ]

  IsParted-suc :
      (raw : List (Event V)) (j : ℕ) (before here : Event V)
      → get_elem? raw j ≡ some before
      → get_elem? raw (suc j) ≡ some here
      → IsParted raw (suc j)
      → Calls before × Responds here
  IsParted-suc raw j b h p q (parted _ b' h' p' q' c r) =
      let before : b' ≡ b = cc in let here : h' ≡ h = cc in (rw before at c, rw here at r)

  step_back_lem :
      (raw : List (Event V)) (j : ℕ)
      → (j ≡ 0) ⊎ (j < length raw)
      → (i : ℕ) × (step_back raw j ≡ some i) × (i ≤ j) × (¬ IsParted raw i) × AllParted raw i j
  unfolding step_back
  step_back_lem raw zero h = (0, refl, omega arith, IsParted-zero raw, same)
  step_back_lem raw (suc j) h =
      let (here, at) = get_elem?-some raw (suc j) (omega arith) in
      let (before, at') = get_elem?-some raw j (omega arith) in
      elim (separates-cases before here) [
        | inl (bad, c, r) ↦
            let (i, found, le, whole, all) = step_back_lem raw j (inr (omega arith)) in
            (
              i,
              ground (arith, at, at', bad, found),
              omega arith,
              whole,
              above all (parted j before here at' at c r),
            )
        | inr (good, none_such) ↦ (
          suc j,
          ground (arith, at, at', good),
          omega arith,
          λ p. none_such (IsParted-suc raw j before here at' at p),
          same,
        )
      ]

  -- With a retention size of at least one, an index is returned: it keeps at least `size` events if
  -- there are so many; it does not fall between an event with a function call and an event with a
  -- function response right behind it; and it is the highest such index, since every one above it
  -- that keeps `size` events falls between two such events.
  pub calculate_retain_start_index_lem :
      (raw : List (Event V)) (size : ℕ)
      → 0 < size
      → (i : ℕ) × (calculate_retain_start_index raw size ≡ some i) × IsRetainStart raw size i
  unfolding calculate_retain_start_index
  calculate_retain_start_index_lem raw size h =
      let (i, found, bound, whole, highest) =
        step_back_lem raw (length raw - size) (past raw size h) in
      (i, found, record { bound = bound; whole = whole; highest = highest })
    where
      past :
          (raw : List (Event V)) (size : ℕ)
          → 0 < size
          → (length raw - size ≡ 0) ⊎ (length raw - size < length raw)
      past [] size h = inl (omega arith)
      past (e ∷ raw) size h = inr (omega arith)

  -- With a retention size of zero and any event at all, the function throws: it reads the event
  -- behind the last one.
  pub calculate_retain_start_index_throws :
      (raw : List (Event V)) → raw ≢ [] → calculate_retain_start_index raw 0 ≡ none
  unfolding calculate_retain_start_index step_back
  calculate_retain_start_index_throws [] h = absurd (h refl)
  calculate_retain_start_index_throws (e ∷ raw) h = ground (arith, get_elem?_end raw)
