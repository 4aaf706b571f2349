-- ===== src/Session/WriteOrder.antt =====
-- A late commit cannot roll a key back.
use adk_js.Prelude.{
  ℕ, suc, ◌≡◌, refl, inl, inr, String, Bool, true, false, ◌||◌, Option, none, some, [], ◌∷◌, arith,
  eq_iff, str_eq, Bool-cases, if◌then◌else◌,
}
use adk_js.Prelude.Dict.{Dict, lookup, has, lookup-put, HasDistinctKeys}
use adk_js.Prelude.Text.{starts_with}
use adk_js.Event.{Event, Stamped}
use adk_js.Session.{
  Session, temp_prefix, is_superseded, stamp_or_tick, apply_entry, apply_entries,
  update_session_state,
}

module _ {V : Type 0} where
  -- The entry of the delta does not reach the state: its key is temporary, or a newer write has.
  abbrev pub is_held_back : Stamped V → Stamped V → String → Bool
  is_held_back state delta key =
      starts_with temp_prefix key
      || is_superseded (lookup key delta.stamps) (lookup key state.stamps)

  -- What a committed delta should leave under a key.
  abbrev pub committed : Stamped V → Stamped V → Dict V → String → Option V
  committed state delta entries key = elim (lookup key entries) [
    | none ↦ lookup key state.entries
    | some v ↦ if is_held_back state delta key then lookup key state.entries else some v
  ]

  stamp_or_tick-other :
      (clock : ℕ) (written : Option ℕ) (k j : String) (state : Stamped V)
      → str_eq k j ≡ false
      → (lookup j (stamp_or_tick clock written k state).1.entries ≡ lookup j state.entries)
        × (lookup j (stamp_or_tick clock written k state).1.stamps ≡ lookup j state.stamps)
  stamp_or_tick-other clock none k j state h =
      (refl, ground (arith, lookup-put k j (suc clock) state.stamps))
  stamp_or_tick-other clock (some n) k j state h =
      (refl, ground (arith, lookup-put k j n state.stamps))

  stamp_or_tick-entries :
      (clock : ℕ) (written : Option ℕ) (k : String) (state : Stamped V)
      → (stamp_or_tick clock written k state).1.entries ≡ state.entries
  stamp_or_tick-entries clock none k state = refl
  stamp_or_tick-entries clock (some n) k state = refl

  pub apply_entry_other :
      (clock : ℕ) (state delta : Stamped V) (k : String) (v : V) (j : String)
      → str_eq k j ≡ false
      → (lookup j (apply_entry clock state delta k v).1.entries ≡ lookup j state.entries)
        × (lookup j (apply_entry clock state delta k v).1.stamps ≡ lookup j state.stamps)
  unfolding apply_entry
  apply_entry_other clock state delta k v j h =
      let applied = (stamp_or_tick clock (lookup k delta.stamps) k state).1 in
      let other = stamp_or_tick-other clock (lookup k delta.stamps) k j state h in
      let after = lookup-put k j v applied.entries in
      (ground (arith, other, after), ground (arith, other))

  apply_entry_same :
      (clock : ℕ) (state delta : Stamped V) (k : String) (v : V) (j : String)
      → str_eq k j ≡ true
      → lookup j (apply_entry clock state delta k v).1.entries
        ≡ (if is_held_back state delta k then lookup j state.entries else some v)
  unfolding apply_entry
  apply_entry_same clock state delta k v j h =
      let written = lookup k delta.stamps in
      let after = lookup-put k j v (stamp_or_tick clock written k state).1.entries in
      ground (arith, after, stamp_or_tick-entries clock written k state)

  lookup_absent :
      (d : Dict V) (k j : String) → str_eq k j ≡ true → has k d ≡ false → lookup j d ≡ none
  lookup_absent [] k j h n = refl
  lookup_absent ((i, v) ∷ d) k j h n =
      ground (arith, eq_iff k j, eq_iff i k, eq_iff i j, lookup_absent d k j)

  apply_entries_lem :
      (entries : Dict V) (clock : ℕ) (state delta : Stamped V) (j : String)
      → HasDistinctKeys entries
      → lookup j (apply_entries clock state delta entries).1.entries
        ≡ committed state delta entries j
  unfolding apply_entries
  apply_entries_lem [] clock state delta j h = refl
  apply_entries_lem ((k, v) ∷ d) clock state delta j h =
      let next = apply_entry clock state delta k v in
      let rest = apply_entries_lem d next.0 next.1 delta j h.1 in
      elim (Bool-cases (str_eq k j)) [
        | inl e ↦
            let same = apply_entry_same clock state delta k v j e in
            let absent = lookup_absent d k j e h.0 in ground (arith, rest, same, absent, eq_iff k j)
        | inr e ↦ ground (arith, rest, apply_entry_other clock state delta k v j e)
      ]

  -- When a delta, whose keys are distinct, is committed, every key of the session's state holds the
  -- delta's value, save that the keys with the prefix `temp:`, the keys to which a newer write has
  -- gone, and the keys not in the delta hold what they held; only the state of the session changes.
  pub update_session_state_lem :
      (clock : ℕ) (s : Session V) (e : Event V) (j : String)
      → HasDistinctKeys e.actions.state_delta.entries
      → (lookup j (update_session_state clock s e).1.state.entries
          ≡ committed s.state e.actions.state_delta e.actions.state_delta.entries j)
        × (record (update_session_state clock s e).1 { state = s.state } ≡ s)
  unfolding update_session_state
  update_session_state_lem clock s e j h =
      let delta = e.actions.state_delta in
      (apply_entries_lem delta.entries clock s.state delta j h, refl)
