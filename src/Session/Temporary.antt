-- ===== src/Session/Temporary.antt =====
-- Keys with the prefix `temp:` live only as long as the invocation that writes them.
use adk_js.Prelude.{
  ℕ, ◌≡◌, refl, ap, ◌∙◌, ◌⊎◌, inl, inr, String, true, none, [], ◌∷◌, arith, eq_iff, str_eq,
  Bool-cases,
}
use adk_js.Prelude.Dict.{Dict, lookup}
use adk_js.Prelude.Text.{starts_with}
use adk_js.Event.{Event, Stamped}
use adk_js.Session.{
  Session, temp_prefix, without_temp, apply_entry, apply_entries, update_session_state,
  trim_temp_delta_state, append_event,
}
use adk_js.Session.WriteOrder.{apply_entry_other}

module _ {V : Type 0} where
  lookup-without_temp :
      (d : Dict V) (j : String)
      → starts_with temp_prefix j ≡ true
      → lookup j (without_temp d) ≡ none
  lookup-without_temp [] j h = refl
  lookup-without_temp ((k, v) ∷ d) j h =
      let rest = lookup-without_temp d j h in
      elim (Bool-cases (starts_with temp_prefix k)) [
        | inl t ↦ rw t rest
        | inr f ↦ rw f (ground (arith, rest, h, f, eq_iff k j))
      ]

  apply_entry_temp :
      (clock : ℕ) (state delta : Stamped V) (k : String) (v : V)
      → starts_with temp_prefix k ≡ true
      → (apply_entry clock state delta k v).1 ≡ state
  unfolding apply_entry
  apply_entry_temp clock state delta k v h = rw h refl

  apply_entries_temp :
      (d : Dict V) (clock : ℕ) (state delta : Stamped V) (j : String)
      → starts_with temp_prefix j ≡ true
      → lookup j (apply_entries clock state delta d).1.entries ≡ lookup j state.entries
  unfolding apply_entries
  apply_entries_temp [] clock state delta j h = refl
  apply_entries_temp ((k, v) ∷ d) clock state delta j h =
      let next = apply_entry clock state delta k v in
      apply_entries_temp d next.0 next.1 delta j h ∙ (elim (Bool-cases (str_eq k j)) [
        | inr e ↦ (apply_entry_other clock state delta k v j e).0
        | inl e ↦
            let same : k ≡ j = (eq_iff k j).0 e in
            ap (λ x. lookup j x.entries) (apply_entry_temp clock state delta k v (rw same h))
      ])

  -- Appending an event never changes what the session's state holds under a key with the prefix
  -- `temp:`, and unless the event is partial, such a key is no longer in its delta.
  pub append_event_temp :
      (clock : ℕ) (s : Session V) (e : Event V) (j : String)
      → starts_with temp_prefix j ≡ true
      → (lookup j (append_event clock s e).1.state.entries ≡ lookup j s.state.entries)
        × ((e.partial ≡ true)
            ⊎ (lookup j (append_event clock s e).2.actions.state_delta.entries ≡ none))
  unfolding append_event trim_temp_delta_state update_session_state
  append_event_temp clock s e j h =
      let trimmed = trim_temp_delta_state e in
      let delta = trimmed.actions.state_delta in
      elim (Bool-cases e.partial) [
        | inl p ↦ (ground (arith, p), inl p)
        | inr p ↦ (
          ground (arith, p, apply_entries_temp delta.entries clock s.state delta j h),
          inr (ground (arith, p, lookup-without_temp e.actions.state_delta.entries j h)),
        )
      ]
