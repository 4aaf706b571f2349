-- ===== src/Session.antt =====
-- core/src/sessions: a session, the order of writes to its state (state_write_order.ts), and what
-- every session service does with an event (base_session_service.ts). The write clock of the
-- process is passed along. A stamp belongs to one object; a copy of an object starts without stamps.
pub mod WriteOrder
pub mod Temporary
pub mod State
pub mod InMemory
mod Tests
use adk_js.Prelude.{
  ℕ, suc, String, Bool, true, false, not, ◌||◌, Option, none, some, List, [], ◌∷◌, ◌++◌, ltb,
  str_eq, if◌then◌else◌,
}
use adk_js.Prelude.Dict.{Dict, lookup, put, assign}
use adk_js.Prelude.Text.{starts_with}
use adk_js.Event.{Event, Stamped, EventActions}
use Prim.Native.String.{◌++◌ as str_append}

abbrev pub app_prefix : String
app_prefix = "app:"

abbrev pub user_prefix : String
user_prefix = "user:"

abbrev pub temp_prefix : String
temp_prefix = "temp:"

-- session.ts
pub record Session (V : Type 0) : Type 0 where
  pub id : String
  pub app_name : String
  pub user_id : String
  pub state : Stamped V
  pub events : List (Event V)
  pub last_update_time : ℕ

-- `written !== undefined && current !== undefined && current > written`
abbrev pub is_superseded : Option ℕ → Option ℕ → Bool
is_superseded (some written) (some current) = ltb written current
is_superseded _ _ = false

module _ {V : Type 0} where
  abbrev pub unstamped : Dict V → Stamped V
  unstamped d = record { entries = d; stamps = [] }

  abbrev stamp : String → ℕ → Stamped V → Stamped V
  stamp key n s = record s { stamps = put key n s.stamps }

  -- The clock, the state and the delta, which are two objects.
  pub record_state_write : ℕ → Stamped V → Stamped V → String → ℕ × Stamped V × Stamped V
  record_state_write clock state delta key =
      let now = suc clock in (now, stamp key now state, stamp key now delta)

  pub adopt_delta_stamp : Stamped V → Stamped V → String → Stamped V
  adopt_delta_stamp state delta key = elim (lookup key delta.stamps) [
    | none ↦ state
    | some n ↦ stamp key n state
  ]

  abbrev stamp_or_tick : ℕ → Option ℕ → String → Stamped V → ℕ × Stamped V
  stamp_or_tick clock none key state = (suc clock, stamp key (suc clock) state)
  stamp_or_tick clock (some written) key state = (clock, stamp key written state)

  pub should_apply_delta_write : ℕ → Stamped V → Stamped V → String → Bool × ℕ × Stamped V
  should_apply_delta_write clock state delta key =
      let written = lookup key delta.stamps in
      let applied = stamp_or_tick clock written key state in
      if is_superseded written (lookup key state.stamps)
      then (false, clock, state)
      else (true, applied.0, applied.1)

  pub carry_delta_stamp : Stamped V → Stamped V → String → Stamped V
  carry_delta_stamp from to key = elim (lookup key from.stamps) [
    | none ↦ to
    | some n ↦ stamp key n to
  ]

  pub carry_delta_stamps : Stamped V → Stamped V → Stamped V
  carry_delta_stamps from to = record to { stamps = assign to.stamps from.stamps }

  -- The loops that keep the keys without the prefix `temp:`.
  abbrev without_temp : Dict V → Dict V
  without_temp [] = []
  without_temp ((k, v) ∷ d) =
      let rest = without_temp d in if starts_with temp_prefix k then rest else (k, v) ∷ rest

  unfoldable pub trim_temp_state : Dict V → Dict V
  trim_temp_state state = without_temp state

  abbrev with_delta : Event V → Stamped V → Event V
  with_delta e d = record e { actions = record e.actions { state_delta = d } }

  pub trim_temp_delta_state : Event V → Event V
  unfolding carry_delta_stamps
  trim_temp_delta_state e =
      let delta = e.actions.state_delta in
      with_delta e (carry_delta_stamps delta (unstamped (without_temp delta.entries)))

  -- One round of the loop of `updateSessionState`.
  pub apply_entry : ℕ → Stamped V → Stamped V → String → V → ℕ × Stamped V
  unfolding should_apply_delta_write
  apply_entry clock state delta key value =
      let (go, clock', state') = should_apply_delta_write clock state delta key in
      if starts_with temp_prefix key
      then (clock, state)
      else if go
      then (clock', record state' { entries = put key value state'.entries })
      else (clock', state')

  apply_entries : ℕ → Stamped V → Stamped V → Dict V → ℕ × Stamped V
  unfolding apply_entry
  apply_entries clock state delta [] = (clock, state)
  apply_entries clock state delta ((k, v) ∷ d) =
      let (clock', state') = apply_entry clock state delta k v in
      apply_entries clock' state' delta d

  pub update_session_state : ℕ → Session V → Event V → ℕ × Session V
  unfolding apply_entries
  update_session_state clock s e =
      let delta = e.actions.state_delta in
      let (clock', state) = apply_entries clock s.state delta delta.entries in
      (clock', record s { state = state })

  -- The event replaces the first event with its id, or goes to the end.
  add_event : Event V → List (Event V) → List (Event V)
  add_event e [] = e ∷ []
  add_event e (f ∷ fs) = if str_eq f.id e.id then e ∷ fs else f ∷ add_event e fs

  -- `BaseSessionService.appendEvent`: the clock, the session, and the event object, which changes.
  pub append_event : ℕ → Session V → Event V → ℕ × Session V × Event V
  unfolding trim_temp_delta_state update_session_state add_event
  append_event clock s e =
      let trimmed = trim_temp_delta_state e in
      let (clock', s') = update_session_state clock s trimmed in
      if e.partial
      then (clock, s, e)
      else (clock', record s' { events = add_event trimmed s'.events }, trimmed)

  abbrev put_prefixed : String → Dict V → Dict V → Dict V
  put_prefixed prefix d [] = d
  put_prefixed prefix d ((k, v) ∷ e) = put_prefixed prefix (put (str_append prefix k) v d) e

  pub merge_states : Option (Dict V) → Option (Dict V) → Dict V → Dict V
  merge_states app user session =
      let or_empty = λ (d : Option (Dict V)). elim d as (λ _. Dict V) [ none ↦ [] | some x ↦ x ] in
      put_prefixed user_prefix (put_prefixed app_prefix session (or_empty app)) (or_empty user)
