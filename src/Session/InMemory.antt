-- ===== src/Session/InMemory.antt =====
-- core/src/sessions/in_memory_session_service.ts: the sessions and the state of apps and users, in
-- maps from keys to maps. What `createSession` takes from outside, a fresh id and the time, is
-- passed in. A session that leaves the service is a copy, so its state and its events have no stamps.
pub mod Store
mod Committed
pub mod Append
pub mod GetOrCreate
pub mod Listing
use adk_js.Prelude.{
  ℕ, suc, String, Bool, true, false, not, ◌&&◌, ◌||◌, Option, none, some, List, [], ◌∷◌, ◌-◌,
  if◌then◌else◌, ◌==◌, ltb, str_eq, drop, length, map,
}
use adk_js.Prelude.Dict.{Dict, lookup, put, remove}
use adk_js.Prelude.Text.{strip_prefix}
use adk_js.Event.{Event}
use adk_js.Session.{
  Session, app_prefix, user_prefix, unstamped, trim_temp_state, merge_states,
  append_event as base_append_event,
}

pub record Service (V : Type 0) : Type 0 where
  pub sessions : Dict (Dict (Dict (Session V)))
  pub user_state : Dict (Dict (Dict V))
  pub app_state : Dict (Dict V)

-- `numRecentEvents` and `afterTimestamp`
pub record GetSessionConfig : Type 0 where
  pub num_recent_events : Option ℕ
  pub after_timestamp : Option ℕ

module _ {A : Type 0} where
  -- `map[key]`, or a new map
  abbrev pub dict_or_empty : Option (Dict A) → Dict A
  dict_or_empty none = []
  dict_or_empty (some d) = d

module _ {A : Type 0} where
  abbrev pub lookup2 : String → String → Dict (Dict A) → Option A
  lookup2 a u d = lookup u (dict_or_empty (lookup a d))

module _ {A : Type 0} where
  abbrev pub lookup3 : String → String → String → Dict (Dict (Dict A)) → Option A
  lookup3 a u i d = lookup i (dict_or_empty (lookup2 a u d))

  -- `map[a][u] = x` and `map[a][u][i] = x`, with the maps on the way made if they are missing
  abbrev pub put2 : String → String → A → Dict (Dict A) → Dict (Dict A)
  put2 a u x d = put a (put u x (dict_or_empty (lookup a d))) d

module _ {A : Type 0} where
  abbrev pub put3 : String → String → String → A → Dict (Dict (Dict A)) → Dict (Dict (Dict A))
  put3 a u i x d = put2 a u (put i x (dict_or_empty (lookup2 a u d))) d

  -- `delete map[a][u][i]`
  abbrev pub remove3 : String → String → String → Dict (Dict (Dict A)) → Dict (Dict (Dict A))
  remove3 a u i d = put2 a u (remove i (dict_or_empty (lookup2 a u d))) d

-- `sessionId || randomUUID()`
abbrev pub id_or : String → Option String → String
id_or random_id none = random_id
id_or random_id (some i) = if str_eq i "" then random_id else i

module _ {V : Type 0} where
  -- The session with its state merged with that of the app and the user.
  abbrev pub merged : Service V → String → String → Session V → Session V
  unfolding merge_states
  merged service app user s =
      let of_app = lookup app service.app_state in
      let of_user = lookup2 app user service.user_state in
      record s { state = unstamped (merge_states of_app of_user s.state.entries) }

  unfoldable pub create_session :
      ℕ
      → String
      → Service V
      → String
      → String
      → Option (Dict V)
      → Option String
      → Service V × Session V
  unfolding trim_temp_state
  create_session now random_id service app user state session_id =
      let given = id_or random_id session_id in
      let s : Session V = record {
        id = given;
        app_name = app;
        user_id = user;
        state = unstamped (trim_temp_state (dict_or_empty state));
        events = [];
        last_update_time = now;
      } in
      let service' = record service { sessions = put3 app user s.id s service.sessions } in
      (service', merged service' app user s)

  any_before : ℕ → List (Event V) → Bool
  any_before t [] = false
  any_before t (e ∷ es) = ltb e.timestamp t || any_before t es

  -- The events behind the last one that is older than the time, or all.
  events_since : ℕ → List (Event V) → List (Event V)
  unfolding any_before
  events_since t [] = []
  events_since t (e ∷ es) =
      let rest = events_since t es in
      if any_before t es then rest else if ltb e.timestamp t then es else e ∷ es

  -- `slice(-n)`; a number that is zero counts as absent.
  abbrev pub recent : Option ℕ → List (Event V) → List (Event V)
  recent none es = es
  recent (some n) es = if n == 0 then es else drop (length es - n) es

  abbrev pub since : Option ℕ → List (Event V) → List (Event V)
  unfolding events_since
  since none es = es
  since (some t) es = if t == 0 then es else events_since t es

  abbrev pub selected : Option GetSessionConfig → List (Event V) → List (Event V)
  selected none es = es
  selected (some config) es = since config.after_timestamp (recent config.num_recent_events es)

  -- What `cloneDeep` makes of an event: its delta is a new object, which has no stamps.
  abbrev pub copied : Event V → Event V
  copied e = record e {
    actions = record e.actions { state_delta = unstamped e.actions.state_delta.entries };
  }

  unfoldable pub get_session :
      Service V → String → String → String → Option GetSessionConfig → Option (Session V)
  get_session service app user i config = elim (lookup3 app user i service.sessions) [
    | none ↦ none
    | some s ↦
        some (merged service app user (record s { events = selected config (map copied s.events) }))
  ]

  -- `getOrCreateSession` of the base class.
  unfoldable pub get_or_create_session :
      ℕ
      → String
      → Service V
      → String
      → String
      → Option (Dict V)
      → Option String
      → Service V × Session V
  unfolding create_session get_session
  get_or_create_session now random_id service app user state none =
      create_session now random_id service app user state none
  get_or_create_session now random_id service app user state (some i) =
      elim (str_eq i "") as (λ _. Service V × Session V) [
        | true ↦ create_session now random_id service app user state (some i)
        | false ↦ elim (get_session service app user i none) as (λ _. Service V × Session V) [
          | none ↦ create_session now random_id service app user state (some i)
          | some s ↦ (service, s)
        ]
      ]

  unfoldable pub delete_session : Service V → String → String → String → Service V
  unfolding get_session
  delete_session service app user i = elim (get_session service app user i none) [
    | none ↦ service
    | some s ↦ record service { sessions = remove3 app user i service.sessions }
  ]

  -- The two tests of a round of the loop of `appendEvent`, on what is left behind the prefix.
  commit_to_app : String → V → Option String → Service V → Service V
  commit_to_app app value none service = service
  commit_to_app app value (some k) service = record service {
    app_state = put2 app k value service.app_state;
  }

  commit_to_user : String → String → V → Option String → Service V → Service V
  commit_to_user app user value none service = service
  commit_to_user app user value (some k) service = record service {
    user_state = put3 app user k value service.user_state;
  }

  commit_entry : String → String → String → V → Service V → Service V
  unfolding commit_to_app commit_to_user
  commit_entry app user key value service =
      commit_to_user app user value (strip_prefix user_prefix key)
        (commit_to_app app value (strip_prefix app_prefix key) service)

  pub commit_entries : String → String → Dict V → Service V → Service V
  unfolding commit_entry
  commit_entries app user [] service = service
  commit_entries app user ((key, value) ∷ d) service =
      commit_entries app user d (commit_entry app user key value service)

  -- `appendEvent` of the class, on a session that is not the stored object: the clock, the service,
  -- the caller's session, and the event, which changes.
  unfoldable pub append_event :
      ℕ → Service V → Session V → Event V → ℕ × Service V × Session V × Event V
  unfolding base_append_event commit_entries
  append_event clock service s e =
      let (clock', s', e') = base_append_event clock s e in
      let s'' = record s' { last_update_time = e'.timestamp } in
      (elim (lookup3 s.app_name s.user_id s.id service.sessions)
        as (λ _. ℕ × Service V × Session V × Event V) [
          | none ↦ (clock', service, s'', e')
          | some stored ↦
              let service' =
                commit_entries s.app_name s.user_id e'.actions.state_delta.entries service in
              let (clock'', stored', e'') = base_append_event clock' stored e' in
              let stored'' = record stored' { last_update_time = e''.timestamp } in
              let sessions = put3 s.app_name s.user_id s.id stored'' service'.sessions in
              (clock'', record service' { sessions = sessions }, s'', e'')
        ])
