-- ===== src/Session/Tests.antt =====
-- Sessions of numbers: writes that race, and a service with two sessions.
use adk_js.Prelude.{
  ℕ, ◌≡◌, refl, ◌⊎◌, Bool, true, false, ◌&&◌, none, some, [], ◌∷◌, str_eq, arith, if◌then◌else◌,
}
use adk_js.Prelude.Dict.{lookup}
use Prim.Native.String.{◌++◌ as str_append}
use adk_js.Event.{Event, Stamped}
use adk_js.Event.Samples.{blank_event, no_actions}
use adk_js.Session.{
  Session, app_prefix, user_prefix, update_session_state, append_event as base_append_event,
}
use adk_js.Session.Temporary.{append_event_temp}
use adk_js.Session.WriteOrder.{committed, update_session_state_lem}
use adk_js.Session.State.{
  State, SchemaFields, SchemaError, ok, throws, validate, set, get, to_record, has_delta,
}
use adk_js.Session.State.Record.{get-to_record}
use adk_js.Session.State.Reads.{set_lem, commit_late}
use adk_js.Session.InMemory.{
  get_or_create_session, Service, create_session, get_session, delete_session, append_event,
  lookup2, lookup3,
}
use adk_js.Session.InMemory.Store.{get_session-create_session, get_session-delete_session}
use adk_js.Session.InMemory.GetOrCreate.{get_or_create_session_again}
use adk_js.Session.InMemory.Append.{append_event_other, append_event_partial}

abbrev stamped : ℕ → ℕ → Stamped ℕ
stamped value stamp = record { entries = ("count", value) ∷ []; stamps = ("count", stamp) ∷ [] }

abbrev event_with : Bool → Stamped ℕ → Event ℕ
event_with partial delta = record (blank_event "e" 9) {
  partial = partial;
  actions = record no_actions { state_delta = delta };
}

abbrev session : Session ℕ
session = record {
  id = "s";
  app_name = "a";
  user_id = "u";
  state = stamped 7 2;
  events = [];
  last_update_time = 0;
}

late_commit_is_skipped :
    lookup "count" (update_session_state 2 session (event_with false (stamped 5 1))).1.state.entries
    ≡ some 7
unfolding update_session_state
late_commit_is_skipped = refl

update_session_state_lem_example :
    (lookup "count"
        (update_session_state 2 session (event_with false (stamped 5 1))).1.state.entries
      ≡ committed session.state (stamped 5 1) (stamped 5 1).entries "count")
    × (record (update_session_state 2 session (event_with false (stamped 5 1))).1 {
      state = session.state;
    }
        ≡ session)
update_session_state_lem_example =
    update_session_state_lem 2 session (event_with false (stamped 5 1)) "count" (refl, tt)

abbrev temporary : Stamped ℕ
temporary = record { entries = ("temp:x", 3) ∷ []; stamps = [] }

append_event_temp_example :
    (lookup "temp:x" (base_append_event 2 session (event_with false temporary)).1.state.entries
      ≡ lookup "temp:x" session.state.entries)
    × ((false ≡ true)
        ⊎ (lookup "temp:x"
              (base_append_event 2 session
                (event_with false temporary)).2.actions.state_delta.entries
            ≡ none))
append_event_temp_example = append_event_temp 2 session (event_with false temporary) "temp:x" refl

abbrev fields : SchemaFields ℕ
fields = some (("count", none) ∷ [])

abbrev empty_object : Stamped ℕ
empty_object = record { entries = []; stamps = [] }

abbrev fresh : State ℕ
fresh = record { value = empty_object; delta = empty_object }

set_lem_example :
    ((error : SchemaError) × (validate fields "count" 5 ≡ some error)
      × (set fields 0 fresh "count" 5 ≡ throws error))
    ⊎ ((r : ℕ × State ℕ) × (validate fields "count" 5 ≡ none)
        × (set fields 0 fresh "count" 5 ≡ ok r)
        × (get r.1 "size" none ≡ (if str_eq "count" "size" then some 5 else get fresh "size" none))
        × (has_delta r.1 ≡ true)
        × (lookup "count" r.1.value.stamps ≡ some 1)
        × (lookup "count" r.1.delta.stamps ≡ some 1))
set_lem_example = set_lem fields 0 fresh "count" 5 "size" none

abbrev after_write : State ℕ
after_write = record { value = stamped 5 1; delta = stamped 7 2 }

get-to_record_example : get after_write "count" none ≡ lookup "count" (to_record after_write)
get-to_record_example = get-to_record after_write "count" (refl, tt)

abbrev after_first : ℕ × State ℕ
after_first = (1, record { value = stamped 5 1; delta = stamped 5 1 })

abbrev after_second : ℕ × State ℕ
after_second = (2, record { value = stamped 7 2; delta = stamped 7 2 })

first_write : set fields 0 fresh "count" 5 ≡ ok after_first
unfolding set
first_write = refl

second_write : set fields 1 (record fresh { value = stamped 5 1 }) "count" 7 ≡ ok after_second
unfolding set
second_write = refl

commit_late_example :
    lookup "count" (update_session_state 2 session (event_with false (stamped 5 1))).1.state.entries
    ≡ some 7
commit_late_example =
    commit_late fields 0 1 2 empty_object empty_object empty_object "count" 5 7 after_first
      after_second session (event_with false (stamped 5 1)) first_write (omega arith) second_write
      refl refl (refl, tt)

abbrev empty_service : Service ℕ
empty_service = record { sessions = []; user_state = []; app_state = [] }

abbrev service : Service ℕ
service = record empty_service { sessions = ("a", ("u", ("s", session) ∷ []) ∷ []) ∷ [] }

get_session-create_session_example :
    get_session (create_session 3 "r" service "a" "u" none none).0 "a" "u" "r" none ≡ (
      if str_eq "a" "a"
        && (str_eq "u" "u" && str_eq (create_session 3 "r" service "a" "u" none none).1.id "r")
      then some (create_session 3 "r" service "a" "u" none none).1
      else get_session service "a" "u" "r" none)
get_session-create_session_example =
    get_session-create_session 3 "r" service "a" "u" none none "a" "u" "r" none

get_session-delete_session_example :
    get_session (delete_session service "a" "u" "s") "a" "u" "s" none ≡ (
      if str_eq "a" "a" && (str_eq "u" "u" && str_eq "s" "s")
      then none
      else get_session service "a" "u" "s" none)
get_session-delete_session_example = get_session-delete_session service "a" "u" "s" "a" "u" "s" none

abbrev app_delta : Stamped ℕ
app_delta = record { entries = (str_append app_prefix "k", 4) ∷ []; stamps = [] }

append_event_other_example :
    let after = (append_event 2 service session (event_with false app_delta)).1 in
    (lookup3 "b" "u" "s" after.sessions ≡ lookup3 "b" "u" "s" service.sessions)
    × (((str_eq "a" "b" && str_eq "u" "u") ≡ true)
        ⊎ (lookup2 "b" "u" after.user_state ≡ lookup2 "b" "u" service.user_state))
    × ((str_eq "a" "b" ≡ true)
        ⊎ (get_session after "b" "u" "s" none ≡ get_session service "b" "u" "s" none))
append_event_other_example =
    append_event_other 2 service session (event_with false app_delta) "b" "u" "s" none refl

abbrev shared_delta : Stamped ℕ
shared_delta = record {
  entries = (str_append user_prefix "k", 5) ∷ (str_append app_prefix "k", 4) ∷ ("count", 6) ∷ [];
  stamps = [];
}

append_event_partial_example :
    let after = (append_event 2 service session (event_with true shared_delta)).1 in
    (lookup3 "a" "u" "s" after.sessions ≡ some (record session { last_update_time = 9 }))
    × (lookup2 "a" "k" after.app_state ≡ some 4)
    × (lookup3 "a" "u" "k" after.user_state ≡ some 5)
append_event_partial_example =
    append_event_partial 2 service session (event_with true shared_delta) session "k" refl refl
      (refl, (refl, (refl, tt)))

get_or_create_session_again_example :
    let r = get_or_create_session 3 "r" empty_service "a" "u" none (some "s") in
    get_or_create_session 4 "q" r.0 "a" "u" none (some "s") ≡ r
get_or_create_session_again_example =
    get_or_create_session_again 3 "r" empty_service "a" "u" none 4 "q" none "s" refl
