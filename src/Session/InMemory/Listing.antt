-- ===== src/Session/InMemory/Listing.antt =====
-- `listSessions` of core/src/sessions/in_memory_session_service.ts. Objects list their values in the
-- order of insertion here, that is, for keys that do not spell an array index. `localeCompare` is a
-- parameter: whether one text is not behind another. A page is a natural number; page zero has the
-- empty slice that a start before the list gives.
pub mod Pages
mod Tests
use adk_js.Prelude.{
  ℕ, zero, suc, ◌+◌, ◌-◌, ◌*◌, ◌/◌, String, Bool, true, false, Option, none, some, List, [], ◌∷◌,
  ◌++◌, length, take, drop, ltb, ◌==◌, if◌then◌else◌,
}
use adk_js.Prelude.Dict.{Dict, lookup}
use adk_js.Session.{Session, unstamped}
use adk_js.Session.InMemory.{Service}

pub data Order : Type 0 where
  asc : Order
  desc : Order

pub record ListSessionsRequest : Type 0 where
  pub app_name : String
  pub user_id : Option String
  pub limit : Option ℕ
  pub offset : Option ℕ
  pub page : Option ℕ
  pub order : Option Order

pub record ListSessionsResponse (V : Type 0) : Type 0 where
  pub sessions : List (Session V)
  pub page : ℕ
  pub limit : ℕ
  pub total_items : ℕ
  pub total_pages : ℕ

abbrev pub zero_or : Option ℕ → ℕ
zero_or none = 0
zero_or (some n) = n

-- `Math.ceil(total / limit)`, and zero for a limit of zero.
abbrev pub pages_of : ℕ → ℕ → ℕ
pages_of total zero = 0
pages_of total (suc n) = (total + n) / suc n

-- `effectivePage`
abbrev pub effective_page : Option ℕ → ℕ → ℕ → ℕ
effective_page (some page) offset limit = page
effective_page none offset zero = 1
effective_page none offset (suc n) = suc (offset / suc n)

abbrev pub values {ℓ} : {A : Type ℓ} → Dict A → List A
values [] = []
values ((k, v) ∷ d) = v ∷ values d

abbrev pub one_page : ℕ → ℕ
one_page zero = 0
one_page (suc n) = 1

module _ {V : Type 0} where
  -- A session without its state and events.
  abbrev pub listed : Session V → Session V
  listed s = record s { state = unstamped []; events = [] }

  abbrev pub listed_all : Dict (Session V) → List (Session V)
  listed_all [] = []
  listed_all ((i, s) ∷ d) = listed s ∷ listed_all d

  abbrev pub listed_each : List (Dict (Session V)) → List (Session V)
  listed_each [] = []
  listed_each (d ∷ ds) = listed_all d ++ listed_each ds

  abbrev pub only : Option (Dict (Session V)) → List (Dict (Session V))
  only none = []
  only (some d) = d ∷ []

  abbrev pub users_of : Dict (Dict (Session V)) → Option String → List (Dict (Session V))
  users_of sessions none = values sessions
  users_of sessions (some user) = only (lookup user sessions)

  abbrev pub sessions_by_user : Service V → String → Option String → List (Dict (Session V))
  sessions_by_user service app user = elim (lookup app service.sessions) [
    | none ↦ []
    | some sessions ↦ users_of sessions user
  ]

  -- `all.slice(effectiveOffset, effectiveOffset + limit)`
  abbrev pub paginated : List (Session V) → Option ℕ → ℕ → ℕ → List (Session V)
  paginated all (some zero) offset limit = []
  paginated all (some (suc p)) offset limit = take limit (drop (p * limit) all)
  paginated all none offset limit = take limit (drop offset all)

  -- The response of a limit of `n`.
  abbrev pub limited : List (Session V) → ListSessionsRequest → ℕ → ListSessionsResponse V
  limited all request n = record {
    sessions = paginated all request.page (zero_or request.offset) n;
    page = effective_page request.page (zero_or request.offset) n;
    limit = n;
    total_items = length all;
    total_pages = pages_of (length all) n;
  }

  abbrev pub unlimited : List (Session V) → ListSessionsRequest → ListSessionsResponse V
  unlimited all request = record {
    sessions = drop (zero_or request.offset) all;
    page = 1;
    limit = length all;
    total_items = length all;
    total_pages = one_page (length all);
  }

module _ {V : Type 0} (not_behind : String → String → Bool) where
  -- The comparison is not positive.
  abbrev pub may_precede : Order → Session V → Session V → Bool
  may_precede asc s t =
      if s.last_update_time == t.last_update_time
      then not_behind s.id t.id
      else ltb s.last_update_time t.last_update_time
  may_precede desc s t =
      if s.last_update_time == t.last_update_time
      then not_behind s.id t.id
      else ltb t.last_update_time s.last_update_time

  abbrev pub insert_sorted : Order → Session V → List (Session V) → List (Session V)
  insert_sorted order s [] = s ∷ []
  insert_sorted order s (t ∷ ts) =
      let rest = insert_sorted order s ts in if may_precede order s t then s ∷ t ∷ ts else t ∷ rest

  -- `all.sort`, which keeps the order of equals.
  abbrev pub sort : Order → List (Session V) → List (Session V)
  sort order [] = []
  sort order (s ∷ ss) = insert_sorted order s (sort order ss)

  abbrev pub in_order : Option Order → List (Session V) → List (Session V)
  in_order none all = all
  in_order (some order) all = sort order all

  abbrev pub respond : List (Session V) → ListSessionsRequest → ListSessionsResponse V
  respond all request = elim request.limit [
    | none ↦ unlimited all request
    | some n ↦ limited all request n
  ]

  -- Without sessions of a user the response is that of an empty list.
  abbrev pub respond_to : List (Dict (Session V)) → ListSessionsRequest → ListSessionsResponse V
  respond_to [] request = respond [] request
  respond_to (d ∷ ds) request = respond (in_order request.order (listed_each (d ∷ ds))) request

  pub list_sessions : Service V → ListSessionsRequest → ListSessionsResponse V
  list_sessions service request =
      respond_to (sessions_by_user service request.app_name request.user_id) request
