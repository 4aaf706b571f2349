-- ===== src/Session/InMemory/Listing/Tests.antt =====
-- A listing of three sessions.
use adk_js.Prelude.{ℕ, ◌≡◌, refl, String, true, none, some, [], ◌∷◌}
use adk_js.Session.{Session, unstamped}
use adk_js.Session.InMemory.{Service}
use adk_js.Session.InMemory.Listing.{ListSessionsRequest, desc, list_sessions}
use adk_js.Session.InMemory.Listing.Pages.{pages_from, list_sessions-pages_from}

abbrev session : String → String → ℕ → Session ℕ
session user id time = record {
  id = id;
  app_name = "a";
  user_id = user;
  state = unstamped (("count", 1) ∷ []);
  events = [];
  last_update_time = time;
}

abbrev service : Service ℕ
service = record {
  sessions =
      (
        "a",
        ("u", ("s", session "u" "s" 3) ∷ ("t", session "u" "t" 7) ∷ [])
            ∷ ("v", ("w", session "v" "w" 5) ∷ [])
            ∷ [],
      )
      ∷ [];
  user_state = [];
  app_state = [];
}

abbrev newest_first : ListSessionsRequest
newest_first = record {
  app_name = "a";
  user_id = none;
  limit = some 2;
  offset = none;
  page = some 2;
  order = some desc;
}

second_page : list_sessions (λ s t. true) service newest_first ≡ record {
  sessions = record (session "u" "s" 3) { state = unstamped [] } ∷ [];
  page = 2;
  limit = 2;
  total_items = 3;
  total_pages = 2;
}
unfolding list_sessions
second_page = refl

list_sessions-pages_from_example :
    pages_from
      (λ s t. true)
      service
      newest_first
      2
      1
      (list_sessions (λ s t. true) service (record newest_first { limit = some 2 })).total_pages
    ≡ (list_sessions
        (λ s t. true)
        service
        (record newest_first { limit = none; offset = none })).sessions
list_sessions-pages_from_example = list_sessions-pages_from (λ s t. true) service newest_first 1
