-- ===== src/Session/InMemory/Append.antt =====
-- Appending an event: what it commits, and what it leaves.
use adk_js.Prelude.{
  ℕ, ◌≡◌, refl, ◌∙◌, sym, ap, ◌⊎◌, inl, inr, String, true, false, ◌&&◌, Option, none, some, [], ◌∷◌,
  arith, eq_iff, str_eq, Bool-cases, Option-cases,
}
use adk_js.Prelude.Dict.{Dict, lookup, put, lookup-put, HasDistinctKeys}
use adk_js.Session.InMemory.Committed.{given_or, commit_entries_at}
use adk_js.Prelude.Text.{strip_prefix}
use adk_js.Event.{Event}
use adk_js.Session.{Session, app_prefix, user_prefix, append_event as base_append_event}
use adk_js.Session.InMemory.{
  Service, GetSessionConfig, dict_or_empty, lookup2, lookup3, put3, merged, get_session,
  append_event, commit_entry, commit_entries, commit_to_app, commit_to_user,
}
use adk_js.Session.InMemory.Store.{lookup2-put2, lookup3-put3, get_session-found, found}
use Prim.Native.String.{◌++◌ as str_append}

module _ {V : Type 0} where
  commit_to_app_other :
      (app : String) (v : V) (o : Option String) (service : Service V) (a : String)
      → str_eq app a ≡ false
      → lookup a (commit_to_app app v o service).app_state ≡ lookup a service.app_state
  unfolding commit_to_app
  commit_to_app_other app v none service a h = refl
  commit_to_app_other app v (some k) service a h =
      let inner = put k v (dict_or_empty (lookup app service.app_state)) in
      ground (arith, lookup-put app a inner service.app_state, h)

  commit_to_user_other :
      (app user : String) (v : V) (o : Option String) (service : Service V) (a u : String)
      → (str_eq app a && str_eq user u) ≡ false
      → lookup2 a u (commit_to_user app user v o service).user_state
        ≡ lookup2 a u service.user_state
  unfolding commit_to_user
  commit_to_user_other app user v none service a u h = refl
  commit_to_user_other app user v (some k) service a u h =
      let inner = put k v (dict_or_empty (lookup2 app user service.user_state)) in
      ground (arith, lookup2-put2 app user a u inner service.user_state, h)

  commit_to_app_rest :
      (app : String) (v : V) (o : Option String) (service : Service V)
      → ((commit_to_app app v o service).user_state ≡ service.user_state)
        × ((commit_to_app app v o service).sessions ≡ service.sessions)
  unfolding commit_to_app
  commit_to_app_rest app v none service = (refl, refl)
  commit_to_app_rest app v (some k) service = (refl, refl)

  commit_to_user_rest :
      (app user : String) (v : V) (o : Option String) (service : Service V)
      → ((commit_to_user app user v o service).app_state ≡ service.app_state)
        × ((commit_to_user app user v o service).sessions ≡ service.sessions)
  unfolding commit_to_user
  commit_to_user_rest app user v none service = (refl, refl)
  commit_to_user_rest app user v (some k) service = (refl, refl)

  -- What `service` has for sessions, for another app, and for another user.
  abbrev Agrees : String → String → Service V → Service V → String → String → Type 0
  Agrees app user after before a u =
      (after.sessions ≡ before.sessions)
      × ((str_eq app a ≡ true) ⊎ (lookup a after.app_state ≡ lookup a before.app_state))
      × (((str_eq app a && str_eq user u) ≡ true)
          ⊎ (lookup2 a u after.user_state ≡ lookup2 a u before.user_state))

  commit_entry_other :
      (app user key : String) (v : V) (service : Service V) (a u : String)
      → Agrees app user (commit_entry app user key v service) service a u
  unfolding commit_entry
  commit_entry_other app user key v service a u =
      let o = strip_prefix app_prefix key in
      let p = strip_prefix user_prefix key in
      let mid = commit_to_app app v o service in
      let (ru, rs) = commit_to_app_rest app v o service in
      let (qa, qs) = commit_to_user_rest app user v p mid in
      (
        qs ∙ rs,
        elim (Bool-cases (str_eq app a)) [
          | inl h ↦ inl h
          | inr h ↦ inr (ap (lookup a) qa ∙ commit_to_app_other app v o service a h)
        ],
        elim (Bool-cases (str_eq app a && str_eq user u)) [
          | inl h ↦ inl h
          | inr h ↦ inr (commit_to_user_other app user v p mid a u h ∙ ap (lookup2 a u) ru)
        ],
      )

  commit_entries_other :
      (app user : String) (d : Dict V) (service : Service V) (a u : String)
      → Agrees app user (commit_entries app user d service) service a u
  unfolding commit_entries
  commit_entries_other app user [] service a u = (refl, inr refl, inr refl)
  commit_entries_other app user ((k, v) ∷ d) service a u =
      let mid = commit_entry app user k v service in
      let (s1, a1, u1) = commit_entries_other app user d mid a u in
      let (s2, a2, u2) = commit_entry_other app user k v service a u in
      (s1 ∙ s2, grind arith, grind arith)

  found_agrees :
      (a u : String) (config : Option GetSessionConfig) (x y : Service V) (o : Option (Session V))
      → lookup a x.app_state ≡ lookup a y.app_state
      → lookup2 a u x.user_state ≡ lookup2 a u y.user_state
      → found a u config x o ≡ found a u config y o
  unfolding merged
  found_agrees a u config x y none h k = refl
  found_agrees a u config x y (some s) h k = rw (h, k) refl

  -- Appending an event to a session leaves the stored sessions of the other users and apps and their
  -- users' state, and what is read of a session of another app is as before.
  pub append_event_other :
      (clock : ℕ) (service : Service V) (s : Session V) (e : Event V) (a u i : String)
      (config : Option GetSessionConfig)
      → (str_eq s.app_name a && (str_eq s.user_id u && str_eq s.id i)) ≡ false
      → let after = (append_event clock service s e).1 in
        (lookup3 a u i after.sessions ≡ lookup3 a u i service.sessions)
        × (((str_eq s.app_name a && str_eq s.user_id u) ≡ true)
            ⊎ (lookup2 a u after.user_state ≡ lookup2 a u service.user_state))
        × ((str_eq s.app_name a ≡ true)
            ⊎ (get_session after a u i config ≡ get_session service a u i config))
  unfolding append_event merged
  append_event_other clock service s e a u i config h =
      let after = (append_event clock service s e).1 in
      elim (Option-cases (lookup3 s.app_name s.user_id s.id service.sessions)) [
        | inl n ↦
            let same : after ≡ service = ground (arith, n) in
            (
              ap (λ x. lookup3 a u i x.sessions) same,
              inr (ap (λ x. lookup2 a u x.user_state) same),
              inr (ap (λ x. get_session x a u i config) same),
            )
        | inr (stored, n) ↦
            let (clock', s', e') = base_append_event clock s e in
            let mid = commit_entries s.app_name s.user_id e'.actions.state_delta.entries service in
            let (clock'', stored', e'') = base_append_event clock' stored e' in
            let last = record stored' { last_update_time = e''.timestamp } in
            let next = record mid { sessions = put3 s.app_name s.user_id s.id last mid.sessions } in
            let same : after ≡ next = ground (arith, n) in
            let (ms, ma, mu) =
              commit_entries_other s.app_name s.user_id e'.actions.state_delta.entries service a
                u in
            let put : lookup3 a u i next.sessions ≡ lookup3 a u i service.sessions =
              lookup3-put3 s.app_name s.user_id s.id a u i last mid.sessions ∙ rw (h, ms) refl in
            rw same (
              put,
              mu,
              elim (Bool-cases (str_eq s.app_name a)) [
                | inl g ↦ inl g
                | inr g ↦
                    let app : lookup a mid.app_state ≡ lookup a service.app_state = grind arith in
                    let user : lookup2 a u mid.user_state ≡ lookup2 a u service.user_state =
                      grind arith in
                    inr (
                      get_session-found next a u i config
                      ∙ ap (found a u config next) put
                      ∙ found_agrees a u config next service (lookup3 a u i service.sessions) app
                          user
                      ∙ sym (get_session-found service a u i config))
              ],
            )
      ]

  -- A partial event appended to a stored session gives no event and no state of its own to the
  -- session, whose time of update it sets; but its delta, an object whose keys are distinct, goes to
  -- the states of the app and of the user: an entry under `app:k` is there under `k` in the app's
  -- state, one under `user:k` under `k` in the user's, and the other keys of both are as before.
  pub append_event_partial :
      (clock : ℕ) (service : Service V) (s : Session V) (e : Event V) (stored : Session V)
      (k : String)
      → e.partial ≡ true
      → lookup3 s.app_name s.user_id s.id service.sessions ≡ some stored
      → HasDistinctKeys e.actions.state_delta.entries
      → let after = (append_event clock service s e).1 in
        let delta = e.actions.state_delta.entries in
        (lookup3 s.app_name s.user_id s.id after.sessions
          ≡ some (record stored { last_update_time = e.timestamp }))
        × (lookup2 s.app_name k after.app_state
            ≡ given_or
                (lookup (str_append app_prefix k) delta)
                (lookup2 s.app_name k service.app_state))
        × (lookup3 s.app_name s.user_id k after.user_state
            ≡ given_or
                (lookup (str_append user_prefix k) delta)
                (lookup3 s.app_name s.user_id k service.user_state))
  unfolding append_event base_append_event
  append_event_partial clock service s e stored k p n d =
      let mid = commit_entries s.app_name s.user_id e.actions.state_delta.entries service in
      let last = record stored { last_update_time = e.timestamp } in
      let next = record mid { sessions = put3 s.app_name s.user_id s.id last mid.sessions } in
      let base : (x : Session V) → base_append_event clock x e ≡ (clock, x, e) =
        λ x. ground (arith, p) in
      let same : (append_event clock service s e).1 ≡ next = ground (arith, n, p) in
      let put =
        lookup3-put3 s.app_name s.user_id s.id s.app_name s.user_id s.id last mid.sessions in
      let at_last : lookup3 s.app_name s.user_id s.id next.sessions ≡ some last =
        ground (
          arith,
          put,
          eq_iff s.app_name s.app_name,
          eq_iff s.user_id s.user_id,
          eq_iff s.id s.id,
        ) in
      let (app, user) =
        commit_entries_at s.app_name s.user_id e.actions.state_delta.entries service k d in
      rw same (at_last, app, user)
