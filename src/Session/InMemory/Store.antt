-- ===== src/Session/InMemory/Store.antt =====
-- What the service's operations do to the sessions that are read later.
use adk_js.Prelude.{
  ℕ, suc, ◌≡◌, refl, ◌∙◌, sym, ap, inl, inr, String, Bool, true, false, ◌&&◌, Option, none, some,
  [], map, arith, eq_iff, str_eq, drop, ◌-◌, Bool-cases, Option-cases, if◌then◌else◌,
}
use adk_js.Prelude.Dict.{Dict, lookup, put, remove, lookup-put, lookup-remove}
use adk_js.Event.{Event}
use adk_js.Session.{Session, unstamped, trim_temp_state}
use adk_js.Session.InMemory.{
  id_or, Service, GetSessionConfig, dict_or_empty, lookup2, lookup3, put2, put3, remove3, merged,
  create_session, get_session, delete_session, selected, recent, since, events_since, copied,
}

module _ {A : Type 0} where
  pub lookup2-put2 :
      (a u b w : String) (x : A) (d : Dict (Dict A))
      → lookup2 b w (put2 a u x d) ≡ (if str_eq a b && str_eq u w then some x else lookup2 b w d)
  lookup2-put2 a u b w x d =
      let inner = lookup-put u w x (dict_or_empty (lookup a d)) in
      ground (arith, lookup-put a b (put u x (dict_or_empty (lookup a d))) d, inner, eq_iff a b)

module _ {A : Type 0} where
  pub lookup3-put3 :
      (a u i b w j : String) (x : A) (d : Dict (Dict (Dict A)))
      → lookup3 b w j (put3 a u i x d)
        ≡ (if str_eq a b && (str_eq u w && str_eq i j) then some x else lookup3 b w j d)
  lookup3-put3 a u i b w j x d =
      let old = dict_or_empty (lookup2 a u d) in
      ground
        (arith, lookup2-put2 a u b w (put i x old) d, lookup-put i j x old, eq_iff a b, eq_iff u w)

  lookup3-remove3 :
      (a u i b w j : String) (d : Dict (Dict (Dict A)))
      → lookup3 b w j (remove3 a u i d)
        ≡ (if str_eq a b && (str_eq u w && str_eq i j) then none else lookup3 b w j d)
  lookup3-remove3 a u i b w j d =
      let old = dict_or_empty (lookup2 a u d) in
      ground (
        arith,
        lookup2-put2 a u b w (remove i old) d,
        lookup-remove i j old,
        eq_iff a b,
        eq_iff u w,
      )

  lookup3_same :
      (a u i b w j : String) (d : Dict (Dict (Dict A)))
      → (str_eq a b && (str_eq u w && str_eq i j)) ≡ true
      → lookup3 b w j d ≡ lookup3 a u i d
  lookup3_same a u i b w j d h = grind (arith, eq_iff)

-- Under a test of two names, the one may be written for the other.
if_same :
    {A : Type 0} (F : String → String → A) (a b u w : String) (rest : Bool) (x : A)
    → (if str_eq a b && (str_eq u w && rest) then F b w else x)
      ≡ (if str_eq a b && (str_eq u w && rest) then F a u else x)
if_same F a b u w rest x = elim (Bool-cases (str_eq a b && str_eq u w)) [
  | inl h ↦
      let p : a ≡ b = grind (arith, eq_iff) in
      let q : u ≡ w = grind (arith, eq_iff) in rw (p, q) refl
  | inr h ↦ ground arith
]

module _ {V : Type 0} where
  drop_nil : (n : ℕ) → drop {A = Event V} n [] ≡ []
  drop_nil Prim.Native.Nat.zero = refl
  drop_nil (suc n) = refl

  recent_nil : (n : Option ℕ) → recent {V = V} n [] ≡ []
  recent_nil none = refl
  recent_nil (some n) = ground (arith, drop_nil (0 - n))

  since_nil : (t : Option ℕ) → since {V = V} t [] ≡ []
  unfolding events_since
  since_nil none = refl
  since_nil (some t) = ground arith

  selected_nil : (config : Option GetSessionConfig) → selected {V = V} config [] ≡ []
  selected_nil none = refl
  selected_nil (some config) =
      rw (recent_nil config.num_recent_events) (since_nil config.after_timestamp)

  -- What `getSession` makes of the stored session.
  abbrev pub found :
      String
      → String
      → Option GetSessionConfig
      → Service V
      → Option (Session V)
      → Option (Session V)
  found a u config service none = none
  found a u config service (some s) =
      some (merged service a u (record s { events = selected config (map copied s.events) }))

  pub get_session-found :
      (service : Service V) (a u i : String) (config : Option GetSessionConfig)
      → get_session service a u i config ≡ found a u config service (lookup3 a u i service.sessions)
  unfolding get_session
  get_session-found service a u i config = elim (lookup3 a u i service.sessions) [
    | none ↦ refl
    | some s ↦ refl
  ]

  found_if :
      (a u : String) (config : Option GetSessionConfig) (service : Service V) (b : Bool)
      (o p : Option (Session V))
      → found a u config service (if b then o else p)
        ≡ (if b then found a u config service o else found a u config service p)
  found_if a u config service true o p = refl
  found_if a u config service false o p = refl

  -- A session that was created is what reading its id gives, whatever part of the events is asked
  -- for; reading another id gives what it gave before.
  pub get_session-create_session :
      (now : ℕ) (random_id : String) (service : Service V) (app user : String)
      (state : Option (Dict V)) (session_id : Option String) (a u i : String)
      (config : Option GetSessionConfig)
      → let r = create_session now random_id service app user state session_id in
        get_session r.0 a u i config ≡ (
          if str_eq app a && (str_eq user u && str_eq r.1.id i)
          then some r.1
          else get_session service a u i config)
  unfolding create_session merged
  get_session-create_session now random_id service app user state session_id a u i config =
      let r = create_session now random_id service app user state session_id in
      let stored : Session V = record {
        id = id_or random_id session_id;
        app_name = app;
        user_id = user;
        state = unstamped (trim_temp_state (dict_or_empty state));
        events = [];
        last_update_time = now;
      } in
      let same = str_eq app a && (str_eq user u && str_eq stored.id i) in
      let old = lookup3 a u i service.sessions in
      get_session-found r.0 a u i config
      ∙ ap (found a u config r.0) (lookup3-put3 app user stored.id a u i stored service.sessions)
      ∙ found_if a u config r.0 same (some stored) old
      ∙ ap (λ x. if same then x else found a u config service old)
          (ap (λ es. some (merged r.0 a u (record stored { events = es }))) (selected_nil config))
      ∙ if_same (λ b w. some (merged r.0 b w stored)) app a user u (str_eq stored.id i)
          (found a u config service old)
      ∙ ap (λ x. if same then some r.1 else x) (sym (get_session-found service a u i config))

  -- A session that was deleted is not found; every other session reads as before.
  pub get_session-delete_session :
      (service : Service V) (app user i a u j : String) (config : Option GetSessionConfig)
      → get_session (delete_session service app user i) a u j config ≡ (
          if str_eq app a && (str_eq user u && str_eq i j)
          then none
          else get_session service a u j config)
  unfolding delete_session merged
  get_session-delete_session service app user i a u j config =
      let at = get_session-found service app user i none in
      let same = str_eq app a && (str_eq user u && str_eq i j) in
      let old = lookup3 a u j service.sessions in
      elim (Option-cases (lookup3 app user i service.sessions)) [
        | inl h ↦
            let D : delete_session service app user i ≡ service = ground (arith, at, h) in
            ap (λ s. get_session s a u j config) D
            ∙ ground (
              arith,
              get_session-found service a u j config,
              lookup3_same app user i a u j service.sessions,
              h,
            )
        | inr (s, h) ↦
            let next = record service { sessions = remove3 app user i service.sessions } in
            let D : delete_session service app user i ≡ next = ground (arith, at, h) in
            ap (λ s. get_session s a u j config) D
            ∙ get_session-found next a u j config
            ∙ ap (found a u config service) (lookup3-remove3 app user i a u j service.sessions)
            ∙ found_if a u config service same none old
            ∙ ground (arith, get_session-found service a u j config)
      ]
