-- ===== src/Session/InMemory/GetOrCreate.antt =====
-- Getting or creating a session twice.
use adk_js.Prelude.{
  ℕ, ◌≡◌, refl, ◌∙◌, inl, inr, String, Bool, true, false, ◌&&◌, Option, none, some, arith, eq_iff,
  str_eq, Option-cases, if◌then◌else◌,
}
use adk_js.Prelude.Dict.{Dict}
use adk_js.Session.{Session}
use adk_js.Session.InMemory.{Service, merged, create_session, get_session, get_or_create_session}
use adk_js.Session.InMemory.Store.{get_session-create_session}

if_true : {A : Type 0} (b : Bool) (x y : A) → b ≡ true → (if b then x else y) ≡ x
if_true b x y h = rw h refl

all_same : (a u i j : String) → i ≡ j → (str_eq a a && (str_eq u u && str_eq i j)) ≡ true
all_same a u i j h = ground (arith, eq_iff a a, eq_iff u u, eq_iff i j, h)

module _ {V : Type 0} where
  get_or_create_found :
      (now : ℕ) (random_id : String) (service : Service V) (app user : String)
      (state : Option (Dict V)) (i : String) (s : Session V)
      → str_eq i "" ≡ false
      → get_session service app user i none ≡ some s
      → get_or_create_session now random_id service app user state (some i) ≡ (service, s)
  unfolding get_or_create_session
  get_or_create_found now random_id service app user state i s h found = ground (arith, h, found)

  get_or_create_missing :
      (now : ℕ) (random_id : String) (service : Service V) (app user : String)
      (state : Option (Dict V)) (i : String)
      → str_eq i "" ≡ false
      → get_session service app user i none ≡ none
      → get_or_create_session now random_id service app user state (some i)
        ≡ create_session now random_id service app user state (some i)
  unfolding get_or_create_session
  get_or_create_missing now random_id service app user state i h missing =
      ground (arith, h, missing)

  get_created :
      (now : ℕ) (random_id : String) (service : Service V) (app user : String)
      (state : Option (Dict V)) (i : String)
      → str_eq i "" ≡ false
      → let r = create_session now random_id service app user state (some i) in
        get_session r.0 app user i none ≡ some r.1
  unfolding create_session merged
  get_created now random_id service app user state i h =
      let r = create_session now random_id service app user state (some i) in
      let same = str_eq app app && (str_eq user user && str_eq r.1.id i) in
      let given : r.1.id ≡ i = rw h refl in
      let self = all_same app user r.1.id i given in
      get_session-create_session now random_id service app user state (some i) app user i none
      ∙ if_true same (some r.1) (get_session service app user i none) self

  -- To get or create a session of a given id, which is not empty, a second time changes nothing and
  -- gives the same session as the first time, whatever state is offered.
  pub get_or_create_session_again :
      (now : ℕ) (random_id : String) (service : Service V) (app user : String)
      (state : Option (Dict V)) (now' : ℕ) (random_id' : String) (state' : Option (Dict V))
      (i : String)
      → str_eq i "" ≡ false
      → let r = get_or_create_session now random_id service app user state (some i) in
        get_or_create_session now' random_id' r.0 app user state' (some i) ≡ r
  get_or_create_session_again now random_id service app user state now' random_id' state' i h =
      elim (Option-cases (get_session service app user i none)) [
        | inr (s, found) ↦
            rw (get_or_create_found now random_id service app user state i s h found)
              (get_or_create_found now' random_id' service app user state' i s h found)
        | inl missing ↦
            let r = create_session now random_id service app user state (some i) in
            rw (get_or_create_missing now random_id service app user state i h missing) (
              get_or_create_found now' random_id' r.0 app user state' i r.1 h
                (get_created now random_id service app user state i h))
      ]
