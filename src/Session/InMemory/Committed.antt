-- ===== src/Session/InMemory/Committed.antt =====
-- What the loop of `appendEvent` puts into the states of the app and of the user, key by key.
use adk_js.Prelude.{
  ◌≡◌, refl, ◌∙◌, sym, ap, inl, inr, String, false, Option, none, some, [], ◌∷◌, arith, eq_iff,
  str_eq, Bool-cases, Option-cases, if◌then◌else◌,
}
use adk_js.Prelude.Dict.{Dict, lookup, has, HasDistinctKeys}
use adk_js.Prelude.Text.{strip_prefix, strip_prefix-append, append-strip_prefix}
use adk_js.Session.{app_prefix, user_prefix}
use adk_js.Session.InMemory.{
  Service, lookup2, lookup3, commit_entry, commit_entries, commit_to_app, commit_to_user,
}
use adk_js.Session.InMemory.Store.{lookup2-put2, lookup3-put3}
use Prim.Native.String.{◌++◌ as str_append}

-- A key is the prefix with `k` just where it leaves `k` behind the prefix.
strip_prefix_same :
    (p key k r : String) → strip_prefix p key ≡ some r → str_eq r k ≡ str_eq key (str_append p k)
strip_prefix_same p key k r h =
    let joined : key ≡ str_append p r = append-strip_prefix p key r h in
    let back : key ≡ str_append p k → r ≡ k = λ e.
      let s : some r ≡ some k = sym h ∙ ap (strip_prefix p) e ∙ strip_prefix-append p k in cc in
    elim (Bool-cases (str_eq r k)) [
      | inl same ↦
          let e : r ≡ k = (eq_iff r k).0 same in
          same ∙ sym ((eq_iff key (str_append p k)).1 (joined ∙ ap (str_append p) e))
      | inr other ↦ elim (Bool-cases (str_eq key (str_append p k))) [
        | inl same ↦
            let e : r ≡ k = back ((eq_iff key (str_append p k)).0 same) in
            absurd (cc (sym other ∙ (eq_iff r k).1 e))
        | inr differ ↦ other ∙ sym differ
      ]
    ]

strip_prefix-none :
    (p key k : String) → strip_prefix p key ≡ none → str_eq key (str_append p k) ≡ false
strip_prefix-none p key k h = elim (Bool-cases (str_eq key (str_append p k))) [
  | inl same ↦
      let e : key ≡ str_append p k = (eq_iff key (str_append p k)).0 same in
      absurd (cc (sym h ∙ ap (strip_prefix p) e ∙ strip_prefix-append p k))
  | inr differ ↦ differ
]

module _ {V : Type 0} where
  -- What a delta gives for a key, or what was there.
  abbrev pub given_or : Option V → Option V → Option V
  given_or none old = old
  given_or (some v) old = some v

  commit_to_app_at :
      (app : String) (v : V) (o : Option String) (service : Service V) (k : String)
      → lookup2 app k (commit_to_app app v o service).app_state ≡ (elim o [
        | none ↦ lookup2 app k service.app_state
        | some r ↦ if str_eq r k then some v else lookup2 app k service.app_state
      ])
  unfolding commit_to_app
  commit_to_app_at app v none service k = refl
  commit_to_app_at app v (some r) service k =
      ground (arith, lookup2-put2 app r app k v service.app_state, eq_iff app app)

  commit_to_user_at :
      (app user : String) (v : V) (o : Option String) (service : Service V) (k : String)
      → lookup3 app user k (commit_to_user app user v o service).user_state ≡ (elim o [
        | none ↦ lookup3 app user k service.user_state
        | some r ↦ if str_eq r k then some v else lookup3 app user k service.user_state
      ])
  unfolding commit_to_user
  commit_to_user_at app user v none service k = refl
  commit_to_user_at app user v (some r) service k = ground (
    arith,
    lookup3-put3 app user r app user k v service.user_state,
    eq_iff app app,
    eq_iff user user,
  )

  commit_to_user_app :
      (app user : String) (v : V) (o : Option String) (service : Service V)
      → (commit_to_user app user v o service).app_state ≡ service.app_state
  unfolding commit_to_user
  commit_to_user_app app user v none service = refl
  commit_to_user_app app user v (some k) service = refl

  commit_to_app_user :
      (app : String) (v : V) (o : Option String) (service : Service V)
      → (commit_to_app app v o service).user_state ≡ service.user_state
  unfolding commit_to_app
  commit_to_app_user app v none service = refl
  commit_to_app_user app v (some k) service = refl

  -- The test on what a prefix leaves is the test on the whole key.
  if_stripped :
      (p key k : String) (v : V) (old : Option V)
      → (elim (strip_prefix p key) as (λ _. Option V) [
        | none ↦ old
        | some r ↦ if str_eq r k then some v else old
      ])
        ≡ (if str_eq key (str_append p k) then some v else old)
  if_stripped p key k v old = elim (Option-cases (strip_prefix p key)) [
    | inl n ↦ rw (n, strip_prefix-none p key k n) refl
    | inr (r, e) ↦ rw (e, strip_prefix_same p key k r e) refl
  ]

  commit_entry_at :
      (app user key : String) (v : V) (service : Service V) (k : String)
      → let after = commit_entry app user key v service in
        (lookup2 app k after.app_state ≡ (
          if str_eq key (str_append app_prefix k) then some v else lookup2 app k service.app_state))
        × (lookup3 app user k after.user_state ≡ (
            if str_eq key (str_append user_prefix k)
            then some v
            else lookup3 app user k service.user_state))
  unfolding commit_entry
  commit_entry_at app user key v service k =
      let o = strip_prefix app_prefix key in
      let p = strip_prefix user_prefix key in
      let mid = commit_to_app app v o service in
      (
        ap (lookup2 app k) (commit_to_user_app app user v p mid)
            ∙ commit_to_app_at app v o service k
            ∙ if_stripped app_prefix key k v (lookup2 app k service.app_state),
        commit_to_user_at app user v p mid k
            ∙ if_stripped user_prefix key k v (lookup3 app user k mid.user_state)
            ∙ ap
                (λ d.
                  if str_eq key (str_append user_prefix k) then some v else lookup3 app user k d)
                (commit_to_app_user app v o service),
      )

  -- One more entry of a delta whose keys are distinct.
  given_or-cons :
      (key j : String) (v : V) (d : Dict V) (new old : Option V)
      → has key d ≡ false
      → new ≡ (if str_eq key j then some v else old)
      → given_or (lookup j d) new ≡ given_or (lookup j ((key, v) ∷ d)) old
  given_or-cons key j v d new old absent e = ground (arith, eq_iff key j, absent, e)

  pub commit_entries_at :
      (app user : String) (d : Dict V) (service : Service V) (k : String)
      → HasDistinctKeys d
      → let after = commit_entries app user d service in
        (lookup2 app k after.app_state
          ≡ given_or (lookup (str_append app_prefix k) d) (lookup2 app k service.app_state))
        × (lookup3 app user k after.user_state
            ≡ given_or
                (lookup (str_append user_prefix k) d)
                (lookup3 app user k service.user_state))
  unfolding commit_entries
  commit_entries_at app user [] service k h = (refl, refl)
  commit_entries_at app user ((key, v) ∷ d) service k (absent, h) =
      let mid = commit_entry app user key v service in
      let (a, u) = commit_entries_at app user d mid k h in
      let (a', u') = commit_entry_at app user key v service k in
      (
        a ∙ given_or-cons key (str_append app_prefix k) v d _ _ absent a',
        u ∙ given_or-cons key (str_append user_prefix k) v d _ _ absent u',
      )
