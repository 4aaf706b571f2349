-- ===== src/Session/State/Reads.antt =====
-- Reading a state after a write, and committing the delta of an older write.
use adk_js.Prelude.{
  ℕ, suc, ◌≤◌, ◌≡◌, refl, ◌∙◌, sym, ◌⊎◌, inl, inr, String, Bool, true, false, Option, none, some,
  [], ◌∷◌, arith, eq_iff, str_eq, Option-cases, if◌then◌else◌,
}
use adk_js.Prelude.Dict.{Dict, lookup, put, lookup-put, HasDistinctKeys}
use adk_js.Event.{Event, Stamped}
use adk_js.Session.{Session, record_state_write, update_session_state}
use adk_js.Session.WriteOrder.{update_session_state_lem}
use adk_js.Session.State.{
  State, SchemaFields, SchemaError, ok, or_throw, throws, validate, set, get, has_delta, written,
  put_entry,
}

lookup_same : {V : Type 0} (k : String) (v : V) (d : Dict V) → lookup k (put k v d) ≡ some v
lookup_same k v d = ground (arith, lookup-put k k v d, eq_iff k k)

put_nonempty :
    {V : Type 0} (k : String) (v : V) (d : Dict V)
    → (elim (put k v d) as (λ _. Bool) [ [] ↦ false | e ∷ r ↦ true ]) ≡ true
put_nonempty k v [] = refl
put_nonempty k v ((j, w) ∷ d) = ground arith

module _ {V : Type 0} (fields : SchemaFields V) where
  -- Writing a key either throws the schema's error or gives a state with a pending delta, in which
  -- the key has the written value and every other key reads as before, and in which the state and
  -- the delta carry the same new stamp for the key.
  pub set_lem :
      (clock : ℕ) (s : State V) (key : String) (v : V) (j : String) (default_value : Option V)
      → ((error : SchemaError) × (validate fields key v ≡ some error)
          × (set fields clock s key v ≡ throws error))
        ⊎ ((r : ℕ × State V) × (validate fields key v ≡ none)
            × (set fields clock s key v ≡ ok r)
            × (get r.1 j default_value ≡ (if str_eq key j then some v else get s j default_value))
            × (has_delta r.1 ≡ true)
            × (lookup key r.1.value.stamps ≡ some (suc clock))
            × (lookup key r.1.delta.stamps ≡ some (suc clock)))
  unfolding set get has_delta record_state_write
  set_lem clock s key v j default_value = elim (Option-cases (validate fields key v)) [
    | inr (error, h) ↦ inl (error, h, ground (arith, h))
    | inl h ↦ inr (
      written clock (put_entry key v s.value) (put_entry key v s.delta) key,
      h,
      ground (arith, h),
      ground (arith, lookup-put key j v s.delta.entries, lookup-put key j v s.value.entries),
      put_nonempty key v s.delta.entries,
      lookup_same key (suc clock) s.value.stamps,
      lookup_same key (suc clock) s.delta.stamps,
    )
  ]

  ok_same : {A : Type 0} (o : Option SchemaError) (a b : A) → or_throw o a ≡ ok b → a ≡ b
  ok_same none a b h = cc
  ok_same (some error) a b h = cc

  -- What a write that did not throw leaves under the key.
  set_ok :
      (clock : ℕ) (s : State V) (key : String) (v : V) (r : ℕ × State V)
      → set fields clock s key v ≡ ok r
      → (r.0 ≡ suc clock)
        × (lookup key r.1.value.entries ≡ some v)
        × (lookup key r.1.delta.entries ≡ some v)
        × (lookup key r.1.value.stamps ≡ some (suc clock))
        × (lookup key r.1.delta.stamps ≡ some (suc clock))
  unfolding set record_state_write
  set_ok clock s key v r h =
      rw
        (sym (
          ok_same (validate fields key v)
            (written clock (put_entry key v s.value) (put_entry key v s.delta) key) r h))
        (
          refl,
          lookup_same key v s.value.entries,
          lookup_same key v s.delta.entries,
          lookup_same key (suc clock) s.value.stamps,
          lookup_same key (suc clock) s.delta.stamps,
        )

  -- When two holders of the same state write a key, the second after the first, and the session whose
  -- state it is then commits the first one's delta, the key keeps the second one's value. The keys of
  -- the first delta are distinct, and the clock only goes forward.
  pub commit_late :
      (c₁ c₂ c₃ : ℕ) (value d₁ d₂ : Stamped V) (key : String) (v₁ v₂ : V) (r₁ r₂ : ℕ × State V)
      (session : Session V) (e : Event V)
      → set fields c₁ (record { value = value; delta = d₁ }) key v₁ ≡ ok r₁
      → r₁.0 ≤ c₂
      → set fields c₂ (record { value = r₁.1.value; delta = d₂ }) key v₂ ≡ ok r₂
      → session.state ≡ r₂.1.value
      → e.actions.state_delta ≡ r₁.1.delta
      → HasDistinctKeys r₁.1.delta.entries
      → lookup key (update_session_state c₃ session e).1.state.entries ≡ some v₂
  commit_late c₁ c₂ c₃ value d₁ d₂ key v₁ v₂ r₁ r₂ session e w₁ h w₂ hs he distinct =
      let first = set_ok c₁ (record { value = value; delta = d₁ }) key v₁ r₁ w₁ in
      let second = set_ok c₂ (record { value = r₁.1.value; delta = d₂ }) key v₂ r₂ w₂ in
      let commit = (update_session_state_lem c₃ session e key (rw he distinct)).0 in
      commit ∙ rw (hs, he) (ground (arith, first, second, h))
