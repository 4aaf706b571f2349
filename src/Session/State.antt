-- ===== src/Session/State.antt =====
-- core/src/sessions/state.ts: the state that tools and agents write, with its pending delta. The
-- fields of the schema, which a schema library yields, are a parameter: no fields stand for no schema
-- or one without fields, a field without a parser accepts every value.
pub mod Reads
pub mod Record
use adk_js.Prelude.{
  ℕ, String, Bool, true, false, not, ◌&&◌, ◌||◌, Option, none, some, List, [], ◌∷◌, map,
  if◌then◌else◌, ◌==◌,
}
use Prim.Native.Char.{Char, code}
use Prim.Native.String.{[], ◌∷◌}
use adk_js.Prelude.Dict.{Dict, lookup, put, has as has_key, assign}
use adk_js.Event.{Stamped}
use adk_js.Session.{record_state_write}

-- `StateSchemaError`, with the key its message names.
pub data SchemaError : Type 0 where
  undeclared : String → SchemaError
  mismatched : String → SchemaError

pub data Result (A : Type 0) : Type 0 where
  ok : A → Result A
  throws : SchemaError → Result A

abbrev pub SchemaFields : Type 0 → Type 0
SchemaFields V = Option (Dict (Option (V → Bool)))

-- `this.value` and `this.delta`
pub record State (V : Type 0) : Type 0 where
  pub value : Stamped V
  pub delta : Stamped V

-- `key.includes(':')`
abbrev pub has_colon : String → Bool
has_colon [] = false
has_colon (c ∷ s) = (code c == 58) || has_colon s

abbrev pub or_throw : {A : Type 0} → Option SchemaError → A → Result A
or_throw none a = ok a
or_throw (some error) a = throws error

module _ {V : Type 0} where
  abbrev pub put_entry : String → V → Stamped V → Stamped V
  put_entry key v o = record o { entries = put key v o.entries }

  abbrev pub written : ℕ → Stamped V → Stamped V → String → ℕ × State V
  unfolding record_state_write
  written clock value delta key =
      let (clock', value', delta') = record_state_write clock value delta key in
      (clock', record { value = value'; delta = delta' })

  abbrev pub write_all : ℕ → State V → Dict V → ℕ × State V
  unfolding record_state_write
  write_all clock s [] = (clock, s)
  write_all clock s ((key, v) ∷ d) =
      let (clock', s') = written clock s.value s.delta key in write_all clock' s' d

  abbrev pub assign_entries : Dict V → Stamped V → Stamped V
  assign_entries d o = record o { entries = assign o.entries d }

module _ {V : Type 0} (fields : SchemaFields V) where
  abbrev pub check_field : String → V → Option (Option (V → Bool)) → Option SchemaError
  check_field key value none = some (undeclared key)
  check_field key value (some none) = none
  check_field key value (some (some parses)) = if parses value then none else some (mismatched key)

  -- The error that is thrown, if one is.
  unfoldable pub validate : String → V → Option SchemaError
  validate key value =
      if has_colon key
      then none
      else (elim fields [ none ↦ none | some fs ↦ check_field key value (lookup key fs) ])

  unfoldable pub validate_delta : Dict V → Option SchemaError
  unfolding validate
  validate_delta [] = none
  validate_delta ((key, value) ∷ d) = elim (validate key value) [
    | some error ↦ some error
    | none ↦ validate_delta d
  ]

  unfoldable pub set : ℕ → State V → String → V → Result (ℕ × State V)
  unfolding validate record_state_write
  set clock s key v =
      or_throw (validate key v)
        (written clock (put_entry key v s.value) (put_entry key v s.delta) key)

  unfoldable pub update : ℕ → State V → Dict V → Result (ℕ × State V)
  unfolding validate_delta record_state_write
  update clock s d = or_throw (validate_delta d) (
      write_all clock
        (record { value = assign_entries d s.value; delta = assign_entries d s.delta }) d)

module _ {V : Type 0} where
  unfoldable pub get : State V → String → Option V → Option V
  get s key default_value = elim (lookup key s.delta.entries) [
    | some v ↦ some v
    | none ↦ elim (lookup key s.value.entries) [ some v ↦ some v | none ↦ default_value ]
  ]

  unfoldable pub has : State V → String → Bool
  has s key = has_key key s.value.entries || has_key key s.delta.entries

  unfoldable pub has_delta : State V → Bool
  has_delta s = elim s.delta.entries [ [] ↦ false | e ∷ d ↦ true ]

  unfoldable pub to_record : State V → Dict V
  to_record s = assign s.value.entries s.delta.entries
