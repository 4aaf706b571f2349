-- ===== src/Session/State/Record.antt =====
-- The state as a plain object.
use adk_js.Prelude.{◌≡◌, String, none, arith}
use adk_js.Prelude.Dict.{lookup, lookup-assign, HasDistinctKeys}
use adk_js.Session.State.{State, get, to_record}

module _ {V : Type 0} where
  -- Reading a key of the state without a default, where the keys of the pending delta are distinct,
  -- gives what the state's plain object has under the key.
  pub get-to_record :
      (s : State V) (key : String)
      → HasDistinctKeys s.delta.entries
      → get s key none ≡ lookup key (to_record s)
  unfolding get to_record
  get-to_record s key h = ground (arith, lookup-assign s.delta.entries s.value.entries key h)
