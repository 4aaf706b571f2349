-- ===== src/Failover.antt =====
-- core/src/utils/failover_utils.ts: running one of several items that a router chooses, and the next
-- one that it chooses when an item fails before it gave a result. The router and the run of an item
-- are parameters: the router sees the keys that were tried and the last error, and may throw; a run is
-- what the generator yields before it ends, and the error it ends with, if any. A promise that
-- resolves is a run of one result that ends well. The items are a map from keys.
pub mod Keys
mod Tests
use adk_js.Prelude.{
  ℕ, zero, suc, ◌+◌, String, Bool, true, false, Option, none, some, List, [], ◌∷◌, ◌++◌, length,
  str_eq, if◌then◌else◌,
}
use adk_js.Prelude.Dict.{Dict, lookup}
use adk_js.Prelude.Names.{contains}

pub record Run (R E : Type 0) : Type 0 where
  pub yielded : List R
  pub failure : Option E

-- How the generator ends: well, with an error of its own, or with an error that was thrown by an item
-- or by the router. `out_of_fuel` is not in the program: it marks a loop that was cut off.
pub data Ending (E : Type 0) : Type 0 where
  finished : Ending E
  no_item_selected : Ending E
  item_not_found : String → Ending E
  failed : E → Ending E
  out_of_fuel : Ending E

-- `router(items, context, {failedKeys, lastError})`
pub data Choice (E : Type 0) : Type 0 where
  stop : Choice E
  key : String → Choice E
  throws : E → Choice E

module _ {T R E : Type 0} (items : Dict T) (router : List String → Option E → Choice E)
    (run : T → Run R E) where
  -- The `while` loop, at the item that is selected, with the keys tried and the results given so far
  -- of this round on: the keys that are tried, the results and the ending.
  routing_loop : ℕ → T → List String → List String × List R × Ending E
  routing_loop zero item tried = (tried, [], out_of_fuel)
  routing_loop (suc fuel) item tried =
      let r = run item in
      elim r.failure as (λ _. List String × List R × Ending E) [
        | none ↦ (tried, r.yielded, finished)
        | some e ↦ elim r.yielded as (λ _. List String × List R × Ending E) [
          | y ∷ ys ↦ (tried, y ∷ ys, failed e)
          | [] ↦ elim (router tried (some e)) as (λ _. List String × List R × Ending E) [
            | throws e' ↦ (tried, [], failed e')
            | stop ↦ (tried, [], failed e)
            | key k ↦ elim (contains k tried) as (λ _. List String × List R × Ending E) [
              | true ↦ (tried, [], failed e)
              | false ↦ elim (lookup k items) as (λ _. List String × List R × Ending E) [
                | none ↦ (tried, [], item_not_found k)
                | some next ↦ routing_loop fuel next (k ∷ tried)
              ]
            ]
          ]
        ]
      ]

  -- The fuel is the number of items: no key is tried twice.
  pub run_with_routing : List String × List R × Ending E
  unfolding routing_loop
  run_with_routing = elim (router [] none) as (λ _. List String × List R × Ending E) [
    | throws e ↦ ([], [], failed e)
    | stop ↦ ([], [], no_item_selected)
    | key k ↦ elim (str_eq k "") as (λ _. List String × List R × Ending E) [
      | true ↦ ([], [], no_item_selected)
      | false ↦ elim (lookup k items) as (λ _. List String × List R × Ending E) [
        | none ↦ ([], [], item_not_found k)
        | some item ↦ routing_loop (length items) item (k ∷ [])
      ]
    ]
  ]
