-- ===== src/Failover/Tests.antt =====
-- Two items: the router chooses the first, which fails at once, and then the second.
use adk_js.Prelude.{ℕ, ◌≡◌, refl, String, false, Option, none, some, List, [], ◌∷◌}
use adk_js.Prelude.Dict.{Dict}
use adk_js.Prelude.Names.{AllDistinct}
use adk_js.Failover.{Run, finished, Choice, key, run_with_routing}
use adk_js.Failover.Keys.{IsAttempt, is_out_of_fuel, run_with_routing_lem}

abbrev items : Dict (Run ℕ String)
items =
    ("a", record { yielded = []; failure = some "down" })
    ∷ ("b", record { yielded = 7 ∷ []; failure = none })
    ∷ []

abbrev router : List String → Option String → Choice String
router [] error = key "a"
router (k ∷ ks) error = key "b"

abbrev run : Run ℕ String → Run ℕ String
run r = r

second_item_answers : run_with_routing items router run ≡ ("b" ∷ "a" ∷ [], 7 ∷ [], finished)
unfolding run_with_routing
second_item_answers = refl

run_with_routing_lem_example :
    let (tried, yielded, ending) = run_with_routing items router run in
    AllDistinct tried
    × IsAttempt items router run tried yielded ending
    × (is_out_of_fuel ending ≡ false)
run_with_routing_lem_example = run_with_routing_lem items router run
