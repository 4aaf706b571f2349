-- ===== src/Failover/Keys.antt =====
-- What the keys that were tried say about the results and the ending.
use adk_js.Prelude.{
  ℕ, zero, suc, ◌<◌, ◌≡◌, refl, sym, ap, ◌⊎◌, inl, inr, String, Bool, true, false, Option, none,
  some, List, [], ◌∷◌, length, All, arith, eq_iff, str_eq, Bool-cases, Option-cases,
}
use adk_js.Prelude.Dict.{Dict, lookup}
use adk_js.Prelude.Names.{contains, AllDistinct, outside, outside_lt, outside-le-length}
use mathlib.Core.Path.{subst}
use adk_js.Failover.{
  Run, Ending, finished, out_of_fuel, no_item_selected, item_not_found, failed, Choice, stop, key,
  throws, routing_loop, run_with_routing,
}

module _ {ℓ} {T : Type ℓ} where
  abbrev pub keys_of : Dict T → List String
  keys_of [] = []
  keys_of ((k, v) ∷ d) = k ∷ keys_of d

  contains-keys_of :
      (k : String) (d : Dict T) (v : T) → lookup k d ≡ some v → contains k (keys_of d) ≡ true
  contains-keys_of k [] v h = cc
  contains-keys_of k ((j, w) ∷ d) v h =
      ground (arith, contains-keys_of k d v, eq_iff j k, eq_iff k j)

  length-keys_of : (d : Dict T) → length (keys_of d) ≡ length d
  length-keys_of [] = refl
  length-keys_of ((k, v) ∷ d) = ap suc (length-keys_of d)

  List-cases : (xs : List T) → (xs ≡ []) ⊎ ((y : T) × (ys : List T) × (xs ≡ y ∷ ys))
  List-cases [] = inl refl
  List-cases (y ∷ ys) = inr (y, ys, refl)

module _ {E : Type 0} where
  Choice-cases :
      (c : Choice E) → (c ≡ stop) ⊎ (((k : String) × (c ≡ key k)) ⊎ ((e : E) × (c ≡ throws e)))
  Choice-cases stop = inl refl
  Choice-cases (key k) = inr (inl (k, refl))
  Choice-cases (throws e) = inr (inr (e, refl))

  abbrev pub is_finished : Ending E → Bool
  is_finished finished = true
  is_finished no_item_selected = false
  is_finished (item_not_found k) = false
  is_finished (failed e) = false
  is_finished out_of_fuel = false

  abbrev pub is_out_of_fuel : Ending E → Bool
  is_out_of_fuel finished = false
  is_out_of_fuel no_item_selected = false
  is_out_of_fuel (item_not_found k) = false
  is_out_of_fuel (failed e) = false
  is_out_of_fuel out_of_fuel = true

  abbrev pub is_none : Option E → Bool
  is_none none = true
  is_none (some e) = false

module _ {T R E : Type 0} (items : Dict T) (router : List String → Option E → Choice E)
    (run : T → Run R E) where
  -- The key's item failed before it gave a result.
  abbrev pub Fails : String → Type 0
  Fails k =
      (item : T) × (lookup k items ≡ some item)
      × ((run item).yielded ≡ [])
      × (is_none (run item).failure ≡ false)

  -- The newest key first.
  abbrev pub IsAttempt : List String → List R → Ending E → Type 0
  IsAttempt [] yielded ending = (yielded ≡ []) × (is_finished ending ≡ false)
  IsAttempt (k ∷ ks) yielded ending =
      ((item : T) × (lookup k items ≡ some item)
        × ((run item).yielded ≡ yielded)
        × (is_none (run item).failure ≡ is_finished ending))
      × All Fails ks

  abbrev Holds : List String × List R × Ending E → Type 0
  Holds (tried, yielded, ending) =
      AllDistinct tried × IsAttempt tried yielded ending × (is_out_of_fuel ending ≡ false)

  -- The round goes to the router.
  abbrev RoutingLoopLem : ℕ → Type 0
  RoutingLoopLem fuel =
      (item : T) (k : String) (ks : List String)
      → lookup k items ≡ some item
      → AllDistinct (k ∷ ks)
      → All Fails ks
      → outside (k ∷ ks) (keys_of items) < fuel
      → Holds (routing_loop items router run fuel item (k ∷ ks))

  routing_next :
      (fuel : ℕ) (item : T) (k : String) (ks : List String) (e : E)
      → RoutingLoopLem fuel
      → lookup k items ≡ some item
      → AllDistinct (k ∷ ks)
      → All Fails ks
      → outside (k ∷ ks) (keys_of items) < suc fuel
      → (run item).failure ≡ some e
      → (run item).yielded ≡ []
      → Holds (routing_loop items router run (suc fuel) item (k ∷ ks))
  unfolding routing_loop
  routing_next fuel item k ks e IH found distinct fails h n l =
      let next = routing_loop items router run (suc fuel) item (k ∷ ks) in
      let here : IsAttempt (k ∷ ks) [] (failed e) = ((item, found, l, ap is_none n), fails) in
      elim (Choice-cases (router (k ∷ ks) (some e))) [
        | inr (inr (e', c)) ↦
            let D : next ≡ (k ∷ ks, [], failed e') = ground (arith, n, l, c) in
            subst Holds (sym D) (distinct, here, refl)
        | inl c ↦
            let D : next ≡ (k ∷ ks, [], failed e) = ground (arith, n, l, c) in
            subst Holds (sym D) (distinct, here, refl)
        | inr (inl (j, c)) ↦ elim (Bool-cases (contains j (k ∷ ks))) [
          | inl old ↦
              let D : next ≡ (k ∷ ks, [], failed e) = ground (arith, n, l, c, old) in
              subst Holds (sym D) (distinct, here, refl)
          | inr new ↦ elim (Option-cases (lookup j items)) [
            | inl f ↦
                let D : next ≡ (k ∷ ks, [], item_not_found j) = ground (arith, n, l, c, new, f) in
                subst Holds (sym D) (distinct, here, refl)
            | inr (item', f) ↦
                let D : next ≡ routing_loop items router run fuel item' (j ∷ k ∷ ks) =
                  ground (arith, n, l, c, new, f) in
                let fewer =
                  outside_lt j (k ∷ ks) (keys_of items) (contains-keys_of j items item' f) new in
                let fails' : All Fails (k ∷ ks) = ((item, found, l, ap is_none n), fails) in
                subst Holds (sym D) (IH item' j (k ∷ ks) f (new, distinct) fails' (omega arith))
          ]
        ]
      ]

  routing_loop_lem :
      (fuel : ℕ) (item : T) (k : String) (ks : List String)
      → lookup k items ≡ some item
      → AllDistinct (k ∷ ks)
      → All Fails ks
      → outside (k ∷ ks) (keys_of items) < fuel
      → Holds (routing_loop items router run fuel item (k ∷ ks))
  unfolding routing_loop
  routing_loop_lem zero item k ks found distinct fails h = absurd (omega arith)
  routing_loop_lem (suc fuel) item k ks found distinct fails h =
      let next = routing_loop items router run (suc fuel) item (k ∷ ks) in
      elim (Option-cases (run item).failure) [
        | inl n ↦
            let D : next ≡ (k ∷ ks, (run item).yielded, finished) = ground (arith, n) in
            subst Holds (sym D) (distinct, ((item, found, refl, ap is_none n), fails), refl)
        | inr (e, n) ↦ elim (List-cases (run item).yielded) [
          | inr (y, ys, l) ↦
              let D : next ≡ (k ∷ ks, y ∷ ys, failed e) = ground (arith, n, l) in
              subst Holds (sym D) (distinct, ((item, found, l, ap is_none n), fails), refl)
          | inl l ↦ routing_next fuel item k ks e (routing_loop_lem fuel) found distinct fails h n l
        ]
      ]

  -- No fuel runs out. The keys that were tried are distinct; the items of all but the last failed
  -- before they gave a result; the results are those that the last item tried gave, and the ending is
  -- good just when that item's is; without a key tried there is no result, and the ending is bad.
  pub run_with_routing_lem :
      let (tried, yielded, ending) = run_with_routing items router run in
      AllDistinct tried × IsAttempt tried yielded ending × (is_out_of_fuel ending ≡ false)
  unfolding run_with_routing
  run_with_routing_lem =
      let all = run_with_routing items router run in
      elim (Choice-cases (router [] none)) [
        | inr (inr (e, c)) ↦
            let D : all ≡ ([], [], failed e) = ground (arith, c) in
            subst Holds (sym D) (tt, (refl, refl), refl)
        | inl c ↦
            let D : all ≡ ([], [], no_item_selected) = ground (arith, c) in
            subst Holds (sym D) (tt, (refl, refl), refl)
        | inr (inl (k, c)) ↦ elim (Bool-cases (str_eq k "")) [
          | inl empty ↦
              let D : all ≡ ([], [], no_item_selected) = ground (arith, c, empty) in
              subst Holds (sym D) (tt, (refl, refl), refl)
          | inr given ↦ elim (Option-cases (lookup k items)) [
            | inl f ↦
                let D : all ≡ ([], [], item_not_found k) = ground (arith, c, given, f) in
                subst Holds (sym D) (tt, (refl, refl), refl)
            | inr (item, f) ↦
                let D : all ≡ routing_loop items router run (length items) item (k ∷ []) =
                  ground (arith, c, given, f) in
                let keys = keys_of items in
                let fewer = outside_lt k [] keys (contains-keys_of k items item f) refl in
                let bound = outside-le-length [] keys in
                let enough : outside (k ∷ []) keys < length items =
                  omega (arith, fewer, bound, length-keys_of items) in
                subst Holds (sym D)
                  (routing_loop_lem (length items) item k [] f (refl, tt) tt enough)
          ]
        ]
      ]
