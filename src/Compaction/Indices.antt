-- ===== src/Compaction/Indices.antt =====
-- The indices of the events that a compactor sees: `events.flatMap((event, index) => … ? [index] : [])`
-- in truncating_context_compactor.ts and trajectory_thought_pruning_compactor.ts.
use adk_js.Prelude.{
  ℕ, zero, suc, ◌≡◌, refl, ap, Bool, List, [], ◌∷◌, map, length, take, drop, keep_if, arith,
  if◌then◌else◌,
}

module _ {ℓ} {A : Type ℓ} where
  -- The indices, counted from `i`, of the elements that pass the test.
  abbrev pub indices_from : ℕ → (A → Bool) → List A → List ℕ
  indices_from i test [] = []
  indices_from i test (x ∷ xs) =
      let rest = indices_from (suc i) test xs in if test x then i ∷ rest else rest

pub take-map : (n : ℕ) (is : List ℕ) → take n (map suc is) ≡ map suc (take n is)
take-map zero is = refl
take-map (suc n) [] = refl
take-map (suc n) (i ∷ is) = ap (λ t. suc i ∷ t) (take-map n is)

pub drop-map : (n : ℕ) (is : List ℕ) → drop n (map suc is) ≡ map suc (drop n is)
drop-map zero is = refl
drop-map (suc n) [] = refl
drop-map (suc n) (i ∷ is) = drop-map n is

module _ {ℓ} {A : Type ℓ} (test : A → Bool) where
  pub indices_shift :
      (i : ℕ) (xs : List A) → indices_from (suc i) test xs ≡ map suc (indices_from i test xs)
  indices_shift i [] = refl
  indices_shift i (x ∷ xs) = ground (arith, indices_shift (suc i) xs)

  pub length-indices_from :
      (i : ℕ) (xs : List A) → length (indices_from i test xs) ≡ length (keep_if test xs)
  length-indices_from i [] = refl
  length-indices_from i (x ∷ xs) = ground (arith, length-indices_from (suc i) xs)
