-- ===== src/Event/Thoughts.antt =====
-- Pruning an event's thoughts.
use adk_js.Prelude.{◌≡◌, refl, ◌⊎◌, true, false, List, [], ◌∷◌, arith}
use adk_js.Event.{
  Event, Part, unthought, any_thought, parts_or_nil, has_thoughts, prune_thoughts,
  stringify_content,
}

any_thought-unthought : (ps : List Part) → any_thought (unthought ps) ≡ false
any_thought-unthought [] = refl
any_thought-unthought (p ∷ ps) = ground (arith, any_thought-unthought ps)

unthought_of_none : (ps : List Part) → any_thought ps ≡ false → unthought ps ≡ ps
unthought_of_none [] h = refl
unthought_of_none (p ∷ ps) h = ground (arith, unthought_of_none ps)

unthought-unthought : (ps : List Part) → unthought (unthought ps) ≡ unthought ps
unthought-unthought ps = unthought_of_none (unthought ps) (any_thought-unthought ps)

module _ {V : Type 0} where
  -- A pruned event has no thoughts, the same text for the context and all fields but the parts
  -- unchanged; an event without thoughts is left as it is.
  pub prune_thoughts_lem :
      (e : Event V)
      → (has_thoughts (prune_thoughts e) ≡ false)
        × (stringify_content (prune_thoughts e) ≡ stringify_content e)
        × (record (prune_thoughts e) { parts = e.parts } ≡ e)
        × ((has_thoughts e ≡ true) ⊎ (prune_thoughts e ≡ e))
  unfolding has_thoughts prune_thoughts stringify_content
  prune_thoughts_lem e =
      let ps = parts_or_nil e.parts in
      (
        ground (arith, any_thought-unthought ps),
        ground (arith, unthought-unthought ps),
        ground arith,
        ground (arith, unthought_of_none ps),
      )
