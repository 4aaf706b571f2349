-- ===== src/Event/Tests.antt =====
-- Pruning an event that thinks.
use adk_js.Prelude.{◌≡◌, refl, false}
use adk_js.Event.{has_thoughts, prune_thoughts, stringify_content}
use adk_js.Event.Samples.{thinking}

text_of_thinking : stringify_content thinking ≡ "yes"
unfolding stringify_content
text_of_thinking = refl

pruned : has_thoughts (prune_thoughts thinking) ≡ false
unfolding has_thoughts prune_thoughts
pruned = refl
