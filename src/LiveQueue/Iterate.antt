-- ===== src/LiveQueue/Iterate.antt =====
-- The async iterator of the queue ends.
use adk_js.Prelude.{ℕ, zero, suc, ◌<◌, ◌≡◌, refl, true, false, List, [], ◌∷◌, ◌++◌, length, arith}
use adk_js.LiveQueue.{Genai, LiveRequest, close_request, LiveRequestQueue, get, iterate}

module _ {g : Genai} where
  abbrev pub NoClose : List (LiveRequest g) → Type 0
  NoClose [] = Unit
  NoClose (r ∷ rs) = (r.close ≡ false) × NoClose rs

  iterate_from :
      (fuel : ℕ) (q : LiveRequestQueue g) (rs : List (LiveRequest g))
      → q.queue ≡ rs
      → q.is_closed ≡ true
      → NoClose rs
      → length rs < fuel
      → iterate fuel q ≡ (rs ++ close_request g ∷ [], true)
  unfolding iterate get
  iterate_from zero q rs e c h lt = elim lt [ ]
  iterate_from (suc f) q [] e c h lt = rw (e, c)
  iterate_from (suc f) q (r ∷ rs) e c (h, hs) lt = ground (arith, iterate_from f (get false q) rs)

  -- On a closed queue that holds requests with no close flag, the iterator yields all of them in
  -- order, then one close signal, and ends; one step more than there are requests is enough.
  pub iterate_closed :
      (fuel : ℕ) (q : LiveRequestQueue g)
      → q.is_closed ≡ true
      → NoClose q.queue
      → length q.queue < fuel
      → iterate fuel q ≡ (q.queue ++ close_request g ∷ [], true)
  iterate_closed fuel q c h lt = iterate_from fuel q q.queue refl c h lt
