-- ===== src/Session/InMemory/Listing/Pages.antt =====
-- The pages of a listing (core/src/sessions/in_memory_session_service.ts).
use adk_js.Prelude.{
  ℕ, zero, suc, ◌+◌, ◌*◌, ◌/◌, ◌≤◌, ◌≡◌, refl, sym, ap, ◌∙◌, arith, String, Bool, Option, none,
  some, List, [], ◌∷◌, ◌++◌, length, take, drop,
}
use adk_js.Prelude.Dict.{Dict}
use adk_js.Session.{Session}
use adk_js.Session.InMemory.{Service}
use adk_js.Session.InMemory.Listing.{
  ListSessionsRequest, Order, respond_to, list_sessions, respond, in_order, listed_each,
  sessions_by_user,
}

take_all {ℓ} : {A : Type ℓ} (n : ℕ) (xs : List A) → length xs ≤ n → take n xs ≡ xs
take_all zero [] h = refl
take_all zero (x ∷ xs) h = absurd (omega arith)
take_all (suc n) [] h = refl
take_all (suc n) (x ∷ xs) h = ap (λ ys. x ∷ ys) (take_all n xs (omega arith))

zero_add : (m : ℕ) → 0 + m ≡ m
zero_add m = omega arith

suc_add : (n m : ℕ) → suc n + m ≡ suc (n + m)
suc_add n m = omega arith

take_nil {ℓ} : {A : Type ℓ} (n : ℕ) → take {A = A} n [] ≡ []
take_nil zero = refl
take_nil (suc n) = refl

drop_nil {ℓ} : {A : Type ℓ} (n : ℕ) → drop {A = A} n [] ≡ []
drop_nil zero = refl
drop_nil (suc n) = refl

take-add {ℓ} :
    {A : Type ℓ} (n m : ℕ) (xs : List A) → take (n + m) xs ≡ take n xs ++ take m (drop n xs)
take-add zero m xs = ap (λ k. take k xs) (zero_add m)
take-add (suc n) m [] = take_nil (suc n + m) ∙ sym (take_nil m)
take-add (suc n) m (x ∷ xs) =
    ap (λ k. take k (x ∷ xs)) (suc_add n m) ∙ ap (λ ys. x ∷ ys) (take-add n m xs)

drop-add {ℓ} : {A : Type ℓ} (n m : ℕ) (xs : List A) → drop (n + m) xs ≡ drop m (drop n xs)
drop-add zero m xs = ap (λ k. drop k xs) (zero_add m)
drop-add (suc n) m [] = drop_nil (suc n + m) ∙ sym (drop_nil m)
drop-add (suc n) m (x ∷ xs) = ap (λ k. drop k (x ∷ xs)) (suc_add n m) ∙ drop-add n m xs

module _ {V : Type 0} (not_behind : String → String → Bool) (service : Service V) where
  -- The sessions of some pages, from one on.
  abbrev pub pages_from : ListSessionsRequest → ℕ → ℕ → ℕ → List (Session V)
  pages_from request limit page zero = []
  pages_from request limit page (suc count) =
      (list_sessions not_behind service
        (record request { limit = some limit; page = some page })).sessions
      ++ pages_from request limit (suc page) count

  -- All of the sessions that a request is about, in its order.
  abbrev every : ListSessionsRequest → List (Session V)
  every r =
      in_order not_behind r.order (listed_each (sessions_by_user service r.app_name r.user_id))

  in_order_nil : (o : Option Order) → in_order {V = V} not_behind o [] ≡ []
  in_order_nil none = refl
  in_order_nil (some o) = refl

  respond_to_lem :
      (ds : List (Dict (Session V))) (r : ListSessionsRequest)
      → respond_to not_behind ds r
        ≡ respond not_behind (in_order not_behind r.order (listed_each ds)) r
  respond_to_lem [] r = ap (λ all. respond not_behind all r) (sym (in_order_nil r.order))
  respond_to_lem (d ∷ ds) r = refl

  list_sessions-respond :
      (r : ListSessionsRequest)
      → list_sessions not_behind service r ≡ respond not_behind (every r) r
  unfolding list_sessions
  list_sessions-respond r = respond_to_lem (sessions_by_user service r.app_name r.user_id) r

  -- Pages are the slices of the whole list.
  pages_from_lem :
      (r : ListSessionsRequest) (limit p count : ℕ)
      → pages_from r limit (suc p) count ≡ take (count * limit) (drop (p * limit) (every r))
  pages_from_lem r limit p zero = ap (λ k. take k (drop (p * limit) (every r))) none_left
    where
      none_left : 0 ≡ 0 * limit
      none_left = omega arith
  pages_from_lem r limit p (suc count) =
      let all = every r in
      let here =
        ap (λ x. x.sessions)
          (list_sessions-respond (record r { limit = some limit; page = some (suc p) })) in
      let rest = pages_from_lem r limit (suc p) count in
      let behind : drop (suc p * limit) all ≡ drop limit (drop (p * limit) all) =
        ap (λ k. drop k all) (one_more p) ∙ drop-add (p * limit) limit all in
      let count_more : suc count * limit ≡ limit + count * limit = omega arith in
      rw (here, rest, behind)
        (sym (take-add limit (count * limit) (drop (p * limit) all))
          ∙ ap (λ k. take k (drop (p * limit) all)) (sym count_more))
    where
      one_more : (p : ℕ) → suc p * limit ≡ p * limit + limit
      one_more p = omega arith

  -- For a limit of at least one, the pages from the first to the last that a response counts hold, one
  -- behind the other, the sessions that the request lists without a limit: none twice, none left out,
  -- in the same order.
  pub list_sessions-pages_from :
      (r : ListSessionsRequest) (n : ℕ)
      → pages_from r
          (suc n)
          1
          (list_sessions not_behind service (record r { limit = some (suc n) })).total_pages
        ≡ (list_sessions not_behind service (record r { limit = none; offset = none })).sessions
  list_sessions-pages_from r n =
      let limited_by =
        ap (λ x. x.total_pages) (list_sessions-respond (record r { limit = some (suc n) })) in
      let whole =
        ap (λ x. x.sessions) (list_sessions-respond (record r { limit = none; offset = none })) in
      let count = (length (every r) + n) / suc n in
      rw (limited_by, whole)
        (pages_from_lem r (suc n) 0 count
          ∙ ap (λ k. take (count * suc n) (drop k (every r))) none_left
          ∙ take_all (count * suc n) (every r) (enough (length (every r))))
    where
      none_left : 0 * suc n ≡ 0
      none_left = omega arith

      enough : (total : ℕ) → total ≤ (total + n) / suc n * suc n
      enough total = omega arith
