-- ===== src/Event/Calls.antt =====
-- Events that carry a function call or a function response, told by their parts.
use adk_js.Prelude.{
  ◌≡◌, refl, ◌⊎◌, inl, inr, true, false, Option, none, some, List, [], ◌∷◌, Option-cases,
}
use adk_js.Event.{
  Event, Part, is_nil, calls_of, responses_of, get_function_calls, get_function_responses,
}

-- One of the parts has the field.
pub data Carries {A : Type 0} (field : Part → Option A) : List Part → Type 0 where
  here : {p : Part} {ps : List Part} {a : A} → field p ≡ some a → Carries field (p ∷ ps)
  there : {p : Part} {ps : List Part} → Carries field ps → Carries field (p ∷ ps)

module _ {V : Type 0} where
  -- The event has a function call, and a function response.
  abbrev pub Calls : Event V → Type 0
  Calls e = (ps : List Part) × (e.parts ≡ some ps) × Carries (λ p. p.function_call) ps

  abbrev pub Responds : Event V → Type 0
  Responds e = (ps : List Part) × (e.parts ≡ some ps) × Carries (λ p. p.function_response) ps

module _ {A : Type 0} {field : Part → Option A} where
  Carries-nil : ¬ Carries field []
  Carries-nil h = elim h [ ]

  Carries-behind :
      {p : Part} {ps : List Part} → field p ≡ none → ¬ Carries field ps → ¬ Carries field (p ∷ ps)
  Carries-behind n h (here e) = cc
  Carries-behind n h (there g) = h g

calls_of-cases :
    (ps : List Part)
    → ((is_nil (calls_of ps) ≡ false) × Carries (λ p. p.function_call) ps)
      ⊎ ((is_nil (calls_of ps) ≡ true) × ¬ Carries (λ p. p.function_call) ps)
calls_of-cases [] = inr (refl, Carries-nil)
calls_of-cases (p ∷ ps) = elim (Option-cases p.function_call) [
  | inr (c, e) ↦ inl (rw e refl, Carries.here e)
  | inl n ↦ elim (calls_of-cases ps) [
    | inl (found, h) ↦ inl (rw n found, Carries.there h)
    | inr (nothing, h) ↦ inr (rw n nothing, Carries-behind n h)
  ]
]

responses_of-cases :
    (ps : List Part)
    → ((is_nil (responses_of ps) ≡ false) × Carries (λ p. p.function_response) ps)
      ⊎ ((is_nil (responses_of ps) ≡ true) × ¬ Carries (λ p. p.function_response) ps)
responses_of-cases [] = inr (refl, Carries-nil)
responses_of-cases (p ∷ ps) = elim (Option-cases p.function_response) [
  | inr (c, e) ↦ inl (rw e refl, Carries.here e)
  | inl n ↦ elim (responses_of-cases ps) [
    | inl (found, h) ↦ inl (rw n found, Carries.there h)
    | inr (nothing, h) ↦ inr (rw n nothing, Carries-behind n h)
  ]
]

module _ {V : Type 0} where
  pub get_function_calls-cases :
      (e : Event V)
      → ((is_nil (get_function_calls e) ≡ false) × Calls e)
        ⊎ ((is_nil (get_function_calls e) ≡ true) × ¬ Calls e)
  unfolding get_function_calls
  get_function_calls-cases e = elim (Option-cases e.parts) [
    | inl n ↦ inr (rw n refl, λ (ps, at, h). cc)
    | inr (ps, at) ↦ elim (calls_of-cases ps) [
      | inl (found, h) ↦ inl (rw at found, (ps, at, h))
      | inr (nothing, h) ↦
          inr (rw at nothing, λ (qs, at', g). let same : qs ≡ ps = cc in h (rw same at g))
    ]
  ]

  pub get_function_responses-cases :
      (e : Event V)
      → ((is_nil (get_function_responses e) ≡ false) × Responds e)
        ⊎ ((is_nil (get_function_responses e) ≡ true) × ¬ Responds e)
  unfolding get_function_responses
  get_function_responses-cases e = elim (Option-cases e.parts) [
    | inl n ↦ inr (rw n refl, λ (ps, at, h). cc)
    | inr (ps, at) ↦ elim (responses_of-cases ps) [
      | inl (found, h) ↦ inl (rw at found, (ps, at, h))
      | inr (nothing, h) ↦
          inr (rw at nothing, λ (qs, at', g). let same : qs ≡ ps = cc in h (rw same at g))
    ]
  ]
