-- ===== src/Workflow/Run/Loop/Consistent.antt =====
-- What the loop of core/src/workflow/workflow.ts keeps, and how its buffer keeps it.
use adk_js.Prelude.{
  ℕ, suc, ◌≤◌, ◌≡◌, refl, ◌⊎◌, String, Bool, true, false, not, Option, none, some, List, [], ◌∷◌,
  ◌++◌, length, arith, str_eq, if◌then◌else◌,
}
use adk_js.Prelude.Dict.{Dict, lookup, put, remove, has, lookup-put, lookup-remove}
use adk_js.Workflow.Run.State.{NodeState, Trigger, LoopState, Setting}
use adk_js.Workflow.Run.{is_running, is_nil, push_trigger, put_rest, triggers_or_nil}

pub none_not_some : {A : Type 0} (o : Option A) (a : A) → o ≡ none → o ≡ some a → ⊥
none_not_some o a h k = cc

pub length-put_le {ℓ} :
    {A : Type ℓ} (k : String) (v : A) (d : Dict A) → length (put k v d) ≤ suc (length d)
length-put_le k v [] = omega arith
length-put_le k v ((j, w) ∷ d) = ground (arith, length-put_le k v d)

pub length-put_pos {ℓ} : {A : Type ℓ} (k : String) (v : A) (d : Dict A) → 1 ≤ length (put k v d)
length-put_pos k v [] = omega arith
length-put_pos k v ((j, w) ∷ d) = ground arith

pub length-remove_le {ℓ} : {A : Type ℓ} (k : String) (d : Dict A) → length (remove k d) ≤ length d
length-remove_le k [] = omega arith
length-remove_le k ((j, w) ∷ d) = ground (arith, length-remove_le k d)

pub has-put :
    {A : Type 0} (k j : String) (v : A) (d : Dict A)
    → has j (put k v d) ≡ (if str_eq k j then true else has j d)
has-put k j v d = ground (arith, lookup-put k j v d)

pub has-remove :
    {A : Type 0} (k j : String) (d : Dict A)
    → has j (remove k d) ≡ (if str_eq k j then false else has j d)
has-remove k j d = ground (arith, lookup-remove k j d)

-- No more than the bound, if there is one.
abbrev pub IsWithin : Option ℕ → ℕ → Type 0
IsWithin none n = Unit
IsWithin (some bound) n = n ≤ bound

module _ {V : Type 0} where
  abbrev pub is_running_state : Option (NodeState V) → Bool
  is_running_state none = false
  is_running_state (some s) = is_running s.status

  abbrev pub has_interrupts : Option (NodeState V) → Bool
  has_interrupts none = false
  has_interrupts (some s) = not (is_nil s.interrupts)

  abbrev pub is_empty_buffer : Option (List (Trigger V)) → Bool
  is_empty_buffer none = false
  is_empty_buffer (some ts) = is_nil ts

  -- The tasks keep to the bound; a node has a pending task just when its status says that it runs; no
  -- list in the buffer is empty; and if a node has interrupts, then the loop has some.
  pub record IsConsistent (c : Setting V) (l : LoopState V) : Type 0 where
    pub bounded : IsWithin c.max_concurrency (length l.pending)
    pub running_iff : (n : String) → has n l.pending ≡ is_running_state (lookup n l.nodes)
    pub buffered : (n : String) → is_empty_buffer (lookup n l.trigger_buffer) ≡ false
    pub recorded :
        (n : String)
        → (has_interrupts (lookup n l.nodes) ≡ false) ⊎ (is_nil l.interrupt_ids ≡ false)

  pub push_trigger-buffered :
      (l : LoopState V) (name : String) (t : Trigger V)
      → ((n : String) → is_empty_buffer (lookup n l.trigger_buffer) ≡ false)
      → (n : String) → is_empty_buffer (lookup n (push_trigger l name t).trigger_buffer) ≡ false
  unfolding push_trigger
  push_trigger-buffered l name t h n =
      let old = triggers_or_nil (lookup name l.trigger_buffer) in
      ground (arith, lookup-put name n (old ++ t ∷ []) l.trigger_buffer, h n, not_nil old t)
    where
      not_nil : (ts : List (Trigger V)) (t : Trigger V) → is_nil (ts ++ t ∷ []) ≡ false
      not_nil [] t = refl
      not_nil (u ∷ ts) t = refl

  pub put_rest-buffered :
      (name : String) (ts : List (Trigger V)) (d : Dict (List (Trigger V)))
      → ((n : String) → is_empty_buffer (lookup n d) ≡ false)
      → (n : String) → is_empty_buffer (lookup n (put_rest name ts d)) ≡ false
  put_rest-buffered name [] d h n = ground (arith, lookup-remove name n d, h n)
  put_rest-buffered name (t ∷ ts) d h n = ground (arith, lookup-put name n (t ∷ ts) d, h n)
