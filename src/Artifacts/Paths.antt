-- ===== src/Artifacts/Paths.antt =====
-- Different artifacts have different paths.
use Prim.Native.Char.{Char, code}
use Prim.Native.String.{[], ◌∷◌}
use Prim.Native.String.{◌++◌ as str_append}
use text.Mathlib.TextLemmas.{
  nil-append, cons-append, append_assoc, head-eq_of_cons-eq, tail-eq_of_cons-eq,
}
use adk_js.Prelude.{
  ◌≡◌, ◌≢◌, refl, sym, ap, ◌∙◌, ◌⊎◌, inl, inr, String, Bool, true, false, [], ◌∷◌, str_eq, ◌==◌,
  if◌then◌else◌, arith, Bool-cases,
}
use adk_js.Artifacts.{file_has_user_namespace, artifact_path}

-- No slash.
abbrev pub has_slash : String → Bool
has_slash [] = false
has_slash (c ∷ s) = if code c == 47 then true else has_slash s

abbrev pub slash : Char
slash = "/"

slash-append : (p : String) → str_append "/" p ≡ slash ∷ p
slash-append p = cons-append slash [] p ∙ ap (λ t. slash ∷ t) (nil-append p)

-- Two texts that start with a segment without a slash, and go on behind a slash.
segment_cons :
    (s t p q : String)
    → has_slash s ≡ false
    → has_slash t ≡ false
    → str_append s (slash ∷ p) ≡ str_append t (slash ∷ q)
    → (s ≡ t) × (p ≡ q)
segment_cons [] [] p q hs ht h =
    (refl, tail-eq_of_cons-eq (sym (nil-append (slash ∷ p)) ∙ h ∙ nil-append (slash ∷ q)))
segment_cons [] (d ∷ t) p q hs ht h =
    let first =
      head-eq_of_cons-eq (sym (nil-append (slash ∷ p)) ∙ h ∙ cons-append d t (slash ∷ q)) in
    let at : 47 ≡ code d = ap code first in ground (arith, at, ht)
segment_cons (c ∷ s) [] p q hs ht h =
    let first =
      head-eq_of_cons-eq (sym (cons-append c s (slash ∷ p)) ∙ h ∙ nil-append (slash ∷ q)) in
    let at : code c ≡ 47 = ap code first in ground (arith, at, hs)
segment_cons (c ∷ s) (d ∷ t) p q hs ht h =
    let both = sym (cons-append c s (slash ∷ p)) ∙ h ∙ cons-append d t (slash ∷ q) in
    let (e, rest) =
      segment_cons s t p q (ground (arith, hs)) (ground (arith, ht)) (tail-eq_of_cons-eq both) in
    (rw (head-eq_of_cons-eq both, e) refl, rest)

true_not_false : true ≢ false
true_not_false h = cc

module _ (encode : String → String) where
  user_path :
      (app user session filename : String)
      → file_has_user_namespace filename ≡ true
      → artifact_path encode app user session filename
        ≡ str_append (encode "user") (
            slash
            ∷ str_append (encode app) (slash ∷ str_append (encode user) (slash ∷ encode filename)))
  unfolding artifact_path
  user_path app user session filename h = rw h (simp (append_assoc, cons-append, slash-append))

  session_path :
      (app user session filename : String)
      → file_has_user_namespace filename ≡ false
      → artifact_path encode app user session filename
        ≡ str_append (encode "session") (
            slash
            ∷ str_append (encode app) (
                slash
                ∷ str_append
                    (encode user)
                    (slash ∷ str_append (encode session) (slash ∷ encode filename))))
  unfolding artifact_path
  session_path app user session filename h = rw h (simp (append_assoc, cons-append, slash-append))

  encoded_segment :
      ((s t : String) → encode s ≡ encode t → s ≡ t)
      → ((s : String) → has_slash (encode s) ≡ false)
      → (x y p q : String) → str_append (encode x) (slash ∷ p) ≡ str_append (encode y) (slash ∷ q)
      → (x ≡ y) × (p ≡ q)
  encoded_segment inj clean x y p q h =
      let (same, rest) = segment_cons (encode x) (encode y) p q (clean x) (clean y) h in
      (inj x y same, rest)

  -- Two artifacts have the same path only if they are of the same app, user and file, and of the same
  -- session, where the file is not in the user's namespace. The encoding is to part different texts
  -- and to yield no slash.
  pub artifact_path-injective :
      (app user session filename app' user' session' filename' : String)
      → ((s t : String) → encode s ≡ encode t → s ≡ t)
      → ((s : String) → has_slash (encode s) ≡ false)
      → artifact_path encode app user session filename
        ≡ artifact_path encode app' user' session' filename'
      → (app ≡ app')
        × (user ≡ user')
        × (filename ≡ filename')
        × ((file_has_user_namespace filename ≡ true) ⊎ (session ≡ session'))
  artifact_path-injective a u s f a' u' s' f' inj clean h =
      let scopes_differ : "user" ≢ "session" = λ e. true_not_false (ap (str_eq "user") e) in
      elim (Bool-cases (file_has_user_namespace f)) [
        | inl k ↦ elim (Bool-cases (file_has_user_namespace f')) [
          | inl k' ↦
              let (_, h₁) =
                encoded_segment inj clean "user" "user" _ _
                  (sym (user_path a u s f k) ∙ h ∙ user_path a' u' s' f' k') in
              let (ea, h₂) = encoded_segment inj clean a a' _ _ h₁ in
              let (eu, h₃) = encoded_segment inj clean u u' _ _ h₂ in (ea, eu, inj f f' h₃, inl k)
          | inr k' ↦
              let (e, _) =
                encoded_segment inj clean "user" "session" _ _
                  (sym (user_path a u s f k) ∙ h ∙ session_path a' u' s' f' k') in
              absurd (scopes_differ e)
        ]
        | inr k ↦ elim (Bool-cases (file_has_user_namespace f')) [
          | inl k' ↦
              let (e, _) =
                encoded_segment inj clean "session" "user" _ _
                  (sym (session_path a u s f k) ∙ h ∙ user_path a' u' s' f' k') in
              absurd (scopes_differ (sym e))
          | inr k' ↦
              let (_, h₁) =
                encoded_segment inj clean "session" "session" _ _
                  (sym (session_path a u s f k) ∙ h ∙ session_path a' u' s' f' k') in
              let (ea, h₂) = encoded_segment inj clean a a' _ _ h₁ in
              let (eu, h₃) = encoded_segment inj clean u u' _ _ h₂ in
              let (es, h₄) = encoded_segment inj clean s s' _ _ h₃ in (ea, eu, inj f f' h₄, inr es)
        ]
      ]
