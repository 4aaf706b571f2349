-- ===== src/Artifacts/Tests.antt =====
-- Two artifacts, with an encoding that marks each character and replaces a slash.
use Prim.Native.Char.{Char, code}
use Prim.Native.String.{[], ◌∷◌}
use text.Mathlib.TextLemmas.{head-eq_of_cons-eq, tail-eq_of_cons-eq, nil≢cons, cons≢nil}
use text.Mathlib.TextEquality.{codes_equal}
use adk_js.Prelude.{
  ℕ, ◌≡◌, ◌≢◌, refl, sym, ap, ◌⊎◌, inl, inr, String, true, false, none, some, [], ◌∷◌, length, ◌==◌,
  str_eq, arith, Bool-cases, if◌then◌else◌,
}
use adk_js.Artifacts.{
  ArtifactPart, Artifacts, has_content, file_has_user_namespace, artifact_path, save_artifact,
  load_artifact, delete_artifact, list_versions,
}
use adk_js.Artifacts.Paths.{has_slash, artifact_path-injective}
use adk_js.Artifacts.Versions.{load_artifact-save_artifact, load_artifact-delete_artifact}

abbrev mark : Char
mark = "+"

abbrev replaced : Char
replaced = "-"

-- What marks a character, and what stands for it.
abbrev flag : Char → Char
flag c = if code c == 47 then replaced else mark

abbrev shown : Char → Char
shown c = if code c == 47 then replaced else c

abbrev encode : String → String
encode [] = []
encode (c ∷ s) = flag c ∷ shown c ∷ encode s

encode_clean : (s : String) → has_slash (encode s) ≡ false
encode_clean [] = refl
encode_clean (c ∷ s) = elim (Bool-cases (code c == 47)) [
  | inl k ↦ rw k (encode_clean s)
  | inr k ↦ rw k (rw k (encode_clean s))
]

mark_not_replaced : mark ≢ replaced
mark_not_replaced h = ground (arith, ap code h)

same_char : (c d : Char) → flag c ≡ flag d → shown c ≡ shown d → c ≡ d
same_char c d f g = elim (Bool-cases (code c == 47)) [
  | inl k ↦ elim (Bool-cases (code d == 47)) [
    | inl l ↦ codes_equal c d (ground arith)
    | inr l ↦ absurd (mark_not_replaced (sym (rw (k, l) at f)))
  ]
  | inr k ↦ elim (Bool-cases (code d == 47)) [
    | inl l ↦ absurd (mark_not_replaced (rw (k, l) at f))
    | inr l ↦ rw (k, l) at g
  ]
]

encode_inj : (s t : String) → encode s ≡ encode t → s ≡ t
encode_inj [] [] h = refl
encode_inj [] (d ∷ t) h = absurd (nil≢cons h)
encode_inj (c ∷ s) [] h = absurd (cons≢nil h)
encode_inj (c ∷ s) (d ∷ t) h =
    let rest = tail-eq_of_cons-eq h in
    let e = same_char c d (head-eq_of_cons-eq h) (head-eq_of_cons-eq rest) in
    rw (e, encode_inj s t (tail-eq_of_cons-eq rest)) refl

abbrev app : String
app = "app"

abbrev someone : String
someone = "u"

abbrev first : String
first = "s"

abbrev second : String
second = "t"

abbrev shared : String
shared = "user:f"

same_path :
    artifact_path encode app someone first shared ≡ artifact_path encode app someone second shared
unfolding artifact_path
same_path = refl

artifact_path-injective_example :
    (app ≡ app)
    × (someone ≡ someone)
    × (shared ≡ shared)
    × ((file_has_user_namespace shared ≡ true) ⊎ (first ≡ second))
artifact_path-injective_example =
    artifact_path-injective encode app someone first shared app someone second shared encode_inj
      encode_clean same_path

abbrev note : ArtifactPart
note = record { inline_data = none; text = some "note"; file_data = none }

abbrev empty_store : Artifacts ℕ
empty_store = []

load_artifact-save_artifact_example :
    ((has_content note ≡ false)
      × (save_artifact encode empty_store "a" "u" "s" "f" note none ≡ none))
    ⊎ ((after : Artifacts ℕ) × (n : ℕ) × (n
          ≡ length (list_versions encode empty_store "a" "u" "s" "f"))
        × (save_artifact encode empty_store "a" "u" "s" "f" note none ≡ some (after, n))
        × (load_artifact encode after "a" "u" "s" "f" none ≡ (
            if str_eq (artifact_path encode "a" "u" "s" "f") (artifact_path encode "a" "u" "s" "f")
            then some note
            else load_artifact encode empty_store "a" "u" "s" "f" none)))
load_artifact-save_artifact_example =
    load_artifact-save_artifact encode empty_store "a" "u" "s" "f" note none "a" "u" "s" "f" none

load_artifact-delete_artifact_example :
    load_artifact encode (delete_artifact encode empty_store "a" "u" "s" "f") "a" "u" "s" "f" none
    ≡ (if str_eq (artifact_path encode "a" "u" "s" "f") (artifact_path encode "a" "u" "s" "f")
        then none
        else load_artifact encode empty_store "a" "u" "s" "f" none)
load_artifact-delete_artifact_example =
    load_artifact-delete_artifact encode empty_store "a" "u" "s" "f" "a" "u" "s" "f" none
