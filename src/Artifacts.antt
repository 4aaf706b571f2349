-- ===== src/Artifacts.antt =====
-- core/src/artifacts/in_memory_artifact_service.ts: the versions of each artifact, under a path that
-- the names of the app, the user, the session and the file make. `encodeURIComponent` is a parameter,
-- and the type `M` of the metadata of a caller too. A part has here what the service reads.
pub mod Paths
pub mod Versions
mod Tests
use adk_js.Prelude.{
  ℕ, suc, ◌-◌, String, Bool, true, false, not, ◌&&◌, ◌||◌, Option, none, some, List, [], ◌∷◌, ◌++◌,
  length, get_elem?, map, str_eq, if◌then◌else◌,
}
use Prim.Native.String.{◌++◌ as str_append}
use adk_js.Prelude.Dict.{Dict, lookup, put, remove}
use adk_js.Prelude.Text.{starts_with}
use adk_js.Session.{user_prefix}

pub record FileData : Type 0 where
  pub file_uri : String
  pub mime_type : Option String

pub record ArtifactPart : Type 0 where
  pub inline_data : Option String
  pub text : Option String
  pub file_data : Option FileData

pub record ArtifactVersion (M : Type 0) : Type 0 where
  pub version : ℕ
  pub custom_metadata : Option M
  pub mime_type : Option String

pub record Entry (M : Type 0) : Type 0 where
  pub part : ArtifactPart
  pub metadata : ArtifactVersion M

abbrev pub Artifacts : Type 0 → Type 0
Artifacts M = Dict (List (Entry M))

-- `parts.join('/')`
abbrev pub join : List String → String
join [] = ""
join (x ∷ []) = x
join (x ∷ y ∷ l) = str_append x (str_append "/" (join (y ∷ l)))

abbrev pub file_has_user_namespace : String → Bool
file_has_user_namespace filename = starts_with user_prefix filename

abbrev is_some {ℓ} : {A : Type ℓ} → Option A → Bool
is_some none = false
is_some (some a) = true

-- An empty text is no content.
abbrev has_text : Option String → Bool
has_text none = false
has_text (some s) = not (str_eq s "")

abbrev pub has_content : ArtifactPart → Bool
has_content p = is_some p.inline_data || (has_text p.text || is_some p.file_data)

-- The type of a file that stands alone; a part without any content does not come here.
abbrev pub mime_type_of : ArtifactPart → Option String
mime_type_of p =
    if is_some p.inline_data || is_some p.text
    then none
    else (elim p.file_data as (λ _. Option String) [ none ↦ none | some d ↦ d.mime_type ])

module _ {ℓ} {A : Type ℓ} where
  abbrev pub versions_or_nil : Option (List A) → List A
  versions_or_nil none = []
  versions_or_nil (some l) = l

  -- The version asked for, or the last one.
  abbrev pub pick : List A → Option ℕ → Option A
  pick l none = get_elem? l (length l - 1)
  pick l (some n) = get_elem? l n

  abbrev pub indices : ℕ → List A → List ℕ
  indices i [] = []
  indices i (x ∷ l) = i ∷ indices (suc i) l

module _ (encode : String → String) where
  unfoldable pub artifact_prefix : String → List String → String
  artifact_prefix scope parts = str_append (join (map encode (scope ∷ parts))) "/"

  unfoldable pub artifact_path : String → String → String → String → String
  unfolding artifact_prefix
  artifact_path app user session filename =
      if file_has_user_namespace filename
      then str_append (artifact_prefix "user" (app ∷ user ∷ [])) (encode filename)
      else str_append (artifact_prefix "session" (app ∷ user ∷ session ∷ [])) (encode filename)

module _ {M : Type 0} where
  abbrev pub new_entry : ℕ → ArtifactPart → Option M → Entry M
  new_entry n artifact custom = record {
    part = artifact;
    metadata = record { version = n; custom_metadata = custom; mime_type = mime_type_of artifact };
  }

module _ {M : Type 0} (encode : String → String) where
  -- `none` is the rejection of an artifact without content.
  unfoldable pub save_artifact :
      Artifacts M
      → String
      → String
      → String
      → String
      → ArtifactPart
      → Option M
      → Option (Artifacts M × ℕ)
  save_artifact store app user session filename artifact custom =
      let path = artifact_path encode app user session filename in
      let versions = versions_or_nil (lookup path store) in
      let n = length versions in
      if has_content artifact
      then some (put path (versions ++ new_entry n artifact custom ∷ []) store, n)
      else none

  unfoldable pub load_artifact :
      Artifacts M → String → String → String → String → Option ℕ → Option ArtifactPart
  load_artifact store app user session filename version =
      elim (pick (versions_or_nil (lookup (artifact_path encode app user session filename) store))
        version) [ none ↦ none | some e ↦ some e.part ]

  unfoldable pub delete_artifact : Artifacts M → String → String → String → String → Artifacts M
  delete_artifact store app user session filename =
      let path = artifact_path encode app user session filename in
      elim (lookup path store) as (λ _. Artifacts M) [
        | none ↦ store
        | some versions ↦ remove path store
      ]

  unfoldable pub list_versions : Artifacts M → String → String → String → String → List ℕ
  list_versions store app user session filename =
      indices 0 (versions_or_nil (lookup (artifact_path encode app user session filename) store))

  unfoldable pub list_artifact_versions :
      Artifacts M → String → String → String → String → List (ArtifactVersion M)
  list_artifact_versions store app user session filename =
      map (λ e. e.metadata)
        (versions_or_nil (lookup (artifact_path encode app user session filename) store))

  unfoldable pub get_artifact_version :
      Artifacts M → String → String → String → String → Option ℕ → Option (ArtifactVersion M)
  get_artifact_version store app user session filename version =
      elim (pick (versions_or_nil (lookup (artifact_path encode app user session filename) store))
        version) [ none ↦ none | some e ↦ some e.metadata ]
