-- ===== src/Artifacts/Versions.antt =====
-- What saving and deleting do to the versions that are loaded later.
use adk_js.Prelude.{
  ℕ, zero, suc, ◌-◌, ◌≡◌, refl, sym, ap, ◌∙◌, ◌⊎◌, inl, inr, String, false, Option, none, some,
  List, [], ◌∷◌, ◌++◌, length, length-append, get_elem?, ◌==◌, str_eq, arith, eq_iff, Bool-cases,
  Option-cases, if◌then◌else◌,
}
use adk_js.Prelude.Dict.{lookup, put, remove, lookup-put, lookup-remove}
use adk_js.Artifacts.{
  ArtifactPart, Entry, Artifacts, has_content, versions_or_nil, pick, indices, new_entry,
  artifact_path, save_artifact, load_artifact, delete_artifact, list_versions,
}

module _ {ℓ} {A : Type ℓ} where
  get_elem?_append :
      (l : List A) (x : A) (i : ℕ)
      → get_elem? (l ++ x ∷ []) i ≡ (if i == length l then some x else get_elem? l i)
  get_elem?_append [] x zero = refl
  get_elem?_append [] x (suc i) = ground arith
  get_elem?_append (y ∷ l) x zero = ground arith
  get_elem?_append (y ∷ l) x (suc i) = ground (arith, get_elem?_append l x i)

  -- The version asked for, after one more was added.
  pick_append :
      (l : List A) (x : A) (o : Option ℕ)
      → pick (l ++ x ∷ []) o
        ≡ (elim o [ none ↦ some x | some i ↦ if i == length l then some x else get_elem? l i ])
  pick_append l x none =
      ground (arith, get_elem?_append l x (length (l ++ x ∷ []) - 1), length-append l (x ∷ []))
  pick_append l x (some i) = get_elem?_append l x i

  length-indices : (i : ℕ) (l : List A) → length (indices i l) ≡ length l
  length-indices i [] = refl
  length-indices i (x ∷ l) = ap suc (length-indices (suc i) l)

module _ {M : Type 0} where
  abbrev pub part_of : Option (Entry M) → Option ArtifactPart
  part_of none = none
  part_of (some e) = some e.part

pick_nil : (M : Type 0) (o : Option ℕ) → part_of {M = M} (pick [] o) ≡ none
pick_nil M none = refl
pick_nil M (some n) = refl

module _ {M : Type 0} (encode : String → String) where
  load_artifact_lem :
      (store : Artifacts M) (a u s f : String) (o : Option ℕ)
      → load_artifact encode store a u s f o
        ≡ part_of (pick (versions_or_nil (lookup (artifact_path encode a u s f) store)) o)
  unfolding load_artifact
  load_artifact_lem store a u s f o =
      elim (pick (versions_or_nil (lookup (artifact_path encode a u s f) store)) o) [
        | none ↦ refl
        | some e ↦ refl
      ]

  -- The part that is picked after one more entry was added.
  part_of-pick_append :
      (l : List (Entry M)) (e : Entry M) (o : Option ℕ) (old : Option ArtifactPart)
      → part_of (pick l o) ≡ old
      → part_of (pick (l ++ e ∷ []) o) ≡ (elim o as (λ _. Option ArtifactPart) [
        | none ↦ some e.part
        | some i ↦ if i == length l then some e.part else old
      ])
  part_of-pick_append l e none old h = ap part_of (pick_append l e none)
  part_of-pick_append l e (some i) old h =
      ap part_of (pick_append l e (some i))
      ∙ (elim (Bool-cases (i == length l)) [ inl same ↦ rw same refl | inr other ↦ rw other h ])

  -- An artifact without content is rejected. Any other is saved as a version whose number is the count
  -- of the versions there were; loading that version, or the newest, at the same path gives it, and
  -- loading another version, or at another path, gives what it gave before.
  pub load_artifact-save_artifact :
      (store : Artifacts M) (a u s f : String) (artifact : ArtifactPart) (custom : Option M)
      (b v t g : String) (o : Option ℕ)
      → ((has_content artifact ≡ false)
          × (save_artifact encode store a u s f artifact custom ≡ none))
        ⊎ ((after : Artifacts M) × (n : ℕ) × (n ≡ length (list_versions encode store a u s f))
            × (save_artifact encode store a u s f artifact custom ≡ some (after, n))
            × (load_artifact encode after b v t g o ≡ (
                if str_eq (artifact_path encode a u s f) (artifact_path encode b v t g)
                then (elim o as (λ _. Option ArtifactPart) [
                  | none ↦ some artifact
                  | some i ↦ if i == n then some artifact else load_artifact encode store b v t g o
                ])
                else load_artifact encode store b v t g o)))
  unfolding save_artifact list_versions
  load_artifact-save_artifact store a u s f artifact custom b v t g o =
      let path = artifact_path encode a u s f in
      let versions = versions_or_nil (lookup path store) in
      let e = new_entry (length versions) artifact custom in
      let after = put path (versions ++ e ∷ []) store in
      let at = artifact_path encode b v t g in
      let find = lookup-put path at (versions ++ e ∷ []) store in
      elim (Bool-cases (has_content artifact)) [
        | inr h ↦ inl (h, rw h refl)
        | inl h ↦ inr (
          after,
          length versions,
          sym (length-indices 0 versions),
          rw h refl,
          load_artifact_lem after b v t g o ∙ (elim (Bool-cases (str_eq path at)) [
            | inl same ↦
                let here : path ≡ at = grind (arith, eq_iff) in
                let old =
                  ap (λ p. part_of (pick (versions_or_nil (lookup p store)) o)) here
                  ∙ sym (load_artifact_lem store b v t g o) in
                rw (find, same)
                  (part_of-pick_append versions e o (load_artifact encode store b v t g o) old)
            | inr other ↦ rw (find, other) (sym (load_artifact_lem store b v t g o))
          ]),
        )
      ]

  -- After a deletion nothing is loaded at the artifact's path; at every other path it is as before.
  pub load_artifact-delete_artifact :
      (store : Artifacts M) (a u s f b v t g : String) (o : Option ℕ)
      → load_artifact encode (delete_artifact encode store a u s f) b v t g o ≡ (
          if str_eq (artifact_path encode a u s f) (artifact_path encode b v t g)
          then none
          else load_artifact encode store b v t g o)
  unfolding delete_artifact
  load_artifact-delete_artifact store a u s f b v t g o =
      let path = artifact_path encode a u s f in
      let at = artifact_path encode b v t g in
      let load : Artifacts M → Option ArtifactPart =
        λ d. part_of (pick (versions_or_nil (lookup at d)) o) in
      let gone : load (remove path store) ≡ (if str_eq path at then none else load store) =
        ap (λ x. part_of (pick (versions_or_nil x) o)) (lookup-remove path at store)
        ∙ (elim (Bool-cases (str_eq path at)) [
          | inl same ↦ rw same (pick_nil M o)
          | inr other ↦ rw other refl
        ]) in
      let after : load (delete_artifact encode store a u s f)
          ≡ (if str_eq path at then none else load store) =
        elim (Option-cases (lookup path store)) [
          | inr (versions, h) ↦
              let D : delete_artifact encode store a u s f ≡ remove path store =
                ground (arith, h) in
              ap load D ∙ gone
          | inl h ↦
              let D : delete_artifact encode store a u s f ≡ store = ground (arith, h) in
              let missing : path ≡ at → load store ≡ none = λ e. rw (sym e, h) (pick_nil M o) in
              ap load D ∙ (elim (Bool-cases (str_eq path at)) [
                | inl same ↦ rw same (missing ((eq_iff path at).0 same))
                | inr other ↦ rw other refl
              ])
        ] in
      load_artifact_lem (delete_artifact encode store a u s f) b v t g o
      ∙ after
      ∙ ap (λ x. if str_eq path at then none else x) (sym (load_artifact_lem store b v t g o))
