-- ===== src/Workflow/Branch.antt =====
-- core/src/workflow/branch_path.ts: paths of segments, written with dots.
pub mod Prefix
mod Tests
use adk_js.Prelude.{
  ℕ, zero, suc, String, Bool, true, false, ◌&&◌, Option, none, some, List, [], ◌∷◌, ◌++◌, map,
  length, get_elem?, leb, ltb, ◌==◌, str_eq, if◌then◌else◌,
}
use adk_js.Prelude.Text.{split_on}
use Prim.Native.String.{◌++◌ as str_append}

-- The segments of a `BranchPath`.
abbrev pub BranchPath : Type 0
BranchPath = List String

-- `segments.join('.')`
abbrev pub to_string : BranchPath → String
to_string [] = ""
to_string (s ∷ []) = s
to_string (s ∷ t ∷ l) = str_append s (str_append "." (to_string (t ∷ l)))

-- An empty path has no segments; others have those of `path.split('.')`.
unfoldable pub branch_path_from_string : String → BranchPath
branch_path_from_string path = if str_eq path "" then [] else split_on 46 path

-- `ancestor.segments.every((seg, i) => this.segments[i] === seg)`
abbrev pub starts : BranchPath → BranchPath → Bool
starts [] path = true
starts (s ∷ a) [] = false
starts (s ∷ a) (t ∷ p) = str_eq t s && starts a p

unfoldable pub is_descendant_of : BranchPath → BranchPath → Bool
is_descendant_of path ancestor =
    if leb (length path) (length ancestor) then false else starts ancestor path

unfoldable pub append : BranchPath → String → Option String → BranchPath
append path name none = path ++ name ∷ []
append path name (some run_id) = path ++ str_append name (str_append "@" run_id) ∷ []

-- `Math.min(...lengths)` of at least one path.
abbrev pub min_length : BranchPath → List BranchPath → ℕ
min_length p [] = length p
min_length p (q ∷ ps) = let rest = min_length q ps in if leb (length p) rest then length p else rest

-- `allSegments.every((s) => s[i] === seg)`
abbrev pub all_have : ℕ → String → List BranchPath → Bool
all_have i seg [] = true
all_have i seg (p ∷ ps) = elim (get_elem? p i) [
  | none ↦ false
  | some s ↦ str_eq s seg && all_have i seg ps
]

-- The loop, with the rounds that are left and the index.
prefix_loop : ℕ → ℕ → BranchPath → List BranchPath → BranchPath
prefix_loop zero i first all = []
prefix_loop (suc rounds) i first all =
    let rest = prefix_loop rounds (suc i) first all in
    elim (get_elem? first i) [
      | none ↦ []
      | some seg ↦ if all_have i seg all then seg ∷ rest else []
    ]

unfoldable pub common_prefix_of_paths : List BranchPath → BranchPath
unfolding prefix_loop
common_prefix_of_paths [] = []
common_prefix_of_paths (p ∷ ps) = prefix_loop (min_length p ps) 0 p (p ∷ ps)

unfoldable pub create_sub_branch : Option String → String → Option String → String
unfolding branch_path_from_string append
create_sub_branch none name run_id = to_string (append [] name run_id)
create_sub_branch (some base) name run_id =
    to_string (append (branch_path_from_string base) name run_id)

unfoldable pub common_prefix_of : List String → String
unfolding branch_path_from_string common_prefix_of_paths
common_prefix_of branches =
    to_string (common_prefix_of_paths (map branch_path_from_string branches))
