-- ===== src/Workflow/Branch/Tests.antt =====
-- Branches of two siblings.
use adk_js.Prelude.{◌≡◌, refl, true, some, [], ◌∷◌}
use adk_js.Workflow.Branch.{
  starts, branch_path_from_string, is_descendant_of, create_sub_branch, common_prefix_of,
  common_prefix_of_paths,
}
use adk_js.Workflow.Branch.Prefix.{all_start, common_prefix_of_paths_lem}

common_of_siblings : common_prefix_of ("flow@1.a@1.x" ∷ "flow@1.a@2" ∷ "flow@1" ∷ []) ≡ "flow@1"
unfolding common_prefix_of
common_of_siblings = refl

sub_branch : create_sub_branch (some "flow@1") "a" (some "2") ≡ "flow@1.a@2"
unfolding create_sub_branch
sub_branch = refl

strict_descendant :
    is_descendant_of (branch_path_from_string "flow.a") (branch_path_from_string "flow") ≡ true
unfolding is_descendant_of branch_path_from_string
strict_descendant = refl

common_prefix_of_paths_lem_example :
    starts ("a" ∷ []) (common_prefix_of_paths (("a" ∷ "b" ∷ []) ∷ ("a" ∷ "c" ∷ []) ∷ []))
    ≡ all_start ("a" ∷ []) (("a" ∷ "b" ∷ []) ∷ ("a" ∷ "c" ∷ []) ∷ [])
common_prefix_of_paths_lem_example =
    common_prefix_of_paths_lem ("a" ∷ []) ("a" ∷ "b" ∷ []) (("a" ∷ "c" ∷ []) ∷ [])
