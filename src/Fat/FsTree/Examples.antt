-- ===== src/Fat/FsTree/Examples.antt =====
-- Two files, of which one is deleted.
use operating_system_fa_maf.Common.{ℕ, ◌≡◌, refl, List, [], ◌∷◌, some, none, done}
use operating_system_fa_maf.Fat.Tree.{leaf, node, insert, h_tree_insert, h_tree_size}
use operating_system_fa_maf.Fat.Tree.Delete.{delete, h_tree_delete}
use operating_system_fa_maf.Fat.Tree.Sorted.{IsOrdered}
use operating_system_fa_maf.Fat.PathOrder.{
  FileRef, strcmp, fat_file_cmp, fat_file_cmp_path, by_path,
}
use operating_system_fa_maf.Fat.FsTree.{
  FatTree, fat_tree_init, fat_tree_insert, fat_tree_delete, fat_tree_search,
}
use operating_system_fa_maf.Fat.FsTree.Map.{
  Change, inserted, deleted, after_changes, map_after, after_changes_lem,
}

abbrev file_a : FileRef
file_a = record { addr = 1; filepath = b'/' ∷ b'a' ∷ [] }

abbrev file_b : FileRef
file_b = record { addr = 2; filepath = b'/' ∷ b'b' ∷ [] }

abbrev changes : List Change
changes = inserted file_a ∷ inserted file_b ∷ deleted (b'/' ∷ b'a' ∷ []) ∷ []

abbrev left_over : FatTree by_path
left_over = record { file_tree = node file_b 1 leaf leaf }

changed : after_changes (fat_tree_init by_path) changes ≡ done left_over
unfolding after_changes fat_tree_init fat_tree_insert fat_tree_delete insert h_tree_insert
    h_tree_delete delete fat_file_cmp fat_file_cmp_path strcmp h_tree_size
changed = refl

after_changes_lem_example :
    IsOrdered by_path left_over.file_tree
    × ((p : List ℕ)
        → fat_tree_search by_path (some left_over) (some p) ≡ map_after (λ q. none) changes p)
after_changes_lem_example = after_changes_lem changes left_over changed
