-- ===== src/Fat/Directory/Examples.antt =====
-- Two entries and the end mark.
use operating_system_fa_maf.Common.{◌≡◌, false, List, [], ◌∷◌, ◌++◌, done, ◌>>=◌}
use operating_system_fa_maf.Fat.Dentry.{Dentry}
use operating_system_fa_maf.Fat.Directory.{Directory, read_cluster_dir_entries}
use operating_system_fa_maf.Fat.Directory.Children.{
  live, listed, counted, children_of, read_cluster_dir_entries_lem,
}
use operating_system_fa_maf.Fat.Sample.{small_dentry}

abbrev root : Directory
root = record { filepath = b'/' ∷ []; nentries = 0; children_read = false }

abbrev entries : List Dentry
entries =
    small_dentry
    ∷ record small_dentry { start_cluster_low = 5 }
    ∷ record small_dentry { base_name = 0 ∷ [] }
    ∷ []

read_cluster_dir_entries_lem_example :
    read_cluster_dir_entries entries root []
    ≡ (children_of root (listed (live entries)) >>= λ cs. done (counted entries root, [] ++ cs))
read_cluster_dir_entries_lem_example = read_cluster_dir_entries_lem entries root []
