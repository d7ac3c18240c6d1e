-- ===== src/Fat/Fuse/Examples.antt =====
-- Handlers on the small volume.
use operating_system_fa_maf.Common.{
  ℕ, ◌<◌, ◌≤◌, ◌≡◌, ◌⊎◌, refl, ap, zero, suc, ◌^◌, true, false, Option, none, some, [], ◌∷◌, ◌++◌,
  length, arith, done, fault,
}
use operating_system_fa_maf.Common.Int.{pos}
use operating_system_fa_maf.Fat.Table.Chain.{Chain}
use operating_system_fa_maf.Fat.Table.{
  Mount, end_of_chain, commit_entry, get_next_free_cluster, free_loop, is_valid_cluster_number,
  is_cluster_used, set_next_cluster, le32,
}
use operating_system_fa_maf.Fat.Tree.{leaf, node}
use operating_system_fa_maf.Fat.Tree.Delete.Removal.{no_left}
use operating_system_fa_maf.Fat.Dentry.{Dentry}
use operating_system_fa_maf.Fat.Filename.{filename_len}
use operating_system_fa_maf.Fat.Filename.Split.{filename_from_path, strrchr, copy_extension, fields}
use operating_system_fa_maf.Fat.Fuse.Creation.{CanInit}
use operating_system_fa_maf.Fat.Hierarchy.{HNode}
use operating_system_fa_maf.Fat.Handle.{
  Handle, fat_file_is_directory, fat_file_init_direntry, new_entry, fat_file_inc_num_times_opened,
}
use operating_system_fa_maf.Fat.Fuse.{FatVolume, set_errno, get_parent}
use operating_system_fa_maf.Fat.Fuse.Lookup.{fuse_open, release}
use operating_system_fa_maf.Fat.Fuse.Change.{unlink, rmdir}
use operating_system_fa_maf.Fat.Fuse.Readdir.{readdir}
use operating_system_fa_maf.Fat.Fuse.Removal.{FileAt, IsWithout, Freed}
use operating_system_fa_maf.Fat.Fuse.Unlink.{unlink_lem, rmdir_orphans}
use operating_system_fa_maf.Fat.Fuse.Counters.{Ancestors, root, above, IsTouched, release-fuse_open}
use operating_system_fa_maf.Fat.Fuse.Listing.{accept, add_names, readdir_lem}
use operating_system_fa_maf.Fat.Sample.{small_os, small_os-Writes, small_time, small_dentry}
use operating_system_fa_maf.Fat.Fuse.Sample.{
  fuse_table, fuse_table-IsFat32, file-Chain, dir-Chain, dir_path, file_path, new_path, dir_dentry,
  root_node, dir_node, file_node, fuse_nodes, ref, fuse_tree, fuse_mount, fuse_volume, fuse_libc,
  finds_file, finds_dir, leads_to_file, in_dir, in_root,
}

abbrev the_file : FileAt fuse_nodes (some fuse_tree) file_path
the_file = record {
  tree = fuse_tree;
  ref = ref 2 file_path;
  size = 1;
  left = leaf;
  right = leaf;
  child = file_node;
  p = 1;
  parent = dir_node;
  pre = [];
  post = [];
  in_tree = refl;
  found = finds_file;
  here = refl;
  up = refl;
  there = refl;
  siblings = in_dir;
  apart = refl;
}

abbrev the_directory : FileAt fuse_nodes (some fuse_tree) dir_path
the_directory = record {
  tree = fuse_tree;
  ref = ref 1 dir_path;
  size = 2;
  left = leaf;
  right = node (ref 2 file_path) 1 leaf leaf;
  child = dir_node;
  p = 0;
  parent = root_node;
  pre = [];
  post = [];
  in_tree = refl;
  found = finds_dir;
  here = refl;
  up = refl;
  there = refl;
  siblings = in_root;
  apart = refl;
}

unlink_lem_example :
    (v' : FatVolume ℕ) × (unlink small_os 5 fuse_volume file_path ≡ done (pos 0, v'))
    × Freed fuse_table v'.mount.table (2 ∷ 3 ∷ 4 ∷ [])
    × IsWithout fuse_nodes (some fuse_tree) file_path the_file v'
unfolding fat_file_is_directory
unlink_lem_example =
    unlink_lem small_os 5 fuse_volume file_path the_file small_dentry (2 ∷ 3 ∷ 4 ∷ [])
      small_os-Writes fuse_table-IsFat32 refl refl file-Chain no_left (omega arith) (omega arith)

-- The directory `/d` goes, and the file `/d/x` stays.
rmdir_orphans_example :
    (v' : FatVolume ℕ) × (rmdir small_os 5 fuse_volume dir_path ≡ done (pos 0, v'))
    × Freed fuse_table v'.mount.table (5 ∷ [])
    × IsWithout fuse_nodes (some fuse_tree) dir_path the_directory v'
    × (v'.nodes 2 ≡ some file_node)
    × (get_parent v' (some 2) ≡ fault)
unfolding fat_file_is_directory
rmdir_orphans_example =
    rmdir_orphans small_os 5 fuse_volume dir_path the_directory dir_dentry (5 ∷ []) 2 file_node
      small_os-Writes fuse_table-IsFat32 refl refl refl dir-Chain no_left (omega arith)
      (omega arith) refl refl refl refl refl

way_up : Ancestors fuse_nodes (some 2) (2 ∷ 1 ∷ 0 ∷ [])
way_up = above {c = 2} {n = file_node} refl refl refl (
    above {c = 1} {n = dir_node} refl refl refl
      (above {c = 0} {n = root_node} refl refl refl (root refl)))

readdir_lem_example :
    ((length {A = ℕ} (2 ∷ []) ≤ 1)
      × (readdir small_os fuse_libc 5 5 (accept (λ b name. b ++ name ∷ [])) fuse_volume 1 []
          ≡ done (
            pos 0,
            add_names
                (λ b name. b ++ name ∷ [])
                fuse_nodes
                (2 ∷ [])
                ((b'.' ∷ []) ∷ (b'.' ∷ b'.' ∷ []) ∷ []),
            set_errno fuse_volume 0,
          )))
    ⊎ ((1 < length {A = ℕ} (2 ∷ []))
        × (readdir small_os fuse_libc 5 5 (accept (λ b name. b ++ name ∷ [])) fuse_volume 1 []
            ≡ fault))
unfolding fat_file_is_directory
readdir_lem_example =
    readdir_lem (λ b name. b ++ name ∷ []) small_os fuse_libc 5 5 fuse_volume 1 dir_node (2 ∷ []) []
      refl refl refl in_dir (omega arith)

-- The entry and the directory that are to be made.
abbrev new_dentry : Dentry
new_dentry = new_entry small_time true 6 (b'n' ∷ 0 ∷ 0 ∷ 0 ∷ 0 ∷ 0 ∷ 0 ∷ 0 ∷ [], 0 ∷ 0 ∷ 0 ∷ [])

six_free : get_next_free_cluster fuse_table ≡ some 6
unfolding get_next_free_cluster free_loop is_valid_cluster_number
six_free = refl

six_unused : is_cluster_used fuse_table 6 ≡ false
unfolding is_cluster_used
six_unused = refl

named_new : fat_file_init_direntry fuse_libc small_time true new_path 6 ≡ done new_dentry
unfolding fat_file_init_direntry filename_from_path strrchr copy_extension fields filename_len
named_new = refl

six_taken : (set_next_cluster small_os fuse_mount 6 end_of_chain).errno ≡ 0
unfolding set_next_cluster commit_entry le32
six_taken = refl

abbrev can_init : CanInit small_os fuse_libc true new_path fuse_mount
can_init = record {
  start = 6;
  d = new_dentry;
  free = six_free;
  mapped = refl;
  unused = six_unused;
  named = named_new;
  taken = six_taken;
}

abbrev taken_mount : Mount ℕ
taken_mount = set_next_cluster small_os fuse_mount 6 end_of_chain

abbrev count_of : Option (HNode Handle) → ℕ
count_of none = 0
count_of (some n) = n.content.num_times_opened

small_counts :
    (b : ℕ) (m : HNode Handle) → fuse_nodes b ≡ some m → m.content.num_times_opened < 2 ^ 31
small_counts zero m e = omega (arith, ap count_of e)
small_counts (suc zero) m e = omega (arith, ap count_of e)
small_counts (suc (suc zero)) m e = omega (arith, ap count_of e)
small_counts (suc (suc (suc b))) m e = omega (arith, ap count_of e)

release-fuse_open_example :
    (v1 : FatVolume ℕ) × (v2 : FatVolume ℕ) × (fuse_open 5 fuse_volume file_path
      ≡ done (pos 0, some 2, v1))
    × IsTouched fat_file_inc_num_times_opened (2 ∷ 1 ∷ 0 ∷ []) fuse_nodes v1.nodes
    × (release 5 v1 2 ≡ done (pos 0, v2))
    × ((b : ℕ) → v2.nodes b ≡ fuse_nodes b)
    × (v2.file_tree ≡ some fuse_tree)
    × (v2.mount ≡ fuse_mount)
unfolding fat_file_is_directory
release-fuse_open_example =
    release-fuse_open 5 fuse_volume file_path 2 file_node (2 ∷ 1 ∷ 0 ∷ []) leads_to_file refl refl
      way_up small_counts (omega arith)
