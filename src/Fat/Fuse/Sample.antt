-- ===== src/Fat/Fuse/Sample.antt =====
-- A small mounted volume for the tests: the root, a directory `/d` in it and a file `/d/x` in that.
use operating_system_fa_maf.Common.{
  ℕ, zero, suc, ◌≡◌, refl, true, none, some, List, [], ◌∷◌, get_or, arith, done,
}
use operating_system_fa_maf.Fat.Os.{Os, failed, bytes}
use operating_system_fa_maf.Fat.Libc.{Libc}
use operating_system_fa_maf.Fat.Table.{
  FatTable, Mount, end_of_chain, get_next_cluster, is_valid_cluster_number,
}
use operating_system_fa_maf.Fat.Table.Chain.{Chain, stop, link, IsFat32}
use operating_system_fa_maf.Fat.Tree.{HTree, leaf, node, find, h_tree_search, h_tree_get_data}
use operating_system_fa_maf.Fat.PathOrder.{FileRef, by_path, strcmp, fat_file_cmp_path}
use operating_system_fa_maf.Fat.FsTree.{FatTree, fat_tree_node_search}
use operating_system_fa_maf.Fat.Hierarchy.{HNode, Nodes}
use operating_system_fa_maf.Fat.Hierarchy.Siblings.{Siblings, last, next}
use operating_system_fa_maf.Fat.Dentry.{Dentry}
use operating_system_fa_maf.Fat.Handle.{Handle}
use operating_system_fa_maf.Fat.Fuse.{FatVolume, node_search}
use operating_system_fa_maf.Fat.Sample.{small_os, small_dentry}

-- Six clusters of two entries each: a file in 2, 3 and 4, a directory in 5, and 6 and 7 free.
abbrev pub fuse_table : FatTable
fuse_table = record {
  fat_map = λ i. get_or (0 ∷ 0 ∷ 3 ∷ 4 ∷ end_of_chain ∷ end_of_chain ∷ 0 ∷ 0 ∷ []) i 0;
  fat_entries = 8;
  fat_offset = 32;
  num_data_clusters = 6;
  data_start_offset = 64;
  cluster_order = 6;
}

pub fuse_table-IsFat32 : IsFat32 fuse_table
fuse_table-IsFat32 = omega arith

pub file-Chain : Chain fuse_table 2 (2 ∷ 3 ∷ 4 ∷ [])
unfolding get_next_cluster is_valid_cluster_number
file-Chain = link {c = 2} {n = 3} refl refl refl (
    link {c = 3} {n = 4} refl refl refl
      (link {c = 4} {n = end_of_chain} refl refl refl (stop refl)))

pub dir-Chain : Chain fuse_table 5 (5 ∷ [])
unfolding get_next_cluster is_valid_cluster_number
dir-Chain = link {c = 5} {n = end_of_chain} refl refl refl (stop refl)

abbrev pub root_path : List ℕ
root_path = b'/' ∷ []

abbrev pub dir_path : List ℕ
dir_path = b'/' ∷ b'd' ∷ []

abbrev pub file_path : List ℕ
file_path = b'/' ∷ b'd' ∷ b'/' ∷ b'x' ∷ []

abbrev pub new_path : List ℕ
new_path = b'/' ∷ b'n' ∷ []

abbrev pub dir_dentry : Dentry
dir_dentry = record small_dentry { attribs = 16 }

abbrev pub root_file : Handle
root_file = record {
  dentry = some dir_dentry;
  name = root_path;
  filepath = root_path;
  start_cluster = 7;
  nentries = 1;
  pos_in_parent = 0;
  num_times_opened = 0;
  children_read = true;
}

abbrev pub dir_file : Handle
dir_file = record root_file { name = b'd' ∷ []; filepath = dir_path; start_cluster = 5 }

abbrev pub plain_file : Handle
plain_file = record root_file {
  dentry = some small_dentry;
  name = b'x' ∷ [];
  filepath = file_path;
  start_cluster = 2;
  nentries = 0;
}

abbrev pub root_node : HNode Handle
root_node = record {
  content = root_file;
  h_parent = none;
  h_next_sibling = none;
  h_children = some 1;
}

abbrev pub dir_node : HNode Handle
dir_node = record {
  content = dir_file;
  h_parent = some 0;
  h_next_sibling = none;
  h_children = some 2;
}

abbrev pub file_node : HNode Handle
file_node = record {
  content = plain_file;
  h_parent = some 1;
  h_next_sibling = none;
  h_children = none;
}

abbrev pub fuse_nodes : Nodes Handle
fuse_nodes zero = some root_node
fuse_nodes (suc zero) = some dir_node
fuse_nodes (suc (suc zero)) = some file_node
fuse_nodes (suc (suc (suc a))) = none

abbrev pub ref : ℕ → List ℕ → FileRef
ref a path = record { addr = a; filepath = path }

abbrev pub file_tree_node : HTree FileRef
file_tree_node = node (ref 2 file_path) 1 leaf leaf

abbrev pub dir_tree_node : HTree FileRef
dir_tree_node = node (ref 1 dir_path) 2 leaf file_tree_node

abbrev pub fuse_tree : FatTree by_path
fuse_tree = record { file_tree = node (ref 0 root_path) 3 leaf dir_tree_node }

abbrev pub fuse_mount : Mount ℕ
fuse_mount = record { table = fuse_table; world = 0; errno = 0 }

abbrev pub fuse_volume : FatVolume ℕ
fuse_volume = record {
  mount = fuse_mount;
  file_tree = some fuse_tree;
  nodes = fuse_nodes;
  next_addr = 3;
}

-- Every path is taken to be one in the root, whose name is one character.
abbrev pub fuse_libc : Libc ℕ
fuse_libc = record {
  dirname = λ path. root_path;
  base_memory = λ path. b'n' ∷ 0 ∷ 0 ∷ 0 ∷ 0 ∷ 0 ∷ 0 ∷ 0 ∷ [];
  now_text = λ w. [];
  getlogin = λ w. some (b'u' ∷ []);
  mktime = λ t. 0;
}

-- A volume that cannot be written.
abbrev pub broken_os : Os
broken_os = record {
  World = ℕ;
  pwrite = λ w buf offset. (failed 5, suc w);
  pread = λ w n offset. (bytes [], suc w);
  gmtime_now = small_os.gmtime_now;
}

pub finds_file : h_tree_search by_path fuse_tree.file_tree (some file_path) ≡ file_tree_node
unfolding h_tree_search find strcmp fat_file_cmp_path
finds_file = refl

pub finds_dir : h_tree_search by_path fuse_tree.file_tree (some dir_path) ≡ dir_tree_node
unfolding h_tree_search find strcmp fat_file_cmp_path
finds_dir = refl

pub finds_none : h_tree_search by_path fuse_tree.file_tree (some new_path) ≡ leaf
unfolding h_tree_search find strcmp fat_file_cmp_path
finds_none = refl

pub leads_to_file : node_search fuse_volume file_path ≡ done (some 2)
unfolding node_search fat_tree_node_search h_tree_search find strcmp fat_file_cmp_path
    h_tree_get_data
leads_to_file = refl

pub leads_to_root : node_search fuse_volume root_path ≡ done (some 0)
unfolding node_search fat_tree_node_search h_tree_search find strcmp fat_file_cmp_path
    h_tree_get_data
leads_to_root = refl

pub leads_nowhere : node_search fuse_volume new_path ≡ done none
unfolding node_search fat_tree_node_search h_tree_search find strcmp fat_file_cmp_path
    h_tree_get_data
leads_nowhere = refl

pub in_dir : Siblings fuse_nodes (some 2) (2 ∷ [])
in_dir = next {c = 2} {n = file_node} refl refl refl (last refl)

pub in_root : Siblings fuse_nodes (some 1) (1 ∷ [])
in_root = next {c = 1} {n = dir_node} refl refl refl (last refl)
