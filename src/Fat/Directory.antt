-- ===== src/Fat/Directory.antt =====
-- lab4/esqueleto/fat_file.c: the children of a directory, from the entries of one of its clusters,
-- with `filepath_from_name` of lab4/esqueleto/fat_filename_util.c. The buffer is the list of its
-- entries; a list of files is a list, to which `g_list_append` adds at the end. Memory is always
-- found.
pub mod Children
pub mod Clusters
mod Examples
use operating_system_fa_maf.Common.{
  ℕ, zero, suc, ◌+◌, ◌/◌, ◌%◌, Bool, true, false, not, ◌||◌, List, [], ◌∷◌, ◌++◌, ◌==◌,
  if◌then◌else◌, get_or, Run, done, fault, ◌>>=◌,
}
use operating_system_fa_maf.Fat.Dentry.{Dentry, file_start_cluster}
use operating_system_fa_maf.Fat.Filename.{file_basename_valid, file_extension_valid, build_filename}

pub record Directory : Type 0 where
  pub filepath : List ℕ
  pub nentries : ℕ
  pub children_read : Bool

-- The members of a new `struct fat_file_s` that are not zero.
pub record Child : Type 0 where
  pub start_cluster : ℕ
  pub dentry : Dentry
  pub name : List ℕ
  pub filepath : List ℕ
  pub pos_in_parent : ℕ

unfoldable pub last : (c : ℕ) → List ℕ → ℕ
last c [] = c
last c (d ∷ ds) = last d ds

-- The buffer has room for the two names and the final zero: a separator between them is written past
-- its end. The last byte of an empty path is read before its start.
unfoldable pub filepath_from_name : List ℕ → List ℕ → Run (List ℕ)
unfolding last
filepath_from_name [] file_name = fault
filepath_from_name (c ∷ cs) file_name =
    if last c cs == b'/' then done ((c ∷ cs) ++ file_name) else fault

unfoldable pub is_end_of_directory : Dentry → Bool
is_end_of_directory d = get_or d.base_name 0 0 == 0

-- Bit 3 of the attributes is FILE_ATTRIBUTE_VOLUME.
unfoldable pub ignore_dentry : Dentry → Bool
ignore_dentry d =
    (d.attribs / 8 % 2 == 1)
    || not (file_basename_valid d.base_name)
    || not (file_extension_valid d.extension)

unfoldable pub set_head : ℕ → List ℕ → List ℕ
set_head c [] = []
set_head c (d ∷ ds) = c ∷ ds

-- The entry in the buffer is altered where its extension begins with an `l`.
unfoldable pub mark_log : Dentry → Dentry
unfolding set_head
mark_log d =
    if get_or d.extension 0 0 == b'l' then record d { base_name = set_head b'f' d.base_name } else d

unfoldable pub init_file_from_dentry : Dentry → Directory → Run Child
unfolding filepath_from_name
init_file_from_dentry d parent =
    filepath_from_name parent.filepath (build_filename d.base_name d.extension) >>= λ filepath.
    done (record {
      start_cluster = file_start_cluster d;
      dentry = d;
      name = build_filename d.base_name d.extension;
      filepath = filepath;
      pos_in_parent = parent.nentries;
    })

-- What `g_list_append` makes of the list, where the entry is not to be ignored.
unfoldable pub append_child : Dentry → Directory → List Child → Run (List Child)
append_child d dir elems =
    if ignore_dentry d
    then done elems
    else init_file_from_dentry d dir >>= λ child. done (elems ++ child ∷ [])

-- The loop, from an entry on; what it leaves in the directory is set behind it.
unfoldable pub entries_loop :
    List Dentry → (processed : ℕ) → Directory → List Child → Run (Directory × List Child)
unfolding mark_log
entries_loop [] processed dir elems = done (record dir { nentries = processed }, elems)
entries_loop (d ∷ ds) processed dir elems =
    let rest = append_child (mark_log d) dir elems >>= entries_loop ds (processed + 1) dir in
    if is_end_of_directory d
    then done (record dir { nentries = processed; children_read = true }, elems)
    else rest

unfoldable pub read_cluster_dir_entries :
    List Dentry → Directory → List Child → Run (Directory × List Child)
unfolding entries_loop
read_cluster_dir_entries entries dir elems = entries_loop entries 0 dir elems
