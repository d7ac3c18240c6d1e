-- ===== src/Fat/Directory/Children.antt =====
-- Which children a cluster of entries gives, and where the code thinks that they stand.
use mathlib.Core.List.{append_assoc, append-nil}
use operating_system_fa_maf.Common.{
  ℕ, suc, ◌+◌, ◌≡◌, refl, ◌∙◌, inl, inr, Bool, true, false, ◌||◌, List, [], ◌∷◌, ◌++◌, map, length,
  if◌then◌else◌, arith, Bool-cases, Run, done, fault, ◌>>=◌, ◌==◌,
}
use operating_system_fa_maf.Fat.Dentry.{Dentry, file_start_cluster}
use operating_system_fa_maf.Fat.Filename.{build_filename}
use operating_system_fa_maf.Fat.Directory.{
  Directory, Child, last, filepath_from_name, append_child, is_end_of_directory, ignore_dentry,
  mark_log, init_file_from_dentry, entries_loop, read_cluster_dir_entries,
}

-- The entries before the end mark, and whether there is one.
unfoldable pub live : List Dentry → List Dentry
live [] = []
live (d ∷ ds) = let rest = live ds in if is_end_of_directory d then [] else d ∷ rest

unfoldable pub is_ended : List Dentry → Bool
is_ended [] = false
is_ended (d ∷ ds) = let rest = is_ended ds in if is_end_of_directory d then true else rest

-- Those of them that are not to be ignored, as they stand in the buffer then.
unfoldable pub listed : List Dentry → List Dentry
listed [] = []
listed (d ∷ ds) =
    let rest = listed ds in if ignore_dentry (mark_log d) then rest else mark_log d ∷ rest

or_true : (b : Bool) → b || true ≡ true
or_true true = refl
or_true false = refl

or_false : (b : Bool) → b || false ≡ b
or_false true = refl
or_false false = refl

-- The file that an entry makes, in a directory whose path ends in a separator.
abbrev pub child_of : Directory → Dentry → Child
child_of dir d = record {
  start_cluster = file_start_cluster d;
  dentry = d;
  name = build_filename d.base_name d.extension;
  filepath = dir.filepath ++ build_filename d.base_name d.extension;
  pos_in_parent = dir.nentries;
}

-- The children that entries make: where there are any, the path is to end in a separator.
abbrev pub children_of : Directory → List Dentry → Run (List Child)
children_of dir [] = done []
children_of dir (d ∷ ds) =
    if last 0 dir.filepath == b'/' then done (map (child_of dir) (d ∷ ds)) else fault

-- The directory behind the reading of a cluster.
abbrev pub counted : List Dentry → Directory → Directory
counted es dir = record dir {
  nentries = length (live es);
  children_read = dir.children_read || is_ended es;
}

filepath_from_name-slash :
    (parent name : List ℕ)
    → (last 0 parent == b'/') ≡ true
    → filepath_from_name parent name ≡ done (parent ++ name)
unfolding filepath_from_name last
filepath_from_name-slash [] name h = cc
filepath_from_name-slash (c ∷ cs) name h = rw h refl

filepath_from_name_fault :
    (parent name : List ℕ)
    → (last 0 parent == b'/') ≡ false
    → filepath_from_name parent name ≡ fault
unfolding filepath_from_name last
filepath_from_name_fault [] name h = refl
filepath_from_name_fault (c ∷ cs) name h = rw h refl

entries_loop-slash :
    (es : List Dentry) (p : ℕ) (dir : Directory) (elems : List Child)
    → (last 0 dir.filepath == b'/') ≡ true
    → entries_loop es p dir elems
      ≡ done (
        record dir {
          nentries = p + length (live es);
          children_read = dir.children_read || is_ended es;
        },
        elems ++ map (child_of dir) (listed (live es)),
      )
unfolding entries_loop append_child init_file_from_dentry live is_ended listed
entries_loop-slash [] p dir elems h =
    let zero : p + 0 ≡ p = omega arith in rw (zero, or_false dir.children_read, append-nil)
entries_loop-slash (d ∷ ds) p dir elems h = elim (Bool-cases (is_end_of_directory d)) [
  | inl e ↦
      let zero : p + 0 ≡ p = omega arith in rw (e, or_true dir.children_read, zero, append-nil)
  | inr e ↦
      let shift : p + 1 + length (live ds) ≡ p + suc (length (live ds)) = omega arith in
      elim (Bool-cases (ignore_dentry (mark_log d))) [
        | inl i ↦ rw (e, i, entries_loop-slash ds (p + 1) dir elems h, shift)
        | inr i ↦
            let m = mark_log d in
            rw (
              e,
              i,
              filepath_from_name-slash dir.filepath (build_filename m.base_name m.extension) h,
              entries_loop-slash ds (p + 1) dir (elems ++ child_of dir m ∷ []) h,
              shift,
              append_assoc,
            )
      ]
]

entries_loop_fault :
    (es : List Dentry) (p : ℕ) (dir : Directory) (elems : List Child)
    → (last 0 dir.filepath == b'/') ≡ false
    → entries_loop es p dir elems ≡ (
        children_of dir (listed (live es)) >>= λ cs. done (
          record dir {
            nentries = p + length (live es);
            children_read = dir.children_read || is_ended es;
          },
          elems ++ cs,
        ))
unfolding entries_loop append_child init_file_from_dentry live is_ended listed
entries_loop_fault [] p dir elems h =
    let zero : p + 0 ≡ p = omega arith in rw (zero, or_false dir.children_read, append-nil)
entries_loop_fault (d ∷ ds) p dir elems h = elim (Bool-cases (is_end_of_directory d)) [
  | inl e ↦
      let zero : p + 0 ≡ p = omega arith in rw (e, or_true dir.children_read, zero, append-nil)
  | inr e ↦
      let shift : p + 1 + length (live ds) ≡ p + suc (length (live ds)) = omega arith in
      elim (Bool-cases (ignore_dentry (mark_log d))) [
        | inl i ↦ rw (e, i, entries_loop_fault ds (p + 1) dir elems h, shift)
        | inr i ↦
            let m = mark_log d in
            rw (
              e,
              i,
              filepath_from_name_fault dir.filepath (build_filename m.base_name m.extension) h,
              h,
            )
      ]
]

children_of-slash :
    (dir : Directory) (ds : List Dentry)
    → (last 0 dir.filepath == b'/') ≡ true
    → children_of dir ds ≡ done (map (child_of dir) ds)
children_of-slash dir [] h = refl
children_of-slash dir (d ∷ ds) h = rw h refl

-- A cluster of entries gives a child for each entry before the end mark that is not to be ignored,
-- in order, behind those that there were; the directory counts the entries before the mark, and is
-- read if there is a mark. But in a directory whose path does not end in a separator, or is empty,
-- the first such entry is a fault.
pub read_cluster_dir_entries_lem :
    (es : List Dentry) (dir : Directory) (elems : List Child)
    → read_cluster_dir_entries es dir elems
      ≡ (children_of dir (listed (live es)) >>= λ cs. done (counted es dir, elems ++ cs))
unfolding read_cluster_dir_entries
read_cluster_dir_entries_lem es dir elems =
    let zero : 0 + length (live es) ≡ length (live es) = omega arith in
    elim (Bool-cases (last 0 dir.filepath == b'/')) [
      | inl e ↦
          entries_loop-slash es 0 dir elems e
          ∙ rw (zero, children_of-slash dir (listed (live es)) e)
      | inr e ↦ entries_loop_fault es 0 dir elems e ∙ rw zero
    ]

-- What a cluster gives where the path ends in a separator.
abbrev pub cluster_read : List Dentry → Directory → List Child → Directory × List Child
cluster_read es dir elems = (counted es dir, elems ++ map (child_of dir) (listed (live es)))

pub read_cluster_dir_entries-slash :
    (es : List Dentry) (dir : Directory) (elems : List Child)
    → (last 0 dir.filepath == b'/') ≡ true
    → read_cluster_dir_entries es dir elems ≡ done (cluster_read es dir elems)
read_cluster_dir_entries-slash es dir elems e =
    read_cluster_dir_entries_lem es dir elems ∙ rw (children_of-slash dir (listed (live es)) e)
