-- ===== src/Fat/Fuse/Listing.antt =====
-- Which names `fat_fuse_readdir` gives of a directory that has been read.
use operating_system_fa_maf.Common.{
  ℕ, ◌<◌, ◌≤◌, ◌≡◌, refl, ◌⊎◌, inl, inr, Bool, true, false, Option, none, some, List, [], ◌∷◌, leb,
  if◌then◌else◌, length, arith, Bool-cases, done, fault,
}
use operating_system_fa_maf.Common.Int.{pos}
use operating_system_fa_maf.Fat.Os.{Os}
use operating_system_fa_maf.Fat.Libc.{Libc}
use operating_system_fa_maf.Fat.PathOrder.{strcmp}
use operating_system_fa_maf.Fat.Hierarchy.{HNode, Nodes, node_at}
use operating_system_fa_maf.Fat.Hierarchy.Siblings.{Siblings, next, flatten_h_children_lem}
use operating_system_fa_maf.Fat.Handle.{Handle, fat_file_is_directory}
use operating_system_fa_maf.Fat.Fuse.{FatVolume, set_errno, file_at}
use operating_system_fa_maf.Fat.Fuse.Readdir.{is_same, fill_loop, list_children, readdir}

abbrev pub log_name : List ℕ
log_name = b'f' ∷ b's' ∷ b'.' ∷ b'l' ∷ b'o' ∷ b'g' ∷ []

module _ {B : Type 0} (add : B → List ℕ → B) where
  -- A filler that never refuses a name.
  abbrev pub accept : B → List ℕ → B × Bool
  accept buf name = (add buf name, false)

  abbrev pub add_name : B → Option (HNode Handle) → B
  add_name buf none = buf
  add_name buf (some n) =
      if is_same (strcmp n.content.name log_name) then buf else add buf n.content.name

  -- The buffer with the names of the files, but for the log, in order.
  abbrev pub add_names : Nodes Handle → List ℕ → B → B
  add_names nodes [] buf = buf
  add_names nodes (c ∷ cs) buf = add_names nodes cs (add_name buf (nodes c))

  module _ (os : Os) (c : Libc os.World) (io_fuel fuel : ℕ) where
    fill_loop_lem :
        (v : FatVolume os.World) (p : Option ℕ) (cs : List ℕ) (buf : B)
        → Siblings v.nodes p cs
        → fill_loop os c io_fuel fuel accept v cs buf ≡ done (pos 0, add_names v.nodes cs buf, v)
    unfolding fill_loop file_at node_at
    fill_loop_lem v p [] buf s = refl
    fill_loop_lem v p (x ∷ cs) buf (next {n = n} q e new rest) =
        elim (Bool-cases (is_same (strcmp n.content.name log_name))) [
          | inl log ↦ rw (e, log) (fill_loop_lem v n.h_next_sibling cs buf rest)
          | inr other ↦
              rw (e, other) (fill_loop_lem v n.h_next_sibling cs (add buf n.content.name) rest)
        ]

    -- With a filler that never refuses and more fuel than children, readdir on a directory that has
    -- been read gives the names `.` and `..` and then those of its children in their order, but for
    -- the log, and returns 0, if the directory counts as many entries as it has children; if it
    -- counts fewer, it writes past the end of its array.
    pub readdir_lem :
        (v : FatVolume os.World) (fh : ℕ) (n : HNode Handle) (cs : List ℕ) (buf : B)
        → v.nodes fh ≡ some n
        → fat_file_is_directory n.content ≡ true
        → n.content.children_read ≡ true
        → Siblings v.nodes n.h_children cs
        → length cs < fuel
        → ((length cs ≤ n.content.nentries)
            × (readdir os c io_fuel fuel accept v fh buf
                ≡ done (
                  pos 0,
                  add_names v.nodes cs (add (add buf (b'.' ∷ [])) (b'.' ∷ b'.' ∷ [])),
                  set_errno v 0,
                )))
          ⊎ ((n.content.nentries < length cs) × (readdir os c io_fuel fuel accept v fh buf ≡ fault))
    unfolding readdir list_children file_at node_at set_errno
    readdir_lem v fh n cs buf at dir known s enough =
        let start = add (add buf (b'.' ∷ [])) (b'.' ∷ b'.' ∷ []) in
        let children = flatten_h_children_lem fuel v.nodes fh n cs at s enough in
        let filled = fill_loop_lem (set_errno v 0) n.h_children cs start s in
        elim (Bool-cases (leb (length cs) n.content.nentries)) [
          | inl fits ↦ inl (ground arith, rw (at, dir, known, children, fits) filled)
          | inr over ↦ inr (ground arith, rw (at, dir, known, children, over) refl)
        ]
