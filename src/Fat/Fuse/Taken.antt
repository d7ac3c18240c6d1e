-- ===== src/Fat/Fuse/Taken.antt =====
-- The cluster that `fat_file_init` of lab4/esqueleto/fat_file.c takes for a new file.
use operating_system_fa_maf.Common.{
  ℕ, suc, zero, ◌^◌, ◌<◌, ◌≡◌, refl, subst, sym, ◌∙◌, Bool, true, List, [], ◌∷◌, arith, done,
  Ensures, Ensures-bind, false, if◌then◌else◌,
}
use operating_system_fa_maf.Fat.Os.{Os, Tm, Transfer, moved, failed}
use operating_system_fa_maf.Fat.Libc.{Libc}
use operating_system_fa_maf.Fat.Table.{
  FatTable, Mount, end_of_chain, is_valid_cluster_number, store_entry, commit_entry,
  set_next_cluster,
}
use operating_system_fa_maf.Fat.Table.Chain.{
  Chain, stop, link, IsFat32, is_valid-store, get_next_cluster-store_self,
}
use operating_system_fa_maf.Fat.Dentry.{Dentry, file_start_cluster}
use operating_system_fa_maf.Fat.Dentry.Cluster.{file_start_cluster-set}
use operating_system_fa_maf.Fat.Filename.Split.{filename_from_path}
use operating_system_fa_maf.Fat.Handle.{new_entry, fat_file_init_direntry}

-- A cluster of a FAT32 volume has 32 bits.
small_cluster : (t : FatTable) (c : ℕ) → IsFat32 t → is_valid_cluster_number t c ≡ true → c < 2 ^ 32
unfolding is_valid_cluster_number
small_cluster t c fat valid = ground arith

-- The entry that is filled in names the cluster that it is given.
pub fat_file_init_direntry-start :
    {W : Type 0} (c : Libc W) (now : Tm) (is_dir : Bool) (path : List ℕ) (t : FatTable) (start : ℕ)
    (d : Dentry)
    → IsFat32 t
    → is_valid_cluster_number t start ≡ true
    → fat_file_init_direntry c now is_dir path start ≡ done d
    → file_start_cluster d ≡ start
unfolding fat_file_init_direntry new_entry
fat_file_init_direntry-start c now is_dir path t start d fat valid named =
    subst (Ensures (λ d. file_start_cluster d ≡ start)) named (
      Ensures-bind (λ d. file_start_cluster d ≡ start) (filename_from_path (c.base_memory path))
        (λ names. done (new_entry now is_dir start names))
        (λ names. file_start_cluster-set _ start (small_cluster t start fat valid)))

commit_entry-stored :
    {W : Type 0} (s : Mount W) (cur next : ℕ) (r : Transfer × W)
    → (commit_entry s cur next r).errno ≡ 0
    → (commit_entry s cur next r).table ≡ store_entry s.table cur next
unfolding commit_entry
commit_entry-stored s cur next (moved zero, w) calm = absurd (omega (arith, calm))
commit_entry-stored s cur next (moved (suc n), w) calm = refl
commit_entry-stored s cur next (failed e, w) calm = absurd (omega (arith, calm))

either_way : (b : Bool) (n : ℕ) → (if b then n else n) ≡ n
either_way true n = refl
either_way false n = refl

-- Where the mark is stored without an error, the cluster is a chain of its own.
pub set_next_cluster-Chain :
    (os : Os) (s : Mount os.World) (start : ℕ)
    → is_valid_cluster_number s.table start ≡ true
    → (set_next_cluster os s start end_of_chain).errno ≡ 0
    → Chain (set_next_cluster os s start end_of_chain).table start (start ∷ [])
unfolding set_next_cluster
set_next_cluster-Chain os s start valid calm =
    subst (λ t. Chain t start (start ∷ [])) (sym (commit_entry-stored s start end_of_chain _ calm))
      (link {c = start} {n = end_of_chain} (is_valid-store s.table start end_of_chain start ∙ valid)
        (get_next_cluster-store_self s.table start end_of_chain
          ∙ either_way (is_valid_cluster_number s.table end_of_chain) end_of_chain)
        refl (stop refl))
