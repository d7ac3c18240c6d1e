-- ===== src/Fat/File/Remove.antt =====
-- `fat_file_remove` gives back the clusters of a file and writes its entry as it was.
use operating_system_fa_maf.Common.{
  ℕ, ◌<◌, ◌≡◌, ◌≢◌, refl, ap, ◌∙◌, true, false, List, arith, ◌==◌, length, done, eq→==,
}
use operating_system_fa_maf.Fat.Os.{Os}
use operating_system_fa_maf.Fat.Io.Complete.{Writes}
use operating_system_fa_maf.Fat.Table.{Mount, cluster_free, eio}
use operating_system_fa_maf.Fat.Table.Chain.{has, Chain, IsFat32}
use operating_system_fa_maf.Fat.Table.Release.{free_chain-Released, free_chain-errno}
use operating_system_fa_maf.Fat.Dentry.{write_dir_entry}
use operating_system_fa_maf.Fat.Dentry.Write.{write_dir_entry-table}
use operating_system_fa_maf.Fat.File.{FatFile, remove}

-- On a mount of a FAT32 table with no error pending, with writes that make progress and more fuel
-- than clusters, removing a file with a chain returns: every cluster of its chain is free, every
-- other word of the table is as it was, and the entry that is written back to the parent is the
-- file's own, unchanged.
pub remove_frees :
    (os : Os) (fuel : ℕ) (file : FatFile) (parent : ℕ) (s : Mount os.World) (cs : List ℕ)
    → Writes os
    → IsFat32 s.table
    → Chain s.table file.start_cluster cs
    → s.errno ≡ 0
    → length cs < fuel
    → (s1 s' : Mount os.World) × (remove os fuel file parent s ≡ done s')
      × (s' ≡ write_dir_entry os s1 parent file.dentry file.pos_in_parent)
      × ((i : ℕ) → has i cs ≡ true → s'.table.fat_map i ≡ cluster_free)
      × ((i : ℕ) → has i cs ≡ false → s'.table.fat_map i ≡ s.table.fat_map i)
unfolding remove
remove_frees os fuel file parent s cs writes fat ch calm enough =
    let quiet : (s.errno == 0) ≡ true = eq→== _ _ calm in
    let (s1, freed, r) = free_chain-Released os fuel s fat ch enough in
    let e1 : s1.errno ≢ eio = λ e.
      absurd (omega (arith, free_chain-errno os fuel file.start_cluster s s1 writes freed, e)) in
    let same = write_dir_entry-table os s1 parent file.dentry file.pos_in_parent in
    rw (quiet, freed)
      (
        s1,
        write_dir_entry os s1 parent file.dentry file.pos_in_parent,
        refl,
        refl,
        (λ i h. ap (λ t. t.fat_map i) same ∙ r.all_freed e1 i h),
        λ i h. ap (λ t. t.fat_map i) same ∙ r.others i h,
      )
