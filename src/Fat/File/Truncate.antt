-- ===== src/Fat/File/Truncate.antt =====
-- `fat_file_truncate` cuts the chain of a file behind the cluster of the new size.
use native.Mathlib.Nat.{mod-eq_of_lt, div-le_self}
use operating_system_fa_maf.Common.{
  ℕ, zero, suc, [], ◌/◌, ◌^◌, ◌≤◌, ◌<◌, ◌≡◌, ◌≢◌, refl, ap, sym, subst, ◌∙◌, inl, inr, max, true,
  false, ◌||◌, List, ◌∷◌, arith, ◌==◌, if◌then◌else◌, length, done, eq→==, leb, ltb, take, drop,
  get_or, length-drop,
}
use operating_system_fa_maf.Fat.Os.{Os}
use operating_system_fa_maf.Fat.Io.Complete.{Writes}
use operating_system_fa_maf.Fat.Table.{
  FatTable, Mount, cluster_free, eio, end_of_chain, get_next_cluster, store_entry, set_next_cluster,
  get_clusters_for_size,
}
use operating_system_fa_maf.Fat.Table.Chain.{has, Chain, stop, link, IsFat32, Chain-store}
use operating_system_fa_maf.Fat.Table.Seek.{
  position, seek_cluster_lem, Chain-IsDistinct, IsDistinct, take-drop_disjoint, Chain-take,
  drop-get_or, has-drop,
}
use operating_system_fa_maf.Fat.Table.Release.{
  Released, free_chain-Released, free_chain-errno, set_next_cluster-written,
}
use operating_system_fa_maf.Fat.File.{FatFile, After, update_entry, cut_at, truncate}
use operating_system_fa_maf.Fat.File.Grow.{update_entry-table, update_entry-size}

-- The state behind the cut at position `q`: the front of the chain, the freed rest, the others.
pub record Cut (t : FatTable) (start : ℕ) (cs : List ℕ) (q : ℕ) (u : FatTable) : Type 0 where
  pub front : Chain u start (take (suc q) cs)
  pub freed : (i : ℕ) → has i (drop (suc q) cs) ≡ true → u.fat_map i ≡ cluster_free
  pub others : (i : ℕ) → has i cs ≡ false → u.fat_map i ≡ t.fat_map i

-- A chain starts at its first cluster, which is linked to the rest of it.
Chain-head :
    (t : FatTable) (d x : ℕ) (ds es : List ℕ)
    → Chain t d ds
    → ds ≡ x ∷ es
    → (x ≡ d) × Chain t (get_next_cluster t d) es
Chain-head t d x ds es (stop _) e = cc
Chain-head t d x ds es (link {n} {cs} valid next fresh rest) e =
    let same : cs ≡ es = cc in (cc, rw (next, ← same) rest)

fat_store : (t : FatTable) (c v : ℕ) → IsFat32 t → IsFat32 (store_entry t c v)
unfolding store_entry
fat_store t c v h = h

IsDistinct-drop : (k : ℕ) (cs : List ℕ) → IsDistinct cs → IsDistinct (drop k cs)
IsDistinct-drop zero cs d = d
IsDistinct-drop (suc k) [] d = tt
IsDistinct-drop (suc k) (c ∷ cs) d = IsDistinct-drop k cs d.1

get_next_cluster-end :
    (t : FatTable) (c : ℕ) → t.fat_map c ≡ end_of_chain → get_next_cluster t c ≡ end_of_chain
unfolding get_next_cluster
get_next_cluster-end t c e = ground arith

-- What the mount is like behind the store that ends the chain and the loop that frees the rest.
Cut-Released :
    (W : Type 0) (s s1 s2 : Mount W) (start q last : ℕ) (cs : List ℕ)
    → IsFat32 s.table
    → Chain s.table start cs
    → q < length cs
    → get_or cs q 0 ≡ last
    → s1.table ≡ store_entry s.table last end_of_chain
    → Released s1 (drop (suc q) cs) s2
    → s2.errno ≢ eio
    → Cut s.table start cs q s2.table
unfolding store_entry
Cut-Released W s s1 s2 start q last cs fat ch inside at stored r calm = record {
  front =
      Chain-take s.table s2.table q (rw r.shape.clusters (rw stored)) ch inside
        (λ i h. r.others i (ground (arith, apart i h)) ∙ word i ∙ ground (arith, apart i h))
        (rw at
          (get_next_cluster-end s2.table last (r.others last fresh ∙ word last ∙ ground arith)));
  freed = r.all_freed calm;
  others = λ i h.
      r.others i (has-drop i (suc q) cs h) ∙ word i ∙ ground (arith, behind i (has-drop i q cs h));
}
  where
    split : drop q cs ≡ last ∷ drop (suc q) cs
    split = drop-get_or q cs inside ∙ ap (λ x. x ∷ drop (suc q) cs) at

    word : (i : ℕ) → s1.table.fat_map i ≡ (if i == last then end_of_chain else s.table.fat_map i)
    word i = rw stored

    fresh : has last (drop (suc q) cs) ≡ false
    fresh =
        let distinct = IsDistinct-drop q cs (Chain-IsDistinct s.table ch) in
        (rw split at distinct).0

    behind : (i : ℕ) → has i (drop q cs) ≡ false → ((i == last) || has i (drop (suc q) cs)) ≡ false
    behind i h = rw split at h

    apart : (i : ℕ) → has i (take q cs) ≡ true → ((i == last) || has i (drop (suc q) cs)) ≡ false
    apart i h = behind i (take-drop_disjoint i q cs (Chain-IsDistinct s.table ch) h)

cut_at_lem :
    (os : Os) (fuel : ℕ) (file : FatFile) (offset parent q last : ℕ) (s : Mount os.World)
    (cs : List ℕ)
    → Writes os
    → IsFat32 s.table
    → Chain s.table file.start_cluster cs
    → s.errno ≡ 0
    → q < length cs
    → Chain s.table last (drop q cs)
    → length cs < fuel
    → (r : After os.World) × (cut_at os fuel file offset parent last s ≡ done r)
      × Cut s.table file.start_cluster cs q r.mount.table
      × (r.file.dentry.file_size ≡ offset)
unfolding cut_at
cut_at_lem os fuel file offset parent q last s cs writes fat ch calm inside rest enough =
    let s1 = set_next_cluster os s last end_of_chain in
    let (stored, kept) = set_next_cluster-written os s last end_of_chain writes in
    let (at, behind) =
      Chain-head s.table last (get_or cs q 0) _ (drop (suc q) cs) rest (drop-get_or q cs inside) in
    let distinct = IsDistinct-drop q cs (Chain-IsDistinct s.table ch) in
    let fresh : has last (drop (suc q) cs) ≡ false =
      rw (← at) (rw (drop-get_or q cs inside) at distinct).0 in
    let behind1 : Chain s1.table (get_next_cluster s.table last) (drop (suc q) cs) =
      rw stored (Chain-store s.table last end_of_chain behind fresh) in
    let fat1 : IsFat32 s1.table = rw stored (fat_store s.table last end_of_chain fat) in
    let (s2, freed, released) =
      free_chain-Released os fuel s1 fat1 behind1 (omega (arith, length-drop (suc q) cs)) in
    let calm2 : s2.errno ≢ eio =
      λ e. absurd (omega (arith, free_chain-errno os fuel _ s1 s2 writes freed, e)) in
    let quiet : (s1.errno == 0) ≡ true = eq→== _ _ (kept ∙ calm) in
    let shorter : FatFile = record file { dentry = record (file.dentry) { file_size = offset } } in
    let same = update_entry-table os true shorter parent s2 in
    rw (quiet, freed)
      (
        update_entry os true shorter parent s2,
        refl,
        subst (Cut s.table file.start_cluster cs q) (sym same) (
            Cut-Released os.World s s1 s2 file.start_cluster q last cs fat ch inside at stored
              released calm2),
        update_entry-size os true shorter parent s2,
      )

-- On a mount of a FAT32 table with no error pending, with writes that make progress and more fuel
-- than clusters, shortening a file to a size below 2 ^ 32 that takes fewer clusters and whose
-- position lies in its chain returns: the chain keeps the clusters up to the position of the new
-- size, that one included, those behind it are free, the other words are as they were, and the
-- size is the new one.
pub truncate_cuts :
    (os : Os) (fuel : ℕ) (file : FatFile) (offset parent : ℕ) (s : Mount os.World) (cs : List ℕ)
    → Writes os
    → IsFat32 s.table
    → Chain s.table file.start_cluster cs
    → s.errno ≡ 0
    → offset ≤ file.dentry.file_size
    → offset < 2 ^ 32
    → max 1 (get_clusters_for_size s.table offset)
      < max 1 (get_clusters_for_size s.table file.dentry.file_size)
    → offset / 2 ^ s.table.cluster_order < length cs
    → length cs < fuel
    → (r : After os.World) × (truncate os fuel file offset parent s ≡ done r)
      × Cut s.table file.start_cluster cs (offset / 2 ^ s.table.cluster_order) r.mount.table
      × (r.file.dentry.file_size ≡ offset)
unfolding truncate
truncate_cuts os fuel file offset parent s cs writes fat ch calm shrinks fits fewer inside enough =
    let q = offset / 2 ^ s.table.cluster_order in
    let small : offset / 2 ^ s.table.cluster_order < 2 ^ 32 =
      omega (arith, div-le_self offset (2 ^ s.table.cluster_order)) in
    let at : position s.table offset ≡ offset / 2 ^ s.table.cluster_order = mod-eq_of_lt small in
    let goes : (ltb file.dentry.file_size offset
          || leb (max 1 (get_clusters_for_size s.table file.dentry.file_size))
              (max 1 (get_clusters_for_size s.table offset)))
        ≡ false =
      ground arith in
    let quiet : (s.errno == 0) ≡ true = eq→== _ _ calm in
    elim (seek_cluster_lem s.table s.errno file.start_cluster offset cs fat ch) [
      | inr (past, _) ↦ absurd (omega (arith, at))
      | inl (_, (d, sought, rest)) ↦
          rw (goes, sought, quiet)
            (cut_at_lem os fuel file offset parent q d s cs writes fat ch calm inside
              (rw (← at) rest) enough)
    ]
