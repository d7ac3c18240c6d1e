-- ===== src/Fat/Table/Release.antt =====
-- Writing entries of the table, and giving a chain back: `fat_table_set_next_cluster` and the loop
-- of lab4/esqueleto/fat_file.c that frees the clusters of a file.
use operating_system_fa_maf.Common.{
  ℕ, zero, suc, ◌+◌, ◌*◌, ◌%◌, ◌^◌, ◌<◌, ◌≡◌, refl, ◌≢◌, ◌⊎◌, inl, inr, sym, subst, ◌∙◌, true,
  false, List, [], ◌∷◌, some, arith, ◌==◌, if◌then◌else◌, Bool-cases, length,
}
use operating_system_fa_maf.Fat.Os.{Os, Transfer, moved, failed}
use operating_system_fa_maf.Fat.Io.Complete.{Writes}
use operating_system_fa_maf.Fat.Table.{
  get_next_cluster, FatTable, Mount, is_eoc, store_entry, commit_entry, set_next_cluster, le32,
  free_chain, cluster_free, eio,
}
use operating_system_fa_maf.Fat.Table.Chain.{
  has, Chain, stop, link, IsFat32, is_eoc-valid, Chain-store,
}

-- An entry is either written or left as it was, and then `errno` is EIO.
pub data Stored {W : Type 0} (s : Mount W) (c v : ℕ) (s' : Mount W) : Type 0 where
  written : s'.table ≡ store_entry s.table c v → s'.errno ≡ s.errno → Stored s c v s'
  refused : s'.table ≡ s.table → s'.errno ≡ eio → Stored s c v s'

commit_entry-Stored :
    {W : Type 0} (s : Mount W) (c v : ℕ) (r : Transfer × W) → Stored s c v (commit_entry s c v r)
unfolding commit_entry
commit_entry-Stored s c v (moved zero, w) = refused refl refl
commit_entry-Stored s c v (moved (suc n), w) = written refl refl
commit_entry-Stored s c v (failed e, w) = refused refl refl

pub set_next_cluster-Stored :
    (os : Os) (s : Mount os.World) (c v : ℕ) → Stored s c v (set_next_cluster os s c v)
unfolding set_next_cluster
set_next_cluster-Stored os s c v =
    commit_entry-Stored s c v (os.pwrite s.world (le32 v) ((c * 4) % 2 ^ 32 + s.table.fat_offset))

-- All but the map of a table.
pub record SameShape (t u : FatTable) : Type 0 where
  pub entries : u.fat_entries ≡ t.fat_entries
  pub offset : u.fat_offset ≡ t.fat_offset
  pub clusters : u.num_data_clusters ≡ t.num_data_clusters
  pub start : u.data_start_offset ≡ t.data_start_offset
  pub order : u.cluster_order ≡ t.cluster_order

-- What the loop does to the table and to `errno`: words off the chain stay; those on it are freed
-- or stay; if one stays, `errno` ends as EIO.
pub record Released {W : Type 0} (s : Mount W) (cs : List ℕ) (s' : Mount W) : Type 0 where
  pub shape : SameShape s.table s'.table
  pub others : (i : ℕ) → has i cs ≡ false → s'.table.fat_map i ≡ s.table.fat_map i
  pub on_chain :
      (i : ℕ)
      → has i cs ≡ true
      → (s'.table.fat_map i ≡ cluster_free) ⊎ (s'.table.fat_map i ≡ s.table.fat_map i)
  pub errno_cases : (s'.errno ≡ s.errno) ⊎ (s'.errno ≡ eio)
  pub all_freed : s'.errno ≢ eio → (i : ℕ) → has i cs ≡ true → s'.table.fat_map i ≡ cluster_free

Released-nil : {W : Type 0} (s : Mount W) → Released s [] s
Released-nil s = record {
  shape = record { entries = refl; offset = refl; clusters = refl; start = refl; order = refl };
  others = λ i h. refl;
  on_chain = λ i h. cc;
  errno_cases = inl refl;
  all_freed = λ n i h. cc;
}

module _ {W : Type 0} {s s1 s' : Mount W} {c : ℕ} {cs : List ℕ} (fresh : has c cs ≡ false) where
  Released-written :
      s1.table ≡ store_entry s.table c cluster_free
      → s1.errno ≡ s.errno
      → Released s1 cs s'
      → Released s (c ∷ cs) s'
  unfolding store_entry
  Released-written e1 e2 r = record {
    shape = record {
      entries = rw r.shape.entries (rw e1);
      offset = rw r.shape.offset (rw e1);
      clusters = rw r.shape.clusters (rw e1);
      start = rw r.shape.start (rw e1);
      order = rw r.shape.order (rw e1);
    };
    others = λ i h. ground (arith, r.others i, word i);
    on_chain = λ i h. ground (arith, r.others i, r.on_chain i, word i);
    errno_cases = ground (arith, r.errno_cases);
    all_freed = λ n i h. ground (arith, r.others i, r.all_freed n i, word i);
  }
    where
      word : (i : ℕ) → s1.table.fat_map i ≡ (if i == c then cluster_free else s.table.fat_map i)
      word i = rw e1

module _ {W : Type 0} {s s1 s' : Mount W} {c : ℕ} {cs : List ℕ} where
  Released-refused :
      s1.table ≡ s.table → s1.errno ≡ eio → Released s1 cs s' → Released s (c ∷ cs) s'
  Released-refused e1 e2 r = record {
    shape = rw (← e1) r.shape;
    others = λ i h. rw (← e1) (r.others i (ground arith));
    on_chain = λ i h. rw (← e1) (ground (arith, r.others i, r.on_chain i));
    errno_cases = ground (arith, r.errno_cases);
    all_freed = λ n. absurd (n (ground (arith, r.errno_cases)));
  }

-- The loop ends from the mount `s1` at the cluster `n`, and against `s` it has given back `ds`.
abbrev pub Ends : (os : Os) → ℕ → ℕ → (s1 s : Mount os.World) → List ℕ → Type 0
Ends os fuel n s1 s ds =
    (s' : Mount os.World) × (free_chain os fuel n s1 ≡ some s') × Released s ds s'

-- The two outcomes of the first write, each followed by the rest of the loop.
module _ (os : Os) (fuel : ℕ) {s s1 : Mount os.World} {c n : ℕ} {cs : List ℕ}
    (fresh : has c cs ≡ false) (rest : Chain s.table n cs) where
  free_chain_lem :
      Stored s c cluster_free s1
      → (Chain s1.table n cs → Ends os fuel n s1 s1 cs)
      → Ends os fuel n s1 s (c ∷ cs)
  free_chain_lem (written e1 e2) go =
      let r =
        go (subst (λ t. Chain t n cs) (sym e1) (Chain-store s.table c cluster_free rest fresh)) in
      (r.0, r.1, Released-written fresh e1 e2 r.2)
  free_chain_lem (refused e1 e2) go =
      let r = go (subst (λ t. Chain t n cs) (sym e1) rest) in (r.0, r.1, Released-refused e1 e2 r.2)

-- A write leaves the number of clusters.
set_next_cluster-clusters :
    {W : Type 0} {s s1 : Mount W} {c v : ℕ}
    → Stored s c v s1
    → s1.table.num_data_clusters ≡ s.table.num_data_clusters
unfolding store_entry
set_next_cluster-clusters (written e1 e2) = rw e1
set_next_cluster-clusters (refused e1 e2) = rw e1

-- With fuel for each cluster of a chain of a FAT32 table and one more, the loop that frees the
-- chain ends. It gives every cluster of the chain back and writes no other word; where a write
-- fails the cluster may stay in use, and then errno ends as EIO.
pub free_chain-Released :
    (os : Os) (fuel : ℕ) (s : Mount os.World) {c : ℕ} {cs : List ℕ}
    → IsFat32 s.table
    → Chain s.table c cs
    → length cs < fuel
    → (s' : Mount os.World) × (free_chain os fuel c s ≡ some s') × Released s cs s'
unfolding free_chain is_eoc
free_chain-Released os zero s fat ch enough = absurd (omega arith)
free_chain-Released os (suc fuel) s fat (stop e) enough = (s, rw e, Released-nil s)
free_chain-Released os (suc fuel) s {c} fat (link {n} {cs} valid next fresh rest) enough =
    let stored = set_next_cluster-Stored os s c cluster_free in
    rw (is_eoc-valid s.table c fat valid, next)
      (free_chain_lem os fuel fresh rest stored (λ ch.
        free_chain-Released os fuel (set_next_cluster os s c cluster_free)
          (omega (arith, set_next_cluster-clusters stored)) ch (omega arith)))

-- With writes that make progress every entry is written.
pub set_next_cluster-written :
    (os : Os) (s : Mount os.World) (c v : ℕ)
    → Writes os
    → ((set_next_cluster os s c v).table ≡ store_entry s.table c v)
      × ((set_next_cluster os s c v).errno ≡ s.errno)
unfolding set_next_cluster le32
set_next_cluster-written os s c v writes =
    let (m, w', wrote, _) =
      writes s.world (le32 v) ((c * 4) % 2 ^ 32 + s.table.fat_offset) (omega arith) in
    rw wrote (refl, refl)

pub free_chain-errno :
    (os : Os) (fuel c : ℕ) (s s' : Mount os.World)
    → Writes os
    → free_chain os fuel c s ≡ some s'
    → s'.errno ≡ s.errno
unfolding free_chain
free_chain-errno os zero c s s' writes h = cc
free_chain-errno os (suc fuel) c s s' writes h = elim (Bool-cases (is_eoc c)) [
  | inl stop_here ↦ ground arith
  | inr go_on ↦
      free_chain-errno os fuel (get_next_cluster s.table c) (set_next_cluster os s c cluster_free)
        s' writes (ground arith)
      ∙ (set_next_cluster-written os s c cluster_free writes).1
]
