-- ===== src/Fat/File/Grow.antt =====
-- Finding the next cluster while writing. `fat_get_next_or_add_cluster` tests the cluster that it
-- is given, and its caller only hands it clusters that are no end-of-chain mark.
use operating_system_fa_maf.Common.{
  ℕ, zero, suc, ◌+◌, ◌-◌, ◌≡◌, refl, subst, inl, inr, ◌∙◌, Bool, true, false, not, ◌&&◌, ◌||◌, List,
  arith, ltb, ◌==◌, Bool-cases, Run, done, fault, out_of_fuel, Ensures, Ensures-bind, ◌>>=◌, drop,
}
use operating_system_fa_maf.Fat.Os.{Os}
use operating_system_fa_maf.Fat.Io.{Io, full_pwrite}
use operating_system_fa_maf.Fat.Table.{
  FatTable, Mount, is_eoc, get_next_cluster, is_valid_cluster_number, seek_cluster,
  get_cluster_remaining_bytes, cluster_offset, mask_offset,
}
use operating_system_fa_maf.Fat.Dentry.{fill_dentry_time_now}
use operating_system_fa_maf.Fat.Dentry.Write.{write_dir_entry-table}
use operating_system_fa_maf.Fat.File.{
  FatFile, Progress, Outcome, Round, get_next_or_add_cluster, update_entry, write_on,
  after_full_pwrite, write_loop, write_finish, pwrite,
}

-- Given a cluster that is no end-of-chain mark, nothing is added.
pub get_next_or_add_cluster_lem :
    (os : Os) (cluster : ℕ) (s : Mount os.World)
    → is_eoc cluster ≡ false
    → get_next_or_add_cluster os cluster s ≡ done (get_next_cluster s.table cluster, s)
unfolding get_next_or_add_cluster
get_next_or_add_cluster_lem os cluster s h = rw h

abbrev Keeps : {W : Type 0} → FatTable → Progress W → Type 0
Keeps t p = p.mount.table ≡ t

write_on-Keeps :
    {W : Type 0} (t : FatTable) (k : Round W) (offset left : ℕ) (buf : List ℕ) (next : ℕ)
    (s : Mount W)
    → s.table ≡ t
    → ((next : ℕ) → Ensures (Keeps t) (k next offset left buf s))
    → Ensures (Keeps t) (write_on k offset left buf (next, s))
unfolding write_on
write_on-Keeps t k offset left buf next s e h =
    elim (Bool-cases (not (s.errno == 0) || not (is_valid_cluster_number s.table next))) [
      | inl stop ↦ rw stop e
      | inr go ↦ rw go (h next)
    ]

after_full_pwrite-Keeps :
    (os : Os) (t : FatTable) (k : Round os.World) (cluster offset remaining : ℕ) (buf : List ℕ)
    (s : Mount os.World) (count : ℕ)
    → s.table ≡ t
    → is_eoc cluster ≡ false
    → ((next offset left : ℕ) (buf : List ℕ) (s1 : Mount os.World)
        → s1.table ≡ t
        → Ensures (Keeps t) (k next offset left buf s1))
    → (io : Io os.World)
    → Ensures (Keeps t) (after_full_pwrite os k cluster offset remaining buf s count io)
unfolding after_full_pwrite
after_full_pwrite-Keeps os t k cluster offset remaining buf s count e more h io =
    let s1 : Mount os.World = record s { world = io.world; errno = io.errno } in
    elim (Bool-cases ((io.count == count) && ltb 0 (remaining - io.count))) [
      | inl go ↦
          rw (go, get_next_or_add_cluster_lem os cluster s1 more)
            (write_on-Keeps t k (offset + io.count) (remaining - io.count) (drop io.count buf)
              (get_next_cluster s.table cluster) s1 e
              (λ next. h next (offset + io.count) (remaining - io.count) (drop io.count buf) s1 e))
      | inr stop ↦ rw stop e
    ]

write_loop-Keeps :
    (os : Os) (io_fuel fuel : ℕ) (t : FatTable) (cluster offset remaining : ℕ) (buf : List ℕ)
    (s : Mount os.World)
    → s.table ≡ t
    → Ensures (Keeps t) (write_loop os io_fuel fuel cluster offset remaining buf s)
unfolding write_loop
write_loop-Keeps os io_fuel zero t cluster offset remaining buf s e = tt
write_loop-Keeps os io_fuel (suc fuel) t cluster offset remaining buf s e =
    elim (Bool-cases (ltb 0 remaining && not (is_eoc cluster))) [
      | inl go ↦ rw go (
          Ensures-bind (Keeps t)
            (full_pwrite os io_fuel s.world s.errno buf
              (get_cluster_remaining_bytes s.table remaining offset)
              (cluster_offset s.table cluster + mask_offset offset s.table))
            (after_full_pwrite os (write_loop os io_fuel fuel) cluster offset remaining buf s
              (get_cluster_remaining_bytes s.table remaining offset))
            (after_full_pwrite-Keeps os t (write_loop os io_fuel fuel) cluster offset remaining buf
              s (get_cluster_remaining_bytes s.table remaining offset) e (ground arith)
              (λ next o l b s1. write_loop-Keeps os io_fuel fuel t next o l b s1)))
      | inr stop ↦ rw stop e
    ]

pub update_entry-table :
    (os : Os) (m : Bool) (file : FatFile) (parent : ℕ) (s : Mount os.World)
    → (update_entry os m file parent s).mount.table ≡ s.table
unfolding update_entry
update_entry-table os m file parent s = write_dir_entry-table os s parent _ _

pub update_entry-size :
    (os : Os) (m : Bool) (file : FatFile) (parent : ℕ) (s : Mount os.World)
    → (update_entry os m file parent s).file.dentry.file_size ≡ file.dentry.file_size
unfolding update_entry fill_dentry_time_now
update_entry-size os true file parent s = refl
update_entry-size os false file parent s = refl

write_finish-table :
    (os : Os) (file : FatFile) (size offset parent : ℕ) (p : Progress os.World)
    → Ensures (λ o. o.after.mount.table ≡ p.mount.table) (write_finish os file size offset parent p)
unfolding write_finish
write_finish-table os file size offset parent p = update_entry-table os true _ parent p.mount

Ensures-trans :
    (os : Os) (t : FatTable) (file : FatFile) (size offset parent : ℕ) (m : Run (Progress os.World))
    → Ensures (Keeps t) m
    → Ensures (λ o. o.after.mount.table ≡ t) (m >>= write_finish os file size offset parent)
unfolding write_finish
Ensures-trans os t file size offset parent (done p) e =
    write_finish-table os file size offset parent p ∙ e
Ensures-trans os t file size offset parent fault e = tt
Ensures-trans os t file size offset parent out_of_fuel e = tt

pwrite-Keeps :
    (os : Os) (io_fuel fuel : ℕ) (file : FatFile) (buf : List ℕ) (size offset parent : ℕ)
    (s : Mount os.World)
    → Ensures
        (λ o. o.after.mount.table ≡ s.table)
        (pwrite os io_fuel fuel file buf size offset parent s)
unfolding pwrite
pwrite-Keeps os io_fuel fuel file buf size offset parent s =
    let (cluster, errno) = seek_cluster s.table s.errno file.start_cluster offset in
    elim (Bool-cases (ltb file.dentry.file_size offset)) [
      | inl past ↦ rw past refl
      | inr within ↦
          elim (Bool-cases ((seek_cluster s.table s.errno file.start_cluster offset).1 == 0)) [
            | inl ok ↦
                rw (within, ok)
                  (Ensures-trans os s.table file size offset parent _
                    (write_loop-Keeps os io_fuel fuel s.table cluster offset size buf _ refl))
            | inr bad ↦ rw (within, bad) refl
          ]
    ]

-- A write that returns has not changed the table: whatever it is asked for, no cluster is added to
-- the chain of the file.
pub pwrite-table :
    (os : Os) (io_fuel fuel : ℕ) (file : FatFile) (buf : List ℕ) (size offset parent : ℕ)
    (s : Mount os.World) {o : Outcome os.World}
    → pwrite os io_fuel fuel file buf size offset parent s ≡ done o
    → o.after.mount.table ≡ s.table
pwrite-table os io_fuel fuel file buf size offset parent s h =
    subst (Ensures (λ o. o.after.mount.table ≡ s.table)) h
      (pwrite-Keeps os io_fuel fuel file buf size offset parent s)
