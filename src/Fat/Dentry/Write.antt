-- ===== src/Fat/Dentry/Write.antt =====
-- Writing a directory entry: the table is untouched, and the write stays in the parent's cluster.
use operating_system_fa_maf.Common.{ℕ, ◌+◌, ◌*◌, ◌≡◌, refl, arith}
use operating_system_fa_maf.Fat.Os.{Os, Transfer, moved, failed}
use operating_system_fa_maf.Fat.Table.{Mount, cluster_offset}
use operating_system_fa_maf.Fat.Dentry.{Dentry, dentry_written, dentry_bytes, write_dir_entry}

dentry_written-table :
    {W : Type 0} (s : Mount W) (r : Transfer × W) → (dentry_written s r).table ≡ s.table
unfolding dentry_written
dentry_written-table s (moved n, w) = ground arith
dentry_written-table s (failed e, w) = refl

pub write_dir_entry-table :
    (os : Os) (s : Mount os.World) (parent : ℕ) (d : Dentry) (nentry : ℕ)
    → (write_dir_entry os s parent d nentry).table ≡ s.table
unfolding write_dir_entry
write_dir_entry-table os s parent d nentry = ground (
  arith,
  dentry_written-table s
      (os.pwrite s.world (dentry_bytes d) (nentry * 32 + cluster_offset s.table parent)),
)
