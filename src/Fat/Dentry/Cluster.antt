-- ===== src/Fat/Dentry/Cluster.antt =====
-- The start cluster of a directory entry survives its split into two 16-bit fields.
use operating_system_fa_maf.Common.{ℕ, ◌/◌, ◌%◌, ◌^◌, ◌<◌, ◌≡◌, arith}
use operating_system_fa_maf.Common.Bits.{bit_or-shift}
use operating_system_fa_maf.Fat.Dentry.{Dentry, set_first_cluster, file_start_cluster}

-- A 32-bit cluster number that is stored in a directory entry is read back as it was.
pub file_start_cluster-set :
    (d : Dentry) (cluster : ℕ)
    → cluster < 2 ^ 32
    → file_start_cluster (set_first_cluster d cluster) ≡ cluster
unfolding file_start_cluster set_first_cluster
file_start_cluster-set d cluster h =
    rw (bit_or-shift 16 (cluster % 2 ^ 16) ((cluster / 2 ^ 16) % 2 ^ 16) (omega arith))
      (omega arith)
