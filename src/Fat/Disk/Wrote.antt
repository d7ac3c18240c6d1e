-- ===== src/Fat/Disk/Wrote.antt =====
-- A round of the loop of `fat_file_pwrite`: the bytes of one cluster, and those behind it.
use operating_system_fa_maf.Common.{
  ℕ, ◌+◌, ◌≤◌, ◌≡◌, refl, sym, inl, inr, ◌∙◌, true, false, List, [], ◌∷◌, arith, Run, done, drop,
  get_or,
}
use operating_system_fa_maf.Fat.Os.{Os}
use operating_system_fa_maf.Fat.Io.{Io}
use operating_system_fa_maf.Fat.Table.{FatTable, Mount, is_valid_cluster_number, cluster_offset}
use operating_system_fa_maf.Fat.Table.Chain.{Chain, stop, link, IsFat32, has}
use operating_system_fa_maf.Fat.File.{Progress}
use operating_system_fa_maf.Fat.Disk.{Disk, patch}
use operating_system_fa_maf.Fat.Disk.Patch.{get_or-drop}
use operating_system_fa_maf.Fat.Disk.Bytes.{
  cluster_bytes, AllValid, Filled, Filled-none, Filled-eq, Filled-new, Filled-link,
}

pub Chain-AllValid : (t : FatTable) {c : ℕ} {cs : List ℕ} → Chain t c cs → AllValid t cs
Chain-AllValid t (stop e) = tt
Chain-AllValid t (link valid next fresh rest) = (valid, Chain-AllValid t rest)

module _ (os : Os) (disk : Disk os) where
  -- The loop ends with `left` bytes to go, the table as it was, and `n` of the buffer's bytes in the
  -- clusters, from position `o` on.
  pub record Wrote (s : Mount os.World) (left : ℕ) (cs : List ℕ) (o n : ℕ) (buf : List ℕ)
      (r : Run (Progress os.World)) : Type 0 where
    pub end : Progress os.World
    pub ran : r ≡ done end
    pub to_go : end.remaining ≡ left
    pub kept : end.mount.table ≡ s.table
    pub calm : end.mount.errno ≡ 0
    pub filled :
        Filled s.table cs o n (λ j. get_or buf j 0) (disk.at s.world) (disk.at end.mount.world)

  pub Wrote-eq :
      (s : Mount os.World) (left left' : ℕ) (cs : List ℕ) (o n n' : ℕ) (buf : List ℕ)
      (r : Run (Progress os.World))
      → left ≡ left'
      → n ≡ n'
      → Wrote s left cs o n buf r
      → Wrote s left' cs o n' buf r
  Wrote-eq s left left' cs o n n' buf r e f w = record {
    end = w.end;
    ran = w.ran;
    to_go = w.to_go ∙ e;
    kept = w.kept;
    calm = w.calm;
    filled =
        Filled-eq s.table cs o n n' (λ j. get_or buf j 0) (disk.at s.world)
          (disk.at w.end.mount.world) f w.filled;
  }

  -- Nothing is written.
  pub Wrote-none :
      (s : Mount os.World) (left left' : ℕ) (cs : List ℕ) (o n : ℕ) (buf : List ℕ)
      → left ≡ left'
      → 0 ≡ n
      → s.errno ≡ 0
      → Wrote s left' cs o n buf (done (record { remaining = left; content = []; mount = s }))
  Wrote-none s left left' cs o n buf e f calm = record {
    end = _;
    ran = refl;
    to_go = e;
    kept = refl;
    calm = calm;
    filled =
        Filled-eq s.table cs o 0 n (λ j. get_or buf j 0) (disk.at s.world) (disk.at s.world) f
          (Filled-none s.table cs o (λ j. get_or buf j 0) (disk.at s.world));
  }

  -- A round that ends with its write.
  pub Wrote-last :
      (s : Mount os.World) (c : ℕ) (cs : List ℕ) (o count left : ℕ) (buf : List ℕ)
      (io : Io os.World)
      → IsFat32 s.table
      → is_valid_cluster_number s.table c ≡ true
      → AllValid s.table cs
      → has c cs ≡ false
      → o + count ≤ cluster_bytes s.table
      → io.errno ≡ 0
      → ((i : ℕ)
          → disk.at io.world i
            ≡ patch (disk.at s.world) (cluster_offset s.table c + o) count (λ j. get_or buf j 0) i)
      → Wrote s left (c ∷ cs) o count buf (
          done (record {
            remaining = left;
            content = [];
            mount = record s { world = io.world; errno = io.errno };
          }))
  Wrote-last s c cs o count left buf io fat valid all fresh inside quiet placed = record {
    end = _;
    ran = refl;
    to_go = refl;
    kept = refl;
    calm = quiet;
    filled =
        Filled-eq s.table (c ∷ cs) o (count + 0) count (λ j. get_or buf j 0) (disk.at s.world)
          (disk.at io.world) (omega arith)
          (Filled-link s.table (disk.at s.world) (disk.at io.world) (disk.at io.world) c cs o count
            left 0 (λ j. get_or buf j 0) fat valid all fresh inside (inr refl) placed
            (Filled-none s.table cs 0 (λ j. get_or buf (count + j) 0) (disk.at io.world)));
  }

  -- A round that goes on behind its write.
  pub Wrote-more :
      (s : Mount os.World) (c : ℕ) (cs : List ℕ) (o count left n m : ℕ) (buf : List ℕ)
      (io : Io os.World) (r : Run (Progress os.World))
      → IsFat32 s.table
      → is_valid_cluster_number s.table c ≡ true
      → AllValid s.table cs
      → has c cs ≡ false
      → o + count ≡ cluster_bytes s.table
      → m ≡ count + n
      → ((i : ℕ)
          → disk.at io.world i
            ≡ patch (disk.at s.world) (cluster_offset s.table c + o) count (λ j. get_or buf j 0) i)
      → Wrote (record s { world = io.world; errno = io.errno }) left cs 0 n (drop count buf) r
      → Wrote s left (c ∷ cs) o m buf r
  Wrote-more s c cs o count left n m buf io r fat valid all fresh whole size placed w = record {
    end = w.end;
    ran = w.ran;
    to_go = w.to_go;
    kept = w.kept;
    calm = w.calm;
    filled =
        Filled-eq s.table (c ∷ cs) o (count + n) m (λ j. get_or buf j 0) (disk.at s.world)
          (disk.at w.end.mount.world) (sym size)
          (Filled-link s.table (disk.at s.world) (disk.at io.world) (disk.at w.end.mount.world) c cs
            o count left n (λ j. get_or buf j 0) fat valid all fresh (omega (arith, whole))
            (inl whole) placed
            (Filled-new s.table cs 0 n (λ j. get_or (drop count buf) j 0)
              (λ j. get_or buf (count + j) 0) (disk.at io.world) (disk.at w.end.mount.world)
              (λ j. get_or-drop count j buf) w.filled));
  }
