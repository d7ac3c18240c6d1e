-- ===== src/Fat/Os.antt =====
-- What the file system asks of the operating system: `pwrite` and `pread` on the descriptor of the
-- volume (lab4/esqueleto/fat_util.c and fat_table.c call them), and the clock that
-- lab4/esqueleto/fat_file.c reads through `time` and `gmtime_r`. None of it is code of the
-- repository, so it is a parameter of every definition that uses it.
use operating_system_fa_maf.Common.{ℕ, List}

-- What `pwrite` returns: the bytes that it moved, or -1 with the `errno` that it sets.
pub data Transfer : Type 0 where
  moved : ℕ → Transfer
  failed : ℕ → Transfer

-- What `pread` returns: the bytes that it placed in the buffer, or -1 with its `errno`.
pub data Reading : Type 0 where
  bytes : List ℕ → Reading
  read_failed : ℕ → Reading

-- `struct tm`, the members that fat_util.c uses.
pub record Tm : Type 0 where
  pub tm_sec : ℕ
  pub tm_min : ℕ
  pub tm_hour : ℕ
  pub tm_mday : ℕ
  pub tm_mon : ℕ
  pub tm_year : ℕ

-- `World` is all that the calls act on: the volume's contents and the time.
pub record Os : Type 1 where
  pub World : Type 0
  pub pwrite : World → List ℕ → ℕ → Transfer × World
  pub pread : World → ℕ → ℕ → Reading × World
  pub gmtime_now : World → Tm
