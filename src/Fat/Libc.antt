-- ===== src/Fat/Libc.antt =====
-- What the files and the handlers of lab4/esqueleto ask of the C library: names out of paths, the
-- clock as a text, and the name of the user. It is not code of the repository, so it is a parameter.
use operating_system_fa_maf.Common.{ℕ, Option, List}
use operating_system_fa_maf.Fat.Os.{Tm}

-- `base_memory path` is the memory from `basename(strdup(path))` on, `now_text` the text that
-- `strftime` makes of the local time in `now_to_str`. `getlogin` may return NULL.
pub record Libc (W : Type 0) : Type 0 where
  pub dirname : List ℕ → List ℕ
  pub base_memory : List ℕ → List ℕ
  pub now_text : W → List ℕ
  pub getlogin : W → Option (List ℕ)
  pub mktime : Tm → ℕ
