-- ===== src/Shell/Parsing/Lexer.antt =====
-- The lexer that lab1/parsing.c calls, through lab1/parser.h. `remaining` is what the documentation
-- there speaks of: how much of the input has not been consumed.
use operating_system_fa_maf.Common.{ℕ, ◌≤◌, ◌<◌, ◌≡◌, Bool, true, Option, some}
use operating_system_fa_maf.Shell.Command.{Str}

pub data ArgKind : Type 0 where
  arg_normal arg_input arg_output : ArgKind

-- An argument and the two operators, where they are found, consume input; no call gives any back.
pub record Parser : Type 1 where
  pub State : Type 0
  pub next_argument : State → Option (ArgKind × Str) × State
  pub op_background : State → Bool × State
  pub op_pipe : State → Bool × State
  pub skip_blanks : State → State
  pub garbage : State → Bool × State
  pub at_eof : State → Bool
  pub remaining : State → ℕ
  pub next_consumes :
      (p : State) (a : ArgKind × Str)
      → (next_argument p).0 ≡ some a
      → remaining (next_argument p).1 < remaining p
  pub next_le : (p : State) → remaining (next_argument p).1 ≤ remaining p
  pub background_le : (p : State) → remaining (op_background p).1 ≤ remaining p
  pub pipe_consumes : (p : State) → (op_pipe p).0 ≡ true → remaining (op_pipe p).1 < remaining p
  pub pipe_le : (p : State) → remaining (op_pipe p).1 ≤ remaining p
