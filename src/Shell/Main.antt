-- ===== src/Shell/Main.antt =====
-- lab1/mybash.c: the loop of the shell. Of the prompt only the call of `getcwd` is modelled, which the
-- shell may exit at; what it shows is not.
pub mod Lines
mod Examples
use operating_system_fa_maf.Common.{
  ℕ, zero, suc, Bool, true, false, Option, none, some, if◌then◌else◌, Run, done, out_of_fuel, ◌>>=◌,
}
use operating_system_fa_maf.Shell.Glib.{Container}
use operating_system_fa_maf.Shell.Command.{Str, Scommand, Pipeline}
use operating_system_fa_maf.Shell.Builtin.{Sys}
use operating_system_fa_maf.Shell.Parsing.{parse_pipeline}
use operating_system_fa_maf.Shell.Parsing.Lexer.{Parser}
use operating_system_fa_maf.Shell.Execute.{Answers, Shell, Going, on, left, go_on, execute_pipeline}

-- Whether `getcwd` gives the directory: without it the shell exits.
unfoldable pub show_prompt : {W : Type 0} → (getcwd : W → Bool) → Shell W → Run (Going W)
show_prompt getcwd s = done (if getcwd s.session.world then on s else left false s)

module _ (G : Container Str) (Q : Container (Scommand G)) (P : Parser) where
  module _ (sys : Sys) (answers : Answers) (getcwd : sys.World → Bool) where
    -- What is done with the pipeline that has been read, or NULL.
    unfoldable pub execute_line :
        (fuel : ℕ) → Shell sys.World → Option (Pipeline G Q) → Run (Going sys.World)
    execute_line fuel s none = done (on s)
    execute_line fuel s (some pipe) = execute_pipeline G Q sys answers fuel s pipe

    -- The loop of `main`, on fuel for its rounds, and `fuel` for what it calls. `unset` is the value
    -- that parsing.c leaves a variable with.
    unfoldable pub main_loop :
        (fuel rounds : ℕ) → (unset : Bool) → Shell sys.World → P.State → Run (Going sys.World)
    unfolding show_prompt execute_line
    main_loop fuel zero unset s input = out_of_fuel
    main_loop fuel (suc rounds) unset s input =
        show_prompt getcwd s
        >>= go_on (λ s1. parse_pipeline G Q P fuel fuel unset input >>= λ r.
            execute_line fuel s1 r.0
            >>= go_on (λ s2. elim (P.at_eof r.1) [
              | true ↦ done (on s2)
              | false ↦ main_loop fuel rounds unset s2 r.1
            ]))
