-- ===== src/Shell/Main/Lines.antt =====
-- That the shell runs every line of its input and ends.
use operating_system_fa_maf.Common.{
  ℕ, zero, suc, ◌+◌, ◌<◌, ◌≤◌, ◌≡◌, ◌≢◌, refl, Bool, true, false, List, ◌∷◌, Option, none, some,
  length, arith, done,
}
use operating_system_fa_maf.Shell.Glib.{Container}
use operating_system_fa_maf.Shell.Command.{Str, Scommand, Pipeline, pipeline_get_wait}
use operating_system_fa_maf.Shell.Builtin.{Sys}
use operating_system_fa_maf.Shell.Parsing.{parse_pipeline}
use operating_system_fa_maf.Shell.Parsing.Lexer.{Parser}
use operating_system_fa_maf.Shell.Execute.{Answers, Shell, on}
use operating_system_fa_maf.Shell.Execute.Wiring.{EndsExternal}
use operating_system_fa_maf.Shell.Execute.Waiting.{execute_pipeline_lem}
use operating_system_fa_maf.Shell.Main.{show_prompt, execute_line, main_loop}

-- What a line asks for: nothing, or a pipeline of so many commands, which is to be waited for and
-- ends in a command that is not internal.
pub data Asks (G : Container Str) (Q : Container (Scommand G))
    : Option (Pipeline G Q) → ℕ → Type 0 where
  nothing : Asks G Q none 0
  commands :
      (p : Pipeline G Q) (c : Scommand G) (cs : List (Scommand G))
      → Q.items p.commands ≡ c ∷ cs
      → EndsExternal G (c ∷ cs)
      → pipeline_get_wait G Q p ≡ true
      → Asks G Q (some p) (length (c ∷ cs))

-- An input of so many lines, with so many commands in all, up to its end.
pub data Lines (G : Container Str) (Q : Container (Scommand G)) (P : Parser) (fuel : ℕ)
    (unset : Bool) : P.State → (lines commands : ℕ) → Type 0 where
  last_line :
      (input next : P.State) (r : Option (Pipeline G Q)) (n : ℕ)
      → parse_pipeline G Q P fuel fuel unset input ≡ done (r, next)
      → Asks G Q r n
      → n < fuel
      → P.at_eof next ≡ true
      → Lines G Q P fuel unset input 1 n
  line :
      (input next : P.State) (r : Option (Pipeline G Q)) (n lines m : ℕ)
      → parse_pipeline G Q P fuel fuel unset input ≡ done (r, next)
      → Asks G Q r n
      → n < fuel
      → P.at_eof next ≡ false
      → Lines G Q P fuel unset next lines m
      → Lines G Q P fuel unset input (suc lines) (n + m)

module _ (G : Container Str) (Q : Container (Scommand G)) (P : Parser) where
  module _ (sys : Sys) (answers : Answers) (getcwd : sys.World → Bool) (pipes : ℕ → ℕ × ℕ) where
    execute_line_lem :
        (fuel : ℕ) (s : Shell sys.World) (r : Option (Pipeline G Q)) (n : ℕ)
        → ((k : ℕ) → answers.pipes k ≡ some (pipes k))
        → ((k : ℕ) → answers.forks k ≡ true)
        → ((k : ℕ) → answers.statuses k ≢ some 13)
        → Asks G Q r n
        → n < fuel
        → (s' : Shell sys.World) × (execute_line G Q P sys answers getcwd fuel s r ≡ done (on s'))
          × (s'.forks ≡ s.forks + n)
          × (s'.waits ≡ s.waits + n)
    unfolding execute_line
    execute_line_lem fuel s none _ open_all fork_all other nothing enough =
        (s, refl, omega arith, omega arith)
    execute_line_lem fuel s (some _) _ open_all fork_all other (commands p c cs e external wait)
          enough =
        execute_pipeline_lem G Q sys answers fuel pipes s p c cs open_all fork_all other e external
          wait enough

    -- Where every pipe and fork succeeds, no process ends with status 13 and the directory can always
    -- be had, the shell runs an input to its end, with a round for each line, if each line gives NULL
    -- or a pipeline that is to be waited for, whose last command is not internal to the shell, with
    -- fuel for its commands and one more: it starts one process for each command of each line, waits
    -- once for each, and leaves its loop.
    pub main_loop_lem :
        (fuel rounds : ℕ) (unset : Bool) (s : Shell sys.World) (input : P.State) (lines n : ℕ)
        → ((k : ℕ) → answers.pipes k ≡ some (pipes k))
        → ((k : ℕ) → answers.forks k ≡ true)
        → ((k : ℕ) → answers.statuses k ≢ some 13)
        → ((w : sys.World) → getcwd w ≡ true)
        → Lines G Q P fuel unset input lines n
        → lines ≤ rounds
        → (s' : Shell sys.World) × (main_loop G Q P sys answers getcwd fuel rounds unset s input
            ≡ done (on s'))
          × (s'.forks ≡ s.forks + n)
          × (s'.waits ≡ s.waits + n)
    unfolding main_loop show_prompt
    main_loop_lem fuel zero unset s _ _ _ open_all fork_all other cwd
          (last_line input next r n parsed asks small eof) enough =
        absurd (omega arith)
    main_loop_lem fuel zero unset s _ _ _ open_all fork_all other cwd
          (line input next r n lines m parsed asks small more rest) enough =
        absurd (omega arith)
    main_loop_lem fuel (suc rounds) unset s _ _ _ open_all fork_all other cwd
          (last_line input next r n parsed asks small eof) enough =
        let (s', run, forks, waits) =
          execute_line_lem fuel s r n open_all fork_all other asks small in
        (s', rw (cwd s.session.world, parsed, run, eof) refl, forks, waits)
    main_loop_lem fuel (suc rounds) unset s _ _ _ open_all fork_all other cwd
          (line input next r n lines m parsed asks small more rest) enough =
        let (s1, run, forks, waits) =
          execute_line_lem fuel s r n open_all fork_all other asks small in
        let (s', runs, forks', waits') =
          main_loop_lem fuel rounds unset s1 next lines m open_all fork_all other cwd rest
            (omega arith) in
        (
          s',
          rw (cwd s.session.world, parsed, run, more) runs,
          omega (arith, forks, forks'),
          omega (arith, waits, waits'),
        )
