-- ===== src/Shell/Builtin.antt =====
-- lab1/builtin.c: the commands that the shell runs itself. `getenv` and `chdir` are the system's;
-- what is printed is the list of messages, the last first, and `exit` ends the run.
pub mod Changes
use operating_system_fa_maf.Common.{
  ℕ, zero, suc, Bool, true, false, not, ◌&&◌, ◌||◌, List, [], ◌∷◌, Option, none, some, ltb, ◌==◌,
  if◌then◌else◌, Run, done, fault, out_of_fuel, ◌>>=◌,
}
use operating_system_fa_maf.Shell.Glib.{Container}
use operating_system_fa_maf.Shell.Command.{
  Str, Scommand, Pipeline, scommand_pop_front, scommand_length, scommand_front, pipeline_length,
  pipeline_front,
}

-- `chdir` yields no `errno` where it returns 0.
pub record Sys : Type 1 where
  pub World : Type 0
  pub getenv_home : World → Option Str
  pub chdir : World → Str → Option ℕ × World

pub data Message : Type 0 where
  error too_many_arguments no_such_file help_text : Message

pub record Session (W : Type 0) : Type 0 where
  pub world : W
  pub output : List Message

pub data Ending (W : Type 0) : Type 0 where
  returned : Session W → Ending W
  exited : (success : Bool) → Session W → Ending W

abbrev pub enoent : ℕ
enoent = 2

-- `strcmp` being 0.
unfoldable pub same_text : Str → Str → Bool
same_text [] [] = true
same_text [] (c ∷ cs) = false
same_text (c ∷ cs) [] = false
same_text (c ∷ cs) (d ∷ ds) = (c == d) && same_text cs ds

abbrev pub cd_name : Str
cd_name = b'c' ∷ b'd' ∷ []

abbrev pub exit_name : Str
exit_name = b'e' ∷ b'x' ∷ b'i' ∷ b't' ∷ []

abbrev pub help_name : Str
help_name = b'h' ∷ b'e' ∷ b'l' ∷ b'p' ∷ []

abbrev pub tilde : Str
tilde = b'~' ∷ []

unfoldable pub command_is_cd : Str → Bool
unfolding same_text
command_is_cd cmd = same_text cmd cd_name

unfoldable pub command_is_exit : Str → Bool
unfolding same_text
command_is_exit cmd = same_text cmd exit_name

unfoldable pub command_is_help : Str → Bool
unfolding same_text
command_is_help cmd = same_text cmd help_name

unfoldable pub is_internal_name : Str → Bool
is_internal_name command =
    command_is_cd command || command_is_exit command || command_is_help command

-- A `chdir`, with the messages for its errors: `all` is the one for every error.
unfoldable pub after_chdir :
    {W : Type 0} → (message : ℕ → List Message) → Session W → Option ℕ × W → Session W
after_chdir message s (none, w) = record s { world = w }
after_chdir message s (some e, w) = record { world = w; output = message e }

module _ (G : Container Str) where
  unfoldable pub builtin_is_internal : Scommand G → Run Bool
  builtin_is_internal cmd = scommand_front G cmd >>= λ command. done (is_internal_name command)

  unfoldable pub builtin_alone : (Q : Container (Scommand G)) → Pipeline G Q → Run Bool
  builtin_alone Q p =
      let first = pipeline_front G Q p >>= builtin_is_internal in
      if pipeline_length G Q p == 1 then first else done false

  module _ (sys : Sys) where
    unfoldable pub go_home : Session sys.World → Str → Ending sys.World
    go_home s home = returned (after_chdir (λ e. error ∷ s.output) s (sys.chdir s.world home))

    unfoldable pub go_to : Session sys.World → Str → Ending sys.World
    go_to s new_path = returned (
        after_chdir (λ e. if e == enoent then no_such_file ∷ s.output else s.output) s
          (sys.chdir s.world new_path))

    -- With `cd` itself taken from the command.
    unfoldable pub change_to : Session sys.World → Str → Scommand G → Run (Ending sys.World)
    change_to s home cmd =
        let one = scommand_front G cmd >>= λ path.
        done (if same_text path tilde then go_home s home else go_to s path) in
        if scommand_length G cmd == 0
        then done (go_home s home)
        else if scommand_length G cmd == 1
        then one
        else done (returned (record s { output = too_many_arguments ∷ s.output }))

    unfoldable pub builtin_run_cd : Session sys.World → Scommand G → Run (Ending sys.World)
    builtin_run_cd s cmd = scommand_pop_front G cmd >>= λ rest. elim (sys.getenv_home s.world) [
      | none ↦ done (exited false s)
      | some home ↦ change_to s home rest
    ]

    unfoldable pub builtin_run_exit : Session sys.World → Ending sys.World
    builtin_run_exit s = exited true s

    -- The command of that name.
    unfoldable pub builtin_dispatch : Session sys.World → Scommand G → Str → Run (Ending sys.World)
    builtin_dispatch s cmd command =
        if command_is_cd command
        then builtin_run_cd s cmd
        else if command_is_exit command
        then done (builtin_run_exit s)
        else done (returned (record s { output = help_text ∷ s.output }))

    -- The assertion fails at a command that is not internal.
    unfoldable pub builtin_run : Session sys.World → Scommand G → Run (Ending sys.World)
    builtin_run s cmd = builtin_is_internal cmd >>= λ internal.
        if internal then scommand_front G cmd >>= builtin_dispatch s cmd else fault
