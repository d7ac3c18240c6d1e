-- ===== src/Shell/Builtin/Changes.antt =====
-- What the internal commands do, on every branch.
use operating_system_fa_maf.Common.{
  suc, ◌≡◌, ap, ◌∙◌, false, ◌&&◌, List, [], ◌∷◌, some, ◌==◌, if◌then◌else◌, arith, length, done,
}
use operating_system_fa_maf.Shell.Glib.{Container}
use operating_system_fa_maf.Shell.Command.{
  Str, Scommand, Pipeline, scommand_pop_front, scommand_length, scommand_front, scommand_is_empty,
  pipeline_length, pipeline_front, pipeline_is_empty,
}
use operating_system_fa_maf.Shell.Builtin.{
  Sys, Session, Ending, returned, too_many_arguments, same_text, cd_name, tilde, is_internal_name,
  command_is_cd, builtin_is_internal, builtin_alone, go_home, go_to, change_to, builtin_run_cd,
  builtin_dispatch, builtin_run,
}

module _ (G : Container Str) where
  -- What a `cd` with these arguments does, `home` being the home directory.
  unfoldable pub cd_outcome :
      (sys : Sys) → Session sys.World → (home : Str) → List Str → Ending sys.World
  cd_outcome sys s home [] = go_home G sys s home
  cd_outcome sys s home (path ∷ []) =
      if same_text path tilde then go_home G sys s home else go_to G sys s path
  cd_outcome sys s home (a ∷ b ∷ more) =
      returned (record s { output = too_many_arguments ∷ s.output })

  change_to_lem :
      (sys : Sys) (s : Session sys.World) (home : Str) (cmd : Scommand G) (as' : List Str)
      → G.items cmd.command ≡ as'
      → change_to G sys s home cmd ≡ done (cd_outcome sys s home as')
  unfolding change_to cd_outcome scommand_length scommand_front scommand_is_empty
  change_to_lem sys s home cmd [] e =
      let n : G.count cmd.command ≡ 0 = G.count-items cmd.command ∙ ap length e in rw n
  change_to_lem sys s home cmd (path ∷ []) e =
      let n : G.count cmd.command ≡ 1 = G.count-items cmd.command ∙ ap length e in
      rw (n, G.is_nil-cons cmd.command path [] e, G.first-cons cmd.command path [] e)
  change_to_lem sys s home cmd (a ∷ b ∷ more) e =
      let n : G.count cmd.command ≡ suc (suc (length more)) =
        G.count-items cmd.command ∙ ap length e in
      let zero_no : (G.count cmd.command == 0) ≡ false = ground (arith, n) in
      let one_no : (G.count cmd.command == 1) ≡ false = ground (arith, n) in rw (zero_no, one_no)

  -- For cd and its arguments, where HOME is set: without an argument or with a tilde the shell
  -- goes home, with another one it goes there, and with more it goes nowhere and says so.
  builtin_run_cd_lem :
      (sys : Sys) (s : Session sys.World) (home : Str) (cmd : Scommand G) (as' : List Str)
      → sys.getenv_home s.world ≡ some home
      → G.items cmd.command ≡ cd_name ∷ as'
      → builtin_run G sys s cmd ≡ done (cd_outcome sys s home as')
  unfolding builtin_run builtin_is_internal builtin_dispatch builtin_run_cd scommand_front
      scommand_is_empty scommand_pop_front is_internal_name command_is_cd same_text
  builtin_run_cd_lem sys s home cmd as' set e =
      let busy = G.is_nil-cons cmd.command cd_name as' e in
      rw (busy, G.first-cons cmd.command cd_name as' e, set, scommand_pop_front, busy)
        (change_to_lem sys s home (record cmd { command = G.rest cmd.command }) as'
          (G.items-rest cmd.command cd_name as' e))

  module _ (Q : Container (Scommand G)) where
    -- A pipeline whose first command has a word is run in the shell itself exactly if it is that
    -- command alone and the word is the name of an internal command; no assertion fails.
    builtin_alone_lem :
        (p : Pipeline G Q) (c : Scommand G) (cs : List (Scommand G)) (name : Str) (as' : List Str)
        → Q.items p.commands ≡ c ∷ cs
        → G.items c.command ≡ name ∷ as'
        → builtin_alone G Q p ≡ done ((length cs == 0) && is_internal_name name)
    unfolding builtin_alone pipeline_length pipeline_front pipeline_is_empty builtin_is_internal
        scommand_front scommand_is_empty
    builtin_alone_lem p c [] name as' e f =
        let n : Q.count p.commands ≡ 1 = Q.count-items p.commands ∙ ap length e in
        rw (
          n,
          Q.is_nil-cons p.commands c [] e,
          Q.first-cons p.commands c [] e,
          G.is_nil-cons c.command name as' f,
          G.first-cons c.command name as' f,
        )
    builtin_alone_lem p c (d ∷ cs) name as' e f =
        let n : Q.count p.commands ≡ suc (suc (length cs)) =
          Q.count-items p.commands ∙ ap length e in
        let no : (Q.count p.commands == 1) ≡ false = ground (arith, n) in
        let no' : (suc (length cs) == 0) ≡ false = ground arith in rw (no, no')
