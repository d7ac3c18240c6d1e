-- ===== src/Shell/Command.antt =====
-- lab1/command.c and lab1/strextra.c: simple commands, pipelines and their text. A `char *` is the
-- list of its bytes, NULL is `none`; a failed `assert` is a fault. Memory is always found.
pub mod Text
mod Examples
use operating_system_fa_maf.Common.{
  ℕ, zero, suc, Bool, true, false, not, ◌&&◌, List, [], ◌∷◌, ◌++◌, Option, none, some, ◌==◌,
  if◌then◌else◌, Run, done, fault, out_of_fuel, ◌>>=◌,
}
use operating_system_fa_maf.Shell.Glib.{Container}

abbrev pub Str : Type 0
Str = List ℕ

-- `concatstr` of lab1/strextra.c.
unfoldable pub concatstr : Option Str → Str → Option Str
concatstr none s = none
concatstr (some t) s = some (t ++ s)

-- `strmerge`: `calloc` leaves zeros behind the copy of the first text, where the second is added.
unfoldable pub strmerge : Str → Str → Str
strmerge s t = s ++ t

abbrev pub space : Str
space = b' ' ∷ []

abbrev pub output_mark : Str
output_mark = b'>' ∷ b' ' ∷ []

abbrev pub input_mark : Str
input_mark = b'<' ∷ b' ' ∷ []

abbrev pub pipe_mark : Str
pipe_mark = b' ' ∷ b'|' ∷ b' ' ∷ []

-- The text of a redirection, behind the text so far.
unfoldable pub redirect_text : Option Str → Str → Option Str → Option Str
redirect_text result mark none = result
redirect_text result mark (some filename) = concatstr (concatstr result mark) filename

pub record Scommand (G : Container Str) : Type 0 where
  pub command : G.Carrier
  pub redirect_in : Option Str
  pub redirect_out : Option Str

module _ (G : Container Str) where
  unfoldable pub scommand_new : Scommand G
  scommand_new = record { command = G.nil; redirect_in = none; redirect_out = none }

  unfoldable pub scommand_is_empty : Scommand G → Bool
  scommand_is_empty s = G.is_nil s.command

  unfoldable pub scommand_push_back : Scommand G → Str → Scommand G
  scommand_push_back s argument = record s { command = G.append s.command argument }

  unfoldable pub scommand_pop_front : Scommand G → Run (Scommand G)
  scommand_pop_front s =
      if scommand_is_empty s then fault else done (record s { command = G.rest s.command })

  unfoldable pub scommand_set_redir_in : Scommand G → Option Str → Scommand G
  scommand_set_redir_in s filename = record s { redirect_in = filename }

  unfoldable pub scommand_set_redir_out : Scommand G → Option Str → Scommand G
  scommand_set_redir_out s filename = record s { redirect_out = filename }

  unfoldable pub scommand_length : Scommand G → ℕ
  scommand_length s = G.count s.command

  unfoldable pub scommand_front : Scommand G → Run Str
  scommand_front s =
      if scommand_is_empty s
      then fault
      else elim (G.first s.command) [ none ↦ fault | some front ↦ done front ]

  unfoldable pub scommand_get_redir_in : Scommand G → Option Str
  scommand_get_redir_in s = s.redirect_in

  unfoldable pub scommand_get_redir_out : Scommand G → Option Str
  scommand_get_redir_out s = s.redirect_out

  -- The loop of `scommand_to_string`, with fuel for its rounds.
  unfoldable pub arguments_loop : ℕ → G.Carrier → Option Str → Run (Option Str)
  arguments_loop zero l result = out_of_fuel
  arguments_loop (suc fuel) l result =
      let round : Run (Option Str) = elim (G.first l) [
        | none ↦ fault
        | some a ↦ arguments_loop fuel (G.remove l a) (concatstr (concatstr result a) space)
      ] in
      if G.count l == 0 then done result else round

  unfoldable pub scommand_to_string : (fuel : ℕ) → Scommand G → Run (Option Str)
  scommand_to_string fuel s =
      let arguments = arguments_loop fuel s.command (some []) in
      if scommand_is_empty s
      then done (some [])
      else arguments >>= λ result. done (
          redirect_text (redirect_text result output_mark (scommand_get_redir_out s)) input_mark
            (scommand_get_redir_in s))

-- `commands` is a queue of commands.
pub record Pipeline (G : Container Str) (Q : Container (Scommand G)) : Type 0 where
  pub commands : Q.Carrier
  pub wait : Bool

module _ (G : Container Str) (Q : Container (Scommand G)) where
  unfoldable pub pipeline_new : Pipeline G Q
  pipeline_new = record { commands = Q.nil; wait = true }

  unfoldable pub pipeline_is_empty : Pipeline G Q → Bool
  pipeline_is_empty p = Q.is_nil p.commands

  -- The command may be NULL, which the assertion refuses.
  unfoldable pub pipeline_push_back : Pipeline G Q → Option (Scommand G) → Run (Pipeline G Q)
  pipeline_push_back p none = fault
  pipeline_push_back p (some sc) = done (record p { commands = Q.append p.commands sc })

  unfoldable pub pipeline_pop_front : Pipeline G Q → Run (Pipeline G Q)
  pipeline_pop_front p =
      if pipeline_is_empty p then fault else done (record p { commands = Q.rest p.commands })

  unfoldable pub pipeline_set_wait : Pipeline G Q → Bool → Pipeline G Q
  pipeline_set_wait p w = record p { wait = w }

  unfoldable pub pipeline_length : Pipeline G Q → ℕ
  pipeline_length p = Q.count p.commands

  unfoldable pub pipeline_front : Pipeline G Q → Run (Scommand G)
  pipeline_front p =
      if pipeline_is_empty p
      then fault
      else elim (Q.first p.commands) [ none ↦ fault | some sc ↦ done sc ]

  unfoldable pub pipeline_get_wait : Pipeline G Q → Bool
  pipeline_get_wait p = p.wait

  -- The text so far with that of the first command, and the queue without it; the text of a command
  -- is never NULL, and `concatstr` would refuse it.
  unfoldable pub concat_scommand :
      (fuel : ℕ) → Option Str → Q.Carrier → Run (Option Str × Q.Carrier)
  concat_scommand fuel str scm = elim (Q.first scm) [
    | none ↦ fault
    | some sc ↦
        scommand_to_string G fuel sc
        >>= elim [ none ↦ fault | some arg ↦ done (concatstr str arg, Q.rest scm) ]
  ]

  -- The loop of `pipeline_to_string`; `arg_fuel` is for the text of each command.
  unfoldable pub commands_loop : (arg_fuel fuel : ℕ) → Option Str × Q.Carrier → Run (Option Str)
  commands_loop arg_fuel zero (result, commands) = out_of_fuel
  commands_loop arg_fuel (suc fuel) (result, commands) =
      let round =
        concat_scommand arg_fuel (concatstr result pipe_mark) commands
        >>= commands_loop arg_fuel fuel in
      if Q.is_nil commands then done result else round

  unfoldable pub pipeline_to_string : (arg_fuel fuel : ℕ) → Pipeline G Q → Run (Option Str)
  pipeline_to_string arg_fuel fuel p =
      let text = concat_scommand arg_fuel (some []) p.commands >>= commands_loop arg_fuel fuel in
      if pipeline_length p == 0
      then done (some [])
      else text >>= λ result. done (if p.wait then result else concatstr result (b'&' ∷ []))
