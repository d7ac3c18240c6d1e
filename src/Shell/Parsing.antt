-- ===== src/Shell/Parsing.antt =====
-- lab1/parsing.c: from a line to a pipeline. The lexer of lab1/parser.h is a binary object that the
-- repository does not hold, so it is a parameter; a failed `assert` is a fault.
pub mod Lexer
pub mod Total
mod Examples
use operating_system_fa_maf.Common.{
  ℕ, zero, suc, Bool, true, false, not, ◌&&◌, List, Option, none, some, if◌then◌else◌, Run, done,
  fault, out_of_fuel, ◌>>=◌,
}
use operating_system_fa_maf.Shell.Glib.{Container}
use operating_system_fa_maf.Shell.Command.{
  Str, Scommand, Pipeline, scommand_new, scommand_push_back, scommand_set_redir_in,
  scommand_set_redir_out, scommand_is_empty, pipeline_new, pipeline_push_back, pipeline_set_wait,
}
use operating_system_fa_maf.Shell.Parsing.Lexer.{Parser, ArgKind, arg_normal, arg_input, arg_output}

module _ (G : Container Str) (Q : Container (Scommand G)) (P : Parser) where
  -- One argument, put in its place.
  unfoldable pub place : Scommand G → ArgKind → Str → Scommand G
  place command arg_normal arg = scommand_push_back G command arg
  place command arg_input arg = scommand_set_redir_in G command (some arg)
  place command arg_output arg = scommand_set_redir_out G command (some arg)

  -- The `while` loop of `parse_scommand`, on fuel, with its call of `parser_next_argument`.
  unfoldable pub scommand_loop : ℕ → Scommand G → P.State → Run (Scommand G × P.State)
  scommand_loop zero command p = out_of_fuel
  scommand_loop (suc fuel) command p =
      let (argument, p1) = P.next_argument p in
      elim argument [
        | none ↦ done (command, p1)
        | some (type, arg) ↦ scommand_loop fuel (place command type arg) p1
      ]

  -- NULL, where there is no argument.
  unfoldable pub parse_scommand : ℕ → P.State → Run (Option (Scommand G) × P.State)
  parse_scommand fuel p = scommand_loop fuel (scommand_new G) p >>= λ r.
      done (if scommand_is_empty G r.0 then none else some r.0, r.1)

  -- What the loop of `parse_pipeline` leaves behind.
  pub record Parsed : Type 0 where
    pub result : Pipeline G Q
    pub error : Bool
    pub is_background : Bool
    pub state : P.State

  -- The `while` loop of `parse_pipeline`, while there is another command and no error.
  unfoldable pub pipeline_loop :
      (arg_fuel fuel : ℕ) → Pipeline G Q → Option (Scommand G) → P.State → Run Parsed
  pipeline_loop arg_fuel zero result cmd p = out_of_fuel
  pipeline_loop arg_fuel (suc fuel) result cmd p = pipeline_push_back G Q result cmd >>= λ result1.
      let (is_background, p1) = P.op_background p in
      let (another_pipe, p2) = P.op_pipe p1 in
      let error = another_pipe && is_background in
      parse_scommand arg_fuel p2 >>= λ r.
      if another_pipe && not error
      then pipeline_loop arg_fuel fuel result1 r.0 r.1
      else done
          (record { result = result1; error = error; is_background = is_background; state = r.1 })

  -- The lines behind the loop: NULL, if there was an error.
  unfoldable pub parse_finish : Parsed → Option (Pipeline G Q) × P.State
  parse_finish r =
      let p1 = P.skip_blanks r.state in
      let result = pipeline_set_wait G Q r.result (not r.is_background) in
      let p2 = (P.garbage p1).1 in (if r.error then none else some result, p2)

  -- What follows the first command. `is_background` is not set before the loop: `unset` is the value
  -- that it happens to have.
  unfoldable pub parse_rest :
      (arg_fuel fuel : ℕ)
      → (unset : Bool) → Option (Scommand G) × P.State
      → Run (Option (Pipeline G Q) × P.State)
  parse_rest arg_fuel fuel unset (none, p1) = done (
      parse_finish
        (record { result = pipeline_new G Q; error = true; is_background = unset; state = p1 }))
  parse_rest arg_fuel fuel unset (some cmd, p1) =
      pipeline_loop arg_fuel fuel (pipeline_new G Q) (some cmd) p1 >>= λ r. done (parse_finish r)

  unfoldable pub parse_pipeline :
      (arg_fuel fuel : ℕ) → (unset : Bool) → P.State → Run (Option (Pipeline G Q) × P.State)
  parse_pipeline arg_fuel fuel unset p =
      if P.at_eof p then fault else parse_scommand arg_fuel p >>= parse_rest arg_fuel fuel unset
