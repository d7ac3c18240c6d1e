-- ===== src/Shell/Parsing/Examples.antt =====
-- The lines `ls | wc` and `ls |`.
use operating_system_fa_maf.Common.{◌≡◌, refl, false, List, [], ◌∷◌, none, some, done, arith}
use operating_system_fa_maf.Shell.Command.{
  Scommand, scommand_new, scommand_push_back, scommand_is_empty,
}
use operating_system_fa_maf.Shell.Parsing.{place, scommand_loop, parse_scommand, parse_pipeline}
use operating_system_fa_maf.Shell.Parsing.Lexer.{arg_normal}
use operating_system_fa_maf.Shell.Parsing.Total.{ParseEnds, parse_pipeline-ParseEnds}
use operating_system_fa_maf.Shell.Sample.{words, queue, tokens, Token, arg, bar, ls, wc}

abbrev line : List Token
line = arg arg_normal ls ∷ bar ∷ arg arg_normal wc ∷ []

parse_pipeline-ParseEnds_example :
    ParseEnds words queue tokens (parse_pipeline words queue tokens 4 4 false line)
parse_pipeline-ParseEnds_example =
    parse_pipeline-ParseEnds words queue tokens 4 4 false line refl (omega arith) (omega arith)

abbrev lone : Scommand words
lone = record { command = ls ∷ []; redirect_in = none; redirect_out = none }

first_command :
    parse_scommand words queue tokens 3 (arg arg_normal ls ∷ bar ∷ []) ≡ done (some lone, bar ∷ [])
unfolding parse_scommand scommand_loop place scommand_new scommand_push_back scommand_is_empty
first_command = refl

no_command : parse_scommand words queue tokens 3 [] ≡ done (none, [])
unfolding parse_scommand scommand_loop scommand_new scommand_is_empty
no_command = refl
