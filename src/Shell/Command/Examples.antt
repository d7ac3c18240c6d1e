-- ===== src/Shell/Command/Examples.antt =====
-- The texts of `ls -l > out` and of `ls | wc &`.
use operating_system_fa_maf.Common.{◌≡◌, false, [], ◌∷◌, none, some, done, arith}
use operating_system_fa_maf.Shell.Command.{Scommand, Pipeline, pipeline_to_string}
use operating_system_fa_maf.Shell.Command.Text.{commands_text, pipeline_to_string_lem}
use operating_system_fa_maf.Shell.Sample.{words, queue, ls, wc}

abbrev listing : Scommand words
listing = record {
  command = ls ∷ (b'-' ∷ b'l' ∷ []) ∷ [];
  redirect_in = none;
  redirect_out = some (b'o' ∷ []);
}

abbrev count : Scommand words
count = record { command = wc ∷ []; redirect_in = none; redirect_out = none }

abbrev both : Pipeline words queue
both = record { commands = listing ∷ count ∷ []; wait = false }

pipeline_to_string_lem_example :
    pipeline_to_string words queue 3 2 both
    ≡ done (some (commands_text words (listing ∷ count ∷ []) false))
pipeline_to_string_lem_example =
    pipeline_to_string_lem words queue 3 2 both (omega arith, (omega arith, tt)) (omega arith)
