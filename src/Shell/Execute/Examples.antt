-- ===== src/Shell/Execute/Examples.antt =====
-- The pipeline `ls | wc`.
use operating_system_fa_maf.Common.{ℕ, ◌≡◌, refl, true, false, [], ◌∷◌, none, some, arith, done}
use operating_system_fa_maf.Shell.Command.{
  Scommand, Pipeline, scommand_front, scommand_is_empty, pipeline_get_wait,
}
use operating_system_fa_maf.Shell.Builtin.{
  Sys, builtin_is_internal, is_internal_name, command_is_cd, command_is_exit, command_is_help,
  same_text,
}
use operating_system_fa_maf.Shell.Execute.{Answers, Shell, on, execute_pipeline}
use operating_system_fa_maf.Shell.Execute.Waiting.{execute_pipeline_lem}
use operating_system_fa_maf.Shell.Sample.{words, queue, ls, wc}

abbrev calm_sys : Sys
calm_sys = record { World = ℕ; getenv_home = λ w. none; chdir = λ w path. (none, w) }

abbrev calm_answers : Answers
calm_answers = record { pipes = λ k. some (3, 4); forks = λ k. true; statuses = λ k. some 0 }

abbrev list_files : Scommand words
list_files = record { command = ls ∷ []; redirect_in = none; redirect_out = none }

abbrev count_words : Scommand words
count_words = record { command = wc ∷ []; redirect_in = none; redirect_out = none }

abbrev both : Pipeline words queue
both = record { commands = list_files ∷ count_words ∷ []; wait = true }

abbrev start : Shell ℕ
start = record {
  session = record { world = 0; output = [] };
  calls = [];
  pipes = 0;
  forks = 0;
  waits = 0;
}

wc_external : builtin_is_internal words count_words ≡ done false
unfolding builtin_is_internal scommand_front scommand_is_empty is_internal_name command_is_cd
    command_is_exit command_is_help same_text
wc_external = refl

execute_pipeline_lem_example :
    (s' : Shell ℕ) × (execute_pipeline words queue calm_sys calm_answers 5 start both
      ≡ done (on s'))
    × (s'.forks ≡ 2)
    × (s'.waits ≡ 2)
unfolding pipeline_get_wait
execute_pipeline_lem_example =
    execute_pipeline_lem words queue calm_sys calm_answers 5 (λ k. (3, 4)) start both list_files
      (count_words ∷ []) (λ k. refl) (λ k. refl) (λ k e. absurd (cc e)) refl wc_external refl
      (omega arith)
