-- ===== src/Shell/Main/Examples.antt =====
-- The input `ls | wc`.
use operating_system_fa_maf.Common.{
  ℕ, ◌≡◌, refl, true, [], ◌∷◌, some, none, false, done, arith, List,
}
use operating_system_fa_maf.Shell.Command.{
  Pipeline, scommand_new, scommand_push_back, scommand_is_empty, scommand_front, pipeline_new,
  pipeline_push_back, pipeline_set_wait, pipeline_get_wait,
}
use operating_system_fa_maf.Shell.Builtin.{
  Sys, builtin_is_internal, is_internal_name, command_is_cd, command_is_exit, command_is_help,
  same_text,
}
use operating_system_fa_maf.Shell.Parsing.{
  place, scommand_loop, parse_scommand, pipeline_loop, parse_finish, parse_rest, parse_pipeline,
}
use operating_system_fa_maf.Shell.Parsing.Lexer.{arg_normal}
use operating_system_fa_maf.Shell.Execute.{Answers, Shell, on}
use operating_system_fa_maf.Shell.Main.{main_loop}
use operating_system_fa_maf.Shell.Main.Lines.{commands, last_line, main_loop_lem}
use operating_system_fa_maf.Shell.Sample.{words, queue, tokens, Token, arg, bar, ls, wc}

abbrev quiet_sys : Sys
quiet_sys = record { World = ℕ; getenv_home = λ w. none; chdir = λ w path. (none, w) }

abbrev good_answers : Answers
good_answers = record { pipes = λ k. some (3, 4); forks = λ k. true; statuses = λ k. some 0 }

abbrev begun : Shell ℕ
begun = record {
  session = record { world = 0; output = [] };
  calls = [];
  pipes = 0;
  forks = 0;
  waits = 0;
}

abbrev count_files : Pipeline words queue
count_files = record {
  commands =
      record { command = ls ∷ []; redirect_in = none; redirect_out = none }
      ∷ record { command = wc ∷ []; redirect_in = none; redirect_out = none }
      ∷ [];
  wait = true;
}

abbrev typed : List Token
typed = arg arg_normal ls ∷ bar ∷ arg arg_normal wc ∷ []

typed_pipeline : parse_pipeline words queue tokens 5 5 false typed ≡ done (some count_files, [])
unfolding parse_pipeline parse_rest parse_finish pipeline_loop parse_scommand scommand_loop place
    scommand_new scommand_push_back scommand_is_empty pipeline_new pipeline_push_back
    pipeline_set_wait
typed_pipeline = refl

main_loop_lem_example :
    (s' : Shell ℕ) × (main_loop words queue tokens quiet_sys good_answers
        (λ w. true)
        5
        1
        false
        begun
        typed
      ≡ done (on s'))
    × (s'.forks ≡ 2)
    × (s'.waits ≡ 2)
unfolding pipeline_get_wait builtin_is_internal scommand_front scommand_is_empty is_internal_name
    command_is_cd command_is_exit command_is_help same_text
main_loop_lem_example =
    main_loop_lem words queue tokens quiet_sys good_answers (λ w. true) (λ k. (3, 4)) 5 1 false
      begun typed 1 2 (λ k. refl) (λ k. refl) (λ k e. absurd (cc e)) (λ w. refl)
      (last_line typed [] (some count_files) 2 typed_pipeline
        (commands count_files
          (record { command = ls ∷ []; redirect_in = none; redirect_out = none })
          (record { command = wc ∷ []; redirect_in = none; redirect_out = none } ∷ []) refl refl
          refl)
        (omega arith) refl)
      (omega arith)
