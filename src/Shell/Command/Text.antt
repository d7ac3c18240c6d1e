-- ===== src/Shell/Command/Text.antt =====
-- The text of a command and of a pipeline.
use mathlib.Core.List.{append_assoc, append-nil}
use operating_system_fa_maf.Common.{
  ℕ, zero, suc, ◌≤◌, ◌<◌, ◌≡◌, refl, ap, ◌∙◌, Bool, true, false, List, [], ◌∷◌, ◌++◌, Option, none,
  some, ◌==◌, if◌then◌else◌, arith, length, done,
}
use operating_system_fa_maf.Shell.Glib.{Container}
use operating_system_fa_maf.Shell.Command.{
  Str, Scommand, Pipeline, concatstr, space, output_mark, input_mark, pipe_mark, redirect_text,
  arguments_loop, scommand_to_string, scommand_is_empty, scommand_get_redir_in,
  scommand_get_redir_out, concat_scommand, commands_loop, pipeline_to_string, pipeline_length,
}

-- Each argument with a blank behind it.
unfoldable pub arguments_text : List Str → Str
arguments_text [] = []
arguments_text (a ∷ as') = a ++ b' ' ∷ arguments_text as'

unfoldable pub redirection : Str → Option Str → Str
redirection mark none = []
redirection mark (some filename) = mark ++ filename

concatstr_lem : (t u : Str) → concatstr (some t) u ≡ some (t ++ u)
unfolding concatstr
concatstr_lem t u = refl

unfoldable pub background_mark : Bool → Str
background_mark true = []
background_mark false = b'&' ∷ []

background_lem :
    (t u : Str) (w : Bool)
    → (if w then some (t ++ u) else concatstr (some (t ++ u)) (b'&' ∷ []))
      ≡ some (t ++ u ++ background_mark w)
unfolding concatstr background_mark
background_lem t u true = rw append-nil
background_lem t u false = rw append_assoc

module _ (G : Container Str) where
  arguments_loop_lem :
      (fuel : ℕ) (l : G.Carrier) (as' : List Str) (t : Str)
      → G.items l ≡ as'
      → length as' < fuel
      → arguments_loop G fuel l (some t) ≡ done (some (t ++ arguments_text as'))
  unfolding arguments_loop arguments_text concatstr
  arguments_loop_lem zero l as' t e enough = absurd (omega arith)
  arguments_loop_lem (suc fuel) l [] t e enough =
      let n : G.count l ≡ 0 = G.count-items l ∙ ap length e in rw (n, append-nil)
  arguments_loop_lem (suc fuel) l (a ∷ as') t e enough =
      let n : G.count l ≡ suc (length as') = G.count-items l ∙ ap length e in
      let busy : (G.count l == 0) ≡ false = ground (arith, n) in
      let ih =
        arguments_loop_lem fuel (G.remove l a) as' ((t ++ a) ++ space) (G.items-remove l a as' e)
          (omega arith) in
      rw (busy, G.first-cons l a as' e, ih) (simp append_assoc)

  -- The text of a command: its arguments, then the redirections. A command with no argument has
  -- the empty text, whatever its redirections are.
  unfoldable pub text_of : List Str → Scommand G → Str
  text_of [] s = []
  text_of (a ∷ as') s =
      arguments_text (a ∷ as')
      ++ redirection output_mark s.redirect_out
      ++ redirection input_mark s.redirect_in

  unfoldable pub scommand_text : Scommand G → Str
  scommand_text s = text_of (G.items s.command) s

  redirect_text_lem :
      (t mark : Str) (r : Option Str)
      → redirect_text (some t) mark r ≡ some (t ++ redirection mark r)
  unfolding redirect_text redirection concatstr
  redirect_text_lem t mark none = rw append-nil
  redirect_text_lem t mark (some f) = rw append_assoc

  to_string_of :
      (fuel : ℕ) (s : Scommand G) (as' : List Str)
      → G.items s.command ≡ as'
      → length as' < fuel
      → scommand_to_string G fuel s ≡ done (some (text_of as' s))
  unfolding scommand_to_string scommand_is_empty text_of scommand_get_redir_in
      scommand_get_redir_out
  to_string_of fuel s [] e enough = rw (G.is_nil-nil s.command e)
  to_string_of fuel s (a ∷ as') e enough = rw (
    G.is_nil-cons s.command a as' e,
    arguments_loop_lem fuel s.command (a ∷ as') [] e enough,
    redirect_text_lem,
    redirect_text_lem,
    append_assoc,
  )

  -- With fuel for each argument the text of a command is its arguments, each with a blank behind
  -- it, then the redirections; the text of a command without arguments is empty.
  pub scommand_to_string_lem :
      (fuel : ℕ) (s : Scommand G)
      → length (G.items s.command) < fuel
      → scommand_to_string G fuel s ≡ done (some (scommand_text s))
  unfolding scommand_text
  scommand_to_string_lem fuel s enough = to_string_of fuel s (G.items s.command) refl enough

  -- Every command of the list has fuel for its arguments.
  abbrev pub AllFit : ℕ → List (Scommand G) → Type 0
  AllFit fuel [] = Unit {0}
  AllFit fuel (s ∷ ss) = (length (G.items s.command) < fuel) × AllFit fuel ss

  -- The texts of the commands behind the first, each behind a bar.
  unfoldable pub tail_text : List (Scommand G) → Str
  tail_text [] = []
  tail_text (s ∷ ss) = pipe_mark ++ scommand_text s ++ tail_text ss

  unfoldable pub commands_text : List (Scommand G) → Bool → Str
  commands_text [] wait = []
  commands_text (s ∷ ss) wait = scommand_text s ++ tail_text ss ++ background_mark wait

  module _ (Q : Container (Scommand G)) where
    concat_scommand_lem :
        (fuel : ℕ) (t : Str) (c : Q.Carrier) (s : Scommand G) (ss : List (Scommand G))
        → Q.items c ≡ s ∷ ss
        → length (G.items s.command) < fuel
        → concat_scommand G Q fuel (some t) c ≡ done (some (t ++ scommand_text s), Q.rest c)
    unfolding concat_scommand concatstr
    concat_scommand_lem fuel t c s ss e fits =
        rw (concat_scommand, Q.first-cons c s ss e, scommand_to_string_lem fuel s fits)

    commands_loop_lem :
        (arg_fuel fuel : ℕ) (t : Str) (c : Q.Carrier) (ss : List (Scommand G))
        → Q.items c ≡ ss
        → AllFit arg_fuel ss
        → length ss < fuel
        → commands_loop G Q arg_fuel fuel (some t, c) ≡ done (some (t ++ tail_text ss))
    unfolding commands_loop tail_text
    commands_loop_lem arg_fuel zero t c ss e fit enough = absurd (omega arith)
    commands_loop_lem arg_fuel (suc fuel) t c [] e fit enough = rw (Q.is_nil-nil c e, append-nil)
    commands_loop_lem arg_fuel (suc fuel) t c (s ∷ ss) e fit enough =
        rw
          (
            Q.is_nil-cons c s ss e,
            concatstr_lem t pipe_mark,
            concat_scommand_lem arg_fuel (t ++ pipe_mark) c s ss e fit.0,
            commands_loop_lem arg_fuel fuel ((t ++ pipe_mark) ++ scommand_text s) (Q.rest c) ss
                (Q.items-rest c s ss e) fit.1 (omega arith),
          )
          (simp append_assoc)

    to_string_of_commands :
        (arg_fuel fuel : ℕ) (p : Pipeline G Q) (ss : List (Scommand G))
        → Q.items p.commands ≡ ss
        → AllFit arg_fuel ss
        → length ss ≤ fuel
        → pipeline_to_string G Q arg_fuel fuel p ≡ done (some (commands_text ss p.wait))
    unfolding pipeline_to_string pipeline_length commands_text
    to_string_of_commands arg_fuel fuel p [] e fit enough =
        let n : Q.count p.commands ≡ 0 = Q.count-items p.commands ∙ ap length e in rw n
    to_string_of_commands arg_fuel fuel p (s ∷ ss) e fit enough =
        let n : Q.count p.commands ≡ suc (length ss) = Q.count-items p.commands ∙ ap length e in
        let busy : (Q.count p.commands == 0) ≡ false = ground (arith, n) in
        rw
          (
            busy,
            concat_scommand_lem arg_fuel [] p.commands s ss e fit.0,
            commands_loop_lem arg_fuel fuel (scommand_text s) (Q.rest p.commands) ss
                (Q.items-rest p.commands s ss e) fit.1 (omega arith),
          )
          (ap done (background_lem (scommand_text s) (tail_text ss) p.wait))

    -- With fuel for each command and for each of their arguments, the text of a pipeline is that
    -- of its commands with a bar between them, and an ampersand behind them if it is not to be
    -- waited for; a pipeline of no commands has the empty text.
    pub pipeline_to_string_lem :
        (arg_fuel fuel : ℕ) (p : Pipeline G Q)
        → AllFit arg_fuel (Q.items p.commands)
        → length (Q.items p.commands) ≤ fuel
        → pipeline_to_string G Q arg_fuel fuel p
          ≡ done (some (commands_text (Q.items p.commands) p.wait))
    pipeline_to_string_lem arg_fuel fuel p fit enough =
        to_string_of_commands arg_fuel fuel p (Q.items p.commands) refl fit enough
