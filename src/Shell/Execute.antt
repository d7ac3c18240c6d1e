-- ===== src/Shell/Execute.antt =====
-- lab1/execute.c: running pipelines. What the system answers is a parameter: the k-th call of `pipe`
-- or `fork`, and the status that the k-th call of `wait` leaves. The shell's state has the calls that
-- it made, the last first. A process that `fork` starts is known by the calls that it makes, which
-- end at the first that fails, for then it exits. A descriptor that is -1 is `none`.
pub mod Wiring
pub mod Waiting
mod Examples
use operating_system_fa_maf.Common.{
  ℕ, zero, suc, ◌+◌, Bool, true, false, List, [], ◌∷◌, ◌++◌, Option, none, some, ◌==◌,
  if◌then◌else◌, Run, done, fault, out_of_fuel, ◌>>=◌,
}
use operating_system_fa_maf.Shell.Glib.{Container}
use operating_system_fa_maf.Shell.Command.{
  Str, Scommand, Pipeline, scommand_pop_front, scommand_length, scommand_front,
  scommand_get_redir_in, scommand_get_redir_out, pipeline_is_empty, pipeline_length, pipeline_front,
  pipeline_pop_front, pipeline_get_wait,
}
use operating_system_fa_maf.Shell.Builtin.{
  Sys, Session, Ending, returned, exited, builtin_alone, builtin_run,
}

pub record Answers : Type 0 where
  pub pipes : ℕ → Option (ℕ × ℕ)
  pub forks : ℕ → Bool
  pub statuses : ℕ → Option ℕ

-- A call of a new process: `opened` is the descriptor that `open` has just returned.
pub data ChildCall : Type 0 where
  close : ℕ → ChildCall
  dup2 : (fd target : ℕ) → ChildCall
  open_in open_out : Str → ChildCall
  dup2_opened : (target : ℕ) → ChildCall
  close_opened : ChildCall
  execvp : List Str → ChildCall

-- A call of the shell itself.
pub data Call : Type 0 where
  piped : (read write : ℕ) → Call
  closed : ℕ → Call
  forked : Run (List ChildCall) → Call
  forked_shell : Call
  waited : Call

pub record Shell (W : Type 0) : Type 0 where
  pub session : Session W
  pub calls : List Call
  pub pipes : ℕ
  pub forks : ℕ
  pub waits : ℕ

-- Whether the shell goes on, or has left through `exit`.
pub data Going (W : Type 0) : Type 0 where
  on : Shell W → Going W
  left : (success : Bool) → Shell W → Going W

abbrev pub log : {W : Type 0} → Shell W → Call → Shell W
log s call = record s { calls = call ∷ s.calls }

-- What follows in the code, which the shell comes to if it goes on.
abbrev pub go_on : {W : Type 0} → (Shell W → Run (Going W)) → Going W → Run (Going W)
go_on k (on s) = k s
go_on k (left success s) = done (left success s)

abbrev pub stdin : ℕ
stdin = 0

abbrev pub stdout : ℕ
stdout = 1

unfoldable pub change_file_descriptor_in : Option ℕ → List ChildCall
change_file_descriptor_in none = []
change_file_descriptor_in (some fd) = dup2 fd stdin ∷ close fd ∷ []

unfoldable pub change_file_descriptor_out : Option ℕ → List ChildCall
change_file_descriptor_out none = []
change_file_descriptor_out (some fd) = dup2 fd stdout ∷ close fd ∷ []

unfoldable pub open_file_descriptor_in : Option Str → List ChildCall
open_file_descriptor_in none = []
open_file_descriptor_in (some path) = open_in path ∷ dup2_opened stdin ∷ close_opened ∷ []

unfoldable pub open_file_descriptor_out : Option Str → List ChildCall
open_file_descriptor_out none = []
open_file_descriptor_out (some path) = open_out path ∷ dup2_opened stdout ∷ close_opened ∷ []

unfoldable pub close_pipe : Option ℕ → List ChildCall
close_pipe none = []
close_pipe (some fd) = close fd ∷ []

module _ (G : Container Str) where
  -- The `for` loop of `scommand_to_array`, with `n` arguments left.
  unfoldable pub array_loop : (n : ℕ) → Scommand G → Run (List Str)
  array_loop zero command = done []
  array_loop (suc n) command = scommand_front G command >>= λ argument.
      scommand_pop_front G command >>= λ rest.
      array_loop n rest >>= λ array. done (argument ∷ array)

  unfoldable pub scommand_to_array : Scommand G → Run (List Str)
  unfolding array_loop
  scommand_to_array command = array_loop (scommand_length G command) command

  -- The branch of `execute_single` in the new process.
  unfoldable pub child_calls :
      Scommand G → (fd_in fd_out fd_pipe_in : Option ℕ) → Run (List ChildCall)
  child_calls cmd fd_in fd_out fd_pipe_in = scommand_to_array cmd >>= λ argv. done (
      close_pipe fd_pipe_in
      ++ change_file_descriptor_in fd_in
      ++ change_file_descriptor_out fd_out
      ++ open_file_descriptor_in (scommand_get_redir_in G cmd)
      ++ open_file_descriptor_out (scommand_get_redir_out G cmd)
      ++ execvp argv ∷ [])

  module _ (Q : Container (Scommand G)) (sys : Sys) (answers : Answers) where
    abbrev pub State : Type 0
    State = Shell sys.World

    abbrev pub after_builtin : State → Ending sys.World → Going sys.World
    after_builtin s (returned session) = on (record s { session = session })
    after_builtin s (exited success session) = left success (record s { session = session })

    unfoldable pub execute_single :
        State → Pipeline G Q → (fd_in fd_out fd_pipe_in : Option ℕ) → Run (Going sys.World)
    unfolding child_calls
    execute_single s apipe fd_in fd_out fd_pipe_in = pipeline_front G Q apipe >>= λ cmd.
        builtin_alone G Q apipe >>= λ alone.
        let internal = builtin_run G sys s.session cmd >>= λ e. done (after_builtin s e) in
        let s1 = record s { forks = s.forks + 1 } in
        let external =
          if answers.forks s.forks
          then on (log s1 (forked (child_calls cmd fd_in fd_out fd_pipe_in)))
          else left false s1 in
        if alone then internal else done external

    -- `fuel` bounds the commands.
    unfoldable pub execute_pipeline_recursive :
        (fuel : ℕ) → State → Pipeline G Q → (fd_in : Option ℕ) → Run (Going sys.World)
    unfolding execute_single
    execute_pipeline_recursive zero s apipe fd_in = out_of_fuel
    execute_pipeline_recursive (suc fuel) s apipe fd_in =
        let s1 = record s { pipes = s.pipes + 1 } in
        let last =
          execute_single s apipe fd_in none none
          >>= go_on (λ s2. pipeline_pop_front G Q apipe >>= λ rest. done (on s2)) in
        let more : Run (Going sys.World) = elim (answers.pipes s.pipes) [
          | none ↦ done (left false s1)
          | some p ↦
              execute_single (log s1 (piped p.0 p.1)) apipe fd_in (some p.1) (some p.0)
              >>= go_on (λ s2. pipeline_pop_front G Q apipe >>= λ rest.
                  execute_pipeline_recursive fuel (log s2 (closed p.1)) rest (some p.0)
                  >>= go_on (λ s3. done (on (log s3 (closed p.0)))))
        ] in
        if pipeline_length G Q apipe == 1 then last else more

    -- The loop that waits; `signal` is the status of a process that is not counted, or -1.
    unfoldable pub wait_loop :
        (fuel : ℕ) → State → (childrens : ℕ) → (signal : Option ℕ) → Run (Going sys.World)
    wait_loop fuel s zero signal = done (on s)
    wait_loop zero s (suc n) signal = out_of_fuel
    wait_loop (suc fuel) s (suc n) signal =
        let s1 = log (record s { waits = s.waits + 1 }) waited in
        let counted = wait_loop fuel s1 n signal in
        let again = wait_loop fuel s1 (suc n) signal in
        elim signal [
          | none ↦ counted
          | some k ↦ elim (answers.statuses s.waits) [
            | none ↦ counted
            | some status ↦ if status == k then again else counted
          ]
        ]

    unfoldable pub execute_and_wait :
        (fuel : ℕ) → State → Pipeline G Q → (fd signal : Option ℕ) → Run (Going sys.World)
    unfolding execute_pipeline_recursive wait_loop
    execute_and_wait fuel s apipe fd signal = builtin_alone G Q apipe >>= λ alone.
        execute_pipeline_recursive fuel s apipe fd
        >>= go_on (λ s1. wait_loop fuel s1 (if alone then 0 else pipeline_length G Q apipe) signal)

    -- What the new shell of a pipeline that is not waited for does; it ends with `exit(13)`.
    unfoldable pub background_shell : (fuel : ℕ) → State → Pipeline G Q → Run (Going sys.World)
    unfolding execute_and_wait
    background_shell fuel s apipe =
        let s1 = record s { pipes = s.pipes + 1 } in
        elim (answers.pipes s.pipes) [
          | none ↦ done (left false s1)
          | some p ↦
              execute_and_wait fuel (log s1 (piped p.0 p.1)) apipe (some p.0) none
              >>= go_on (λ s2. done (left false (log (log s2 (closed p.0)) (closed p.1))))
        ]

    unfoldable pub execute_pipeline : (fuel : ℕ) → State → Pipeline G Q → Run (Going sys.World)
    unfolding execute_and_wait
    execute_pipeline fuel s apipe =
        let s1 = record s { forks = s.forks + 1 } in
        let waiting = execute_and_wait fuel s apipe none (some 13) in
        let background =
          if answers.forks s.forks then on (log s1 forked_shell) else left false s1 in
        if pipeline_is_empty G Q apipe
        then done (on s)
        else if pipeline_get_wait G Q apipe
        then waiting
        else done background
