-- ===== src/Shell/Execute/Wiring.antt =====
-- Which calls the shell makes for a pipeline of commands that are not its own.
use operating_system_fa_maf.Common.{
  ℕ, zero, suc, ◌+◌, ◌<◌, ◌≡◌, refl, sym, ap, ◌∙◌, true, false, List, [], ◌∷◌, ◌++◌, Option, none,
  some, ◌==◌, length, arith, done,
}
use operating_system_fa_maf.Shell.Glib.{Container}
use operating_system_fa_maf.Shell.Command.{
  Str, Scommand, Pipeline, pipeline_is_empty, pipeline_length, pipeline_front, pipeline_pop_front,
}
use operating_system_fa_maf.Shell.Builtin.{Sys, builtin_is_internal, builtin_alone}
use operating_system_fa_maf.Shell.Execute.{
  Answers, Call, piped, closed, forked, Shell, on, log, child_calls, execute_single,
  execute_pipeline_recursive,
}

-- Calls in their order, put before those that there were, the last first.
abbrev pub pushed : List Call → List Call → List Call
pushed [] acc = acc
pushed (x ∷ xs) acc = pushed xs (x ∷ acc)

pushed-append : (xs ys acc : List Call) → pushed (xs ++ ys) acc ≡ pushed ys (pushed xs acc)
pushed-append [] ys acc = refl
pushed-append (x ∷ xs) ys acc = pushed-append xs ys (x ∷ acc)

module _ (G : Container Str) where
  -- The last command is not internal to the shell.
  abbrev pub EndsExternal : List (Scommand G) → Type 0
  EndsExternal [] = Unit {0}
  EndsExternal (c ∷ []) = builtin_is_internal G c ≡ done false
  EndsExternal (c ∷ d ∷ cs) = EndsExternal (d ∷ cs)

  -- The k-th pipe leads from each command to the next; the shell closes both of its ends.
  abbrev pub wiring :
      (pipes : ℕ → ℕ × ℕ) → List (Scommand G) → (fd_in : Option ℕ) → (k : ℕ) → List Call
  wiring pipes [] fd_in k = []
  wiring pipes (c ∷ []) fd_in k = forked (child_calls G c fd_in none none) ∷ []
  wiring pipes (c ∷ d ∷ cs) fd_in k =
      piped (pipes k).0 (pipes k).1
      ∷ forked (child_calls G c fd_in (some (pipes k).1) (some (pipes k).0))
      ∷ closed (pipes k).1
      ∷ (wiring pipes (d ∷ cs) (some (pipes k).0) (k + 1) ++ closed (pipes k).0 ∷ [])

  module _ (Q : Container (Scommand G)) (sys : Sys) (answers : Answers) where
    execute_single_lem :
        (s : Shell sys.World) (p : Pipeline G Q) (c : Scommand G) (cs : List (Scommand G))
        (fd_in fd_out fd_pipe_in : Option ℕ)
        → Q.items p.commands ≡ c ∷ cs
        → EndsExternal (c ∷ cs)
        → answers.forks s.forks ≡ true
        → execute_single G Q sys answers s p fd_in fd_out fd_pipe_in
          ≡ done (
              on (
                log
                  (record s { forks = s.forks + 1 })
                  (forked (child_calls G c fd_in fd_out fd_pipe_in))))
    unfolding execute_single builtin_alone pipeline_length pipeline_front pipeline_is_empty
    execute_single_lem s p c [] fd_in fd_out fd_pipe_in e external forks =
        let n : Q.count p.commands ≡ 1 = Q.count-items p.commands ∙ ap length e in
        rw (n, Q.is_nil-cons p.commands c [] e, Q.first-cons p.commands c [] e, external, forks)
          refl
    execute_single_lem s p c (d ∷ cs) fd_in fd_out fd_pipe_in e external forks =
        let n : Q.count p.commands ≡ suc (suc (length cs)) =
          Q.count-items p.commands ∙ ap length e in
        let no : (Q.count p.commands == 1) ≡ false = ground (arith, n) in
        rw (no, Q.is_nil-cons p.commands c (d ∷ cs) e, Q.first-cons p.commands c (d ∷ cs) e, forks)
          refl

    pop_front_lem :
        (p : Pipeline G Q) (c : Scommand G) (cs : List (Scommand G))
        → Q.items p.commands ≡ c ∷ cs
        → pipeline_pop_front G Q p ≡ done (record p { commands = Q.rest p.commands })
    unfolding pipeline_pop_front pipeline_is_empty
    pop_front_lem p c cs e = rw (Q.is_nil-cons p.commands c cs e) refl

    pub execute_pipeline_recursive_lem :
        (fuel : ℕ) (pipes : ℕ → ℕ × ℕ) (s : Shell sys.World) (p : Pipeline G Q) (c : Scommand G)
        (cs : List (Scommand G)) (fd_in : Option ℕ)
        → ((k : ℕ) → answers.pipes k ≡ some (pipes k))
        → ((k : ℕ) → answers.forks k ≡ true)
        → Q.items p.commands ≡ c ∷ cs
        → EndsExternal (c ∷ cs)
        → length cs < fuel
        → (s' : Shell sys.World) × (execute_pipeline_recursive G Q sys answers fuel s p fd_in
            ≡ done (on s'))
          × (s'.calls ≡ pushed (wiring pipes (c ∷ cs) fd_in s.pipes) s.calls)
          × (s'.forks ≡ s.forks + length (c ∷ cs))
          × (s'.session ≡ s.session)
          × (s'.waits ≡ s.waits)
    unfolding execute_pipeline_recursive pipeline_length
    execute_pipeline_recursive_lem zero pipes s p c cs fd_in open_all fork_all e external enough =
        absurd (omega arith)
    execute_pipeline_recursive_lem (suc fuel) pipes s p c [] fd_in open_all fork_all e external
          enough =
        let n : Q.count p.commands ≡ 1 = Q.count-items p.commands ∙ ap length e in
        let single = execute_single_lem s p c [] fd_in none none e external (fork_all s.forks) in
        (
          log (record s { forks = s.forks + 1 }) (forked (child_calls G c fd_in none none)),
          rw (n, single, pop_front_lem p c [] e) refl,
          refl,
          omega arith,
          refl,
          refl,
        )
    execute_pipeline_recursive_lem (suc fuel) pipes s p c (d ∷ cs) fd_in open_all fork_all e
          external enough =
        let n : Q.count p.commands ≡ suc (suc (length cs)) =
          Q.count-items p.commands ∙ ap length e in
        let no : (Q.count p.commands == 1) ≡ false = ground (arith, n) in
        let r = (pipes s.pipes).0 in
        let w = (pipes s.pipes).1 in
        let s1 : Shell sys.World = log (record s { pipes = s.pipes + 1 }) (piped r w) in
        let single =
          execute_single_lem s1 p c (d ∷ cs) fd_in (some w) (some r) e external
            (fork_all s.forks) in
        let s2 : Shell sys.World =
          log
            (log (record s1 { forks = s.forks + 1 })
              (forked (child_calls G c fd_in (some w) (some r))))
            (closed w) in
        let (s3, run, calls, forks, session, waits) =
          execute_pipeline_recursive_lem fuel pipes s2 (record p { commands = Q.rest p.commands }) d
            cs (some r) open_all fork_all (Q.items-rest p.commands c (d ∷ cs) e) external
            (omega arith) in
        (
          log s3 (closed r),
          rw (no, open_all s.pipes, single, pop_front_lem p c (d ∷ cs) e, run) refl,
          ap (λ l. closed r ∷ l) calls
              ∙ sym (
                  pushed-append (wiring pipes (d ∷ cs) (some r) (s.pipes + 1)) (closed r ∷ [])
                    s2.calls),
          omega (arith, forks),
          session,
          waits,
        )
