-- ===== src/Shell/Execute/Waiting.antt =====
-- That the shell comes to the end of waiting for a pipeline.
use operating_system_fa_maf.Common.{
  ℕ, zero, suc, ◌+◌, ◌<◌, ◌≤◌, ◌≡◌, ◌≢◌, refl, ap, ◌∙◌, inl, inr, true, false, List, [], ◌∷◌, none,
  some, ◌==◌, length, arith, Option-cases, ne→==, done,
}
use operating_system_fa_maf.Shell.Glib.{Container}
use operating_system_fa_maf.Shell.Command.{
  Str, Scommand, Pipeline, pipeline_is_empty, pipeline_length, pipeline_front, pipeline_get_wait,
}
use operating_system_fa_maf.Shell.Builtin.{Sys, builtin_alone}
use operating_system_fa_maf.Shell.Execute.{
  Answers, Shell, on, log, waited, wait_loop, execute_and_wait, execute_pipeline,
}
use operating_system_fa_maf.Shell.Execute.Wiring.{EndsExternal, execute_pipeline_recursive_lem}

module _ (G : Container Str) (Q : Container (Scommand G)) (sys : Sys) (answers : Answers) where
  builtin_alone_external :
      (p : Pipeline G Q) (c : Scommand G) (cs : List (Scommand G))
      → Q.items p.commands ≡ c ∷ cs
      → EndsExternal G (c ∷ cs)
      → builtin_alone G Q p ≡ done false
  unfolding builtin_alone pipeline_length pipeline_front pipeline_is_empty
  builtin_alone_external p c [] e external =
      let n : Q.count p.commands ≡ 1 = Q.count-items p.commands ∙ ap length e in
      rw (n, Q.is_nil-cons p.commands c [] e, Q.first-cons p.commands c [] e) external
  builtin_alone_external p c (d ∷ cs) e external =
      let n : Q.count p.commands ≡ suc (suc (length cs)) = Q.count-items p.commands ∙ ap length e in
      let no : (Q.count p.commands == 1) ≡ false = ground (arith, n) in rw no refl

  wait_loop_lem :
      (fuel : ℕ) (s : Shell sys.World) (n : ℕ)
      → ((k : ℕ) → answers.statuses k ≢ some 13)
      → n ≤ fuel
      → (s' : Shell sys.World) × (wait_loop G Q sys answers fuel s n (some 13) ≡ done (on s'))
        × (s'.waits ≡ s.waits + n)
        × (s'.forks ≡ s.forks)
  unfolding wait_loop
  wait_loop_lem fuel s zero other enough = (s, refl, omega arith, refl)
  wait_loop_lem zero s (suc n) other enough = absurd (omega arith)
  wait_loop_lem (suc fuel) s (suc n) other enough =
      let s1 = log (record s { waits = s.waits + 1 }) waited in
      let (s', run, waits, forks) = wait_loop_lem fuel s1 n other (omega arith) in
      elim (Option-cases (answers.statuses s.waits)) [
        | inl e ↦ (s', rw (wait_loop, e) run, omega (arith, waits), forks)
        | inr (k, e) ↦
            let differ : (k == 13) ≡ false =
              ne→== k 13 (λ same. other s.waits (e ∙ ap some same)) in
            (s', rw (wait_loop, e, differ) run, omega (arith, waits), forks)
      ]

  -- Where every pipe and fork succeeds and no process ends with status 13, a pipeline that is to be
  -- waited for, whose last command is not internal to the shell, is run to its end, with fuel for
  -- each command and one more: the shell starts one process for each command, waits once for each, and
  -- goes on.
  pub execute_pipeline_lem :
      (fuel : ℕ) (pipes : ℕ → ℕ × ℕ) (s : Shell sys.World) (p : Pipeline G Q) (c : Scommand G)
      (cs : List (Scommand G))
      → ((k : ℕ) → answers.pipes k ≡ some (pipes k))
      → ((k : ℕ) → answers.forks k ≡ true)
      → ((k : ℕ) → answers.statuses k ≢ some 13)
      → Q.items p.commands ≡ c ∷ cs
      → EndsExternal G (c ∷ cs)
      → pipeline_get_wait G Q p ≡ true
      → length (c ∷ cs) < fuel
      → (s' : Shell sys.World) × (execute_pipeline G Q sys answers fuel s p ≡ done (on s'))
        × (s'.forks ≡ s.forks + length (c ∷ cs))
        × (s'.waits ≡ s.waits + length (c ∷ cs))
  unfolding execute_pipeline execute_and_wait pipeline_is_empty pipeline_length
  execute_pipeline_lem fuel pipes s p c cs open_all fork_all other e external to_wait enough =
      let (s1, run, calls, forks, session, waits) =
        execute_pipeline_recursive_lem G Q sys answers fuel pipes s p c cs none open_all fork_all e
          external (omega arith) in
      let n : Q.count p.commands ≡ length (c ∷ cs) = Q.count-items p.commands ∙ ap length e in
      let (s', ended, waits', forks') =
        wait_loop_lem fuel s1 (length (c ∷ cs)) other (omega arith) in
      let alone = builtin_alone_external p c cs e external in
      (
        s',
        rw (Q.is_nil-cons p.commands c cs e, to_wait, alone, run)
            (ap (λ m. wait_loop G Q sys answers fuel s1 m (some 13)) n ∙ ended),
        forks' ∙ forks,
        omega (arith, waits, waits'),
      )
