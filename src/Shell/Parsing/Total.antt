-- ===== src/Shell/Parsing/Total.antt =====
-- That parsing a line ends, what it yields, and where it stops the shell.
use operating_system_fa_maf.Common.{
  ℕ, zero, suc, ◌≤◌, ◌<◌, ◌≡◌, refl, ◌⊎◌, inl, inr, Bool, true, false, not, ◌&&◌, List, [], ◌∷◌,
  ◌++◌, Option, none, some, if◌then◌else◌, arith, length, length-append, Run, done, fault,
  Bool-cases, Option-cases,
}
use operating_system_fa_maf.Shell.Glib.{Container}
use operating_system_fa_maf.Shell.Command.{
  Str, Scommand, Pipeline, scommand_new, scommand_is_empty, pipeline_new, pipeline_push_back,
  pipeline_set_wait,
}
use operating_system_fa_maf.Shell.Parsing.Lexer.{Parser}
use operating_system_fa_maf.Shell.Parsing.{
  place, scommand_loop, parse_scommand, Parsed, pipeline_loop, parse_finish, parse_rest,
  parse_pipeline,
}

module _ (G : Container Str) where
  -- A command that `parse_scommand` returns has an argument.
  abbrev pub HasArgument : Option (Scommand G) → Type 0
  HasArgument none = Unit {0}
  HasArgument (some c) = scommand_is_empty G c ≡ false

  abbrev pub AllHaveArguments : List (Scommand G) → Type 0
  AllHaveArguments [] = Unit {0}
  AllHaveArguments (c ∷ cs) = (scommand_is_empty G c ≡ false) × AllHaveArguments cs

  AllHaveArguments-append :
      (cs : List (Scommand G)) (c : Scommand G)
      → AllHaveArguments cs
      → scommand_is_empty G c ≡ false
      → AllHaveArguments (cs ++ c ∷ [])
  AllHaveArguments-append [] c h e = (e, tt)
  AllHaveArguments-append (x ∷ cs) c h e = (h.0, AllHaveArguments-append cs c h.1 e)

  kept : (c : Scommand G) → HasArgument (if scommand_is_empty G c then none else some c)
  kept c = elim (Bool-cases (scommand_is_empty G c)) [ inl e ↦ rw e tt | inr e ↦ rw e e ]

  both : (a b : Bool) → a && b ≡ true → a ≡ true
  both true b h = refl
  both false b h = h

  module _ (Q : Container (Scommand G)) (P : Parser) where
    abbrev Reads : P.State → Run (Scommand G × P.State) → Type 0
    Reads p m = (r : Scommand G × P.State) × (m ≡ done r) × (P.remaining r.1 ≤ P.remaining p)

    scommand_loop-Reads :
        (fuel : ℕ) (c : Scommand G) (p : P.State)
        → P.remaining p < fuel
        → Reads p (scommand_loop G Q P fuel c p)
    unfolding scommand_loop
    scommand_loop-Reads zero c p enough = absurd (omega arith)
    scommand_loop-Reads (suc fuel) c p enough = elim (Option-cases (P.next_argument p).0) [
      | inl e ↦ rw (scommand_loop, e) ((c, (P.next_argument p).1), refl, P.next_le p)
      | inr (a, e) ↦
          let less = P.next_consumes p a e in
          let ih =
            scommand_loop-Reads fuel (place G Q P c a.0 a.1) (P.next_argument p).1 (omega arith) in
          (ih.0, rw (scommand_loop, e) ih.1, omega (arith, ih.2))
    ]

    parse_scommand-Ends :
        (fuel : ℕ) (p : P.State)
        → P.remaining p < fuel
        → (r : Option (Scommand G) × P.State) × (parse_scommand G Q P fuel p ≡ done r)
          × (P.remaining r.1 ≤ P.remaining p)
          × HasArgument r.0
    unfolding parse_scommand
    parse_scommand-Ends fuel p enough =
        let l = scommand_loop-Reads fuel (scommand_new G) p enough in
        ((if scommand_is_empty G l.0.0 then none else some l.0.0, l.0.1), rw l.1, l.2, kept l.0.0)

    -- A pipeline of at least one command, each with an argument.
    abbrev pub Proper : Pipeline G Q → Type 0
    Proper r = (1 ≤ length (Q.items r.commands)) × AllHaveArguments (Q.items r.commands)

    abbrev Ends : Run (Parsed G Q P) → Type 0
    Ends m = (m ≡ fault) ⊎ ((r : Parsed G Q P) × (m ≡ done r) × Proper r.result)

    Proper-push :
        (r : Pipeline G Q) (c : Scommand G)
        → AllHaveArguments (Q.items r.commands)
        → scommand_is_empty G c ≡ false
        → Proper (record r { commands = Q.append r.commands c })
    Proper-push r c all e = rw (Q.items-append r.commands c) (
      omega (arith, length-append (Q.items r.commands) (c ∷ [])),
      AllHaveArguments-append (Q.items r.commands) c all e,
    )

    pipeline_loop-Ends :
        (arg_fuel fuel : ℕ) (result : Pipeline G Q) (cmd : Option (Scommand G)) (p : P.State)
        → AllHaveArguments (Q.items result.commands)
        → HasArgument cmd
        → P.remaining p < arg_fuel
        → P.remaining p < fuel
        → Ends (pipeline_loop G Q P arg_fuel fuel result cmd p)
    unfolding pipeline_loop pipeline_push_back
    pipeline_loop-Ends arg_fuel zero result cmd p all good enough_arg enough = absurd (omega arith)
    pipeline_loop-Ends arg_fuel (suc fuel) result none p all good enough_arg enough = inl refl
    pipeline_loop-Ends arg_fuel (suc fuel) result (some c) p all good enough_arg enough =
        let result1 : Pipeline G Q = record result { commands = Q.append result.commands c } in
        let proper = Proper-push result c all good in
        let background = P.op_background p in
        let pipe = P.op_pipe background.1 in
        let le1 : P.remaining background.1 ≤ P.remaining p = P.background_le p in
        let le2 : P.remaining pipe.1 ≤ P.remaining background.1 = P.pipe_le background.1 in
        let next = parse_scommand-Ends arg_fuel pipe.1 (omega arith) in
        elim (Bool-cases (pipe.0 && not (pipe.0 && background.0))) [
          | inl more ↦
              let less : P.remaining pipe.1 < P.remaining background.1 =
                P.pipe_consumes background.1 (both pipe.0 (not (pipe.0 && background.0)) more) in
              rw (next.1, more)
                (pipeline_loop-Ends arg_fuel fuel result1 next.0.0 next.0.1 proper.1 next.3
                  (omega (arith, next.2)) (omega (arith, next.2)))
          | inr over ↦ rw (next.1, over) (inr (_, refl, proper))
        ]

    -- What holds of the outcome of `parse_pipeline`.
    abbrev pub ProperResult : Option (Pipeline G Q) → Type 0
    ProperResult none = Unit {0}
    ProperResult (some r) = Proper r

    abbrev pub ParseEnds : Run (Option (Pipeline G Q) × P.State) → Type 0
    ParseEnds m =
        (m ≡ fault) ⊎ ((r : Option (Pipeline G Q) × P.State) × (m ≡ done r) × ProperResult r.0)

    parse_finish-Proper :
        (r : Parsed G Q P) → Proper r.result → ProperResult (parse_finish G Q P r).0
    unfolding parse_finish pipeline_set_wait
    parse_finish-Proper r proper = elim (Bool-cases r.error) [
      | inl e ↦ rw e tt
      | inr e ↦ rw e proper
    ]

    parse_rest-Ends :
        (arg_fuel fuel : ℕ) (unset : Bool) (r : Option (Scommand G) × P.State)
        → HasArgument r.0
        → P.remaining r.1 < arg_fuel
        → P.remaining r.1 < fuel
        → ParseEnds (parse_rest G Q P arg_fuel fuel unset r)
    unfolding parse_rest parse_finish pipeline_new
    parse_rest-Ends arg_fuel fuel unset (none, p1) good enough_arg enough = inr (_, refl, tt)
    parse_rest-Ends arg_fuel fuel unset (some c, p1) good enough_arg enough =
        elim (pipeline_loop-Ends arg_fuel fuel (pipeline_new G Q) (some c) p1 (rw Q.items-nil tt)
          good enough_arg enough) [
            | inl e ↦ inl (rw e)
            | inr (r, e, proper) ↦ inr (parse_finish G Q P r, rw e, parse_finish-Proper r proper)
          ]

    -- On a line that is not at its end, with more fuel than there is input, parsing ends: the
    -- shell stops at a failed assertion, or the result is NULL or a pipeline of at least one
    -- command, each of them with an argument.
    pub parse_pipeline-ParseEnds :
        (arg_fuel fuel : ℕ) (unset : Bool) (p : P.State)
        → P.at_eof p ≡ false
        → P.remaining p < arg_fuel
        → P.remaining p < fuel
        → ParseEnds (parse_pipeline G Q P arg_fuel fuel unset p)
    unfolding parse_pipeline
    parse_pipeline-ParseEnds arg_fuel fuel unset p more enough_arg enough =
        let first = parse_scommand-Ends arg_fuel p enough_arg in
        rw (more, first.1)
          (parse_rest-Ends arg_fuel fuel unset first.0 first.3 (omega (arith, first.2))
            (omega (arith, first.2)))

    -- A command, a bar that no ampersand stands before, and then no further argument: the shell
    -- stops at the assertion of pipeline_push_back.
    parse_pipeline_dangling :
        (arg_fuel fuel : ℕ) (unset : Bool) (p p1 p2 p3 p4 : P.State) (c : Scommand G)
        → P.at_eof p ≡ false
        → parse_scommand G Q P arg_fuel p ≡ done (some c, p1)
        → P.op_background p1 ≡ (false, p2)
        → P.op_pipe p2 ≡ (true, p3)
        → parse_scommand G Q P arg_fuel p3 ≡ done (none, p4)
        → parse_pipeline G Q P arg_fuel (suc (suc fuel)) unset p ≡ fault
    unfolding parse_pipeline parse_rest pipeline_loop pipeline_push_back
    parse_pipeline_dangling arg_fuel fuel unset p p1 p2 p3 p4 c more first background pipe next =
        rw (more, first, background, pipe, next)

    -- A command that no bar follows is a pipeline by itself, to be waited for unless an ampersand
    -- stands behind it; what is parsed as a command behind that is consumed and given up.
    parse_pipeline_single :
        (arg_fuel fuel : ℕ) (unset background : Bool) (p p1 p2 p3 p4 : P.State) (c : Scommand G)
        (lost : Option (Scommand G))
        → P.at_eof p ≡ false
        → parse_scommand G Q P arg_fuel p ≡ done (some c, p1)
        → P.op_background p1 ≡ (background, p2)
        → P.op_pipe p2 ≡ (false, p3)
        → parse_scommand G Q P arg_fuel p3 ≡ done (lost, p4)
        → parse_pipeline G Q P arg_fuel (suc fuel) unset p
          ≡ done (
            some (record { commands = Q.append Q.nil c; wait = not background }),
            (P.garbage (P.skip_blanks p4)).1,
          )
    unfolding parse_pipeline parse_rest parse_finish pipeline_loop pipeline_new pipeline_push_back
        pipeline_set_wait
    parse_pipeline_single arg_fuel fuel unset background p p1 p2 p3 p4 c lost more first behind pipe
          next =
        rw (more, first, behind, pipe, next)
