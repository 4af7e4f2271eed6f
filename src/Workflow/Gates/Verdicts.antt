-- ===== src/Workflow/Gates/Verdicts.antt =====
-- What the verdicts of gates say (python/lore_eden/workflow/gates.py).
use lore_eden.Prelude.{
  ℕ, zero, suc, ◌+◌, ◌<◌, String, ◌≡◌, refl, sym, ap, subst, Bool, true, false, Option, none, some,
  List, [], ◌∷◌, arith,
}
use lore_eden.Prelude.Dict.{Dict}
use lore_eden.Prelude.Int.{pos}
use lore_eden.Prelude.Result.{Result, ok, raised}
use lore_eden.Workflow.Models.{
  GateOutcome, passed, failed, skipped, disabled, unavailable, WorkflowStageDef,
}
use lore_eden.Workflow.Gates.Shell.{
  Machine, GateRunResult, CompletedProcess, completed, run_command, Completion, not_executed,
  expired, not_text, not_passed_on, classify, run_argv,
}
use lore_eden.Workflow.Gates.Config.{GatesConfig, collect_gate_commands, resolve_transition_script}
use lore_eden.Workflow.Gates.{blocking, tally, run_gates}
use lore_eden.Workflow.Gates.Spec.{
  Answer, Ran, Stops, later, behind, fails, throws, stamped, Scripted, script_fails, script_throws,
  Evaluates, off, no_tree, script_stops, command_stops, all_ran,
}
use lore_eden.Workflow.Gates.Evaluation.{run_gates-Evaluates}

-- Which outcomes let the transition through.
abbrev pub lets_through : GateOutcome → Bool
lets_through passed = true
lets_through skipped = true
lets_through disabled = true
lets_through failed = false
lets_through unavailable = false

-- The outcome is written down, and `ok` says the same.
abbrev pub IsStamped : GateRunResult → Type 0
IsStamped r = (o : GateOutcome) × (r.outcome ≡ some o) × (r.is_ok ≡ lets_through o)

abbrev IsStampedAnswer : Answer → Type 0
IsStampedAnswer (ok r) = IsStamped r
IsStampedAnswer (raised e) = Unit

-- A blocking answer is not ok, and neither passed, skipped nor disabled.
IsStamped-by :
    (o : Option GateOutcome) (r : GateRunResult)
    → r.outcome ≡ o
    → r.is_ok ≡ false
    → IsStamped (blocking r)
unfolding blocking
IsStamped-by none r e h = (failed, ground arith, ground arith)
IsStamped-by (some passed) r e h = (failed, ground arith, ground arith)
IsStamped-by (some failed) r e h = (failed, ground arith, ground arith)
IsStamped-by (some skipped) r e h = (failed, ground arith, ground arith)
IsStamped-by (some disabled) r e h = (failed, ground arith, ground arith)
IsStamped-by (some unavailable) r e h = (unavailable, ground arith, ground arith)

blocking-ne_passed :
    (o : Option GateOutcome) (r : GateRunResult)
    → r.outcome ≡ o
    → (blocking r).outcome ≡ some passed
    → ⊥
unfolding blocking
blocking-ne_passed none r e h = ground arith
blocking-ne_passed (some passed) r e h = ground arith
blocking-ne_passed (some failed) r e h = ground arith
blocking-ne_passed (some skipped) r e h = ground arith
blocking-ne_passed (some disabled) r e h = ground arith
blocking-ne_passed (some unavailable) r e h = ground arith

tally-IsStamped : (n : ℕ) → IsStamped (tally n)
tally-IsStamped zero = (skipped, refl, refl)
tally-IsStamped (suc n) = (passed, ground arith, ground arith)

tally-passed : (n : ℕ) → (tally n).outcome ≡ some passed → 0 < n
tally-passed zero h = ground arith
tally-passed (suc n) h = omega arith

module _ (sh : Machine) (repo_root : String) (context : Dict String) where
  Stops-IsStamped :
      {ts : List String} {w w' : sh.World} {a : Answer}
      → Stops sh repo_root context ts w a w'
      → IsStampedAnswer (stamped sh repo_root context a)
  Stops-IsStamped (later e d) = Stops-IsStamped d
  Stops-IsStamped (behind e q g d) = Stops-IsStamped d
  Stops-IsStamped (fails {r = r} e q bad) = IsStamped-by r.outcome r refl bad
  Stops-IsStamped (throws e q) = tt

  Stops-ne_passed :
      (found : Answer) (r : GateRunResult)
      → ok r ≡ stamped sh repo_root context found
      → r.outcome ≡ some passed
      → ⊥
  Stops-ne_passed (ok b) r e h = blocking-ne_passed b.outcome b refl (cc (e, h))
  Stops-ne_passed (raised x) r e h = cc (e)

  module _ (argv : List String) (gates : GatesConfig) (stage : Option WorkflowStageDef)
      (w : sh.World) where
    abbrev script : Option String
    script = resolve_transition_script sh gates repo_root w

    Evaluates-IsStamped :
        (a : Answer) (w' : sh.World)
        → Evaluates sh repo_root context argv gates stage w a w'
        → IsStampedAnswer a
    Evaluates-IsStamped a w' (off h e k) = subst IsStampedAnswer (sym e) (disabled, refl, refl)
    Evaluates-IsStamped a w' (no_tree h k e l) = subst IsStampedAnswer (sym e) (failed, refl, refl)
    Evaluates-IsStamped a w' (script_stops h k (script_fails path r s q bad gate e)) =
        subst IsStampedAnswer (sym e) (IsStamped-by r.outcome r refl bad)
    Evaluates-IsStamped a w' (script_stops h k (script_throws path x s q e)) =
        subst IsStampedAnswer (sym e) tt
    Evaluates-IsStamped a w' (command_stops n w1 found h k d st e) =
        subst IsStampedAnswer (sym e) (Stops-IsStamped st)
    Evaluates-IsStamped a w' (all_ran n m w1 h k d d' e) =
        subst IsStampedAnswer (sym e) (tally-IsStamped (n + m))

    module _ (r : GateRunResult) (w' : sh.World) where
      abbrev GivesResult : Type 0
      GivesResult = run_gates sh gates repo_root context stage argv w ≡ (ok r, w')

      means : GivesResult → Evaluates sh repo_root context argv gates stage w (ok r) w'
      means h =
          subst
            (λ (o : Answer × sh.World). Evaluates sh repo_root context argv gates stage w o.0 o.1) h
            (run_gates-Evaluates sh repo_root context argv gates stage w)

      -- Every result of `run_gates` names its outcome, and is ok exactly if that outcome is PASSED,
      -- SKIPPED or DISABLED: a gate that passed is told apart from one that did not run.
      pub run_gates-IsStamped :
          run_gates sh gates repo_root context stage argv w ≡ (ok r, w') → IsStamped r
      run_gates-IsStamped h = Evaluates-IsStamped (ok r) w' (means h)

      -- If `run_gates` answers PASSED, the gates are on, the tree is there, the transition script
      -- did not block, and every command of the configuration and of the stage that is not blank
      -- was run, in order, each in the tree that the one before it left, and passed; and at least
      -- one gate ran, the script counted.
      pub run_gates-passed :
          run_gates sh gates repo_root context stage argv w ≡ (ok r, w')
          → r.outcome ≡ some passed
          → (gates.enabled ≡ true)
            × (sh.is_dir w repo_root ≡ true)
            × ((n m : ℕ) × (w1 : sh.World) × Scripted sh repo_root context argv script w n w1
                × Ran sh repo_root context (collect_gate_commands gates stage) w1 m w'
                × (0 < n + m))
      run_gates-passed h p = by_case (means h)
        where
          result_of : Answer → GateRunResult
          result_of (ok s) = s
          result_of (raised x) = r

          by_case :
              Evaluates sh repo_root context argv gates stage w (ok r) w'
              → (gates.enabled ≡ true)
                × (sh.is_dir w repo_root ≡ true)
                × ((n m : ℕ) × (w1 : sh.World) × Scripted sh repo_root context argv script w n w1
                    × Ran sh repo_root context (collect_gate_commands gates stage) w1 m w'
                    × (0 < n + m))
          by_case (off g e k) = absurd (cc (ap result_of e, p))
          by_case (no_tree g k e l) = absurd (cc (ap result_of e, p))
          by_case (script_stops g k (script_fails path b s q bad gate e)) =
              absurd (Stops-ne_passed (ok b) r e p)
          by_case (script_stops g k (script_throws path x s q e)) = absurd (cc e)
          by_case (command_stops n w1 found g k d st e) = absurd (Stops-ne_passed found r e p)
          by_case (all_ran n m w1 g k d d' e) =
              (g, k, (n, m, w1, d, d', tally-passed (n + m) (cc (ap result_of e, p))))

module _ (sh : Machine) (command cwd : String) (w : sh.World) where
  classify_ok :
      (o : Completion × sh.World) (r : GateRunResult) (w' : sh.World)
      → classify sh command o ≡ (ok r, w')
      → r.is_ok ≡ true
      → (p : CompletedProcess) × (o ≡ (completed p, w')) × (p.returncode ≡ pos 0)
  classify_ok (completed p, w1) r w' h g = (p, ground arith, ground arith)
  classify_ok (not_executed m, w1) r w' h g = absurd (ground arith)
  classify_ok (expired, w1) r w' h g = absurd (ground arith)
  classify_ok (not_text, w1) r w' h g = absurd (ground arith)
  classify_ok (not_passed_on message, w1) r w' h g = absurd (ground arith)

  argv_ok :
      (parts : Result String (List String)) (r : GateRunResult) (w' : sh.World)
      → run_argv sh command cwd parts w ≡ (ok r, w')
      → r.is_ok ≡ true
      → (program : String) × (argv : List String) × (p : CompletedProcess) × (parts
          ≡ ok (program ∷ argv))
        × (sh.spawn w cwd (program ∷ argv) ≡ (completed p, w'))
        × (p.returncode ≡ pos 0)
  argv_ok (raised m) r w' h g = absurd (ground arith)
  argv_ok (ok []) r w' h g = absurd (ground arith)
  argv_ok (ok (program ∷ argv)) r w' h g =
      let (p, q, z) = classify_ok (sh.spawn w cwd (program ∷ argv)) r w' h g in
      (program, argv, p, refl, q, z)

  -- A gate command passes only by a process that exits with zero: if the result of `run_command` is
  -- ok, the command was split into a program with arguments, the process that ran them in the given
  -- directory exited with zero, and the tree is the one it left.
  pub run_command-exits :
      (r : GateRunResult) (w' : sh.World)
      → run_command sh command cwd w ≡ (ok r, w')
      → r.is_ok ≡ true
      → (program : String) × (argv : List String) × (p : CompletedProcess) × (sh.split command
          ≡ ok (program ∷ argv))
        × (sh.spawn w cwd (program ∷ argv) ≡ (completed p, w'))
        × (p.returncode ≡ pos 0)
  unfolding run_command
  run_command-exits r w' h g = argv_ok (sh.split command) r w' h g
