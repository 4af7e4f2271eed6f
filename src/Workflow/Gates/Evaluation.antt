-- ===== src/Workflow/Gates/Evaluation.antt =====
-- `run_gates` (python/lore_eden/workflow/gates.py) evaluates what Workflow/Gates/Spec asks for.
use lore_eden.Prelude.{
  ℕ, String, ◌≡◌, refl, sym, ◌∙◌, ap, subst, true, false, Option, none, some, List, arith, ◌⊎◌, inl,
  inr, Bool-cases,
}
use lore_eden.Prelude.Dict.{Dict}
use lore_eden.Prelude.Result.{ok, raised}
use lore_eden.Workflow.Models.{failed, disabled, WorkflowStageDef}
use lore_eden.Workflow.Gates.Shell.{Machine, GateRunResult, then_run}
use lore_eden.Workflow.Gates.Config.{GatesConfig, collect_gate_commands, resolve_transition_script}
use lore_eden.Workflow.Gates.{
  blocking, remark, no_repo, ScriptVerdict, judge_script, run_gates, counts, blocks, run_script,
  after_script, script_command, is_undefined_transition,
}
use lore_eden.Workflow.Gates.Spec.{
  Answer, Scripted, no_script, script_passes, not_declared, ScriptStops, script_fails,
  script_throws, Evaluates, off, no_tree, script_stops, command_stops, all_ran,
}
use lore_eden.Workflow.Gates.Commands.{Ends, gate_run, run_commands-Ends}

judge_script-passed : (r : GateRunResult) → r.is_ok ≡ true → judge_script r ≡ counts 1
unfolding judge_script
judge_script-passed r h = ground arith

judge_script-no_gate :
    (r : GateRunResult)
    → r.is_ok ≡ false
    → is_undefined_transition r ≡ true
    → judge_script r ≡ counts 0
unfolding judge_script
judge_script-no_gate r h k = ground arith

judge_script-blocks :
    (r : GateRunResult)
    → r.is_ok ≡ false
    → is_undefined_transition r ≡ false
    → judge_script r ≡ blocks (blocking r)
unfolding judge_script
judge_script-blocks r h k = ground arith

module _ (sh : Machine) (repo_root : String) (context : Dict String) where
  module _ (argv : List String) where
    -- Every transition script counts for some gates or stops the evaluation.
    abbrev Answers : Option String → sh.World → Type 0
    Answers script w =
        ((n : ℕ) × (w1 : sh.World) × Scripted sh repo_root context argv script w n w1
          × (run_script sh repo_root context argv script w ≡ (ok (counts n), w1)))
        ⊎ ((a : Answer) × (w1 : sh.World) × ScriptStops sh repo_root context argv script w a w1
            × ((templates : List String)
                → then_run sh (after_script sh repo_root context templates)
                    (run_script sh repo_root context argv script w)
                  ≡ (a, w1)))

    run_script-Answers : (script : Option String) (w : sh.World) → Answers script w
    run_script-Answers none w = inl (0, w, no_script refl refl refl, refl)
    run_script-Answers (some path) w =
        go (gate_run sh repo_root context (script_command sh path argv) w) refl
      where
        go :
            (o : Answer × sh.World)
            → gate_run sh repo_root context (script_command sh path argv) w ≡ o
            → Answers (some path) w
        go (raised e, w1) q = inr (raised e, w1, script_throws path e refl q refl, λ ts. rw q)
        go (ok r, w1) q = elim (Bool-cases r.is_ok) [
          | inl good ↦
              inl (1, w1, script_passes path r refl q good refl, rw (q, judge_script-passed r good))
          | inr bad ↦ elim (Bool-cases (is_undefined_transition r)) [
            | inl no_gate ↦ inl (
              0,
              w1,
              not_declared path r refl q bad no_gate refl,
              rw (q, judge_script-no_gate r bad no_gate),
            )
            | inr gate ↦ inr (
              ok (blocking r),
              w1,
              script_fails path r refl q bad gate refl,
              λ ts. rw (q, judge_script-blocks r bad gate),
            )
          ]
        ]

    module _ (gates : GatesConfig) (stage_def : Option WorkflowStageDef) (w : sh.World) where
      abbrev script : Option String
      script = resolve_transition_script sh gates repo_root w

      abbrev evaluated : Answer × sh.World
      evaluated = run_gates sh gates repo_root context stage_def argv w

      run_gates-off :
          gates.enabled ≡ false → evaluated ≡ (ok (remark true disabled "gates disabled"), w)
      unfolding run_gates
      run_gates-off h = ground arith

      run_gates-no_tree :
          gates.enabled ≡ true
          → sh.is_dir w repo_root ≡ false
          → evaluated ≡ (ok (remark false failed (no_repo sh repo_root)), w)
      unfolding run_gates
      run_gates-no_tree h k = ground arith

      run_gates-on :
          gates.enabled ≡ true
          → sh.is_dir w repo_root ≡ true
          → evaluated
            ≡ then_run sh
                (after_script sh repo_root context (collect_gate_commands gates stage_def))
                (run_script sh repo_root context argv script w)
      unfolding run_gates
      run_gates-on h k = ground arith

      abbrev Meets : Answer × sh.World → Type 0
      Meets o = Evaluates sh repo_root context argv gates stage_def w o.0 o.1

      with_commands :
          gates.enabled ≡ true
          → sh.is_dir w repo_root ≡ true
          → (n : ℕ) (w1 : sh.World) → Scripted sh repo_root context argv script w n w1
          → run_script sh repo_root context argv script w ≡ (ok (counts n), w1)
          → Ends sh repo_root context (collect_gate_commands gates stage_def) n w1
          → Meets evaluated
      with_commands h k n w1 d q (inl (m, w', d', q')) =
          subst Meets (sym (run_gates-on h k ∙ ap (then_run sh after) q ∙ q'))
            (all_ran n m w1 h k d d' refl)
        where
          after : ScriptVerdict → sh.World → Answer × sh.World
          after = after_script sh repo_root context (collect_gate_commands gates stage_def)
      with_commands h k n w1 d q (inr (a, w', d', q')) =
          subst Meets (sym (run_gates-on h k ∙ ap (then_run sh after) q ∙ q'))
            (command_stops n w1 a h k d d' refl)
        where
          after : ScriptVerdict → sh.World → Answer × sh.World
          after = after_script sh repo_root context (collect_gate_commands gates stage_def)

      with_script :
          gates.enabled ≡ true → sh.is_dir w repo_root ≡ true → Answers script w → Meets evaluated
      with_script h k (inl (n, w1, d, q)) =
          with_commands h k n w1 d q
            (run_commands-Ends sh repo_root context (collect_gate_commands gates stage_def) n w1)
      with_script h k (inr (a, w1, d, q)) =
          subst Meets (sym (run_gates-on h k ∙ q (collect_gate_commands gates stage_def)))
            (script_stops h k d)

      -- Whatever the configuration, the stage, the context and the machine, the answer of
      -- `run_gates` and the tree that it leaves are those of the specification: gates that are off
      -- or have no tree run nothing; a script or a command that does not pass ends the evaluation,
      -- behind gates that passed; otherwise all ran, and the answer counts them.
      pub run_gates-Evaluates :
          Evaluates sh repo_root context argv gates stage_def w
            (run_gates sh gates repo_root context stage_def argv w).0
            (run_gates sh gates repo_root context stage_def argv w).1
      run_gates-Evaluates = elim (Bool-cases gates.enabled) [
        | inr h ↦ subst Meets (sym (run_gates-off h)) (off h refl refl)
        | inl h ↦ elim (Bool-cases (sh.is_dir w repo_root)) [
          | inr k ↦ subst Meets (sym (run_gates-no_tree h k)) (no_tree h k refl refl)
          | inl k ↦ with_script h k (run_script-Answers script w)
        ]
      ]
