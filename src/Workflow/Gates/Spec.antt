-- ===== src/Workflow/Gates/Spec.antt =====
-- What evaluating the gates of a transition is to mean (python/lore_eden/workflow/gates.py), as
-- relations between the tree before, the answer and the tree afterwards.
use lore_eden.Prelude.{ℕ, suc, ◌+◌, String, ◌≡◌, true, false, Option, none, some, List, [], ◌∷◌}
use lore_eden.Prelude.Dict.{Dict}
use lore_eden.Prelude.Result.{Result, ok, raised}
use lore_eden.Workflow.Models.{failed, disabled, WorkflowStageDef}
use lore_eden.Workflow.Gates.Shell.{Machine, GateFault, GateRunResult, run_template}
use lore_eden.Workflow.Gates.Config.{
  GatesConfig, is_blank, collect_gate_commands, resolve_transition_script,
}
use lore_eden.Workflow.Gates.{
  is_undefined_transition, blocking, remark, tally, script_command, no_repo,
}

abbrev pub Answer : Type 0
Answer = Result GateFault GateRunResult

module _ (sh : Machine) (repo_root : String) (context : Dict String) where
  -- Gates that all passed, one after the other, each in the tree that the one before it left: how
  -- many they are, and the last tree. Blank entries are no gates.
  pub data Ran : List String → sh.World → ℕ → sh.World → Type 0 where
    no_more : {w : sh.World} → Ran [] w 0 w
    blank :
        {t : String} {ts : List String} {w w' : sh.World} {n : ℕ}
        → is_blank t ≡ true
        → Ran ts w n w'
        → Ran (t ∷ ts) w n w'
    passes :
        {t : String} {ts : List String} {w w1 w' : sh.World} {n : ℕ} {r : GateRunResult}
        → is_blank t ≡ false
        → run_template sh repo_root context t w ≡ (ok r, w1)
        → r.is_ok ≡ true
        → Ran ts w1 n w'
        → Ran (t ∷ ts) w (suc n) w'

  -- The first gate that does not pass, behind gates that do: its answer, and the tree it left.
  pub data Stops : List String → sh.World → Answer → sh.World → Type 0 where
    later :
        {t : String} {ts : List String} {w w' : sh.World} {a : Answer}
        → is_blank t ≡ true
        → Stops ts w a w'
        → Stops (t ∷ ts) w a w'
    behind :
        {t : String} {ts : List String} {w w1 w' : sh.World} {a : Answer} {r : GateRunResult}
        → is_blank t ≡ false
        → run_template sh repo_root context t w ≡ (ok r, w1)
        → r.is_ok ≡ true
        → Stops ts w1 a w'
        → Stops (t ∷ ts) w a w'
    fails :
        {t : String} {ts : List String} {w w' : sh.World} {r : GateRunResult}
        → is_blank t ≡ false
        → run_template sh repo_root context t w ≡ (ok r, w')
        → r.is_ok ≡ false
        → Stops (t ∷ ts) w (ok r) w'
    throws :
        {t : String} {ts : List String} {w w' : sh.World} {e : GateFault}
        → is_blank t ≡ false
        → run_template sh repo_root context t w ≡ (raised e, w')
        → Stops (t ∷ ts) w (raised e) w'

  -- An answer that blocks, stamped with who handles it.
  abbrev pub stamped : Answer → Answer
  stamped (ok r) = ok (blocking r)
  stamped (raised e) = raised e

  module _ (argv : List String) where
    -- A transition script that does not block, and for how many gates it counts.
    pub data Scripted (script : Option String) (w : sh.World) (n : ℕ) (w1 : sh.World) : Type 0 where
      no_script : script ≡ none → n ≡ 0 → w1 ≡ w → Scripted script w n w1
      script_passes :
          (path : String) (r : GateRunResult)
          → script ≡ some path
          → run_template sh repo_root context (script_command sh path argv) w ≡ (ok r, w1)
          → r.is_ok ≡ true
          → n ≡ 1
          → Scripted script w n w1
      not_declared :
          (path : String) (r : GateRunResult)
          → script ≡ some path
          → run_template sh repo_root context (script_command sh path argv) w ≡ (ok r, w1)
          → r.is_ok ≡ false
          → is_undefined_transition r ≡ true
          → n ≡ 0
          → Scripted script w n w1

    -- A transition script that blocks, or whose command cannot be built.
    pub data ScriptStops (script : Option String) (w : sh.World) (a : Answer) (w1 : sh.World)
        : Type 0 where
      script_fails :
          (path : String) (r : GateRunResult)
          → script ≡ some path
          → run_template sh repo_root context (script_command sh path argv) w ≡ (ok r, w1)
          → r.is_ok ≡ false
          → is_undefined_transition r ≡ false
          → a ≡ ok (blocking r)
          → ScriptStops script w a w1
      script_throws :
          (path : String) (e : GateFault)
          → script ≡ some path
          → run_template sh repo_root context (script_command sh path argv) w ≡ (raised e, w1)
          → a ≡ raised e
          → ScriptStops script w a w1

    module _ (gates : GatesConfig) (stage_def : Option WorkflowStageDef) (w : sh.World) where
      abbrev script : Option String
      script = resolve_transition_script sh gates repo_root w

      abbrev templates : List String
      templates = collect_gate_commands gates stage_def

      -- The evaluation of one transition.
      pub data Evaluates (a : Answer) (w' : sh.World) : Type 0 where
        off :
            gates.enabled ≡ false
            → a ≡ ok (remark true disabled "gates disabled")
            → w' ≡ w
            → Evaluates a w'
        no_tree :
            gates.enabled ≡ true
            → sh.is_dir w repo_root ≡ false
            → a ≡ ok (remark false failed (no_repo sh repo_root))
            → w' ≡ w
            → Evaluates a w'
        script_stops :
            gates.enabled ≡ true
            → sh.is_dir w repo_root ≡ true
            → ScriptStops script w a w'
            → Evaluates a w'
        command_stops :
            (n : ℕ) (w1 : sh.World) (found : Answer)
            → gates.enabled ≡ true
            → sh.is_dir w repo_root ≡ true
            → Scripted script w n w1
            → Stops templates w1 found w'
            → a ≡ stamped found
            → Evaluates a w'
        all_ran :
            (n m : ℕ) (w1 : sh.World)
            → gates.enabled ≡ true
            → sh.is_dir w repo_root ≡ true
            → Scripted script w n w1
            → Ran templates w1 m w'
            → a ≡ ok (tally (n + m))
            → Evaluates a w'
