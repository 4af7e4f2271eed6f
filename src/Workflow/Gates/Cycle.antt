-- ===== src/Workflow/Gates/Cycle.antt =====
-- One evaluation of the gates with one attempt at repair: `run_gates_with_autofix` of
-- python/lore_eden/workflow/gates.py.
use lore_eden.Prelude.{
  String, ◌≡◌, ◌≢◌, refl, ap, ◌∙◌, Bool, true, false, Option, none, some, List, arith, ◌⊎◌, inl,
  inr,
}
use lore_eden.Prelude.Dict.{Dict}
use lore_eden.Prelude.Result.{Result, ok, raised}
use lore_eden.Workflow.Models.{passed, failed, skipped, disabled, unavailable, WorkflowStageDef}
use lore_eden.Workflow.Gates.Shell.{Machine, GateFault, GateRunResult, then_run}
use lore_eden.Workflow.Gates.Config.{GatesConfig}
use lore_eden.Workflow.Gates.{
  GateAutofixResult, GateCycleResult, run_gates, run_autofix, run_gates_with_autofix, once, twice,
  after_fixers, after_first,
}
use lore_eden.Workflow.Gates.Verdicts.{IsStamped, run_gates-IsStamped}

module _ (sh : Machine) (repo_root : String) (context : Dict String) (argv : List String) where
  module _ (gates : GatesConfig) (stage : Option WorkflowStageDef) (w : sh.World) where
    abbrev evaluate : sh.World → Result GateFault GateRunResult × sh.World
    evaluate = run_gates sh gates repo_root context stage argv

    -- The gates failed, some fixer ran in the tree that they left, and the gates were evaluated
    -- once more in the tree that the fixers left.
    pub record Repaired (c : GateCycleResult) (first : GateRunResult) (w1 w' : sh.World)
        : Type 0 where
      pub is_failure : first.outcome ≡ some failed
      pub fix : GateAutofixResult
      pub w2 : sh.World
      pub fixed : run_autofix sh gates repo_root context w1 ≡ (ok fix, w2)
      pub did_run : fix.ran ≡ true
      pub again : evaluate w2 ≡ (ok c.result, w')
      pub kept : (c.first_failure ≡ some first) × (c.autofix ≡ some fix)

    abbrev fixers : sh.World → Result GateFault GateAutofixResult × sh.World
    fixers = run_autofix sh gates repo_root context

    -- The gates had not FAILED, and nothing else was done.
    pub record LeftAlone (c : GateCycleResult) (first : GateRunResult) (w1 w' : sh.World)
        : Type 0 where
      pub no_failure : first.outcome ≢ some failed
      pub result : c.result ≡ first
      pub no_fix : (c.autofix ≡ none) × (c.first_failure ≡ none)
      pub same_tree : w' ≡ w1

    -- The gates failed and no fixer ran, so that there was nothing to evaluate again.
    pub record Unrepaired (c : GateCycleResult) (first : GateRunResult) (w1 w' : sh.World)
        : Type 0 where
      pub is_failure : first.outcome ≡ some failed
      pub fix : GateAutofixResult
      pub fixed : run_autofix sh gates repo_root context w1 ≡ (ok fix, w')
      pub did_not_run : fix.ran ≡ false
      pub result : c.result ≡ first
      pub kept : (c.autofix ≡ some fix) × (c.first_failure ≡ none)

    abbrev Ended : GateCycleResult → sh.World → GateRunResult → sh.World → Type 0
    Ended c w' first w1 =
        LeftAlone c first w1 w' ⊎ (Unrepaired c first w1 w' ⊎ Repaired c first w1 w')

    -- The second evaluation.
    second_one :
        (c : GateCycleResult) (w' : sh.World) (first : GateRunResult) (w1 : sh.World)
        → first.outcome ≡ some failed
        → (fix : GateAutofixResult) (w2 : sh.World) → fixers w1 ≡ (ok fix, w2)
        → fix.ran ≡ true
        → (o : Result GateFault GateRunResult × sh.World) → evaluate w2 ≡ o
        → then_run sh (twice sh first fix) o ≡ (ok c, w')
        → Repaired c first w1 w'
    second_one c w' first w1 f fix w2 q ran (raised e, w3) k h = absurd (cc h)
    second_one c w' first w1 f fix w2 q ran (ok second, w3) k h = record {
      is_failure = f;
      fix = fix;
      w2 = w2;
      fixed = q;
      did_run = ran;
      again = ground arith;
      kept = ground arith;
    }

    with_fixers :
        (c : GateCycleResult) (w' : sh.World) (first : GateRunResult) (w1 : sh.World)
        → first.outcome ≡ some failed
        → (o : Result GateFault GateAutofixResult × sh.World) → fixers w1 ≡ o
        → then_run sh (after_fixers sh evaluate first) o ≡ (ok c, w')
        → Ended c w' first w1
    with_fixers c w' first w1 f (raised e, w2) q h = absurd (cc h)
    with_fixers c w' first w1 f (ok fix, w2) q h = by_ran fix.ran refl
      where
        by_ran : (b : Bool) → fix.ran ≡ b → Ended c w' first w1
        by_ran false n = inr (
            inl (record {
              is_failure = f;
              fix = fix;
              fixed = q ∙ ap (λ (w : sh.World). (ok fix, w)) (ground (arith, h));
              did_not_run = n;
              result = ground arith;
              kept = ground arith;
            }))
        by_ran true n =
            inr (inr (second_one c w' first w1 f fix w2 q n (evaluate w2) refl (ground (arith, h))))

    Ended-once :
        (c : GateCycleResult) (w' : sh.World) (first : GateRunResult) (w1 : sh.World)
        → first.outcome ≢ some failed
        → once sh first none w1 ≡ (ok c, w')
        → Ended c w' first w1
    Ended-once c w' first w1 passes h = inl (record {
      no_failure = passes;
      result = ground arith;
      no_fix = (ground (arith, h), ground (arith, h));
      same_tree = ground (arith, h);
    })

    from_first :
        (c : GateCycleResult) (w' : sh.World) (first : GateRunResult) (w1 : sh.World)
        → IsStamped first
        → after_first sh evaluate fixers first w1 ≡ (ok c, w')
        → Ended c w' first w1
    from_first c w' first w1 (passed, o, g) h =
        Ended-once c w' first w1 (λ e. ground (arith, o, e)) (ground (arith, h))
    from_first c w' first w1 (skipped, o, g) h =
        Ended-once c w' first w1 (λ e. ground (arith, o, e)) (ground (arith, h))
    from_first c w' first w1 (disabled, o, g) h =
        Ended-once c w' first w1 (λ e. ground (arith, o, e)) (ground (arith, h))
    from_first c w' first w1 (unavailable, o, g) h =
        Ended-once c w' first w1 (λ e. ground (arith, o, e)) (ground (arith, h))
    from_first c w' first w1 (failed, o, g) h =
        with_fixers c w' first w1 o (fixers w1) refl (ground (arith, h))

    module _ (c : GateCycleResult) (w' : sh.World) where
      -- One call of `run_gates_with_autofix` that returns began with one evaluation of the gates.
      -- Where they had not FAILED its result is that evaluation's and no fixer was called. Where they
      -- had, the fixers were called in the tree that the gates left: if none ran, the result is the
      -- first evaluation's; if some did, it is that of a second and last evaluation, in the tree that
      -- the fixers left, and the first is kept beside it.
      pub run_gates_with_autofix-cycle :
          run_gates_with_autofix sh gates repo_root context stage argv w ≡ (ok c, w')
          → (first : GateRunResult) × (w1 : sh.World) × (run_gates sh gates repo_root context stage
                argv w
              ≡ (ok first, w1))
            × (LeftAlone c first w1 w' ⊎ (Unrepaired c first w1 w' ⊎ Repaired c first w1 w'))
      unfolding run_gates_with_autofix
      run_gates_with_autofix-cycle h = go (evaluate w) refl h
        where
          go :
              (o : Result GateFault GateRunResult × sh.World)
              → evaluate w ≡ o
              → then_run sh (after_first sh evaluate fixers) o ≡ (ok c, w')
              → (first : GateRunResult) × (w1 : sh.World) × (evaluate w ≡ (ok first, w1))
                × Ended c w' first w1
          go (raised e, w1) q k = absurd (cc k)
          go (ok first, w1) q k = (
            first,
            w1,
            q,
            from_first c w' first w1
                (run_gates-IsStamped sh repo_root context argv gates stage w first w1 q) k,
          )
