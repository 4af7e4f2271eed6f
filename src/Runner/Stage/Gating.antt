-- ===== src/Runner/Stage/Gating.antt =====
-- `gate_blocked` of a stage's execution (python/lore_eden/runner/stage_runner.py).
use lore_eden.Prelude.{
  String, ◌≡◌, refl, ap, Bool, true, false, ◌&&◌, none, some, arith, ◌⊎◌, inl, inr, ◌==◌,
}
use lore_eden.Prelude.Int.{ℤ}
use lore_eden.Prelude.Result.{ok}
use lore_eden.Workflow.Models.{WorkflowStageDef}
use lore_eden.Workflow.Gates.Shell.{GateRunResult}
use lore_eden.Workflow.Dispatch.{WorkflowCursor, start}
use lore_eden.Runner.Report.{StageReport}
use lore_eden.Runner.Setup.{Host, StageExecution, StageRunner, is_pass, refuses, gate_blocked}
use lore_eden.Runner.Stage.{gated, run_there, run_stage}
use lore_eden.Runner.Stage.Judged.{IsGated, IsJudged, Ended, run_there-Ended}

module _ {h : Host} (runner : StageRunner h) (agent_override : String) (attempt : ℤ)
    (values : h.parts.Values) (w : h.machine.World) (e : StageExecution h.Decision)
    (w' : h.machine.World) where
  -- The gate that refused is not seen any more once the report is rewritten.
  gated-is_pass :
      (said : StageReport) (gate : GateRunResult)
      → (refuses (some gate) && is_pass (gated runner said gate).outcome) ≡ false
  gated-is_pass said gate = ground arith

  judged-gate_blocked :
      (c : WorkflowCursor) (s : WorkflowStageDef)
      (j : IsJudged runner c s agent_override attempt values w e w')
      → IsGated runner c s e j.said j.w2 w'
        ⊎ ((is_pass j.said.outcome ≡ false) × (e.gate ≡ none) × (e.report ≡ j.said))
      → gate_blocked e ≡ false
  unfolding gate_blocked
  judged-gate_blocked c s j (inl g) = rw (g.kept.0, g.kept.1) (gated-is_pass j.said g.verdict)
  judged-gate_blocked c s j (inr (p, g, same)) = rw g

  there-gate_blocked :
      (c : WorkflowCursor)
      → run_there runner c agent_override attempt values w ≡ (ok e, w')
      → gate_blocked e ≡ false
  unfolding gate_blocked
  there-gate_blocked c q =
      let (s, found, ended) = run_there-Ended runner c agent_override attempt values w e w' q in
      by_end s ended
    where
      by_end :
          (s : WorkflowStageDef)
          → Ended runner c agent_override attempt values w e w' s
          → gate_blocked e ≡ false
      by_end s (inl same) = ap gate_blocked same
      by_end s (inr j) = judged-gate_blocked c s j j.judged

  -- Whatever `run_stage` returns, `gate_blocked` is false, also where a gate refused the work: the
  -- report that it reads was rewritten to a reject before.
  pub run_stage-gate_blocked :
      (cursor : WorkflowCursor)
      → run_stage runner cursor agent_override attempt values w ≡ (ok e, w')
      → gate_blocked e ≡ false
  unfolding run_stage gate_blocked
  run_stage-gate_blocked cursor q = by_key (cursor.stage_key == "") refl
    where
      by_start :
          cursor.stage_key == "" ≡ true
          → (b : Bool) → (start cursor runner.stages).is_blocked ≡ b
          → gate_blocked e ≡ false
      by_start s true r = ground (arith, q)
      by_start s false r =
          there-gate_blocked (start cursor runner.stages).cursor (ground (arith, q))

      by_key : (b : Bool) → cursor.stage_key == "" ≡ b → gate_blocked e ≡ false
      by_key true s = by_start s (start cursor runner.stages).is_blocked refl
      by_key false s = there-gate_blocked cursor (ground (arith, q))
