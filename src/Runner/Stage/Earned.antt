-- ===== src/Runner/Stage/Earned.antt =====
-- A stage is done only when its work was reported and gated (python/lore_eden/runner).
use lore_eden.Prelude.{
  ℕ, String, ◌≡◌, ◌≢◌, refl, sym, ap, subst, ◌∙◌, Bool, true, false, Option, none, some, List, [],
  ◌∷◌, arith, ◌⊎◌, inl, inr, Bool-cases, ◌==◌,
}
use lore_eden.Prelude.Int.{ℤ}
use lore_eden.Prelude.Index.{contains, Distinct}
use lore_eden.Prelude.Dict.{Dict, get-put, get_with}
use lore_eden.Prelude.Result.{ok}
use lore_eden.Workflow.Models.{
  StageStatus, StageOutcome, pass, reject, default, outcome_value, WorkflowStageDef, done, blocked,
  pending,
}
use lore_eden.Workflow.Order.{stage_keys}
use lore_eden.Workflow.Dispatch.{WorkflowCursor, DispatchResult, status_of, start, start_at, block}
use lore_eden.Workflow.Dispatch.Statuses.{advance-reject_completes_nothing, advance-completes_own}
use lore_eden.Workflow.Routing.{next_stage_key}
use lore_eden.Workflow.Gates.Shell.{GateRunResult}
use lore_eden.Workflow.Gates.{run_gates}
use lore_eden.Agents.Outcome.{BridgeOutcome}
use lore_eden.Runner.Report.{StageReport, read}
use lore_eden.Runner.Report.Reader.{SaysPass, read-SaysPass}
use lore_eden.Runner.Report.Spelling.{read-ne_default}
use lore_eden.Runner.Setup.{
  Host, StageExecution, StageRunner, is_pass, find_stage, no_stages_reason,
}
use lore_eden.Runner.Stage.{blocked_with, run_there, run_stage, standing}
use lore_eden.Runner.Stage.Judged.{IsGated, Drove, IsJudged, Ended, run_there-Ended}

contains-find_stage :
    (ss : List WorkflowStageDef) (key : String) (s : WorkflowStageDef)
    → find_stage ss key ≡ some s
    → contains (stage_keys ss) key ≡ true
unfolding find_stage contains
contains-find_stage [] key s h = absurd (ground arith)
contains-find_stage (t ∷ ss) key s h = ground (arith, contains-find_stage ss key s)

is_pass-eq : (o : StageOutcome) → is_pass o ≡ true → o ≡ pass
is_pass-eq pass h = refl
is_pass-eq reject h = absurd (cc h)
is_pass-eq default h = absurd (cc h)

reject_of : (o : StageOutcome) → is_pass o ≡ false → o ≢ default → o ≡ reject
reject_of pass h k = absurd (cc h)
reject_of reject h k = refl
reject_of default h k = absurd (k refl)

module _ {h : Host} (runner : StageRunner h) (is_word : ℕ → Bool) where
  -- From an item that stands as the cursor says: the stage `k` is its own; the agent bound to that
  -- stage ended well, and its last report line says pass; and the gates of that stage, run in the
  -- tree that the agent left, let it through.
  pub record IsEarned (c : WorkflowCursor) (agent_override : String) (attempt : ℤ)
      (values : h.parts.Values) (w : h.machine.World) (k : String) (e : StageExecution h.Decision)
      (w' : h.machine.World) : Type 0 where
    pub own : (c.stage_key == k) ≡ true
    pub definition : WorkflowStageDef
    pub is_stage : find_stage runner.stages c.stage_key ≡ some definition
    pub outcome : BridgeOutcome h.Decision
    pub bridged : e.bridge ≡ some outcome
    pub w2 : h.machine.World
    pub drove : Drove runner c definition agent_override attempt values w outcome w2
    pub says : SaysPass is_word outcome
    pub verdict : GateRunResult
    pub ran :
        run_gates h.machine runner.gates runner.workspace_root
          (("stage", definition.key) ∷ ("item", c.item_id) ∷ [])
          (some definition)
          []
          w2
        ≡ (ok verdict, w')
    pub let_through : verdict.is_ok ≡ true

  module _ (d : Distinct (stage_keys runner.stages))
      (named : contains (stage_keys runner.stages) "" ≡ false)
      (reads : (o : BridgeOutcome h.Decision) → runner.reader o ≡ read is_word o)
      (agent_override : String) (attempt : ℤ) (values : h.parts.Values) (w : h.machine.World)
      (e : StageExecution h.Decision) (w' : h.machine.World) (k : String) where
    abbrev Earned : WorkflowCursor → Type 0
    Earned c = IsEarned c agent_override attempt values w k e w'

    abbrev Judged : WorkflowCursor → WorkflowStageDef → Type 0
    Judged c s = IsJudged runner c s agent_override attempt values w e w'

    -- Where the report that moved the cursor is a reject, no stage became done.
    rejected-none_new :
        (c : WorkflowCursor) (s : WorkflowStageDef)
        → c.stage_key ≢ ""
        → Judged c s
        → e.report.outcome ≡ reject
        → status_of e.dispatch.cursor k ≡ done
        → status_of c k ≡ done
    rejected-none_new c s placed j r is_done =
        advance-reject_completes_nothing c runner.stages runner.transitions
          (outcome_value e.report.outcome) "" e.report.reason d placed e.dispatch j.moves k
          (ap (λ (o : StageOutcome). outcome_value o == outcome_value reject) r) is_done

    judged-IsEarned :
        (c : WorkflowCursor) (s : WorkflowStageDef)
        → c.stage_key ≢ ""
        → find_stage runner.stages c.stage_key ≡ some s
        → (j : Judged c s) → status_of c k ≢ done
        → status_of e.dispatch.cursor k ≡ done
        → IsGated runner c s e j.said j.w2 w'
          ⊎ ((is_pass j.said.outcome ≡ false) × (e.gate ≡ none) × (e.report ≡ j.said))
        → Earned c
    judged-IsEarned c s placed found j new is_done (inr (p, g, same)) = absurd (
        new (
          rejected-none_new c s placed j
            (ap (λ (x : StageReport). x.outcome) same
              ∙ reject_of j.said.outcome p
                  (read-ne_default is_word j.outcome j.said (sym (reads j.outcome) ∙ j.was_read)))
            is_done))
    judged-IsEarned c s placed found j new is_done (inl g) = elim (Bool-cases g.verdict.is_ok) [
      | inl good ↦ record {
        outcome = j.outcome;
        bridged = j.bridged;
        says =
            read-SaysPass is_word j.outcome j.said (sym (reads j.outcome) ∙ j.was_read)
              (is_pass-eq j.said.outcome g.passes);
        own =
            advance-completes_own c runner.stages runner.transitions
              (outcome_value e.report.outcome) "" e.report.reason d placed e.dispatch j.moves k
              is_done new;
        definition = s;
        is_stage = found;
        w2 = j.w2;
        drove = j.drove;
        verdict = g.verdict;
        ran = g.ran;
        let_through = good;
      }
      | inr bad ↦ absurd (
          new (
            rejected-none_new c s placed j
              (ap (λ (x : StageReport). x.outcome) g.kept.1 ∙ ground arith) is_done))
    ]

    there-IsEarned :
        (c : WorkflowCursor)
        → run_there runner c agent_override attempt values w ≡ (ok e, w')
        → status_of c k ≢ done
        → status_of e.dispatch.cursor k ≡ done
        → Earned c
    there-IsEarned c q new is_done =
        let (s, found, ended) = run_there-Ended runner c agent_override attempt values w e w' q in
        by_end s found ended
      where
        placed_at :
            (s : WorkflowStageDef)
            → find_stage runner.stages c.stage_key ≡ some s
            → c.stage_key ≢ ""
        placed_at s found empty = cc (
          named,
          subst (λ key. contains (stage_keys runner.stages) key ≡ true) empty
              (contains-find_stage runner.stages c.stage_key s found),
        )

        by_end :
            (s : WorkflowStageDef)
            → find_stage runner.stages c.stage_key ≡ some s
            → Ended runner c agent_override attempt values w e w' s
            → Earned c
        by_end s found (inl same) = absurd (
            new (
              ap (λ (x : StageExecution h.Decision). status_of x.dispatch.cursor k) (sym same)
              ∙ is_done))
        by_end s found (inr j) =
            judged-IsEarned c s (placed_at s found) found j new is_done j.judged

    start-statuses :
        (c : WorkflowCursor) → (start c runner.stages).cursor.stage_statuses ≡ c.stage_statuses
    unfolding start
    start-statuses c = by_first (next_stage_key runner.stages "")
      where
        by_first :
            (first : Option String)
            → (start_at c runner.stages first).cursor.stage_statuses ≡ c.stage_statuses
        by_first none = refl
        by_first (some first) = refl

    blocked-none_new :
        (c : WorkflowCursor) (reason : String)
        → status_of (block c reason).cursor k ≡ done
        → status_of c k ≡ done
    unfolding block
    blocked-none_new c reason q = ground (arith, get-put c.stage_statuses c.stage_key k blocked)

    module _ (cursor : WorkflowCursor) where
      -- Let the keys of the stages be distinct and not empty, and let the runner read reports with
      -- the default reader. If a stage is done after `run_stage` that was not done before, then it is
      -- the stage where the item stands, the first one for an item that has not started. The agent
      -- bound to it was run on its prompt and under its policy, exited with zero, in time and not
      -- cancelled; its stream held a result that was no failure, and the last report line of its
      -- output says pass; and the gates of that stage were run in the tree that the agent left and
      -- let it through.
      pub run_stage-IsEarned :
          run_stage runner cursor agent_override attempt values w ≡ (ok e, w')
          → status_of cursor k ≢ done
          → status_of e.dispatch.cursor k ≡ done
          → IsEarned (standing runner cursor) agent_override attempt values w k e w'
      unfolding run_stage
      run_stage-IsEarned q new is_done = by_key (cursor.stage_key == "") refl
        where
          started : DispatchResult
          started = start cursor runner.stages

          not_yet : status_of started.cursor k ≢ done
          not_yet was = new (
              ap (λ (statuses : Dict StageStatus). get_with statuses k pending)
                (sym (start-statuses cursor))
              ∙ was)

          by_start :
              cursor.stage_key == "" ≡ true
              → (b : Bool) → started.is_blocked ≡ b
              → Earned (standing runner cursor)
          by_start s true r =
              let same : blocked_with runner started.cursor no_stages_reason ≡ e =
                ground (arith, q) in
              absurd (
                not_yet (
                  blocked-none_new started.cursor no_stages_reason (
                    ap (λ (x : StageExecution h.Decision). status_of x.dispatch.cursor k) same
                    ∙ is_done)))
          by_start s false r =
              subst Earned (ground (arith, s))
                (there-IsEarned started.cursor (ground (arith, q)) not_yet is_done)

          by_key : (b : Bool) → cursor.stage_key == "" ≡ b → Earned (standing runner cursor)
          by_key true s = by_start s started.is_blocked refl
          by_key false s =
              subst Earned (ground (arith, s))
                (there-IsEarned cursor (ground (arith, q)) new is_done)
