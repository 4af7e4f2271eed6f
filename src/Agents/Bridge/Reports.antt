-- ===== src/Agents/Bridge/Reports.antt =====
-- What the outcome of a run of `PermissionBridge` reports (python/lore_eden/agents/bridge.py).
use lore_eden.Prelude.{
  ℕ, String, ◌≡◌, ◌≢◌, refl, ap, ◌∙◌, false, Option, none, some, List, [], ◌++◌, arith,
}
use lore_eden.Prelude.Int.{ℤ}
use lore_eden.Prelude.Text.{join}
use lore_eden.Prelude.Result.{Result, ok, raised}
use lore_eden.Agents.Outcome.{ProcessResult, BridgeOutcome, not_timed_out}
use lore_eden.Agents.Protocol.{StreamFault}
use lore_eden.Agents.Process.{
  Tick, closed, runs_out, ProcessSupervisor, Reading, supervise, result_of,
}
use lore_eden.Agents.Process.Loop.{heard, IsAtEnd, Handled, supervise-Handled}
use lore_eden.Agents.Bridge.{
  Wiring, RunState, Decided, runs, handle, new_state, bridge_outcome, outcome_from, run,
}
use lore_eden.Agents.Bridge.Requests.{
  messages, requests, rulings, sent, responses, any_result, any_failure, Answered,
}
use lore_eden.Agents.Bridge.Answers.{on_lines-Answered}

module _ (b : Wiring) where
  -- The run reads the lines of the first rounds, all of them up to the end of the output if it was
  -- neither timed out nor cancelled; the outcome is what these lines say, and the pipe is left with
  -- the answers to the requests among them.
  pub record Reports (supervisor : ProcessSupervisor) (started : ℕ) (pipe : b.Pipe)
      (asked : b.policy.State) (ticks : List Tick) (outcome : BridgeOutcome Decided) : Type 0 where
    pub rounds : List Tick
    pub rest : List Tick
    pub split : ticks ≡ rounds ++ rest
    pub to_the_end :
        outcome.result.timed_out ≡ not_timed_out → outcome.result.cancelled ≡ false → IsAtEnd rest
    pub all_kept : outcome.result.stdout ≡ join "" (heard rounds)
    pub decisions : outcome.decisions ≡ rulings b asked (requests b (messages b (heard rounds)))
    pub saw_result : outcome.saw_result ≡ any_result b (messages b (heard rounds))
    pub reported_failure : outcome.reported_failure ≡ any_failure b (messages b (heard rounds))
    pub end_reading : Reading (RunState b)
    pub was_read :
        supervise (handle b) supervisor started ticks (new_state b (some pipe) asked)
        ≡ ok end_reading
    pub written :
        end_reading.state.proc
        ≡ some
            (sent b pipe (responses b (rulings b asked (requests b (messages b (heard rounds))))))

  all_read :
      (returncode : Option ℤ) (stderr : String) (r : Reading (RunState b)) (result : ProcessResult)
      → result_of (handle b) returncode stderr r ≡ some result
      → result.stdout ≡ join "" r.collected
  all_read returncode stderr r result h = ground arith

  -- A result without a flag is that of a process whose output ended.
  was_closed :
      (returncode : Option ℤ) (stderr : String) (r : Reading (RunState b)) (result : ProcessResult)
      → result_of (handle b) returncode stderr r ≡ some result
      → r.stop ≢ runs_out not_timed_out
      → result.timed_out ≡ not_timed_out
      → result.cancelled ≡ false
      → r.stop ≡ closed
  was_closed returncode stderr r result h timed in_time kept_on = ground arith

  outcome-parts :
      (s : RunState b) (o : Option ProcessResult) (outcome : BridgeOutcome Decided)
      → bridge_outcome b s o ≡ some outcome
      → (o ≡ some outcome.result)
        × (outcome.decisions ≡ s.decisions)
        × (outcome.saw_result ≡ s.saw_result)
        × (outcome.reported_failure ≡ s.reported_failure)
  outcome-parts s none outcome h = absurd (ground arith)
  outcome-parts s (some result) outcome h = (ground arith, ground arith, ground arith, ground arith)

  reading-Reports :
      (supervisor : ProcessSupervisor) (started : ℕ) (pipe : b.Pipe) (asked : b.policy.State)
      → (ticks : List Tick) (returncode : Option ℤ) (stderr : String)
      → (outcome : BridgeOutcome Decided) (r : Reading (RunState b))
      → supervise (handle b) supervisor started ticks (new_state b (some pipe) asked) ≡ ok r
      → bridge_outcome b r.state (result_of (handle b) returncode stderr r) ≡ some outcome
      → (k : Handled (handle b) ticks [] (new_state b (some pipe) asked) r)
      → Answered b (new_state b (some pipe) asked) pipe (messages b (heard k.rounds)) r.state
      → Reports supervisor started pipe asked ticks outcome
  reading-Reports supervisor started pipe asked ticks returncode stderr outcome r is_r h k a =
      let (is_result, decisions, saw, failure) =
        outcome-parts r.state (result_of (handle b) returncode stderr r) outcome h in
      record {
        rounds = k.rounds;
        rest = k.rest;
        split = k.split;
        to_the_end = λ in_time kept_on.
            k.to_the_end
              (was_closed returncode stderr r outcome.result is_result k.timed in_time kept_on);
        all_kept = all_read returncode stderr r outcome.result is_result ∙ ap (join "") k.all_kept;
        decisions = decisions ∙ a.decisions;
        saw_result = saw ∙ a.saw_result;
        reported_failure = failure ∙ a.reported_failure;
        end_reading = r;
        was_read = is_r;
        written = a.proc;
      }

  -- A run that returns an outcome has read a first part of its rounds: all of them up to the end of
  -- the output, if it was neither timed out nor cancelled. With the lines that these rounds gave:
  -- its output is the lines, in order; its decisions are the policy's on the permission requests
  -- among them, in order, and the answers to these, in order, are what went into the pipe; and it
  -- saw a result or a failure exactly if a line told of one.
  pub run-Reports :
      (supervisor : ProcessSupervisor) (started : ℕ) (pipe : b.Pipe) (asked : b.policy.State)
      → (ticks : List Tick) (returncode : Option ℤ) (stderr : String)
      → (outcome : BridgeOutcome Decided)
      → run b supervisor started pipe asked (runs ticks returncode stderr) ≡ ok (some outcome)
      → Reports supervisor started pipe asked ticks outcome
  unfolding run
  run-Reports supervisor started pipe asked ticks returncode stderr outcome h =
      by_reading (supervise (handle b) supervisor started ticks (new_state b (some pipe) asked))
        refl h
    where
      by_reading :
          (x : Result StreamFault (Reading (RunState b)))
          → supervise (handle b) supervisor started ticks (new_state b (some pipe) asked) ≡ x
          → outcome_from b returncode stderr x ≡ ok (some outcome)
          → Reports supervisor started pipe asked ticks outcome
      by_reading (raised e) is_x h' = absurd (ground arith)
      by_reading (ok r) is_x h' =
          let k = supervise-Handled (handle b) supervisor started ticks _ r is_x in
          reading-Reports supervisor started pipe asked ticks returncode stderr outcome r is_x
            (ground (arith, h')) k
            (on_lines-Answered b (heard k.rounds) _ r.state pipe refl refl k.folded)
