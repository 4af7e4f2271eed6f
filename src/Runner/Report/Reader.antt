-- ===== src/Runner/Report/Reader.antt =====
-- What the default reader promises (python/lore_eden/runner/report.py).
use Prim.Native.Char.{code}
use lore_eden.Prelude.{
  ℕ, String, ◌≡◌, ◌≢◌, refl, ap, ◌∙◌, Bool, true, false, not, ◌&&◌, Option, none, some, List, [],
  ◌∷◌, arith, if◌then◌else◌,
}
use lore_eden.Prelude.Int.{ℤ, pos, negsuc}
use lore_eden.Prelude.Result.{Result, ok, raised}
use lore_eden.Workflow.Models.{StageOutcome, pass, reject}
use lore_eden.Agents.Outcome.{
  TimeoutKind, not_timed_out, idle, hard, is_in_time, is_zero, process_ok, BridgeOutcome,
  ended_silently,
}
use lore_eden.Runner.Report.Pattern.{Match, find_all}
use lore_eden.Runner.Report.{
  StageReport, ReportError, silent_reason, outcome_of, report_of, last_report, refused, or_refused,
  parse_report, read,
}

-- The last of the matches.
abbrev pub last : List Match → Option Match
last [] = none
last (m ∷ []) = some m
last (m ∷ n ∷ ms) = last (n ∷ ms)

-- A report is that of the last match.
pub last_report-last :
    (ms : List Match) (r : StageReport)
    → last_report ms ≡ ok (some r)
    → (m : Match) × (last ms ≡ some m) × (outcome_of m.verdict ≡ some r.outcome)
unfolding last_report
last_report-last [] r h = absurd (ground arith)
last_report-last (m ∷ []) r h = (m, refl, by_outcome (outcome_of m.verdict) h)
  where
    by_outcome : (o : Option StageOutcome) → report_of m o ≡ ok (some r) → o ≡ some r.outcome
    by_outcome none k = absurd (ground arith)
    by_outcome (some o) k = ground arith
last_report-last (m ∷ n ∷ ms) r h = last_report-last (n ∷ ms) r h

process_ok-parts :
    (code : Option ℤ) (t : TimeoutKind) (c : Bool)
    → (is_zero code && (is_in_time t && not c)) ≡ true
    → (code ≡ some (pos 0)) × (t ≡ not_timed_out) × (c ≡ false)
process_ok-parts none t c h = absurd (cc h)
process_ok-parts (some (pos n)) not_timed_out c h = ground arith
process_ok-parts (some (pos n)) idle c h = absurd (ground arith)
process_ok-parts (some (pos n)) hard c h = absurd (ground arith)
process_ok-parts (some (negsuc n)) t c h = absurd (cc h)

module _ (is_word : ℕ → Bool) {Decision : Type 0} (o : BridgeOutcome Decision) where
  -- What the process and the agent's output say when the reader answers PASS.
  pub record SaysPass : Type 0 where
    pub exited : o.result.returncode ≡ some (pos 0)
    pub in_time : o.result.timed_out ≡ not_timed_out
    pub ran_on : o.result.cancelled ≡ false
    pub finished : o.saw_result ≡ true
    pub succeeded : o.reported_failure ≡ false
    pub line : Match
    pub is_last : last (find_all is_word true 0 o.result.stdout) ≡ some line
    pub verdict : outcome_of line.verdict ≡ some pass

  or_refused-parsed :
      (parsed : Result ReportError (Option StageReport)) (r : StageReport)
      → or_refused parsed ≡ ok r
      → r.outcome ≢ reject
      → parsed ≡ ok (some r)
  or_refused-parsed (raised e) r h k = absurd (cc h)
  or_refused-parsed (ok none) r h k = absurd (k (ground arith))
  or_refused-parsed (ok (some s)) r h k = ground arith

  -- The branches of `read`, over what they test.
  by_branch :
      (silent in_time cancelled failed fine : Bool) (late code : String)
      (parsed : Result ReportError (Option StageReport)) (r : StageReport)
      → (if silent
          then ok (refused silent_reason)
          else if not in_time
          then ok (refused late)
          else if cancelled
          then ok (refused "The run was cancelled.")
          else if failed
          then ok (refused "The agent reported that it failed.")
          else if not fine
          then ok (refused code)
          else or_refused parsed)
        ≡ ok r
      → r.outcome ≢ reject
      → (silent ≡ false) × (failed ≡ false) × (fine ≡ true) × (parsed ≡ ok (some r))
  by_branch true t c f p late code parsed r h k = absurd (k (ground arith))
  by_branch false false c f p late code parsed r h k = absurd (k (ground arith))
  by_branch false true true f p late code parsed r h k = absurd (k (ground arith))
  by_branch false true false true p late code parsed r h k = absurd (k (ground arith))
  by_branch false true false false false late code parsed r h k = absurd (k (ground arith))
  by_branch false true false false true late code parsed r h k =
      (refl, refl, refl, or_refused-parsed parsed r h k)

  saw_unless : (fine saw : Bool) → (fine && not saw) ≡ false → fine ≡ true → saw ≡ true
  saw_unless fine saw h k = ground arith

  -- If the default reader answers with anything but REJECT, the process exited with zero, in time
  -- and not cancelled, the stream held a result that was no failure, and the answer is the one of
  -- the last report line of the output.
  pub read-parsed :
      (r : StageReport)
      → read is_word o ≡ ok r
      → r.outcome ≢ reject
      → (process_ok o.result ≡ true)
        × (o.saw_result ≡ true)
        × (o.reported_failure ≡ false)
        × (parse_report is_word o.result.stdout ≡ ok (some r))
  unfolding read
  read-parsed r h k =
      let (quiet, failed, fine, parsed) =
        by_branch (ended_silently o) (is_in_time o.result.timed_out) o.result.cancelled
          o.reported_failure (process_ok o.result) _ _ (parse_report is_word o.result.stdout) r h
          k in
      (fine, saw_unless (process_ok o.result) o.saw_result quiet fine, failed, parsed)

  pub read-SaysPass : (r : StageReport) → read is_word o ≡ ok r → r.outcome ≡ pass → SaysPass
  unfolding parse_report
  read-SaysPass r h p =
      let (fine, saw, good, parsed) = read-parsed r h (ground (arith, p)) in
      let (code, in_time, ran_on) =
        process_ok-parts o.result.returncode o.result.timed_out o.result.cancelled fine in
      let (m, is_last, verdict) =
        last_report-last (find_all is_word true 0 o.result.stdout) r parsed in
      record {
        exited = code;
        in_time = in_time;
        ran_on = ran_on;
        finished = saw;
        succeeded = good;
        line = m;
        is_last = is_last;
        verdict = verdict ∙ ap some p;
      }
