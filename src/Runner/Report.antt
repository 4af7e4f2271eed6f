-- ===== src/Runner/Report.antt =====
-- python/lore_eden/runner/report.py: reading an outcome out of what an agent said.
pub mod Pattern
pub mod Reader
pub mod Spelling
use lore_eden.Prelude.{
  ℕ, String, Bool, true, false, not, ◌&&◌, Option, none, some, List, [], ◌∷◌, ◌==◌, nat_eq,
  if◌then◌else◌,
}
use lore_eden.Prelude.Int.{ℤ}
use lore_eden.Prelude.Result.{Result, ok, raised}
use lore_eden.Prelude.Text.{concat}
use lore_eden.Prelude.Strip.{strip}
use lore_eden.Prelude.Decimal.{decimal_ℤ}
use lore_eden.Prelude.Codes.{codes, lower, equal}
use lore_eden.Workflow.Models.{StageOutcome, pass, reject, default}
use lore_eden.Agents.Outcome.{
  TimeoutKind, not_timed_out, idle, hard, is_in_time, process_ok, BridgeOutcome, ended_silently,
}
use lore_eden.Runner.Report.Pattern.{Match, find_all}

pub record StageReport : Type 0 where
  pub outcome : StageOutcome
  pub summary : String
  pub reason : String

-- `StageReport.reported`
abbrev pub reported : StageReport → Bool
reported report = report.reason == ""

-- The ValueError of `StageOutcome(verdict.lower())`, with the verdict.
pub data ReportError : Type 0 where
  no_outcome : String → ReportError

-- `StageOutcome(verdict.lower())`, with `none` for the ValueError
unfoldable pub outcome_of : String → Option StageOutcome
unfolding lower equal
outcome_of verdict =
    let spelled = lower (codes verdict) in
    if equal spelled (codes "pass")
    then some pass
    else if equal spelled (codes "reject")
    then some reject
    else if equal spelled (codes "default")
    then some default
    else none

abbrev pub report_of : Match → Option StageOutcome → Result ReportError (Option StageReport)
report_of m none = raised (no_outcome m.verdict)
report_of m (some outcome) =
    ok (some (record { outcome = outcome; summary = strip m.summary; reason = "" }))

-- The last match decides.
unfoldable pub last_report : List Match → Result ReportError (Option StageReport)
unfolding outcome_of
last_report [] = ok none
last_report (m ∷ []) = report_of m (outcome_of m.verdict)
last_report (m ∷ n ∷ ms) = last_report (n ∷ ms)

abbrev pub refused : String → StageReport
refused reason = record { outcome = reject; summary = ""; reason = reason }

abbrev pub silent_reason : String
silent_reason =
    "The agent exited cleanly without producing any output, which usually means its session is not authenticated."

abbrev pub no_report_reason : String
no_report_reason = "The agent finished without reporting an outcome. Exiting 0 is not a pass."

abbrev pub timeout_value : TimeoutKind → String
timeout_value not_timed_out = "none"
timeout_value idle = "idle"
timeout_value hard = "hard"

-- The text of a return code or None.
abbrev pub code_text : Option ℤ → String
code_text none = "None"
code_text (some n) = decimal_ℤ n

abbrev pub or_refused : Result ReportError (Option StageReport) → Result ReportError StageReport
or_refused (raised e) = raised e
or_refused (ok none) = ok (refused no_report_reason)
or_refused (ok (some report)) = ok report

-- `is_word` tells the characters of `\w`.
module _ (is_word : ℕ → Bool) where
  unfoldable pub parse_report : String → Result ReportError (Option StageReport)
  unfolding last_report find_all
  parse_report text = last_report (find_all is_word true 0 text)

  -- `ExplicitReportReader.read`
  unfoldable pub read :
      {Decision : Type 0} → BridgeOutcome Decision → Result ReportError StageReport
  read outcome =
      if ended_silently outcome
      then ok (refused silent_reason)
      else if not (is_in_time outcome.result.timed_out)
      then ok (
          refused (
            concat
              ("The agent hit its " ∷ timeout_value outcome.result.timed_out ∷ " timeout." ∷ [])))
      else if outcome.result.cancelled
      then ok (refused "The run was cancelled.")
      else if outcome.reported_failure
      then ok (refused "The agent reported that it failed.")
      else if not (process_ok outcome.result)
      then ok
          (refused (concat ("The agent exited " ∷ code_text outcome.result.returncode ∷ "." ∷ [])))
      else or_refused (parse_report outcome.result.stdout)
