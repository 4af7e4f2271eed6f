-- ===== src/Agents/Outcome.antt =====
-- How a run of an agent ended: python/lore_eden/agents/process.py and bridge.py.
use lore_eden.Prelude.{String, Bool, true, false, not, ◌&&◌, Option, none, some, List, nat_eq}
use lore_eden.Prelude.Int.{ℤ, pos, negsuc}

-- `not_timed_out` is the member NONE.
pub data TimeoutKind : Type 0 where
  not_timed_out idle hard : TimeoutKind

pub record ProcessResult : Type 0 where
  pub returncode : Option ℤ
  pub stdout : String
  pub stderr : String
  pub timed_out : TimeoutKind
  pub cancelled : Bool

abbrev pub is_zero : Option ℤ → Bool
is_zero none = false
is_zero (some (pos n)) = nat_eq n 0
is_zero (some (negsuc n)) = false

-- timed_out is TimeoutKind.NONE
abbrev pub is_in_time : TimeoutKind → Bool
is_in_time not_timed_out = true
is_in_time _ = false

-- `ProcessResult.ok`
abbrev pub process_ok : ProcessResult → Bool
process_ok result =
    is_zero result.returncode && (is_in_time result.timed_out && not result.cancelled)

-- `Decision` is a request with the answer that it got.
pub record BridgeOutcome (Decision : Type 0) : Type 0 where
  pub result : ProcessResult
  pub session_id : String
  pub reported_failure : Bool
  pub saw_result : Bool
  pub decisions : List Decision

module _ {Decision : Type 0} where
  -- `BridgeOutcome.ok`
  abbrev pub is_ok : BridgeOutcome Decision → Bool
  is_ok outcome = process_ok outcome.result && (outcome.saw_result && not outcome.reported_failure)

  abbrev pub ended_silently : BridgeOutcome Decision → Bool
  ended_silently outcome = process_ok outcome.result && not outcome.saw_result
