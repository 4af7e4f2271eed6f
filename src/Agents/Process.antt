-- ===== src/Agents/Process.antt =====
-- `ProcessSupervisor` of python/lore_eden/agents/process.py: reading a process's lines under two
-- budgets of time.
pub mod Loop
pub mod Rounds
use lore_eden.Prelude.{
  ℕ, ◌+◌, ◌*◌, String, Bool, true, false, not, ◌&&◌, ◌||◌, Option, none, some, List, [], ◌∷◌, ◌++◌,
  ◌==◌, leb, if◌then◌else◌,
}
use lore_eden.Prelude.Int.{ℤ}
use lore_eden.Prelude.Text.{join}
use lore_eden.Prelude.Result.{Result, ok, raised}
use lore_eden.Agents.Outcome.{TimeoutKind, not_timed_out, idle, hard, ProcessResult}

-- One round of the read loop: what the queue gave, "" for nothing and `none` for the end of the
-- output; the clock when a line has been handled and when the budgets are looked at; and the
-- reading of `cancelled()`.
pub record Tick : Type 0 where
  pub got : Option String
  pub handled_at : ℕ
  pub now : ℕ
  pub is_cancelled : Bool

-- Why the loop ended; `waits` if the rounds so far have not ended it.
pub data Stop : Type 0 where
  closed : Stop
  cancels : Stop
  runs_out : TimeoutKind → Stop
  waits : Stop

pub record Reading (S : Type 0) : Type 0 where
  pub stop : Stop
  pub collected : List String
  pub state : S

-- The budgets are in the units of the clock. The multiplier is a float: it is given by what it makes
-- of a budget.
pub record ProcessSupervisor : Type 0 where
  pub idle_timeout : ℕ
  pub hard_cap_multiplier : ℕ → ℕ

module _ {S F : Type 0} (on_line : S → String → Result F S) where
  abbrev pub reading : Stop → List String → S → Result F (Reading S)
  reading stop collected s = ok (record { stop = stop; collected = collected; state = s })

  -- What a round comes to: whether the loop is left.
  abbrev pub round_verdict : ℕ → ℕ → Tick → Option Stop
  round_verdict hard_deadline idle_deadline tick =
      if tick.is_cancelled
      then some cancels
      else if leb hard_deadline tick.now
      then some (runs_out hard)
      else if leb idle_deadline tick.now
      then some (runs_out idle)
      else none

  abbrev pub handled : S → String → Result F S
  handled s line = if line == "" then ok s else on_line s line

  abbrev pub with_line : List String → String → List String
  with_line collected line = if line == "" then collected else collected ++ line ∷ []

  abbrev pub next_deadline : ℕ → ℕ → Tick → String → ℕ
  next_deadline idle_timeout idle_deadline tick line =
      if line == "" then idle_deadline else tick.handled_at + idle_timeout

  -- The read loop of `run`.
  unfoldable pub read_loop : ℕ → ℕ → ℕ → List Tick → List String → S → Result F (Reading S)
  read_loop idle_timeout hard_deadline idle_deadline [] collected s = reading waits collected s
  read_loop idle_timeout hard_deadline idle_deadline (tick ∷ ticks) collected s = elim tick.got [
    | none ↦ reading closed collected s
    | some line ↦ elim (handled s line) [
      | raised e ↦ raised e
      | ok s' ↦
          let deadline = next_deadline idle_timeout idle_deadline tick line in
          elim (round_verdict hard_deadline deadline tick) [
            | some stop ↦ reading stop (with_line collected line) s'
            | none ↦
                read_loop idle_timeout hard_deadline deadline ticks (with_line collected line) s'
          ]
    ]
  ]

  -- The result of a process whose exit code and error output are known once it is done; `none`
  -- while it runs.
  abbrev pub result_of : Option ℤ → String → Reading S → Option ProcessResult
  result_of returncode stderr r = elim r.stop [
    | waits ↦ none
    | closed ↦ some (record {
      returncode = returncode;
      stdout = join "" r.collected;
      stderr = stderr;
      timed_out = not_timed_out;
      cancelled = false;
    })
    | cancels ↦ some (record {
      returncode = returncode;
      stdout = join "" r.collected;
      stderr = stderr;
      timed_out = not_timed_out;
      cancelled = true;
    })
    | runs_out kind ↦ some (record {
      returncode = returncode;
      stdout = join "" r.collected;
      stderr = stderr;
      timed_out = kind;
      cancelled = false;
    })
  ]

  -- `run`, from the moment when the process has started
  unfoldable pub supervise : ProcessSupervisor → ℕ → List Tick → S → Result F (Reading S)
  supervise supervisor started ticks s =
      read_loop supervisor.idle_timeout
        (started + supervisor.hard_cap_multiplier supervisor.idle_timeout)
        (started + supervisor.idle_timeout) ticks [] s

-- The process could not be started: the OSError's text.
abbrev pub not_started : String → ProcessResult
not_started error = record {
  returncode = none;
  stdout = "";
  stderr = error;
  timed_out = not_timed_out;
  cancelled = false;
}
