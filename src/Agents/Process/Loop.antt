-- ===== src/Agents/Process/Loop.antt =====
-- What the read loop of `ProcessSupervisor` does with lines and with time
-- (python/lore_eden/agents/process.py).
use mathlib.Core.List.{append-nil, append_assoc}
use lore_eden.Prelude.{
  ℕ, ◌+◌, ◌≤◌, String, ◌≡◌, ◌≢◌, refl, sym, ap, ◌∙◌, if◌then◌else◌, true, false, none, some, List,
  [], ◌∷◌, ◌++◌, arith, inl, inr, Bool-cases, ◌==◌, All,
}
use lore_eden.Prelude.Result.{Result, ok, raised}
use lore_eden.Agents.Process.Rounds.{Reads, no_more, ends, leaves, goes_on, read_loop-Reads}
use lore_eden.Agents.Outcome.{not_timed_out}
use lore_eden.Agents.Process.{
  runs_out, Tick, Stop, closed, waits, Reading, ProcessSupervisor, reading, round_verdict, handled,
  with_line, supervise,
}

-- The lines that rounds give, in order.
unfoldable pub heard : List Tick → List String
heard [] = []
heard (tick ∷ ticks) = elim tick.got [
  | none ↦ heard ticks
  | some line ↦ let rest = heard ticks in if line == "" then rest else line ∷ rest
]

-- The next round is the end of the output.
abbrev pub IsAtEnd : List Tick → Type 0
IsAtEnd ticks = (end : Tick) × (more : List Tick) × (ticks ≡ end ∷ more) × (end.got ≡ none)

module _ {S F : Type 0} (on_line : S → String → Result F S) where
  -- The handler on each line in turn.
  unfoldable pub on_lines : S → List String → Result F S
  on_lines s [] = ok s
  on_lines s (line ∷ lines) = elim (on_line s line) [
    | raised e ↦ raised e
    | ok s' ↦ on_lines s' lines
  ]

  -- What a reading makes of its rounds: the lines of the first of them, up to a round that it
  -- leaves at, are kept and handled in order; if it says that the output ended, the round behind
  -- them did.
  pub record Handled (ticks : List Tick) (collected : List String) (s : S) (r : Reading S)
      : Type 0 where
    pub rounds : List Tick
    pub rest : List Tick
    pub split : ticks ≡ rounds ++ rest
    pub all_kept : r.collected ≡ collected ++ heard rounds
    pub folded : on_lines s (heard rounds) ≡ ok r.state
    pub to_the_end : r.stop ≡ closed → IsAtEnd rest
    pub timed : r.stop ≢ runs_out not_timed_out

  module _ (idle_timeout hard_deadline : ℕ) where
    nothing_more :
        (stop : Stop) (ticks : List Tick) (collected : List String) (s : S) (r : Reading S)
        → (stop ≡ closed → IsAtEnd ticks)
        → stop ≢ runs_out not_timed_out
        → reading on_line stop collected s ≡ ok r
        → Handled ticks collected s r
    unfolding on_lines heard
    nothing_more stop ticks collected s r at_end timed h =
        let same : r.stop ≡ stop = ground (arith, h) in
        record {
          rounds = [];
          rest = ticks;
          split = refl;
          all_kept = ground (arith, append-nil collected);
          folded = ground arith;
          to_the_end = λ e. at_end (sym same ∙ e);
          timed = λ e. timed (sym same ∙ e);
        }

    silent :
        (s s' : S) (line : String) → line == "" ≡ true → handled on_line s line ≡ ok s' → s ≡ s'
    silent s s' line e h = ground arith

    spoken :
        (s s' : S) (line : String) (lines : List String)
        → line == "" ≡ false
        → handled on_line s line ≡ ok s'
        → on_lines s (line ∷ lines) ≡ on_lines s' lines
    unfolding on_lines
    spoken s s' line lines e h = ground arith

    heard_nothing :
        (tick : Tick) (ticks : List Tick) (line : String)
        → tick.got ≡ some line
        → line == "" ≡ true
        → heard (tick ∷ ticks) ≡ heard ticks
    unfolding heard
    heard_nothing tick ticks line is_line e = ground (arith)

    heard_line :
        (tick : Tick) (ticks : List Tick) (line : String)
        → tick.got ≡ some line
        → line == "" ≡ false
        → heard (tick ∷ ticks) ≡ line ∷ heard ticks
    unfolding heard
    heard_line tick ticks line is_line e = ground (arith)

    behind_line :
        (tick : Tick) (ticks : List Tick) (collected : List String) (s s' : S) (line : String)
        (r : Reading S)
        → tick.got ≡ some line
        → handled on_line s line ≡ ok s'
        → Handled ticks (with_line on_line collected line) s' r
        → Handled (tick ∷ ticks) collected s r
    behind_line tick ticks collected s s' line r is_line h k = record {
      rounds = tick ∷ k.rounds;
      rest = k.rest;
      split = ap (λ (l : List Tick). tick ∷ l) k.split;
      all_kept = by_line.0;
      folded = by_line.1;
      to_the_end = k.to_the_end;
      timed = k.timed;
    }
      where
        by_line :
            (r.collected ≡ collected ++ heard (tick ∷ k.rounds))
            × (on_lines s (heard (tick ∷ k.rounds)) ≡ ok r.state)
        by_line = elim (Bool-cases (line == "")) [
          | inl e ↦ (
            ground (arith, k.all_kept, heard_nothing tick k.rounds line is_line e),
            ap (on_lines s) (heard_nothing tick k.rounds line is_line e)
                ∙ ap (λ (x : S). on_lines x (heard k.rounds)) (silent s s' line e h)
                ∙ k.folded,
          )
          | inr e ↦ (
            ground (
              arith,
              k.all_kept,
              heard_line tick k.rounds line is_line e,
              append_assoc collected (line ∷ []) (heard k.rounds),
            ),
            ap (on_lines s) (heard_line tick k.rounds line is_line e)
                ∙ spoken s s' line (heard k.rounds) e h
                ∙ k.folded,
          )
        ]

    Reads-Handled :
        {ticks : List Tick} {d : ℕ} {collected : List String} {s : S} {r : Reading S}
        → Reads on_line idle_timeout hard_deadline ticks d collected s r
        → Handled ticks collected s r
    Reads-Handled (no_more h) =
        nothing_more waits [] _ _ _ (λ e. absurd (ground (arith, e))) (λ e. ground (arith, e)) h
    Reads-Handled (ends e h) =
        nothing_more closed _ _ _ _ (λ _. (_, _, refl, e)) (λ q. ground (arith, q)) h
    Reads-Handled (leaves {tick} {ticks} line stop is_line is_handled is_left h) =
        behind_line tick ticks _ _ _ line _ is_line is_handled
          (nothing_more stop ticks _ _ _ (λ e. absurd (is_left.1 e)) is_left.2 h)
    Reads-Handled (goes_on {tick} {ticks} line is_line is_handled is_v k) =
        behind_line tick ticks _ _ _ line _ is_line is_handled (Reads-Handled k)

    -- A round at which the loop could go on.
    pub record IsOpen (tick : Tick) : Type 0 where
      pub line : String
      pub is_line : tick.got ≡ some line
      pub not_cancelled : tick.is_cancelled ≡ false
      pub before_cap : tick.now + 1 ≤ hard_deadline

    open_flag :
        (deadline : ℕ) (tick : Tick)
        → round_verdict on_line hard_deadline deadline tick ≡ none
        → tick.is_cancelled ≡ false
    open_flag deadline tick h = ground (arith)

    open_clock :
        (deadline : ℕ) (tick : Tick)
        → round_verdict on_line hard_deadline deadline tick ≡ none
        → tick.now + 1 ≤ hard_deadline
    open_clock deadline tick h = ground (arith)

    stop_of :
        (stop : Stop) (collected : List String) (s : S) (r : Reading S)
        → reading on_line stop collected s ≡ ok r
        → stop ≡ r.stop
    stop_of stop collected s r h = ground (arith)

    Reads-IsOpen :
        {ticks : List Tick} {d : ℕ} {collected : List String} {s : S} {r : Reading S}
        → Reads on_line idle_timeout hard_deadline ticks d collected s r
        → r.stop ≡ waits
        → All IsOpen ticks
    Reads-IsOpen (no_more h) is_waiting = tt
    Reads-IsOpen (ends e h) is_waiting = absurd (ground arith)
    Reads-IsOpen (leaves line stop is_line is_handled is_left h) is_waiting =
        absurd (is_left.0 (stop_of stop _ _ _ h ∙ is_waiting))
    Reads-IsOpen (goes_on {tick} line is_line is_handled is_v k) is_waiting = (
      record {
        line = line;
        is_line = is_line;
        not_cancelled = open_flag _ tick is_v;
        before_cap = open_clock _ tick is_v;
      },
      Reads-IsOpen k is_waiting,
    )

  pub supervise-Handled :
      (supervisor : ProcessSupervisor) (started : ℕ) (ticks : List Tick) (s : S) (r : Reading S)
      → supervise on_line supervisor started ticks s ≡ ok r
      → Handled ticks [] s r
  unfolding supervise
  supervise-Handled supervisor started ticks s r h =
      Reads-Handled _ _ (read_loop-Reads on_line _ _ ticks _ [] s r h)

  -- While the loop waits, every round had a line or nothing, was not cancelled, and was before the
  -- hard cap.
  pub supervise-IsOpen :
      (supervisor : ProcessSupervisor) (started : ℕ) (ticks : List Tick) (s : S) (r : Reading S)
      → supervise on_line supervisor started ticks s ≡ ok r
      → r.stop ≡ waits
      → All
          (IsOpen supervisor.idle_timeout
            (started + supervisor.hard_cap_multiplier supervisor.idle_timeout))
          ticks
  unfolding supervise
  supervise-IsOpen supervisor started ticks s r h is_waiting =
      Reads-IsOpen _ _ (read_loop-Reads on_line _ _ ticks _ [] s r h) is_waiting
