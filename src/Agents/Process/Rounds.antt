-- ===== src/Agents/Process/Rounds.antt =====
-- The rounds of the read loop of `ProcessSupervisor` (python/lore_eden/agents/process.py) as a relation.
use lore_eden.Prelude.{
  ℕ, String, ◌≡◌, ◌≢◌, refl, sym, ◌∙◌, Option, none, some, List, [], ◌∷◌, arith,
}
use lore_eden.Prelude.Result.{Result, ok, raised}
use lore_eden.Agents.Outcome.{not_timed_out}
use lore_eden.Agents.Process.{
  runs_out, Tick, Stop, closed, waits, Reading, reading, round_verdict, handled, with_line,
  next_deadline, read_loop,
}

-- A stop that the clock or `cancelled()` gives: not the end of the output, and a timeout of a kind.
abbrev pub IsLeaving : Stop → Type 0
IsLeaving stop = (stop ≢ waits) × (stop ≢ closed) × (stop ≢ runs_out not_timed_out)

module _ {S F : Type 0} (on_line : S → String → Result F S) where
  module _ (idle_timeout hard_deadline : ℕ) where
    abbrev after_verdict : ℕ → List Tick → List String → S → Option Stop → Result F (Reading S)
    after_verdict deadline ticks collected s none =
        read_loop on_line idle_timeout hard_deadline deadline ticks collected s
    after_verdict deadline ticks collected s (some stop) = reading on_line stop collected s

    -- The three ways of a round.
    at_end :
        (idle_deadline : ℕ) (tick : Tick) (ticks : List Tick) (collected : List String) (s : S)
        → tick.got ≡ none
        → read_loop on_line idle_timeout hard_deadline idle_deadline (tick ∷ ticks) collected s
          ≡ reading on_line closed collected s
    unfolding read_loop
    at_end idle_deadline tick ticks collected s e = rw e

    at_fault :
        (idle_deadline : ℕ) (tick : Tick) (ticks : List Tick) (collected : List String) (s : S)
        → (line : String) (e : F) → tick.got ≡ some line
        → handled on_line s line ≡ raised e
        → read_loop on_line idle_timeout hard_deadline idle_deadline (tick ∷ ticks) collected s
          ≡ raised e
    unfolding read_loop
    at_fault idle_deadline tick ticks collected s line e is_line h = ground (arith)

    at_line :
        (idle_deadline : ℕ) (tick : Tick) (ticks : List Tick) (collected : List String) (s s' : S)
        → (line : String) → tick.got ≡ some line
        → handled on_line s line ≡ ok s'
        → read_loop on_line idle_timeout hard_deadline idle_deadline (tick ∷ ticks) collected s
          ≡ after_verdict
              (next_deadline on_line idle_timeout idle_deadline tick line)
              ticks
              (with_line on_line collected line)
              s'
              (round_verdict on_line hard_deadline
                (next_deadline on_line idle_timeout idle_deadline tick line)
                tick)
    unfolding read_loop
    at_line idle_deadline tick ticks collected s s' line is_line h = ground (arith)

    -- The rounds of a loop, one after another.
    pub data Reads : List Tick → ℕ → List String → S → Reading S → Type 0 where
      no_more :
          {d : ℕ} {collected : List String} {s : S} {r : Reading S}
          → reading on_line waits collected s ≡ ok r
          → Reads [] d collected s r
      ends :
          {d : ℕ} {collected : List String} {s : S} {r : Reading S} {tick : Tick}
          → {ticks : List Tick} → tick.got ≡ none
          → reading on_line closed collected s ≡ ok r
          → Reads (tick ∷ ticks) d collected s r
      leaves :
          {d : ℕ} {collected : List String} {s s' : S} {r : Reading S} {tick : Tick}
          → {ticks : List Tick} (line : String) (stop : Stop) → tick.got ≡ some line
          → handled on_line s line ≡ ok s'
          → IsLeaving stop
          → reading on_line stop (with_line on_line collected line) s' ≡ ok r
          → Reads (tick ∷ ticks) d collected s r
      goes_on :
          {d : ℕ} {collected : List String} {s s' : S} {tick : Tick} {ticks : List Tick}
          → {r : Reading S} → (line : String) → tick.got ≡ some line
          → handled on_line s line ≡ ok s'
          → round_verdict on_line hard_deadline
              (next_deadline on_line idle_timeout d tick line)
              tick
            ≡ none
          → Reads ticks
              (next_deadline on_line idle_timeout d tick line)
              (with_line on_line collected line)
              s'
              r
          → Reads (tick ∷ ticks) d collected s r

    stops :
        (deadline : ℕ) (tick : Tick) (stop : Stop)
        → round_verdict on_line hard_deadline deadline tick ≡ some stop
        → IsLeaving stop
    stops deadline tick stop h = (λ e. ground (arith), λ e. ground (arith), λ e. ground (arith))

    abbrev pub Rounds : List Tick → Type 0
    Rounds ticks =
        (d : ℕ) (collected : List String) (s : S) (r : Reading S)
        → read_loop on_line idle_timeout hard_deadline d ticks collected s ≡ ok r
        → Reads ticks d collected s r

    round-Reads : (tick : Tick) (ticks : List Tick) → Rounds ticks → Rounds (tick ∷ ticks)
    round-Reads tick ticks ih d collected s r h = by_got tick.got refl
      where
        by_verdict :
            (line : String) (s' : S) (v : Option Stop)
            → tick.got ≡ some line
            → handled on_line s line ≡ ok s'
            → round_verdict on_line hard_deadline
                (next_deadline on_line idle_timeout d tick line)
                tick
              ≡ v
            → after_verdict
                (next_deadline on_line idle_timeout d tick line)
                ticks
                (with_line on_line collected line)
                s'
                v
              ≡ ok r
            → Reads (tick ∷ ticks) d collected s r
        by_verdict line s' none is_line is_handled is_v h' =
            goes_on line is_line is_handled is_v (ih _ _ _ _ h')
        by_verdict line s' (some stop) is_line is_handled is_v h' =
            leaves line stop is_line is_handled (stops _ tick stop is_v) h'

        by_result :
            (line : String) (x : Result F S)
            → tick.got ≡ some line
            → handled on_line s line ≡ x
            → Reads (tick ∷ ticks) d collected s r
        by_result line (raised e) is_line is_handled =
            ground (arith, at_fault d tick ticks collected s line e is_line is_handled)
        by_result line (ok s') is_line is_handled =
            by_verdict line s'
              (round_verdict on_line hard_deadline (next_deadline on_line idle_timeout d tick line)
                tick)
              is_line is_handled refl
              (sym (at_line d tick ticks collected s s' line is_line is_handled) ∙ h)

        by_got : (got : Option String) → tick.got ≡ got → Reads (tick ∷ ticks) d collected s r
        by_got none e = ends e (sym (at_end d tick ticks collected s e) ∙ h)
        by_got (some line) e = by_result line (handled on_line s line) e refl

    pub read_loop-Reads : (ticks : List Tick) → Rounds ticks
    unfolding read_loop
    read_loop-Reads [] = λ d collected s r h. no_more h
    read_loop-Reads (tick ∷ ticks) = round-Reads tick ticks (read_loop-Reads ticks)
