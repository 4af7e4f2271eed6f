-- ===== src/Ledger/Agreement/Examples.antt =====
-- A sum of payloads, replayed between events of two streams.
use lore_eden.Prelude.{
  ℕ, ◌+◌, String, ◌≡◌, refl, sym, ◌∙◌, Bool, ◌&&◌, List, [], ◌∷◌, ◌==◌, eq_iff, arith,
}
use lore_eden.Prelude.Result.{ok}
use lore_eden.Cache.{empty}
use lore_eden.Ledger.{LedgerEvent}
use lore_eden.Ledger.Examples.{plain, request}
use lore_eden.Ledger.Projections.{HasOwnKeys}
use lore_eden.Ledger.Agreement.{LedgerStep, note, ask, answers, direct_answers, replays_agree}

abbrev asked : String → String → Bool
asked i t = i == "a" && t == "work_item"

abbrev total : ℕ → LedgerEvent plain → ℕ
total s e = s + e.payload

own_keys : HasOwnKeys plain "total" total 0 asked
own_keys i j t u named named' same = (
  (eq_iff i "a").0 (ground (arith, named)) ∙ sym ((eq_iff j "a").0 (ground (arith, named'))),
  (eq_iff t "work_item").0 (ground (arith, named))
      ∙ sym ((eq_iff u "work_item").0 (ground (arith, named'))),
)

abbrev steps : List (LedgerStep plain)
steps =
    note (request "k1" "a" 5)
    ∷ ask "a" "work_item"
    ∷ note (request "k2" "b" 7)
    ∷ ask "a" "work_item"
    ∷ note (request "k3" "a" 6)
    ∷ ask "a" "work_item"
    ∷ []

replays_agree_example :
    answers plain "total" total 0 asked [] empty steps
    ≡ ok (direct_answers plain "total" total 0 asked [] steps)
replays_agree_example =
    replays_agree plain "total" total 0 asked own_keys steps (refl, (refl, (refl, tt)))
