-- ===== src/Runner/Report/Spelling.antt =====
-- How REPORT_PATTERN's verdicts are spelled (python/lore_eden/runner/report.py).
use Prim.Native.String
use Prim.Native.String.{◌∷◌}
use Prim.Native.Char.{Char, code}
use lore_eden.Prelude.{
  ℕ, zero, suc, ◌-◌, String, ◌≡◌, ◌≢◌, Bool, true, false, Option, none, some, List, arith, inl, inr,
  All, Bool-cases, subst, ap, ◌∙◌, if◌then◌else◌, nat_eq,
}
use lore_eden.Prelude.Result.{ok}
use lore_eden.Prelude.Strip.{drop_spaces}
use lore_eden.Prelude.Codes.{codes, lower_code}
use lore_eden.Workflow.Models.{default}
use lore_eden.Agents.Outcome.{BridgeOutcome}
use lore_eden.Runner.Report.Pattern.{
  Match, letter_is, after_word, first_chars, ends_word, verdict_match, first_of, behind_marker,
  match_at, find_all,
}
use lore_eden.Runner.Report.{StageReport, outcome_of, parse_report, read}
use lore_eden.Runner.Report.Reader.{last, last_report-last, read-parsed}

lower_code-p : (n : ℕ) → letter_is 112 n ≡ true → lower_code n ≡ List.◌∷◌ 112 List.[]
lower_code-p n h = ground arith

lower_code-r : (n : ℕ) → letter_is 114 n ≡ true → lower_code n ≡ List.◌∷◌ 114 List.[]
lower_code-r n h = ground arith

outcome_of-p :
    (c : Char) (s : String) → letter_is 112 (code c) ≡ true → outcome_of (c ∷ s) ≢ some default
unfolding outcome_of
outcome_of-p c s h e = ground (arith, lower_code-p (code c))

outcome_of-r :
    (c : Char) (s : String) → letter_is 114 (code c) ≡ true → outcome_of (c ∷ s) ≢ some default
unfolding outcome_of
outcome_of-r c s h e = ground (arith, lower_code-r (code c))

-- The verdict is not "default".
abbrev IsSpelled : Match → Type 0
IsSpelled m = outcome_of m.verdict ≢ some default

abbrev IsSpelledOption : Option Match → Type 0
IsSpelledOption none = Unit
IsSpelledOption (some m) = IsSpelled m

module _ (is_word : ℕ → Bool) where
  verdict_match-IsSpelled :
      (n : ℕ) (s : String) (o : Option String)
      → outcome_of (first_chars n s) ≢ some default
      → IsSpelledOption (verdict_match is_word n s o)
  verdict_match-IsSpelled n s none h = tt
  verdict_match-IsSpelled n s (some rest) h = elim (Bool-cases (ends_word is_word rest)) [
    | inl e ↦ rw e h
    | inr e ↦ rw e tt
  ]

  -- A word that the text does not start with gives no verdict.
  passes-IsSpelled :
      (s : String) → IsSpelledOption (verdict_match is_word 4 s (after_word (codes "pass") s))
  unfolding after_word first_chars
  passes-IsSpelled String.[] = tt
  passes-IsSpelled (c ∷ s) = elim (Bool-cases (letter_is 112 (code c))) [
    | inl e ↦ verdict_match-IsSpelled 4 (c ∷ s) _ (outcome_of-p c (first_chars 3 s) e)
    | inr e ↦ rw e tt
  ]

  rejects-IsSpelled :
      (s : String) → IsSpelledOption (verdict_match is_word 6 s (after_word (codes "reject") s))
  unfolding after_word first_chars
  rejects-IsSpelled String.[] = tt
  rejects-IsSpelled (c ∷ s) = elim (Bool-cases (letter_is 114 (code c))) [
    | inl e ↦ verdict_match-IsSpelled 6 (c ∷ s) _ (outcome_of-r c (first_chars 5 s) e)
    | inr e ↦ rw e tt
  ]

  first_of-IsSpelled :
      (a b : Option Match)
      → IsSpelledOption a
      → IsSpelledOption b
      → IsSpelledOption (first_of is_word a b)
  first_of-IsSpelled none b h k = k
  first_of-IsSpelled (some m) b h k = h

  behind_marker-IsSpelled : (o : Option String) → IsSpelledOption (behind_marker is_word o)
  behind_marker-IsSpelled none = tt
  behind_marker-IsSpelled (some s) =
      first_of-IsSpelled _ _ (passes-IsSpelled (drop_spaces s)) (rejects-IsSpelled (drop_spaces s))

  match_at-IsSpelled : (s : String) → IsSpelledOption (match_at is_word s)
  unfolding match_at
  match_at-IsSpelled s =
      behind_marker-IsSpelled (after_word (codes "stage-outcome:") (drop_spaces s))

  here_if : (b : Bool) (s : String) → IsSpelledOption (if b then match_at is_word s else none)
  here_if true s = match_at-IsSpelled s
  here_if false s = tt

  -- No verdict that `findall` returns is spelled like another outcome than PASS and REJECT.
  pub find_all-IsSpelled :
      (is_start : Bool) (skip : ℕ) (s : String) → All IsSpelled (find_all is_word is_start skip s)
  unfolding find_all
  find_all-IsSpelled b skip String.[] = tt
  find_all-IsSpelled b (suc skip) (c ∷ s) = find_all-IsSpelled (nat_eq (code c) 10) skip s
  find_all-IsSpelled b zero (c ∷ s) =
      go (if b then match_at is_word (c ∷ s) else none) (here_if b (c ∷ s))
        (λ skip. find_all-IsSpelled (nat_eq (code c) 10) skip s)
    where
      go :
          (o : Option Match)
          → IsSpelledOption o
          → ((skip : ℕ) → All IsSpelled (find_all is_word (nat_eq (code c) 10) skip s))
          → All IsSpelled (elim o [
            | none ↦ find_all is_word (nat_eq (code c) 10) zero s
            | some m ↦
                List.◌∷◌ m
                  (find_all is_word (nat_eq (code c) 10) (String.count s - String.count m.rest) s)
          ])
      go none h ih = ih zero
      go (some m) h ih = (h, ih _)

-- The default reader never answers DEFAULT.
module _ (is_word : ℕ → Bool) {Decision : Type 0} (o : BridgeOutcome Decision)
    (r : StageReport) where
  last-IsSpelled : (ms : List Match) → All IsSpelled ms → IsSpelledOption (last ms)
  last-IsSpelled List.[] h = tt
  last-IsSpelled (List.◌∷◌ m List.[]) h = h.0
  last-IsSpelled (List.◌∷◌ m (List.◌∷◌ n ms)) h = last-IsSpelled (List.◌∷◌ n ms) h.1

  pub read-ne_default : read is_word o ≡ ok r → r.outcome ≢ default
  unfolding parse_report
  read-ne_default h e =
      let (m, is_last, verdict) =
        last_report-last (find_all is_word true 0 o.result.stdout) r
          (read-parsed is_word o r h (ground (arith, e))).3 in
      subst IsSpelledOption is_last
        (last-IsSpelled (find_all is_word true 0 o.result.stdout)
          (find_all-IsSpelled is_word true 0 o.result.stdout))
        (verdict ∙ ap some e)
