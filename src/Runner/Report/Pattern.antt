-- ===== src/Runner/Report/Pattern.antt =====
-- REPORT_PATTERN of python/lore_eden/runner/report.py,
-- `^\s*STAGE-OUTCOME:\s*(pass|reject)\b[ \t]*(.*)$` with IGNORECASE and MULTILINE, and its `findall`.
use Prim.Native.String.{String, [], ◌∷◌, count}
use Prim.Native.Char.{code}
use lore_eden.Prelude.{
  ℕ, zero, suc, ◌+◌, ◌-◌, Bool, true, not, ◌&&◌, ◌||◌, Option, none, some, leb, nat_eq,
  if◌then◌else◌,
}
use lore_eden.Prelude.{List}
use lore_eden.Prelude.Codes.{codes}
use lore_eden.Prelude.Strip.{drop_spaces}

-- A character of the text matches a letter of the pattern without regard to case; the long s
-- matches an s, too.
abbrev pub letter_is : ℕ → ℕ → Bool
letter_is m n =
    nat_eq (if leb 65 n && leb n 90 then n + 32 else n) m || (nat_eq m 115 && nat_eq n 383)

-- What follows a word of the pattern, given by the codes of its letters in lower case.
unfoldable pub after_word : List ℕ → String → Option String
after_word List.[] s = some s
after_word (List.◌∷◌ m word) [] = none
after_word (List.◌∷◌ m word) (c ∷ s) = if letter_is m (code c) then after_word word s else none

unfoldable pub drop_blanks : String → String
drop_blanks [] = []
drop_blanks (c ∷ s) = if nat_eq (code c) 32 || nat_eq (code c) 9 then drop_blanks s else c ∷ s

-- `(.*)$`: the rest of the line, and what follows it
unfoldable pub line_of : String → String
line_of [] = []
line_of (c ∷ s) = if nat_eq (code c) 10 then [] else c ∷ line_of s

unfoldable pub after_line : String → String
after_line [] = []
after_line (c ∷ s) = if nat_eq (code c) 10 then c ∷ s else after_line s

unfoldable pub first_chars : ℕ → String → String
first_chars zero s = []
first_chars (suc n) [] = []
first_chars (suc n) (c ∷ s) = c ∷ first_chars n s

-- The two groups of a match, and what follows it.
pub record Match : Type 0 where
  pub verdict : String
  pub summary : String
  pub rest : String

-- `is_word` tells the characters of `\w`.
module _ (is_word : ℕ → Bool) where
  -- `\b` behind a letter
  abbrev pub ends_word : String → Bool
  ends_word [] = true
  ends_word (c ∷ s) = not (is_word (code c))

  -- A verdict of a given length, with what follows it.
  abbrev pub verdict_match : ℕ → String → Option String → Option Match
  verdict_match n s none = none
  verdict_match n s (some rest) =
      if ends_word rest
      then some (record {
        verdict = first_chars n s;
        summary = line_of (drop_blanks rest);
        rest = after_line (drop_blanks rest);
      })
      else none

  abbrev pub first_of : Option Match → Option Match → Option Match
  first_of (some m) other = some m
  first_of none other = other

  -- (pass|reject)\b[ \t]*(.*)$
  abbrev pub verdict_at : String → Option Match
  verdict_at s =
      first_of (verdict_match 4 s (after_word (codes "pass") s))
        (verdict_match 6 s (after_word (codes "reject") s))

  abbrev pub behind_marker : Option String → Option Match
  behind_marker none = none
  behind_marker (some s) = verdict_at (drop_spaces s)

  -- The match of the whole pattern that starts at the start of a line.
  unfoldable pub match_at : String → Option Match
  unfolding after_word drop_blanks line_of after_line first_chars
  match_at s = behind_marker (after_word (codes "stage-outcome:") (drop_spaces s))

  -- `findall`, from a place that is or is not the start of a line, and behind a match of which the
  -- given number of characters is still to come.
  unfoldable pub find_all : Bool → ℕ → String → List Match
  find_all is_start skip [] = List.[]
  find_all is_start (suc skip) (c ∷ s) = find_all (nat_eq (code c) 10) skip s
  find_all is_start zero (c ∷ s) = elim (if is_start then match_at (c ∷ s) else none) [
    | none ↦ find_all (nat_eq (code c) 10) zero s
    | some m ↦ List.◌∷◌ m (find_all (nat_eq (code c) 10) (count s - count m.rest) s)
  ]
