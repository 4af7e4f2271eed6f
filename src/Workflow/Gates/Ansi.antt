-- ===== src/Workflow/Gates/Ansi.antt =====
-- `strip_ansi` of python/lore_eden/workflow/gates.py: dropping colour and cursor codes,
-- `\x1b\[[0-9;]*[A-Za-z]`.
use Prim.Native.String.{String, [], ◌∷◌}
use Prim.Native.Char.{code}
use lore_eden.Prelude.{
  ℕ, zero, suc, Bool, ◌&&◌, ◌||◌, Option, none, some, leb, nat_eq, if◌then◌else◌,
}

abbrev is_parameter : ℕ → Bool
is_parameter n = (leb 48 n && leb n 57) || nat_eq n 59

abbrev is_letter : ℕ → Bool
is_letter n = (leb 65 n && leb n 90) || (leb 97 n && leb n 122)

-- How many characters `[0-9;]*[A-Za-z]` takes, after `before` of them.
unfoldable pub parameters_end : ℕ → String → Option ℕ
parameters_end before [] = none
parameters_end before (c ∷ s) =
    let rest = parameters_end (suc before) s in
    if is_parameter (code c) then rest else if is_letter (code c) then some (suc before) else none

-- How many characters the whole pattern takes, behind an escape character.
abbrev pub code_end : String → Option ℕ
code_end [] = none
code_end (c ∷ s) = if nat_eq (code c) 91 then parameters_end 1 s else none

-- The text with each code dropped; the number counts the characters of a code still to be dropped.
unfoldable pub without_codes : ℕ → String → String
without_codes skip [] = []
without_codes (suc skip) (c ∷ s) = without_codes skip s
without_codes zero (c ∷ s) = elim (if nat_eq (code c) 27 then code_end s else none) [
  | none ↦ c ∷ without_codes zero s
  | some taken ↦ without_codes taken s
]

unfoldable pub strip_ansi : String → String
unfolding without_codes parameters_end
strip_ansi text = without_codes zero text
