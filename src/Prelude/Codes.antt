-- ===== src/Prelude/Codes.antt =====
-- Texts as their code points: the lower case of a text as far as ASCII texts sought in it can tell,
-- and Python's `in` for texts.
use Prim.Native.Char.{code}
use lore_eden.Prelude.{
  ℕ, ◌+◌, String, Bool, true, false, ◌&&◌, ◌||◌, List, [], ◌∷◌, ◌++◌, leb, nat_eq, if◌then◌else◌,
}

abbrev pub codes : String → List ℕ
codes String.[] = []
codes (String.◌∷◌ c s) = code c ∷ codes s

-- `c.lower()` for the characters whose lower case has an ASCII letter: A to Z, the dotted I and the
-- Kelvin sign. Any other character is kept, and is no ASCII character before or after.
abbrev pub lower_code : ℕ → List ℕ
lower_code n =
    if leb 65 n && leb n 90
    then (n + 32) ∷ []
    else if nat_eq n 304
    then 105 ∷ 775 ∷ []
    else if nat_eq n 8490
    then 107 ∷ []
    else n ∷ []

unfoldable pub lower : List ℕ → List ℕ
lower [] = []
lower (n ∷ s) = lower_code n ++ lower s

unfoldable pub begins_with : List ℕ → List ℕ → Bool
begins_with [] s = true
begins_with (m ∷ needle) [] = false
begins_with (m ∷ needle) (n ∷ s) = nat_eq m n && begins_with needle s

-- needle in s
unfoldable pub occurs : List ℕ → List ℕ → Bool
unfolding begins_with
occurs needle [] = begins_with needle []
occurs needle (n ∷ s) = begins_with needle (n ∷ s) || occurs needle s

-- s == t
unfoldable pub equal : List ℕ → List ℕ → Bool
equal [] [] = true
equal (m ∷ s) (n ∷ t) = nat_eq m n && equal s t
equal s t = false
