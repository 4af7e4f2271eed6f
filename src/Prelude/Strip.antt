-- ===== src/Prelude/Strip.antt =====
-- Python's `str.strip`.
use Prim.Native.String.{String, [], ◌∷◌}
use Prim.Native.Char.{code}
use lore_eden.Prelude.{ℕ, Bool, ◌&&◌, ◌||◌, leb, nat_eq, if◌then◌else◌}

abbrev between : ℕ → ℕ → ℕ → Bool
between low high n = leb low n && leb n high

-- The characters that Python counts as whitespace, by code point.
abbrev is_space : ℕ → Bool
is_space n =
    (between 9 13 n || between 28 32 n)
    || ((nat_eq n 133 || nat_eq n 160)
        || ((nat_eq n 5760 || between 8192 8202 n)
            || ((between 8232 8233 n || nat_eq n 8239) || (nat_eq n 8287 || nat_eq n 12288))))

unfoldable pub drop_spaces : String → String
drop_spaces [] = []
drop_spaces (c ∷ s) = if is_space (code c) then drop_spaces s else c ∷ s

unfoldable pub reverse_onto : String → String → String
reverse_onto [] s = s
reverse_onto (c ∷ r) s = reverse_onto r (c ∷ s)

-- s.strip()
unfoldable pub strip : String → String
strip s = reverse_onto (drop_spaces (reverse_onto (drop_spaces s) [])) []
