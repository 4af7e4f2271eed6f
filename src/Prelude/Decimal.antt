-- ===== src/Prelude/Decimal.antt =====
-- Python's `str` of an integer, and letters of a text in lower case.
use Prim.Native.String.{String, [], ◌∷◌, ◌++◌}
use Prim.Native.Char.{Char}
use lore_eden.Prelude.{ℕ, zero, suc, ◌/◌, ◌%◌, ltb, if◌then◌else◌}
use lore_eden.Prelude.Int.{ℤ, pos, negsuc}

abbrev digit_of : ℕ → Char
digit_of zero = "0"
digit_of (suc zero) = "1"
digit_of (suc (suc zero)) = "2"
digit_of (suc (suc (suc zero))) = "3"
digit_of (suc (suc (suc (suc zero)))) = "4"
digit_of (suc (suc (suc (suc (suc zero))))) = "5"
digit_of (suc (suc (suc (suc (suc (suc zero)))))) = "6"
digit_of (suc (suc (suc (suc (suc (suc (suc zero))))))) = "7"
digit_of (suc (suc (suc (suc (suc (suc (suc (suc zero)))))))) = "8"
digit_of _ = "9"

-- One unit of fuel for a digit: a number has at most as many digits as itself and one more.
unfoldable pub emit : ℕ → ℕ → String → String
emit zero n out = out
emit (suc fuel) n out =
    let longer = digit_of (n % 10) ∷ out in
    let rest = emit fuel (n / 10) longer in if ltb n 10 then longer else rest

-- str(n)
unfoldable pub decimal : ℕ → String
unfolding emit
decimal n = emit (suc n) n []

unfoldable pub decimal_ℤ : ℤ → String
unfolding decimal
decimal_ℤ (pos n) = decimal n
decimal_ℤ (negsuc n) = "-" ++ decimal (suc n)
