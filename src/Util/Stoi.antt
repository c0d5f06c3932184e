-- ===== src/Util/Stoi.antt =====
-- `improved_stoi` of src/util.cpp: `stoi`, with 0 for a text that it cannot read.
use cmm_sdk.Common.{
  ℕ, ◌-◌, Bool, ◌||◌, Option, none, some, [], ◌∷◌, ◌==◌, leb, within, if◌then◌else◌,
}
use cmm_sdk.Common.Text.{Text, is_empty}
use cmm_sdk.Common.Decimal.{leading_digits, value}
use cmm_sdk.Common.Int.{ℤ}

-- `isspace`
abbrev pub is_space : ℕ → Bool
is_space c = c == b' ' || within 9 13 c

unfoldable pub skip_blanks : Text → Text
skip_blanks [] = []
skip_blanks (c ∷ s) = let rest = skip_blanks s in if is_space c then rest else c ∷ s

-- The digits behind the sign: none of them is the `invalid_argument` that gives 0, and `none` is
-- `out_of_range`, which is not caught.
unfoldable pub stoi_pos : Text → Option ℤ
stoi_pos ds =
    if is_empty ds
    then some (ℤ.pos 0)
    else if leb (value ds) 2147483647
    then some (ℤ.pos (value ds))
    else none

unfoldable pub stoi_neg : Text → Option ℤ
stoi_neg ds =
    if is_empty ds || value ds == 0
    then some (ℤ.pos 0)
    else if leb (value ds) 2147483648
    then some (ℤ.negsuc (value ds - 1))
    else none

unfoldable pub stoi_signed : Text → Option ℤ
stoi_signed [] = some (ℤ.pos 0)
stoi_signed (c ∷ s) =
    if c == b'-'
    then stoi_neg (leading_digits s)
    else if c == b'+'
    then stoi_pos (leading_digits s)
    else stoi_pos (leading_digits (c ∷ s))

unfoldable pub improved_stoi : Text → Option ℤ
improved_stoi str = stoi_signed (skip_blanks str)
