-- ===== src/Common/Decimal.antt =====
-- `std::to_string` of an unsigned number and the value of a text of digits.
use Prim.Native.Nat.{ℕ, zero, suc, ◌+◌, ◌-◌, ◌*◌, ◌/◌, ◌%◌, ◌≤◌, ◌<◌}
use mathlib.Core.Path.{◌≡◌, refl, sym, ap, ◌∙◌}
use mathlib.Core.Logic.{inl, inr}
use mathlib.Core.Bool.{Bool, false}
use mathlib.Core.List.{[], ◌∷◌, ◌++◌}
use native.Mathlib.Omega.{arith}
use cmm_sdk.Common.Tests.{ltb, within, if◌then◌else◌, Bool-cases}
use cmm_sdk.Common.Lists.{All, All-append}
use cmm_sdk.Common.Text.{Text, is_empty}

abbrev pub is_digit : ℕ → Bool
is_digit = within b'0' b'9'

abbrev pub IsDigit : ℕ → Type 0
IsDigit c = (b'0' ≤ c) × (c ≤ b'9')

unfoldable pub value_from : ℕ → Text → ℕ
value_from acc [] = acc
value_from acc (c ∷ s) = value_from (acc * 10 + (c - b'0')) s

-- The number that a text of digits stands for.
unfoldable pub value : Text → ℕ
unfolding value_from
value = value_from 0

unfoldable pub digits : ℕ → ℕ → Text
digits zero n = []
digits (suc fuel) n =
    let front = digits fuel (n / 10) in
    if ltb n 10 then (b'0' + n) ∷ [] else front ++ (b'0' + n % 10) ∷ []

-- A number has no more digits than its value and one.
unfoldable pub to_string : ℕ → Text
unfolding digits
to_string n = digits (suc n) n

value_from-append :
    (acc : ℕ) (s t : Text) → value_from acc (s ++ t) ≡ value_from (value_from acc s) t
unfolding value_from
value_from-append acc [] t = refl
value_from-append acc (c ∷ s) t = value_from-append (acc * 10 + (c - b'0')) s t

value-digits : (fuel n : ℕ) → n < fuel → value_from 0 (digits fuel n) ≡ n
unfolding value_from digits
value-digits zero n h = elim h [ ]
value-digits (suc fuel) n h = ground (
  arith,
  value-digits fuel (n / 10),
  value_from-append 0 (digits fuel (n / 10)) ((b'0' + n % 10) ∷ []),
)

digits-All : (fuel n : ℕ) → All IsDigit (digits fuel n)
unfolding digits
digits-All zero n = tt
digits-All (suc fuel) n = elim (Bool-cases (ltb n 10)) [
  | inl h ↦ rw (h, digits) ((omega arith, ground arith), tt)
  | inr h ↦
      rw (h, digits)
        (All-append IsDigit (digits fuel (n / 10)) ((b'0' + n % 10) ∷ []) (digits-All fuel (n / 10))
          ((omega arith, omega arith), tt))
]

append-ne-nil : (s : Text) (c : ℕ) → is_empty (s ++ c ∷ []) ≡ false
unfolding is_empty
append-ne-nil [] c = refl
append-ne-nil (x ∷ s) c = refl

digits-is_empty : (fuel n : ℕ) → is_empty (digits (suc fuel) n) ≡ false
unfolding digits is_empty
digits-is_empty fuel n = ground (arith, append-ne-nil (digits fuel (n / 10)) (b'0' + n % 10))

-- Reading back a printed number.
pub value-to_string : (n : ℕ) → value (to_string n) ≡ n
unfolding value to_string
value-to_string n = value-digits (suc n) n (omega arith)

pub to_string-All : (n : ℕ) → All IsDigit (to_string n)
unfolding to_string
to_string-All n = digits-All (suc n) n

pub to_string-is_empty : (n : ℕ) → is_empty (to_string n) ≡ false
unfolding to_string
to_string-is_empty n = digits-is_empty n n

pub to_string_inj : (m n : ℕ) → to_string m ≡ to_string n → m ≡ n
to_string_inj m n h = sym (value-to_string m) ∙ ap value h ∙ value-to_string n

-- The digits at the start of a text.
unfoldable pub leading_digits : Text → Text
leading_digits [] = []
leading_digits (c ∷ s) = let ds = leading_digits s in if is_digit c then c ∷ ds else []

pub leading_digits-All : (s : Text) → All IsDigit s → leading_digits s ≡ s
unfolding leading_digits
leading_digits-All [] h = refl
leading_digits-All (c ∷ s) h = ground (arith, leading_digits-All s h.1)
