-- ===== src/Common/Int.antt =====
-- `int` over the native numbers, with `std::to_string`.
use Prim.Native.Nat.{ℕ, zero, suc, ◌+◌, ◌-◌, ◌≤◌, ◌<◌}
use mathlib.Core.Path.{◌≡◌, refl, sym, ap, subst}
use mathlib.Core.Logic.{◌≢◌}
use mathlib.Core.Option.{Option, none, some}
use mathlib.Core.List.{[], ◌∷◌}
use native.Mathlib.Omega.{arith}
use cmm_sdk.Common.Tests.{ltb, if◌then◌else◌}
use cmm_sdk.Common.Lists.{All}
use cmm_sdk.Common.Text.{Text}
use cmm_sdk.Common.Decimal.{IsDigit, to_string, to_string-All, to_string_inj}

-- `negsuc n` is -(n + 1).
pub data ℤ : Type 0 where
  pos : ℕ → ℤ
  negsuc : ℕ → ℤ

unfoldable pub int_to_string : ℤ → Text
int_to_string (pos n) = to_string n
int_to_string (negsuc n) = b'-' ∷ to_string (suc n)

abbrev pub succ : ℤ → ℤ
succ (pos n) = pos (suc n)
succ (negsuc zero) = pos 0
succ (negsuc (suc n)) = negsuc n

-- `x++`; `none` is the overflow at INT_MAX, which is undefined.
unfoldable pub increment : ℤ → Option ℤ
increment (pos n) = if ltb n 2147483647 then some (pos (suc n)) else none
increment (negsuc n) = some (succ (negsuc n))

-- An `int` that can be incremented `k` times.
abbrev pub RoomFor : ℤ → ℕ → Type 0
RoomFor (pos n) k = n + k ≤ 2147483647
RoomFor (negsuc n) k = (n < 2147483648) × (k ≤ 2147483647)

pub increment_room :
    (z : ℤ) (k : ℕ) → RoomFor z (suc k) → (increment z ≡ some (succ z)) × RoomFor (succ z) k
unfolding increment
increment_room (pos n) k h = (ground (arith, h), omega (arith, h))
increment_room (negsuc zero) k h = (refl, omega (arith, h.1))
increment_room (negsuc (suc n)) k h = (refl, (omega (arith, h.0), omega (arith, h.1)))

no_minus : (s t : Text) → All IsDigit s → s ≢ (b'-' ∷ t)
no_minus s t h e = let digit : IsDigit b'-' = (subst (All IsDigit) e h).0 in ground (arith, digit)

tail : Text → Text
tail [] = []
tail (c ∷ s) = s

pub int_to_string_inj : (a b : ℤ) → int_to_string a ≡ int_to_string b → a ≡ b
unfolding int_to_string tail
int_to_string_inj (pos m) (pos n) h = ap pos (to_string_inj m n h)
int_to_string_inj (pos m) (negsuc n) h = absurd (no_minus (to_string m) _ (to_string-All m) h)
int_to_string_inj (negsuc m) (pos n) h = absurd (no_minus (to_string n) _ (to_string-All n) (sym h))
int_to_string_inj (negsuc m) (negsuc n) h =
    let same : suc m ≡ suc n = to_string_inj (suc m) (suc n) (ap tail h) in
    let same_num : m ≡ n = omega (arith, same) in ap negsuc same_num

-- The number `k` places behind `z`.
abbrev pub num : ℤ → ℕ → ℤ
num z zero = z
num z (suc k) = succ (num z k)

-- At least INT_MIN.
abbrev pub IsLow : ℤ → Type 0
IsLow (pos n) = Unit
IsLow (negsuc n) = n < 2147483648

pub RoomFor-IsLow : (z : ℤ) (k : ℕ) → RoomFor z k → IsLow z
RoomFor-IsLow (pos n) k h = tt
RoomFor-IsLow (negsuc n) k h = h.0

rank : ℤ → ℕ
rank (pos n) = 2147483648 + n
rank (negsuc n) = 2147483647 - n

rank-succ : (z : ℤ) → IsLow z → (rank (succ z) ≡ suc (rank z)) × IsLow (succ z)
unfolding rank
rank-succ (pos n) h = (omega arith, tt)
rank-succ (negsuc zero) h = (omega arith, tt)
rank-succ (negsuc (suc n)) h = (omega (arith, h), omega (arith, h))

rank-num : (z : ℤ) (k : ℕ) → IsLow z → (rank (num z k) ≡ rank z + k) × IsLow (num z k)
rank-num z zero h = (omega arith, h)
rank-num z (suc k) h =
    let (same, low) = rank-num z k h in
    let (step, low2) = rank-succ (num z k) low in (omega (arith, same, step), low2)

pub num_inj : (z : ℤ) (i j : ℕ) → IsLow z → num z i ≡ num z j → i ≡ j
num_inj z i j h e =
    let a = (rank-num z i h).0 in
    let b = (rank-num z j h).0 in
    let same : rank (num z i) ≡ rank (num z j) = ap rank e in omega (arith, a, b, same)
