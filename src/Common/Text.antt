-- ===== src/Common/Text.antt =====
-- Texts as lists of bytes, with the searches of `std::string` that the program calls.
use Prim.Native.Nat.{ℕ, suc}
use Prim.Native.Char.{code}
use Prim.Native.String.{String}
use mathlib.Core.Path.{◌≡◌, refl}
use mathlib.Core.Logic.{◌↔◌, ◌≢◌}
use mathlib.Core.Bool.{Bool, true, false, ◌&&◌, ◌||◌}
use mathlib.Core.List.{List, [], ◌∷◌, ◌++◌}
use mathlib.Core.Option.{Option, none, some}
use native.Mathlib.Omega.{arith}
use cmm_sdk.Common.Tests.{◌==◌, if◌then◌else◌}
use cmm_sdk.Common.Lists.{All, length, drop}

abbrev pub Text : Type 0
Text = List ℕ

-- The bytes of a literal; every literal of the program is ASCII.
abbrev pub codes : String → Text
codes String.[] = []
codes (String.◌∷◌ c s) = code c ∷ codes s

unfoldable pub text_eq : Text → Text → Bool
text_eq [] [] = true
text_eq (x ∷ xs) (y ∷ ys) = x == y && text_eq xs ys
text_eq _ _ = false

pub text_eq_iff : (s t : Text) → (text_eq s t ≡ true) ↔ (s ≡ t)
unfolding text_eq
text_eq_iff [] [] = ground arith
text_eq_iff [] (y ∷ ys) = ground arith
text_eq_iff (x ∷ xs) [] = ground arith
text_eq_iff (x ∷ xs) (y ∷ ys) = ground (arith, text_eq_iff xs ys)

pub text_eq_refl : (s : Text) → text_eq s s ≡ true
text_eq_refl s = (text_eq_iff s s).1 refl

unfoldable pub is_empty : Text → Bool
is_empty [] = true
is_empty (c ∷ s) = false

-- `find` on a vector of texts.
unfoldable pub contains : List Text → Text → Bool
contains [] t = false
contains (x ∷ xs) t = text_eq x t || contains xs t

-- The text has no byte `d`.
abbrev pub IsFree : ℕ → Text → Type 0
IsFree d = All (λ c. c ≢ d)

-- `find` of a character: its first position.
unfoldable pub find_char : ℕ → Text → Option ℕ
find_char d [] = none
find_char d (c ∷ s) =
    if c == d then some 0 else elim (find_char d s) [ none ↦ none | some i ↦ some (suc i) ]

unfoldable pub is_prefix : Text → Text → Bool
is_prefix [] s = true
is_prefix (p ∷ ps) [] = false
is_prefix (p ∷ ps) (c ∷ s) = p == c && is_prefix ps s

abbrev pub bump : Option ℕ → Option ℕ
bump none = none
bump (some i) = some (suc i)

abbrev pub or_else : Option ℕ → Option ℕ → Option ℕ
or_else none o = o
or_else (some i) o = some i

abbrev pub here_if : Bool → Option ℕ
here_if true = some 0
here_if false = none

-- `find` of a text: the first position at which it stands.
unfoldable pub find : Text → Text → Option ℕ
find p [] = here_if (is_prefix p [])
find p (c ∷ s) = or_else (here_if (is_prefix p (c ∷ s))) (bump (find p s))

-- `rfind`: the last such position.
unfoldable pub rfind : Text → Text → Option ℕ
rfind p [] = here_if (is_prefix p [])
rfind p (c ∷ s) = or_else (bump (rfind p s)) (here_if (is_prefix p (c ∷ s)))

pub text_eq_ne : (s t : Text) → s ≢ t → text_eq s t ≡ false
text_eq_ne s t h = ground (arith, text_eq_iff s t)

-- A prefix, and what stands behind it.
pub is_prefix-append : (p s : Text) → is_prefix p s ≡ true → s ≡ p ++ drop (length p) s
unfolding is_prefix
is_prefix-append [] s h = refl
is_prefix-append (x ∷ p) [] h = cc
is_prefix-append (x ∷ p) (c ∷ s) h = ground (arith, is_prefix-append p s)
