-- ===== src/Util/Validate/Clock/Exact.antt =====
-- Which texts the date and time validators accept.
use cmm_sdk.Common.{ℕ, ◌+◌, ◌-◌, ◌*◌, ◌/◌, ◌%◌, ◌≤◌, ◌≡◌, ◌↔◌, true, List, [], ◌∷◌, arith}
use cmm_sdk.Common.Text.{Text}
use cmm_sdk.Util.Split.{string_split}
use cmm_sdk.Util.Split.Fields.{fields, nonempty, string_split-fields}
use cmm_sdk.Util.Validate.Clock.{
  validate_year, validate_month, validate_day, validate_hour, validate_minute, date_parts,
  validate_date, time_parts, validate_time,
}

-- The two digits of a number below 100.
abbrev pub two_digits : ℕ → Text
two_digits n = (b'0' + n / 10) ∷ (b'0' + n % 10) ∷ []

-- The text is the two digits of a number from `lo` to `hi`.
abbrev pub IsTwoDigits : ℕ → ℕ → Text → Type 0
IsTwoDigits lo hi s = (n : ℕ) × (lo ≤ n) × (n ≤ hi) × (s ≡ two_digits n)

abbrev number : ℕ → ℕ → ℕ
number a b = (a - b'0') * 10 + (b - b'0')

month_exact : (s : Text) → (validate_month s ≡ true) ↔ IsTwoDigits 1 12 s
unfolding validate_month
month_exact (a ∷ b ∷ []) =
    (λ h. (number a b, ground arith, ground arith, ground arith), λ t. ground arith)
month_exact [] = (λ h. cc, λ t. cc t.3)
month_exact _ = (λ h. cc, λ t. ground arith)

day_exact : (s : Text) → (validate_day s ≡ true) ↔ IsTwoDigits 1 31 s
unfolding validate_day
day_exact (a ∷ b ∷ []) =
    (λ h. (number a b, ground arith, ground arith, ground arith), λ t. ground arith)
day_exact [] = (λ h. cc, λ t. cc t.3)
day_exact _ = (λ h. cc, λ t. ground arith)

hour_exact : (s : Text) → (validate_hour s ≡ true) ↔ IsTwoDigits 0 23 s
unfolding validate_hour
hour_exact (a ∷ b ∷ []) =
    (λ h. (number a b, ground arith, ground arith, ground arith), λ t. ground arith)
hour_exact [] = (λ h. cc, λ t. cc t.3)
hour_exact _ = (λ h. cc, λ t. ground arith)

minute_exact : (s : Text) → (validate_minute s ≡ true) ↔ IsTwoDigits 0 59 s
unfolding validate_minute
minute_exact (a ∷ b ∷ []) =
    (λ h. (number a b, ground arith, ground arith, ground arith), λ t. ground arith)
minute_exact [] = (λ h. cc, λ t. cc t.3)
minute_exact _ = (λ h. cc, λ t. ground arith)

-- The four digits of a number below 10000.
abbrev pub IsYear : Text → Type 0
IsYear s =
    (n : ℕ) × (n ≤ 9999) × (s ≡ (b'0' + n / 1000) ∷ (b'0' + n / 100 % 10) ∷ two_digits (n % 100))

abbrev number4 : ℕ → ℕ → ℕ → ℕ → ℕ
number4 a b c d = number a b * 100 + number c d

IsYear-exact : (s : Text) → (validate_year s ≡ true) ↔ IsYear s
unfolding validate_year
IsYear-exact (a ∷ b ∷ c ∷ d ∷ []) =
    (λ h. (number4 a b c d, ground arith, ground arith), λ t. ground arith)
IsYear-exact [] = (λ h. cc, λ t. cc t.2)
IsYear-exact _ = (λ h. cc, λ t. ground arith)

-- A date as its three fields.
abbrev pub IsDate : List Text → Type 0
IsDate (y ∷ m ∷ d ∷ []) = IsYear y × IsTwoDigits 1 12 m × IsTwoDigits 1 31 d
IsDate _ = ⊥

abbrev pub IsTime : List Text → Type 0
IsTime (h ∷ m ∷ s ∷ []) = IsTwoDigits 0 23 h × IsTwoDigits 0 59 m × IsTwoDigits 0 59 s
IsTime _ = ⊥

date_parts_exact : (ts : List Text) → (date_parts ts ≡ true) ↔ IsDate ts
unfolding date_parts
date_parts_exact (y ∷ m ∷ d ∷ []) = (
  λ h. (
    (IsYear-exact y).0 (ground arith),
    (month_exact m).0 (ground arith),
    (day_exact d).0 (ground arith),
  ),
  λ t. ground (arith, (IsYear-exact y).1 t.0, (month_exact m).1 t.1, (day_exact d).1 t.2),
)
date_parts_exact [] = (λ h. cc, λ t. absurd t)
date_parts_exact _ = (λ h. cc, λ t. absurd t)

time_parts_exact : (ts : List Text) → (time_parts ts ≡ true) ↔ IsTime ts
unfolding time_parts
time_parts_exact (h ∷ m ∷ s ∷ []) = (
  λ e. (
    (hour_exact h).0 (ground arith),
    (minute_exact m).0 (ground arith),
    (minute_exact s).0 (ground arith),
  ),
  λ t. ground (arith, (hour_exact h).1 t.0, (minute_exact m).1 t.1, (minute_exact s).1 t.2),
)
time_parts_exact [] = (λ h. cc, λ t. absurd t)
time_parts_exact _ = (λ h. cc, λ t. absurd t)

-- A text is taken for a date exactly when its fields between dashes, the empty ones dropped, are a
-- year of four digits, a month from 01 to 12 and a day from 01 to 31.
pub validate_date_exact : (s : Text) → (validate_date s ≡ true) ↔ IsDate (nonempty (fields b'-' s))
unfolding validate_date
validate_date_exact s = rw (← string_split-fields s b'-') (date_parts_exact (string_split s b'-'))

-- A text is taken for a time exactly when its fields between colons, the empty ones dropped, are an
-- hour from 00 to 23, a minute and a second from 00 to 59.
pub validate_time_exact : (s : Text) → (validate_time s ≡ true) ↔ IsTime (nonempty (fields b':' s))
unfolding validate_time
validate_time_exact s = rw (← string_split-fields s b':') (time_parts_exact (string_split s b':'))
