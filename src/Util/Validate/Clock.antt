-- ===== src/Util/Validate/Clock.antt =====
-- `validateDate`, `validateTime` and their parts, of src/util.cpp. Text printed to the console is
-- left out.
pub mod Exact
use cmm_sdk.Common.{
  ℕ, zero, suc, Bool, true, false, not, ◌&&◌, ◌||◌, List, [], ◌∷◌, ◌==◌, within, if◌then◌else◌,
}
use cmm_sdk.Common.Text.{Text}
use cmm_sdk.Common.Decimal.{is_digit}
use cmm_sdk.Util.Split.{string_split}

-- `str.length() != 4`, then a loop over the four characters
unfoldable pub validate_year : Text → Bool
validate_year (a ∷ b ∷ c ∷ d ∷ []) =
    if not (is_digit a)
    then false
    else if not (is_digit b)
    then false
    else if not (is_digit c)
    then false
    else if not (is_digit d)
    then false
    else true
validate_year _ = false

unfoldable pub validate_month : Text → Bool
validate_month (a ∷ b ∷ []) =
    if not (a == b'0' || a == b'1')
    then false
    else if a == b'0'
    then within b'1' b'9' b
    else if a == b'1'
    then within b'0' b'2' b
    else true
validate_month _ = false

unfoldable pub validate_day : Text → Bool
validate_day (a ∷ b ∷ []) =
    if not (within b'0' b'3' a)
    then false
    else if a == b'0'
    then within b'1' b'9' b
    else if a == b'1' || a == b'2'
    then within b'0' b'9' b
    else if a == b'3'
    then b == b'0' || b == b'1'
    else true
validate_day _ = false

unfoldable pub validate_hour : Text → Bool
validate_hour (a ∷ b ∷ []) =
    if not (within b'0' b'2' a)
    then false
    else if a == b'0' || a == b'1'
    then within b'0' b'9' b
    else if a == b'2'
    then within b'0' b'3' b
    else true
validate_hour _ = false

unfoldable pub validate_minute : Text → Bool
validate_minute (a ∷ b ∷ []) =
    if not (within b'0' b'5' a) then false else if not (within b'0' b'9' b) then false else true
validate_minute _ = false

date_parts : List Text → Bool
date_parts (y ∷ m ∷ d ∷ []) =
    if not (validate_year y)
    then false
    else if not (validate_month m)
    then false
    else if not (validate_day d)
    then false
    else true
date_parts _ = false

unfoldable pub validate_date : Text → Bool
unfolding date_parts validate_year validate_month validate_day string_split
validate_date s = date_parts (string_split s b'-')

time_parts : List Text → Bool
time_parts (h ∷ m ∷ s ∷ []) =
    if not (validate_hour h)
    then false
    else if not (validate_minute m)
    then false
    else if not (validate_minute s)
    then false
    else true
time_parts _ = false

unfoldable pub validate_time : Text → Bool
unfolding time_parts validate_hour validate_minute string_split
validate_time s = time_parts (string_split s b':')

-- `validateCountryCode`
unfoldable pub validate_country_code : Text → Bool
validate_country_code (a ∷ b ∷ []) = within b'A' b'Z' a && within b'A' b'Z' b
validate_country_code _ = false
