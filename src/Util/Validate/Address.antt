-- ===== src/Util/Validate/Address.antt =====
-- `isNumber`, `validateIPv4` and `validateMACAddress` of src/util.cpp.
pub mod Exact
use cmm_sdk.Common.{
  ℕ, zero, suc, Bool, true, false, not, ◌&&◌, ◌||◌, List, [], ◌∷◌, Option, none, some, ◌==◌, ltb,
  within, if◌then◌else◌, length,
}
use cmm_sdk.Common.Text.{Text, is_empty}
use cmm_sdk.Common.Decimal.{is_digit, value}
use cmm_sdk.Util.Split.{string_split}

pub all_digits : Text → Bool
all_digits [] = true
all_digits (c ∷ s) = is_digit c && all_digits s

-- `find_first_not_of` fails when every character is a digit.
unfoldable pub is_number : Text → Bool
unfolding all_digits is_empty
is_number s = not (is_empty s) && all_digits s

abbrev pub int_max : ℕ
int_max = 2147483647

-- `stoi` of a text of digits; `none` is the exception `out_of_range`.
unfoldable pub stoi : Text → Option ℕ
unfolding value
stoi s = if ltb int_max (value s) then none else some (value s)

-- The loop over the four parts; `none` is an exception. A text of digits is not below zero.
pub check_octets : List Text → Option Bool
unfolding stoi is_number
check_octets [] = some true
check_octets (num ∷ ns) = elim (is_number num) [
  | false ↦ some false
  | true ↦ elim (stoi num) [
    | none ↦ none
    | some v ↦ elim (ltb 255 v) [ true ↦ some false | false ↦ check_octets ns ]
  ]
]

unfoldable pub validate_ipv4 : Text → Option Bool
unfolding check_octets string_split
validate_ipv4 s =
    let ip_nums = string_split s b'.' in
    if not (length ip_nums == 4) then some false else check_octets ip_nums

abbrev is_mac_digit : ℕ → Bool
is_mac_digit c = within b'0' b'9' c || within b'a' b'f' c

all_mac_digits : Text → Bool
all_mac_digits [] = true
all_mac_digits (c ∷ s) = is_mac_digit c && all_mac_digits s

pub check_mac_parts : List Text → Bool
unfolding all_mac_digits
check_mac_parts [] = true
check_mac_parts (part ∷ ps) =
    let rest = check_mac_parts ps in
    if not (length part == 2) then false else if not (all_mac_digits part) then false else rest

unfoldable pub validate_mac_address : Text → Bool
unfolding check_mac_parts string_split
validate_mac_address s =
    let addr = string_split s b':' in if not (length addr == 6) then false else check_mac_parts addr
