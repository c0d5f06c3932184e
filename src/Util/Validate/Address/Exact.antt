-- ===== src/Util/Validate/Address/Exact.antt =====
-- Which texts `validateIPv4` and `validateMACAddress` accept.
use cmm_sdk.Common.{
  ℕ, ◌≤◌, ◌≡◌, refl, ◌↔◌, ◌⊎◌, true, false, List, [], ◌∷◌, some, arith, length, All,
}
use cmm_sdk.Common.Text.{Text, is_empty}
use cmm_sdk.Common.Decimal.{IsDigit, value}
use cmm_sdk.Util.Split.{string_split}
use cmm_sdk.Util.Split.Fields.{fields, nonempty, string_split-fields}
use cmm_sdk.Util.Validate.Address.{
  all_digits, is_number, stoi, check_octets, validate_ipv4, check_mac_parts, all_mac_digits,
  validate_mac_address,
}

pub all_digits_exact : (s : Text) → (all_digits s ≡ true) ↔ All IsDigit s
unfolding all_digits
all_digits_exact [] = (λ h. tt, λ h. refl)
all_digits_exact (c ∷ s) = (
  λ h. ((ground arith, ground arith), (all_digits_exact s).0 (ground arith)),
  λ h. ground (arith, (all_digits_exact s).1 h.1),
)

-- A decimal number from 0 to 255, leading zeros allowed.
abbrev pub IsOctet : Text → Type 0
IsOctet s = (is_empty s ≡ false) × All IsDigit s × (value s ≤ 255)

check_octets_exact : (ns : List Text) → (check_octets ns ≡ some true) ↔ All IsOctet ns
unfolding check_octets is_number stoi
check_octets_exact [] = (λ h. tt, λ h. refl)
check_octets_exact (n ∷ ns) = (
  λ h. (
    (ground arith, (all_digits_exact n).0 (ground arith), ground arith),
    (check_octets_exact ns).0 (ground arith),
  ),
  λ h. ground (arith, (all_digits_exact n).1 h.0.1, (check_octets_exact ns).1 h.1),
)

-- `validateIPv4` accepts a text exactly when its fields between dots, the empty ones dropped, are
-- four decimal numbers of at most 255.
pub validate_ipv4_exact :
    (s : Text)
    → (validate_ipv4 s ≡ some true)
      ↔ ((length (nonempty (fields b'.' s)) ≡ 4) × All IsOctet (nonempty (fields b'.' s)))
unfolding validate_ipv4
validate_ipv4_exact s = (
  λ h.
      rw (← string_split-fields s b'.')
        (ground arith, (check_octets_exact (string_split s b'.')).0 (ground arith)),
  λ h.
      ground
        (arith, string_split-fields s b'.', (check_octets_exact (nonempty (fields b'.' s))).1 h.1),
)

abbrev pub IsMacDigit : ℕ → Type 0
IsMacDigit c = ((b'0' ≤ c) × (c ≤ b'9')) ⊎ ((b'a' ≤ c) × (c ≤ b'f'))

abbrev pub IsMacPart : Text → Type 0
IsMacPart s = (length s ≡ 2) × All IsMacDigit s

all_mac_digits_exact : (s : Text) → (all_mac_digits s ≡ true) ↔ All IsMacDigit s
unfolding all_mac_digits
all_mac_digits_exact [] = (λ h. tt, λ h. refl)
all_mac_digits_exact (c ∷ s) = (
  λ h. (ground arith, (all_mac_digits_exact s).0 (ground arith)),
  λ h. ground (arith, (all_mac_digits_exact s).1 h.1),
)

check_mac_parts_exact : (ps : List Text) → (check_mac_parts ps ≡ true) ↔ All IsMacPart ps
unfolding check_mac_parts
check_mac_parts_exact [] = (λ h. tt, λ h. refl)
check_mac_parts_exact (p ∷ ps) = (
  λ h. (
    (ground arith, (all_mac_digits_exact p).0 (ground arith)),
    (check_mac_parts_exact ps).0 (ground arith),
  ),
  λ h. ground (arith, (all_mac_digits_exact p).1 h.0.1, (check_mac_parts_exact ps).1 h.1),
)

-- `validateMACAddress` accepts a text exactly when its fields between colons, the empty ones
-- dropped, are six pairs of digits or letters from a to f.
pub validate_mac_address_exact :
    (s : Text)
    → (validate_mac_address s ≡ true)
      ↔ ((length (nonempty (fields b':' s)) ≡ 6) × All IsMacPart (nonempty (fields b':' s)))
unfolding validate_mac_address
validate_mac_address_exact s = (
  λ h.
      rw (← string_split-fields s b':')
        (ground arith, (check_mac_parts_exact (string_split s b':')).0 (ground arith)),
  λ h.
      ground (
        arith,
        string_split-fields s b':',
        (check_mac_parts_exact (nonempty (fields b':' s))).1 h.1,
      ),
)
