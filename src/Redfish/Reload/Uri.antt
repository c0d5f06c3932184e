-- ===== src/Redfish/Reload/Uri.antt =====
-- The parts of the URI `collection/number`.
use cmm_sdk.Common.{ℕ, ◌≤◌, ◌≡◌, true, [], ◌∷◌, some, arith, All}
use cmm_sdk.Common.Text.{Text, codes, IsFree}
use cmm_sdk.Common.Decimal.{
  IsDigit, to_string, to_string-All, to_string-is_empty, leading_digits-All, value-to_string,
}
use cmm_sdk.Util.Names.{get_current_object_name, get_parent_object_uri}
use cmm_sdk.Util.Validate.Address.{is_number, int_max}
use cmm_sdk.Util.Validate.Address.Exact.{all_digits_exact}
use cmm_sdk.Redfish.Account.Remove.{stoi_prefix}

digits-IsFree : (s : Text) → All IsDigit s → IsFree b'/' s
digits-IsFree [] h = tt
digits-IsFree (c ∷ s) h = (ground (arith, h.0.0), digits-IsFree s h.1)

pub to_string-IsFree : (n : ℕ) → IsFree b'/' (to_string n)
to_string-IsFree n = digits-IsFree (to_string n) (to_string-All n)

pub stoi_prefix-to_string : (n : ℕ) → n ≤ int_max → stoi_prefix (to_string n) ≡ some n
unfolding stoi_prefix
stoi_prefix-to_string n h =
    rw (leading_digits-All (to_string n) (to_string-All n), to_string-is_empty n, value-to_string n)
      (ground arith)

pub is_number-to_string : (n : ℕ) → is_number (to_string n) ≡ true
unfolding is_number
is_number-to_string n =
    rw (to_string-is_empty n) ((all_digits_exact (to_string n)).1 (to_string-All n))

-- The name and the parent of a resource of a collection.
pub IsPart : Text → Text → Text → Type 0
IsPart uri parent name =
    (get_current_object_name uri (codes "/") ≡ some name)
    × (get_parent_object_uri uri (codes "/") ≡ parent)
