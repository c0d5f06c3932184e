-- ===== src/Tests/Texts.antt =====
-- The text functions on literals.
use cmm_sdk.Common.{◌≡◌, ◌↔◌, refl, true, arith, some, List, [], ◌∷◌, ◌++◌, length, All}
use cmm_sdk.Common.Text.{Text, IsFree, codes, rfind, is_prefix}
use cmm_sdk.Util.Split.{string_split, make_path}
use cmm_sdk.Util.Split.Fields.{
  fields, nonempty, IsToken, string_split-fields, string_split-make_path,
}
use cmm_sdk.Util.Names.{get_current_object_name, get_parent_object_uri, parent-name-append}
use cmm_sdk.Util.Validate.Clock.{validate_date}
use cmm_sdk.Util.Validate.Clock.Exact.{IsDate, validate_date_exact}
use cmm_sdk.Util.Validate.Address.{validate_ipv4}
use cmm_sdk.Util.Validate.Address.Exact.{IsOctet, validate_ipv4_exact}

string_split-fields_example :
    string_split (codes "/redfish//v1/") b'/' ≡ nonempty (fields b'/' (codes "/redfish//v1/"))
string_split-fields_example = string_split-fields (codes "/redfish//v1/") b'/'

abbrev tokens : List Text
tokens = codes "redfish" ∷ codes "v1" ∷ codes "Managers" ∷ []

are_tokens : All IsToken tokens
are_tokens = (
  (λ e. ground arith, omega arith),
  ((λ e. ground arith, omega arith), ((λ e. ground arith, omega arith), tt)),
)

string_split-make_path_example : string_split (make_path tokens) b'/' ≡ tokens
string_split-make_path_example = string_split-make_path tokens are_tokens

abbrev uri : Text
uri = codes "/redfish/v1/Managers"

last_slash : rfind (codes "/") uri ≡ some 11
unfolding rfind is_prefix
last_slash = refl

parent-name-append_example :
    (name : Text) × (get_current_object_name uri (codes "/") ≡ some name)
    × (uri ≡ get_parent_object_uri uri (codes "/") ++ (codes "/" ++ name))
parent-name-append_example = parent-name-append uri (codes "/") 11 last_slash

name-IsFree : IsFree b'/' (codes "Managers")
name-IsFree = omega arith

validate_date_exact_example :
    (validate_date (codes "2022-02-31") ≡ true)
    ↔ IsDate (nonempty (fields b'-' (codes "2022-02-31")))
validate_date_exact_example = validate_date_exact (codes "2022-02-31")

validate_ipv4_exact_example : (validate_ipv4 (codes "10.0..0.255") ≡ some true) ↔ (
    (length (nonempty (fields b'.' (codes "10.0..0.255"))) ≡ 4)
    × All IsOctet (nonempty (fields b'.' (codes "10.0..0.255"))))
validate_ipv4_exact_example = validate_ipv4_exact (codes "10.0..0.255")
