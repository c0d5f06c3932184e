-- ===== src/Tests/Modules.antt =====
-- An answer of a chassis module with its module id.
use cmm_sdk.Common.{
  ◌≡◌, ◌≢◌, ◌⊎◌, Bool, true, false, Option, none, [], ◌∷◌, ◌++◌, refl, some, arith,
}
use cmm_sdk.Common.Text.{Text, codes, find, is_prefix, text_eq, is_empty}
use cmm_sdk.Common.Decimal.{to_string, leading_digits, value}
use cmm_sdk.Common.Int.{ℤ, int_to_string, increment}
use cmm_sdk.Util.Stoi.{skip_blanks, stoi_signed, stoi_pos, improved_stoi}
use cmm_sdk.Util.Split.{string_split}
use cmm_sdk.Chassis.{
  compare_first_position, find_from, is_found, position_of, name_length, next_index, insert_loop,
  insert_module_id,
}
use cmm_sdk.Chassis.Marked.{Marked}
use cmm_sdk.Util.Names.{substr_from, get_current_object_name}
use cmm_sdk.Chassis.Table.{
  Table, Modules, lookup_id, read_packet, names_module, read_address, cut, size_of, find_id,
  insert_id, module_name, read_module, register, show_ssdp_packet, module_check,
}
use cmm_sdk.Chassis.Table.Register.{Registered, show_ssdp_packet_lem}
use cmm_sdk.Chassis.Table.Check.{Distinct, Keeps, module_check_lem}
use cmm_sdk.Chassis.Insert.{insert_module_id-Marked}

abbrev answer : Text
answer = codes "[/redfish/v1/Systems/Log,/redfish/v1/Chassis]"

marked_answer :
    insert_module_id answer (codes "CM1")
    ≡ some (codes "[/redfish/v1/Systems/CM1/Log,/redfish/v1/Chassis/CM1]")
unfolding insert_module_id insert_loop next_index find_from compare_first_position is_found
    position_of name_length find is_prefix
marked_answer = refl

insert_module_id-Marked_example :
    (t : Text) × (insert_module_id answer (codes "CM1") ≡ some t) × Marked (codes "CM1") answer t
insert_module_id-Marked_example = insert_module_id-Marked answer (codes "CM1") (omega arith)

abbrev packet : Text
packet = codes "NT: urn:SMM-CM1" ++ (13 ∷ 10 ∷ (codes "LOCATION:10.0.0.2:443" ++ (13 ∷ 10 ∷ [])))

abbrev known : Table
known = (codes "CMM1", codes "10.0.0.1") ∷ (codes "CM1", codes "10.0.0.9") ∷ []

reads_packet : read_module packet ≡ some (some (codes "CM1", ℤ.pos 1, codes "10.0.0.2:443"))
unfolding read_module read_packet string_split names_module read_address is_found find is_prefix cut
    substr_from size_of improved_stoi skip_blanks stoi_signed stoi_pos leading_digits value is_empty
    text_eq
reads_packet = refl

-- The id CM1 is taken by another address.
registers_packet :
    register known (codes "CM1") (ℤ.pos 1) (codes "10.0.0.2:443")
    ≡ some (
      known ++ (codes "CM2", codes "10.0.0.2:443") ∷ [],
      some (codes "CM2", codes "10.0.0.2:443"),
    )
unfolding register find_id lookup_id text_eq module_name int_to_string increment to_string is_empty
    insert_id
registers_packet = refl

show_ssdp_packet_lem_example :
    (t : Table) × (added : Option (Text × Text)) × (show_ssdp_packet known packet ≡ some (t, added))
    × Registered known (codes "10.0.0.2:443") t added
show_ssdp_packet_lem_example =
    show_ssdp_packet_lem known packet (codes "CM1") (codes "10.0.0.2:443") (ℤ.pos 1) reads_packet
      (omega arith)

abbrev modules : Modules
modules = record {
  table = known;
  chassis = codes "/redfish/v1/Chassis/CMM1" ∷ codes "/redfish/v1/Chassis/CM1" ∷ [];
  systems = codes "/redfish/v1/Systems/CM1" ∷ [];
  managers = [];
  saved = [];
}

abbrev nobody : Text → Bool
nobody address = false

known-Distinct : Distinct known
unfolding lookup_id text_eq
known-Distinct = (refl, (refl, tt))

module_check_lem_example :
    ((id a : Text)
      → lookup_id known id ≡ some a
      → (nobody a ≡ true) ⊎ (id ≡ codes "CMM1")
      → lookup_id (module_check nobody modules).table id ≡ some a)
    × ((id a : Text)
        → lookup_id known id ≡ some a
        → nobody a ≡ false
        → id ≢ codes "CMM1"
        → lookup_id (module_check nobody modules).table id ≡ none)
    × ((id : Text)
        → lookup_id known id ≡ none
        → lookup_id (module_check nobody modules).table id ≡ none)
    × ((id a uri : Text)
        → lookup_id known id ≡ some a
        → (nobody a ≡ true) ⊎ (id ≡ codes "CMM1")
        → get_current_object_name uri (codes "/") ≡ some id
        → Keeps uri modules (module_check nobody modules))
module_check_lem_example = module_check_lem nobody modules known-Distinct
