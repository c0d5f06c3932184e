-- ===== src/Chassis/Table.antt =====
-- The table of modules: `show_ssdp_packet` of src/handler.cpp, and `module_check_handler` with
-- `remove_module_id_from_collection` of src/chassis_controller.cpp.
pub mod Register
pub mod Check
use cmm_sdk.Common.{
  ℕ, zero, suc, ◌+◌, ◌-◌, ◌%◌, Bool, true, false, not, ◌&&◌, ◌||◌, Option, none, some, List, [],
  ◌∷◌, ◌++◌, leb, if◌then◌else◌, length, take, drop,
}
use cmm_sdk.Common.Text.{Text, codes, text_eq, is_empty, find}
use cmm_sdk.Common.Int.{ℤ, int_to_string, increment}
use cmm_sdk.Util.Stoi.{improved_stoi}
use cmm_sdk.Util.Split.{string_split}
use cmm_sdk.Util.Names.{substr_from, get_current_object_name}
use cmm_sdk.Chassis.{is_found, chassis_id, system_id, manager_id}

-- `module_id_table`: ids and addresses. The order of the entries stands for nothing.
abbrev pub Table : Type 0
Table = List (Text × Text)

unfoldable pub lookup_id : Table → Text → Option Text
lookup_id [] id = none
lookup_id (e ∷ table) id = elim (text_eq e.0 id) [ true ↦ some e.1 | false ↦ lookup_id table id ]

-- `insert` of a map keeps an entry that is there.
unfoldable pub insert_id : Table → Text → Text → Table
insert_id table id address = elim (lookup_id table id) [
  | none ↦ table ++ (id, address) ∷ []
  | some old ↦ table
]

unfoldable pub erase_id : Text → Table → Table
erase_id id [] = []
erase_id id (e ∷ table) = elim (text_eq e.0 id) [ true ↦ table | false ↦ e ∷ erase_id id table ]

-- A position as a `size_t`, `npos` for none.
unfoldable pub size_of : Option ℕ → ℕ
size_of none = 18446744073709551615
size_of (some i) = i

-- `s.substr(s.find(a) + 1, s.find("\r") - s.find(a) - 1)`; `none` is an exception.
unfoldable pub cut : Text → Text → Option Text
cut a s =
    let i = size_of (find a s) in
    let count = (size_of (find (13 ∷ []) s) + (18446744073709551615 - i)) % 18446744073709551616 in
    elim (substr_from s ((i + 1) % 18446744073709551616)) [
      | none ↦ none
      | some t ↦ some (take count t)
    ]

pub record Packet : Type 0 where
  pub result_id : Text
  pub resultaddr : Text
  pub check_module_table : Bool

unfoldable pub names_module : Text → Bool
names_module s =
    (is_found (find (codes "SMM") s) || is_found (find (codes "BMC") s))
    && is_found (find (codes "NT:") s)

unfoldable pub read_address : Text → Packet → Packet
read_address s p = if is_found (find (codes "LOCATION") s) then record p { resultaddr = s } else p

-- The `for` loop over the lines.
unfoldable pub read_packet : List Text → Packet → Option Packet
read_packet [] p = some p
read_packet (s ∷ lines) p = elim (names_module s) [
  | false ↦ read_packet lines (read_address s p)
  | true ↦ elim (cut (codes "-") s) [
    | none ↦ none
    | some id ↦ read_packet lines (
        read_address s (record p {
          result_id = id;
          check_module_table = text_eq id (codes "CM1") || p.check_module_table;
        }))
  ]
]

unfoldable pub module_name : ℤ → Text
unfolding int_to_string
module_name n = codes "CM" ++ int_to_string n

-- The `while` loop: `checkmyblade` and `result_id`; `none`: out of fuel, or `cm_number++` overflows.
unfoldable pub find_id : ℕ → Table → Text → ℤ → Text → Option (Bool × Text)
unfolding module_name increment
find_id zero table result_id cm_number addr = none
find_id (suc fuel) table result_id cm_number addr = elim (lookup_id table result_id) [
  | none ↦ some (true, result_id)
  | some a ↦ elim (text_eq a addr) [
    | true ↦ some (false, result_id)
    | false ↦ elim (increment cm_number) [
      | none ↦ none
      | some n ↦ find_id fuel table (module_name n) n addr
    ]
  ]
]

-- What is read for the loop: the id, its number and the address; an exception is `none`.
unfoldable pub read_module : Text → Option (Option (Text × ℤ × Text))
read_module packet =
    elim (read_packet (string_split packet 10)
      (record { result_id = []; resultaddr = []; check_module_table = false })) [
        | none ↦ none
        | some p ↦ elim p.check_module_table [
          | false ↦ some none
          | true ↦ elim (substr_from p.result_id 2) [
            | none ↦ none
            | some number ↦ elim (improved_stoi number) [
              | none ↦ none
              | some n ↦ elim (cut (codes ":") p.resultaddr) [
                | none ↦ none
                | some addr ↦ some (some (p.result_id, n, addr))
              ]
            ]
          ]
        ]
      ]

-- The table, and the module that `add_new_bmc` is called for.
unfoldable pub register : Table → Text → ℤ → Text → Option (Table × Option (Text × Text))
register table id n addr = elim (find_id (suc (suc (length table))) table id n addr) [
  | none ↦ none
  | some (fresh, found) ↦
      if fresh && not (is_empty addr)
      then some (insert_id table found addr, some (found, addr))
      else some (table, none)
]

unfoldable pub show_ssdp_packet : Table → Text → Option (Table × Option (Text × Text))
show_ssdp_packet table packet = elim (read_module packet) [
  | none ↦ none
  | some none ↦ some (table, none)
  | some (some (id, n, addr)) ↦ register table id n addr
]

-- A member of a collection by its `odata.id`.
unfoldable pub has_module_id : Text → Text → Bool
has_module_id module_id uri = elim (get_current_object_name uri (codes "/")) [
  | none ↦ false
  | some id ↦ text_eq id module_id
]

-- The collections of chassis, systems and managers, by the URIs of their members.
pub record Modules : Type 0 where
  pub table : Table
  pub chassis : List Text
  pub systems : List Text
  pub managers : List Text
  pub saved : List Text

-- The members of `remove_module_id_from_collection` that stay: the first with the id goes. Of a URI
-- there is always a name.
unfoldable pub erase_first : Text → List Text → List Text
erase_first module_id [] = []
erase_first module_id (uri ∷ members) = elim (has_module_id module_id uri) [
  | true ↦ members
  | false ↦ uri ∷ erase_first module_id members
]

-- `exist`, by which the file of the collection is written.
unfoldable pub has_member : Text → List Text → Bool
has_member module_id [] = false
has_member module_id (uri ∷ members) = has_module_id module_id uri || has_member module_id members

unfoldable pub saved_if : Bool → Text → List Text → List Text
saved_if b uri saved = if b then saved ++ uri ∷ [] else saved

-- A round of the second `for` loop.
unfoldable pub remove_module : Text → Modules → Modules
remove_module id m = record {
  table = erase_id id m.table;
  chassis = erase_first id m.chassis;
  systems = erase_first id m.systems;
  managers = erase_first id m.managers;
  saved = saved_if (has_member id m.managers) manager_id (
      saved_if (has_member id m.systems) system_id
        (saved_if (has_member id m.chassis) chassis_id m.saved));
}

unfoldable pub remove_modules : List Text → Modules → Modules
remove_modules [] m = m
remove_modules (id ∷ delete_list) m = remove_modules delete_list (remove_module id m)

-- `delete_list`; `answers` tells of an address whether the request to it returns.
unfoldable pub dead_modules : (Text → Bool) → Table → List Text
dead_modules answers [] = []
dead_modules answers (e ∷ table) =
    let rest = dead_modules answers table in
    if text_eq e.0 (codes "CMM1") then rest else if answers e.1 then rest else e.0 ∷ rest

-- One turn of the `while` loop.
unfoldable pub module_check : (Text → Bool) → Modules → Modules
module_check answers m =
    let after = remove_modules (dead_modules answers m.table) m in
    record after { saved = after.saved ++ codes "/conf/module/table.json" ∷ [] }
