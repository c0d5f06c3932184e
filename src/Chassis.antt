-- ===== src/Chassis.antt =====
-- The module id in answers of a chassis module: `insert_module_id` and `compare_first_position` of
-- src/chassis_controller.cpp.
pub mod Choice
pub mod Insert
pub mod Marked
pub mod Table
use cmm_sdk.Common.{
  ℕ, zero, suc, ◌+◌, ◌-◌, Bool, true, false, ◌||◌, Option, none, some, [], ◌∷◌, ◌++◌, ltb, leb,
  ◌==◌, if◌then◌else◌, length, take, drop,
}
use cmm_sdk.Common.Text.{Text, codes, find}
use cmm_sdk.Util.Validate.Address.{int_max}

-- `ODATA_MANAGER_ID`, `ODATA_SYSTEM_ID`, `ODATA_CHASSIS_ID`
abbrev pub manager_id : Text
manager_id = codes "/redfish/v1/Managers"

abbrev pub system_id : Text
system_id = codes "/redfish/v1/Systems"

abbrev pub chassis_id : Text
chassis_id = codes "/redfish/v1/Chassis"

-- The component and the value of `first_position`.
unfoldable pub compare_first_position : ℕ → ℕ → ℕ → ℕ × ℕ
compare_first_position manager system chassis =
    if ltb manager system
    then if ltb manager chassis then (1, manager) else (3, chassis)
    else if ltb system chassis
    then (2, system)
    else (3, chassis)

-- `find(name, pos)`
unfoldable pub find_from : Text → Text → ℕ → Option ℕ
find_from name s pos =
    if leb pos (length s)
    then elim (find name (drop pos s)) [ none ↦ none | some i ↦ some (i + pos) ]
    else none

unfoldable pub is_found : Option ℕ → Bool
is_found none = false
is_found (some i) = true

unfoldable pub position_of : Option ℕ → ℕ
position_of none = int_max
position_of (some i) = i

-- No other component is returned.
unfoldable pub name_length : ℕ → ℕ
name_length component =
    if component == 1
    then length manager_id
    else if component == 2
    then length system_id
    else if component == 3
    then length chassis_id
    else 0

-- `move_index` of a round for the three results of `find`; `none`: nothing was found.
unfoldable pub next_index : Option ℕ → Option ℕ → Option ℕ → Option ℕ
next_index manager system chassis =
    if is_found manager || (is_found system || is_found chassis)
    then (let (component, first) =
          compare_first_position (position_of manager) (position_of system) (position_of chassis) in
        some (first + name_length component))
    else none

-- The `while` loop; `none`: out of fuel.
unfoldable pub insert_loop : ℕ → Text → Text → ℕ → Text → Option Text
insert_loop zero s module_id cur result = none
insert_loop (suc fuel) s module_id cur result = elim (ltb cur (length s)) [
  | false ↦ some result
  | true ↦
      elim (next_index (find_from manager_id s cur) (find_from system_id s cur)
        (find_from chassis_id s cur)) [
          | none ↦ insert_loop fuel s module_id (length s) (result ++ drop cur s)
          | some move ↦
              insert_loop fuel s module_id move
                ((result ++ take (move - cur) (drop cur s)) ++ (b'/' ∷ module_id))
        ]
]

-- `insert_module_id`, from the serialized answer to the text that is parsed.
unfoldable pub insert_module_id : Text → Text → Option Text
insert_module_id s module_id = insert_loop (suc (length s)) s module_id 0 []
