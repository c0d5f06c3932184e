-- ===== src/Chassis/Table/Check.antt =====
-- What a turn of `module_check_handler` leaves.
use cmm_sdk.Common.{
  ◌≡◌, ◌≢◌, refl, sym, ap, subst, ◌∙◌, ◌⊎◌, inl, inr, Bool, true, false, ◌||◌, none, some, List, [],
  ◌∷◌, arith, Bool-cases, some_inj,
}
use cmm_sdk.Common.Text.{Text, codes, text_eq, text_eq_iff, text_eq_ne, contains}
use cmm_sdk.Util.Names.{get_current_object_name}
use cmm_sdk.Chassis.Table.{
  Table, lookup_id, erase_id, has_module_id, Modules, erase_first, remove_module, remove_modules,
  dead_modules, module_check,
}
use cmm_sdk.Chassis.Table.Register.{lookup-erase}

-- No two entries have the same id, as in a map.
abbrev pub Distinct : Table → Type 0
Distinct [] = Unit
Distinct (e ∷ table) = (lookup_id table e.0 ≡ none) × Distinct table

lookup_gone : (id : Text) (table : Table) → Distinct table → lookup_id (erase_id id table) id ≡ none
unfolding lookup_id erase_id
lookup_gone id [] d = refl
lookup_gone id (e ∷ table) d = elim (Bool-cases (text_eq e.0 id)) [
  | inl same ↦
      rw (same, erase_id) (subst (λ k. lookup_id table k ≡ none) ((text_eq_iff e.0 id).0 same) d.0)
  | inr other ↦ rw (other, erase_id) (rw (other, lookup_id) (lookup_gone id table d.1))
]

erase-none :
    (id other : Text) (table : Table)
    → lookup_id table other ≡ none
    → Distinct table
    → lookup_id (erase_id id table) other ≡ none
erase-none id other table h d = elim (Bool-cases (text_eq id other)) [
  | inl same ↦
      subst (λ k. lookup_id (erase_id id table) k ≡ none) ((text_eq_iff id other).0 same)
        (lookup_gone id table d)
  | inr differs ↦
      lookup-erase id other table (λ same. cc (sym ((text_eq_iff id other).1 same) ∙ differs)) ∙ h
]

erase-Distinct : (id : Text) (table : Table) → Distinct table → Distinct (erase_id id table)
unfolding erase_id
erase-Distinct id [] d = tt
erase-Distinct id (e ∷ table) d = elim (Bool-cases (text_eq e.0 id)) [
  | inl same ↦ rw (same, erase_id) d.1
  | inr other ↦ rw (other, erase_id) (erase-none id e.0 table d.0 d.1, erase-Distinct id table d.1)
]

none_stays :
    (ids : List Text) (m : Modules) (id : Text)
    → Distinct m.table
    → lookup_id m.table id ≡ none
    → lookup_id (remove_modules ids m).table id ≡ none
unfolding remove_modules remove_module
none_stays [] m id d h = h
none_stays (x ∷ ids) m id d h =
    none_stays ids (remove_module x m) id (erase-Distinct x m.table d) (erase-none x id m.table h d)

not_head :
    (x : Text) (ids : List Text) (id : Text) → contains (x ∷ ids) id ≡ false → text_eq x id ≡ false
unfolding contains
not_head x ids id h = ground (arith, h)

not_tail :
    (x : Text) (ids : List Text) (id : Text)
    → contains (x ∷ ids) id ≡ false
    → contains ids id ≡ false
unfolding contains
not_tail x ids id h = ground (arith, h)

kept_ids :
    (ids : List Text) (m : Modules) (id : Text)
    → contains ids id ≡ false
    → lookup_id (remove_modules ids m).table id ≡ lookup_id m.table id
unfolding remove_modules remove_module contains
kept_ids [] m id h = refl
kept_ids (x ∷ ids) m id h =
    kept_ids ids (remove_module x m) id (ground (arith, h))
    ∙ lookup-erase x id m.table (λ same. cc (sym ((text_eq_iff x id).1 same) ∙ not_head x ids id h))

gone_ids :
    (ids : List Text) (m : Modules) (id : Text)
    → Distinct m.table
    → contains ids id ≡ true
    → lookup_id (remove_modules ids m).table id ≡ none
unfolding remove_modules remove_module contains
gone_ids [] m id d h = cc h
gone_ids (x ∷ ids) m id d h = elim (Bool-cases (text_eq x id)) [
  | inl same ↦ none_stays ids (remove_module x m) id (erase-Distinct x m.table d) (
      subst (λ k. lookup_id (erase_id x m.table) k ≡ none) ((text_eq_iff x id).0 same)
        (lookup_gone x m.table d))
  | inr differs ↦
      gone_ids ids (remove_module x m) id (erase-Distinct x m.table d) (ground (arith, h, differs))
]

module _ (answers : Text → Bool) where
  dead_none :
      (table : Table) (id : Text)
      → lookup_id table id ≡ none
      → contains (dead_modules answers table) id ≡ false
  unfolding lookup_id dead_modules contains
  dead_none [] id h = refl
  dead_none (e ∷ table) id h = elim (Bool-cases (text_eq e.0 id)) [
    | inl same ↦ cc (rw (same, lookup_id) at h)
    | inr differs ↦
        let rest : contains (dead_modules answers table) id ≡ false =
          dead_none table id (rw (differs, lookup_id) at h) in
        ground (arith, rest, differs)
  ]

  dead :
      (table : Table) (id a : Text)
      → lookup_id table id ≡ some a
      → answers a ≡ false
      → text_eq id (codes "CMM1") ≡ false
      → contains (dead_modules answers table) id ≡ true
  unfolding lookup_id dead_modules contains
  dead [] id a h silent other = cc h
  dead (e ∷ table) id a h silent other = elim (Bool-cases (text_eq e.0 id)) [
    | inl same ↦
        let is_a : e.1 ≡ a = some_inj (rw (same, lookup_id) at h) in
        let is_id : e.0 ≡ id = (text_eq_iff e.0 id).0 same in
        let no_cmm : text_eq e.0 (codes "CMM1") ≡ false =
          subst (λ k. text_eq k (codes "CMM1") ≡ false) (sym is_id) other in
        let no_answer : answers e.1 ≡ false = subst (λ k. answers k ≡ false) (sym is_a) silent in
        ground (arith, same, no_cmm, no_answer)
    | inr differs ↦
        let rest : contains (dead_modules answers table) id ≡ true =
          dead table id a (rw (differs, lookup_id) at h) silent other in
        ground (arith, rest)
  ]

  alive :
      (table : Table) (id a : Text)
      → Distinct table
      → lookup_id table id ≡ some a
      → (answers a ≡ true) ⊎ (id ≡ codes "CMM1")
      → contains (dead_modules answers table) id ≡ false
  unfolding lookup_id dead_modules contains
  alive [] id a d h good = refl
  alive (e ∷ table) id a d h good = elim (Bool-cases (text_eq e.0 id)) [
    | inl same ↦
        let is_a : e.1 ≡ a = some_inj (rw (same, lookup_id) at h) in
        let is_id : e.0 ≡ id = (text_eq_iff e.0 id).0 same in
        let rest : contains (dead_modules answers table) id ≡ false =
          dead_none table id (subst (λ k. lookup_id table k ≡ none) is_id d.0) in
        elim good [
          | inl answered ↦
              let answer : answers e.1 ≡ true = subst (λ k. answers k ≡ true) (sym is_a) answered in
              ground (arith, rest, answer)
          | inr cmm ↦
              let own : text_eq e.0 (codes "CMM1") ≡ true =
                (text_eq_iff e.0 (codes "CMM1")).1 (is_id ∙ cmm) in
              ground (arith, rest, own)
        ]
    | inr differs ↦
        let rest : contains (dead_modules answers table) id ≡ false =
          alive table id a d.1 (rw (differs, lookup_id) at h) good in
        ground (arith, rest, differs)
  ]

other_id :
    (x : Text) (ids : List Text) (id uri : Text)
    → contains (x ∷ ids) id ≡ false
    → get_current_object_name uri (codes "/") ≡ some id
    → has_module_id x uri ≡ false
unfolding has_module_id
other_id x ids id uri h named =
    rw (named, has_module_id)
      (text_eq_ne id x (λ same. cc (sym ((text_eq_iff x id).1 (sym same)) ∙ not_head x ids id h)))

-- A member without the id stays where it is.
contains-erase_first :
    (x uri : Text) (members : List Text)
    → has_module_id x uri ≡ false
    → contains (erase_first x members) uri ≡ contains members uri
unfolding erase_first contains
contains-erase_first x uri [] h = refl
contains-erase_first x uri (y ∷ members) h = elim (Bool-cases (has_module_id x y)) [
  | inl gone ↦
      let differs : text_eq y uri ≡ false =
        text_eq_ne y uri (λ same. cc (sym gone ∙ (ap (has_module_id x) same ∙ h))) in
      rw (gone, erase_first) (rw (differs, contains) refl)
  | inr stays ↦
      rw (stays, erase_first) (ap (λ b. text_eq y uri || b) (contains-erase_first x uri members h))
]

-- The three collections have the URI as before.
abbrev pub Keeps : Text → Modules → Modules → Type 0
Keeps uri m t =
    (contains t.chassis uri ≡ contains m.chassis uri)
    × (contains t.systems uri ≡ contains m.systems uri)
    × (contains t.managers uri ≡ contains m.managers uri)

kept_members :
    (ids : List Text) (m : Modules) (id uri : Text)
    → contains ids id ≡ false
    → get_current_object_name uri (codes "/") ≡ some id
    → Keeps uri m (remove_modules ids m)
unfolding remove_modules remove_module
kept_members [] m id uri h named = (refl, refl, refl)
kept_members (x ∷ ids) m id uri h named =
    let other = other_id x ids id uri h named in
    let (c, y, n) = kept_members ids (remove_module x m) id uri (not_tail x ids id h) named in
    (
      c ∙ contains-erase_first x uri m.chassis other,
      y ∙ contains-erase_first x uri m.systems other,
      n ∙ contains-erase_first x uri m.managers other,
    )

-- For a table with distinct ids, a turn of `module_check_handler` keeps the address of each module
-- that answers, and that of CMM1, and keeps their members in the three collections; it removes every
-- other module from the table, and adds none.
pub module_check_lem :
    (answers : Text → Bool) (m : Modules)
    → Distinct m.table
    → ((id a : Text)
        → lookup_id m.table id ≡ some a
        → (answers a ≡ true) ⊎ (id ≡ codes "CMM1")
        → lookup_id (module_check answers m).table id ≡ some a)
      × ((id a : Text)
          → lookup_id m.table id ≡ some a
          → answers a ≡ false
          → id ≢ codes "CMM1"
          → lookup_id (module_check answers m).table id ≡ none)
      × ((id : Text)
          → lookup_id m.table id ≡ none
          → lookup_id (module_check answers m).table id ≡ none)
      × ((id a uri : Text)
          → lookup_id m.table id ≡ some a
          → (answers a ≡ true) ⊎ (id ≡ codes "CMM1")
          → get_current_object_name uri (codes "/") ≡ some id
          → Keeps uri m (module_check answers m))
unfolding module_check
module_check_lem answers m d =
    let ids = dead_modules answers m.table in
    (
      (λ id a h good. kept_ids ids m id (alive answers m.table id a d h good) ∙ h),
      (λ id a h silent other.
          gone_ids ids m id d
            (dead answers m.table id a h silent (text_eq_ne id (codes "CMM1") other))),
      (λ id h. none_stays ids m id d h),
      (λ id a uri h good named.
          kept_members ids m id uri (alive answers m.table id a d h good) named),
    )
