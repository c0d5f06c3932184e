-- ===== src/Numset.antt =====
-- The number allocator of src/util.cpp (`numset`, `numset_num` and their functions) and `init_numset`
-- of src/init.cpp.
pub mod Sets
pub mod Scan
pub mod Fresh
pub mod History
use cmm_sdk.Common.{
  ℕ, zero, suc, ◌+◌, ◌-◌, ◌*◌, Bool, true, false, List, [], ◌∷◌, Option, none, some, ◌==◌, ltb,
  if◌then◌else◌,
}
use Sets.{mem, insert, erase}

-- `enum ALLOCATE_NUM`
abbrev pub allocate_task_num : ℕ
allocate_task_num = 0

abbrev pub allocate_account_num : ℕ
allocate_account_num = 1

abbrev pub allocate_session_num : ℕ
allocate_session_num = 2

abbrev pub allocate_subscription_num : ℕ
allocate_subscription_num = 5

-- The global maps, as functions of the index.
pub record Numsets : Type 0 where
  pub numset : ℕ → List ℕ
  pub numset_num : ℕ → ℕ

unfoldable pub update {ℓ} : {A : Type ℓ} → (ℕ → A) → ℕ → A → ℕ → A
update f k v j = if j == k then v else f j

-- The `for` loop from `i`. At `UINT_MAX` it sets `i = 0` and goes on, so the next round has 1.
-- `none`: the fuel ran out.
unfoldable pub scan : ℕ → ℕ → List ℕ → ℕ → Option ℕ
scan zero uint_max used i = none
scan (suc fuel) uint_max used i =
    let from_one = scan fuel uint_max used 1 in
    let next = scan fuel uint_max used (suc i) in
    if i == uint_max then from_one else if mem i used then next else some i

-- `set_ptr->insert(i); *num_ptr = i`
unfoldable pub take_num : Numsets → ℕ → ℕ → Numsets
unfolding update insert
take_num s index i = record s {
  numset = update s.numset index (insert i (s.numset index));
  numset_num = update s.numset_num index i;
}

-- Two rounds over all values are enough.
unfoldable pub allocate_below : ℕ → Numsets → ℕ → Option (ℕ × Numsets)
allocate_below uint_max s index =
    elim (scan (uint_max + uint_max) uint_max (s.numset index) (s.numset_num index)) [
      | none ↦ none
      | some i ↦ some (i, take_num s index i)
    ]

unfoldable pub uint_max : ℕ
uint_max = 4294967295

-- `none` only where the source loops for ever.
unfoldable pub allocate_numset_num : Numsets → ℕ → Option (ℕ × Numsets)
allocate_numset_num = allocate_below uint_max

unfoldable pub insert_numset_num : Numsets → ℕ → ℕ → Numsets
unfolding update insert
insert_numset_num s index num = record s {
  numset = update s.numset index (insert num (s.numset index));
}

unfoldable pub delete_numset_num : Numsets → ℕ → ℕ → Numsets
unfolding update erase
delete_numset_num s index num = record s {
  numset = update s.numset index (erase num (s.numset index));
}

-- `init_numset`: every set is empty; account numbers start at 0, the others at 1.
unfoldable pub init_numset : Numsets
init_numset = record {
  numset = λ i. [];
  numset_num = λ i. if i == allocate_account_num then 0 else 1;
}
