-- ===== src/Chassis/Table/Register.antt =====
-- How a module gets its id.
use cmm_sdk.Common.{
  ℕ, zero, suc, ◌+◌, ◌≤◌, ◌<◌, ◌≡◌, ◌≢◌, refl, sym, ap, subst, ◌∙◌, ◌⊎◌, inl, inr, Bool, true,
  false, not, Option, none, some, [], ◌∷◌, ◌++◌, arith, ◌==◌, ==_iff, length, Bool-cases,
  Option-cases, some_inj,
}
use cmm_sdk.Common.Text.{Text, text_eq, text_eq_iff, text_eq_refl, text_eq_ne, is_empty}
use cmm_sdk.Common.Int.{
  ℤ, int_to_string_inj, increment, increment_room, RoomFor, RoomFor-IsLow, num, num_inj, succ,
  IsLow,
}
use cmm_sdk.Chassis.Table.{
  Table, lookup_id, insert_id, erase_id, module_name, find_id, read_module, register,
  show_ssdp_packet,
}

module _ (id : Text) where
  pub lookup-erase :
      (other : Text) (table : Table)
      → id ≢ other
      → lookup_id (erase_id id table) other ≡ lookup_id table other
  unfolding lookup_id erase_id
  lookup-erase other [] ne = refl
  lookup-erase other (e ∷ table) ne = elim (Bool-cases (text_eq e.0 id)) [
    | inl same ↦
        let is_id : e.0 ≡ id = (text_eq_iff e.0 id).0 same in
        let differs : text_eq e.0 other ≡ false = text_eq_ne e.0 other (λ h. ne (sym is_id ∙ h)) in
        rw (same, erase_id) (rw (differs, lookup_id) refl)
    | inr no_id ↦ elim (Bool-cases (text_eq e.0 other)) [
      | inl h ↦ rw (no_id, erase_id) (rw (h, lookup_id) refl)
      | inr h ↦ rw (no_id, erase_id) (rw (h, lookup_id) (lookup-erase other table ne))
    ]
  ]

  length-erase :
      (table : Table) (a : Text)
      → lookup_id table id ≡ some a
      → suc (length (erase_id id table)) ≡ length table
  unfolding lookup_id erase_id
  length-erase [] a h = cc
  length-erase (e ∷ table) a h = elim (Bool-cases (text_eq e.0 id)) [
    | inl same ↦ rw (same, erase_id) refl
    | inr no_id ↦ rw (no_id, erase_id) (ap suc (length-erase table a (rw (no_id, lookup_id) at h)))
  ]

module_name_inj : (m n : ℤ) → module_name m ≡ module_name n → m ≡ n
unfolding module_name
module_name_inj m n h = int_to_string_inj m n (ap (λ t. tail (tail t)) h)
  where
    tail : Text → Text
    tail [] = []
    tail (c ∷ t) = t

-- The id is free, or has the address.
abbrev pub Suits : Table → Text → Text → Type 0
Suits table addr id = (lookup_id table id ≡ none) ⊎ (lookup_id table id ≡ some addr)

module _ (addr : Text) (z : ℤ) where
  -- The id with the number `k` places behind `z`.
  abbrev nth : ℕ → Text
  nth k = module_name (num z k)

  suits? :
      (table : Table) (id : Text)
      → Suits table addr id
        ⊎ ((a : Text) × (lookup_id table id ≡ some a) × (text_eq a addr ≡ false))
  suits? table id = elim (Option-cases (lookup_id table id)) [
    | inl e ↦ inl (inl e)
    | inr (a, e) ↦ elim (Bool-cases (text_eq a addr)) [
      | inl same ↦ inl (inr (e ∙ ap some ((text_eq_iff a addr).0 same)))
      | inr differs ↦ inr (a, e, differs)
    ]
  ]

  -- Among one name more than the table has entries, one suits.
  some-Suits :
      (k n : ℕ) (table : Table)
      → IsLow z
      → length table ≤ k
      → (m : ℕ) × (n ≤ m) × (m ≤ n + k) × Suits table addr (nth m)
  unfolding lookup_id
  some-Suits zero n [] low h = (n, omega arith, omega arith, inl refl)
  some-Suits zero n (e ∷ table) low h = ground (arith, h)
  some-Suits (suc k) n table low h = elim (suits? table (nth n)) [
    | inl suits ↦ (n, omega arith, omega arith, suits)
    | inr (a, e, differs) ↦
        let shorter = length-erase (nth n) table a e in
        let (m, above, below, suits) =
          some-Suits k (suc n) (erase_id (nth n) table) low (omega (arith, shorter, h)) in
        let other : nth n ≢ nth m = λ same.
          let same_num : n ≡ m = num_inj z n m low (module_name_inj (num z n) (num z m) same) in
          ground (arith, same_num, above) in
        let same = lookup-erase (nth n) (nth m) table other in
        (
          m,
          omega (arith, above),
          omega (arith, below),
          subst (λ o. (o ≡ none) ⊎ (o ≡ some addr)) same suits,
        )
  ]

  -- What the loop ends with: a free id, or an id that has the address.
  pub Ended : Table → Option (Bool × Text) → Type 0
  Ended table o =
      (b : Bool) × (id : Text) × (o ≡ some (b, id))
      × (((b ≡ true) × (lookup_id table id ≡ none))
          ⊎ ((b ≡ false) × (lookup_id table id ≡ some addr)))

  clash :
      (table : Table) (id a : Text)
      → Suits table addr id
      → lookup_id table id ≡ some a
      → text_eq a addr ≡ false
      → true ≡ false
  clash table id a (inl e) h differs = cc (sym e ∙ h)
  clash table id a (inr e) h differs = sym ((text_eq_iff a addr).1 (some_inj (sym h ∙ e))) ∙ differs

  further :
      (n m : ℕ) (a : Text) (table : Table)
      → n ≤ m
      → Suits table addr (nth m)
      → lookup_id table (nth n) ≡ some a
      → text_eq a addr ≡ false
      → n < m
  further n m a table h suits e differs = elim (Bool-cases (n == m)) [
    | inl same ↦ cc (
        clash table (nth n) a
          (subst (λ k. Suits table addr (nth k)) (sym ((==_iff n m).0 same)) suits) e differs)
    | inr other ↦ ground (arith, other, h)
  ]

  Suits-Ended :
      (fuel : ℕ) (c : ℤ) (table : Table) (id : Text)
      → Suits table addr id
      → Ended table (find_id (suc fuel) table id c addr)
  unfolding find_id Ended
  Suits-Ended fuel c table id (inl e) = (true, id, rw (e, find_id) refl, inl (refl, e))
  Suits-Ended fuel c table id (inr e) =
      (false, id, rw (e, find_id) (rw (text_eq_refl addr, find_id) refl), inr (refl, e))

  -- A round with an id of another address.
  goes_on :
      (fuel : ℕ) (c d : ℤ) (table : Table) (id a : Text)
      → lookup_id table id ≡ some a
      → text_eq a addr ≡ false
      → increment c ≡ some d
      → find_id (suc fuel) table id c addr ≡ find_id fuel table (module_name d) d addr
  unfolding find_id
  goes_on fuel c d table id a e differs more =
      rw (e, find_id) (rw (differs, find_id) (rw (more, find_id) refl))

  series-Ended :
      (fuel n m : ℕ) (table : Table)
      → RoomFor (num z n) fuel
      → n ≤ m
      → m < n + fuel
      → Suits table addr (nth m)
      → Ended table (find_id fuel table (nth n) (num z n) addr)
  series-Ended zero n m table room h enough suits = ground (arith, h, enough)
  series-Ended (suc fuel) n m table room h enough suits = elim (suits? table (nth n)) [
    | inl here ↦ Suits-Ended fuel (num z n) table (nth n) here
    | inr (a, e, differs) ↦
        let (more, less_room) = increment_room (num z n) fuel room in
        rw (goes_on fuel (num z n) (num z (suc n)) table (nth n) a e differs more) (
          series-Ended fuel (suc n) m table less_room (further n m a table h suits e differs)
            (omega (arith, enough)) suits)
  ]

  pub find_id_total :
      (table : Table) (id : Text)
      → RoomFor z (suc (suc (length table)))
      → Ended table (find_id (suc (suc (length table))) table id z addr)
  find_id_total table id room = elim (suits? table id) [
    | inl here ↦ Suits-Ended (suc (length table)) z table id here
    | inr (a, e, differs) ↦
        let (more, less_room) = increment_room z (suc (length table)) room in
        let (m, above, below, suits) =
          some-Suits (length table) 1 table (RoomFor-IsLow z _ room) (omega arith) in
        rw (goes_on (suc (length table)) z (succ z) table id a e differs more)
          (series-Ended (suc (length table)) 1 m table less_room above (omega (arith, below)) suits)
  ]

lookup-add :
    (table : Table) (id addr : Text)
    → lookup_id table id ≡ none
    → (lookup_id (table ++ (id, addr) ∷ []) id ≡ some addr)
      × ((other : Text)
          → other ≢ id
          → lookup_id (table ++ (id, addr) ∷ []) other ≡ lookup_id table other)
unfolding lookup_id
lookup-add [] id addr h = (
  rw (text_eq_refl id, lookup_id) refl,
  λ other ne. rw (text_eq_ne id other (λ e. ne (sym e)), lookup_id) refl,
)
lookup-add (e ∷ table) id addr h = elim (Bool-cases (text_eq e.0 id)) [
  | inl same ↦ cc (rw (same, lookup_id) at h)
  | inr differs ↦
      let (new, old) = lookup-add table id addr (rw (differs, lookup_id) at h) in
      (rw (differs, lookup_id) new, λ other ne. keep e other table ((id, addr) ∷ []) (old other ne))
]
  where
    keep :
        (f : Text × Text) (other : Text) (rest new : Table)
        → lookup_id (rest ++ new) other ≡ lookup_id rest other
        → lookup_id (f ∷ (rest ++ new)) other ≡ lookup_id (f ∷ rest) other
    keep f other rest new same = elim (Bool-cases (text_eq f.0 other)) [
      | inl e ↦ rw (e, lookup_id) refl
      | inr e ↦ rw (e, lookup_id) same
    ]

-- The table stays, since the module is there or has no address; or one id is added, which was free.
pub Registered : Table → Text → Table → Option (Text × Text) → Type 0
Registered table addr t added =
    ((t ≡ table)
      × (added ≡ none)
      × (((id : Text) × (lookup_id table id ≡ some addr)) ⊎ (addr ≡ [])))
    ⊎ ((id : Text) × (added ≡ some (id, addr))
        × (lookup_id table id ≡ none)
        × (lookup_id t id ≡ some addr)
        × ((other : Text) → other ≢ id → lookup_id t other ≡ lookup_id table other))

no_address : (addr : Text) → not (is_empty addr) ≡ false → addr ≡ []
unfolding is_empty
no_address [] h = refl
no_address (c ∷ s) h = cc h

-- A packet of which a module can be read, whose number is an `int` at least as far below INT_MAX as two
-- more than the table has entries, is dealt with in at most that many rounds: the address of the module is in the table, or is empty, and the table stays; or it is put
-- there under an id that was free, and all other ids keep their addresses.
pub show_ssdp_packet_lem :
    (table : Table) (packet id addr : Text) (n : ℤ)
    → read_module packet ≡ some (some (id, n, addr))
    → RoomFor n (suc (suc (length table)))
    → (t : Table) × (added : Option (Text × Text)) × (show_ssdp_packet table packet
        ≡ some (t, added))
      × Registered table addr t added
unfolding show_ssdp_packet register insert_id Ended Registered
show_ssdp_packet_lem table packet id addr n read room =
    let (b, found, ended, good) = find_id_total addr n table id room in
    elim good [
      | inl (fresh, free) ↦ elim (Bool-cases (not (is_empty addr))) [
        | inl address ↦
            let (new, old) = lookup-add table found addr free in
            (
              table ++ (found, addr) ∷ [],
              some (found, addr),
              rw (read, show_ssdp_packet)
                  (rw (ended, register) (rw (fresh, address) (rw (free, insert_id) refl))),
              inr (found, refl, free, new, old),
            )
        | inr no_addr ↦ (
          table,
          none,
          rw (read, show_ssdp_packet) (rw (ended, register) (rw (fresh, no_addr) refl)),
          inl (refl, refl, inr (no_address addr no_addr)),
        )
      ]
      | inr (old, there) ↦ (
        table,
        none,
        rw (read, show_ssdp_packet) (rw (ended, register) (rw old refl)),
        inl (refl, refl, inl (found, there)),
      )
    ]
