-- ===== src/Chassis/Choice.antt =====
-- Which of the three names a round of the loop of `insert_module_id` goes to.
use cmm_sdk.Common.{
  ℕ, ◌+◌, ◌≤◌, ◌<◌, ◌≡◌, refl, sym, subst, ◌∙◌, ◌⊎◌, inl, inr, true, Option, none, some, arith, ltb,
  leb, length, drop, Bool-cases, Option-cases,
}
use cmm_sdk.Common.Text.{Text, find}
use cmm_sdk.Util.Validate.Address.{int_max}
use cmm_sdk.Chassis.{
  compare_first_position, find_from, is_found, position_of, name_length, next_index,
}
use cmm_sdk.Chassis.Marked.{Name, one_of}

abbrev pub shift : ℕ → Option ℕ → Option ℕ
shift cur none = none
shift cur (some i) = some (i + cur)

pub find_from-shift :
    (name s : Text) (cur : ℕ)
    → cur ≤ length s
    → find_from name s cur ≡ shift cur (find name (drop cur s))
unfolding find_from
find_from-shift name s cur h =
    let fits : leb cur (length s) ≡ true = ground (arith, h) in
    elim (Option-cases (find name (drop cur s))) [
      | inl e ↦ rw (fits, e) refl
      | inr (i, e) ↦ rw (fits, e) refl
    ]

abbrev pub Before : ℕ → Option ℕ → Type 0
Before i o = (j : ℕ) → o ≡ some j → i ≤ j

abbrev pub Fits : ℕ → Option ℕ → Type 0
Fits cur o = (i : ℕ) → o ≡ some i → i + cur < int_max

-- What `next_index` returns for the first positions of the three names behind `cur`.
pub data Choice (cur : ℕ) (m y c : Option ℕ) : Option ℕ → Type 0 where
  nothing : m ≡ none → y ≡ none → c ≡ none → Choice cur m y c none
  first :
      {name : Text} (n : Name name) (i : ℕ)
      → one_of (λ p. Option ℕ) n m y c ≡ some i
      → Before i m
      → Before i y
      → Before i c
      → Choice cur m y c (some ((i + cur) + length name))

place :
    (cur : ℕ) (o : Option ℕ)
    → Fits cur o
    → ((o ≡ none) × (position_of (shift cur o) ≡ int_max))
      ⊎ ((i : ℕ) × (o ≡ some i) × (position_of (shift cur o) ≡ i + cur) × (i + cur < int_max))
unfolding position_of
place cur none h = inl (refl, refl)
place cur (some i) h = inr (i, refl, refl, h i refl)

-- A position not above that of `o` is one not behind it.
before : (cur i : ℕ) (o : Option ℕ) → i + cur ≤ position_of (shift cur o) → Before i o
unfolding position_of
before cur i o h j e =
    let there : i + cur ≤ j + cur = subst (λ r. i + cur ≤ position_of (shift cur r)) e h in
    omega (arith, there)

-- The position `p` of the first of the three.
took :
    {name : Text} (cur p : ℕ) (m y c o : Option ℕ) (n : Name name)
    → one_of (λ q. Option ℕ) n m y c ≡ o
    → Fits cur o
    → position_of (shift cur o) ≡ p
    → p < int_max
    → p ≤ position_of (shift cur m)
    → p ≤ position_of (shift cur y)
    → p ≤ position_of (shift cur c)
    → Choice cur m y c (some (p + length name))
took {name} cur p m y c o n is_o fits at_p small hm hy hc = elim (place cur o fits) [
  | inl (_, e) ↦ ground (arith, e, at_p, small)
  | inr (i, there, e, _) ↦
      let same : i + cur ≡ p = sym e ∙ at_p in
      subst (λ q. Choice cur m y c (some (q + length name))) same
        (first n i (is_o ∙ there) (before cur i m (omega (arith, same, hm)))
          (before cur i y (omega (arith, same, hy))) (before cur i c (omega (arith, same, hc))))
]

at_most : (cur : ℕ) (o : Option ℕ) → Fits cur o → position_of (shift cur o) ≤ int_max
at_most cur o h = elim (place cur o h) [
  | inl (_, e) ↦ omega (arith, e)
  | inr (i, _, e, small) ↦ omega (arith, e, small)
]

Choice-found :
    (cur : ℕ) (m y c : Option ℕ)
    → Fits cur m
    → Fits cur y
    → Fits cur c
    → ((position_of (shift cur m) < int_max)
        ⊎ ((position_of (shift cur y) < int_max) ⊎ (position_of (shift cur c) < int_max)))
    → (k : ℕ × ℕ) × (compare_first_position
          (position_of (shift cur m))
          (position_of (shift cur y))
          (position_of (shift cur c))
        ≡ k)
      × Choice cur m y c (some (k.1 + name_length k.0))
unfolding compare_first_position name_length
Choice-found cur m y c fm fy fc any =
    let pm = position_of (shift cur m) in
    let py = position_of (shift cur y) in
    let pc = position_of (shift cur c) in
    let bm : pm ≤ int_max = at_most cur m fm in
    let by : py ≤ int_max = at_most cur y fy in
    elim (Bool-cases (ltb pm py)) [
      | inl my ↦ elim (Bool-cases (ltb pm pc)) [
        | inl mc ↦ (
          (1, pm),
          rw (my, mc) refl,
          took cur pm m y c m Name.manager refl fm refl (ground (arith, my, by)) (omega arith)
              (ground (arith, my)) (ground (arith, mc)),
        )
        | inr cm ↦ (
          (3, pc),
          rw (my, cm) refl,
          took cur pc m y c c Name.chassis refl fc refl (ground (arith, my, by, cm))
              (ground (arith, cm)) (ground (arith, my, cm)) (omega arith),
        )
      ]
      | inr ym ↦ elim (Bool-cases (ltb py pc)) [
        | inl yc ↦ (
          (2, py),
          rw (ym, yc) refl,
          took cur py m y c y Name.system refl fy refl (ground (arith, yc, at_most cur c fc))
              (ground (arith, ym)) (omega arith) (ground (arith, yc)),
        )
        | inr cy ↦ (
          (3, pc),
          rw (ym, cy) refl,
          took cur pc m y c c Name.chassis refl fc refl (ground (arith, ym, cy, any))
              (ground (arith, ym, cy)) (ground (arith, cy)) (omega arith),
        )
      ]
    ]

pub choice :
    (cur : ℕ) (m y c : Option ℕ)
    → Fits cur m
    → Fits cur y
    → Fits cur c
    → Choice cur m y c (next_index (shift cur m) (shift cur y) (shift cur c))
unfolding next_index is_found position_of
choice cur none none none fm fy fc = nothing refl refl refl
choice cur (some i) y c fm fy fc =
    let (k, e, found) = Choice-found cur (some i) y c fm fy fc (inl (fm i refl)) in rw e found
choice cur none (some i) c fm fy fc =
    let (k, e, found) = Choice-found cur none (some i) c fm fy fc (inr (inl (fy i refl))) in
    rw e found
choice cur none none (some i) fm fy fc =
    let (k, e, found) = Choice-found cur none none (some i) fm fy fc (inr (inr (fc i refl))) in
    rw e found
