-- ===== src/Chassis/Marked.antt =====
-- What `insert_module_id` makes of an answer.
use cmm_sdk.Common.{
  ℕ, zero, suc, ◌+◌, ◌≤◌, ◌≡◌, refl, sym, ap, subst, ◌∙◌, inl, inr, true, false, none, some, [],
  ◌∷◌, ◌++◌, arith, length, take, drop, take_all, Bool-cases, Option-cases,
}
use cmm_sdk.Common.Text.{Text, find, is_prefix, is_prefix-append}
use cmm_sdk.Util.Names.{zero-add, suc-add, is_prefix-length}
use cmm_sdk.Chassis.{manager_id, system_id, chassis_id}

-- The names behind which the id is put.
pub data Name : Text → Type 0 where
  manager : Name manager_id
  system : Name system_id
  chassis : Name chassis_id

-- One pass over the text: at each name, the id is put behind it, and all else is copied.
pub data Marked (module_id : Text) : Text → Text → Type 0 where
  stop : Marked module_id [] []
  copy :
      (c : ℕ) {s t : Text}
      → is_prefix manager_id (c ∷ s) ≡ false
      → is_prefix system_id (c ∷ s) ≡ false
      → is_prefix chassis_id (c ∷ s) ≡ false
      → Marked module_id s t
      → Marked module_id (c ∷ s) (c ∷ t)
  mark :
      {name s t : Text}
      → Name name
      → Marked module_id s t
      → Marked module_id (name ++ s) (name ++ ((b'/' ∷ module_id) ++ t))

-- `p` does not stand in `s`.
abbrev pub Absent : Text → Text → Type 0
Absent p s = find p s ≡ none

-- `p` does not stand in `s` before the position `i`.
abbrev pub Later : ℕ → Text → Text → Type 0
Later i p s = (j : ℕ) → find p s ≡ some j → i ≤ j

find_none : (p s : Text) (c : ℕ) → Absent p (c ∷ s) → (is_prefix p (c ∷ s) ≡ false) × Absent p s
unfolding find
find_none p s c h = elim (Bool-cases (is_prefix p (c ∷ s))) [
  | inl e ↦ cc (rw e at h)
  | inr e ↦ elim (Option-cases (find p s)) [
    | inl none_there ↦ (e, none_there)
    | inr (i, there) ↦ cc (rw there at (rw e at h))
  ]
]

find-Later :
    (p s : Text) (c i : ℕ) → Later (suc i) p (c ∷ s) → (is_prefix p (c ∷ s) ≡ false) × Later i p s
unfolding find
find-Later p s c i h = elim (Bool-cases (is_prefix p (c ∷ s))) [
  | inl e ↦ let bad : suc i ≤ 0 = h 0 (rw e refl) in ground (arith, bad)
  | inr e ↦ (e, λ j there. omega (arith, h (suc j) (rw (e, there) refl)))
]

find_there :
    (p s : Text) (c i : ℕ)
    → is_prefix p (c ∷ s) ≡ false
    → find p (c ∷ s) ≡ some (suc i)
    → find p s ≡ some i
unfolding find
find_there p s c i e h = elim (Option-cases (find p s)) [
  | inl none_there ↦ cc (rw none_there at (rw e at h))
  | inr (j, there) ↦ ground (arith, rw there at (rw e at h), there)
]

find_head : (p s : Text) → find p s ≡ some 0 → is_prefix p s ≡ true
unfolding find
find_head p [] h = elim (Bool-cases (is_prefix p [])) [ inl e ↦ e | inr e ↦ cc (rw e at h) ]
find_head p (c ∷ s) h = elim (Bool-cases (is_prefix p (c ∷ s))) [
  | inl e ↦ e
  | inr e ↦ elim (Option-cases (find p s)) [
    | inl none_there ↦ cc (rw none_there at (rw e at h))
    | inr (i, there) ↦ cc (rw there at (rw e at h))
  ]
]

find_empty : (p : Text) (i : ℕ) → find p [] ≡ some (suc i) → true ≡ false
unfolding find
find_empty p i h = elim (Bool-cases (is_prefix p [])) [
  | inl e ↦ cc (rw e at h)
  | inr e ↦ cc (rw e at h)
]

find_zero : (p s : Text) (c : ℕ) → is_prefix p (c ∷ s) ≡ true → find p (c ∷ s) ≡ some 0
unfolding find
find_zero p s c e = rw e refl

abbrev pub one_of :
    {name : Text} (P : Text → Type 0)
    → Name name
    → P manager_id
    → P system_id
    → P chassis_id
    → P name
one_of P manager m y c = m
one_of P system m y c = y
one_of P chassis m y c = c

module _ (module_id : Text) where
  pub copied :
      (s : Text)
      → Absent manager_id s
      → Absent system_id s
      → Absent chassis_id s
      → Marked module_id s s
  copied [] m y c = stop
  copied (d ∷ s) m y c =
      let (m0, m1) = find_none manager_id s d m in
      let (y0, y1) = find_none system_id s d y in
      let (c0, c1) = find_none chassis_id s d c in copy d m0 y0 c0 (copied s m1 y1 c1)

  pub marked :
      {name : Text} (i : ℕ) (s t : Text)
      → Name name
      → find name s ≡ some i
      → Later i manager_id s
      → Later i system_id s
      → Later i chassis_id s
      → Marked module_id (drop (length name) (drop i s)) t
      → Marked module_id s (take i s ++ (name ++ ((b'/' ∷ module_id) ++ t)))
  marked {name} zero s t n there m y c rest =
      subst (λ r. Marked module_id r (name ++ ((b'/' ∷ module_id) ++ t)))
        (sym (is_prefix-append name s (find_head name s there))) (mark n rest)
  marked {name} (suc i) [] t n there m y c rest = cc (find_empty name i there)
  marked {name} (suc i) (d ∷ s) t n there m y c rest =
      let (m0, m1) = find-Later manager_id s d i m in
      let (y0, y1) = find-Later system_id s d i y in
      let (c0, c1) = find-Later chassis_id s d i c in
      let not_here : is_prefix name (d ∷ s) ≡ false =
        one_of (λ p. is_prefix p (d ∷ s) ≡ false) n m0 y0 c0 in
      copy d m0 y0 c0 (marked i s t n (find_there name s d i not_here there) m1 y1 c1 rest)

pub take-find : (p s : Text) (i : ℕ) → find p s ≡ some i → take (i + length p) s ≡ take i s ++ p
take-find p s zero h =
    let e = is_prefix-append p s (find_head p s h) in
    ap (λ n. take n s) (sym (zero-add (length p)))
    ∙ ap (take (length p)) e
    ∙ take_all p (drop (length p) s)
take-find p [] (suc i) h = cc (find_empty p i h)
take-find p (c ∷ s) (suc i) h = elim (Bool-cases (is_prefix p (c ∷ s))) [
  | inl e ↦ cc (sym (find_zero p s c e) ∙ h)
  | inr e ↦
      ap (λ n. take n (c ∷ s)) (sym (suc-add i (length p)))
      ∙ ap (◌∷◌ c) (take-find p s i (find_there p s c i e h))
]

pub length-find : (p s : Text) (i : ℕ) → find p s ≡ some i → i + length p ≤ length s
length-find p s zero h = omega (arith, is_prefix-length p s (find_head p s h))
length-find p [] (suc i) h = cc (find_empty p i h)
length-find p (c ∷ s) (suc i) h = elim (Bool-cases (is_prefix p (c ∷ s))) [
  | inl e ↦ cc (sym (find_zero p s c e) ∙ h)
  | inr e ↦ omega (arith, length-find p s i (find_there p s c i e h))
]
