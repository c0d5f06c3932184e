-- ===== src/Chassis/Insert.antt =====
-- `insert_module_id` puts the id behind each name.
use cmm_sdk.Common.{
  length-drop, ℕ, zero, suc, ◌+◌, ◌-◌, ◌≤◌, ◌<◌, ◌≡◌, refl, sym, ap, subst, ◌∙◌, inl, inr, true,
  false, Option, some, [], ◌∷◌, ◌++◌, append_assoc, append-nil, arith, ltb, length, take, drop,
  Bool-cases,
}
use cmm_sdk.Common.Text.{Text, find}
use cmm_sdk.Util.Names.{drop-drop}
use cmm_sdk.Util.Validate.Address.{int_max}
use cmm_sdk.Chassis.{
  manager_id, system_id, chassis_id, find_from, next_index, insert_loop, insert_module_id,
}
use cmm_sdk.Chassis.Marked.{Name, Marked, one_of, copied, marked, take-find, length-find}
use cmm_sdk.Chassis.Choice.{find_from-shift, Fits, Choice, choice}

find-Fits :
    (p s : Text) (cur : ℕ)
    → cur ≤ length s
    → length s ≤ int_max
    → 0 < length p
    → Fits cur (find p (drop cur s))
find-Fits p s cur h small more i there =
    omega (arith, length-find p (drop cur s) i there, length-drop cur s, h, small, more)

Name-find :
    {name : Text} (n : Name name) (x : Text) (i : ℕ)
    → one_of (λ p. Option ℕ) n (find manager_id x) (find system_id x) (find chassis_id x) ≡ some i
    → find name x ≡ some i
Name-find Name.manager x i h = h
Name-find Name.system x i h = h
Name-find Name.chassis x i h = h

assoc4 : (r a n d t : Text) → ((r ++ (a ++ n)) ++ d) ++ t ≡ r ++ (a ++ (n ++ (d ++ t)))
assoc4 r a n d t =
    append_assoc (r ++ (a ++ n)) d t
    ∙ append_assoc r (a ++ n) (d ++ t)
    ∙ ap (◌++◌ r) (append_assoc a n (d ++ t))

drop_all_of : (n : ℕ) (s : Text) → length s ≤ n → drop n s ≡ []
drop_all_of zero [] h = refl
drop_all_of (suc n) [] h = refl
drop_all_of zero (c ∷ s) h = ground (arith, h)
drop_all_of (suc n) (c ∷ s) h = drop_all_of n s (omega (arith, h))

behind : (cur i n : ℕ) → (i + cur) + n ≡ cur + (i + n)
behind cur i n = omega arith

Name-length : {name : Text} → Name name → 0 < length name
Name-length Name.manager = omega arith
Name-length Name.system = omega arith
Name-length Name.chassis = omega arith

module _ (s module_id : Text) where
  abbrev found_next : ℕ → Option ℕ
  found_next cur =
      next_index (find_from manager_id s cur) (find_from system_id s cur)
        (find_from chassis_id s cur)

  -- From `cur` the loop ends, and adds the rest of the text with the ids put in.
  abbrev Goes : ℕ → ℕ → Text → Type 0
  Goes fuel cur result =
      (t : Text) × (insert_loop fuel s module_id cur result ≡ some (result ++ t))
      × Marked module_id (drop cur s) t

  abbrev Picked : ℕ → Option ℕ → Type 0
  Picked cur =
      Choice cur (find manager_id (drop cur s)) (find system_id (drop cur s))
        (find chassis_id (drop cur s))

  picked : (cur : ℕ) → cur ≤ length s → length s ≤ int_max → Picked cur (found_next cur)
  picked cur h small =
      rw
        (
          find_from-shift manager_id s cur h,
          find_from-shift system_id s cur h,
          find_from-shift chassis_id s cur h,
        )
        (choice cur _ _ _ (find-Fits manager_id s cur h small (omega arith))
          (find-Fits system_id s cur h small (omega arith))
          (find-Fits chassis_id s cur h small (omega arith)))

  ends :
      (fuel cur : ℕ) (result : Text)
      → length s ≤ cur
      → insert_loop (suc fuel) s module_id cur result ≡ some result
  unfolding insert_loop
  ends fuel cur result h =
      let e : ltb cur (length s) ≡ false = ground (arith, h) in rw (e, insert_loop) refl

  -- A round of the loop, if the rounds behind it go well.
  round :
      (fuel cur : ℕ) (result : Text) (o : Option ℕ)
      → cur < length s
      → length s ≤ int_max
      → length s - cur < suc fuel
      → ((next : ℕ) (r : Text) → next ≤ length s → length s - next < fuel → Goes fuel next r)
      → found_next cur ≡ o
      → Picked cur o
      → Goes (suc fuel) cur result
  unfolding insert_loop
  round zero cur result o more small enough rest e k = ground (arith, more, enough)
  round (suc fuel) cur result o more small enough rest e (Choice.nothing m y c) =
      let on : ltb cur (length s) ≡ true = ground (arith, more) in
      (
        drop cur s,
        rw (on, insert_loop)
            (rw (e, insert_loop) (ends fuel (length s) (result ++ drop cur s) (omega arith))),
        copied module_id (drop cur s) m y c,
      )
  round (suc fuel) cur result o more small enough rest e (Choice.first {name} n i there hm hy hc) =
      let on : ltb cur (length s) ≡ true = ground (arith, more) in
      let x = drop cur s in
      let move = (i + cur) + length name in
      let at_i : find name x ≡ some i = Name-find n x i there in
      let fits : i + length name ≤ length x = length-find name x i at_i in
      let some_name : 0 < length name = Name-length n in
      let same : move - cur ≡ i + length name = omega arith in
      let part : take (move - cur) x ≡ take i x ++ name =
        ap (λ k. take k x) same ∙ take-find name x i at_i in
      let (t, eq, good) =
        rest move ((result ++ take (move - cur) x) ++ (b'/' ∷ module_id))
          (omega (arith, fits, length-drop cur s, more)) (omega (arith, enough, some_name, more)) in
      let left : drop move s ≡ drop (length name) (drop i x) =
        ap (λ k. drop k s) (behind cur i (length name))
        ∙ sym (drop-drop cur (i + length name) s)
        ∙ sym (drop-drop i (length name) x) in
      (
        take i x ++ (name ++ ((b'/' ∷ module_id) ++ t)),
        rw (on, insert_loop)
            (rw (e, insert_loop)
              (eq
                ∙ ap some (
                    ap (λ u. ((result ++ u) ++ (b'/' ∷ module_id)) ++ t) part
                    ∙ assoc4 result (take i x) name (b'/' ∷ module_id) t))),
        marked module_id i x t n at_i hm hy hc (subst (λ r. Marked module_id r t) left good),
      )

  loop :
      (fuel cur : ℕ) (result : Text)
      → cur ≤ length s
      → length s ≤ int_max
      → length s - cur < fuel
      → Goes fuel cur result
  loop zero cur result h small enough = ground (arith, enough)
  loop (suc fuel) cur result h small enough = elim (Bool-cases (ltb cur (length s))) [
    | inl more ↦
        round fuel cur result _ (ground (arith, more)) small enough
          (λ next r fits less. loop fuel next r fits small less) refl (picked cur h small)
    | inr full ↦
        let over : length s ≤ cur = ground (arith, full) in
        (
          [],
          ends fuel cur result over ∙ ap some (sym (append-nil result)),
          subst (λ r. Marked module_id r []) (sym (drop_all_of cur s over)) Marked.stop,
        )
  ]

-- For an answer that is not longer than an `int`, `insert_module_id` ends, and its text is the
-- answer with the id put behind each of the three names, from left to right.
pub insert_module_id-Marked :
    (s module_id : Text)
    → length s ≤ int_max
    → (t : Text) × (insert_module_id s module_id ≡ some t) × Marked module_id s t
unfolding insert_module_id
insert_module_id-Marked s module_id small =
    loop s module_id (suc (length s)) 0 [] (omega arith) small (omega arith)
