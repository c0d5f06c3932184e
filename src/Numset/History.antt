-- ===== src/Numset/History.antt =====
-- Histories of calls on one index.
use cmm_sdk.Common.{ℕ, ◌≡◌, ◌≢◌, refl, true, false, List, [], ◌∷◌, some, arith, ◌⊎◌, inl, inr, sym}
use cmm_sdk.Numset.Sets.{mem, erase, mem-insert, mem-erase, mem-erase_ne}
use cmm_sdk.Numset.Fresh.{allocate-IsFresh}
use cmm_sdk.Numset.{Numsets, update, allocate_numset_num, insert_numset_num, delete_numset_num}

-- The sets, and the numbers of one index that stand for a resource each.
pub record Held : Type 0 where
  pub sets : Numsets
  pub held : List ℕ

-- One call, as the program makes it: a number is allocated for a new resource, inserted for a loaded
-- one whose number no other has, deleted with the resource that has it; or the call is for another
-- index.
pub data Step (index : ℕ) (h k : Held) : Type 0 where
  allocates :
      (n : ℕ)
      → allocate_numset_num h.sets index ≡ some (n, k.sets)
      → k.held ≡ n ∷ h.held
      → Step index h k
  inserts :
      (n : ℕ)
      → mem n h.held ≡ false
      → k.sets ≡ insert_numset_num h.sets index n
      → k.held ≡ n ∷ h.held
      → Step index h k
  deletes :
      (n : ℕ)
      → mem n h.held ≡ true
      → k.sets ≡ delete_numset_num h.sets index n
      → k.held ≡ erase n h.held
      → Step index h k
  elsewhere :
      (j n : ℕ)
      → j ≢ index
      → (allocate_numset_num h.sets j ≡ some (n, k.sets))
        ⊎ ((k.sets ≡ insert_numset_num h.sets j n) ⊎ (k.sets ≡ delete_numset_num h.sets j n))
      → k.held ≡ h.held
      → Step index h k

pub data Reach (index : ℕ) (h : Held) : Held → Type 0 where
  here : Reach index h h
  next : {k l : Held} → Reach index h k → Step index k l → Reach index h l

-- No number stands twice in the list.
abbrev pub IsDistinct : List ℕ → Type 0
IsDistinct [] = Unit
IsDistinct (x ∷ xs) = (mem x xs ≡ false) × IsDistinct xs

pub record Inv (index : ℕ) (h : Held) : Type 0 where
  pub distinct : IsDistinct h.held
  pub within_set : (n : ℕ) → mem n h.held ≡ true → mem n (h.sets.numset index) ≡ true

mem-erase-false : (n m : ℕ) (xs : List ℕ) → mem m xs ≡ false → mem m (erase n xs) ≡ false
unfolding mem erase
mem-erase-false n m [] h = refl
mem-erase-false n m (x ∷ xs) h = ground (arith, mem-erase-false n m xs)

erase-IsDistinct : (n : ℕ) (xs : List ℕ) → IsDistinct xs → IsDistinct (erase n xs)
unfolding erase mem
erase-IsDistinct n [] h = tt
erase-IsDistinct n (x ∷ xs) h =
    ground (arith, erase-IsDistinct n xs h.1, mem-erase-false n x xs h.0)

elsewhere_keeps :
    (index j n : ℕ) (s t : Numsets)
    → j ≢ index
    → (allocate_numset_num s j ≡ some (n, t))
      ⊎ ((t ≡ insert_numset_num s j n) ⊎ (t ≡ delete_numset_num s j n))
    → t.numset index ≡ s.numset index
unfolding insert_numset_num delete_numset_num update
elsewhere_keeps index j n s t d (inl e) =
    ((allocate-IsFresh s t j n e).others index (λ p. d (sym p))).0
elsewhere_keeps index j n s t d (inr (inl e)) = rw e (ground (arith, d))
elsewhere_keeps index j n s t d (inr (inr e)) = rw e (ground (arith, d))

Step-Inv : (index : ℕ) {h k : Held} → Step index h k → Inv index h → Inv index k
unfolding mem insert_numset_num delete_numset_num update
Step-Inv index {h} {k} (allocates n e held) v =
    let f = allocate-IsFresh h.sets k.sets index n e in
    record {
      distinct = ground (arith, f.was_free, v.within_set n);
      within_set = λ m q. ground (arith, f.taken m, v.within_set m);
    }
Step-Inv index {h} {k} (inserts n new e held) v = record {
  distinct = ground (arith, v.distinct);
  within_set = λ m q. ground (arith, v.within_set m, mem-insert n m (h.sets.numset index));
}
Step-Inv index {h} {k} (deletes n own e held) v = record {
  distinct = ground (arith, erase-IsDistinct n h.held v.distinct);
  within_set = λ m q.
      let (other, old) = mem-erase n m h.held (rw held at q) in
      ground (arith, v.within_set m, mem-erase_ne n m (h.sets.numset index));
}
Step-Inv index {h} {k} (elsewhere j n d call held) v =
    let same = elsewhere_keeps index j n h.sets k.sets d call in
    record {
      distinct = ground (arith, v.distinct);
      within_set = λ m q. ground (arith, v.within_set m, same);
    }

-- Starting with no resources, after any history of allocations, insertions of numbers that no other
-- resource has, deletions of numbers that one has, and calls for other indexes, no two resources have
-- the same number, and the number of each is in the set.
pub Reach-Inv : (index : ℕ) (h : Held) {k : Held} → h.held ≡ [] → Reach index h k → Inv index k
unfolding mem
Reach-Inv index h e here = record { distinct = ground arith; within_set = λ m q. ground arith }
Reach-Inv index h e (next r st) = Step-Inv index st (Reach-Inv index h e r)
