-- ===== src/Numset/Fresh.antt =====
-- What one call of the allocator does.
use cmm_sdk.Common.{
  ℕ, zero, suc, ◌+◌, ◌≤◌, ◌<◌, ◌≡◌, ◌≢◌, false, ◌||◌, List, some, arith, ◌==◌, length,
}
use cmm_sdk.Numset.Sets.{mem, mem-insert, mem-erase_self}
use cmm_sdk.Numset.Scan.{scan_total}
use cmm_sdk.Numset.{
  Numsets, update, scan, take_num, allocate_below, uint_max, allocate_numset_num, delete_numset_num,
}

-- `n` was free and is now taken, and nothing else changed.
pub record IsFresh (s : Numsets) (index n : ℕ) (t : Numsets) : Type 0 where
  pub was_free : mem n (s.numset index) ≡ false
  pub taken : (m : ℕ) → mem m (t.numset index) ≡ (n == m || mem m (s.numset index))
  pub cursor : t.numset_num index ≡ n
  pub others : (j : ℕ) → j ≢ index → (t.numset j ≡ s.numset j) × (t.numset_num j ≡ s.numset_num j)

scan-free :
    (fuel max : ℕ) (used : List ℕ) (i n : ℕ) → scan fuel max used i ≡ some n → mem n used ≡ false
unfolding scan
scan-free zero max used i n h = cc
scan-free (suc fuel) max used i n h =
    ground (arith, scan-free fuel max used 1 n, scan-free fuel max used (suc i) n)

allocate_below-IsFresh :
    (max : ℕ) (s t : Numsets) (index n : ℕ)
    → allocate_below max s index ≡ some (n, t)
    → IsFresh s index n t
unfolding allocate_below take_num update
allocate_below-IsFresh max s t index n h = record {
  was_free = ground (arith, scan-free (max + max) max (s.numset index) (s.numset_num index) n);
  taken = λ m. ground (arith, mem-insert n m (s.numset index));
  cursor = ground arith;
  others = λ j d. ground arith;
}

-- A number that the allocator returns was not in the set. Afterwards the set holds it besides what
-- it held, the search starts at it, and the sets and cursors of the other indexes are as before.
pub allocate-IsFresh :
    (s t : Numsets) (index n : ℕ) → allocate_numset_num s index ≡ some (n, t) → IsFresh s index n t
unfolding allocate_numset_num
allocate-IsFresh s t index n h = allocate_below-IsFresh uint_max s t index n h

-- The allocator ends with a fresh number below UINT_MAX whenever the set holds fewer than
-- UINT_MAX - 1 numbers and the search starts at most at UINT_MAX.
pub allocate_total :
    (s : Numsets) (index : ℕ)
    → s.numset_num index ≤ uint_max
    → length (s.numset index) + 1 < uint_max
    → (n : ℕ) × (t : Numsets) × (allocate_numset_num s index ≡ some (n, t))
      × IsFresh s index n t
      × (n < uint_max)
unfolding allocate_numset_num allocate_below
allocate_total s index h room_left =
    let (n, e, lt, free) = scan_total uint_max (s.numset index) (s.numset_num index) h room_left in
    let t = take_num s index n in
    let done : allocate_below uint_max s index ≡ some (n, t) = rw (e, allocate_below) in
    (n, t, done, allocate_below-IsFresh uint_max s t index n done, lt)

scan_hit :
    (fuel max : ℕ) (used : List ℕ) (i : ℕ)
    → 0 < fuel
    → i < max
    → mem i used ≡ false
    → scan fuel max used i ≡ some i
unfolding scan
scan_hit zero max used i pos lt h = absurd (omega arith)
scan_hit (suc fuel) max used i pos lt h = ground arith

allocate_below_again :
    (max : ℕ) (t : Numsets) (index n : ℕ)
    → n < max
    → t.numset_num index ≡ n
    → (u : Numsets) × (allocate_below max (delete_numset_num t index n) index ≡ some (n, u))
unfolding delete_numset_num update allocate_below
allocate_below_again max t index n lt e =
    let d = delete_numset_num t index n in
    let gone : mem n (d.numset index) ≡ false = ground (arith, mem-erase_self n (t.numset index)) in
    let hit : scan (max + max) max (d.numset index) (d.numset_num index) ≡ some n =
      rw e (scan_hit (max + max) max (d.numset index) n (omega arith) lt gone) in
    (take_num d index n, rw (hit, allocate_below))

-- A number below UINT_MAX that is given back right after it was handed out is the next one to be
-- handed out.
pub allocate-delete-allocate :
    (s t : Numsets) (index n : ℕ)
    → allocate_numset_num s index ≡ some (n, t)
    → n < uint_max
    → (u : Numsets) × (allocate_numset_num (delete_numset_num t index n) index ≡ some (n, u))
unfolding allocate_numset_num
allocate-delete-allocate s t index n h lt =
    allocate_below_again uint_max t index n lt (allocate-IsFresh s t index n h).cursor
