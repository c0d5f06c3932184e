-- ===== src/Numset/Scan.antt =====
-- The search loop of `allocate_numset_num`.
use cmm_sdk.Common.{
  ℕ, zero, suc, ◌+◌, ◌-◌, ◌≤◌, ◌<◌, ◌≡◌, false, List, Option, some, arith, ◌==◌, length, inl, inr,
  Bool-cases,
}
use cmm_sdk.Numset.Sets.{mem, room}
use cmm_sdk.Numset.{scan}

-- The loop stops at a free number below the bound.
abbrev pub Finds : ℕ → List ℕ → Option ℕ → Type 0
Finds uint_max used r = (n : ℕ) × (r ≡ some n) × (n < uint_max) × (mem n used ≡ false)

module _ (uint_max : ℕ) (used : List ℕ) (k : ℕ) (below : k < uint_max)
    (free : mem k used ≡ false) where
  scan_up : (fuel i : ℕ) → i ≤ k → k < fuel + i → Finds uint_max used (scan fuel uint_max used i)
  unfolding scan
  scan_up zero i h m = absurd (omega arith)
  scan_up (suc fuel) i h m = elim (Bool-cases (mem i used)) [
    | inr here ↦ (i, ground arith, omega arith, here)
    | inl taken ↦
        let (n, e, lt, ok) = scan_up fuel (suc i) (ground arith) (omega arith) in
        (n, ground arith, lt, ok)
  ]

  scan_round :
      1 ≤ k
      → (fuel i : ℕ) → i ≤ uint_max
      → uint_max + k < fuel + i
      → Finds uint_max used (scan fuel uint_max used i)
  unfolding scan
  scan_round pos zero i h m = absurd (omega arith)
  scan_round pos (suc fuel) i h m = elim (Bool-cases (i == uint_max)) [
    | inl end ↦ let (n, e, lt, ok) = scan_up fuel 1 pos (ground arith) in (n, ground arith, lt, ok)
    | inr inside ↦ elim (Bool-cases (mem i used)) [
      | inr here ↦ (i, ground arith, ground arith, here)
      | inl taken ↦
          let (n, e, lt, ok) = scan_round pos fuel (suc i) (ground arith) (omega arith) in
          (n, ground arith, lt, ok)
    ]
  ]

-- While a number from 1 to `uint_max - 1` is free, two rounds of fuel find one.
pub scan_total :
    (uint_max : ℕ) (used : List ℕ) (i : ℕ)
    → i ≤ uint_max
    → length used + 1 < uint_max
    → Finds uint_max used (scan (uint_max + uint_max) uint_max used i)
scan_total uint_max used i h room_left =
    let (k, low, high, free) = room (uint_max - 1) used (omega arith) in
    scan_round uint_max used k (omega arith) free low (uint_max + uint_max) i h (omega arith)
