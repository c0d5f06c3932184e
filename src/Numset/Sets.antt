-- ===== src/Numset/Sets.antt =====
-- `std::set<unsigned int>` as a list without order.
use cmm_sdk.Common.{
  ℕ, zero, suc, ◌≤◌, ◌<◌, ◌≡◌, ◌≢◌, refl, Bool, true, false, ◌||◌, List, [], ◌∷◌, arith, ◌==◌,
  if◌then◌else◌, length, inl, inr, Bool-cases,
}

unfoldable pub mem : ℕ → List ℕ → Bool
mem n [] = false
mem n (x ∷ xs) = x == n || mem n xs

unfoldable pub insert : ℕ → List ℕ → List ℕ
unfolding mem
insert n xs = if mem n xs then xs else n ∷ xs

unfoldable pub erase : ℕ → List ℕ → List ℕ
erase n [] = []
erase n (x ∷ xs) = let rest = erase n xs in if x == n then rest else x ∷ rest

pub mem-insert : (n m : ℕ) (xs : List ℕ) → mem m (insert n xs) ≡ (n == m || mem m xs)
unfolding mem insert
mem-insert n m xs = ground arith

pub mem-erase_self : (n : ℕ) (xs : List ℕ) → mem n (erase n xs) ≡ false
unfolding mem erase
mem-erase_self n [] = refl
mem-erase_self n (x ∷ xs) = ground (arith, mem-erase_self n xs)

pub mem-erase_ne : (n m : ℕ) (xs : List ℕ) → n ≢ m → mem m (erase n xs) ≡ mem m xs
unfolding mem erase
mem-erase_ne n m [] h = refl
mem-erase_ne n m (x ∷ xs) h = ground (arith, mem-erase_ne n m xs)

pub mem-erase : (n m : ℕ) (xs : List ℕ) → mem m (erase n xs) ≡ true → (n ≢ m) × (mem m xs ≡ true)
unfolding mem erase
mem-erase n m [] h = cc
mem-erase n m (x ∷ xs) h =
    (λ e. cc (rw (← e) at h, mem-erase_self n (x ∷ xs)), ground (arith, mem-erase n m xs))

length-erase-le : (n : ℕ) (xs : List ℕ) → length (erase n xs) ≤ length xs
unfolding erase
length-erase-le n [] = omega arith
length-erase-le n (x ∷ xs) = ground (arith, length-erase-le n xs)

length-erase-lt : (n : ℕ) (xs : List ℕ) → mem n xs ≡ true → length (erase n xs) < length xs
unfolding mem erase
length-erase-lt n [] h = cc
length-erase-lt n (x ∷ xs) h = ground (arith, length-erase-le n xs, length-erase-lt n xs)

-- A set of fewer than `n` numbers leaves one of 1 to `n` out.
pub room : (n : ℕ) (xs : List ℕ) → length xs < n → (k : ℕ) × (1 ≤ k) × (k ≤ n) × (mem k xs ≡ false)
room zero xs h = absurd (omega arith)
room (suc n) xs h = elim (Bool-cases (mem (suc n) xs)) [
  | inr free ↦ (suc n, omega arith, omega arith, free)
  | inl used ↦
      let (k, low, high, free) =
        room n (erase (suc n) xs) (omega (arith, length-erase-lt (suc n) xs used)) in
      (k, low, omega arith, other k high free)
]
  where
    other : (k : ℕ) → k ≤ n → mem k (erase (suc n) xs) ≡ false → mem k xs ≡ false
    other k high free = ground (arith, mem-erase_ne (suc n) k xs)
