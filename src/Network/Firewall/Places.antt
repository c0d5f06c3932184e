-- ===== src/Network/Firewall/Places.antt =====
-- Putting a rule into a chain, or exchanging one, behind the rules that stand in front.
use cmm_sdk.Common.{
  suc, ◌<◌, ◌≤◌, ◌≡◌, refl, ap, List, [], ◌∷◌, ◌++◌, arith, take, drop, length, take_all, drop_all,
  length-append,
}

module _ {ℓ} {A : Type ℓ} where
  pub room : (zs pre xs : List A) → zs ≡ pre ++ xs → length pre ≤ length zs
  room zs pre xs h = omega (arith, ap length h, length-append pre xs)

  pub room_for : (o : A) (zs pre xs : List A) → zs ≡ pre ++ o ∷ xs → length pre < length zs
  room_for o zs pre xs h = omega (arith, ap length h, length-append pre (o ∷ xs))

  drop-suc : (o : A) (pre xs : List A) → drop (suc (length pre)) (pre ++ o ∷ xs) ≡ xs
  drop-suc o [] xs = refl
  drop-suc o (p ∷ pre) xs = drop-suc o pre xs

  pub placed :
      (r : A) (zs pre xs : List A)
      → zs ≡ pre ++ xs
      → take (length pre) zs ++ r ∷ drop (length pre) zs ≡ pre ++ r ∷ xs
  placed r zs pre xs h = rw (h, take_all pre xs, drop_all pre xs)

  pub exchanged :
      (r o : A) (zs pre xs : List A)
      → zs ≡ pre ++ o ∷ xs
      → take (length pre) zs ++ r ∷ drop (suc (length pre)) zs ≡ pre ++ r ∷ xs
  exchanged r o zs pre xs h = rw (h, take_all pre (o ∷ xs), drop-suc o pre xs)

  pub snoc-length : (pre : List A) (r : A) → length (pre ++ r ∷ []) ≡ suc (length pre)
  snoc-length pre r = omega (arith, length-append pre (r ∷ []))
