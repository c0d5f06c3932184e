-- ===== src/Util/Validate/Options/Exact.antt =====
-- Which offsets `validateDatetimeLocalOffset` accepts.
use cmm_sdk.Common.{
  ℕ, zero, suc, ◌≤◌, ◌≡◌, ◌≢◌, ◌↔◌, refl, true, false, List, [], ◌∷◌, ◌++◌, arith, All, ◌⊎◌, inl,
  inr, sym, subst, Bool-cases, ◌==◌, ==_iff, ◌<◌,
}
use cmm_sdk.Common.Text.{Text, codes, contains, text_eq, text_eq_iff}
use cmm_sdk.Util.Validate.Clock.Exact.{two_digits}
use cmm_sdk.Util.Validate.Options.{offsets, validate_datetime_local_offset}

contains-All :
    (P : Text → Type 0) (xs : List Text) (s : Text) → All P xs → contains xs s ≡ true → P s
unfolding contains
contains-All P [] s h k = absurd (false-true k)
  where
    false-true : false ≢ true
    false-true e = cc
contains-All P (x ∷ xs) s h k = elim (Bool-cases (text_eq x s)) [
  | inl e ↦ subst P ((text_eq_iff x s).0 e) h.0
  | inr e ↦ contains-All P xs s h.1 (ground (arith, e, k))
]

-- A whole number of hours from -12 to +12; zero has the sign plus.
abbrev pub IsOffset : Text → Type 0
IsOffset s =
    (sign : ℕ) × (n : ℕ) × (n ≤ 12)
    × ((sign ≡ b'+') ⊎ ((sign ≡ b'-') × (n ≢ 0)))
    × (s ≡ (sign ∷ two_digits n) ++ codes ":00")

ahead : (n : ℕ) → n ≤ 12 → IsOffset ((b'+' ∷ two_digits n) ++ codes ":00")
ahead n h = (b'+', n, h, inl refl, refl)

behind : (n : ℕ) → n ≤ 12 → n ≢ 0 → IsOffset ((b'-' ∷ two_digits n) ++ codes ":00")
behind n h k = (b'-', n, h, inr (refl, k), refl)

offsets-All : All IsOffset offsets
unfolding offsets
offsets-All = (
  behind 12 (omega arith) (omega arith),
  (
    behind 11 (omega arith) (omega arith),
    (
      behind 10 (omega arith) (omega arith),
      (
        behind 9 (omega arith) (omega arith),
        (
          behind 8 (omega arith) (omega arith),
          (
            behind 7 (omega arith) (omega arith),
            (
              behind 6 (omega arith) (omega arith),
              (
                behind 5 (omega arith) (omega arith),
                (
                  behind 4 (omega arith) (omega arith),
                  (
                    behind 3 (omega arith) (omega arith),
                    (
                      behind 2 (omega arith) (omega arith),
                      (
                        behind 1 (omega arith) (omega arith),
                        (
                          ahead 0 (omega arith),
                          (
                            ahead 1 (omega arith),
                            (
                              ahead 2 (omega arith),
                              (
                                ahead 3 (omega arith),
                                (
                                  ahead 4 (omega arith),
                                  (
                                    ahead 5 (omega arith),
                                    (
                                      ahead 6 (omega arith),
                                      (
                                        ahead 7 (omega arith),
                                        (
                                          ahead 8 (omega arith),
                                          (
                                            ahead 9 (omega arith),
                                            (
                                              ahead 10 (omega arith),
                                              (
                                                ahead 11 (omega arith),
                                                (ahead 12 (omega arith), tt),
                                              ),
                                            ),
                                          ),
                                        ),
                                      ),
                                    ),
                                  ),
                                ),
                              ),
                            ),
                          ),
                        ),
                      ),
                    ),
                  ),
                ),
              ),
            ),
          ),
        ),
      ),
    ),
  ),
)

Below : (ℕ → Type 0) → ℕ → Type 0
Below P zero = Unit
Below P (suc k) = P k × Below P k

Below-at : (P : ℕ → Type 0) (k n : ℕ) → Below P k → n < k → P n
unfolding Below
Below-at P zero n h lt = absurd (omega arith)
Below-at P (suc k) n h lt = elim (Bool-cases (n == k)) [
  | inl e ↦ subst P (sym ((==_iff n k).0 e)) h.0
  | inr e ↦ Below-at P k n h.1 (ground (arith, ==_iff n k))
]

known_ahead : (n : ℕ) → n ≤ 12 → contains offsets ((b'+' ∷ two_digits n) ++ codes ":00") ≡ true
unfolding offsets contains text_eq Below
known_ahead n h =
    Below-at (λ k. contains offsets ((b'+' ∷ two_digits k) ++ codes ":00") ≡ true) 13 n
      (
        refl,
        (
          refl,
          (
            refl,
            (refl, (refl, (refl, (refl, (refl, (refl, (refl, (refl, (refl, (refl, tt)))))))))),
          ),
        ),
      )
      (omega (arith, h))

known_behind :
    (n : ℕ) → n ≤ 12 → n ≢ 0 → contains offsets ((b'-' ∷ two_digits n) ++ codes ":00") ≡ true
unfolding offsets contains text_eq Below
known_behind n h k =
    Below-at (λ k. k ≢ 0 → contains offsets ((b'-' ∷ two_digits k) ++ codes ":00") ≡ true) 13 n
      (
        λ z. refl,
        (
          λ z. refl,
          (
            λ z. refl,
            (
              λ z. refl,
              (
                λ z. refl,
                (
                  λ z. refl,
                  (
                    λ z. refl,
                    (
                      λ z. refl,
                      (
                        λ z. refl,
                        (λ z. refl, (λ z. refl, (λ z. refl, (λ z. absurd (z refl), tt)))),
                      ),
                    ),
                  ),
                ),
              ),
            ),
          ),
        ),
      )
      (omega (arith, h)) k

known : (s : Text) → IsOffset s → contains offsets s ≡ true
known s (sign, n, h, inl p, e) =
    subst (λ x. contains offsets x ≡ true) (sym e)
      (subst (λ c. contains offsets ((c ∷ two_digits n) ++ codes ":00") ≡ true) (sym p)
        (known_ahead n h))
known s (sign, n, h, inr (p, k), e) =
    subst (λ x. contains offsets x ≡ true) (sym e)
      (subst (λ c. contains offsets ((c ∷ two_digits n) ++ codes ":00") ≡ true) (sym p)
        (known_behind n h k))

-- A text is taken for an offset to UTC exactly when it is a whole number of hours from -12 to +12,
-- written with its sign, two digits and `:00`; zero is only written with plus.
pub validate_datetime_local_offset_exact :
    (s : Text) → (validate_datetime_local_offset s ≡ true) ↔ IsOffset s
unfolding validate_datetime_local_offset
validate_datetime_local_offset_exact s =
    (λ h. contains-All IsOffset offsets s offsets-All h, λ h. known s h)
