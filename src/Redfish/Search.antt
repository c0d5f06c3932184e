-- ===== src/Redfish/Search.antt =====
-- The loops `for(iter = members.begin(); …)` that stop at the first member that passes a test.
use cmm_sdk.Common.{
  ℕ, Bool, true, false, Option, none, some, List, [], ◌∷◌, ◌++◌, ◌≡◌, refl, ◌⊎◌, inl, inr,
  if◌then◌else◌, All, Bool-cases, subst, sym,
}

module _ {A : Type 0} (read : ℕ → Option A) (test : A → Bool) where
  -- `none`: a member that is not alive is read. `some none`: `iter == members.end()`.
  unfoldable pub first_ptr : List ℕ → Option (Option ℕ)
  first_ptr [] = some none
  first_ptr (p ∷ ps) =
      let rest = first_ptr ps in
      elim (read p) [ none ↦ none | some a ↦ if test a then some (some p) else rest ]

abbrev pub In : ℕ → List ℕ → Type 0
In p [] = ⊥
In p (x ∷ xs) = (p ≡ x) ⊎ In p xs

pub All-In : (P : ℕ → Type 0) (p : ℕ) (xs : List ℕ) → All P xs → In p xs → P p
All-In P p [] h i = absurd i
All-In P p (x ∷ xs) h (inl e) = subst P (sym e) h.0
All-In P p (x ∷ xs) h (inr i) = All-In P p xs h.1 i

module _ {A : Type 0} (read : ℕ → Option A) (test : A → Bool) where
  -- The pointer points to a live object.
  abbrev pub IsLive : ℕ → Type 0
  IsLive p = (a : A) × (read p ≡ some a)

  abbrev pub Match : List ℕ → Option ℕ → Type 0
  Match ps none = All (λ p. (a : A) × (read p ≡ some a) × (test a ≡ false)) ps
  Match ps (some p) = (a : A) × (read p ≡ some a) × (test a ≡ true) × In p ps

  abbrev pub Finds : List ℕ → Type 0
  Finds ps = (o : Option ℕ) × (first_ptr read test ps ≡ some o) × Match ps o

  weaken :
      (p : ℕ) (ps : List ℕ) (o : Option ℕ)
      → (a : A) → read p ≡ some a
      → test a ≡ false
      → Match ps o
      → Match (p ∷ ps) o
  weaken p ps none a e t m = ((a, e, t), m)
  weaken p ps (some q) a e t m = (m.0, m.1, m.2, inr m.3)

  -- Over live members the loop ends, at a member that passes or at the end of those that do not.
  pub first_ptr-Finds : (ps : List ℕ) → All IsLive ps → Finds ps
  unfolding first_ptr
  first_ptr-Finds [] h = (none, refl, tt)
  first_ptr-Finds (p ∷ ps) h = elim (Bool-cases (test h.0.0)) [
    | inl hit ↦ (some p, rw (h.0.1, first_ptr, hit), (h.0.0, h.0.1, hit, inl refl))
    | inr miss ↦
        let (o, e, m) = first_ptr-Finds ps h.1 in
        (o, rw (h.0.1, first_ptr, miss) e, weaken p ps o h.0.0 h.0.1 miss m)
  ]

  -- A member behind others that do not pass.
  pub first_ptr-append :
      (ps : List ℕ) (q : ℕ) (a : A)
      → All (λ p. (b : A) × (read p ≡ some b) × (test b ≡ false)) ps
      → read q ≡ some a
      → test a ≡ true
      → first_ptr read test (ps ++ q ∷ []) ≡ some (some q)
  unfolding first_ptr
  first_ptr-append [] q a h e t = rw (e, first_ptr, t)
  first_ptr-append (p ∷ ps) q a h e t =
      rw (h.0.1, first_ptr, h.0.2) (first_ptr-append ps q a h.1 e t)

-- The same search over objects that changed in nothing that the test reads.
abbrev pub Agree : {A : Type 0} → (ℕ → Option A) → (ℕ → Option A) → (A → Bool) → ℕ → Type 0
Agree {A} read other test q =
    ((a : A) × (b : A) × (read q ≡ some a) × (other q ≡ some b) × (test a ≡ test b))
    ⊎ ((read q ≡ none) × (other q ≡ none))

pub first_ptr-Agree :
    {A : Type 0} (read other : ℕ → Option A) (test : A → Bool) (ps : List ℕ)
    → ((q : ℕ) → Agree read other test q)
    → first_ptr other test ps ≡ first_ptr read test ps
unfolding first_ptr
first_ptr-Agree read other test [] h = refl
first_ptr-Agree read other test (p ∷ ps) h = elim (h p) [
  | inl (a, b, e, f, t) ↦ rw (e, f, first_ptr, t, first_ptr-Agree read other test ps h)
  | inr (e, f) ↦ rw (e, f, first_ptr)
]
