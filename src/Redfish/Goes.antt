-- ===== src/Redfish/Goes.antt =====
-- Handlers that succeed: rules like those of `Ends`, for each way in which a handler goes on.
use cmm_sdk.Common.{Bool, false, Option, some, ◌≡◌, refl, sym, subst, ℕ}
use cmm_sdk.Common.Text.{Text}
use cmm_sdk.Redfish.Store.{Store}
use cmm_sdk.Redfish.Monad.{
  M, Outcome, ok, ◌>>=◌, ◌>>◌, get, modify, deref, json, refuse, done, Ends, next,
}

-- The handler succeeds, in a state that meets `P`.
abbrev pub Succeeds : {A : Type 0} → (A → Store → Type 0) → Outcome A → Type 0
Succeeds {A} P o = (a : A) × (t : Store) × (o ≡ ok a t) × P a t

abbrev pub Goes : {A : Type 0} → Outcome A → Type 0
Goes {A} o = (a : A) × (t : Store) × (o ≡ ok a t)

-- A handler that goes through meets its postcondition.
pub Goes-Succeeds :
    {A : Type 0} (s : Store) (P : A → Store → Type 0) (o : Outcome A)
    → Ends s P o
    → Goes o
    → Succeeds P o
Goes-Succeeds s P o e (a, t, h) = (a, t, h, rw h at e)

module _ {B : Type 0} where
  pub Goes-get : (f : Store → M B) (t : Store) → Goes (f t t) → Goes ((get >>= f) t)
  unfolding ◌>>=◌ get
  Goes-get f t h = h

  pub Goes-modify :
      (g : Store → Store) (k : M B) (t : Store) → Goes (k (g t)) → Goes ((modify g >> k) t)
  unfolding ◌>>◌ modify
  Goes-modify g k t h = h

  pub Goes-done : (b : B) (t : Store) → Goes (done b t)
  unfolding done
  Goes-done b t = (b, t, refl)

  pub Goes-refuse :
      (b : Bool) (message : Text) (status : ℕ) (k : M B) (t : Store)
      → b ≡ false
      → Goes (k t)
      → Goes ((refuse b message status >> k) t)
  unfolding ◌>>◌ refuse
  Goes-refuse b message status k t e h = rw e h

  pub Goes-deref :
      {A : Type 0} (o : Option A) (f : A → M B) (t : Store) (a : A)
      → o ≡ some a
      → Goes (f a t)
      → Goes ((deref o >>= f) t)
  unfolding ◌>>=◌ deref
  Goes-deref o f t a e h = rw e h

  pub Goes-json :
      {A : Type 0} (o : Option A) (f : A → M B) (t : Store) (a : A)
      → o ≡ some a
      → Goes (f a t)
      → Goes ((json o >>= f) t)
  unfolding ◌>>=◌ json
  Goes-json o f t a e h = rw e h

  -- A part that is known to go on.
  pub Goes-bind :
      {A : Type 0} (m : M A) (f : A → M B) (t u : Store) (a : A)
      → m t ≡ ok a u
      → Goes (f a u)
      → Goes ((m >>= f) t)
  unfolding ◌>>=◌
  Goes-bind m f t u a e h = subst (λ o. Goes (next o f)) (sym e) h
