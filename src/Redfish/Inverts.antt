-- ===== src/Redfish/Inverts.antt =====
-- What a handler that succeeded did on its way.
use cmm_sdk.Common.{ℕ, Bool, true, false, Option, none, some, ◌≡◌, refl}
use cmm_sdk.Common.Text.{Text}
use cmm_sdk.Redfish.Store.{Store}
use cmm_sdk.Redfish.Monad.{
  M, Outcome, ok, next, ◌>>=◌, ◌>>◌, get, done, modify, deref, json, refuse,
}

module _ {B : Type 0} (b : B) (t : Store) where
  pub ok-deref :
      {A : Type 0} (o : Option A) (f : A → M B) (s : Store)
      → (deref o >>= f) s ≡ ok b t
      → (a : A) × (o ≡ some a) × (f a s ≡ ok b t)
  unfolding ◌>>=◌ deref
  ok-deref none f s h = cc h
  ok-deref (some a) f s h = (a, refl, h)

  pub ok-json :
      {A : Type 0} (o : Option A) (f : A → M B) (s : Store)
      → (json o >>= f) s ≡ ok b t
      → (a : A) × (o ≡ some a) × (f a s ≡ ok b t)
  unfolding ◌>>=◌ json
  ok-json none f s h = cc h
  ok-json (some a) f s h = (a, refl, h)

  pub ok-refuse :
      (c : Bool) (message : Text) (status : ℕ) (k : M B) (s : Store)
      → (refuse c message status >> k) s ≡ ok b t
      → (c ≡ false) × (k s ≡ ok b t)
  unfolding ◌>>◌ refuse
  ok-refuse true message status k s h = cc h
  ok-refuse false message status k s h = (refl, h)

  next-ok :
      {A : Type 0} (o : Outcome A) (f : A → M B)
      → next o f ≡ ok b t
      → (a : A) × (u : Store) × (o ≡ ok a u) × (f a u ≡ ok b t)
  next-ok (ok a u) f h = (a, u, refl, h)
  next-ok (Outcome.returned r u) f h = cc h
  next-ok (Outcome.threw u) f h = cc h
  next-ok Outcome.undefined f h = cc h

  pub ok-bind :
      {A : Type 0} (m : M A) (f : A → M B) (s : Store)
      → (m >>= f) s ≡ ok b t
      → (a : A) × (u : Store) × (m s ≡ ok a u) × (f a u ≡ ok b t)
  unfolding ◌>>=◌
  ok-bind m f s h = next-ok (m s) f h

  pub ok-get : (f : Store → M B) (s : Store) → (get >>= f) s ≡ ok b t → f s s ≡ ok b t
  unfolding ◌>>=◌ get
  ok-get f s h = h

  pub ok-modify :
      (g : Store → Store) (k : M B) (s : Store) → (modify g >> k) s ≡ ok b t → k (g s) ≡ ok b t
  unfolding ◌>>◌ modify
  ok-modify g k s h = h

  pub ok-modify_last : (g : Store → Store) (s : Store) → modify g s ≡ ok tt t → t ≡ g s
  unfolding modify
  ok-modify_last g s h = cc h

  pub ok-done : (a : B) (s : Store) → done a s ≡ ok b t → (b ≡ a) × (t ≡ s)
  unfolding done
  ok-done a s h = (cc h, cc h)
