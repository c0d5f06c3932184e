-- ===== src/Redfish/Rules.antt =====
-- Rules for the searches over the members of a collection.
use cmm_sdk.Common.{ℕ, Bool, true, false, not, Option, none, some, List, ◌≡◌, refl, All}
use cmm_sdk.Common.Text.{Text}
use cmm_sdk.Redfish.Store.{Store}
use cmm_sdk.Redfish.Search.{first_ptr, In, Finds}
use cmm_sdk.Redfish.Monad.{M, ◌>>=◌, ◌>>◌, Ends, deref, refuse}

-- `if(!exist)`, `iter == members.end()`
abbrev pub is_end : Option ℕ → Bool
is_end none = true
is_end (some p) = false

module _ {A B : Type 0} (s : Store) (P : B → Store → Type 0) where
  -- The member must be there.
  pub Ends-found :
      (read : ℕ → Option A) (test : A → Bool) (ps : List ℕ) (message : Text) (status : ℕ)
      (k : ℕ → M B)
      → Finds read test ps
      → ((p : ℕ) (a : A) → read p ≡ some a → test a ≡ true → In p ps → Ends s P (k p s))
      → Ends s P (
          (do
            found ← deref (first_ptr read test ps)
            refuse (is_end found) message status
            p ← deref found
            k p)
            s)
  unfolding ◌>>=◌ ◌>>◌ deref refuse
  Ends-found read test ps message status k (none, e, m) h = rw e (refl, refl)
  Ends-found read test ps message status k (some p, e, m) h = rw e (h p m.0 m.1 m.2 m.3)

  -- No member may pass.
  pub Ends-absent :
      (read : ℕ → Option A) (test : A → Bool) (ps : List ℕ) (message : Text) (status : ℕ) (k : M B)
      → Finds read test ps
      → (All (λ p. (a : A) × (read p ≡ some a) × (test a ≡ false)) ps → Ends s P (k s))
      → Ends s P (
          (do found ← deref (first_ptr read test ps); refuse (not (is_end found)) message status; k)
            s)
  unfolding ◌>>=◌ ◌>>◌ deref refuse
  Ends-absent read test ps message status k (none, e, m) h = rw e (h m)
  Ends-absent read test ps message status k (some p, e, m) h = rw e (refl, refl)
