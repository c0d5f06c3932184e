-- ===== src/Redfish/Monad.antt =====
-- A handler reads and changes the store, may reply early, may throw, and may be undefined.
use cmm_sdk.Common.{ℕ, Bool, true, false, Option, none, some, List, [], ◌≡◌, refl, sym, subst}
use cmm_sdk.Common.Text.{Text}
use cmm_sdk.Redfish.Store.{Store}

-- The body of a reply: an error message, the JSON of a resource, or none.
pub data Body : Type 0 where
  error : Text → Body
  resource : Text → Body
  null : Body

-- `http_response` and the `result` of the request: `success` is WORK_SUCCESS.
pub record Reply : Type 0 where
  pub status : ℕ
  pub success : Bool
  pub body : Body
  pub headers : List (Text × Text)

abbrev pub status_ok : ℕ
status_ok = 200

abbrev pub status_created : ℕ
status_created = 201

abbrev pub status_bad_request : ℕ
status_bad_request = 400

abbrev pub status_conflict : ℕ
status_conflict = 409

-- `undefined`: a bad pointer is followed, or the call does not return.
pub data Outcome (A : Type 0) : Type 0 where
  ok : A → Store → Outcome A
  returned : Reply → Store → Outcome A
  threw : Store → Outcome A
  undefined : Outcome A

abbrev pub M : Type 0 → Type 0
M A = Store → Outcome A

-- How a handler goes on from an outcome.
abbrev pub next : {A B : Type 0} → Outcome A → (A → M B) → Outcome B
next (ok a t) f = f a t
next (returned r t) f = returned r t
next (threw t) f = threw t
next undefined f = undefined

infixl 5 ◌>>=◌ ◌>>◌
unfoldable pub ◌>>=◌ : {A B : Type 0} → M A → (A → M B) → M B
◌>>=◌ m f s = next (m s) f

unfoldable pub ◌>>◌ : {B : Type 0} → M (Unit {0}) → M B → M B
unfolding ◌>>=◌
m >> k = m >>= λ _. k

unfoldable pub done : {A : Type 0} → A → M A
done a s = ok a s

unfoldable pub get : M Store
get s = ok s s

unfoldable pub modify : (Store → Store) → M (Unit {0})
modify f s = ok tt (f s)

-- A value read through pointers.
unfoldable pub deref : {A : Type 0} → Option A → M A
deref none s = undefined
deref (some a) s = ok a s

-- A value that the JSON library gives, or an exception that nothing here catches.
unfoldable pub json : {A : Type 0} → Option A → M A
json none s = threw s
json (some a) s = ok a s

-- `error_reply`
abbrev pub error_reply : Text → ℕ → Reply
error_reply message status = record {
  status = status;
  success = false;
  body = error message;
  headers = [];
}

-- `if(test) { error_reply(…); return; }`
unfoldable pub refuse : Bool → Text → ℕ → M (Unit {0})
refuse true message status s = returned (error_reply message status) s
refuse false message status s = ok tt s

-- `success_reply`
abbrev pub success_reply : Body → ℕ → Reply
success_reply body status = record { status = status; success = true; body = body; headers = [] }

-- Total correctness of a handler started in `s`: it ends; a success meets `P`; an error reply and
-- an exception leave the store as it was.
abbrev pub Ends : {A : Type 0} → Store → (A → Store → Type 0) → Outcome A → Type 0
Ends s P (ok a t) = P a t
Ends s P (returned r t) = (t ≡ s) × (r.success ≡ false)
Ends s P (threw t) = t ≡ s
Ends s P undefined = ⊥

-- A weaker postcondition.
pub Ends-map :
    {A : Type 0} (s : Store) (P Q : A → Store → Type 0) (o : Outcome A)
    → ((a : A) (t : Store) → P a t → Q a t)
    → Ends s P o
    → Ends s Q o
Ends-map s P Q (ok a t) f h = f a t h
Ends-map s P Q (returned r t) f h = h
Ends-map s P Q (threw t) f h = h
Ends-map s P Q undefined f h = h

-- Rules, one for each way in which a handler goes on.
module _ {B : Type 0} (s : Store) (P : B → Store → Type 0) where
  pub Ends-get : (f : Store → M B) (t : Store) → Ends s P (f t t) → Ends s P ((get >>= f) t)
  unfolding ◌>>=◌ get
  Ends-get f t h = h

  pub Ends-modify :
      (g : Store → Store) (k : M B) (t : Store) → Ends s P (k (g t)) → Ends s P ((modify g >> k) t)
  unfolding ◌>>◌ modify
  Ends-modify g k t h = h

  pub Ends-done : (b : B) (t : Store) → P b t → Ends s P (done b t)
  unfolding done
  Ends-done b t h = h

  pub Ends-refuse :
      (b : Bool) (message : Text) (status : ℕ) (k : M B)
      → (b ≡ false → Ends s P (k s))
      → Ends s P ((refuse b message status >> k) s)
  unfolding ◌>>◌ refuse
  Ends-refuse true message status k h = (refl, refl)
  Ends-refuse false message status k h = h refl

  pub Ends-deref :
      {A : Type 0} (o : Option A) (f : A → M B) (t : Store) (a : A)
      → o ≡ some a
      → Ends s P (f a t)
      → Ends s P ((deref o >>= f) t)
  unfolding ◌>>=◌ deref
  Ends-deref o f t a e h = rw e h

  pub Ends-json :
      {A : Type 0} (o : Option A) (f : A → M B)
      → ((a : A) → o ≡ some a → Ends s P (f a s))
      → Ends s P ((json o >>= f) s)
  unfolding ◌>>=◌ json
  Ends-json none f h = refl
  Ends-json (some a) f h = h a refl

  -- A part that is known to go on, or known to refuse.
  pub Ends-ok :
      {A : Type 0} (m : M A) (f : A → M B) (a : A) (t u : Store)
      → m t ≡ ok a u
      → Ends s P (f a u)
      → Ends s P ((m >>= f) t)
  unfolding ◌>>=◌
  Ends-ok m f a t u e h = subst (λ o. Ends s P (next o f)) (sym e) h

  pub Ends-then :
      (m : M (Unit {0})) (k : M B) (t u : Store)
      → m t ≡ ok tt u
      → Ends s P (k u)
      → Ends s P ((m >> k) t)
  unfolding ◌>>◌ ◌>>=◌
  Ends-then m k t u e h = subst (λ o. Ends s P (next o (λ _. k))) (sym e) h

  pub Ends-returned :
      {A : Type 0} (m : M A) (f : A → M B) (r : Reply)
      → m s ≡ returned r s
      → r.success ≡ false
      → Ends s P ((m >>= f) s)
  unfolding ◌>>=◌
  Ends-returned m f r e h = subst (λ o. Ends s P (next o f)) (sym e) (refl, h)

next-Ends :
    {A B : Type 0} (s : Store) (Q : A → Store → Type 0) (P : B → Store → Type 0) (f : A → M B)
    (o : Outcome A)
    → Ends s Q o
    → ((a : A) (t : Store) → Q a t → Ends s P (f a t))
    → Ends s P (next o f)
next-Ends s Q P f (ok a t) h k = k a t h
next-Ends s Q P f (returned r t) h k = h
next-Ends s Q P f (threw t) h k = h
next-Ends s Q P f undefined h k = h

-- A part with a specification of its own.
pub Ends-bind :
    {A B : Type 0} (s : Store) (Q : A → Store → Type 0) (P : B → Store → Type 0) (m : M A)
    (f : A → M B)
    → Ends s Q (m s)
    → ((a : A) (t : Store) → Q a t → Ends s P (f a t))
    → Ends s P ((m >>= f) s)
unfolding ◌>>=◌
Ends-bind s Q P m f h k = next-Ends s Q P f (m s) h k

-- A weaker postcondition.
pub Ends-weaken :
    {A : Type 0} (s : Store) (P Q : A → Store → Type 0) (o : Outcome A)
    → Ends s P o
    → ((a : A) (t : Store) → P a t → Q a t)
    → Ends s Q o
Ends-weaken s P Q (ok a t) h k = k a t h
Ends-weaken s P Q (returned r t) h k = h
Ends-weaken s P Q (threw t) h k = h
Ends-weaken s P Q undefined h k = h
