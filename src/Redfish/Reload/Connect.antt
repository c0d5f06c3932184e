-- ===== src/Redfish/Reload/Connect.antt =====
-- What connecting one loaded resource does to it and to the others.
use cmm_sdk.Common.{
  ℕ, ◌≤◌, ◌≡◌, refl, sym, ap, subst, ◌∙◌, true, false, Option, some, List, [], ◌∷◌, ◌++◌, ◌==◌,
  arith, inl, inr, Bool-cases,
}
use cmm_sdk.Common.Text.{Text, IsFree}
use cmm_sdk.Numset.{allocate_session_num, allocate_account_num, allocate_subscription_num}
use cmm_sdk.Numset.Sets.{mem}
use cmm_sdk.Util.Validate.Address.{int_max}
use cmm_sdk.Redfish.Search.{In}
use cmm_sdk.Redfish.Store.{
  Object, Store, odata_account_id, odata_role_id, odata_session_id, odata_event_destination_id,
}
use cmm_sdk.Redfish.Valid.{uri_of}
use cmm_sdk.Redfish.Reload.{dependency_injection}

-- A URI `base/number`, the number an `int`.
abbrev pub HasNumber : Text → Text → ℕ → Type 0
HasNumber uri base n = (uri ≡ uri_of base n) × (n ≤ int_max)

-- A resource that was saved by this program, with its account or its role in the table.
abbrev pub CanConnect : (Text → Option ℕ) → Object → Type 0
CanConnect g (Object.session x) =
    (n : ℕ) × HasNumber x.odata_id odata_session_id n × ((q : ℕ) × (g x.account_id ≡ some q))
CanConnect g (Object.account a) =
    (n : ℕ) × HasNumber a.odata_id odata_account_id n × ((q : ℕ) × (g a.role_id ≡ some q))
CanConnect g (Object.role r) =
    (name : Text) × (r.odata_id ≡ odata_role_id ++ (b'/' ∷ name)) × IsFree b'/' name
CanConnect g (Object.event_destination d) =
    (n : ℕ) × HasNumber d.odata_id odata_event_destination_id n

abbrev pub Loaded : Store → ℕ → Type 0
Loaded s p = (o : Object) × (s.heap p ≡ some o) × CanConnect s.g_record o

-- It is a member of its collection under a number that is taken, and its pointers are those of the table.
abbrev pub IsConnected : Store → ℕ → Object → Type 0
IsConnected s p (Object.session x) =
    (s.g_record x.account_id ≡ x.account)
    × (x.remain_expires_time ≡ s.session_timeout)
    × In p s.sessions
    × ((n : ℕ) × HasNumber x.odata_id odata_session_id n
        × (mem n (s.numsets.numset allocate_session_num) ≡ true))
IsConnected s p (Object.account a) =
    (s.g_record a.role_id ≡ a.role)
    × In p s.accounts
    × ((n : ℕ) × HasNumber a.odata_id odata_account_id n
        × (mem n (s.numsets.numset allocate_account_num) ≡ true))
IsConnected s p (Object.role r) = In p s.roles
IsConnected s p (Object.event_destination d) =
    In p s.subscriptions
    × ((n : ℕ) × HasNumber d.odata_id odata_event_destination_id n
        × (mem n (s.numsets.numset allocate_subscription_num) ≡ true))

abbrev pub Connected : Store → ℕ → Type 0
Connected s p = (o : Object) × (s.heap p ≡ some o) × IsConnected s p o

-- `t` has `o` at `p`; everything else of `s` is there as it was, and members and numbers were added.
pub record Grew (s t : Store) (p : ℕ) (o : Object) : Type 0 where
  pub here : t.heap p ≡ some o
  pub there : (q : ℕ) → (p == q) ≡ false → t.heap q ≡ s.heap q
  pub table : t.g_record ≡ s.g_record
  pub timeout : t.session_timeout ≡ s.session_timeout
  pub more_sessions : (q : ℕ) → In q s.sessions → In q t.sessions
  pub more_accounts : (q : ℕ) → In q s.accounts → In q t.accounts
  pub more_roles : (q : ℕ) → In q s.roles → In q t.roles
  pub more_subscriptions : (q : ℕ) → In q s.subscriptions → In q t.subscriptions
  pub more_numbers :
      (i n : ℕ) → mem n (s.numsets.numset i) ≡ true → mem n (t.numsets.numset i) ≡ true

pub record Step (s t : Store) (p : ℕ) : Type 0 where
  pub does : dependency_injection p s ≡ some t
  pub connected : Connected t p
  pub keeps_loaded : (q : ℕ) → Loaded s q → Loaded t q
  pub keeps_connected : (q : ℕ) → Connected s q → Connected t q

pub In-left : (q : ℕ) (xs ys : List ℕ) → In q xs → In q (xs ++ ys)
In-left q [] ys h = absurd h
In-left q (x ∷ xs) ys (inl e) = inl e
In-left q (x ∷ xs) ys (inr h) = inr (In-left q xs ys h)

pub In-last : (p : ℕ) (xs : List ℕ) → In p (xs ++ p ∷ [])
In-last p [] = inl refl
In-last p (x ∷ xs) = inr (In-last p xs)

same : (p q : ℕ) → (p == q) ≡ true → p ≡ q
same p q h = ground arith

keeps_member :
    (s t : Store) (p q : ℕ) (o c : Object) → Grew s t p o → IsConnected s q c → IsConnected t q c
keeps_member s t p q o (Object.session x) g (a, b, c, (n, h, m)) = (
  ap (λ f. f x.account_id) g.table ∙ a,
  b ∙ sym g.timeout,
  g.more_sessions q c,
  (n, h, g.more_numbers _ n m),
)
keeps_member s t p q o (Object.account x) g (a, c, (n, h, m)) =
    (ap (λ f. f x.role_id) g.table ∙ a, g.more_accounts q c, (n, h, g.more_numbers _ n m))
keeps_member s t p q o (Object.role r) g h = g.more_roles q h
keeps_member s t p q o (Object.event_destination d) g (c, (n, h, m)) =
    (g.more_subscriptions q c, (n, h, g.more_numbers _ n m))

pub Grew-Step :
    (s t : Store) (p : ℕ) (o : Object)
    → dependency_injection p s ≡ some t
    → Grew s t p o
    → CanConnect s.g_record o
    → IsConnected t p o
    → Step s t p
Grew-Step s t p o e g can done = record {
  does = e;
  connected = (o, g.here, done);
  keeps_loaded = λ q (c, h, k). elim (Bool-cases (p == q)) [
    | inr off ↦ (c, g.there q off ∙ h, subst (λ f. CanConnect f c) (sym g.table) k)
    | inl on ↦ (
      o,
      subst (λ r. t.heap r ≡ some o) (same p q on) g.here,
      subst (λ f. CanConnect f o) (sym g.table) can,
    )
  ];
  keeps_connected = λ q (c, h, k). elim (Bool-cases (p == q)) [
    | inr off ↦ (c, g.there q off ∙ h, keeps_member s t p q o c g k)
    | inl on ↦ subst (Connected t) (same p q on) (o, g.here, done)
  ];
}
