-- ===== src/Redfish/Valid.antt =====
-- The invariant of the store: every pointer that the handlers follow is alive.
use cmm_sdk.Common.{
  not, Option-cases, inl, inr, false, subst, ℕ, ◌+◌, ◌≤◌, ◌<◌, ◌≡◌, sym, true, none, some, List, [],
  ◌∷◌, ◌++◌, if◌then◌else◌, arith, All, length,
}
use cmm_sdk.Common.Text.{Text}
use cmm_sdk.Common.Decimal.{to_string}
use cmm_sdk.Numset.{uint_max, Numsets, allocate_session_num}
use cmm_sdk.Numset.Sets.{mem}
use cmm_sdk.Redfish.Store.{
  Account, Role, Session, Object, Disk, Store, odata_role_id, odata_session_id, record_is_exist,
  put, account_at, role_at, session_at, resource_save_json, delete_resource,
}

abbrev pub IsRoleAt : Store → ℕ → Type 0
IsRoleAt s p = (r : Role) × (role_at s p ≡ some r)

-- An account whose role is alive.
abbrev pub IsAccountAt : Store → ℕ → Type 0
IsAccountAt s p =
    (a : Account) × (account_at s p ≡ some a) × ((q : ℕ) × (a.role ≡ some q) × IsRoleAt s q)

abbrev pub uri_of : Text → ℕ → Text
uri_of base n = base ++ (b'/' ∷ to_string n)

-- A session with its number, in the table, whose account is alive.
pub record IsSessionAt (used : List ℕ) (s : Store) (p : ℕ) : Type 0 where
  pub x : Session
  pub alive : session_at s p ≡ some x
  pub num : ℕ
  pub uri : x.odata_id ≡ uri_of odata_session_id num
  pub taken : mem num used ≡ true
  pub in_table : s.g_record x.odata_id ≡ some p
  pub owner : ℕ
  pub owner_is : x.account ≡ some owner
  pub owner_alive : IsAccountAt s owner

abbrev pub HasRoom : Numsets → ℕ → Type 0
HasRoom sets index =
    (sets.numset_num index ≤ uint_max) × (length (sets.numset index) + 1 < uint_max)

-- Live objects of `s` are alive and the same in `t`.
pub record Extends (s t : Store) : Type 0 where
  pub accounts_kept : (p : ℕ) (a : Account) → account_at s p ≡ some a → account_at t p ≡ some a
  pub roles_kept : (p : ℕ) (r : Role) → role_at s p ≡ some r → role_at t p ≡ some r
  pub sessions_kept : (p : ℕ) (x : Session) → session_at s p ≡ some x → session_at t p ≡ some x

pub Extends-IsAccountAt : (s t : Store) (p : ℕ) → Extends s t → IsAccountAt s p → IsAccountAt t p
Extends-IsAccountAt s t p e (a, ha, (q, hq, (r, hr))) =
    (a, e.accounts_kept p a ha, (q, hq, (r, e.roles_kept q r hr)))

-- A new object at the unused address `next`.
pub put-Extends :
    (s t : Store) (o : Object)
    → s.heap s.next ≡ none
    → t.heap ≡ put s.heap s.next (some o)
    → Extends s t
unfolding put account_at role_at session_at
put-Extends s t o unused e = record {
  accounts_kept = λ p a h. ground arith;
  roles_kept = λ p r h. ground arith;
  sessions_kept = λ p x h. ground arith;
}

-- `resource_save_json` and `delete_resource` change only the files.
pub resource_save_json-disk :
    (uri : Text) (s : Store) → (d : List Disk) × (resource_save_json uri s ≡ record s { disk = d })
unfolding resource_save_json
resource_save_json-disk uri s =
    (if record_is_exist s uri then s.disk ++ Disk.saved uri ∷ [] else s.disk, ground arith)

-- Texts with the same first part.
pub append_cancel : (p s t : Text) → p ++ s ≡ p ++ t → s ≡ t
append_cancel [] s t h = h
append_cancel (c ∷ p) s t h = append_cancel p s t (cc)

pub record IsValid (s : Store) : Type 0 where
  pub accounts_live : All (IsAccountAt s) s.accounts
  pub roles_live : All (IsRoleAt s) s.roles
  pub sessions_live : All (IsSessionAt (s.numsets.numset allocate_session_num) s) s.sessions
  pub unused : (p : ℕ) → s.next ≤ p → s.heap p ≡ none
  pub role_table :
      (id : Text) (p : ℕ) → s.g_record (odata_role_id ++ (b'/' ∷ id)) ≡ some p → IsRoleAt s p

pub All-map : (P Q : ℕ → Type 0) (xs : List ℕ) → ((p : ℕ) → P p → Q p) → All P xs → All Q xs
All-map P Q [] f h = tt
All-map P Q (x ∷ xs) f h = (f x h.0, All-map P Q xs f h.1)

pub save_both-disk :
    (u v : Text) (s : Store)
    → (d : List Disk) × (resource_save_json v (resource_save_json u s) ≡ record s { disk = d })
save_both-disk u v s =
    let (d, e) = resource_save_json-disk u s in
    let (d', e') = resource_save_json-disk v (record s { disk = d }) in (d', rw e e')

-- The same members under another name.
pub All-eq : (P : ℕ → Type 0) (xs ys : List ℕ) → ys ≡ xs → All P xs → All P ys
All-eq P xs ys e h = subst (All P) (sym e) h

pub delete_resource-disk :
    (uri : Text) (s : Store) → (d : List Disk) × (delete_resource uri s ≡ record s { disk = d })
unfolding delete_resource
delete_resource-disk uri s =
    (if record_is_exist s uri then s.disk else s.disk ++ Disk.removed uri ∷ [], ground arith)

pub delete_save-disk :
    (u v : Text) (s : Store)
    → (d : List Disk) × (resource_save_json v (delete_resource u s) ≡ record s { disk = d })
delete_save-disk u v s =
    let (d, e) = delete_resource-disk u s in
    let (d', e') = resource_save_json-disk v (record s { disk = d }) in (d', rw e e')

-- A URI that the table has.
pub record_is_exist-some :
    (s : Store) (uri : Text)
    → not (record_is_exist s uri) ≡ false
    → (p : ℕ) × (s.g_record uri ≡ some p)
unfolding record_is_exist
record_is_exist-some s uri h = elim (Option-cases (s.g_record uri)) [
  | inl e ↦ cc (rw (e, record_is_exist) at h)
  | inr (p, e) ↦ (p, e)
]
