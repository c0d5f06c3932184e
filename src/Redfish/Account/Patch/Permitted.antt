-- ===== src/Redfish/Account/Patch/Permitted.antt =====
-- Who may change what of an account.
use cmm_sdk.Common.{
  ℕ, ◌≤◌, ◌≡◌, ◌≢◌, refl, ap, Bool, true, false, not, ◌&&◌, ◌||◌, Option, none, some, List, arith,
  All, length, ◌⊎◌, inl, inr, Option-cases, if◌then◌else◌,
}
use cmm_sdk.Common.Text.{Text, codes, text_eq, text_eq_iff}
use cmm_sdk.Util.Names.{get_current_object_name}
use cmm_sdk.Redfish.Json.{Json, get_string, get_bool}
use cmm_sdk.Redfish.Search.{first_ptr, Finds, first_ptr-Finds}
use cmm_sdk.Redfish.Rules.{is_end}
use cmm_sdk.Redfish.Store.{
  Account, Role, Session, Store, Disk, record_is_exist, account_at, role_at,
}
use cmm_sdk.Redfish.Monad.{
  Reply, Ends, Ends-get, Ends-modify, Ends-done, Ends-refuse, Ends-deref, Ends-json, success_reply,
  resource, status_ok,
}
use cmm_sdk.Redfish.Guard.Login.{LoginOf, Ends-login}
use cmm_sdk.Redfish.Valid.{record_is_exist-some, IsValid, resource_save_json-disk, All-map}
use cmm_sdk.Redfish.Account.{role_uri}
use cmm_sdk.Redfish.Account.Patch.{
  uses_name, name_in_use, wrong_length, picked_role, put_account, modify_account,
}
use cmm_sdk.Redfish.Role.{administrator}

-- No account other than the one with the id `last` has the name.
abbrev pub NameFree : Store → Text → Text → Type 0
NameFree s last name =
    All (λ p. (a : Account) × (account_at s p ≡ some a) × ((a.id ≡ last) ⊎ (a.user_name ≢ name)))
      s.accounts

-- The role is kept, or an existing one was picked.
abbrev pub RoleOf : Store → Bool → Text → Account → Option ℕ × Text → Type 0
RoleOf s op role_id old link =
    ((op ≡ false) × (link ≡ (old.role, old.role_id)))
    ⊎ ((op ≡ true)
        × ((q : ℕ) × (r : Role) × (s.g_record (role_uri role_id) ≡ some q)
            × (role_at s q ≡ some r)
            × (link ≡ (some q, r.odata_id))))

not_used :
    (last name : Text) (a : Account)
    → uses_name last name a ≡ false
    → (a.id ≡ last) ⊎ (a.user_name ≢ name)
unfolding uses_name
not_used last name a h = ground (arith, h, text_eq_iff a.id last, text_eq_iff a.user_name name)

not-false : (b : Bool) → not b ≡ false → b ≡ true
not-false b h = ground arith

name_in_use-total :
    (op : Bool) (s : Store) (last name : Text)
    → IsValid s
    → (o : Option ℕ) × (name_in_use op s last name ≡ some o)
      × (op ≡ true → is_end o ≡ true → NameFree s last name)
unfolding name_in_use
name_in_use-total false s last name v = (none, refl, λ h. cc)
name_in_use-total true s last name v = go (
    first_ptr-Finds (account_at s) (uses_name last name) s.accounts
      (All-map _ _ s.accounts (λ p h. (h.0, h.1)) v.accounts_live))
  where
    go :
        Finds (account_at s) (uses_name last name) s.accounts
        → (o : Option ℕ) × (first_ptr (account_at s) (uses_name last name) s.accounts ≡ some o)
          × (true ≡ true → is_end o ≡ true → NameFree s last name)
    go (none, e, m) =
        (none, e, λ _ _. All-map _ _ s.accounts (λ p h. (h.0, h.1, not_used last name h.0 h.2)) m)
    go (some p, e, m) = (some p, e, λ _ h. cc)

picked_role-total :
    (op : Bool) (s : Store) (role_id : Text) (old : Account)
    → IsValid s
    → (op && not (record_is_exist s (role_uri role_id))) ≡ false
    → (link : Option ℕ × Text) × (picked_role op s role_id old ≡ some link)
      × RoleOf s op role_id old link
unfolding picked_role record_is_exist
picked_role-total false s role_id old v h = ((old.role, old.role_id), refl, inl (refl, refl))
picked_role-total true s role_id old v h = elim (Option-cases (s.g_record (role_uri role_id))) [
  | inl e ↦ cc (rw (e, record_is_exist) at h)
  | inr (q, e) ↦
      let (r, alive) = v.role_table role_id q e in
      (
        (some q, r.odata_id),
        rw (e, picked_role) (rw (alive, picked_role) refl),
        inr (refl, (q, r, e, alive, refl)),
      )
]

length_ok :
    (op : Bool) (s : Store) (pass : Text)
    → (op && wrong_length s pass) ≡ false
    → op ≡ true
    → (s.min_password_length ≤ length pass) × (length pass ≤ s.max_password_length)
unfolding wrong_length
length_ok op s pass h e = (ground (arith, h, e), ground (arith, h, e))

module _ (J : Json) (header : Option Text) (body : J.Value) (uri : Text) (s : Store) where
  abbrev name : Bool × Text
  name = get_string J body (codes "UserName")

  abbrev pass : Bool × Text
  pass = get_string J body (codes "Password")

  abbrev role_name : Bool × Text
  role_name = get_string J body (codes "RoleId")

  abbrev enabling : Bool × Bool
  enabling = get_bool J body (codes "Enabled")

  -- The account at `uri` was changed under a valid session of the account `a` with the role `r`:
  -- its role only by an administrator, all else only by an administrator or the account itself.
  pub record Patched (q : Reply) (t : Store) : Type 0 where
    pub x : Session
    pub a : Account
    pub r : Role
    pub login : LoginOf s header x a r
    pub last : Text
    pub named : get_current_object_name uri (codes "/") ≡ some last
    pub p : ℕ
    pub old : Account
    pub entry : s.g_record uri ≡ some p
    pub alive : account_at s p ≡ some old
    pub new : Account
    pub state : (d : List Disk) × (t ≡ record (put_account p new s) { disk = d })
    pub same_id : (new.id ≡ old.id) × (new.odata_id ≡ old.odata_id) × (new.locked ≡ old.locked)
    pub role_by_admin :
        ((new.role ≡ old.role) × (new.role_id ≡ old.role_id))
        ⊎ ((r.id ≡ administrator)
            × ((k : ℕ) × (w : Role) × (role_at s k ≡ some w)
                × (new.role ≡ some k)
                × (new.role_id ≡ w.odata_id)))
    pub name_by_owner :
        (new.user_name ≡ old.user_name)
        ⊎ (((r.id ≡ administrator) ⊎ (a.id ≡ last))
            × (new.user_name ≡ name.1)
            × NameFree s last name.1)
    pub password_by_owner :
        (new.password ≡ old.password)
        ⊎ (((r.id ≡ administrator) ⊎ (a.id ≡ last))
            × (new.password ≡ pass.1)
            × ((s.min_password_length ≤ length pass.1) × (length pass.1 ≤ s.max_password_length)))
    pub enabled_by_owner : (new.enabled ≡ old.enabled) ⊎ ((r.id ≡ administrator) ⊎ (a.id ≡ last))
    pub reply : q ≡ success_reply (resource uri) status_ok

  owner :
      (r a last : Text) (given : Bool)
      → ((text_eq r administrator || text_eq a last) && given) ≡ true
      → (r ≡ administrator) ⊎ (a ≡ last)
  owner r a last given h = ground (arith, h, text_eq_iff r administrator, text_eq_iff a last)

  choose {ℓ κ} :
      {O : Type ℓ} {N : Type κ} (b : Bool) (u v : Text)
      → (b ≡ true → O)
      → (b ≡ true → N)
      → ((if b then u else v) ≡ v) ⊎ (O × ((if b then u else v) ≡ u) × N)
  choose true u v h k = inr (h refl, refl, k refl)
  choose false u v h k = inl refl

  choose_bool {ℓ} : {P : Type ℓ} (b u v : Bool) → (b ≡ true → P) → ((if b then u else v) ≡ v) ⊎ P
  choose_bool true u v h = inr (h refl)
  choose_bool false u v h = inl refl

  role_set :
      (r role_id : Text) (given : Bool) (old : Account) (link : Option ℕ × Text)
      → RoleOf s (text_eq r administrator && given) role_id old link
      → ((link.0 ≡ old.role) × (link.1 ≡ old.role_id))
        ⊎ ((r ≡ administrator)
            × ((k : ℕ) × (w : Role) × (role_at s k ≡ some w)
                × (link.0 ≡ some k)
                × (link.1 ≡ w.odata_id)))
  role_set r role_id given old link (inl (e, h)) = inl (ap (λ l. l.0) h, ap (λ l. l.1) h)
  role_set r role_id given old link (inr (e, (k, w, entry, alive, h))) = inr (
    ground (arith, e, text_eq_iff r administrator),
    (k, w, alive, ap (λ l. l.0) h, ap (λ l. l.1) h),
  )

  -- For a valid store and a URI whose table entry, if there is one, is a live account,
  -- `modify_account` ends. A success has a valid session; it changes that account only: the role if
  -- the session is an administrator's, and then to a role that exists; the user name, the password
  -- and the flag `enabled` if it is an administrator's or the account's own, the name to one that no
  -- other member has and the password to one of a length within the limits. An error or an exception
  -- leaves the store as it was.
  pub modify_account_lem :
      IsValid s
      → ((p : ℕ) → s.g_record uri ≡ some p → (old : Account) × (account_at s p ≡ some old))
      → Ends s Patched (modify_account J header body uri s)
  unfolding modify_account
  modify_account_lem v live = Ends-get s Patched _ s (
      Ends-refuse s Patched _ _ _ _ λ exists. Ends-login s v Patched header _ λ x a r login.
        Ends-json s Patched _ _ λ last named. Ends-refuse s Patched _ _ _ _ λ known.
          let (taken, looked, free) = name_in_use-total _ s last name.1 v in
          Ends-deref s Patched _ _ s taken looked (
            Ends-refuse s Patched _ _ _ _ λ unused. Ends-refuse s Patched _ _ _ _ λ fits.
              Ends-refuse s Patched _ _ _ _ λ some_op.
                let (p, entry) = record_is_exist-some s uri exists in
                let (old, alive) = live p entry in
                let (link, linked, picked) = picked_role-total _ s role_name.1 old v known in
                Ends-deref s Patched _ _ s p entry (
                  Ends-deref s Patched _ _ s old alive (
                    Ends-deref s Patched _ _ s link linked (
                      Ends-modify s Patched _ _ _ (
                        Ends-modify s Patched _ _ _ (
                          Ends-done s Patched _ _ (record {
                            x = x;
                            a = a;
                            r = r;
                            login = login;
                            last = last;
                            named = named;
                            p = p;
                            old = old;
                            entry = entry;
                            alive = alive;
                            new = _;
                            state = resource_save_json-disk old.odata_id (put_account p _ s);
                            same_id = (refl, refl, refl);
                            role_by_admin = role_set r.id role_name.1 role_name.0 old link picked;
                            name_by_owner =
                                choose _ name.1 old.user_name (owner r.id a.id last name.0)
                                  (λ h. free h (not-false _ unused));
                            password_by_owner =
                                choose _ pass.1 old.password (owner r.id a.id last pass.0)
                                  (length_ok _ s pass.1 fits);
                            enabled_by_owner =
                                choose_bool _ enabling.1 old.enabled
                                  (owner r.id a.id last enabling.0);
                            reply = refl;
                          }))))))))
