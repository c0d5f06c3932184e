-- ===== src/Redfish/Account/Create.antt =====
-- What `make_account` does.
use cmm_sdk.Common.{
  ℕ, ◌≤◌, ◌≡◌, ◌≢◌, refl, Bool, true, false, Option, none, some, List, [], arith, All, length, sym,
  Option-cases, some_inj, inl, inr, not, ◌||◌, ◌&&◌, ◌∙◌,
}
use cmm_sdk.Common.Text.{Text, codes, text_eq, text_eq_iff}
use cmm_sdk.Numset.{Numsets, allocate_account_num}
use cmm_sdk.Numset.Fresh.{IsFresh, allocate_total}
use cmm_sdk.Redfish.Json.{Json, get_string}
use cmm_sdk.Redfish.Search.{IsLive, first_ptr-Finds}
use cmm_sdk.Redfish.Store.{
  Account, Role, Store, Disk, odata_account_id, record_is_exist, account_at, role_at,
}
use cmm_sdk.Redfish.Monad.{
  Reply, Ends, Ends-get, Ends-modify, Ends-done, Ends-refuse, Ends-deref, Ends-json, success_reply,
  resource, status_created,
}
use cmm_sdk.Redfish.Rules.{Ends-absent}
use cmm_sdk.Redfish.Valid.{IsValid, HasRoom, save_both-disk, All-map}
use cmm_sdk.Redfish.Account.{
  has_name, role_uri, role_link, new_account, add_account, names_no_role, make_account, field_or,
  then_at,
}

text_eq-false : (s t : Text) → text_eq s t ≡ false → s ≢ t
text_eq-false s t h e = cc ((text_eq_iff s t).1 e, h)

both_given : (a b : Bool) → (not a || not b) ≡ false → (a ≡ true) × (b ≡ true)
both_given a b h = ground arith

exists :
    (given exist : Bool) {there : Bool}
    → there ≡ given
    → there ≡ true
    → (given && not exist) ≡ false
    → exist ≡ true
exists given exist e g h = ground arith

-- The role of a new account is the one in the table, and is alive; with none there, there is none.
abbrev pub LinksTo : Store → Text → Option ℕ × Text → Type 0
LinksTo s role_id link =
    ((record_is_exist s (role_uri role_id) ≡ true)
      → (p : ℕ) × (r : Role) × (s.g_record (role_uri role_id) ≡ some p)
        × (role_at s p ≡ some r)
        × (link ≡ (some p, r.odata_id)))
    × ((record_is_exist s (role_uri role_id) ≡ false) → link ≡ (none, []))

pub role_link_total :
    (s : Store) (role_id : Text)
    → IsValid s
    → (link : Option ℕ × Text) × (role_link s role_id ≡ some link) × LinksTo s role_id link
unfolding role_link record_is_exist
role_link_total s role_id v = go (s.g_record (role_uri role_id)) refl
  where
    go :
        (o : Option ℕ)
        → s.g_record (role_uri role_id) ≡ o
        → (link : Option ℕ × Text) × (role_link s role_id ≡ some link) × LinksTo s role_id link
    go none e = ((none, []), rw (e, role_link), (λ h. cc (rw (e, record_is_exist) at h), λ h. refl))
    go (some p) e =
        let (r, alive) = v.role_table role_id p e in
        (
          (some p, r.odata_id),
          rw (e, role_link) (rw (alive, role_link) refl),
          (λ h. (p, r, e, alive, refl), λ h. cc (rw (e, record_is_exist) at h)),
        )

module _ (J : Json) where
  -- The field of the body if it has one, or else the default.
  pub record Chosen {A : Type 0} (body : J.Value) (read : J.Value → Option A) (d : A) (key : Text)
      (a : A) : Type 0 where
    pub there : Bool
    pub asked : J.find_field body key ≡ some there
    pub defaults : there ≡ false → a ≡ d
    pub given : there ≡ true → (v : J.Value) × (J.at_key body key ≡ some v) × (read v ≡ some a)

  then_at-default :
      {A : Type 0} (body : J.Value) (read : J.Value → Option A) (d : A) (key : Text) (a : A)
      (there : Bool)
      → then_at J read d body key there ≡ some a
      → there ≡ false
      → a ≡ d
  unfolding then_at
  then_at-default body read d key a false h e = sym (some_inj h)
  then_at-default body read d key a true h e = cc e

  then_at-given :
      {A : Type 0} (body : J.Value) (read : J.Value → Option A) (d : A) (key : Text) (a : A)
      (there : Bool)
      → then_at J read d body key there ≡ some a
      → there ≡ true
      → (v : J.Value) × (J.at_key body key ≡ some v) × (read v ≡ some a)
  unfolding then_at
  then_at-given body read d key a false h e = cc e
  then_at-given body read d key a true h e = elim (Option-cases (J.at_key body key)) [
    | inl gone ↦ cc (rw (gone, then_at) at h)
    | inr (v, at) ↦ (v, at, rw (at, then_at) at h)
  ]

  field_or-Chosen :
      {A : Type 0} (body : J.Value) (read : J.Value → Option A) (d : A) (key : Text) (a : A)
      → field_or J read d body key ≡ some a
      → Chosen body read d key a
  unfolding field_or
  field_or-Chosen body read d key a h = elim (Option-cases (J.find_field body key)) [
    | inl e ↦ cc (rw (e, field_or) at h)
    | inr (there, e) ↦
        let picked : then_at J read d body key there ≡ some a = rw (e, field_or) at h in
        record {
          there = there;
          asked = e;
          defaults = then_at-default body read d key a there picked;
          given = then_at-given body read d key a there picked;
        }
  ]

module _ (J : Json) (body : J.Value) (s : Store) where
  abbrev name : Text
  name = (get_string J body (codes "UserName")).1

  abbrev pass : Text
  pass = (get_string J body (codes "Password")).1

  -- An account with the name and the password of the body was added.
  pub record Created (r : Reply) (t : Store) : Type 0 where
    pub service_on : s.account_service_enabled ≡ true
    pub has_name_and_password :
        ((get_string J body (codes "UserName")).0 ≡ true)
        × ((get_string J body (codes "Password")).0 ≡ true)
    pub long_enough : s.min_password_length ≤ length pass
    pub short_enough : length pass ≤ s.max_password_length
    pub name_is_new :
        All (λ p. (a : Account) × (account_at s p ≡ some a) × (a.user_name ≢ name)) s.accounts
    pub role_id : Text
    pub role_chosen : Chosen J body J.as_string (codes "ReadOnly") (codes "RoleId") role_id
    pub role_known : role_chosen.there ≡ true → record_is_exist s (role_uri role_id) ≡ true
    pub link : Option ℕ × Text
    pub links : LinksTo s role_id link
    pub enabled : Bool
    pub enabled_chosen : Chosen J body J.as_bool true (codes "Enabled") enabled
    pub num : ℕ
    pub sets : Numsets
    pub fresh : IsFresh s.numsets allocate_account_num num sets
    pub files : List Disk
    pub state :
        t
        ≡ record (add_account
            (new_account num link name pass enabled)
            (record s { numsets = sets })) { disk = files }
    pub reply :
        r
        ≡ success_reply (resource (new_account num link name pass enabled).odata_id) status_created

  -- With a valid store and a free account number, `make_account` ends. It adds one account under a
  -- fresh number with the name and password of the body, its `Enabled` or else enabled, and the role
  -- of its `RoleId`, which exists, or else the role `ReadOnly` if that exists; and only if the service
  -- is on, the password's length is within the limits, and no member account has the name. Or else it
  -- replies with an error or throws, and leaves the store as it was.
  pub make_account_lem :
      IsValid s → HasRoom s.numsets allocate_account_num → Ends s Created (make_account J body s)
  unfolding make_account has_name names_no_role
  make_account_lem v room = Ends-get s Created _ s (
      Ends-refuse s Created _ _ _ _ λ on. Ends-refuse s Created _ _ _ _ λ named.
        Ends-refuse s Created _ _ _ _ λ long. Ends-refuse s Created _ _ _ _ λ short.
          Ends-absent s Created (account_at s) (has_name name) s.accounts _ _ _
            (first_ptr-Finds (account_at s) (has_name name) s.accounts live)
            λ new. Ends-json s Created _ _ λ given asked.
              Ends-json s Created _ _ λ role_id role_asked. Ends-refuse s Created _ _ _ _ λ known.
                Ends-json s Created _ _ λ enabled enabled_asked.
                  let role_as =
                    field_or-Chosen J body J.as_string (codes "ReadOnly") (codes "RoleId") role_id
                      role_asked in
                  let g_same : role_as.there ≡ given = some_inj (sym role_as.asked ∙ asked) in
                  let (n, sets, got, fresh, _) =
                    allocate_total s.numsets allocate_account_num room.0 room.1 in
                  let (link, linked, links) = role_link_total s role_id v in
                  let a = new_account n link name pass enabled in
                  let (d, same) =
                    save_both-disk a.odata_id odata_account_id
                      (add_account a (record s { numsets = sets })) in
                  Ends-deref s Created _ _ s (n, sets) got
                    (Ends-deref s Created _ _ s link linked (
                      Ends-modify s Created _ _ _ (
                        Ends-modify s Created _ _ _ (
                          Ends-modify s Created _ _ _ (
                            Ends-done s Created _ _ (record {
                              service_on = ground arith;
                              long_enough = ground arith;
                              short_enough = ground arith;
                              name_is_new = names s.accounts new;
                              has_name_and_password = both_given _ _ named;
                              role_id = role_id;
                              role_chosen = role_as;
                              role_known = λ g. exists given _ g_same g known;
                              link = link;
                              links = links;
                              enabled = enabled;
                              enabled_chosen =
                                  field_or-Chosen J body J.as_bool true (codes "Enabled") enabled
                                    enabled_asked;
                              num = n;
                              sets = sets;
                              fresh = fresh;
                              files = d;
                              state = same;
                              reply = refl;
                            })))))))
    where
      live : All (IsLive (account_at s) (has_name name)) s.accounts
      live = All-map _ _ s.accounts (λ p h. (h.0, h.1)) v.accounts_live

      names :
          (ps : List ℕ)
          → All
              (λ p. (a : Account) × (account_at s p ≡ some a) × (text_eq a.user_name name ≡ false))
              ps
          → All (λ p. (a : Account) × (account_at s p ≡ some a) × (a.user_name ≢ name)) ps
      names ps h = All-map _ _ ps (λ p q. (q.0, q.1, text_eq-false _ _ q.2)) h
