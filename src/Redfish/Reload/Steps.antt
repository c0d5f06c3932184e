-- ===== src/Redfish/Reload/Steps.antt =====
-- Connecting one loaded resource of each class by `dependency_injection`.
use cmm_sdk.Common.{
  ℕ, ◌≤◌, ◌≡◌, refl, ap, ◌∙◌, true, false, Option, some, [], ◌∷◌, ◌++◌, ◌==◌, arith,
}
use cmm_sdk.Common.Text.{Text, IsFree, text_eq}
use cmm_sdk.Common.Decimal.{to_string}
use cmm_sdk.Numset.{
  Numsets, update, insert_numset_num, allocate_session_num, allocate_account_num,
  allocate_subscription_num,
}
use cmm_sdk.Numset.Sets.{mem, mem-insert}
use cmm_sdk.Util.Names.{get_current_object_name, get_parent_object_uri, name_and_parent}
use cmm_sdk.Util.Validate.Address.{int_max}
use cmm_sdk.Redfish.Store.{
  Account, Role, Session, EventDestination, Object, Store, odata_account_id, odata_role_id,
  odata_session_id, odata_event_destination_id, put,
}
use cmm_sdk.Redfish.Reload.{
  add_member, insert_name, connect_session, connect_account, connect_destination, connect,
  uri_of_object, dependency_injection, slash,
}
use cmm_sdk.Redfish.Reload.Uri.{to_string-IsFree, stoi_prefix-to_string, is_number-to_string}
use cmm_sdk.Redfish.Reload.Connect.{CanConnect, Loaded, Step, Grew-Step, In-left, In-last}

parts :
    (uri base name : Text)
    → uri ≡ base ++ (b'/' ∷ name)
    → IsFree b'/' name
    → (get_current_object_name uri slash ≡ some name) × (get_parent_object_uri uri slash ≡ base)
parts uri base name e h =
    let both = name_and_parent base name h in
    (
      ap (λ u. get_current_object_name u slash) e ∙ both.0,
      ap (λ u. get_parent_object_uri u slash) e ∙ both.1,
    )

put_here : (h : ℕ → Option Object) (p : ℕ) (o : Option Object) → put h p o p ≡ o
unfolding put
put_here h p o = ground arith

put_there :
    (h : ℕ → Option Object) (p q : ℕ) (o : Option Object) → (p == q) ≡ false → put h p o q ≡ h q
unfolding put
put_there h p q o e = rw (e) refl

mem-insert_numset_num :
    (sets : Numsets) (index n i m : ℕ)
    → mem m (sets.numset i) ≡ true
    → mem m ((insert_numset_num sets index n).numset i) ≡ true
unfolding insert_numset_num update
mem-insert_numset_num sets index n i m h = ground (arith, mem-insert n m (sets.numset index))

mem-insert_numset_num_self :
    (sets : Numsets) (index n : ℕ) → mem n ((insert_numset_num sets index n).numset index) ≡ true
unfolding insert_numset_num update
mem-insert_numset_num_self sets index n = ground (arith, mem-insert n n (sets.numset index))

injects :
    (s : Store) (p : ℕ) (o : Object) (base name : Text)
    → s.heap p ≡ some o
    → uri_of_object o ≡ base ++ (b'/' ∷ name)
    → IsFree b'/' name
    → dependency_injection p s ≡ connect p o base name s
unfolding dependency_injection
injects s p o base name e uri free =
    let both = parts (uri_of_object o) base name uri free in
    rw (e, dependency_injection) (rw (both.0) (ap (λ b. connect p o b name s) both.1))

insert_name-to_string :
    (index n : ℕ) (s : Store)
    → n ≤ int_max
    → insert_name index (to_string n) s
      ≡ some (record s { numsets = insert_numset_num s.numsets index n })
unfolding insert_name
insert_name-to_string index n s small = rw (stoi_prefix-to_string n small, insert_name) refl

add_member-sessions :
    (p : ℕ) (s : Store)
    → add_member odata_session_id p s ≡ some (record s { sessions = s.sessions ++ p ∷ [] })
unfolding add_member text_eq odata_session_id odata_role_id odata_account_id
    odata_event_destination_id
add_member-sessions p s = refl

add_member-roles :
    (p : ℕ) (s : Store)
    → add_member odata_role_id p s ≡ some (record s { roles = s.roles ++ p ∷ [] })
unfolding add_member text_eq odata_session_id odata_role_id odata_account_id
    odata_event_destination_id
add_member-roles p s = refl

add_member-accounts :
    (p : ℕ) (s : Store)
    → add_member odata_account_id p s ≡ some (record s { accounts = s.accounts ++ p ∷ [] })
unfolding add_member text_eq odata_session_id odata_role_id odata_account_id
    odata_event_destination_id
add_member-accounts p s = refl

add_member-subscriptions :
    (p : ℕ) (s : Store)
    → add_member odata_event_destination_id p s
      ≡ some (record s { subscriptions = s.subscriptions ++ p ∷ [] })
unfolding add_member text_eq odata_session_id odata_role_id odata_account_id
    odata_event_destination_id
add_member-subscriptions p s = refl

session-Step :
    (s : Store) (p : ℕ) (x : Session)
    → s.heap p ≡ some (Object.session x)
    → CanConnect s.g_record (Object.session x)
    → (t : Store) × Step s t p
unfolding connect_session
session-Step s p x e (n, (uri, small), (q, owner)) =
    let y = record x { account = some q; remain_expires_time = s.session_timeout } in
    let t = record s {
      sessions = s.sessions ++ p ∷ [];
      numsets = insert_numset_num s.numsets allocate_session_num n;
      heap = put s.heap p (some (Object.session y));
    } in
    (
      t,
      Grew-Step s t p (Object.session y)
          (injects s p (Object.session x) odata_session_id (to_string n) e uri (to_string-IsFree n)
            ∙ rw (owner, connect_session)
                (rw (add_member-sessions p s) (
                  rw
                    (insert_name-to_string allocate_session_num n
                      (record s { sessions = s.sessions ++ p ∷ [] }) small)
                    refl)))
          (record {
            here = put_here s.heap p _;
            there = λ r d. put_there s.heap p r _ d;
            table = refl;
            timeout = refl;
            more_sessions = λ r h. In-left r s.sessions _ h;
            more_accounts = λ r h. h;
            more_roles = λ r h. h;
            more_subscriptions = λ r h. h;
            more_numbers = λ i m h. mem-insert_numset_num s.numsets allocate_session_num n i m h;
          })
          (n, (uri, small), (q, owner))
          (
            owner,
            refl,
            In-last p s.sessions,
            (n, (uri, small), mem-insert_numset_num_self s.numsets allocate_session_num n),
          ),
    )

account-Step :
    (s : Store) (p : ℕ) (a : Account)
    → s.heap p ≡ some (Object.account a)
    → CanConnect s.g_record (Object.account a)
    → (t : Store) × Step s t p
unfolding connect_account
account-Step s p a e (n, (uri, small), (q, has_role)) =
    let y = record a { role = some q } in
    let u = record s {
      numsets = insert_numset_num s.numsets allocate_account_num n;
      heap = put s.heap p (some (Object.account y));
    } in
    let t = record u { accounts = s.accounts ++ p ∷ [] } in
    (
      t,
      Grew-Step s t p (Object.account y)
          (injects s p (Object.account a) odata_account_id (to_string n) e uri (to_string-IsFree n)
            ∙ rw (is_number-to_string n, connect_account)
                (rw (insert_name-to_string allocate_account_num n s small)
                  (rw (has_role) (add_member-accounts p u))))
          (record {
            here = put_here s.heap p _;
            there = λ r d. put_there s.heap p r _ d;
            table = refl;
            timeout = refl;
            more_sessions = λ r h. h;
            more_accounts = λ r h. In-left r s.accounts _ h;
            more_roles = λ r h. h;
            more_subscriptions = λ r h. h;
            more_numbers = λ i m h. mem-insert_numset_num s.numsets allocate_account_num n i m h;
          })
          (n, (uri, small), (q, has_role))
          (
            has_role,
            In-last p s.accounts,
            (n, (uri, small), mem-insert_numset_num_self s.numsets allocate_account_num n),
          ),
    )

role-Step :
    (s : Store) (p : ℕ) (r : Role)
    → s.heap p ≡ some (Object.role r)
    → CanConnect s.g_record (Object.role r)
    → (t : Store) × Step s t p
role-Step s p r e (name, uri, free) =
    let t = record s { roles = s.roles ++ p ∷ [] } in
    (
      t,
      Grew-Step s t p (Object.role r)
          (injects s p (Object.role r) odata_role_id name e uri free ∙ add_member-roles p s)
          (record {
            here = e;
            there = λ q d. refl;
            table = refl;
            timeout = refl;
            more_sessions = λ q h. h;
            more_accounts = λ q h. h;
            more_roles = λ q h. In-left q s.roles _ h;
            more_subscriptions = λ q h. h;
            more_numbers = λ i m h. h;
          })
          (name, uri, free) (In-last p s.roles),
    )

destination-Step :
    (s : Store) (p : ℕ) (d : EventDestination)
    → s.heap p ≡ some (Object.event_destination d)
    → CanConnect s.g_record (Object.event_destination d)
    → (t : Store) × Step s t p
unfolding connect_destination
destination-Step s p d e (n, (uri, small)) =
    let u = record s { subscriptions = s.subscriptions ++ p ∷ [] } in
    let t = record u { numsets = insert_numset_num s.numsets allocate_subscription_num n } in
    (
      t,
      Grew-Step s t p (Object.event_destination d)
          (injects s p (Object.event_destination d) odata_event_destination_id (to_string n) e uri
              (to_string-IsFree n)
            ∙ rw (add_member-subscriptions p s, connect_destination)
                (insert_name-to_string allocate_subscription_num n u small))
          (record {
            here = e;
            there = λ q h. refl;
            table = refl;
            timeout = refl;
            more_sessions = λ q h. h;
            more_accounts = λ q h. h;
            more_roles = λ q h. h;
            more_subscriptions = λ q h. In-left q s.subscriptions _ h;
            more_numbers =
                λ i m h. mem-insert_numset_num s.numsets allocate_subscription_num n i m h;
          })
          (n, (uri, small))
          (
            In-last p s.subscriptions,
            (n, (uri, small), mem-insert_numset_num_self s.numsets allocate_subscription_num n),
          ),
    )

pub Loaded-Step : (s : Store) (p : ℕ) → Loaded s p → (t : Store) × Step s t p
Loaded-Step s p (Object.session x, e, h) = session-Step s p x e h
Loaded-Step s p (Object.account a, e, h) = account-Step s p a e h
Loaded-Step s p (Object.role r, e, h) = role-Step s p r e h
Loaded-Step s p (Object.event_destination d, e, h) = destination-Step s p d e h
