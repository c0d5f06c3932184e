-- ===== src/Tests/Fixture.antt =====
-- A JSON library and a store to run the handlers on.
use cmm_sdk.Common.{
  ℕ, ◌≡◌, refl, Bool, true, false, Option, none, some, List, [], ◌∷◌, ◌++◌, arith, if◌then◌else◌,
  get_elem?, length, ◌≤◌, inl, inr, ◌⊎◌, subst, sym,
}
use cmm_sdk.Common.Decimal.{to_string, leading_digits, value}
use cmm_sdk.Common.Text.{text_eq_ne, Text, codes, text_eq, is_empty}
use cmm_sdk.Numset.{
  init_numset, insert_numset_num, allocate_session_num, allocate_subscription_num,
  allocate_account_num, uint_max, update,
}
use cmm_sdk.Numset.Sets.{mem, insert}
use cmm_sdk.Redfish.Account.Remove.{stoi_prefix}
use cmm_sdk.Redfish.Json.{Json}
use cmm_sdk.Redfish.Store.{
  Account, Role, Session, account, role, session, Store, odata_role_id, odata_session_id,
  odata_account_id, put, bind_uri, account_at, role_at, session_at,
}
use cmm_sdk.Redfish.Valid.{IsValid, IsRoleAt, IsAccountAt, IsSessionAt, HasRoom}
use cmm_sdk.Redfish.Session.{session_uri}
use cmm_sdk.Redfish.Session.Keep.{session-ne-role}

pub data Leaf : Type 0 where
  text : Text → Leaf
  flag : Bool → Leaf
  texts : List Text → Leaf

pub data Tree : Type 0 where
  leaf : Leaf → Tree
  object : List (Text × Leaf) → Tree

unfoldable pub lookup : List (Text × Leaf) → Text → Option Leaf
lookup [] key = none
lookup (f ∷ fs) key = if text_eq f.0 key then some f.1 else lookup fs key

abbrev fields_of : Tree → List (Text × Leaf)
fields_of (leaf l) = []
fields_of (object fs) = fs

abbrev is_some : Option Leaf → Bool
is_some none = false
is_some (some l) = true

abbrev some_leaf : Option Leaf → Option Tree
some_leaf none = none
some_leaf (some l) = some (leaf l)

abbrev find_in : Tree → Text → Option Bool
find_in (leaf l) key = none
find_in (object fs) key = some (is_some (lookup fs key))

abbrev text_of : Tree → Option Text
text_of (leaf (text t)) = some t
text_of _ = none

abbrev flag_of : Tree → Option Bool
flag_of (leaf (flag b)) = some b
flag_of _ = none

abbrev items_of : Tree → List Text
items_of (leaf (texts ts)) = ts
items_of _ = []

abbrev some_text : Option Text → Option Tree
some_text none = none
some_text (some t) = some (leaf (text t))

abbrev pub json_library : Json
json_library = record {
  Value = Tree;
  null = object [];
  has_field = λ v key. is_some (lookup (fields_of v) key);
  at_key = λ v key. some_leaf (lookup (fields_of v) key);
  find_field = find_in;
  as_string = text_of;
  as_bool = flag_of;
  size = λ v. length (items_of v);
  at_index = λ v i. some_text (get_elem? (items_of v) i);
}

abbrev pub admin_role : Role
admin_role = record {
  odata_id = odata_role_id ++ codes "/Administrator";
  name = codes "User Role";
  id = codes "Administrator";
  is_predefined = true;
  assigned_privileges = codes "Login" ∷ [];
}

abbrev pub custom_role : Role
custom_role = record {
  odata_id = odata_role_id ++ codes "/Night";
  name = codes "User Role";
  id = codes "Night";
  is_predefined = false;
  assigned_privileges = codes "Login" ∷ [];
}

abbrev pub root_account : Account
root_account = record {
  odata_id = odata_account_id ++ codes "/1";
  name = codes "User Account";
  id = codes "1";
  enabled = true;
  password = codes "secret";
  user_name = codes "root";
  locked = false;
  role = some 0;
  role_id = odata_role_id ++ codes "/Administrator";
}

abbrev pub root_session : Session
root_session = record {
  odata_id = session_uri 1;
  id = codes "1";
  account_id = odata_account_id ++ codes "/1";
  session_type = codes "Redfish";
  account = some 1;
  remain_expires_time = 300;
  x_token = codes "old";
}

-- Addresses: 0 the role Administrator, 1 the account root, 2 its session, 3 the role Night.
unfoldable pub server : Store
unfolding put bind_uri insert_numset_num init_numset
server = record {
  heap =
      put
        (put (put (put (λ p. none) 0 (some (role admin_role))) 1 (some (account root_account))) 2
          (some (session root_session)))
        3 (some (role custom_role));
  next = 4;
  g_record =
      bind_uri
        (bind_uri
          (bind_uri (bind_uri (λ uri. none) (odata_role_id ++ codes "/Administrator") (some 0))
            (odata_role_id ++ codes "/Night") (some 3))
          (session_uri 1) (some 2))
        root_account.odata_id (some 1);
  accounts = 1 ∷ [];
  roles = 0 ∷ 3 ∷ [];
  sessions = 2 ∷ [];
  subscriptions = [];
  account_service_enabled = true;
  min_password_length = 5;
  max_password_length = 20;
  session_service_enabled = true;
  session_timeout = 300;
  numsets = insert_numset_num init_numset allocate_session_num 1;
  disk = [];
}

root_live : IsAccountAt server 1
unfolding server account_at role_at put
root_live = (root_account, refl, (0, refl, (admin_role, refl)))

night_live : IsRoleAt server 3
unfolding server role_at put
night_live = (custom_role, refl)

admin_live : IsRoleAt server 0
unfolding server role_at put
admin_live = (admin_role, refl)

session_live : IsSessionAt (server.numsets.numset allocate_session_num) server 2
unfolding server session_at put bind_uri text_eq insert_numset_num init_numset mem insert update
    odata_session_id odata_account_id to_string
session_live = record {
  x = root_session;
  alive = refl;
  num = 1;
  uri = refl;
  taken = refl;
  in_table = refl;
  owner = 1;
  owner_is = refl;
  owner_alive = root_live;
}

role_table_at :
    (key : Text) (p : ℕ)
    → text_eq root_account.odata_id key ≡ false
    → text_eq (session_uri 1) key ≡ false
    → server.g_record key ≡ some p
    → (p ≡ 3) ⊎ (p ≡ 0)
unfolding server bind_uri
role_table_at key p no_account other h = ground (arith, no_account, other, h)

no_account_at : (id : Text) → text_eq root_account.odata_id (odata_role_id ++ (b'/' ∷ id)) ≡ false
unfolding text_eq odata_account_id odata_role_id
no_account_at id = refl

roles_in_table :
    (id : Text) (p : ℕ)
    → server.g_record (odata_role_id ++ (b'/' ∷ id)) ≡ some p
    → IsRoleAt server p
roles_in_table id p h =
    elim (role_table_at _ p (no_account_at id) (text_eq_ne _ _ (session-ne-role 1 id)) h) [
      | inl e ↦ subst (IsRoleAt server) (sym e) night_live
      | inr e ↦ subst (IsRoleAt server) (sym e) admin_live
    ]

unused_at : (p : ℕ) → server.next ≤ p → server.heap p ≡ none
unfolding server put
unused_at p h = ground arith

pub server-IsValid : IsValid server
unfolding server
server-IsValid = record {
  accounts_live = (root_live, tt);
  roles_live = (admin_live, (night_live, tt));
  sessions_live = (session_live, tt);
  unused = unused_at;
  role_table = roles_in_table;
}

pub session_room : HasRoom server.numsets allocate_session_num
unfolding server insert_numset_num init_numset insert update uint_max mem
session_room = (omega arith, omega arith)

pub account_room : HasRoom server.numsets allocate_account_num
unfolding server insert_numset_num init_numset insert update uint_max mem
account_room = (omega arith, omega arith)

pub subscription_room : HasRoom server.numsets allocate_subscription_num
unfolding server insert_numset_num init_numset insert update uint_max mem
subscription_room = (omega arith, omega arith)

pub next_unused : server.heap server.next ≡ none
unfolding server put
next_unused = refl

pub first_number : stoi_prefix (codes "1") ≡ some 1
unfolding stoi_prefix is_empty leading_digits value
first_number = refl
