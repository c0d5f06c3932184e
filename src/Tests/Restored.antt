-- ===== src/Tests/Restored.antt =====
-- Resources that are saved and loaded again, at concrete objects.
use cmm_sdk.Common.{◌≡◌, refl, Bool, true, false, ◌&&◌, none, some, [], ◌∷◌, ltb, arith}
use cmm_sdk.Common.Text.{codes}
use cmm_sdk.Persist.{Node, Fields, Items, make, perform}
use cmm_sdk.Persist.Reads.{Fits, AllFit, EachFits}
use cmm_sdk.Persist.Base.{Resource, resource_json, link, strings}
use cmm_sdk.Persist.Accounts.{
  privileges_json, Role, role_json, load_role, Account, account_json, load_account, Session,
  session_json, load_session,
}
use cmm_sdk.Persist.Restored.{Savable, accounts_restored}
use cmm_sdk.Tests.Saved.{node_library, node_library-IsLawful}

unfoldable mutual
  pub fits : Node → Bool
  fits (Node.number n) = ltb n 2147483648
  fits (Node.object fs) = all_fit fs
  fits (Node.array xs) = each_fits xs
  fits _ = true

  all_fit : Fields → Bool
  all_fit Fields.end = true
  all_fit (Fields.assign k n fs) = fits n && all_fit fs

  each_fits : Items → Bool
  each_fits Items.stop = true
  each_fits (Items.item n xs) = fits n && each_fits xs

mutual
  unfolding fits all_fit each_fits Fits AllFit EachFits

  fits-Fits : (n : Node) → fits n ≡ true → Fits n
  fits-Fits (Node.number n) h = ground arith
  fits-Fits (Node.object fs) h = all_fit-AllFit fs h
  fits-Fits (Node.array xs) h = each_fits-EachFits xs h
  fits-Fits Node.null h = tt
  fits-Fits Node.empty h = tt
  fits-Fits (Node.string t) h = tt
  fits-Fits (Node.boolean b) h = tt

  all_fit-AllFit : (fs : Fields) → all_fit fs ≡ true → AllFit fs
  all_fit-AllFit Fields.end h = tt
  all_fit-AllFit (Fields.assign k n fs) h =
      (fits-Fits n (ground arith), all_fit-AllFit fs (ground arith))

  each_fits-EachFits : (xs : Items) → each_fits xs ≡ true → EachFits xs
  each_fits-EachFits Items.stop h = tt
  each_fits-EachFits (Items.item n xs) h =
      (fits-Fits n (ground arith), each_fits-EachFits xs (ground arith))

abbrev pub base : Resource
base = record { name = codes "n"; type = 45; odata_id = codes "/x"; odata_type = codes "#T" }

abbrev admin_role : Role
admin_role = record {
  base = base;
  id = codes "Administrator";
  is_predefined = true;
  assigned_privileges = codes "Login" ∷ [];
}

abbrev root_account : Account
root_account = record {
  base = base;
  id = codes "1";
  enabled = true;
  password = codes "secret";
  user_name = codes "root";
  locked = false;
  role = some admin_role;
  role_id = codes "/r";
  certificates = none;
}

abbrev root_session : Session
root_session = record {
  base = base;
  id = codes "1";
  account_id = codes "/a";
  session_type = codes "Redfish";
  account = some root_account;
  remain_expires_time = 30;
  x_token = codes "token";
}

pub fits-Savable : (r : Resource) (n : Node) → ltb r.type 256 ≡ true → fits n ≡ true → Savable r n
unfolding Savable
fits-Savable r n h k = (ground arith, fits-Fits n k)

abbrev new_role : Role
new_role = record admin_role { id = []; is_predefined = false; assigned_privileges = [] }

abbrev new_account : Account
new_account = record root_account {
  id = [];
  enabled = true;
  password = [];
  user_name = [];
  locked = true;
  role = none;
  role_id = [];
}

abbrev new_session : Session
new_session = record root_session {
  id = [];
  account_id = [];
  account = none;
  remain_expires_time = 0;
  x_token = [];
}

role-Savable : Savable base (role_json admin_role)
unfolding fits role_json resource_json privileges_json strings
role-Savable = fits-Savable base (role_json admin_role) refl refl

account-Savable : Savable base (account_json root_account)
unfolding fits account_json resource_json link
account-Savable = fits-Savable base (account_json root_account) refl refl

session-Savable : Savable base (session_json root_session)
unfolding fits session_json resource_json
session-Savable = fits-Savable base (session_json root_session) refl refl

accounts_restored_example :
    (perform node_library load_role (make node_library (role_json admin_role)) new_role
      ≡ (true, admin_role))
    × (perform node_library load_account (make node_library (account_json root_account)) new_account
        ≡ (true, record root_account { role = none; certificates = none }))
    × (perform node_library load_session (make node_library (session_json root_session)) new_session
        ≡ (true, record root_session { account = none; remain_expires_time = 0 }))
accounts_restored_example =
    accounts_restored node_library node_library-IsLawful admin_role new_role (codes "Login") []
      root_account new_account root_session new_session role-Savable account-Savable session-Savable
