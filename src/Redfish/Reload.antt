-- ===== src/Redfish/Reload.antt =====
-- `dependency_injection` of src/record.cpp for sessions, roles, accounts and subscriptions, and the
-- loop of `record_load_json` that calls it. The timer that a session starts is `Redfish.Session.Timer`.
pub mod Uri
pub mod Connect
pub mod Steps
pub mod Restart
use cmm_sdk.Common.{ℕ, Bool, true, false, Option, none, some, List, [], ◌∷◌, ◌++◌, if◌then◌else◌}
use cmm_sdk.Common.Text.{Text, codes, text_eq}
use cmm_sdk.Numset.{
  insert_numset_num, allocate_session_num, allocate_account_num, allocate_subscription_num,
}
use cmm_sdk.Util.Names.{get_current_object_name, get_parent_object_uri}
use cmm_sdk.Util.Validate.Address.{is_number}
use cmm_sdk.Redfish.Store.{
  Account, Role, Session, EventDestination, Object, Store, odata_account_id, odata_role_id,
  odata_session_id, odata_event_destination_id, put,
}
use cmm_sdk.Redfish.Account.Remove.{stoi_prefix}

-- `((Collection *)g_record[parent])->add_member(res)`; `none`: the parent is none of the four collections.
unfoldable pub add_member : Text → ℕ → Store → Option Store
add_member parent p s =
    if text_eq parent odata_session_id
    then some (record s { sessions = s.sessions ++ p ∷ [] })
    else if text_eq parent odata_role_id
    then some (record s { roles = s.roles ++ p ∷ [] })
    else if text_eq parent odata_account_id
    then some (record s { accounts = s.accounts ++ p ∷ [] })
    else if text_eq parent odata_event_destination_id
    then some (record s { subscriptions = s.subscriptions ++ p ∷ [] })
    else none

abbrev pub slash : Text
slash = codes "/"

-- `insert_numset_num(index, stoi(current_object_name))`
unfoldable pub insert_name : ℕ → Text → Store → Option Store
unfolding stoi_prefix insert_numset_num
insert_name index name s = elim (stoi_prefix name) [
  | none ↦ none
  | some n ↦ some (record s { numsets = insert_numset_num s.numsets index n })
]

-- The account of the session, its place in the collection, its number and its time. `g_record[…]` puts
-- a null into the table if there is no such account; the model ends there.
unfoldable pub connect_session : ℕ → Session → Text → Text → Store → Option Store
unfolding put
connect_session p x parent name s = elim (s.g_record x.account_id) [
  | none ↦ none
  | some q ↦ elim (add_member parent p s) [
    | none ↦ none
    | some t ↦ elim (insert_name allocate_session_num name t) [
      | none ↦ none
      | some u ↦
          let y = record x { account = some q; remain_expires_time = u.session_timeout } in
          some (record u { heap = put u.heap p (some (Object.session y)) })
    ]
  ]
]

-- An account whose name is not a number stays unconnected.
unfoldable pub connect_account : ℕ → Account → Text → Text → Store → Option Store
unfolding put
connect_account p a parent name s =
    if is_number name
    then elim (insert_name allocate_account_num name s) [
      | none ↦ none
      | some t ↦ elim (t.g_record a.role_id) [
        | none ↦ none
        | some q ↦
            add_member parent p (record t {
              heap = put t.heap p (some (Object.account (record a { role = some q })));
            })
      ]
    ]
    else some s

unfoldable pub connect_destination : ℕ → Text → Text → Store → Option Store
connect_destination p parent name s = elim (add_member parent p s) [
  | none ↦ none
  | some t ↦ insert_name allocate_subscription_num name t
]

abbrev pub uri_of_object : Object → Text
uri_of_object (Object.session x) = x.odata_id
uri_of_object (Object.account a) = a.odata_id
uri_of_object (Object.role r) = r.odata_id
uri_of_object (Object.event_destination d) = d.odata_id

abbrev pub connect : ℕ → Object → Text → Text → Store → Option Store
connect p (Object.session x) parent name s = connect_session p x parent name s
connect p (Object.account a) parent name s = connect_account p a parent name s
connect p (Object.role r) parent name s = add_member parent p s
connect p (Object.event_destination d) parent name s = connect_destination p parent name s

-- `none` also where the pointer is bad, or the name of the resource cannot be cut.
unfoldable pub dependency_injection : ℕ → Store → Option Store
dependency_injection p s = elim (s.heap p) [
  | none ↦ none
  | some o ↦ elim (get_current_object_name (uri_of_object o) slash) [
    | none ↦ none
    | some name ↦ connect p o (get_parent_object_uri (uri_of_object o) slash) name s
  ]
]

-- `for (auto object : dependency_object) dependency_injection(object);`
unfoldable pub inject_all : List ℕ → Store → Option Store
unfolding dependency_injection
inject_all [] s = some s
inject_all (p ∷ ps) s = elim (dependency_injection p s) [ none ↦ none | some t ↦ inject_all ps t ]
