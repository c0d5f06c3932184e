-- ===== src/Redfish/Reload/Restart.antt =====
-- The loop of `record_load_json` over the loaded resources, and the allocator after it.
use cmm_sdk.Common.{
  ℕ, ◌≡◌, ◌≢◌, refl, ◌∙◌, ap, sym, true, some, List, [], ◌∷◌, All, subst, some_inj,
}
use cmm_sdk.Common.Text.{Text}
use cmm_sdk.Common.Decimal.{to_string_inj}
use cmm_sdk.Numset.{Numsets, allocate_numset_num, allocate_session_num}
use cmm_sdk.Numset.Sets.{mem}
use cmm_sdk.Numset.Fresh.{allocate-IsFresh}
use cmm_sdk.Redfish.Store.{Object, Store, Session, odata_session_id}
use cmm_sdk.Redfish.Search.{In, All-In}
use cmm_sdk.Redfish.Valid.{uri_of, append_cancel}
use cmm_sdk.Redfish.Reload.{inject_all, uri_of_object}
use cmm_sdk.Redfish.Reload.Steps.{Loaded-Step}
use cmm_sdk.Redfish.Reload.Connect.{Loaded, Connected, IsConnected}

All-keeps : (P Q : ℕ → Type 0) (ps : List ℕ) → ((p : ℕ) → P p → Q p) → All P ps → All Q ps
All-keeps P Q [] f h = tt
All-keeps P Q (p ∷ ps) f h = (f p h.0, All-keeps P Q ps f h.1)

Injected : List ℕ → Store → Type 0
Injected ps s =
    (t : Store) × (inject_all ps s ≡ some t)
    × All (Connected t) ps
    × ((q : ℕ) → Connected s q → Connected t q)

injected : (ps : List ℕ) (s : Store) → All (Loaded s) ps → Injected ps s
unfolding inject_all Injected
injected [] s h = (s, refl, tt, λ q k. k)
injected (p ∷ ps) s h =
    let (u, step) = Loaded-Step s p h.0 in
    let (t, e, rest, keeps) =
      injected ps u (All-keeps (Loaded s) (Loaded u) ps step.keeps_loaded h.1) in
    (
      t,
      rw (step.does, inject_all) e,
      (keeps p step.connected, rest),
      λ q k. keeps q (step.keeps_connected q k),
    )

-- Every loaded session, account, role and subscription whose URI is its collection and a number that
-- is an `int` (for a role, a name), with the account or role that it names in the table, is connected: the loop ends, each
-- is a member of its collection, its pointer is that of the table, a session has the whole timeout left,
-- and its number is taken.
pub inject_all-Connected :
    (ps : List ℕ) (s : Store)
    → All (Loaded s) ps
    → (t : Store) × (inject_all ps s ≡ some t) × All (Connected t) ps
unfolding Injected
inject_all-Connected ps s h = let (t, e, all, _) = injected ps s h in (t, e, all)

uri_of_inj : (base : Text) (m n : ℕ) → uri_of base m ≡ uri_of base n → m ≡ n
uri_of_inj base m n h = to_string_inj m n (append_cancel (b'/' ∷ []) _ _ (append_cancel base _ _ h))

session_num :
    (t : Store) (p : ℕ) (x : Session) (o : Object)
    → t.heap p ≡ some o
    → t.heap p ≡ some (Object.session x)
    → IsConnected t p o
    → (n : ℕ) × (x.odata_id ≡ uri_of odata_session_id n)
      × (mem n (t.numsets.numset allocate_session_num) ≡ true)
session_num t p x o h k c = go o (some_inj (sym h ∙ k)) c
  where
    go :
        (o : Object)
        → o ≡ Object.session x
        → IsConnected t p o
        → (n : ℕ) × (x.odata_id ≡ uri_of odata_session_id n)
          × (mem n (t.numsets.numset allocate_session_num) ≡ true)
    go (Object.session y) e (a, b, m, (n, (uri, small), taken)) =
        (n, ap (λ o. uri_of_object o) (sym e) ∙ uri, taken)
    go (Object.account a) e c = cc e
    go (Object.role r) e c = cc e
    go (Object.event_destination d) e c = cc e

-- If all loaded resources are as above and the loop has ended, a number that is then allocated for a
-- session makes a URI that no loaded session has.
pub new_session_uri :
    (ps : List ℕ) (s t : Store) (p : ℕ) (x : Session) (m : ℕ) (u : Numsets)
    → All (Loaded s) ps
    → inject_all ps s ≡ some t
    → In p ps
    → t.heap p ≡ some (Object.session x)
    → allocate_numset_num t.numsets allocate_session_num ≡ some (m, u)
    → x.odata_id ≢ uri_of odata_session_id m
new_session_uri ps s t p x m u loaded e i h new same_uri =
    let (v, f, all) = inject_all-Connected ps s loaded in
    let all_t : All (Connected t) ps =
      subst (λ r. All (Connected r) ps) (some_inj (sym f ∙ e)) all in
    let (o, k, c) = All-In (Connected t) p ps all_t i in
    let (n, uri, taken) = session_num t p x o k h c in
    let same : n ≡ m = uri_of_inj odata_session_id n m (sym uri ∙ same_uri) in
    let free = (allocate-IsFresh t.numsets u allocate_session_num m new).was_free in
    cc (rw (same) at taken, free)
