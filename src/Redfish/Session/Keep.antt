-- ===== src/Redfish/Session/Keep.antt =====
-- A login keeps the store valid, and its token is accepted.
use cmm_sdk.Common.{
  ℕ, suc, ◌≤◌, ◌<◌, ◌≡◌, ◌≢◌, refl, ◌∙◌, true, false, none, some, List, [], ◌∷◌, ◌++◌, arith, All,
  All-append,
}
use cmm_sdk.Common.Text.{text_eq_ne, Text, text_eq_refl}
use cmm_sdk.Common.Decimal.{to_string, to_string_inj}
use cmm_sdk.Numset.{allocate_session_num}
use cmm_sdk.Redfish.Json.{Json}
use cmm_sdk.Redfish.Search.{first_ptr, first_ptr-append, All-In}
use cmm_sdk.Redfish.Store.{
  Session, session, Store, odata_session_id, odata_role_id, put, bind_uri, session_at,
  record_is_exist,
}
use cmm_sdk.Redfish.Monad.{Reply, Ends, Ends-weaken}
use cmm_sdk.Redfish.Valid.{
  IsValid, IsAccountAt, IsRoleAt, IsSessionAt, Extends, put-Extends, Extends-IsAccountAt,
  append_cancel, All-map, All-eq, uri_of, HasRoom,
}
use cmm_sdk.Redfish.Session.{
  has_token, check_session, is_session_valid, make_session, session_uri, new_session, add_session,
}
use cmm_sdk.Redfish.Session.Login.{LoggedIn, make_session_lem}

uri_of_inj : (base : Text) (m n : ℕ) → uri_of base m ≡ uri_of base n → m ≡ n
uri_of_inj base m n h =
    let tails : (b'/' ∷ to_string m) ≡ (b'/' ∷ to_string n) =
      append_cancel base (b'/' ∷ to_string m) (b'/' ∷ to_string n) h in
    to_string_inj m n (cc)

pub session-ne-role : (n : ℕ) (id : Text) → session_uri n ≢ (odata_role_id ++ (b'/' ∷ id))
unfolding odata_session_id odata_role_id
session-ne-role n id h = ground arith

module _ (J : Json) (body : J.Value) (token : Text) (s t : Store) (r : Reply) (v : IsValid s)
    (l : LoggedIn J body token s r t) where
  abbrev x : Session
  x = new_session s l.num l.p l.a token

  -- The fields of the new store.
  heap-eq : t.heap ≡ put s.heap s.next (some (session x))
  unfolding add_session
  heap-eq = rw l.state

  table-eq : t.g_record ≡ bind_uri s.g_record (session_uri l.num) (some s.next)
  unfolding add_session new_session
  table-eq = rw l.state

  numset-eq : t.numsets ≡ l.sets
  unfolding add_session
  numset-eq = rw l.state

  sessions-eq : t.sessions ≡ s.sessions ++ s.next ∷ []
  unfolding add_session
  sessions-eq = rw l.state

  rest-eq : (t.accounts ≡ s.accounts) × (t.roles ≡ s.roles) × (t.next ≡ suc s.next)
  unfolding add_session
  rest-eq = (rw l.state, rw l.state, rw l.state)

  extends : Extends s t
  extends = put-Extends s t (session x) (v.unused s.next (omega arith)) heap-eq

  new-at : session_at t s.next ≡ some x
  unfolding session_at put
  new-at = ground (arith, heap-eq)

  old_session :
      (p : ℕ)
      → IsSessionAt (s.numsets.numset allocate_session_num) s p
      → IsSessionAt (l.sets.numset allocate_session_num) t p
  unfolding bind_uri
  old_session p o = record {
    x = o.x;
    alive = extends.sessions_kept p o.x o.alive;
    num = o.num;
    uri = o.uri;
    taken = ground (arith, l.fresh.taken o.num, o.taken);
    in_table =
        rw table-eq (rw (text_eq_ne (session_uri l.num) o.x.odata_id other, bind_uri) o.in_table);
    owner = o.owner;
    owner_is = o.owner_is;
    owner_alive = Extends-IsAccountAt s t o.owner extends o.owner_alive;
  }
    where
      other : session_uri l.num ≢ o.x.odata_id
      other e =
          let same : l.num ≡ o.num = uri_of_inj odata_session_id l.num o.num (e ∙ o.uri) in
          cc (l.fresh.was_free, o.taken, same)

  new-IsSessionAt : IsAccountAt s l.p → IsSessionAt (l.sets.numset allocate_session_num) t s.next
  unfolding bind_uri new_session
  new-IsSessionAt live = record {
    x = x;
    alive = new-at;
    num = l.num;
    uri = refl;
    taken = ground (arith, l.fresh.taken l.num);
    in_table = rw table-eq (rw (text_eq_refl (session_uri l.num), bind_uri) refl);
    owner = l.p;
    owner_is = refl;
    owner_alive = Extends-IsAccountAt s t l.p extends live;
  }

  role_entry :
      (id : Text) (p : ℕ) → t.g_record (odata_role_id ++ (b'/' ∷ id)) ≡ some p → IsRoleAt t p
  unfolding bind_uri
  role_entry id p h =
      let other = text_eq_ne (session_uri l.num) _ (session-ne-role l.num id) in
      let old : s.g_record (odata_role_id ++ (b'/' ∷ id)) ≡ some p =
        rw (table-eq, other, bind_uri) at h in
      let (q, e) = v.role_table id p old in (q, extends.roles_kept p q e)

  unused_later : (p : ℕ) → t.next ≤ p → t.heap p ≡ none
  unfolding put
  unused_later p h = ground (arith, heap-eq, v.unused p, rest-eq.2)

  -- A login keeps the store valid.
  pub LoggedIn-IsValid : IsValid t
  LoggedIn-IsValid = record {
    accounts_live = All-eq (IsAccountAt t) s.accounts t.accounts rest-eq.0 (
        All-map (IsAccountAt s) (IsAccountAt t) s.accounts (λ p. Extends-IsAccountAt s t p extends)
          v.accounts_live);
    roles_live = All-eq (IsRoleAt t) s.roles t.roles rest-eq.1 (
        All-map (IsRoleAt s) (IsRoleAt t) s.roles (λ p h. (h.0, extends.roles_kept p h.0 h.1))
          v.roles_live);
    sessions_live = simp numset-eq (
        All-eq (IsSessionAt (l.sets.numset allocate_session_num) t) (s.sessions ++ s.next ∷ [])
          t.sessions sessions-eq
          (All-append (IsSessionAt (l.sets.numset allocate_session_num) t) s.sessions (s.next ∷ [])
            (All-map (IsSessionAt (s.numsets.numset allocate_session_num) s)
              (IsSessionAt (l.sets.numset allocate_session_num) t) s.sessions old_session
              v.sessions_live)
            (
              new-IsSessionAt (All-In (IsAccountAt s) l.p s.accounts v.accounts_live l.member),
              tt,
            )));
    unused = unused_later;
    role_table = role_entry;
  }

  in_table-new : t.g_record (session_uri l.num) ≡ some s.next
  unfolding bind_uri
  in_table-new = rw table-eq (rw (text_eq_refl (session_uri l.num), bind_uri) refl)

  record_is_exist-new : record_is_exist t (session_uri l.num) ≡ true
  unfolding record_is_exist
  record_is_exist-new = rw (in_table-new, record_is_exist)

  old_miss :
      All (λ p. (y : Session) → session_at s p ≡ some y → y.x_token ≢ token) s.sessions
      → All
          (λ p. (y : Session) × (session_at t p ≡ some y) × (has_token token y ≡ false))
          s.sessions
  unfolding has_token
  old_miss other = both s.sessions v.sessions_live other
    where
      both :
          (ps : List ℕ)
          → All (IsSessionAt (s.numsets.numset allocate_session_num) s) ps
          → All (λ p. (y : Session) → session_at s p ≡ some y → y.x_token ≢ token) ps
          → All (λ p. (y : Session) × (session_at t p ≡ some y) × (has_token token y ≡ false)) ps
      both [] a b = tt
      both (p ∷ ps) a b = (
        (a.0.x, extends.sessions_kept p a.0.x a.0.alive, text_eq_ne _ _ (b.0 a.0.x a.0.alive)),
        both ps a.1 b.1,
      )

  -- The token of a login is accepted, if sessions do not time out at once and no older session has
  -- the same token.
  pub LoggedIn-is_session_valid :
      0 < s.session_timeout
      → All (λ p. (y : Session) → session_at s p ≡ some y → y.x_token ≢ token) s.sessions
      → is_session_valid t token ≡ some true
  unfolding is_session_valid has_token check_session new_session
  LoggedIn-is_session_valid pos other =
      let found : first_ptr (session_at t) (has_token token) t.sessions ≡ some (some s.next) =
        simp sessions-eq (
          first_ptr-append (session_at t) (has_token token) s.sessions s.next x (old_miss other)
            new-at (text_eq_refl token)) in
      rw (found, is_session_valid)
        (rw (new-at, is_session_valid) (ground (arith, record_is_exist-new)))

module _ (J : Json) (body : J.Value) (token : Text) (s : Store) where
  -- With a valid store and a free session number, `make_session` ends, and leaves a valid store
  -- behind: all members are alive, each session is in the table under its own number, and its account
  -- and that account's role are alive.
  pub make_session-IsValid :
      IsValid s
      → HasRoom s.numsets allocate_session_num
      → Ends s (λ r t. IsValid t) (make_session J body token s)
  make_session-IsValid v room =
      Ends-weaken s (LoggedIn J body token s) (λ r t. IsValid t) (make_session J body token s)
        (make_session_lem J body token s v room) (λ r t l. LoggedIn-IsValid J body token s t r v l)

  -- With a valid store, a free session number, a timeout above zero and a drawn token that no older
  -- session has, `make_session` ends, and the token of a successful login passes
  -- `is_session_valid`.
  pub make_session-is_session_valid :
      IsValid s
      → HasRoom s.numsets allocate_session_num
      → 0 < s.session_timeout
      → All (λ p. (y : Session) → session_at s p ≡ some y → y.x_token ≢ token) s.sessions
      → Ends s (λ r t. is_session_valid t token ≡ some true) (make_session J body token s)
  make_session-is_session_valid v room pos other =
      Ends-weaken s (LoggedIn J body token s) (λ r t. is_session_valid t token ≡ some true)
        (make_session J body token s) (make_session_lem J body token s v room)
        (λ r t l. LoggedIn-is_session_valid J body token s t r v l pos other)
