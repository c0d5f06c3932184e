-- ===== src/Redfish/Session/Login.antt =====
-- What `make_session` does.
use cmm_sdk.Common.{ℕ, ◌≡◌, refl, Bool, true, false, not, some, List, arith, All}
use cmm_sdk.Common.Text.{Text, codes, text_eq_iff}
use cmm_sdk.Numset.{Numsets, allocate_session_num}
use cmm_sdk.Numset.Fresh.{IsFresh, allocate_total}
use cmm_sdk.Redfish.Json.{Json, get_string}
use cmm_sdk.Redfish.Search.{In, IsLive, first_ptr-Finds}
use cmm_sdk.Redfish.Store.{Account, Disk, Store, odata_session_id, account_at, resource_save_json}
use cmm_sdk.Redfish.Monad.{Reply, Ends, Ends-deref, Ends-refuse, Ends-get, Ends-modify, Ends-done}
use cmm_sdk.Redfish.Rules.{Ends-found}
use cmm_sdk.Redfish.Valid.{IsValid, HasRoom, save_both-disk, All-map}
use cmm_sdk.Redfish.Session.{has_user_name, new_session, add_session, session_reply, make_session}

not-false : {b : Bool} → not b ≡ false → b ≡ true
not-false h = ground arith

module _ (J : Json) (body : J.Value) (token : Text) (s : Store) where
  abbrev name : Text
  name = (get_string J body (codes "UserName")).1

  abbrev pass : Text
  pass = (get_string J body (codes "Password")).1

  abbrev Given : Type 0
  Given =
      (s.session_service_enabled ≡ true)
      × ((get_string J body (codes "UserName")).0 ≡ true)
      × ((get_string J body (codes "Password")).0 ≡ true)

  -- The service is on, the body has a name and a password, and a session of the member account `p`,
  -- whose name and password the body gives, was added under a
  -- fresh number.
  pub record LoggedIn (r : Reply) (t : Store) : Type 0 where
    pub given : Given
    pub p : ℕ
    pub a : Account
    pub member : In p s.accounts
    pub alive : account_at s p ≡ some a
    pub name_matches : a.user_name ≡ name
    pub password_matches : a.password ≡ pass
    pub num : ℕ
    pub sets : Numsets
    pub fresh : IsFresh s.numsets allocate_session_num num sets
    pub files : List Disk
    pub state :
        t ≡ record (add_session (new_session s num p a token) (record s { numsets = sets })) {
          disk = files;
        }
    pub reply : r ≡ session_reply token (new_session s num p a token)

  finish :
      IsValid s
      → HasRoom s.numsets allocate_session_num
      → Given
      → (p : ℕ) (a : Account) → In p s.accounts
      → account_at s p ≡ some a
      → a.user_name ≡ name
      → a.password ≡ pass
      → (n : ℕ) (sets : Numsets) → IsFresh s.numsets allocate_session_num n sets
      → let x = new_session s n p a token in
        LoggedIn (session_reply token x) (
          resource_save_json odata_session_id
            (resource_save_json x.odata_id (add_session x (record s { numsets = sets }))))
  finish v room g p a i e hn hp n sets fresh =
      let x = new_session s n p a token in
      let (d, same) =
        save_both-disk x.odata_id odata_session_id (add_session x (record s { numsets = sets })) in
      record {
        given = g;
        p = p;
        a = a;
        member = i;
        alive = e;
        name_matches = hn;
        password_matches = hp;
        num = n;
        sets = sets;
        fresh = fresh;
        files = d;
        state = same;
        reply = refl;
      }

  -- With a valid store and a free session number, `make_session` ends. It logs in exactly one
  -- session, when the service is on, for a member account whose name and password the body gives, or
  -- else refuses and leaves the store as it was.
  pub make_session_lem :
      IsValid s
      → HasRoom s.numsets allocate_session_num
      → Ends s LoggedIn (make_session J body token s)
  unfolding make_session has_user_name
  make_session_lem v room = Ends-get s LoggedIn _ s (
      Ends-refuse s LoggedIn _ _ _ _ λ on. Ends-refuse s LoggedIn _ _ _ _ λ named.
        Ends-found s LoggedIn (account_at s) (has_user_name name) s.accounts _ _ _
          (first_ptr-Finds (account_at s) (has_user_name name) s.accounts live)
          λ p a e hit i. Ends-deref s LoggedIn _ _ s a e (
            Ends-refuse s LoggedIn _ _ _ _ λ right.
              let (n, sets, got, fresh, _) =
                allocate_total s.numsets allocate_session_num room.0 room.1 in
              Ends-deref s LoggedIn _ _ s (n, sets) got
                (Ends-modify s LoggedIn _ _ _ (
                  Ends-modify s LoggedIn _ _ _ (
                    Ends-modify s LoggedIn _ _ _ (
                      Ends-done s LoggedIn _ _ (
                        finish v room (ground (arith, on, named)) p a i e ((text_eq_iff _ _).0 hit)
                          ((text_eq_iff _ _).0 (not-false right)) n sets fresh)))))))
    where
      live : All (IsLive (account_at s) (has_user_name name)) s.accounts
      live = All-map _ _ s.accounts (λ p h. (h.0, h.1)) v.accounts_live
