-- ===== src/Redfish/Guard/Login.antt =====
-- When a request passes the checks on its session.
use cmm_sdk.Common.{
  ℕ, ◌≡◌, ◌≢◌, refl, ◌∙◌, true, false, Option, none, some, arith, ◌⊎◌, inl, inr, Bool-cases,
}
use cmm_sdk.Common.Text.{Text, codes, text_eq_iff}
use cmm_sdk.Numset.{allocate_session_num}
use cmm_sdk.Redfish.Search.{first_ptr, In, All-In, Finds, first_ptr-Finds}
use cmm_sdk.Redfish.Store.{Account, Role, Session, Store, account_at, role_at, session_at, follow}
use cmm_sdk.Redfish.Monad.{
  M, ok, returned, Reply, ◌>>=◌, ◌>>◌, get, done, deref, refuse, Ends, Ends-ok, Ends-returned,
  error_reply, status_bad_request,
}
use cmm_sdk.Redfish.Valid.{IsValid, IsSessionAt, All-map}
use cmm_sdk.Redfish.Session.{
  has_token, check_session, is_session_valid, get_session_odata_id_by_token,
}
use cmm_sdk.Redfish.Guard.{is_missing, current_session, login_account, login_role}

-- The header's token belongs to the member session `x`, which has time left, and `a` and `r` are
-- its account and that account's role.
pub record LoginOf (s : Store) (header : Option Text) (x : Session) (a : Account) (r : Role)
    : Type 0 where
  pub token : Text
  pub sent : header ≡ some token
  pub at : ℕ
  pub member : In at s.sessions
  pub alive : session_at s at ≡ some x
  pub token_matches : x.x_token ≡ token
  pub time_left : x.remain_expires_time ≢ 0
  pub account_alive : follow (account_at s) x.account ≡ some a
  pub role_alive : follow (role_at s) a.role ≡ some r

abbrev Refused : Store → Option Text → Type 0
Refused s header = (q : Reply) × (current_session header s ≡ returned q s) × (q.success ≡ false)

record Passes (s : Store) (header : Option Text) : Type 0 where
  token : Text
  sent : header ≡ some token
  at : ℕ
  member : In at s.sessions
  x : Session
  alive : session_at s at ≡ some x
  token_matches : x.x_token ≡ token
  time_left : x.remain_expires_time ≢ 0
  result : current_session header s ≡ ok x s

module _ (s : Store) (v : IsValid s) where
  is_session_valid-some :
      (token : Text) (p : ℕ) (x : Session)
      → first_ptr (session_at s) (has_token token) s.sessions ≡ some (some p)
      → session_at s p ≡ some x
      → (is_session_valid s token ≡ some (check_session s x))
        × (get_session_odata_id_by_token s token ≡ some x.odata_id)
  unfolding is_session_valid get_session_odata_id_by_token
  is_session_valid-some token p x e h = (
    rw (e, is_session_valid) (rw (h, is_session_valid) refl),
    rw (e, get_session_odata_id_by_token) (rw (h, get_session_odata_id_by_token) refl),
  )

  is_session_valid-none :
      (token : Text)
      → first_ptr (session_at s) (has_token token) s.sessions ≡ some none
      → is_session_valid s token ≡ some false
  unfolding is_session_valid
  is_session_valid-none token e = rw (e, is_session_valid)

  time_left_of : (x : Session) → check_session s x ≡ true → x.remain_expires_time ≢ 0
  unfolding check_session
  time_left_of x h = ground arith

  refused : (token : Text) → is_session_valid s token ≡ some false → Refused s (some token)
  unfolding current_session ◌>>=◌ ◌>>◌ get deref refuse
  refused token e =
      (error_reply (codes "Session Unvalid") status_bad_request, rw (e, deref) refl, refl)

  passes :
      (token : Text) (p : ℕ) (x : Session)
      → is_session_valid s token ≡ some true
      → get_session_odata_id_by_token s token ≡ some x.odata_id
      → s.g_record x.odata_id ≡ some p
      → session_at s p ≡ some x
      → current_session (some token) s ≡ ok x s
  unfolding current_session ◌>>=◌ ◌>>◌ get deref refuse done
  passes token p x e u t h = rw (e, deref) (rw (u, deref) (rw (t, deref) (rw (h, deref) refl)))

  with_token :
      (token : Text)
      → Finds (session_at s) (has_token token) s.sessions
      → Refused s (some token) ⊎ Passes s (some token)
  unfolding has_token
  with_token token (none, e, m) = inl (refused token (is_session_valid-none token e))
  with_token token (some p, e, m) =
      let live : IsSessionAt (s.numsets.numset allocate_session_num) s p =
        All-In _ p s.sessions v.sessions_live m.3 in
      let same : live.x ≡ m.0 = ground (arith, live.alive, m.1) in
      let (valid, uri) = is_session_valid-some token p m.0 e m.1 in
      elim (Bool-cases (check_session s m.0)) [
        | inr bad ↦ inl (refused token (valid ∙ ground arith))
        | inl good ↦ inr (record {
          token = token;
          sent = refl;
          at = p;
          member = m.3;
          x = m.0;
          alive = m.1;
          token_matches = (text_eq_iff _ _).0 m.2;
          time_left = time_left_of m.0 good;
          result = passes token p m.0 (valid ∙ ground arith) uri (rw same at live.in_table) m.1;
        })
      ]

  Refused-none : Refused s none
  unfolding current_session is_missing ◌>>=◌ ◌>>◌ get refuse
  Refused-none = (error_reply (codes "Login Required") status_bad_request, refl, refl)

  current_session-cases : (header : Option Text) → Refused s header ⊎ Passes s header
  current_session-cases none = inl Refused-none
  current_session-cases (some token) = with_token token (
      first_ptr-Finds (session_at s) (has_token token) s.sessions
        (All-map _ _ s.sessions (λ p h. (h.x, h.alive)) v.sessions_live))

  -- The account of a live session and its role.
  owner_of :
      (at : ℕ) (x : Session)
      → In at s.sessions
      → session_at s at ≡ some x
      → (a : Account) × (r : Role) × (follow (account_at s) x.account ≡ some a)
        × (follow (role_at s) a.role ≡ some r)
  owner_of at x i h =
      let live : IsSessionAt (s.numsets.numset allocate_session_num) s at =
        All-In _ at s.sessions v.sessions_live i in
      let (a, ha, (q, hq, (r, hr))) = live.owner_alive in
      let same : live.x ≡ x = ground (arith, live.alive, h) in
      let owner : x.account ≡ some live.owner = rw same at live.owner_is in
      (a, r, rw owner ha, rw hq hr)

  account_step :
      (x : Session) (a : Account)
      → follow (account_at s) x.account ≡ some a
      → login_account x s ≡ ok a s
  unfolding ◌>>=◌ login_account get deref done
  account_step x a e = rw (e, deref) refl

  role_step :
      (a : Account) (r : Role) → follow (role_at s) a.role ≡ some r → login_role a s ≡ ok r s
  unfolding ◌>>=◌ login_role get deref done
  role_step a r e = rw (e, deref) refl

  -- The checks on the session at the head of a handler.
  pub Ends-login :
      {B : Type 0} (P : B → Store → Type 0) (header : Option Text)
      (k : Session → Account → Role → M B)
      → ((x : Session) (a : Account) (r : Role) → LoginOf s header x a r → Ends s P (k x a r s))
      → Ends s P ((do x ← current_session header; a ← login_account x; r ← login_role a; k x a r) s)
  unfolding login_account login_role
  Ends-login P header k h = elim (current_session-cases header) [
    | inl (q, e, bad) ↦ Ends-returned s P _ _ q e bad
    | inr w ↦
        let (a, r, ea, er) = owner_of w.at w.x w.member w.alive in
        Ends-ok s P _ _ w.x s s w.result (
          Ends-ok s P _ _ a s s (account_step w.x a ea) (
            Ends-ok s P _ _ r s s (role_step a r er) (
              h w.x a r (record {
                token = w.token;
                sent = w.sent;
                at = w.at;
                member = w.member;
                alive = w.alive;
                token_matches = w.token_matches;
                time_left = w.time_left;
                account_alive = ea;
                role_alive = er;
              }))))
  ]
