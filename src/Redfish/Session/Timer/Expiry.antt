-- ===== src/Redfish/Session/Timer/Expiry.antt =====
-- How sessions end: by a logout, and by their timer.
use cmm_sdk.Common.{
  ℕ, zero, suc, ◌-◌, ◌≡◌, refl, ap, subst, ◌∙◌, Bool, true, false, not, Option, none, some, arith,
  ◌==◌, ==_iff, ltb, inl, inr, Bool-cases, Option-cases,
}
use cmm_sdk.Common.Text.{Text, text_eq_refl}
use cmm_sdk.Numset.{allocate_session_num, delete_numset_num, update}
use cmm_sdk.Numset.Sets.{mem, mem-erase_self}
use cmm_sdk.Redfish.Search.{first_ptr, Agree, first_ptr-Agree, Finds, first_ptr-Finds, All-In}
use cmm_sdk.Redfish.Store.{
  Session, Store, odata_session_id, put, bind_uri, session_at, resource_save_json, delete_resource,
}
use cmm_sdk.Redfish.Monad.{
  ok, ◌>>=◌, ◌>>◌, get, done, deref, json, modify, Ends, Ends-get, Ends-deref, Ends-refuse,
  Ends-modify, Ends-done,
}
use cmm_sdk.Redfish.Valid.{IsValid, IsSessionAt, All-map, delete_save-disk}
use cmm_sdk.Redfish.Session.{
  has_token, check_session, is_session_valid, get_session_odata_id_by_token, set_remain,
  remove_session,
}
use cmm_sdk.Redfish.Account.Remove.{stoi_prefix}
use cmm_sdk.Redfish.Session.Timer.{
  timer, has_session_id, drop_session, remove_found, expire, session_task,
}

-- Writing the time left changes nothing else of any session.
set_remain-Agree :
    (s : Store) (p n : ℕ) (x : Session) (test : Session → Bool)
    → session_at s p ≡ some x
    → test x ≡ test (record x { remain_expires_time = n })
    → (q : ℕ) → Agree (session_at s) (session_at (set_remain p x n s)) test q
unfolding set_remain session_at put
set_remain-Agree s p n x test live same q = elim (Bool-cases (p == q)) [
  | inl here ↦
      let e : p ≡ q = (==_iff p q).0 here in
      inl (
        x,
        record x { remain_expires_time = n },
        subst (λ k. session_at s k ≡ some x) e live,
        ground (arith, here),
        same,
      )
  | inr there ↦ elim (Option-cases (session_at s q)) [
    | inl e ↦ inr (e, ground (arith, there, e))
    | inr (y, e) ↦ inl (y, y, e, ground (arith, there, e), refl)
  ]
]

set_remain-at :
    (s : Store) (p n : ℕ) (x : Session)
    → session_at (set_remain p x n s) p ≡ some (record x { remain_expires_time = n })
unfolding set_remain session_at put
set_remain-at s p n x = ground arith

no_time : (s : Store) (x : Session) → check_session s (record x { remain_expires_time = 0 }) ≡ false
unfolding check_session
no_time s x = ground arith

valid_session :
    (s : Store) (token : Text)
    → IsValid s
    → is_session_valid s token ≡ some true
    → (p : ℕ) × (x : Session) × (first_ptr (session_at s) (has_token token) s.sessions
        ≡ some (some p))
      × (session_at s p ≡ some x)
      × (s.g_record x.odata_id ≡ some p)
      × (get_session_odata_id_by_token s token ≡ some x.odata_id)
unfolding is_session_valid get_session_odata_id_by_token
valid_session s token v h = go (
    first_ptr-Finds (session_at s) (has_token token) s.sessions
      (All-map _ _ s.sessions (λ p k. (k.x, k.alive)) v.sessions_live))
  where
    go :
        Finds (session_at s) (has_token token) s.sessions
        → (p : ℕ) × (x : Session) × (first_ptr (session_at s) (has_token token) s.sessions
            ≡ some (some p))
          × (session_at s p ≡ some x)
          × (s.g_record x.odata_id ≡ some p)
          × (get_session_odata_id_by_token s token ≡ some x.odata_id)
    go (none, e, m) = cc (rw (e, is_session_valid) at h)
    go (some p, e, m) =
        let live : IsSessionAt (s.numsets.numset allocate_session_num) s p =
          All-In _ p s.sessions v.sessions_live m.3 in
        (
          p,
          live.x,
          e,
          live.alive,
          live.in_table,
          rw (e, get_session_odata_id_by_token)
              (rw (live.alive, get_session_odata_id_by_token) refl),
        )

-- A search that does not look at the time left.
first_ptr-set_remain :
    (s : Store) (p n : ℕ) (x : Session) (test : Session → Bool) (o : Option (Option ℕ))
    → session_at s p ≡ some x
    → test x ≡ test (record x { remain_expires_time = n })
    → first_ptr (session_at s) test s.sessions ≡ o
    → first_ptr (session_at (set_remain p x n s)) test (set_remain p x n s).sessions ≡ o
unfolding set_remain
first_ptr-set_remain s p n x test o at same h =
    first_ptr-Agree (session_at s) (session_at (set_remain p x n s)) test s.sessions
      (set_remain-Agree s p n x test at same)
    ∙ h

rejected :
    (s : Store) (token : Text) (p : ℕ) (x : Session)
    → first_ptr (session_at s) (has_token token) s.sessions ≡ some (some p)
    → session_at s p ≡ some x
    → is_session_valid (set_remain p x 0 s) token ≡ some false
unfolding is_session_valid has_token
rejected s token p x found at =
    let t = set_remain p x 0 s in
    let still : first_ptr (session_at t) (has_token token) t.sessions ≡ some (some p) =
      first_ptr-set_remain s p 0 x (has_token token) _ at refl found in
    rw (still, is_session_valid)
      (rw (set_remain-at s p 0 x, is_session_valid) (ap some (no_time t x)))

is_session_valid-total :
    (s : Store) (token : Text) → IsValid s → (b : Bool) × (is_session_valid s token ≡ some b)
unfolding is_session_valid
is_session_valid-total s token v = go (
    first_ptr-Finds (session_at s) (has_token token) s.sessions
      (All-map _ _ s.sessions (λ p k. (k.x, k.alive)) v.sessions_live))
  where
    go :
        Finds (session_at s) (has_token token) s.sessions
        → (b : Bool) × (is_session_valid s token ≡ some b)
    go (none, e, m) = (false, rw (e, is_session_valid) refl)
    go (some p, e, m) =
        (check_session s m.0, rw (e, is_session_valid) (rw (m.1, is_session_valid) refl))

not-false : (b : Bool) → not b ≡ false → b ≡ true
not-false b h = ground arith

-- With a valid store `remove_session` ends, and after a logout its token no longer passes
-- `is_session_valid`.
pub remove_session_lem :
    (s : Store) (token : Text)
    → IsValid s
    → Ends s (λ r t. is_session_valid t token ≡ some false) (remove_session token s)
unfolding remove_session
remove_session_lem s token v =
    let (b, checked) = is_session_valid-total s token v in
    Ends-get s (λ r t. is_session_valid t token ≡ some false) _ s
      (Ends-refuse s _ _ _ _ _ λ on. Ends-deref s _ _ _ s b checked (
        Ends-refuse s _ _ _ _ _ λ valid.
          let (p, x, found, at, entry, uri) =
            valid_session s token v (checked ∙ ap some (not-false b valid)) in
          Ends-deref s _ _ _ s x.odata_id uri (
            Ends-deref s _ _ _ s p entry (
              Ends-deref s _ _ _ s x at
                (Ends-modify s _ _ _ _ (Ends-done s _ _ _ (rejected s token p x found at)))))))

-- The session at `p` waits with `n` seconds left, and is the first member with its id.
record Waits (p n : ℕ) (x : Session) (s : Store) : Type 0 where
  at : session_at s p ≡ some (record x { remain_expires_time = n })
  first : first_ptr (session_at s) (has_session_id x.id) s.sessions ≡ some (some p)

-- The session, its table entry and its number are gone.
pub record Ended (p : ℕ) (x : Session) (num : ℕ) (t : Store) : Type 0 where
  pub gone : session_at t p ≡ none
  pub entry_gone : t.g_record x.odata_id ≡ none
  pub number_free : mem num (t.numsets.numset allocate_session_num) ≡ false

suc_minus : (n : ℕ) → suc n - 1 ≡ n
suc_minus n = omega arith

pos_suc : (n : ℕ) → ltb 0 (suc n) ≡ true
pos_suc n = ground arith

tick-Waits :
    (p n : ℕ) (x : Session) (s : Store)
    → Waits p (suc n) x s
    → (t : Store) × (timer p s ≡ ok true t) × Waits p n x t
unfolding timer ◌>>=◌ ◌>>◌ get deref modify done has_session_id
tick-Waits p n x s w =
    let y = record x { remain_expires_time = suc n } in
    let t = set_remain p y n s in
    (
      t,
      rw (w.at, deref, suc_minus n, pos_suc n) refl,
      record {
        at = set_remain-at s p n y;
        first = first_ptr-set_remain s p n y (has_session_id x.id) _ w.at refl w.first;
      },
    )

-- The last call finds no time left.
tick_last : (p : ℕ) (x : Session) (s : Store) → Waits p 0 x s → timer p s ≡ ok false s
unfolding timer ◌>>=◌ ◌>>◌ get deref modify done
tick_last p x s w = rw (w.at, deref) refl

dropped-Ended :
    (p num : ℕ) (x : Session) (s : Store)
    → Ended p x num (
        resource_save_json odata_session_id
          (delete_resource x.odata_id (drop_session p x.odata_id num s)))
unfolding drop_session session_at put bind_uri delete_numset_num update
dropped-Ended p num x s =
    let (d, e) = delete_save-disk x.odata_id odata_session_id (drop_session p x.odata_id num s) in
    record {
      gone = rw e (ground arith);
      entry_gone = rw e (rw (text_eq_refl x.odata_id) refl);
      number_free =
          rw e (ground (arith, mem-erase_self num (s.numsets.numset allocate_session_num)));
    }

expire-Ended :
    (p num : ℕ) (x : Session) (s : Store)
    → Waits p 0 x s
    → stoi_prefix x.id ≡ some num
    → (t : Store) × (expire p s ≡ ok tt t) × Ended p x num t
unfolding expire remove_found ◌>>=◌ ◌>>◌ get deref json modify done
expire-Ended p num x s w is_num =
    let u = drop_session p x.odata_id num s in
    (
      resource_save_json odata_session_id (delete_resource x.odata_id u),
      rw (w.at, deref) (rw (w.first, deref) (rw (is_num, json) (rw (w.at, deref) refl))),
      dropped-Ended p num x s,
    )

-- `n` ticks of the timer, after each of which it waits on.
pub Ticks : ℕ → ℕ → Store → Store → Type 0
Ticks p zero s t = t ≡ s
Ticks p (suc n) s t = (u : Store) × (timer p s ≡ ok true u) × Ticks p n u t

-- All ticks, the last of which finds no time left, and the end of the session.
pub record Course (n p num : ℕ) (x : Session) (s : Store) : Type 0 where
  pub waited : Store
  pub ticks : Ticks p n s waited
  pub last : timer p waited ≡ ok false waited
  pub end : Store
  pub expires : expire p waited ≡ ok tt end
  pub whole : session_task (suc n) p s ≡ ok tt end
  pub ended : Ended p x num end

session_task_from :
    (n p num : ℕ) (x : Session) (s : Store)
    → Waits p n x s
    → stoi_prefix x.id ≡ some num
    → Course n p num x s
unfolding session_task ◌>>=◌ Ticks
session_task_from zero p num x s w is_num =
    let (t, done_task, ended) = expire-Ended p num x s w is_num in
    record {
      waited = s;
      ticks = refl;
      last = tick_last p x s w;
      end = t;
      expires = done_task;
      whole = rw (tick_last p x s w) done_task;
      ended = ended;
    }
session_task_from (suc n) p num x s w is_num =
    let (u, ticked, w2) = tick-Waits p n x s w in
    let c = session_task_from n p num x u w2 is_num in
    record {
      waited = c.waited;
      ticks = (u, ticked, c.ticks);
      last = c.last;
      end = c.end;
      expires = c.expires;
      whole = rw ticked c.whole;
      ended = c.ended;
    }

-- The task of a session whose id is a number, and which is the first member with its id, ends after
-- exactly one tick of its timer for each second left, each of which waits on, and one more, which
-- does not; then the session and its table entry are gone, and its number is free.
pub session_task_ends :
    (s : Store) (p num : ℕ) (x : Session)
    → session_at s p ≡ some x
    → first_ptr (session_at s) (has_session_id x.id) s.sessions ≡ some (some p)
    → stoi_prefix x.id ≡ some num
    → Course x.remain_expires_time p num x s
session_task_ends s p num x live first is_num =
    session_task_from x.remain_expires_time p num x s (record { at = live; first = first }) is_num
