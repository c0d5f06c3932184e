-- ===== src/Redfish/Session/Timer/Bound.antt =====
-- No session has more time left than the timeout of the service.
use cmm_sdk.Common.{
  ==_iff, ℕ, ◌-◌, ◌≤◌, ◌≡◌, refl, sym, subst, ◌∙◌, Bool, Option, none, some, List, [], ◌∷◌, ◌++◌,
  arith, All, All-append, ltb, ◌==◌, Bool-cases, inl, inr,
}
use cmm_sdk.Common.Text.{Text}
use cmm_sdk.Numset.{allocate_session_num}
use cmm_sdk.Redfish.Json.{Json}
use cmm_sdk.Redfish.Store.{Session, session, Store, odata_session_id, put, session_at}
use cmm_sdk.Redfish.Monad.{ok, Reply, Ends}
use cmm_sdk.Redfish.Inverts.{
  ok-get, ok-modify, ok-modify_last, ok-done, ok-deref, ok-refuse, ok-json,
}
use cmm_sdk.Redfish.Valid.{IsValid, HasRoom, delete_save-disk}
use cmm_sdk.Redfish.Session.{new_session, add_session, make_session, set_remain, remove_session}
use cmm_sdk.Redfish.Session.Login.{LoggedIn, make_session_lem}
use cmm_sdk.Redfish.Role.{erase_member}
use cmm_sdk.Redfish.Session.Timer.{
  timer, drop_session, remove_found, expire, cap_session, cap_sessions, patch_session_timeout,
}

-- The session at the address, if there is one, has at most `limit` seconds left.
abbrev pub HasAtMost : ℕ → Store → ℕ → Type 0
HasAtMost limit s p = (x : Session) → session_at s p ≡ some x → x.remain_expires_time ≤ limit

abbrev pub Capped : Store → Type 0
Capped s = All (HasAtMost s.session_timeout s) s.sessions

All-weaken : (P Q : ℕ → Type 0) (xs : List ℕ) → ((p : ℕ) → P p → Q p) → All P xs → All Q xs
All-weaken P Q [] f h = tt
All-weaken P Q (x ∷ xs) f h = (f x h.0, All-weaken P Q xs f h.1)

All-erase : (P : ℕ → Type 0) (p : ℕ) (xs : List ℕ) → All P xs → All P (erase_member p xs)
unfolding erase_member
All-erase P p [] h = tt
All-erase P p (x ∷ xs) h = elim (Bool-cases (x == p)) [
  | inl e ↦ rw e h.1
  | inr e ↦ rw e (h.0, All-erase P p xs h.1)
]

-- Writing a session that has at most `limit` seconds left.
set_remain-HasAtMost :
    (limit n p q : ℕ) (x : Session) (s : Store)
    → n ≤ limit
    → HasAtMost limit s q
    → HasAtMost limit (set_remain p x n s) q
unfolding set_remain session_at put
set_remain-HasAtMost limit n p q x s h k y e = elim (Bool-cases (p == q)) [
  | inl same ↦ ground (arith, h, e, same)
  | inr other ↦ k y (ground (arith, e, other))
]

set_remain-Capped :
    (n p : ℕ) (x : Session) (s : Store)
    → n ≤ s.session_timeout
    → Capped s
    → Capped (set_remain p x n s)
unfolding set_remain
set_remain-Capped n p x s h c =
    All-weaken _ _ s.sessions (λ q. set_remain-HasAtMost s.session_timeout n p q x s h) c

LoggedIn-Capped :
    (J : Json) (body : J.Value) (token : Text) (s t : Store) (r : Reply)
    → LoggedIn J body token s r t
    → Capped s
    → Capped t
unfolding add_session new_session session_at put
LoggedIn-Capped J body token s t r l c =
    let x = new_session s l.num l.p l.a token in
    let heap : t.heap ≡ put s.heap s.next (some (session x)) = rw l.state in
    let timeout : t.session_timeout ≡ s.session_timeout = rw l.state in
    let members : t.sessions ≡ s.sessions ++ s.next ∷ [] = rw l.state in
    let old : (q : ℕ) → HasAtMost s.session_timeout s q → HasAtMost t.session_timeout t q =
      λ q h y e. elim (Bool-cases (s.next == q)) [
        | inl same ↦ ground (arith, e, heap, timeout, same)
        | inr other ↦ ground (arith, timeout, h y (ground (arith, e, heap, other)))
      ] in
    subst (All (HasAtMost t.session_timeout t)) (sym members) (
      All-append (HasAtMost t.session_timeout t) s.sessions (s.next ∷ [])
        (All-weaken _ _ s.sessions old c) ((λ y e. ground (arith, e, heap, timeout)), tt))

tick-HasAtMost :
    (limit p q : ℕ) (x : Session) (s : Store)
    → session_at s p ≡ some x
    → HasAtMost limit s q
    → HasAtMost limit (set_remain p x (x.remain_expires_time - 1) s) q
unfolding set_remain session_at put
tick-HasAtMost limit p q x s at k y e = elim (Bool-cases (p == q)) [
  | inl same ↦
      let bound : x.remain_expires_time ≤ limit = k x (ground (arith, at, same, ==_iff p q)) in
      ground (arith, e, same, bound)
  | inr other ↦ k y (ground (arith, e, other))
]

timer-Capped : (p : ℕ) (b : Bool) (s t : Store) → timer p s ≡ ok b t → Capped s → Capped t
unfolding timer set_remain
timer-Capped p b s t h c =
    let (x, e, h1) = ok-deref b t _ _ s (ok-get b t _ s h) in
    let (_, same) = ok-done b t _ _ (ok-modify b t _ _ s h1) in
    elim (Bool-cases (ltb 0 x.remain_expires_time)) [
      | inl more ↦
          rw (same, more)
            (All-weaken _ _ s.sessions (λ q. tick-HasAtMost s.session_timeout p q x s e) c)
      | inr none_left ↦ rw (same, none_left) c
    ]

remove_session-Capped :
    (token : Text) (r : Reply) (s t : Store) → remove_session token s ≡ ok r t → Capped s → Capped t
unfolding remove_session
remove_session-Capped token r s t h c =
    let (on, h1) = ok-refuse r t _ _ _ _ s (ok-get r t _ s h) in
    let (ok_token, e1, h2) = ok-deref r t _ _ s h1 in
    let (valid, h3) = ok-refuse r t _ _ _ _ s h2 in
    let (uri, e2, h4) = ok-deref r t _ _ s h3 in
    let (p, e3, h5) = ok-deref r t _ _ s h4 in
    let (x, e4, h6) = ok-deref r t _ _ s h5 in
    let (_, same) = ok-done r t _ _ (ok-modify r t _ _ s h6) in
    rw same (set_remain-Capped 0 p x s (omega arith) c)

cap_session-HasAtMost :
    (limit p : ℕ) (x : Session) (s : Store)
    → session_at s p ≡ some x
    → ((cap_session limit p x s).session_timeout ≡ s.session_timeout)
      × ((cap_session limit p x s).sessions ≡ s.sessions)
      × HasAtMost limit (cap_session limit p x s) p
      × ((q : ℕ) → HasAtMost limit s q → HasAtMost limit (cap_session limit p x s) q)
unfolding cap_session set_remain session_at put
cap_session-HasAtMost limit p x s e = elim (Bool-cases (ltb limit x.remain_expires_time)) [
  | inl more ↦ rw more (
    refl,
    refl,
    (λ y h. ground (arith, h)),
    λ q. set_remain-HasAtMost limit limit p q x s (omega arith),
  )
  | inr fits ↦ rw fits (refl, refl, (λ y h. ground (arith, e, h, fits)), λ q h. h)
]

cap_sessions-Capped :
    (limit : ℕ) (ps : List ℕ) (s t : Store)
    → cap_sessions limit ps s ≡ ok tt t
    → (t.session_timeout ≡ s.session_timeout)
      × (t.sessions ≡ s.sessions)
      × All (HasAtMost limit t) ps
      × ((q : ℕ) → HasAtMost limit s q → HasAtMost limit t q)
unfolding cap_sessions
cap_sessions-Capped limit [] s t h =
    let (_, same) = ok-done tt t _ _ h in rw same (refl, refl, tt, λ q k. k)
cap_sessions-Capped limit (p ∷ ps) s t h =
    let (x, e, h1) = ok-deref tt t _ _ s (ok-get tt t _ s h) in
    let u = cap_session limit p x s in
    let (time, members, here, kept) = cap_session-HasAtMost limit p x s e in
    let (time2, members2, there, kept2) =
      cap_sessions-Capped limit ps u t (ok-modify tt t _ _ s h1) in
    (time2 ∙ time, members2 ∙ members, (kept2 p here, there), λ q k. kept2 q (kept q k))

patch_session_timeout-Capped :
    (limit : ℕ) (s t : Store) → patch_session_timeout limit s ≡ ok tt t → Capped t
unfolding patch_session_timeout
patch_session_timeout-Capped limit s t h =
    let u = record s { session_timeout = limit } in
    let (time, members, all, _) =
      cap_sessions-Capped limit s.sessions u t (ok-get tt t _ u (ok-modify tt t _ _ s h)) in
    subst (λ n. All (HasAtMost n t) t.sessions) (sym time)
      (subst (All (HasAtMost limit t)) (sym members) all)

remove_found-Capped :
    (found : Option ℕ) (x : Session) (s t : Store)
    → remove_found found x s ≡ ok tt t
    → Capped s
    → Capped t
unfolding remove_found drop_session session_at put
remove_found-Capped none x s t h c = let (_, same) = ok-done tt t _ _ h in rw same c
remove_found-Capped (some q) x s t h c =
    let (n, _, h1) = ok-json tt t _ _ s (ok-get tt t _ s h) in
    let (y, _, h2) = ok-deref tt t _ _ s h1 in
    let u = drop_session q y.odata_id n s in
    let (d, e) = delete_save-disk x.odata_id odata_session_id u in
    let same = ok-modify_last tt t _ _ (ok-modify tt t _ _ _ (ok-modify tt t _ _ s h2)) in
    rw (same, e)
      (All-erase _ q s.sessions
        (All-weaken _ _ s.sessions (λ k old z hz. old z (ground (arith, hz))) c))

expire-Capped : (p : ℕ) (s t : Store) → expire p s ≡ ok tt t → Capped s → Capped t
unfolding expire
expire-Capped p s t h c =
    let (x, _, h1) = ok-deref tt t _ _ s (ok-get tt t _ s h) in
    let (found, _, h2) = ok-deref tt t _ _ s h1 in remove_found-Capped found x s t h2 c

-- One event that touches sessions, of those that end.
pub data Step (s t : Store) : Type 1 where
  logs_in :
      (J : Json) (body : J.Value) (token : Text) (r : Reply)
      → IsValid s
      → HasRoom s.numsets allocate_session_num
      → make_session J body token s ≡ ok r t
      → Step s t
  ticks : (p : ℕ) (b : Bool) → timer p s ≡ ok b t → Step s t
  expires : (p : ℕ) → expire p s ≡ ok tt t → Step s t
  logs_out : (token : Text) (r : Reply) → remove_session token s ≡ ok r t → Step s t
  patches : (limit : ℕ) → patch_session_timeout limit s ≡ ok tt t → Step s t

pub data Reach (s : Store) : Store → Type 1 where
  here : Reach s s
  next : {t u : Store} → Reach s t → Step t u → Reach s u

Step-Capped : {s t : Store} → Step s t → Capped s → Capped t
Step-Capped {s} {t} (logs_in J body token r v room h) c =
    LoggedIn-Capped J body token s t r
      (subst (Ends s (LoggedIn J body token s)) h (make_session_lem J body token s v room)) c
Step-Capped {s} {t} (ticks p b h) c = timer-Capped p b s t h c
Step-Capped {s} {t} (expires p h) c = expire-Capped p s t h c
Step-Capped {s} {t} (logs_out token r h) c = remove_session-Capped token r s t h c
Step-Capped {s} {t} (patches limit h) c = patch_session_timeout-Capped limit s t h

-- If no member session has more time left than the timeout of the service, then none has after any
-- sequence of ticks of timers, ends of sessions, logouts, changes of the timeout, and logins with a
-- valid store and a free session number, each of which ends.
pub Reach-Capped : (s : Store) {t : Store} → Capped s → Reach s t → Capped t
Reach-Capped s c here = c
Reach-Capped s c (next r st) = Step-Capped st (Reach-Capped s c r)
