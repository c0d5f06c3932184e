-- ===== src/Redfish/Role/Orphans.antt =====
-- `remove_role` and the accounts that have the role. The loop at its end compares an account's
-- `role_id` with the id of the role; the constructor of `Account` and `modify_account` set `role_id`
-- to the role's URI.
use cmm_sdk.Common.{
  ℕ, suc, ◌≡◌, ◌≢◌, refl, sym, false, Option, none, some, List, [], ◌∷◌, arith, All, subst, ◌∙◌,
  Option-cases, inl, inr,
}
use cmm_sdk.Common.Text.{text_eq_ne, Text, codes, text_eq_iff}
use cmm_sdk.Redfish.Search.{first_ptr}
use cmm_sdk.Redfish.Store.{
  Account, Role, Store, odata_role_id, role_at, account_at, resource_save_json, delete_resource,
  put, bind_uri, subscript,
}
use cmm_sdk.Redfish.Monad.{
  ok, ◌>>=◌, ◌>>◌, get, done, deref, modify, Reply, Ends, Ends-get, Ends-modify, Ends-done,
  Ends-refuse, Ends-deref, Ends-then, success_reply, resource, status_ok,
}
use cmm_sdk.Redfish.Guard.Login.{Ends-login}
use cmm_sdk.Redfish.Valid.{IsValid, delete_save-disk}
use cmm_sdk.Redfish.Role.{
  has_role_id, role_uri, drop_role, remove_member, reassign_one, reassign, remove_role,
}
use cmm_sdk.Redfish.Role.Create.{IsAdmin, not-false}

-- Every account of the list is alive, and its `role_id` is not the text `id`.
abbrev pub NoneHas : Store → Text → List ℕ → Type 0
NoneHas s id = All (λ p. (a : Account) × (account_at s p ≡ some a) × (a.role_id ≢ id))

reassign-none :
    (id : Text) (ro : Option ℕ) (ps : List ℕ) (t : Store)
    → NoneHas t id ps
    → reassign id ro ps t ≡ ok tt t
unfolding reassign reassign_one ◌>>=◌ ◌>>◌ get done deref
reassign-none id ro [] t h = refl
reassign-none id ro (p ∷ ps) t h =
    rw (h.0.1, deref) (rw (text_eq_ne _ _ h.0.2, reassign_one) (reassign-none id ro ps t h.1))

subscript-same :
    (uri : Text) (s : Store)
    → (g : Text → Option ℕ) × (n : ℕ) × (subscript uri s ≡ record s { g_record = g; next = n })
unfolding subscript
subscript-same uri s = elim (Option-cases (s.g_record uri)) [
  | inl e ↦ (bind_uri s.g_record uri (some s.next), suc s.next, rw (e, subscript) refl)
  | inr (p, e) ↦ (s.g_record, s.next, rw (e, subscript) refl)
]

-- Writing a null pointer into the table changes no object and no member.
record Same (s t : Store) : Type 0 where
  roles : (k : ℕ) → role_at t k ≡ role_at s k
  accounts : (k : ℕ) → account_at t k ≡ account_at s k
  members : t.accounts ≡ s.accounts

subscript-Same : (uri : Text) (s : Store) → Same s (subscript uri s)
unfolding role_at account_at
subscript-Same uri s =
    let (g, n, e) = subscript-same uri s in
    record { roles = λ k. rw e refl; accounts = λ k. rw e refl; members = rw e refl }

Same-NoneHas :
    (s t : Store) (id : Text) (ps : List ℕ) → Same s t → NoneHas s id ps → NoneHas t id ps
Same-NoneHas s t id [] same h = tt
Same-NoneHas s t id (p ∷ ps) same h =
    ((h.0.0, same.accounts p ∙ h.0.1, h.0.2), Same-NoneHas s t id ps same h.1)

module _ (s : Store) (p : ℕ) (target : Role) (alive : role_at s p ≡ some target) where
  dropped : Text → Store
  dropped uri =
      resource_save_json odata_role_id (delete_resource uri (drop_role p target.odata_id s))

  remove_member-ok : (uri : Text) → remove_member (some p) uri s ≡ ok tt (dropped uri)
  unfolding remove_member dropped ◌>>=◌ ◌>>◌ get deref modify
  remove_member-ok uri = rw (alive, deref) refl

  dropped-role : (uri : Text) → role_at (dropped uri) p ≡ none
  unfolding dropped drop_role role_at put
  dropped-role uri =
      let (d, e) = delete_save-disk uri odata_role_id (drop_role p target.odata_id s) in
      rw e (ground arith)

  dropped-account :
      (uri : Text) (q : ℕ) (a : Account)
      → account_at s q ≡ some a
      → account_at (dropped uri) q ≡ some a
  unfolding dropped drop_role role_at account_at put
  dropped-account uri q a h =
      let (d, e) = delete_save-disk uri odata_role_id (drop_role p target.odata_id s) in
      rw e (ground (arith, alive))

  dropped-accounts : (uri : Text) → (dropped uri).accounts ≡ s.accounts
  unfolding dropped drop_role
  dropped-accounts uri =
      let (d, e) = delete_save-disk uri odata_role_id (drop_role p target.odata_id s) in rw e

  dropped-NoneHas : (uri id : Text) (ps : List ℕ) → NoneHas s id ps → NoneHas (dropped uri) id ps
  dropped-NoneHas uri id [] h = tt
  dropped-NoneHas uri id (q ∷ ps) h =
      ((h.0.0, dropped-account uri q h.0.0 h.0.1, h.0.2), dropped-NoneHas uri id ps h.1)

  -- The role is gone, and every account is as it was.
  pub record Orphaned (header : Option Text) (q : Reply) (t : Store) : Type 0 where
    pub by_admin : IsAdmin s header
    pub not_predefined : target.is_predefined ≡ false
    pub role_gone : role_at t p ≡ none
    pub accounts_kept : (k : ℕ) (a : Account) → account_at s k ≡ some a → account_at t k ≡ some a
    pub members_kept : t.accounts ≡ s.accounts
    pub reply : q ≡ success_reply (resource odata_role_id) status_ok

  -- For the URI of a role that is the first with its id, while no member account has the role's
  -- short id for its `role_id`, `remove_role` on a valid store ends, and a success frees the role and changes no account: an account that had the role
  -- then points to a role that is gone.
  pub remove_role_orphans :
      (header : Option Text) (uri : Text)
      → IsValid s
      → s.g_record uri ≡ some p
      → first_ptr (role_at s) (has_role_id target.id) s.roles ≡ some (some p)
      → NoneHas s target.id s.accounts
      → Ends s (Orphaned header) (remove_role header uri s)
  unfolding remove_role
  remove_role_orphans header uri v entry found others = Ends-get s (Orphaned header) _ s (
      Ends-refuse s (Orphaned header) _ _ _ _ λ on.
        Ends-login s v (Orphaned header) header _ λ x a r login.
          Ends-refuse s (Orphaned header) _ _ _ _ λ admin.
            Ends-refuse s (Orphaned header) _ _ _ _ λ exists.
              Ends-deref s (Orphaned header) _ _ s p entry (
                Ends-deref s (Orphaned header) _ _ s target alive (
                  Ends-refuse s (Orphaned header) _ _ _ _ λ custom.
                    Ends-deref s (Orphaned header) _ _ s (some p) found (
                      Ends-then s (Orphaned header) _ _ s (dropped uri) (remove_member-ok uri) (
                        Ends-modify s (Orphaned header) _ _ (dropped uri) (
                          Ends-get s (Orphaned header) _ (freed uri) (
                            Ends-then s (Orphaned header) _ _ (freed uri) (freed uri)
                              (no_reassign uri)
                              (Ends-done s (Orphaned header) _ _ (record {
                                by_admin = record {
                                  x = x;
                                  a = a;
                                  r = r;
                                  login = login;
                                  admin = (text_eq_iff _ _).0 (not-false _ admin);
                                };
                                not_predefined = custom;
                                role_gone = (same uri).roles p ∙ dropped-role uri;
                                accounts_kept =
                                    λ k b h. (same uri).accounts k ∙ dropped-account uri k b h;
                                members_kept = (same uri).members ∙ dropped-accounts uri;
                                reply = refl;
                              })))))))))
    where
      freed : Text → Store
      freed u = subscript (role_uri (codes "ReadOnly")) (dropped u)

      same : (u : Text) → Same (dropped u) (freed u)
      same u = subscript-Same (role_uri (codes "ReadOnly")) (dropped u)

      no_reassign :
          (u : Text)
          → reassign target.id
              ((freed u).g_record (role_uri (codes "ReadOnly")))
              (freed u).accounts
              (freed u)
            ≡ ok tt (freed u)
      no_reassign u = reassign-none target.id _ (freed u).accounts (freed u) (
          subst (NoneHas (freed u) target.id) (sym ((same u).members ∙ dropped-accounts u)) (
            Same-NoneHas (dropped u) (freed u) target.id s.accounts (same u)
              (dropped-NoneHas u target.id s.accounts others)))
