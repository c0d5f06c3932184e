-- ===== src/Redfish/Account/Remove/Dangling.antt =====
-- What `remove_account` frees, and what it leaves behind.
use cmm_sdk.Common.{some_inj, List, ℕ, ◌≡◌, ◌≢◌, refl, sym, ◌∙◌, Bool, false, none, some, arith}
use cmm_sdk.Common.Text.{Text, codes, text_eq_ne, text_eq_refl}
use cmm_sdk.Numset.{Numsets, allocate_account_num, delete_numset_num, update}
use cmm_sdk.Numset.Sets.{mem, mem-erase_self, mem-erase_ne}
use cmm_sdk.Util.Names.{get_current_object_name}
use cmm_sdk.Redfish.Search.{first_ptr}
use cmm_sdk.Redfish.Store.{
  Account, Session, Disk, Store, odata_account_id, put, bind_uri, account_at, session_at,
  resource_save_json, delete_resource,
}
use cmm_sdk.Redfish.Monad.{
  Reply, Ends, Ends-get, Ends-modify, Ends-done, Ends-refuse, Ends-deref, Ends-json, success_reply,
  resource, status_ok,
}
use cmm_sdk.Redfish.Valid.{delete_save-disk}
use cmm_sdk.Redfish.Role.{enabled_at, erase_member}
use cmm_sdk.Redfish.Account.Remove.{
  has_id, stoi_prefix, drop_account, free_account_num, remove_account,
}

module _ (s : Store) (uri : Text) (p : ℕ) (a : Account) (n : ℕ) where
  -- The account, its table entry and its number are gone; all else stays, sessions of the account too.
  pub record Removed (q : Reply) (t : Store) : Type 0 where
    pub account_gone : account_at t p ≡ none
    pub entry_gone : t.g_record uri ≡ none
    pub number_free : mem n (t.numsets.numset allocate_account_num) ≡ false
    pub members : t.accounts ≡ erase_member p s.accounts
    pub others_kept :
        (k : ℕ) (b : Account) → k ≢ p → account_at s k ≡ some b → account_at t k ≡ some b
    pub table_kept : (u : Text) → u ≢ uri → t.g_record u ≡ s.g_record u
    pub sessions_kept : (k : ℕ) (x : Session) → session_at s k ≡ some x → session_at t k ≡ some x
    pub sets : Numsets
    pub files : List Disk
    pub rest : t ≡ record s {
      heap = t.heap;
      g_record = t.g_record;
      accounts = t.accounts;
      numsets = sets;
      disk = files;
    }
    pub heap_kept : (k : ℕ) → k ≢ p → t.heap k ≡ s.heap k
    pub numbers_kept :
        (m : ℕ)
        → n ≢ m
        → mem m (sets.numset allocate_account_num) ≡ mem m (s.numsets.numset allocate_account_num)
    pub sets_kept : (j : ℕ) → j ≢ allocate_account_num → sets.numset j ≡ s.numsets.numset j
    pub cursors_kept : sets.numset_num ≡ s.numsets.numset_num
    pub reply : q ≡ success_reply (resource odata_account_id) status_ok

  abbrev removed : Store
  removed = drop_account p a.odata_id (free_account_num n s)

  abbrev result : Store
  result = resource_save_json odata_account_id (delete_resource uri removed)

  result-Removed :
      account_at s p ≡ some a
      → a.odata_id ≡ uri
      → Removed (success_reply (resource odata_account_id) status_ok) result
  unfolding drop_account free_account_num account_at session_at put bind_uri delete_numset_num
      update
  result-Removed alive own =
      let (d, e) = delete_save-disk uri odata_account_id removed in
      record {
        account_gone = rw e (ground arith);
        entry_gone = rw e (rw (own, text_eq_refl uri) refl);
        number_free =
            rw e (ground (arith, mem-erase_self n (s.numsets.numset allocate_account_num)));
        members = rw e refl;
        others_kept = λ k b ne h. rw e (ground (arith, h));
        table_kept = λ u ne. rw e (rw (own, text_eq_ne uri u (λ same. ne (sym same))) refl);
        sessions_kept = λ k x h. rw e (ground (arith, alive, h));
        sets = removed.numsets;
        files = d;
        rest = e ∙ rw e refl;
        heap_kept = λ k ne. rw e (ground (arith, ne));
        numbers_kept =
            λ m ne. ground (arith, mem-erase_ne n m (s.numsets.numset allocate_account_num) ne);
        sets_kept = λ j ne. ground (arith, ne);
        cursors_kept = refl;
        reply = refl;
      }

  -- For the URI of a live account that is the first member with its id, and with an id that is a
  -- number, `remove_account` ends. A success frees the account, its table entry, its place among the
  -- members and its number, and changes nothing else of the store but the log of files: a session of
  -- the account stays with a pointer to an account that is gone.
  pub remove_account_dangles :
      (service_uri : Text) (on : Bool)
      → enabled_at s service_uri ≡ some on
      → get_current_object_name uri (codes "/") ≡ some a.id
      → first_ptr (account_at s) (has_id a.id) s.accounts ≡ some (some p)
      → s.g_record uri ≡ some p
      → account_at s p ≡ some a
      → a.odata_id ≡ uri
      → stoi_prefix a.id ≡ some n
      → Ends s Removed (remove_account uri service_uri s)
  unfolding remove_account
  remove_account_dangles service_uri on enabled named found entry alive own num =
      Ends-get s Removed _ s (
        Ends-deref s Removed _ _ s on enabled (
          Ends-refuse s Removed _ _ _ _ λ is_on. Ends-json s Removed _ _ λ account_id is_id.
            let same : account_id ≡ a.id = some_inj (sym is_id ∙ named) in
            Ends-deref s Removed _ _ s (some p) (rw same found) (
              Ends-refuse s Removed _ _ _ _ λ exists. Ends-deref s Removed _ _ s p entry (
                Ends-deref s Removed _ _ s a alive (
                  Ends-json s Removed _ _ λ id_num is_num.
                    let same_num : id_num ≡ n = some_inj (sym is_num ∙ num) in
                    rw same_num (
                      Ends-modify s Removed _ _ _ (
                        Ends-deref s Removed _ _ _ p refl (
                          Ends-deref s Removed _ _ _ a alive (
                            Ends-modify s Removed _ _ _ (
                              Ends-modify s Removed _ _ _ (
                                Ends-modify s Removed _ _ _
                                  (Ends-done s Removed _ _ (result-Removed alive own)))))))))))))
