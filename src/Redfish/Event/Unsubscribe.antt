-- ===== src/Redfish/Event/Unsubscribe.antt =====
-- What `remove_subscription` does.
use cmm_sdk.Common.{some_inj, ℕ, ◌≡◌, ◌≢◌, refl, sym, ◌∙◌, false, none, some, arith}
use cmm_sdk.Common.Text.{Text, codes, text_eq_ne, text_eq_refl}
use cmm_sdk.Numset.{allocate_subscription_num, delete_numset_num, update}
use cmm_sdk.Numset.Sets.{mem, mem-erase_self}
use cmm_sdk.Util.Names.{get_current_object_name}
use cmm_sdk.Redfish.Search.{first_ptr}
use cmm_sdk.Redfish.Store.{
  EventDestination, Store, odata_event_destination_id, put, bind_uri, destination_at,
  resource_save_json, delete_resource,
}
use cmm_sdk.Redfish.Monad.{
  Reply, Ends, Ends-get, Ends-modify, Ends-done, Ends-refuse, Ends-deref, Ends-json, success_reply,
  null, status_ok,
}
use cmm_sdk.Redfish.Valid.{delete_save-disk}
use cmm_sdk.Redfish.Role.{erase_member}
use cmm_sdk.Redfish.Account.Remove.{stoi_prefix}
use cmm_sdk.Redfish.Event.{
  has_destination_id, drop_destination, free_subscription_num, remove_subscription,
}

module _ (s : Store) (uri : Text) (p : ℕ) (d : EventDestination) (n : ℕ) where
  -- The subscription, its table entry and its number are gone, and the others stay.
  pub record Unsubscribed (q : Reply) (t : Store) : Type 0 where
    pub gone : destination_at t p ≡ none
    pub entry_gone : t.g_record uri ≡ none
    pub number_free : mem n (t.numsets.numset allocate_subscription_num) ≡ false
    pub members : t.subscriptions ≡ erase_member p s.subscriptions
    pub others_kept :
        (k : ℕ) (e : EventDestination)
        → k ≢ p
        → destination_at s k ≡ some e
        → destination_at t k ≡ some e
    pub table_kept : (u : Text) → u ≢ uri → t.g_record u ≡ s.g_record u
    pub reply : q ≡ success_reply null status_ok

  abbrev removed : Store
  removed = drop_destination p d.odata_id (free_subscription_num n s)

  removed-Unsubscribed :
      d.odata_id ≡ uri
      → Unsubscribed
          (success_reply null status_ok)
          (resource_save_json odata_event_destination_id (delete_resource uri removed))
  unfolding drop_destination free_subscription_num destination_at put bind_uri delete_numset_num
      update
  removed-Unsubscribed own =
      let (f, e) = delete_save-disk uri odata_event_destination_id removed in
      record {
        gone = rw e (ground arith);
        entry_gone = rw e (rw (own, text_eq_refl uri) refl);
        number_free =
            rw e (ground (arith, mem-erase_self n (s.numsets.numset allocate_subscription_num)));
        members = rw e refl;
        others_kept = λ k b ne h. rw e (ground (arith, h));
        table_kept = λ u ne. rw e (rw (own, text_eq_ne uri u (λ same. ne (sym same))) refl);
        reply = refl;
      }

  -- For the URI of a live subscription that is the first member with its id, a number,
  -- `remove_subscription` ends; a success frees the subscription, its table entry and its number,
  -- and keeps all others.
  pub remove_subscription_lem :
      get_current_object_name uri (codes "/") ≡ some d.id
      → first_ptr (destination_at s) (has_destination_id d.id) s.subscriptions ≡ some (some p)
      → destination_at s p ≡ some d
      → d.odata_id ≡ uri
      → stoi_prefix d.id ≡ some n
      → Ends s Unsubscribed (remove_subscription uri s)
  unfolding remove_subscription
  remove_subscription_lem named found alive own num = Ends-get s Unsubscribed _ s (
      Ends-refuse s Unsubscribed _ _ _ _ λ exists. Ends-json s Unsubscribed _ _ λ name is_name.
        let same : name ≡ d.id = some_inj (sym is_name ∙ named) in
        Ends-deref s Unsubscribed _ _ s (some p) (rw same found) (
          Ends-json s Unsubscribed _ _ λ id_num is_num.
            let same_num : id_num ≡ n = some_inj (sym is_num ∙ (rw same num)) in
            rw same_num (
              Ends-modify s Unsubscribed _ _ _ (
                Ends-deref s Unsubscribed _ _ _ p refl (
                  Ends-deref s Unsubscribed _ _ _ d alive (
                    Ends-modify s Unsubscribed _ _ _ (
                      Ends-modify s Unsubscribed _ _ _ (
                        Ends-modify s Unsubscribed _ _ _
                          (Ends-done s Unsubscribed _ _ (removed-Unsubscribed own))))))))))
