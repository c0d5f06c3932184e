-- ===== src/Redfish/Event/Send.antt =====
-- What `send_event_to_subscriber` sends when the subscriptions change.
use cmm_sdk.Common.{
  some_inj, ℕ, ◌≡◌, refl, sym, ap, ◌∙◌, true, some, List, [], ◌∷◌, ◌++◌, append-nil, append_assoc,
  ◌⊎◌, inl, inr, arith, Option-cases,
}
use cmm_sdk.Common.Text.{Text, codes, text_eq_iff}
use cmm_sdk.Redfish.Store.{EventDestination, Store, destination_at}
use cmm_sdk.Redfish.Event.{check_protocol, event_type_exist, Delivery, deliver, send_loop}

-- The event destinations of `s` are the same in `t`.
abbrev pub KeepsDestinations : Store → Store → Type 0
KeepsDestinations s t =
    (p : ℕ) (d : EventDestination) → destination_at s p ≡ some d → destination_at t p ≡ some d

module _ {E : Type 0} (ev : E) (type : Text) where
  send_loop-cons :
      (s : Store) (p : ℕ) (ps : List ℕ) (d : EventDestination) (ds : List (Delivery E))
      → destination_at s p ≡ some d
      → send_loop ev type s ps ≡ some ds
      → send_loop ev type s (p ∷ ps) ≡ some (deliver ev type d ++ ds)
  unfolding send_loop
  send_loop-cons s p ps d ds e h = rw (e, send_loop) (rw (h, send_loop) refl)

  -- A loop that ended met a live member at its head.
  send_loop-inv :
      (s : Store) (p : ℕ) (ps : List ℕ) (out : List (Delivery E))
      → send_loop ev type s (p ∷ ps) ≡ some out
      → (d : EventDestination) × (ds : List (Delivery E)) × (destination_at s p ≡ some d)
        × (send_loop ev type s ps ≡ some ds)
        × (out ≡ deliver ev type d ++ ds)
  unfolding send_loop
  send_loop-inv s p ps out h = elim (Option-cases (destination_at s p)) [
    | inl e ↦ cc (rw (e, send_loop) at h)
    | inr (d, e) ↦ elim (Option-cases (send_loop ev type s ps)) [
      | inl f ↦ cc (rw (e, send_loop) at h, f)
      | inr (ds, f) ↦ (d, ds, e, f, some_inj (sym h ∙ send_loop-cons s p ps d ds e f))
    ]
  ]

  -- One more member at the end is served last.
  pub send_loop-append :
      (s t : Store) (ps : List ℕ) (q : ℕ) (d : EventDestination) (out : List (Delivery E))
      → KeepsDestinations s t
      → destination_at t q ≡ some d
      → send_loop ev type s ps ≡ some out
      → send_loop ev type t (ps ++ q ∷ []) ≡ some (out ++ deliver ev type d)
  unfolding send_loop
  send_loop-append s t [] q d out k e h =
      send_loop-cons t q [] d [] e refl
      ∙ ap some (append-nil (deliver ev type d) ∙ ap (λ o. o ++ deliver ev type d) (some_inj h))
  send_loop-append s t (p ∷ ps) q d out k e h =
      let (b, ds, f, g, same) = send_loop-inv s p ps out h in
      send_loop-cons t p (ps ++ q ∷ []) b (ds ++ deliver ev type d) (k p b f)
        (send_loop-append s t ps q d ds k e g)
      ∙ ap some (
          sym (append_assoc (deliver ev type b) ds (deliver ev type d))
          ∙ ap (λ o. o ++ deliver ev type d) (sym same))

  -- An enabled subscriber with a known protocol and the type of the event gets exactly one message.
  pub deliver_one :
      (d : EventDestination)
      → d.state ≡ codes "Enabled"
      → check_protocol d.protocol ≡ true
      → event_type_exist d.event_types type ≡ true
      → (deliver ev type d ≡ Delivery.shoot_redfish d.destination d.context ev ∷ [])
        ⊎ (deliver ev type d ≡ Delivery.shoot_smtp d.destination d.context ev ∷ [])
  unfolding deliver check_protocol
  deliver_one d on known wanted =
      ground (arith, text_eq_iff d.state (codes "Enabled"), wanted, known)
