-- ===== src/Log/Counts.antt =====
-- The number of entries that a log service counts.
use cmm_sdk.Common.{
  ℕ, ◌+◌, ◌≤◌, ◌<◌, ◌≡◌, refl, subst, some_inj, Option, some, arith, inl, inr, Bool-cases,
  Option-cases,
}
use cmm_sdk.Common.Text.{Text, codes, text_eq}
use cmm_sdk.Util.Names.{get_parent_object_uri}
use cmm_sdk.Redfish.Event.{EventInfo}
use native.Mathlib.Nat.{mod-eq_of_lt}
use cmm_sdk.Log.{
  Sel, LogEntry, LogService, Logs, set_key, new_service, open_service, open_entries, entries_uri,
  count_from, next_count, add_entry, write_entry, generate_entry, generate_log, generate_log_of_sel,
}

abbrev pub Sized : LogService → Type 0
Sized svc =
    (0 < svc.max_number_of_records)
    × (svc.max_number_of_records < 4294967296)
    × (svc.record_count ≤ svc.max_number_of_records)

-- Every log service has a maximum that fits the type and is not 0, and counts no more.
abbrev pub WithinMax : Logs → Type 0
WithinMax s = (k : Text) (svc : LogService) → s.services k ≡ some svc → Sized svc

-- The count to go on from is below the maximum.
pub count_from-lt :
    (svc : LogService) (c : ℕ) → Sized svc → count_from svc ≡ some c → c < svc.max_number_of_records
unfolding count_from
count_from-lt svc c sized h = ground (arith, h, sized.0, sized.1, sized.2)

pub next_count-small : (c : ℕ) → c + 1 < 4294967296 → next_count c ≡ c + 1
unfolding next_count
next_count-small c h = mod-eq_of_lt h

pub open_entries-services : (uri : Text) (s : Logs) → ((open_entries uri s).1).services ≡ s.services
unfolding open_entries
open_entries-services uri s = elim (Option-cases (s.entry_collections uri)) [
  | inl e ↦ rw (e, open_entries) refl
  | inr (members, e) ↦ rw (e, open_entries) refl
]

new_service-Sized : (policy odata facility : Text) → Sized (new_service policy odata facility)
unfolding new_service
new_service-Sized policy odata facility = (omega arith, omega arith, omega arith)

set_key-WithinMax :
    (f : Text → Option LogService) (odata : Text) (svc : LogService)
    → ((k : Text) (y : LogService) → f k ≡ some y → Sized y)
    → Sized svc
    → (k : Text) (y : LogService) → set_key f odata svc k ≡ some y
    → Sized y
unfolding set_key
set_key-WithinMax f odata svc h sized k y e = elim (Bool-cases (text_eq odata k)) [
  | inl same ↦ subst Sized (some_inj (rw same at e)) sized
  | inr other ↦ h k y (rw other at e)
]

write_entry-WithinMax :
    (make : Text → Text → LogEntry) (odata : Text) (svc : LogService) (s : Logs)
    → Sized svc
    → WithinMax s
    → WithinMax (write_entry make odata svc s)
unfolding write_entry add_entry
write_entry-WithinMax make odata svc s sized h = elim (Option-cases (count_from svc)) [
  | inl e ↦
      rw (e, write_entry)
        (λ k y at_k. h k y (rw (open_entries-services (entries_uri svc) s) at at_k))
  | inr (c, e) ↦
      let below = count_from-lt svc c sized e in
      let num : next_count c ≡ c + 1 = next_count-small c (omega (arith, below, sized.1)) in
      rw (e, write_entry)
        (set_key-WithinMax _ odata _
          (λ k y at_k. h k y (rw (open_entries-services (entries_uri svc) s) at at_k))
          (sized.0, sized.1, omega (arith, num, below)))
]

open_service-WithinMax :
    (policy odata facility : Text) (s u : Logs) (svc : LogService)
    → open_service policy odata facility s ≡ some (svc, u)
    → WithinMax s
    → Sized svc × WithinMax u
unfolding open_service
open_service-WithinMax policy odata facility s u svc h w = elim (Option-cases (s.services odata)) [
  | inl e ↦ elim (Option-cases (s.service_collections (get_parent_object_uri odata (codes "/")))) [
    | inl none_there ↦ cc (rw (none_there, open_service) at (rw (e, open_service) at h))
    | inr (members, there) ↦
        let same = some_inj (rw (there, open_service) at (rw (e, open_service) at h)) in
        (
          subst (λ q. Sized q.0) same (new_service-Sized policy odata facility),
          subst (λ q. WithinMax q.1) same
              (set_key-WithinMax s.services odata (new_service policy odata facility) w
                (new_service-Sized policy odata facility)),
        )
  ]
  | inr (x, e) ↦
      let same = some_inj (rw (e, open_service) at h) in
      (subst (λ q. Sized q.0) same (w odata x e), subst (λ q. WithinMax q.1) same w)
]

pub generate_entry-WithinMax :
    (policy : Text) (make : Text → Text → LogEntry) (odata facility : Text) (s : Logs) {t : Logs}
    → WithinMax s
    → generate_entry policy make odata facility s ≡ some t
    → WithinMax t
unfolding generate_entry
generate_entry-WithinMax policy make odata facility s {t} w h =
    elim (Option-cases (open_service policy odata facility s)) [
      | inl e ↦ cc (rw (e, generate_entry) at h)
      | inr ((svc, u), e) ↦
          let same = some_inj (rw (e, generate_entry) at h) in
          let (sized, wu) = open_service-WithinMax policy odata facility s u svc e w in
          subst WithinMax same (write_entry-WithinMax make odata svc u sized wu)
    ]

-- If every log service counts at most its maximum, which is not 0 and fits an `unsigned int`, the
-- same holds after an event or a SEL record is logged, for the services that this creates too.
pub generate_log-WithinMax :
    (position facility : Text) (s : Logs)
    → WithinMax s
    → ((ev : EventInfo) (t : Logs) → generate_log position facility ev s ≡ some t → WithinMax t)
      × ((sel : Sel) (t : Logs)
          → generate_log_of_sel position facility sel s ≡ some t
          → WithinMax t)
unfolding generate_log generate_log_of_sel
generate_log-WithinMax position facility s w = (
  λ ev t h. generate_entry-WithinMax _ _ _ facility s w h,
  λ sel t h. generate_entry-WithinMax _ _ _ facility s w h,
)
