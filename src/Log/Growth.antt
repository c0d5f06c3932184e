-- ===== src/Log/Growth.antt =====
-- Which entries a log keeps.
use cmm_sdk.Common.{
  ℕ, suc, ◌+◌, ◌-◌, ◌≤◌, ◌<◌, ◌≡◌, refl, sym, ap, ◌∙◌, true, false, some, List, [], ◌∷◌, ◌++◌, map,
  length, take, ltb, length-append, arith, inl, inr, Bool-cases,
}
use cmm_sdk.Common.Text.{Text, codes, text_eq}
use cmm_sdk.Common.Decimal.{to_string}
use cmm_sdk.Redfish.Event.{EventInfo}
use cmm_sdk.Log.{
  Sel, LogEntry, make_log, make_log_of_sel, LogService, Logs, service_uri, entries_uri,
  generate_log, generate_log_of_sel,
}
use cmm_sdk.Log.Runs.{log_all, wrapped_ids, plain_ids, counted_ids, id_of, log, wraps, stops}

length-map : {A B : Type 0} (f : A → B) (xs : List A) → length (map f xs) ≡ length xs
length-map f [] = refl
length-map f (x ∷ xs) = ap suc (length-map f xs)

length-wrapped_ids : {A : Type 0} (m k : ℕ) (xs : List A) → length (wrapped_ids m k xs) ≡ length xs
length-wrapped_ids m k [] = refl
length-wrapped_ids m k (x ∷ xs) = ap suc (length-wrapped_ids m (k + 1) xs)

counted_ids-take :
    {A : Type 0} (m c : ℕ) (xs : List A) → counted_ids m c xs ≡ plain_ids c (take (m - c) xs)
counted_ids-take m c [] = elim (Bool-cases (ltb c m)) [
  | inl more ↦ let left : m - c ≡ suc (m - (c + 1)) = ground (arith, more) in rw left refl
  | inr full ↦ let left : m - c ≡ 0 = ground (arith, full) in rw left refl
]
counted_ids-take m c (x ∷ xs) = elim (Bool-cases (ltb c m)) [
  | inl more ↦
      let left : m - c ≡ suc (m - (c + 1)) = ground (arith, more) in
      rw (more, left) (ap (◌∷◌ (to_string (c + 1))) (counted_ids-take m (c + 1) xs))
  | inr full ↦ let left : m - c ≡ 0 = ground (arith, full) in rw (full, left) refl
]

-- The number of items of a list, by their ids.
length_by_ids :
    (es members : List LogEntry) (ids : List Text)
    → map id_of es ≡ map id_of members ++ ids
    → length es ≡ length members + length ids
length_by_ids es members ids h =
    sym (length-map id_of es)
    ∙ ap length h
    ∙ length-append (map id_of members) ids
    ∙ ap (λ n. n + length ids) (length-map id_of members)

-- Logging SEL records at a service that wraps, with a maximum that is not 0 and fits an `unsigned
-- int` and a count within it, never fails: the entries get the numbers after the count, back to 1
-- after the maximum, and the collection grows by one entry for each record, with no bound.
pub generate_log-wraps :
    (position facility : Text) (sels : List Sel) (svc : LogService) (members : List LogEntry)
    (s : Logs)
    → s.services (service_uri position facility) ≡ some svc
    → s.entry_collections (entries_uri svc) ≡ some members
    → text_eq svc.overwrite_policy (codes "WrapsWhenFull") ≡ true
    → 0 < svc.max_number_of_records
    → svc.max_number_of_records < 4294967296
    → svc.record_count ≤ svc.max_number_of_records
    → (t : Logs) × (es : List LogEntry) × (log_all (generate_log_of_sel position facility) sels s
        ≡ some t)
      × (t.entry_collections (entries_uri svc) ≡ some es)
      × (map id_of es
          ≡ map id_of members ++ wrapped_ids svc.max_number_of_records svc.record_count sels)
      × (length es ≡ length members + length sels)
unfolding generate_log_of_sel log make_log_of_sel entries_uri
generate_log-wraps position facility sels svc members s service collection policy more fits within =
    let ids = wrapped_ids svc.max_number_of_records svc.record_count sels in
    let k =
      wraps _ (service_uri position facility) facility make_log_of_sel (λ x u i. refl) sels svc
        members s svc.record_count (record { service = service; collection = collection }) policy
        more fits within refl in
    (
      k.after,
      k.entries,
      k.ends,
      k.holds.collection,
      k.members_ids,
      length_by_ids k.entries members ids k.members_ids
          ∙ ap (◌+◌ (length members))
              (length-wrapped_ids svc.max_number_of_records svc.record_count sels),
    )

-- Logging events at a service that does not wrap, with a maximum that fits an `unsigned int` and a
-- count within it, never fails: the collection gets an entry for as many events as the maximum
-- leaves room for, with the numbers after the count, and the rest are discarded.
pub generate_log-discards :
    (position facility : Text) (evs : List EventInfo) (svc : LogService) (members : List LogEntry)
    (s : Logs)
    → s.services (service_uri position facility) ≡ some svc
    → s.entry_collections (entries_uri svc) ≡ some members
    → text_eq svc.overwrite_policy (codes "WrapsWhenFull") ≡ false
    → svc.max_number_of_records < 4294967296
    → svc.record_count ≤ svc.max_number_of_records
    → (t : Logs) × (es : List LogEntry) × (log_all (generate_log position facility) evs s ≡ some t)
      × (t.entry_collections (entries_uri svc) ≡ some es)
      × (map id_of es
          ≡ map id_of members
            ++ plain_ids svc.record_count (take (svc.max_number_of_records - svc.record_count) evs))
unfolding generate_log log make_log entries_uri
generate_log-discards position facility evs svc members s service collection policy fits within =
    let k =
      stops _ (service_uri position facility) facility make_log (λ x u i. refl) evs svc members s
        (record { service = service; collection = collection }) policy fits within in
    (
      k.after,
      k.entries,
      k.ends,
      k.holds.collection,
      k.members_ids
          ∙ ap (◌++◌ (map id_of members))
              (counted_ids-take svc.max_number_of_records svc.record_count evs),
    )
