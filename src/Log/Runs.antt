-- ===== src/Log/Runs.antt =====
-- Logging one item after the other, with any entry made of an item.
use cmm_sdk.Common.{
  ℕ, ◌+◌, ◌%◌, ◌≤◌, ◌<◌, ◌≡◌, refl, sym, ap, ◌∙◌, true, false, Option, none, some, List, [], ◌∷◌,
  ◌++◌, map, append-nil, append_assoc, leb, ltb, if◌then◌else◌, arith, inl, inr, Bool-cases,
}
use mathlib.Core.List.{map-append}
use cmm_sdk.Common.Text.{Text, codes, text_eq, text_eq_refl}
use cmm_sdk.Common.Decimal.{to_string}
use native.Mathlib.Nat.{mod-lt, mod-eq_of_lt, mod_self, mod-add-mod}
use cmm_sdk.Log.{
  LogEntry, LogService, Logs, set_key, open_service, open_entries, entries_uri, count_from,
  next_count, add_entry, numbered, write_entry, generate_entry,
}
use cmm_sdk.Log.Counts.{next_count-small}

-- Logging each item of a list.
abbrev pub log_all : {A : Type 0} → (A → Logs → Option Logs) → List A → Logs → Option Logs
log_all log [] s = some s
log_all log (x ∷ xs) s = elim (log x s) [ none ↦ none | some t ↦ log_all log xs t ]

-- The entries of the log service at `odata`.
pub record Holds (odata : Text) (svc : LogService) (members : List LogEntry) (s : Logs)
    : Type 0 where
  pub service : s.services odata ≡ some svc
  pub collection : s.entry_collections (entries_uri svc) ≡ some members

-- The ids of the entries after the `k`-th, of a log that wraps at `m`.
abbrev pub wrapped_ids : {A : Type 0} → ℕ → ℕ → List A → List Text
wrapped_ids m k [] = []
wrapped_ids m k (x ∷ xs) = to_string (k % m + 1) ∷ wrapped_ids m (k + 1) xs

-- The ids of the entries after the `k`-th, of a log that does not.
abbrev pub plain_ids : {A : Type 0} → ℕ → List A → List Text
plain_ids k [] = []
plain_ids k (x ∷ xs) = to_string (k + 1) ∷ plain_ids (k + 1) xs

-- The ids and the count of a log that stops at `m`.
abbrev pub counted_ids : {A : Type 0} → ℕ → ℕ → List A → List Text
counted_ids m c [] = []
counted_ids m c (x ∷ xs) =
    let rest = counted_ids m (c + 1) xs in if ltb c m then to_string (c + 1) ∷ rest else []

abbrev pub counted : {A : Type 0} → ℕ → ℕ → List A → ℕ
counted m c [] = c
counted m c (x ∷ xs) = let rest = counted m (c + 1) xs in if ltb c m then rest else c

abbrev pub id_of : LogEntry → Text
id_of e = e.id

count_below :
    (svc : LogService)
    → svc.record_count < svc.max_number_of_records
    → count_from svc ≡ some svc.record_count
unfolding count_from
count_below svc h = ground (arith, h)

count_full :
    (svc : LogService)
    → svc.max_number_of_records ≤ svc.record_count
    → text_eq svc.overwrite_policy (codes "WrapsWhenFull") ≡ false
    → count_from svc ≡ none
unfolding count_from
count_full svc h policy = ground (arith, h, policy)

count_wraps :
    (svc : LogService)
    → text_eq svc.overwrite_policy (codes "WrapsWhenFull") ≡ true
    → 0 < svc.max_number_of_records
    → svc.record_count ≤ svc.max_number_of_records
    → count_from svc ≡ some (svc.record_count % svc.max_number_of_records)
unfolding count_from
count_wraps svc policy more h = elim (Bool-cases (leb svc.max_number_of_records svc.record_count)) [
  | inl full ↦
      let e : svc.record_count ≡ svc.max_number_of_records = ground (arith, h, full) in
      rw (full, policy, e, mod_self svc.max_number_of_records) refl
  | inr fits ↦
      let below : svc.record_count < svc.max_number_of_records = ground (arith, fits) in
      let e : svc.record_count % svc.max_number_of_records ≡ svc.record_count =
        mod-eq_of_lt below in
      rw (fits, e) refl
]

-- After logging `xs` the service counts `n` entries, and its collection has those of before and one
-- more entry for each of `ids`.
pub record Kept {A : Type 0} (log : A → Logs → Option Logs) (odata : Text) (svc : LogService)
    (members : List LogEntry) (s : Logs) (xs : List A) (n : ℕ) (ids : List Text) : Type 0 where
  pub after : Logs
  pub entries : List LogEntry
  pub ends : log_all log xs s ≡ some after
  pub holds : Holds odata (record svc { record_count = n }) entries after
  pub members_ids : map id_of entries ≡ map id_of members ++ ids

-- What wraps at `m` counts this after the `k`-th and `length xs` more.
abbrev pub wrapped_count : {A : Type 0} → ℕ → ℕ → ℕ → List A → ℕ
wrapped_count m c k [] = c
wrapped_count m c k (x ∷ xs) = wrapped_count m (k % m + 1) (k + 1) xs

module _ {A : Type 0} (policy odata facility : Text) (make : A → Text → Text → LogEntry) where
  logged : LogService → List LogEntry → ℕ → A → List LogEntry
  logged svc members num x = members ++ numbered (make x) (entries_uri svc) num ∷ []

  opened :
      (x : A) (svc : LogService) (members : List LogEntry) (s : Logs)
      → Holds odata svc members s
      → generate_entry policy (make x) odata facility s ≡ some (write_entry (make x) odata svc s)
  unfolding generate_entry open_service
  opened x svc members s h = rw (h.service, generate_entry) refl

  stored :
      (x : A) (svc : LogService) (members : List LogEntry) (s : Logs) (c : ℕ)
      → Holds odata svc members s
      → count_from svc ≡ some c
      → Holds odata
          (record svc { record_count = next_count c })
          (logged svc members (next_count c) x)
          (write_entry (make x) odata svc s)
  unfolding write_entry open_entries add_entry set_key logged entries_uri
  stored x svc members s c h e = record {
    service = rw (e, write_entry) (rw (text_eq_refl odata) refl);
    collection =
        rw (e, write_entry)
          (rw (h.collection, open_entries) (rw (text_eq_refl (entries_uri svc)) refl));
  }

  discarded :
      (x : A) (svc : LogService) (members : List LogEntry) (s : Logs)
      → Holds odata svc members s
      → count_from svc ≡ none
      → write_entry (make x) odata svc s ≡ s
  unfolding write_entry open_entries
  discarded x svc members s h e = rw (e, write_entry) (rw (h.collection, open_entries) refl)

  members-logged :
      (svc : LogService) (members : List LogEntry) (num : ℕ) (x : A)
      → ((u i : Text) → id_of (make x u i) ≡ i)
      → map id_of (logged svc members num x) ≡ map id_of members ++ to_string num ∷ []
  unfolding logged numbered
  members-logged svc members num x own =
      map-append id_of members _
      ∙ rw (own (entries_uri svc ++ (codes "/" ++ to_string num)) (to_string num)) refl

  unfoldable pub log : A → Logs → Option Logs
  log x s = generate_entry policy (make x) odata facility s

  module _ (own : (x : A) (u i : Text) → id_of (make x u i) ≡ i) where
    Kept-more :
        (x : A) (xs : List A) (svc : LogService) (members : List LogEntry) (s : Logs) (num n : ℕ)
        (ids : List Text)
        → Holds odata svc members s
        → Kept log odata
            (record svc { record_count = num })
            (logged svc members num x)
            (write_entry (make x) odata svc s)
            xs
            n
            ids
        → Kept log odata svc members s (x ∷ xs) n (to_string num ∷ ids)
    unfolding log
    Kept-more x xs svc members s num n ids h rest = record {
      after = rest.after;
      entries = rest.entries;
      ends = rw (opened x svc members s h, log_all) rest.ends;
      holds = rest.holds;
      members_ids =
          rest.members_ids
          ∙ (rw (members-logged svc members num x (own x)) (append_assoc (map id_of members) _ _));
    }

    pub wraps :
        (xs : List A) (svc : LogService) (members : List LogEntry) (s : Logs) (k : ℕ)
        → Holds odata svc members s
        → text_eq svc.overwrite_policy (codes "WrapsWhenFull") ≡ true
        → 0 < svc.max_number_of_records
        → svc.max_number_of_records < 4294967296
        → svc.record_count ≤ svc.max_number_of_records
        → svc.record_count % svc.max_number_of_records ≡ k % svc.max_number_of_records
        → Kept log odata svc members s xs
            (wrapped_count svc.max_number_of_records svc.record_count k xs)
            (wrapped_ids svc.max_number_of_records k xs)
    wraps [] svc members s k h policy_wraps more fits within at_k = record {
      after = s;
      entries = members;
      ends = refl;
      holds = h;
      members_ids = sym (append-nil (map id_of members));
    }
    wraps (x ∷ xs) svc members s k h policy_wraps more fits within at_k =
        let m = svc.max_number_of_records in
        let from_k : count_from svc ≡ some (k % m) =
          count_wraps svc policy_wraps more within ∙ ap some at_k in
        let below : k % m < m = mod-lt k more in
        let num : next_count (k % m) ≡ k % m + 1 =
          next_count-small (k % m) (omega (arith, below, fits)) in
        let next_svc = record svc { record_count = k % m + 1 } in
        let es = logged svc members (k % m + 1) x in
        let t = write_entry (make x) odata svc s in
        let there : Holds odata next_svc es t =
          rw (sym num) (stored x svc members s (k % m) h from_k) in
        let rest =
          wraps xs next_svc es t (k + 1) there policy_wraps more fits (omega (arith, below))
            (mod-add-mod k m 1) in
        Kept-more x xs svc members s (k % m + 1) _ _ h rest

    discards :
        (xs : List A) (svc : LogService) (members : List LogEntry) (s : Logs)
        → Holds odata svc members s
        → text_eq svc.overwrite_policy (codes "WrapsWhenFull") ≡ false
        → svc.max_number_of_records ≤ svc.record_count
        → log_all log xs s ≡ some s
    unfolding log
    discards [] svc members s h policy_stops full = refl
    discards (x ∷ xs) svc members s h policy_stops full =
        let same = discarded x svc members s h (count_full svc full policy_stops) in
        rw (opened x svc members s h ∙ ap some same, log_all)
          (discards xs svc members s h policy_stops full)

    pub stops :
        (xs : List A) (svc : LogService) (members : List LogEntry) (s : Logs)
        → Holds odata svc members s
        → text_eq svc.overwrite_policy (codes "WrapsWhenFull") ≡ false
        → svc.max_number_of_records < 4294967296
        → svc.record_count ≤ svc.max_number_of_records
        → Kept log odata svc members s xs
            (counted svc.max_number_of_records svc.record_count xs)
            (counted_ids svc.max_number_of_records svc.record_count xs)
    stops [] svc members s h policy_stops fits within = record {
      after = s;
      entries = members;
      ends = refl;
      holds = h;
      members_ids = sym (append-nil (map id_of members));
    }
    stops (x ∷ xs) svc members s h policy_stops fits within =
        let m = svc.max_number_of_records in
        let c = svc.record_count in
        elim (Bool-cases (ltb c m)) [
          | inl more ↦
              let below : c < m = ground (arith, more) in
              let num : next_count c ≡ c + 1 = next_count-small c (omega (arith, below, fits)) in
              let t = write_entry (make x) odata svc s in
              let there : Holds odata (record svc { record_count = c + 1 })
                  (logged svc members (c + 1) x) t =
                rw (sym num) (stored x svc members s c h (count_below svc below)) in
              rw more (
                Kept-more x xs svc members s (c + 1) _ _ h (
                  stops xs (record svc { record_count = c + 1 }) (logged svc members (c + 1) x) t
                    there policy_stops fits (omega (arith, below))))
          | inr full ↦ rw full (record {
            after = s;
            entries = members;
            ends = discards (x ∷ xs) svc members s h policy_stops (ground (arith, full));
            holds = h;
            members_ids = sym (append-nil (map id_of members));
          })
        ]
