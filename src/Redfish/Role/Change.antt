-- ===== src/Redfish/Role/Change.antt =====
-- What `modify_role` does.
use cmm_sdk.Common.{
  ℕ, zero, suc, ◌≡◌, refl, Bool, true, false, Option, some, List, [], ◌∷◌, ◌++◌, if◌then◌else◌, All,
  length, sym, ap, ◌∙◌, subst, append-nil, append_assoc, Bool-cases, inl, inr,
}
use cmm_sdk.Common.Text.{Text, codes, text_eq, text_eq_iff, contains, IsFree}
use cmm_sdk.Util.Names.{get_parent_object_uri, name_and_parent}
use cmm_sdk.Redfish.Json.{Json}
use cmm_sdk.Redfish.Store.{Role, Store, Disk, odata_role_id, role_at}
use cmm_sdk.Redfish.Monad.{
  Reply, Ends, Ends-get, Ends-modify, Ends-done, Ends-refuse, Ends-deref, Ends-json, Ends-bind,
  Ends-map, success_reply, resource, status_ok,
}
use cmm_sdk.Redfish.Guard.Login.{Ends-login}
use cmm_sdk.Redfish.Valid.{record_is_exist-some, IsValid, resource_save_json-disk}
use cmm_sdk.Redfish.Role.{
  check_role_privileges, role_uri, collect_new, enabled_at, set_privileges, modify_role, string_at,
}
use cmm_sdk.Redfish.Role.Create.{IsAdmin, AllAllowed, Lists, not-false}

-- Known privileges that the role did not have.
abbrev pub AllNew : List Text → List Text → Type 0
AllNew old = All (λ p. (check_role_privileges p ≡ true) × (contains old p ≡ false))

-- The privileges that are not among `old`, in their order.
unfoldable pub without : List Text → List Text → List Text
without old [] = []
without old (p ∷ ps) = let rest = without old ps in if contains old p then rest else p ∷ rest

without-AllNew : (old ps : List Text) → AllAllowed ps → AllNew old (without old ps)
unfolding without
without-AllNew old [] h = tt
without-AllNew old (p ∷ ps) h = elim (Bool-cases (contains old p)) [
  | inl e ↦ rw (e, without) (without-AllNew old ps h.1)
  | inr e ↦ rw (e, without) ((h.0, e), without-AllNew old ps h.1)
]

module _ (J : Json) (s : Store) (old : List Text) where
  -- The result is `store` and then, of the `left` strings from `i` on, those that are not among `old`.
  record Picked (left i : ℕ) (v : J.Value) (store out : List Text) : Type 0 where
    read : List Text
    is_out : out ≡ store ++ without old read
    count : length read ≡ left
    lists : Lists J v i read
    known : AllAllowed read

  pick_append :
      (b : Bool) (store rest : List Text) (p : Text)
      → (if b then store else store ++ p ∷ []) ++ rest ≡ store ++ (if b then rest else p ∷ rest)
  pick_append true store rest p = refl
  pick_append false store rest p = append_assoc store (p ∷ []) rest

  one_more :
      (left i : ℕ) (v : J.Value) (store out : List Text) (p : Text)
      → string_at J v i ≡ some p
      → check_role_privileges p ≡ true
      → Picked left (suc i) v (if contains old p then store else store ++ p ∷ []) out
      → Picked (suc left) i v store out
  unfolding without
  one_more left i v store out p e good c = record {
    read = p ∷ c.read;
    is_out = c.is_out ∙ pick_append (contains old p) store (without old c.read) p;
    count = ap suc c.count;
    lists = (e, c.lists);
    known = (good, c.known);
  }

  collect_new-Ends :
      (left i : ℕ) (v : J.Value) (store : List Text)
      → Ends s (λ ps t. (t ≡ s) × Picked left i v store ps) (collect_new J left i v old store s)
  unfolding collect_new without
  collect_new-Ends zero i v store = Ends-done s _ store s (
    refl,
    record { read = []; is_out = sym (append-nil store); count = refl; lists = tt; known = tt },
  )
  collect_new-Ends (suc left) i v store = Ends-json s _ (string_at J v i) _ λ p e.
      Ends-refuse s _ _ _ _ _ λ good.
        Ends-map s
          (λ ps t.
            (t ≡ s) × Picked left (suc i) v (if contains old p then store else store ++ p ∷ []) ps)
          (λ ps t. (t ≡ s) × Picked (suc left) i v store ps) _
          (λ ps t h. (h.0, one_more left i v store ps p e (not-false _ good) h.1))
          (collect_new-Ends left (suc i) v (if contains old p then store else store ++ p ∷ []))

roles_parent : get_parent_object_uri odata_role_id (codes "/") ≡ codes "/redfish/v1/AccountService"
unfolding odata_role_id get_parent_object_uri
roles_parent = refl

enabled_of_role :
    (s : Store) (id : Text)
    → IsFree b'/' id
    → enabled_at s
        (get_parent_object_uri (get_parent_object_uri (role_uri id) (codes "/")) (codes "/"))
      ≡ some s.account_service_enabled
unfolding enabled_at text_eq
enabled_of_role s id h = rw ((name_and_parent odata_role_id id h).1, roles_parent) refl

module _ (J : Json) (header : Option Text) (body : J.Value) (id : Text) (s : Store) where
  pub record Changed (q : Reply) (t : Store) : Type 0 where
    pub service_on : s.account_service_enabled ≡ true
    pub by_admin : IsAdmin s header
    pub p : ℕ
    pub target : Role
    pub in_table : s.g_record (role_uri id) ≡ some p
    pub alive : role_at s p ≡ some target
    pub given : J.Value
    pub is_given : J.at_key body (codes "AssignedPrivileges") ≡ some given
    pub asked : List Text
    pub all_of_body : length asked ≡ J.size given
    pub in_order : Lists J given 0 asked
    pub known : AllAllowed asked
    pub added : List Text
    pub is_added : added ≡ without target.assigned_privileges asked
    pub new : AllNew target.assigned_privileges added
    pub files : List Disk
    pub state :
        t
        ≡ record (set_privileges p target (target.assigned_privileges ++ added) s) { disk = files }
    pub reply : q ≡ success_reply (resource (role_uri id)) status_ok

  -- With a valid store `modify_role` ends, for the URI of a role whose id has no slash. Only a request
  -- under a valid session of an administrator changes the role, and then all privileges of the body
  -- are known, and those that the role did not have are added behind those that it had, in the order
  -- of the body; or else the store stays as it was.
  pub modify_role_lem :
      IsValid s → IsFree b'/' id → Ends s Changed (modify_role J header body (role_uri id) s)
  unfolding modify_role
  modify_role_lem v free = Ends-get s Changed _ s (
      Ends-deref s Changed _ _ s s.account_service_enabled (enabled_of_role s id free) (
        Ends-refuse s Changed _ _ _ _ λ on. Ends-refuse s Changed _ _ _ _ λ exists.
          Ends-login s v Changed header _ λ x a r login. Ends-refuse s Changed _ _ _ _ λ admin.
            Ends-json s Changed _ _ λ given asked. Ends-refuse s Changed _ _ _ _ λ has.
              Ends-json s Changed _ _ λ arr at.
                let (p, e) = record_is_exist-some s _ exists in
                let (target, alive) = v.role_table id p e in
                let old = target.assigned_privileges in
                Ends-deref s Changed _ _ s p e (
                  Ends-deref s Changed _ _ s target alive (
                    Ends-bind s (λ ps t. (t ≡ s) × Picked J s old (J.size arr) 0 arr [] ps) Changed
                      _ _ (collect_new-Ends J s old _ 0 arr [])
                      λ added t good. rw good.0 (
                        let (d, same) =
                          resource_save_json-disk (role_uri id)
                            (set_privileges p target (old ++ added) s) in
                        Ends-modify s Changed _ _ _ (
                          Ends-modify s Changed _ _ _ (
                            Ends-done s Changed _ _ (record {
                              service_on = not-false _ on;
                              by_admin = record {
                                x = x;
                                a = a;
                                r = r;
                                login = login;
                                admin = (text_eq_iff _ _).0 (not-false _ admin);
                              };
                              p = p;
                              target = target;
                              in_table = e;
                              alive = alive;
                              given = arr;
                              is_given = at;
                              asked = good.1.read;
                              all_of_body = good.1.count;
                              in_order = good.1.lists;
                              known = good.1.known;
                              added = added;
                              is_added = good.1.is_out;
                              new =
                                  subst (AllNew old) (sym good.1.is_out)
                                    (without-AllNew old good.1.read good.1.known);
                              files = d;
                              state = same;
                              reply = refl;
                            }))))))))
