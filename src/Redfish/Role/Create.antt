-- ===== src/Redfish/Role/Create.antt =====
-- What `make_role` does.
use cmm_sdk.Common.{
  ℕ, zero, suc, ◌≡◌, refl, Bool, true, false, not, Option, some, List, [], ◌∷◌, ◌++◌, arith, All,
  length, ◌<◌, sym, ap, ◌∙◌, subst, append-nil, append_assoc,
}
use cmm_sdk.Common.Text.{Text, codes, text_eq, text_eq_iff, is_empty}
use cmm_sdk.Redfish.Json.{Json, get_string, get_json}
use cmm_sdk.Redfish.Search.{first_ptr-Finds}
use cmm_sdk.Redfish.Store.{Account, Role, Session, Store, Disk, odata_role_id, role_at}
use cmm_sdk.Redfish.Monad.{
  Reply, Ends, Ends-get, Ends-modify, Ends-done, Ends-refuse, Ends-json, Ends-bind, Ends-map,
  success_reply, resource, status_created,
}
use cmm_sdk.Redfish.Rules.{Ends-absent}
use cmm_sdk.Redfish.Guard.Login.{LoginOf, Ends-login}
use cmm_sdk.Redfish.Valid.{IsValid, save_both-disk}
use cmm_sdk.Redfish.Role.{
  check_role_privileges, has_role_id, administrator, role_uri, new_role, add_role, collect,
  make_role, string_at,
}

abbrev pub AllAllowed : List Text → Type 0
AllAllowed = All (λ p. check_role_privileges p ≡ true)

pub not-false : (b : Bool) → not b ≡ false → b ≡ true
not-false b h = ground arith

-- The session is one of an administrator.
pub record IsAdmin (s : Store) (header : Option Text) : Type 0 where
  pub x : Session
  pub a : Account
  pub r : Role
  pub login : LoginOf s header x a r
  pub admin : r.id ≡ administrator

module _ (J : Json) where
  -- The strings that stand in the array from the index `i` on begin with these.
  abbrev pub Lists : J.Value → ℕ → List Text → Type 0
  Lists v i [] = Unit
  Lists v i (p ∷ ps) = (string_at J v i ≡ some p) × Lists v (suc i) ps

  -- The result is `tmp` and then the `left` strings from `i` on, all of them known.
  record Collected (left i : ℕ) (v : J.Value) (tmp out : List Text) : Type 0 where
    read : List Text
    is_out : out ≡ tmp ++ read
    count : length read ≡ left
    lists : Lists v i read
    known : AllAllowed read

module _ (J : Json) (s : Store) where
  collect-Ends :
      (left i : ℕ) (v : J.Value) (tmp : List Text)
      → Ends s (λ ps t. (t ≡ s) × Collected J left i v tmp ps) (collect J left i v tmp s)
  unfolding collect
  collect-Ends zero i v tmp = Ends-done s _ tmp s (
    refl,
    record { read = []; is_out = sym (append-nil tmp); count = refl; lists = tt; known = tt },
  )
  collect-Ends (suc left) i v tmp = Ends-json s _ (string_at J v i) _ λ p e.
      Ends-refuse s _ _ _ _ _ λ good.
        Ends-map s (λ ps t. (t ≡ s) × Collected J left (suc i) v (tmp ++ p ∷ []) ps)
          (λ ps t. (t ≡ s) × Collected J (suc left) i v tmp ps) _
          (λ ps t h. (h.0, one_more left i v tmp ps p e (not-false _ good) h.1))
          (collect-Ends left (suc i) v (tmp ++ p ∷ []))
    where
      one_more :
          (left i : ℕ) (v : J.Value) (tmp out : List Text) (p : Text)
          → string_at J v i ≡ some p
          → check_role_privileges p ≡ true
          → Collected J left (suc i) v (tmp ++ p ∷ []) out
          → Collected J (suc left) i v tmp out
      one_more left i v tmp out p e good c = record {
        read = p ∷ c.read;
        is_out = c.is_out ∙ append_assoc tmp (p ∷ []) c.read;
        count = ap suc c.count;
        lists = (e, c.lists);
        known = (good, c.known);
      }

module _ (J : Json) (garbage : Bool) (header : Option Text) (body : J.Value) (s : Store) where
  abbrev id : Text
  id = (get_string J body (codes "RoleId")).1

  -- What the body has under `Privileges`.
  abbrev given : J.Value
  given = (get_json J body (codes "Privileges")).1

  pub record Created (q : Reply) (t : Store) : Type 0 where
    pub service_on : s.account_service_enabled ≡ true
    pub by_admin : IsAdmin s header
    pub id_not_empty : is_empty id ≡ false
    pub id_is_new :
        All (λ p. (r : Role) × (role_at s p ≡ some r) × (text_eq r.id id ≡ false)) s.roles
    pub privileges : List Text
    pub allowed : AllAllowed privileges
    pub some_privilege : 0 < length privileges
    pub all_of_body : length privileges ≡ J.size given
    pub in_order : Lists J given 0 privileges
    pub files : List Disk
    pub state : t ≡ record (add_role (new_role id garbage privileges) s) { disk = files }
    pub reply : q ≡ success_reply (resource (role_uri id)) status_created

  -- With a valid store `make_role` ends. It adds a role only for a request under a valid session of
  -- an administrator, with an id that is not empty and not in use; its privileges are all those that
  -- the body lists, in their order, at least one and all of them known. Or else it leaves the store
  -- as it was.
  pub make_role_lem : IsValid s → Ends s Created (make_role J garbage header body s)
  unfolding make_role has_role_id new_role
  make_role_lem v = Ends-get s Created _ s (
      Ends-refuse s Created _ _ _ _ λ on. Ends-login s v Created header _ λ x a r login.
        Ends-refuse s Created _ _ _ _ λ admin. Ends-refuse s Created _ _ _ _ λ named.
          Ends-absent s Created (role_at s) (has_role_id id) s.roles _ _ _
            (first_ptr-Finds (role_at s) (has_role_id id) s.roles v.roles_live)
            λ new.
              Ends-bind s (λ ps t. (t ≡ s) × Collected J (J.size given) 0 given [] ps) Created _ _
                (collect-Ends J s _ 0 _ [])
                λ ps t good. rw good.0 (
                  Ends-refuse s Created _ _ _ _ λ many.
                    let n = new_role id garbage ps in
                    let (d, same) = save_both-disk n.odata_id odata_role_id (add_role n s) in
                    Ends-modify s Created _ _ _ (
                      Ends-modify s Created _ _ _ (
                        Ends-modify s Created _ _ _ (
                          Ends-done s Created _ _ (record {
                            service_on = not-false _ on;
                            by_admin = record {
                              x = x;
                              a = a;
                              r = r;
                              login = login;
                              admin = (text_eq_iff _ _).0 (not-false _ admin);
                            };
                            id_not_empty = named;
                            id_is_new = new;
                            privileges = ps;
                            allowed = subst AllAllowed (sym good.1.is_out) good.1.known;
                            all_of_body = ap length good.1.is_out ∙ good.1.count;
                            in_order = subst (Lists J given 0) (sym good.1.is_out) good.1.lists;
                            some_privilege = ground arith;
                            files = d;
                            state = same;
                            reply = refl;
                          }))))))
