-- ===== src/Persist/Base.antt =====
-- What every resource writes and reads: `Resource::get_json` and `Resource::load_json`.
use cmm_sdk.Common.{ℕ, ◌%◌, ◌<◌, ◌≡◌, refl, ap, ◌∙◌, Option, none, some, List, [], ◌∷◌, ◌++◌}
use cmm_sdk.Common.Text.{Text, codes}
use cmm_sdk.Common.Decimal.{
  to_string, to_string-All, leading_digits, leading_digits-All, value, value-to_string,
}
use native.Mathlib.Nat.{mod-eq_of_lt}
use cmm_sdk.Persist.{Node, Fields, Items, Hop, Steps, fields, ◌▸◌}
use cmm_sdk.Persist.Reads.{items_by, texts_of}

pub record Resource : Type 0 where
  pub name : Text
  pub type : ℕ
  pub odata_id : Text
  pub odata_type : Text

-- `Resource::get_json`, which every resource starts from.
unfoldable pub resource_json : Resource → Fields → Fields
resource_json r fs =
    fields
      ((codes "@odata.type", Node.string r.odata_type)
        ∷ (codes "Name", Node.string r.name)
        ∷ (codes "@odata.id", Node.string r.odata_id)
        ∷ (codes "type", Node.string (to_string r.type))
        ∷ [])
      fs

-- `atoi` of a text that starts with no blank and no sign, put into a `uint8_t`.
unfoldable pub atoi8 : Text → ℕ
atoi8 s = value (leading_digits s) % 256

pub atoi8-to_string : (n : ℕ) → n < 256 → atoi8 (to_string n) ≡ n
unfolding atoi8
atoi8-to_string n h =
    ap (λ t. value t % 256) (leading_digits-All (to_string n) (to_string-All n))
    ∙ ap (λ k. k % 256) (value-to_string n)
    ∙ mod-eq_of_lt h

-- `Resource::load_json(json::value &j)`
unfoldable pub load_resource : Steps Resource
unfolding atoi8
load_resource =
    Steps.read_string [] (Hop.at_key (codes "Name")) (λ r t. record r { name = t })
    ▸ Steps.read_string [] (Hop.at_key (codes "type")) (λ r t. record r { type = atoi8 t })
    ▸ Steps.read_string [] (Hop.at_key (codes "@odata.id")) (λ r t. record r { odata_id = t })
    ▸ Steps.read_string [] (Hop.at_key (codes "@odata.type")) (λ r t. record r { odata_type = t })
    ▸ Steps.done

-- `get_resource_odata_id_json`: the pointer's `odata.id`, or none for a null pointer.
unfoldable pub link : Option Text → Node
link none = Node.null
link (some uri) = Node.object (Fields.assign (codes "@odata.id") (Node.string uri) Fields.end)

pub record Status : Type 0 where
  pub state : Text
  pub health : Text

unfoldable pub status_json : Status → Node
status_json s = Node.object (
    fields ((codes "State", Node.string s.state) ∷ (codes "Health", Node.string s.health) ∷ [])
      Fields.end)

unfoldable pub load_status : Steps Status
load_status =
    Steps.read_string [] (Hop.at_key (codes "State")) (λ r t. record r { state = t })
    ▸ Steps.read_string [] (Hop.at_key (codes "Health")) (λ r t. record r { health = t })
    ▸ Steps.done

-- An array of strings.
unfoldable pub strings : List Text → Items
strings [] = Items.stop
strings (t ∷ ts) = Items.item (Node.string t) (strings ts)

unfoldable pub items {ℓ} : {A : Type ℓ} → (A → Node) → List A → Items
items f [] = Items.stop
items f (x ∷ xs) = Items.item (f x) (items f xs)

pub record Parameter : Type 0 where
  pub name : Text
  pub allowable_values : List Text

pub record Actions : Type 0 where
  pub name : Text
  pub target : Text
  pub parameters : List Parameter

-- The inner loops of `get_action_info`.
unfoldable pub parameter_fields : List Parameter → Fields
parameter_fields [] = Fields.end
parameter_fields (p ∷ ps) =
    let rest = parameter_fields ps in
    elim p.allowable_values [
      | [] ↦ rest
      | v ∷ vs ↦
          Fields.assign (p.name ++ codes "@Redfish.AllowableValues") (Node.array (strings (v ∷ vs)))
            rest
    ]

unfoldable pub action_fields : List Actions → Fields
action_fields [] = Fields.end
action_fields (a ∷ rest) =
    Fields.assign a.name
      (Node.object
        (Fields.assign (codes "target") (Node.string a.target) (parameter_fields a.parameters)))
      (action_fields rest)

-- `get_action_info`, on the actions in the order in which the map gives them.
unfoldable pub action_info : List Actions → Node
action_info [] = Node.null
action_info (a ∷ rest) = Node.object (action_fields (a ∷ rest))

pub texts_of-strings : (ts : List Text) → texts_of (strings ts) ≡ some ts
unfolding strings texts_of
texts_of-strings [] = refl
texts_of-strings (t ∷ ts) = rw (texts_of-strings ts) refl

pub items_by-items :
    {T : Type 0} (node : T → Node) (f : Node → Option T) (xs : List T)
    → ((x : T) → f (node x) ≡ some x)
    → items_by f (items node xs) ≡ some xs
unfolding items items_by
items_by-items node f [] h = refl
items_by-items node f (x ∷ xs) h = rw (h x) (rw (items_by-items node f xs h) refl)
