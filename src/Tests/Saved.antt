-- ===== src/Tests/Saved.antt =====
-- Resources that are saved and loaded again, with a library whose values are the nodes.
use cmm_sdk.Common.{
  ℕ, ◌≡◌, refl, ap, ◌∙◌, some_inj, Bool, true, false, Option, none, some, List, [], ◌∷◌, ◌++◌,
  if◌then◌else◌,
}
use cmm_sdk.Common.Text.{Text, text_eq}
use cmm_sdk.Redfish.Json.{Json}
use cmm_sdk.Persist.{Node, Fields, Items, Library, IsLawful}

-- A later assignment stands before the earlier ones.
unfoldable pub first_field : Fields → Text → Option Node
first_field Fields.end key = none
first_field (Fields.assign k n fs) key = if text_eq k key then some n else first_field fs key

unfoldable pub has_key : Fields → Text → Bool
has_key Fields.end key = false
has_key (Fields.assign k n fs) key = if text_eq k key then true else has_key fs key

abbrev at_node : Node → Text → Option Node
at_node (Node.object fs) key = first_field fs key
at_node n key = none

abbrev has_node : Node → Text → Bool
has_node (Node.object fs) key = has_key fs key
has_node n key = false

abbrev set_node : Node → Text → Node → Node
set_node (Node.object fs) key x = Node.object (Fields.assign key x fs)
set_node n key x = Node.object (Fields.assign key x Fields.end)

unfoldable pub append_item : Items → Node → Items
append_item Items.stop x = Items.item x Items.stop
append_item (Items.item n xs) x = Items.item n (append_item xs x)

abbrev push_node : Node → Node → Node
push_node (Node.array xs) x = Node.array (append_item xs x)
push_node n x = n

unfoldable pub nodes : Items → List Node
nodes Items.stop = []
nodes (Items.item n xs) = n ∷ nodes xs

abbrev as_nodes : Node → Option (List Node)
as_nodes (Node.array xs) = some (nodes xs)
as_nodes n = none

abbrev as_text : Node → Option Text
as_text (Node.string t) = some t
as_text n = none

abbrev as_flag : Node → Option Bool
as_flag (Node.boolean b) = some b
as_flag n = none

abbrev as_number : Node → Option ℕ
as_number (Node.number k) = some k
as_number n = none

abbrev takes : Node → Bool
takes Node.null = true
takes Node.empty = true
takes (Node.object fs) = true
takes n = false

abbrev none_there : Node → Bool
none_there Node.null = true
none_there n = false

abbrev node_json : Json
node_json = record {
  Value = Node;
  null = Node.null;
  has_field = has_node;
  at_key = at_node;
  find_field = λ n key. some (has_node n key);
  as_string = as_text;
  as_bool = as_flag;
  size = λ n. 0;
  at_index = λ n i. none;
}

abbrev pub node_library : Library
node_library = record {
  json = node_json;
  string_value = Node.string;
  boolean_value = Node.boolean;
  number_value = Node.number;
  object_value = Node.empty;
  array_value = Node.array Items.stop;
  set = set_node;
  push = push_node;
  as_integer = as_number;
  as_array = as_nodes;
  takes_fields = takes;
  is_null = none_there;
}

takes-set : (v : Node) (key : Text) (x : Node) → takes v ≡ true → takes (set_node v key x) ≡ true
takes-set (Node.object fs) key x h = refl
takes-set Node.null key x h = refl
takes-set Node.empty key x h = refl
takes-set (Node.string t) key x h = refl
takes-set (Node.boolean b) key x h = refl
takes-set (Node.number k) key x h = refl
takes-set (Node.array xs) key x h = refl

at_node-set :
    (v : Node) (key other : Text) (x : Node)
    → takes v ≡ true
    → at_node (set_node v key x) other ≡ (if text_eq key other then some x else at_node v other)
unfolding first_field
at_node-set (Node.object fs) key other x h = refl
at_node-set Node.null key other x h = refl
at_node-set Node.empty key other x h = refl
at_node-set (Node.string t) key other x h = refl
at_node-set (Node.boolean b) key other x h = refl
at_node-set (Node.number k) key other x h = refl
at_node-set (Node.array xs) key other x h = refl

has_node-set :
    (v : Node) (key other : Text) (x : Node)
    → takes v ≡ true
    → has_node (set_node v key x) other ≡ (if text_eq key other then true else has_node v other)
unfolding has_key
has_node-set (Node.object fs) key other x h = refl
has_node-set Node.null key other x h = refl
has_node-set Node.empty key other x h = refl
has_node-set (Node.string t) key other x h = refl
has_node-set (Node.boolean b) key other x h = refl
has_node-set (Node.number k) key other x h = refl
has_node-set (Node.array xs) key other x h = refl

nodes-append_item : (xs : Items) (x : Node) → nodes (append_item xs x) ≡ nodes xs ++ x ∷ []
unfolding nodes append_item
nodes-append_item Items.stop x = refl
nodes-append_item (Items.item n xs) x = ap (λ ns. n ∷ ns) (nodes-append_item xs x)

as_nodes-push :
    (v x : Node) (vs : List Node)
    → as_nodes v ≡ some vs
    → as_nodes (push_node v x) ≡ some (vs ++ x ∷ [])
as_nodes-push (Node.array xs) x vs h =
    ap some (nodes-append_item xs x) ∙ ap (λ ns. some (ns ++ x ∷ [])) (some_inj h)
as_nodes-push (Node.object fs) x vs h = cc h
as_nodes-push Node.null x vs h = cc h
as_nodes-push Node.empty x vs h = cc h
as_nodes-push (Node.string t) x vs h = cc h
as_nodes-push (Node.boolean b) x vs h = cc h
as_nodes-push (Node.number k) x vs h = cc h

array_not_null : (v : Node) (vs : List Node) → as_nodes v ≡ some vs → none_there v ≡ false
array_not_null (Node.array xs) vs h = refl
array_not_null (Node.object fs) vs h = refl
array_not_null Node.null vs h = cc h
array_not_null Node.empty vs h = refl
array_not_null (Node.string t) vs h = refl
array_not_null (Node.boolean b) vs h = refl
array_not_null (Node.number k) vs h = refl

pub node_library-IsLawful : IsLawful node_library
unfolding nodes
node_library-IsLawful = record {
  at-null = λ key. refl;
  null-takes = refl;
  set-takes = takes-set;
  at-set = at_node-set;
  has-set = has_node-set;
  as-string = λ t. refl;
  as-boolean = λ b. refl;
  as-number = λ n h. refl;
  as-array = refl;
  as-push = as_nodes-push;
  is-null-array = array_not_null;
}
