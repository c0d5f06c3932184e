-- ===== src/Persist/Reads.antt =====
-- Reading a value that was written, by what was written.
use cmm_sdk.Common.{ℕ, ◌<◌, Bool, Option, none, some, List, [], ◌∷◌, if◌then◌else◌}
use cmm_sdk.Common.Text.{Text, text_eq}
use cmm_sdk.Persist.{Node, Fields, Items, Hop, Steps}

-- The last assignment to a key.
unfoldable pub last_field : Fields → Text → Option Node → Option Node
last_field Fields.end key o = o
last_field (Fields.assign k n fs) key o = last_field fs key (if text_eq k key then some n else o)

unfoldable pub node_at : Node → Text → Option Node
node_at (Node.object fs) key = last_field fs key none
node_at n key = none

unfoldable pub follow_node : List Hop → Node → Option Node
follow_node [] n = some n
follow_node (Hop.at_key key ∷ hops) n = elim (node_at n key) [
  | none ↦ none
  | some m ↦ follow_node hops m
]
follow_node (Hop.get_key key ∷ hops) n = elim (node_at n key) [
  | none ↦ none
  | some m ↦ follow_node hops m
]

abbrev pub key_of : Hop → Text
key_of (Hop.at_key key) = key
key_of (Hop.get_key key) = key

unfoldable pub last_node : List Hop → Hop → Node → Option Node
last_node hops hop n = elim (follow_node hops n) [ none ↦ none | some m ↦ node_at m (key_of hop) ]

abbrev pub text_of : Option Node → Option Text
text_of (some (Node.string t)) = some t
text_of _ = none

abbrev pub flag_of : Option Node → Option Bool
flag_of (some (Node.boolean b)) = some b
flag_of _ = none

abbrev pub number_of : Option Node → Option ℕ
number_of (some (Node.number n)) = some n
number_of _ = none

abbrev pub items_of : Option Node → Option Items
items_of (some (Node.array xs)) = some xs
items_of _ = none

unfoldable pub texts_of : Items → Option (List Text)
texts_of Items.stop = some []
texts_of (Items.item n xs) = elim (text_of (some n)) [
  | none ↦ none
  | some t ↦ elim (texts_of xs) [ none ↦ none | some ts ↦ some (t ∷ ts) ]
]

unfoldable pub items_by : {T : Type 0} → (Node → Option T) → Items → Option (List T)
items_by f Items.stop = some []
items_by f (Items.item n xs) = elim (f n) [
  | none ↦ none
  | some t ↦ elim (items_by f xs) [ none ↦ none | some ts ↦ some (t ∷ ts) ]
]

-- The steps on what was written; `none` if a value is missing or has another type.
unfoldable pub run : {S : Type 0} → Steps S → Node → S → Option S
run Steps.done n s = some s
run (Steps.read_string hops hop put rest) n s = elim (text_of (last_node hops hop n)) [
  | none ↦ none
  | some t ↦ run rest n (put s t)
]
run (Steps.read_bool hops hop put rest) n s = elim (flag_of (last_node hops hop n)) [
  | none ↦ none
  | some b ↦ run rest n (put s b)
]
run (Steps.read_number hops hop put rest) n s = elim (number_of (last_node hops hop n)) [
  | none ↦ none
  | some m ↦ run rest n (put s m)
]
run (Steps.read_strings guarded hops add rest) n s = elim (items_of (follow_node hops n)) [
  | none ↦ none
  | some xs ↦ elim (texts_of xs) [ none ↦ none | some ts ↦ run rest n (add s ts) ]
]
run (Steps.read_items guarded hops fresh steps add rest) n s =
    elim (items_of (follow_node hops n)) [
      | none ↦ none
      | some xs ↦ elim (items_by (λ m. run steps m fresh) xs) [
        | none ↦ none
        | some ts ↦ run rest n (add s ts)
      ]
    ]
run (Steps.inner hop part put steps rest) n s = elim (follow_node (hop ∷ []) n) [
  | none ↦ none
  | some m ↦ elim (run steps m (part s)) [ none ↦ none | some t ↦ run rest n (put s t) ]
]
run (Steps.update f rest) n s = run rest n (f s)
run (Steps.inherit part put steps rest) n s = elim (run steps n (part s)) [
  | none ↦ none
  | some t ↦ run rest n (put s t)
]

-- Every number that was written fits an `int`.
unfoldable mutual
  pub Fits : Node → Type 0
  Fits (Node.number n) = n < 2147483648
  Fits (Node.object fs) = AllFit fs
  Fits (Node.array xs) = EachFits xs
  Fits _ = Unit

  pub AllFit : Fields → Type 0
  AllFit Fields.end = Unit
  AllFit (Fields.assign k n fs) = Fits n × AllFit fs

  pub EachFits : Items → Type 0
  EachFits Items.stop = Unit
  EachFits (Items.item n xs) = Fits n × EachFits xs
