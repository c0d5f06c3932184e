-- ===== src/Persist.antt =====
-- How resources are written to JSON and read back: `get_json` and `load_json` of src/resource.cpp.
-- A `Node` is the value that a `get_json` builds, and `Steps` is what a `load_json` does.
pub mod Reads
pub mod Base
pub mod Accounts
pub mod Services
pub mod AccountService
pub mod Events
pub mod Entries
pub mod Logs
pub mod Ethernet
pub mod Protocols
pub mod Made
pub mod Typed
pub mod Restored
pub mod Arrays
pub mod Correct
use cmm_sdk.Common.{
  ℕ, ◌<◌, ◌≡◌, Bool, true, false, ◌&&◌, Option, none, some, List, [], ◌∷◌, ◌++◌, if◌then◌else◌,
}
use cmm_sdk.Common.Text.{Text, text_eq}
use cmm_sdk.Redfish.Json.{Json, get_string, get_bool, get_json, or_default, and_then, when_field}

mutual
  pub data Node : Type 0 where
    null : Node
    string : Text → Node
    boolean : Bool → Node
    number : ℕ → Node
    empty : Node
    object : Fields → Node
    array : Items → Node

  -- `j[key] = value`, one after the other.
  pub data Fields : Type 0 where
    end : Fields
    assign : Text → Node → Fields → Fields

  -- `j[i] = value` for `i` from 0 on.
  pub data Items : Type 0 where
    stop : Items
    item : Node → Items → Items

-- What the program uses of the library to write values and to read numbers and arrays; `none` is a
-- `json_exception`.
pub record Library : Type 1 where
  pub json : Json
  pub string_value : Text → json.Value
  pub boolean_value : Bool → json.Value
  pub number_value : ℕ → json.Value
  -- `json::value::object()`
  pub object_value : json.Value
  -- `json::value::array()`
  pub array_value : json.Value
  -- `v[key] = x`
  pub set : json.Value → Text → json.Value → json.Value
  -- `v[i] = x`, at the end of the array.
  pub push : json.Value → json.Value → json.Value
  pub as_integer : json.Value → Option ℕ
  pub as_array : json.Value → Option (List json.Value)
  -- A null, which the first assignment makes an object, or an object.
  pub takes_fields : json.Value → Bool
  pub is_null : json.Value → Bool

-- What the library's documentation says of reading a value that was written.
pub record IsLawful (L : Library) : Type 0 where
  pub at-null : (key : Text) → L.json.at_key L.json.null key ≡ none
  pub null-takes : L.takes_fields L.json.null ≡ true
  pub set-takes :
      (v : L.json.Value) (key : Text) (x : L.json.Value)
      → L.takes_fields v ≡ true
      → L.takes_fields (L.set v key x) ≡ true
  pub at-set :
      (v : L.json.Value) (key other : Text) (x : L.json.Value)
      → L.takes_fields v ≡ true
      → L.json.at_key (L.set v key x) other
        ≡ (if text_eq key other then some x else L.json.at_key v other)
  pub has-set :
      (v : L.json.Value) (key other : Text) (x : L.json.Value)
      → L.takes_fields v ≡ true
      → L.json.has_field (L.set v key x) other
        ≡ (if text_eq key other then true else L.json.has_field v other)
  pub as-string : (t : Text) → L.json.as_string (L.string_value t) ≡ some t
  pub as-boolean : (b : Bool) → L.json.as_bool (L.boolean_value b) ≡ some b
  pub as-number : (n : ℕ) → n < 2147483648 → L.as_integer (L.number_value n) ≡ some n
  pub as-array : L.as_array L.array_value ≡ some []
  pub as-push :
      (v x : L.json.Value) (vs : List L.json.Value)
      → L.as_array v ≡ some vs
      → L.as_array (L.push v x) ≡ some (vs ++ x ∷ [])
  pub is-null-array :
      (v : L.json.Value) (vs : List L.json.Value) → L.as_array v ≡ some vs → L.is_null v ≡ false

module _ (L : Library) where
  open L use {string_value, boolean_value, number_value, array_value, set, push}

  unfoldable mutual
    -- The value that the assignments make.
    pub make : Node → L.json.Value
    make null = L.json.null
    make (string t) = string_value t
    make (boolean b) = boolean_value b
    make (number n) = number_value n
    make empty = L.object_value
    make (object fs) = set_all fs L.json.null
    make (array xs) = push_all xs array_value

    pub set_all : Fields → L.json.Value → L.json.Value
    set_all end v = v
    set_all (assign key n fs) v = set_all fs (set v key (make n))

    pub push_all : Items → L.json.Value → L.json.Value
    push_all stop v = v
    push_all (item n xs) v = push_all xs (push v (make n))

-- `at(key)`, which throws, or `get_value_from_json_key`, which gives a default.
pub data Hop : Type 0 where
  at_key get_key : Text → Hop

-- What a `load_json` does to a resource of type `S`; the text in each step is the way to the value.
pub data Steps : Type 0 → Type 1 where
  done : {S : Type 0} → Steps S
  read_string : {S : Type 0} → List Hop → Hop → (S → Text → S) → Steps S → Steps S
  read_bool : {S : Type 0} → List Hop → Hop → (S → Bool → S) → Steps S → Steps S
  read_number : {S : Type 0} → List Hop → Hop → (S → ℕ → S) → Steps S → Steps S
  -- The loop over an array of strings; `true` if a null is passed over.
  read_strings : {S : Type 0} → Bool → List Hop → (S → List Text → S) → Steps S → Steps S
  -- The loop over an array of objects, each read into a fresh `T`.
  read_items : {S T : Type 0} → Bool → List Hop → T → Steps T → (S → List T → S) → Steps S → Steps S
  -- What is read of an inner object, into a part of the resource.
  inner : {S T : Type 0} → Hop → (S → T) → (S → T → S) → Steps T → Steps S → Steps S
  -- An assignment that reads nothing.
  update : {S : Type 0} → (S → S) → Steps S → Steps S
  -- `Resource::load_json(j)`, which catches its exceptions and whose result is not looked at.
  inherit : {S T : Type 0} → (S → T) → (S → T → S) → Steps T → Steps S → Steps S

module _ (L : Library) where
  open L use {as_integer, as_array}

  -- The way to an inner value.
  unfoldable pub follow : List Hop → L.json.Value → Option L.json.Value
  follow [] v = some v
  follow (at_key key ∷ hops) v = elim (L.json.at_key v key) [ none ↦ none | some w ↦ follow hops w ]
  follow (get_key key ∷ hops) v = follow hops (get_json L.json v key).1

  -- The last hop, with the default of the overload and the conversion.
  unfoldable pub read_at :
      {A : Type 0} → A → (L.json.Value → Option A) → Hop → L.json.Value → Option A
  read_at d f (at_key key) v = and_then L.json (L.json.at_key v key) f
  read_at d f (get_key key) v =
      some
        (or_default L.json d
          (when_field L.json (L.json.has_field v key) (and_then L.json (L.json.at_key v key) f))).1

  unfoldable pub read_from :
      {A : Type 0} → A → (L.json.Value → Option A) → List Hop → Hop → L.json.Value → Option A
  read_from d f hops hop v = elim (follow hops v) [ none ↦ none | some w ↦ read_at d f hop w ]

  -- The elements up to the first that throws, and whether none did.
  unfoldable pub each_string : List L.json.Value → Bool × List Text
  each_string [] = (true, [])
  each_string (v ∷ vs) =
      let (all, ts) = each_string vs in
      elim (L.json.as_string v) [ none ↦ (false, []) | some t ↦ (all, t ∷ ts) ]

  unfoldable pub each_item :
      {T : Type 0} → (L.json.Value → Bool × T) → List L.json.Value → Bool × List T
  each_item f [] = (true, [])
  each_item f (v ∷ vs) =
      let (all, ts) = each_item f vs in
      let (good, t) = f v in if good then (all, t ∷ ts) else (false, [])

  -- The elements of the array at the end of the way.
  unfoldable pub elements : Bool → List Hop → L.json.Value → Option (List L.json.Value)
  elements guarded hops v = elim (follow hops v) [
    | none ↦ none
    | some w ↦ let all = as_array w in if guarded && L.is_null w then some [] else all
  ]

  -- What follows a loop, if no element threw.
  abbrev pub after_loop : {S T : Type 0} → (T → S) → (S → Bool × S) → Bool × T → Bool × S
  after_loop add rest (true, ts) = rest (add ts)
  after_loop add rest (false, ts) = (false, add ts)

  -- What follows an inner object, if nothing in it threw.
  abbrev pub after_inner : {S T : Type 0} → (T → S) → (S → Bool × S) → Bool × T → Bool × S
  after_inner put rest (true, t) = rest (put t)
  after_inner put rest (false, t) = (false, put t)

  -- Whether no exception was caught, and the resource, up to the step that threw.
  unfoldable pub perform : {S : Type 0} → Steps S → L.json.Value → S → Bool × S
  perform done v s = (true, s)
  perform (read_string hops hop put rest) v s = elim (read_from [] L.json.as_string hops hop v) [
    | none ↦ (false, s)
    | some t ↦ perform rest v (put s t)
  ]
  perform (read_bool hops hop put rest) v s = elim (read_from false L.json.as_bool hops hop v) [
    | none ↦ (false, s)
    | some b ↦ perform rest v (put s b)
  ]
  perform (read_number hops hop put rest) v s = elim (read_from 0 as_integer hops hop v) [
    | none ↦ (false, s)
    | some n ↦ perform rest v (put s n)
  ]
  perform (read_strings guarded hops add rest) v s = elim (elements guarded hops v) [
    | none ↦ (false, s)
    | some vs ↦ after_loop (add s) (perform rest v) (each_string vs)
  ]
  perform (read_items guarded hops fresh steps add rest) v s = elim (elements guarded hops v) [
    | none ↦ (false, s)
    | some vs ↦ after_loop (add s) (perform rest v) (each_item (λ w. perform steps w fresh) vs)
  ]
  perform (inner hop part put steps rest) v s = elim (follow (hop ∷ []) v) [
    | none ↦ (false, s)
    | some w ↦ after_inner (put s) (perform rest v) (perform steps w (part s))
  ]
  perform (update f rest) v s = perform rest v (f s)
  perform (inherit part put steps rest) v s =
      let (_, t) = perform steps v (part s) in perform rest v (put s t)

-- One step, and then others.
infixr 1 ◌▸◌
abbrev pub ◌▸◌ : {S : Type 0} → (Steps S → Steps S) → Steps S → Steps S
f ▸ steps = f steps

-- Assignments, one after the other.
abbrev pub fields : List (Text × Node) → Fields → Fields
fields [] gs = gs
fields (f ∷ fs) gs = assign f.0 f.1 (fields fs gs)
