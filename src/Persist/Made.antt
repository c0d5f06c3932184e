-- ===== src/Persist/Made.antt =====
-- Finding a node in the value that is made of another.
use cmm_sdk.Common.{
  ◌≡◌, refl, ap, subst, ◌∙◌, Bool, true, false, Option, none, some, List, [], ◌∷◌, if◌then◌else◌,
  Option-cases, inl, inr, some_inj,
}
use cmm_sdk.Common.Text.{Text, text_eq}
use cmm_sdk.Redfish.Json.{get_json}
use cmm_sdk.Persist.{
  Node, Fields, Library, IsLawful, make, set_all, Hop, follow, read_at, read_from,
}
use cmm_sdk.Persist.Reads.{last_field, node_at, follow_node, key_of, last_node, Fits, AllFit}

FitsIn : Option Node → Type 0
FitsIn none = Unit
FitsIn (some m) = Fits m

FitsIn-if :
    (b : Bool) (n : Node) (o : Option Node) → Fits n → FitsIn o → FitsIn (if b then some n else o)
unfolding FitsIn
FitsIn-if true n o h k = h
FitsIn-if false n o h k = k

last_field-FitsIn :
    (fs : Fields) (key : Text) (o : Option Node)
    → AllFit fs
    → FitsIn o
    → FitsIn (last_field fs key o)
unfolding last_field AllFit
last_field-FitsIn Fields.end key o h k = k
last_field-FitsIn (Fields.assign j n fs) key o h k =
    last_field-FitsIn fs key _ h.1 (FitsIn-if (text_eq j key) n o h.0 k)

node_at-FitsIn : (n : Node) (key : Text) → Fits n → FitsIn (node_at n key)
unfolding node_at Fits FitsIn
node_at-FitsIn (Node.object fs) key h = last_field-FitsIn fs key none h tt
node_at-FitsIn Node.null key h = tt
node_at-FitsIn Node.empty key h = tt
node_at-FitsIn (Node.string t) key h = tt
node_at-FitsIn (Node.boolean b) key h = tt
node_at-FitsIn (Node.number n) key h = tt
node_at-FitsIn (Node.array xs) key h = tt

node_at-Fits : (n : Node) (key : Text) (m : Node) → Fits n → node_at n key ≡ some m → Fits m
unfolding FitsIn
node_at-Fits n key m h e = subst FitsIn e (node_at-FitsIn n key h)

module _ (L : Library) (law : IsLawful L) where
  open L use {json}

  made : Option Node → Option json.Value
  made none = none
  made (some n) = some (make L n)

  made-if :
      (b : Bool) (n : Node) (o : Option Node) (r : Option json.Value)
      → r ≡ made o
      → (if b then some (make L n) else r) ≡ made (if b then some n else o)
  unfolding made
  made-if true n o r h = refl
  made-if false n o r h = h

  at-set_all :
      (fs : Fields) (v : json.Value) (key : Text) (o : Option Node)
      → L.takes_fields v ≡ true
      → json.at_key v key ≡ made o
      → json.at_key (set_all L fs v) key ≡ made (last_field fs key o)
  unfolding set_all last_field
  at-set_all Fields.end v key o takes h = h
  at-set_all (Fields.assign k n fs) v key o takes h =
      at-set_all fs (L.set v k (make L n)) key _ (law.set-takes v k (make L n) takes)
        (law.at-set v k key (make L n) takes ∙ made-if (text_eq k key) n o _ h)

  -- A field that is there.
  abbrev Has : Option Node → json.Value → Text → Type 0
  Has o v key = (m : Node) → o ≡ some m → json.has_field v key ≡ true

  Has-if :
      (b : Bool) (n : Node) (o : Option Node) (r : Bool) (m : Node)
      → ((k : Node) → o ≡ some k → r ≡ true)
      → (if b then some n else o) ≡ some m
      → (if b then true else r) ≡ true
  Has-if true n o r m h e = refl
  Has-if false n o r m h e = h m e

  Has-set_all :
      (fs : Fields) (v : json.Value) (key : Text) (o : Option Node)
      → L.takes_fields v ≡ true
      → Has o v key
      → Has (last_field fs key o) (set_all L fs v) key
  unfolding set_all last_field
  Has-set_all Fields.end v key o takes h = h
  Has-set_all (Fields.assign k n fs) v key o takes h =
      Has-set_all fs (L.set v k (make L n)) key _ (law.set-takes v k (make L n) takes)
        (λ m e. law.has-set v k key (make L n) takes ∙ Has-if (text_eq k key) n o _ m h e)

  at-make :
      (n : Node) (key : Text) (m : Node)
      → node_at n key ≡ some m
      → (json.at_key (make L n) key ≡ some (make L m)) × (json.has_field (make L n) key ≡ true)
  unfolding node_at make made
  at-make (Node.object fs) key m h = (
    at-set_all fs json.null key none law.null-takes (law.at-null key) ∙ ap made h,
    Has-set_all fs json.null key none law.null-takes (λ k e. cc e) m h,
  )
  at-make Node.null key m h = cc h
  at-make Node.empty key m h = cc h
  at-make (Node.string t) key m h = cc h
  at-make (Node.boolean b) key m h = cc h
  at-make (Node.number n) key m h = cc h
  at-make (Node.array xs) key m h = cc h

  get_json-make :
      (n : Node) (key : Text) (m : Node)
      → node_at n key ≡ some m
      → (get_json json (make L n) key).1 ≡ make L m
  unfolding get_json
  get_json-make n key m h = let (there, has) = at-make n key m h in rw (has, there) refl

  unfoldable pub Way : List Hop → Node → Node → Type 0
  Way hops n m = (follow L hops (make L n) ≡ some (make L m)) × Fits m

  pub follow-make :
      (hops : List Hop) (n m : Node) → Fits n → follow_node hops n ≡ some m → Way hops n m
  unfolding follow follow_node Way
  follow-make [] n m fits h = (ap (λ o. some (make L o)) (some_inj h), subst Fits (some_inj h) fits)
  follow-make (Hop.at_key key ∷ hops) n m fits h = elim (Option-cases (node_at n key)) [
    | inl e ↦ cc (rw (e, follow_node) at h)
    | inr (k, e) ↦
        let (there, _) = at-make n key k e in
        let rest = follow-make hops k m (node_at-Fits n key k fits e) (rw (e, follow_node) at h) in
        (rw (there, follow) rest.0, rest.1)
  ]
  follow-make (Hop.get_key key ∷ hops) n m fits h = elim (Option-cases (node_at n key)) [
    | inl e ↦ cc (rw (e, follow_node) at h)
    | inr (k, e) ↦
        let rest = follow-make hops k m (node_at-Fits n key k fits e) (rw (e, follow_node) at h) in
        (ap (λ w. follow L hops w) (get_json-make n key k e) ∙ rest.0, rest.1)
  ]

  unfoldable pub Reads :
      {A : Type 0} → A → (json.Value → Option A) → List Hop → Hop → Node → A → Type 0
  Reads d f hops hop n a = read_from L d f hops hop (make L n) ≡ some a

  read_at-make :
      {A : Type 0} (d : A) (f : json.Value → Option A) (hop : Hop) (n m : Node) (a : A)
      → node_at n (key_of hop) ≡ some m
      → f (make L m) ≡ some a
      → read_at L d f hop (make L n) ≡ some a
  unfolding read_at
  read_at-make d f (Hop.at_key key) n m a h e =
      let (there, has) = at-make n key m h in rw (there, e) refl
  read_at-make d f (Hop.get_key key) n m a h e =
      let (there, has) = at-make n key m h in rw (has, there, e) refl

  -- The node at the end of the way, in a value that is read.
  pub read_from-make :
      {A : Type 0} (d : A) (f : json.Value → Option A) (hops : List Hop) (hop : Hop) (n m : Node)
      (a : A)
      → Fits n
      → last_node hops hop n ≡ some m
      → (Fits m → f (make L m) ≡ some a)
      → Reads d f hops hop n a
  unfolding last_node read_from Reads Way
  read_from-make d f hops hop n m a fits h e = elim (Option-cases (follow_node hops n)) [
    | inl gone ↦ cc (rw (gone, last_node) at h)
    | inr (k, found) ↦
        let (way, fits_k) = follow-make hops n k fits found in
        let there : node_at k (key_of hop) ≡ some m = rw (found, last_node) at h in
        rw (way, read_from)
          (read_at-make d f hop k m a there (e (node_at-Fits k (key_of hop) m fits_k there)))
  ]
