-- ===== src/Persist/Arrays.antt =====
-- The elements of an array that is made of items.
use cmm_sdk.Common.{
  ◌≡◌, sym, ap, ◌∙◌, Bool, true, false, ◌&&◌, Option, some, List, [], ◌∷◌, ◌++◌, append_assoc,
  append-nil, if◌then◌else◌, Option-cases, inl, inr, some_inj, arith,
}
use cmm_sdk.Common.Text.{Text}
use cmm_sdk.Persist.{
  Node, Items, Library, IsLawful, make, push_all, Hop, each_string, each_item, elements,
}
use cmm_sdk.Persist.Reads.{follow_node, items_of, texts_of, items_by, Fits, EachFits}
use cmm_sdk.Persist.Made.{follow-make, Way}
use cmm_sdk.Persist.Typed.{items_at}

not_null : (guarded null : Bool) → null ≡ false → (guarded && null) ≡ false
not_null guarded null h = ground arith

if-not : {A : Type 0} {y z : A} (x : A) (b : Bool) → b ≡ false → y ≡ z → (if b then x else y) ≡ z
if-not x true h e = cc h
if-not x false h e = e

module _ (L : Library) (law : IsLawful L) where
  open L use {json}

  unfoldable pub values : Items → List json.Value
  values Items.stop = []
  values (Items.item n xs) = make L n ∷ values xs

  array-push_all :
      (xs : Items) (v : json.Value) (vs : List json.Value)
      → L.as_array v ≡ some vs
      → L.as_array (push_all L xs v) ≡ some (vs ++ values xs)
  unfolding push_all values
  array-push_all Items.stop v vs h = h ∙ ap some (sym (append-nil vs))
  array-push_all (Items.item n xs) v vs h =
      array-push_all xs (L.push v (make L n)) (vs ++ make L n ∷ []) (law.as-push v (make L n) vs h)
      ∙ ap some (append_assoc vs (make L n ∷ []) (values xs))

  pub elements-make :
      (guarded : Bool) (hops : List Hop) (n : Node) (xs : Items)
      → Fits n
      → items_of (follow_node hops n) ≡ some xs
      → (elements L guarded hops (make L n) ≡ some (values xs)) × EachFits xs
  unfolding elements make Fits Way
  elements-make guarded hops n xs fits h =
      let (way, fits_xs) = follow-make L law hops n (Node.array xs) fits (items_at _ xs h) in
      let whole = array-push_all xs L.array_value [] law.as-array in
      (
        rw (way, elements)
            (if-not _ (guarded && L.is_null (push_all L xs L.array_value))
              (not_null guarded _ (law.is-null-array _ _ whole)) whole),
        fits_xs,
      )

  pub each_string-make :
      (xs : Items) (ts : List Text) → texts_of xs ≡ some ts → each_string L (values xs) ≡ (true, ts)
  unfolding texts_of each_string values make
  each_string-make Items.stop ts h = ap (λ r. (true, r)) (some_inj h)
  each_string-make (Items.item (Node.string t) xs) ts h = elim (Option-cases (texts_of xs)) [
    | inl e ↦ cc (rw (e, texts_of) at h)
    | inr (rest, e) ↦
        let same = some_inj (rw (e, texts_of) at h) in
        rw (law.as-string t, each_string-make xs rest e) (ap (λ r. (true, r)) same)
  ]
  each_string-make (Items.item Node.null xs) ts h = cc h
  each_string-make (Items.item Node.empty xs) ts h = cc h
  each_string-make (Items.item (Node.boolean b) xs) ts h = cc h
  each_string-make (Items.item (Node.number n) xs) ts h = cc h
  each_string-make (Items.item (Node.object fs) xs) ts h = cc h
  each_string-make (Items.item (Node.array ys) xs) ts h = cc h

  pub each_item-make :
      {T : Type 0} (f : Node → Option T) (g : json.Value → Bool × T) (xs : Items) (ts : List T)
      → ((n : Node) (t : T) → Fits n → f n ≡ some t → g (make L n) ≡ (true, t))
      → EachFits xs
      → items_by f xs ≡ some ts
      → each_item L g (values xs) ≡ (true, ts)
  unfolding items_by each_item values EachFits
  each_item-make f g Items.stop ts good fits h = ap (λ r. (true, r)) (some_inj h)
  each_item-make f g (Items.item n xs) ts good fits h = elim (Option-cases (f n)) [
    | inl e ↦ cc (rw (e, items_by) at h)
    | inr (t, e) ↦ elim (Option-cases (items_by f xs)) [
      | inl e2 ↦ cc (rw (e2, items_by) at (rw (e, items_by) at h))
      | inr (rest, e2) ↦
          let same = some_inj (rw (e2, items_by) at (rw (e, items_by) at h)) in
          rw (good n t fits.0 e, each_item-make f g xs rest good fits.1 e2)
            (ap (λ r. (true, r)) same)
    ]
  ]
