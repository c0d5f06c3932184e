-- ===== src/Util/Split/Fields.antt =====
-- The loop of `string_split` against a recursive description of the fields of a text.
use cmm_sdk.Common.{
  ℕ, zero, suc, ◌<◌, ◌≡◌, refl, sym, ap, ◌∙◌, ◌≢◌, inl, inr, false, List, [], ◌∷◌, ◌++◌,
  append_assoc, append-nil, none, some, arith, ◌==◌, if◌then◌else◌, take, drop, length, All,
  Option-cases,
}
use cmm_sdk.Common.Text.{Text, is_empty, find_char, IsFree}
use cmm_sdk.Util.Split.{push_nonempty, split_loop, string_split, path_loop, make_path}

abbrev pub cons_head : ℕ → List Text → List Text
cons_head c [] = (c ∷ []) ∷ []
cons_head c (w ∷ ws) = (c ∷ w) ∷ ws

-- The fields between the delimiters, empty ones included.
pub fields : ℕ → Text → List Text
fields d [] = [] ∷ []
fields d (c ∷ s) = if c == d then [] ∷ fields d s else cons_head c (fields d s)

-- The texts that are not empty, in order.
pub nonempty : List Text → List Text
nonempty [] = []
nonempty (t ∷ ts) = if is_empty t then nonempty ts else t ∷ nonempty ts

fields-none : (d : ℕ) (s : Text) → find_char d s ≡ none → fields d s ≡ s ∷ []
unfolding fields find_char
fields-none d [] h = refl
fields-none d (c ∷ s) h = ground (arith, fields-none d s)

fields-some :
    (d : ℕ) (s : Text) (e : ℕ)
    → find_char d s ≡ some e
    → fields d s ≡ take e s ∷ fields d (drop (suc e) s)
unfolding fields find_char
fields-some d [] e h = cc
fields-some d (c ∷ s) zero h = ground (arith)
fields-some d (c ∷ s) (suc e) h = ground (arith, fields-some d s e)

length-drop-lt :
    (d : ℕ) (s : Text) (e : ℕ) → find_char d s ≡ some e → length (drop (suc e) s) < length s
unfolding find_char
length-drop-lt d [] e h = cc
length-drop-lt d (c ∷ s) zero h = omega arith
length-drop-lt d (c ∷ s) (suc e) h = ground (arith, length-drop-lt d s e)

push_nonempty-append :
    (tokens : List Text) (t : Text) (ts : List Text)
    → push_nonempty tokens t ++ nonempty ts ≡ tokens ++ nonempty (t ∷ ts)
unfolding push_nonempty nonempty is_empty
push_nonempty-append tokens [] ts = refl
push_nonempty-append tokens (c ∷ t) ts = append_assoc tokens ((c ∷ t) ∷ []) (nonempty ts)

push_nonempty_last : (ts : List Text) (t : Text) → push_nonempty ts t ≡ ts ++ nonempty (t ∷ [])
unfolding push_nonempty nonempty is_empty
push_nonempty_last ts [] = sym (append-nil ts)
push_nonempty_last ts (c ∷ t) = refl

split_loop-fields :
    (fuel d : ℕ) (s : Text) (tokens : List Text)
    → length s < fuel
    → split_loop fuel d s tokens ≡ tokens ++ nonempty (fields d s)
unfolding split_loop
split_loop-fields zero d s tokens h = elim h [ ]
split_loop-fields (suc fuel) d s tokens h = elim (Option-cases (find_char d s)) [
  | inl e ↦ rw (e, split_loop, fields-none d s e) (push_nonempty_last tokens s)
  | inr (i, e) ↦
      rw (e, split_loop, fields-some d s i e)
        (split_loop-fields fuel d (drop (suc i) s) (push_nonempty tokens (take i s))
            (omega (arith, length-drop-lt d s i e))
          ∙ push_nonempty-append tokens (take i s) (fields d (drop (suc i) s)))
]

-- The loop of `string_split` returns the fields that are not empty, in order.
pub string_split-fields : (s : Text) (d : ℕ) → string_split s d ≡ nonempty (fields d s)
unfolding string_split
string_split-fields s d = split_loop-fields (suc (length s)) d s [] (omega arith)

fields_last : (d : ℕ) (t : Text) → IsFree d t → fields d t ≡ t ∷ []
unfolding fields
fields_last d [] h = refl
fields_last d (c ∷ t) h = ground (arith, fields_last d t h.1)

fields-append : (d : ℕ) (t s : Text) → IsFree d t → fields d (t ++ (d ∷ s)) ≡ t ∷ fields d s
unfolding fields
fields-append d [] s h = ground arith
fields-append d (c ∷ t) s h = ground (arith, fields-append d t s h.1)

-- A token that a path can hold.
abbrev pub IsToken : Text → Type 0
IsToken t = (t ≢ []) × IsFree b'/' t

slashed : List Text → Text
slashed [] = []
slashed (t ∷ ts) = b'/' ∷ (t ++ slashed ts)

suc-eq-zero : (i : ℕ) → (suc i == 0) ≡ false
suc-eq-zero i = ground arith

path_loop-slashed :
    (ts : List Text) (i : ℕ) (path : Text)
    → All IsToken ts
    → path_loop (suc i) path ts ≡ path ++ slashed ts
unfolding path_loop slashed is_empty
path_loop-slashed [] i path h = sym (append-nil path)
path_loop-slashed ([] ∷ ts) i path h = absurd (h.0.0 refl)
path_loop-slashed ((c ∷ t) ∷ ts) i path h =
    rw (suc-eq-zero i) (path_loop-slashed ts (suc i) (path ++ (b'/' ∷ c ∷ t)) h.1)
    ∙ append_assoc path (b'/' ∷ c ∷ t) (slashed ts)

make_path-slashed :
    (t : Text) (ts : List Text) → All IsToken (t ∷ ts) → make_path (t ∷ ts) ≡ slashed (t ∷ ts)
unfolding make_path path_loop slashed is_empty
make_path-slashed [] ts h = absurd (h.0.0 refl)
make_path-slashed (c ∷ t) ts h = path_loop-slashed ts 0 (b'/' ∷ c ∷ t) h.1

fields-slashed :
    (t : Text) (ts : List Text)
    → IsFree b'/' t
    → All IsToken ts
    → fields b'/' (t ++ slashed ts) ≡ t ∷ ts
unfolding slashed
fields-slashed t [] h k = rw append-nil (fields_last b'/' t h)
fields-slashed t (u ∷ us) h k =
    fields-append b'/' t (u ++ slashed us) h ∙ ap (◌∷◌ t) (fields-slashed u us k.0.1 k.1)

nonempty_self : (ts : List Text) → All IsToken ts → nonempty ts ≡ ts
unfolding nonempty is_empty
nonempty_self [] h = refl
nonempty_self ([] ∷ ts) h = absurd (h.0.0 refl)
nonempty_self ((c ∷ t) ∷ ts) h = ap (◌∷◌ (c ∷ t)) (nonempty_self ts h.1)

nonempty_token : (ts : List Text) → All IsToken ts → nonempty ([] ∷ ts) ≡ ts
unfolding nonempty is_empty
nonempty_token ts h = nonempty_self ts h

-- Splitting a path made from tokens that are not empty and hold no slash gives the tokens back.
pub string_split-make_path :
    (ts : List Text) → All IsToken ts → string_split (make_path ts) b'/' ≡ ts
unfolding slashed make_path path_loop string_split
string_split-make_path [] h = refl
string_split-make_path (t ∷ ts) h =
    rw (make_path-slashed t ts h, string_split-fields)
      (ap nonempty (fields-slashed [] (t ∷ ts) tt h) ∙ nonempty_token (t ∷ ts) h)
