-- ===== src/Util/Names.antt =====
-- `get_current_object_name`, `get_parent_object_uri` and `get_extracted_bmc_id_uri` of src/util.cpp.
use cmm_sdk.Common.{
  ℕ, zero, suc, ◌+◌, ◌-◌, ◌≤◌, ◌≡◌, refl, sym, ap, ◌∙◌, true, List, [], ◌∷◌, ◌++◌, Option, none,
  some, arith, ◌==◌, leb, if◌then◌else◌, take, drop, length, take_all, drop_all, length-append,
}
use cmm_sdk.Common.Text.{is_prefix-append, Text, codes, IsFree, rfind, is_prefix}
use cmm_sdk.Util.Split.{string_split}

-- `substr(pos)`: `none` is the exception `out_of_range`.
unfoldable pub substr_from : Text → ℕ → Option Text
substr_from s n = if leb n (length s) then some (drop n s) else none

-- With no match, `npos + delimiter.length()` wraps round to `delimiter.length() - 1`.
unfoldable pub get_current_object_name : Text → Text → Option Text
unfolding substr_from rfind is_prefix
get_current_object_name uri delimiter = elim (rfind delimiter uri) [
  | none ↦ substr_from uri (length delimiter - 1)
  | some i ↦ substr_from uri (i + length delimiter)
]

-- `substr(0, npos)` is the whole text.
unfoldable pub get_parent_object_uri : Text → Text → Text
unfolding rfind is_prefix
get_parent_object_uri uri delimiter = elim (rfind delimiter uri) [
  | none ↦ uri
  | some i ↦ take i uri
]

-- The `for` loop; `i` is the index of the next token.
pub extract_loop : ℕ → List Text → Text → Text
extract_loop i [] new_uri = new_uri
extract_loop i (t ∷ ts) new_uri =
    extract_loop (suc i) ts (if i == 3 then new_uri else new_uri ++ (b'/' ∷ t))

unfoldable pub get_extracted_bmc_id_uri : Text → Text
unfolding extract_loop string_split
get_extracted_bmc_id_uri uri = extract_loop 0 (string_split uri b'/') []

-- A position that `rfind` returns splits the text round the pattern.
pub rfind-append :
    (p s : Text) (i : ℕ) → rfind p s ≡ some i → s ≡ take i s ++ (p ++ drop (length p) (drop i s))
unfolding rfind
rfind-append p [] i h = ground (arith, is_prefix-append p [])
rfind-append p (c ∷ s) zero h = ground (arith, is_prefix-append p (c ∷ s))
rfind-append p (c ∷ s) (suc i) h = ground (arith, rfind-append p s i)

drop-nil : (n : ℕ) → drop {A = ℕ} n [] ≡ []
drop-nil zero = refl
drop-nil (suc n) = refl

pub zero-add : (n : ℕ) → n ≡ 0 + n
zero-add n = omega arith

pub suc-add : (i n : ℕ) → suc (i + n) ≡ suc i + n
suc-add i n = omega arith

pub drop-drop : (i n : ℕ) (s : Text) → drop n (drop i s) ≡ drop (i + n) s
drop-drop zero n s = ap (λ k. drop k s) (zero-add n)
drop-drop (suc i) n [] = drop-nil n ∙ sym (drop-nil (suc i + n))
drop-drop (suc i) n (c ∷ s) = drop-drop i n s ∙ ap (λ k. drop k (c ∷ s)) (suc-add i n)

pub is_prefix-length : (p s : Text) → is_prefix p s ≡ true → length p ≤ length s
unfolding is_prefix
is_prefix-length [] s h = omega arith
is_prefix-length (x ∷ p) [] h = cc
is_prefix-length (x ∷ p) (c ∷ s) h = ground (arith, is_prefix-length p s)

rfind-length : (p s : Text) (i : ℕ) → rfind p s ≡ some i → i + length p ≤ length s
unfolding rfind
rfind-length p [] i h = ground (arith, is_prefix-length p [])
rfind-length p (c ∷ s) zero h = ground (arith, is_prefix-length p (c ∷ s))
rfind-length p (c ∷ s) (suc i) h = ground (arith, rfind-length p s i)

-- Whenever the delimiter stands in the URI, the parent, the delimiter and the name put together
-- are the URI.
pub parent-name-append :
    (uri delimiter : Text) (i : ℕ)
    → rfind delimiter uri ≡ some i
    → (name : Text) × (get_current_object_name uri delimiter ≡ some name)
      × (uri ≡ get_parent_object_uri uri delimiter ++ (delimiter ++ name))
unfolding get_current_object_name get_parent_object_uri substr_from
parent-name-append uri delimiter i h = (
  drop (i + length delimiter) uri,
  ground (arith, rfind-length delimiter uri i h),
  ground (arith, rfind-append delimiter uri i h, drop-drop i (length delimiter) uri),
)

rfind-free : (d : ℕ) (s : Text) → IsFree d s → rfind (d ∷ []) s ≡ none
unfolding rfind is_prefix
rfind-free d [] h = refl
rfind-free d (c ∷ s) h = ground (arith, rfind-free d s h.1)

rfind_last : (d : ℕ) (p s : Text) → IsFree d s → rfind (d ∷ []) (p ++ (d ∷ s)) ≡ some (length p)
unfolding rfind is_prefix
rfind_last d [] s h = ground (arith, rfind-free d s h)
rfind_last d (c ∷ p) s h = ground (arith, rfind_last d p s h)

-- The name and the parent of a URI `parent/name`, for a name with no slash.
pub name_and_parent :
    (parent name : Text)
    → IsFree b'/' name
    → (get_current_object_name (parent ++ (b'/' ∷ name)) (codes "/") ≡ some name)
      × (get_parent_object_uri (parent ++ (b'/' ∷ name)) (codes "/") ≡ parent)
unfolding get_current_object_name get_parent_object_uri substr_from
name_and_parent parent name h = (
  ground (
    arith,
    rfind_last b'/' parent name h,
    length-append parent (b'/' ∷ name),
    drop-drop (length parent) 1 (parent ++ (b'/' ∷ name)),
    drop_all parent (b'/' ∷ name),
  ),
  ground (arith, rfind_last b'/' parent name h, take_all parent (b'/' ∷ name)),
)
