-- ===== src/Util/Split.antt =====
-- `string_split` and `make_path` of src/util.cpp.
pub mod Fields
use cmm_sdk.Common.{
  ℕ, zero, suc, List, [], ◌∷◌, ◌++◌, none, some, ◌==◌, if◌then◌else◌, take, drop, length,
}
use cmm_sdk.Common.Text.{Text, is_empty, find_char}

-- Both guards `sub_string != "" || sub_string != "\0"` compare with the empty text.
pub push_nonempty : List Text → Text → List Text
push_nonempty tokens t = if is_empty t then tokens else tokens ++ t ∷ []

-- The `while` loop; `rest` is the text from `start` on.
pub split_loop : ℕ → ℕ → Text → List Text → List Text
split_loop zero d rest tokens = tokens
split_loop (suc fuel) d rest tokens = elim (find_char d rest) [
  | none ↦ push_nonempty tokens rest
  | some end ↦ split_loop fuel d (drop (suc end) rest) (push_nonempty tokens (take end rest))
]

unfoldable pub string_split : Text → ℕ → List Text
unfolding split_loop push_nonempty find_char is_empty
string_split s d = split_loop (suc (length s)) d s []

-- The `for` loop; `i` is the index of the next token.
pub path_loop : ℕ → Text → List Text → Text
path_loop i path [] = path
path_loop i path (t ∷ ts) =
    path_loop (suc i)
      (if is_empty t then path else if i == 0 then path ++ t else path ++ (b'/' ∷ t)) ts

unfoldable pub make_path : List Text → Text
unfolding path_loop is_empty
make_path = path_loop 0 (b'/' ∷ [])
