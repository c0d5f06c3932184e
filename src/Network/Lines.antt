-- ===== src/Network/Lines.antt =====
-- Lines of a file, as `read_file_line_by_line` of src/util.cpp reads them: without their newline.
use cmm_sdk.Common.{ℕ, Option, none, some, List, [], ◌∷◌, ◌++◌, get_elem?}
use cmm_sdk.Common.Text.{Text}

-- `append_newline_and_push_back`
abbrev pub newline : Text → Text
newline line = line ++ b'\n' ∷ []

abbrev pub or_zero : Option ℕ → ℕ
or_zero none = 0
or_zero (some c) = c

-- `line[i]` at an index up to the length, where it is the final zero.
abbrev pub char_at : Text → ℕ → ℕ
char_at line i = or_zero (get_elem? line i)

-- Each line with its newline.
abbrev pub newlines : List Text → List Text
newlines [] = []
newlines (l ∷ ls) = newline l ∷ newlines ls
