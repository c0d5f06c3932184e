-- ===== src/Network/Interfaces.antt =====
-- `change_interface_file` of src/ethernetinterface.cpp, from the lines read to the lines written.
pub mod Edit
use cmm_sdk.Common.{
  ℕ, suc, ◌+◌, ◌-◌, Bool, true, false, not, ◌&&◌, ◌||◌, Option, none, some, List, [], ◌∷◌, ◌++◌,
  ◌==◌, ltb, leb, if◌then◌else◌, length, take,
}
use cmm_sdk.Common.Text.{Text, codes, find, is_empty}
use cmm_sdk.Network.Lines.{newline, char_at}

pub is_found : Option ℕ → Bool
is_found none = false
is_found (some i) = true

unfoldable pub find_ethernet_dev_block : Text → Text → Bool
unfolding is_found is_empty find
find_ethernet_dev_block line dev =
    let searching_str =
      if not (is_empty dev)
      then codes "iface " ++ (dev ++ codes " inet static")
      else codes "auto " in
    is_found (find searching_str line)

-- `some pos`: the keyword stands at `pos`, between two blanks.
pub keyword_at : Text → Text → Option ℕ → Option ℕ
keyword_at line keyword none = none
keyword_at line keyword (some pos) =
    if pos == 0 || leb (length line) (pos + length keyword)
    then none
    else if not (char_at line (pos - 1) == b' ')
        || not (char_at line (pos + length keyword) == b' ')
    then none
    else some pos

unfoldable pub find_ethernet_keyword : Text → Text → Option ℕ
unfolding keyword_at find
find_ethernet_keyword line keyword = keyword_at line keyword (find keyword line)

-- `add_keyword_part_to_interface_file`
abbrev pub keyword_part : Text → Text → List Text
keyword_part keyword value = newline (codes "  " ++ (keyword ++ (codes " " ++ value))) ∷ []

-- `add_keyword_whole_to_interface_file`
abbrev pub keyword_whole : Text → Text → Text → List Text
keyword_whole dev keyword value =
    codes "\n"
    ∷ (codes "auto " ++ (dev ++ codes "\n"))
    ∷ (codes "iface " ++ (dev ++ codes " inet static\n"))
    ∷ keyword_part keyword value

pub record Editor : Type 0 where
  pub found_dev_block : Bool
  pub found_another_block : Bool
  pub changed_keyword_value : Bool
  pub lines_write : List Text

pub push : Editor → List Text → Editor
push e ls = record e { lines_write = e.lines_write ++ ls }

module _ (dev keyword value : Text) where
  -- The end of the round: a line that starts another block gets the keyword in front of it.
  pub pass_line : Editor → Text → Bool → Editor
  unfolding push
  pass_line e line false = push e (newline line ∷ [])
  pass_line e line true =
      push
        (record (push e (keyword_part keyword value)) {
          found_another_block = true;
          changed_keyword_value = true;
        })
        (newline line ∷ [])

  pub set_value : Editor → Text → ℕ → Editor
  unfolding push
  set_value e line pos =
      record (push e (newline (take (pos + length keyword + 1) line ++ value) ∷ [])) {
        changed_keyword_value = true;
      }

  -- A line behind the head of the block.
  pub in_block : Editor → Text → Option ℕ → Editor
  unfolding pass_line set_value
  in_block e line (some pos) = set_value e line pos
  in_block e line none = pass_line e line (find_ethernet_dev_block line [])

  -- The body of the loop.
  pub edit_line : Editor → Text → Editor
  unfolding in_block push
  edit_line e line =
      if char_at line 0 == b'#' || e.changed_keyword_value
      then push e (newline line ∷ [])
      else if not e.found_dev_block
      then push (record e { found_dev_block = find_ethernet_dev_block line dev })
          (newline line ∷ [])
      else in_block e line
          (if not e.found_another_block then find_ethernet_keyword line keyword else none)

  pub edit_lines : Editor → List Text → Editor
  unfolding edit_line
  edit_lines e [] = e
  edit_lines e (line ∷ ls) = edit_lines (edit_line e line) ls

  -- What is added behind the loop.
  pub finish : Editor → List Text
  finish e =
      if e.changed_keyword_value
      then e.lines_write
      else if not e.found_dev_block
      then e.lines_write ++ keyword_whole dev keyword value
      else if not e.found_another_block
      then e.lines_write ++ keyword_part keyword value
      else e.lines_write

  unfoldable pub change_interface_file : List Text → List Text
  unfolding edit_lines finish
  change_interface_file lines_work = finish (
      edit_lines
        (record {
          found_dev_block = false;
          found_another_block = false;
          changed_keyword_value = false;
          lines_write = [];
        })
        lines_work)
