-- ===== src/Network/Interfaces/Edit.antt =====
-- `change_interface_file` makes one edit and keeps every other line.
use cmm_sdk.Common.{
  ℕ, ◌+◌, ◌≡◌, ◌≢◌, true, false, none, some, List, [], ◌∷◌, ◌++◌, length, take, ◌⊎◌,
}
use cmm_sdk.Common.Text.{Text}
use cmm_sdk.Network.Lines.{newline, newlines, char_at}
use cmm_sdk.Network.Interfaces.{
  find_ethernet_dev_block, find_ethernet_keyword, keyword_part, keyword_whole, Editor, edit_lines,
  finish,
}

module _ (dev keyword value : Text) where
  -- How the lines written differ from the lines read, behind the head of the block.
  pub data BlockEdit : List Text → List Text → Type 0 where
    -- The value behind the keyword is replaced, on one line that is no comment.
    replaced :
        (line : Text) (post : List Text) (pos : ℕ)
        → find_ethernet_keyword line keyword ≡ some pos
        → char_at line 0 ≢ b'#'
        → BlockEdit
            (line ∷ post)
            (newline (take (pos + length keyword + 1) line ++ value) ∷ newlines post)
    -- The keyword is inserted in front of the next block.
    inserted :
        (line : Text) (post : List Text)
        → find_ethernet_dev_block line [] ≡ true
        → BlockEdit (line ∷ post) (keyword_part keyword value ++ newlines (line ∷ post))
    -- The file ends with the block.
    appended : BlockEdit [] (keyword_part keyword value)
    -- A comment, or a line with neither the keyword nor the head of a block.
    kept :
        {ls out : List Text} (line : Text)
        → (char_at line 0 ≡ b'#')
          ⊎ ((find_ethernet_keyword line keyword ≡ none)
              × (find_ethernet_dev_block line [] ≡ false))
        → BlockEdit ls out
        → BlockEdit (line ∷ ls) (newline line ∷ out)

  -- The same for the whole file.
  pub data FileEdit : List Text → List Text → Type 0 where
    in_dev_block :
        (line : Text) {ls out : List Text}
        → find_ethernet_dev_block line dev ≡ true
        → char_at line 0 ≢ b'#'
        → BlockEdit ls out
        → FileEdit (line ∷ ls) (newline line ∷ out)
    no_block : FileEdit [] (keyword_whole dev keyword value)
    before :
        {ls out : List Text} (line : Text)
        → (char_at line 0 ≡ b'#') ⊎ (find_ethernet_dev_block line dev ≡ false)
        → FileEdit ls out
        → FileEdit (line ∷ ls) (newline line ∷ out)

  -- The lines that come out behind `e` are those of `out`.
  abbrev Gives : Editor → List Text → (List Text → Type 0) → Type 0
  Gives e ls P =
      (out : List Text) × (finish dev keyword value (edit_lines dev keyword value e ls)
        ≡ e.lines_write ++ out)
      × P out
