-- ===== src/Network/Hosts.antt =====
-- `change_hosts_file` of src/ethernetinterface.cpp, from the lines read to the lines written.
pub mod Rename
use cmm_sdk.Common.{
  ℕ, suc, ◌+◌, ◌-◌, Bool, true, false, ◌&&◌, ◌||◌, Option, none, some, List, [], ◌∷◌, ◌++◌, ◌==◌,
  if◌then◌else◌, length, take,
}
use cmm_sdk.Common.Text.{Text, find}
use cmm_sdk.Network.Lines.{newline, char_at}

pub is_blank : ℕ → Bool
is_blank c = c == b' ' || c == b'\t'

module _ (target new : Text) where
  pub host_at : Text → Option ℕ → Text
  unfolding is_blank
  host_at line none = newline line
  host_at line (some pos) =
      if pos == 0
      then newline line
      else if is_blank (char_at line (pos - 1)) && (pos + length target) == length line
      then newline (take pos line ++ new)
      else newline line

  -- The body of the loop.
  unfoldable pub host_line : Text → Text
  unfolding host_at
  host_line line = host_at line (find target line)

  unfoldable pub change_hosts_file : List Text → List Text
  change_hosts_file [] = []
  change_hosts_file (line ∷ ls) = host_line line ∷ change_hosts_file ls
