-- ===== src/Network/Firewall/Tables.antt =====
-- What the documentation of iptables says of the commands that the program gives it.
use cmm_sdk.Common.{
  ℕ, suc, ◌<◌, ◌≤◌, ◌≡◌, Bool, true, false, List, [], ◌∷◌, ◌++◌, take, drop, length,
}
use cmm_sdk.Common.Text.{Text, codes}
use cmm_sdk.Common.Decimal.{to_string}
use cmm_sdk.Common.Int.{ℤ, pos, negsuc, int_to_string}

-- A port number that iptables takes.
abbrev pub IsPort : ℤ → Type 0
IsPort (pos n) = n ≤ 65535
IsPort (negsuc n) = ⊥

abbrev pub target_of : Bool → Text
target_of true = codes " -j ACCEPT"
target_of false = codes " -j REJECT"

-- The text of a command: `start` ends with the name of the chain, `match` with the option of the port.
abbrev pub rule_cmd : Text → ℕ → Text → ℤ → Bool → Text
rule_cmd start n match port accept =
    start ++ (to_string n ++ (match ++ (int_to_string port ++ target_of accept)))

-- For a port of 0 to 65535, `-I chain n` puts the rule at position `n` of the chain, counted from 1,
-- and `-R chain n` replaces the rule there; `iptables-save` changes no chain. Nothing is said of
-- other ports, which iptables refuses, nor of what other rules the chains hold.
pub record Iptables : Type 1 where
  pub State : Type 0
  pub run : State → Text → State
  pub Rule : Type 0
  pub dport_rule : Bool → ℤ → Rule
  pub sport_rule : Bool → ℤ → Rule
  pub input : State → List Rule
  pub output : State → List Rule
  pub insert_input :
      (s : State) (n : ℕ) (accept : Bool) (port : ℤ)
      → IsPort port
      → n ≤ length (input s)
      → let t =
          run s (
            rule_cmd (codes "iptables -I INPUT ") (suc n) (codes " -p tcp --dport ") port accept) in
        (input t ≡ take n (input s) ++ dport_rule accept port ∷ drop n (input s))
        × (output t ≡ output s)
  pub insert_output :
      (s : State) (n : ℕ) (accept : Bool) (port : ℤ)
      → IsPort port
      → n ≤ length (output s)
      → let t =
          run s (
            rule_cmd
              (codes "iptables -I OUTPUT ")
              (suc n)
              (codes " -p tcp --sport ")
              port
              accept) in
        (output t ≡ take n (output s) ++ sport_rule accept port ∷ drop n (output s))
        × (input t ≡ input s)
  pub replace_input :
      (s : State) (n : ℕ) (accept : Bool) (port : ℤ)
      → IsPort port
      → n < length (input s)
      → let t =
          run s (
            rule_cmd (codes "iptables -R INPUT ") (suc n) (codes " -p tcp --dport ") port accept) in
        (input t ≡ take n (input s) ++ dport_rule accept port ∷ drop (suc n) (input s))
        × (output t ≡ output s)
  pub replace_output :
      (s : State) (n : ℕ) (accept : Bool) (port : ℤ)
      → IsPort port
      → n < length (output s)
      → let t =
          run s (
            rule_cmd
              (codes "iptables -R OUTPUT ")
              (suc n)
              (codes " -p tcp --sport ")
              port
              accept) in
        (output t ≡ take n (output s) ++ sport_rule accept port ∷ drop (suc n) (output s))
        × (input t ≡ input s)
  pub save_keeps :
      (s : State)
      → (input (run s (codes "iptables-save > /etc/iptables.rules")) ≡ input s)
        × (output (run s (codes "iptables-save > /etc/iptables.rules")) ≡ output s)

module _ (T : Iptables) where
  open T use {State, run}

  unfoldable pub run_all : State → List Text → State
  run_all s [] = s
  run_all s (c ∷ cs) = run_all (run s c) cs
