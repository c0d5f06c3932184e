-- ===== src/Tests/Tables.antt =====
-- A firewall that reads the commands, and the settings of the protocols on it.
use cmm_sdk.Common.{
  ℕ, suc, ◌-◌, ◌≤◌, leb, ◌≡◌, refl, ap, Bool, true, false, List, [], ◌∷◌, ◌++◌, take, drop, All,
  arith, if◌then◌else◌,
}
use cmm_sdk.Common.Text.{Text, codes, is_prefix, text_eq}
use cmm_sdk.Common.Decimal.{is_digit, IsDigit, value, to_string, value-to_string, to_string-All}
use cmm_sdk.Common.Int.{ℤ, int_to_string}
use cmm_sdk.Network.Firewall.{NetworkProtocol, init_iptable, patch_iptable}
use cmm_sdk.Network.Firewall.Tables.{IsPort, target_of, rule_cmd, Iptables, run_all}
use cmm_sdk.Network.Firewall.Settings.{protocols, HasPorts}
use cmm_sdk.Network.Firewall.Chains.{input_rules, output_rules, init_iptable_lem, patch_iptable_lem}

digits_of : Text → Text
digits_of [] = []
digits_of (c ∷ s) = let ds = digits_of s in if is_digit c then c ∷ ds else []

after_digits : Text → Text
after_digits [] = []
after_digits (c ∷ s) = let r = after_digits s in if is_digit c then r else c ∷ s

digits_of-append :
    (ds : Text) (c : ℕ) (s : Text)
    → All IsDigit ds
    → is_digit c ≡ false
    → digits_of (ds ++ c ∷ s) ≡ ds
unfolding digits_of
digits_of-append [] c s h k = rw k
digits_of-append (d ∷ ds) c s h k = ground (arith, digits_of-append ds c s h.1 k)

after_digits-append :
    (ds : Text) (c : ℕ) (s : Text)
    → All IsDigit ds
    → is_digit c ≡ false
    → after_digits (ds ++ c ∷ s) ≡ c ∷ s
unfolding after_digits
after_digits-append [] c s h k = rw k
after_digits-append (d ∷ ds) c s h k = ground (arith, after_digits-append ds c s h.1 k)

-- ` -p tcp --dport ` and ` -p tcp --sport ` have 16 characters.
port_part : Text → Text
unfolding after_digits
port_part s = drop 16 (after_digits s)

index_of : Text → ℕ
unfolding digits_of value
index_of s = value (digits_of s)

abbrev dport : Text
dport = codes " -p tcp --dport "

abbrev sport : Text
sport = codes " -p tcp --sport "

-- Whether it is a rule for the destination port, whether it accepts, and the port.
abbrev Rule : Type 0
Rule = Bool × Bool × ℤ

rule_of : Text → Rule
unfolding port_part digits_of after_digits value text_eq is_prefix
rule_of s = (
  is_prefix dport (after_digits s),
  text_eq (after_digits (port_part s)) (codes " -j ACCEPT"),
  ℤ.pos (value (digits_of (port_part s))),
)

takes_port : Rule → Bool
takes_port (d, b, ℤ.pos n) = leb n 65535
takes_port (d, b, ℤ.negsuc n) = false

abbrev Chains : Type 0
Chains = List Rule × List Rule

-- A rule with another port is refused.
insert_at : ℕ → Rule → List Rule → List Rule
insert_at n r xs = if takes_port r then take (n - 1) xs ++ r ∷ drop (n - 1) xs else xs

replace_at : ℕ → Rule → List Rule → List Rule
replace_at n r xs = if takes_port r then take (n - 1) xs ++ r ∷ drop n xs else xs

run_one : Chains → Text → Chains
unfolding is_prefix insert_at replace_at index_of rule_of
run_one (xs, ys) t =
    if is_prefix (codes "iptables -I INPUT ") t
    then (insert_at (index_of (drop 18 t)) (rule_of (drop 18 t)) xs, ys)
    else if is_prefix (codes "iptables -I OUTPUT ") t
    then (xs, insert_at (index_of (drop 19 t)) (rule_of (drop 19 t)) ys)
    else if is_prefix (codes "iptables -R INPUT ") t
    then (replace_at (index_of (drop 18 t)) (rule_of (drop 18 t)) xs, ys)
    else if is_prefix (codes "iptables -R OUTPUT ") t
    then (xs, replace_at (index_of (drop 19 t)) (rule_of (drop 19 t)) ys)
    else (xs, ys)

-- A command's text behind the name of its chain, with `c ∷ m` for the option of the port.
abbrev tail_of : Text → ℕ → ℕ → Bool → Text
tail_of match n port accept = to_string n ++ (match ++ (to_string port ++ target_of accept))

target-after :
    (port : ℕ) (accept : Bool)
    → after_digits (to_string port ++ target_of accept) ≡ target_of accept
target-after port true =
    after_digits-append (to_string port) b' ' (codes "-j ACCEPT") (to_string-All port) refl
target-after port false =
    after_digits-append (to_string port) b' ' (codes "-j REJECT") (to_string-All port) refl

target-digits :
    (port : ℕ) (accept : Bool) → digits_of (to_string port ++ target_of accept) ≡ to_string port
target-digits port true =
    digits_of-append (to_string port) b' ' (codes "-j ACCEPT") (to_string-All port) refl
target-digits port false =
    digits_of-append (to_string port) b' ' (codes "-j REJECT") (to_string-All port) refl

target-accept : (accept : Bool) → text_eq (target_of accept) (codes " -j ACCEPT") ≡ accept
unfolding text_eq
target-accept true = refl
target-accept false = refl

read_dport :
    (n port : ℕ) (accept : Bool)
    → (index_of (tail_of dport n port accept) ≡ n)
      × (rule_of (tail_of dport n port accept) ≡ (true, accept, ℤ.pos port))
unfolding index_of rule_of port_part is_prefix
read_dport n port accept =
    let rest = to_string port ++ target_of accept in
    let d =
      digits_of-append (to_string n) b' ' (codes "-p tcp --dport " ++ rest) (to_string-All n)
        refl in
    let a =
      after_digits-append (to_string n) b' ' (codes "-p tcp --dport " ++ rest) (to_string-All n)
        refl in
    (
      rw (d, value-to_string n) refl,
      rw
          (
            a,
            target-after port accept,
            target-digits port accept,
            target-accept accept,
            value-to_string port,
          )
          refl,
    )

read_sport :
    (n port : ℕ) (accept : Bool)
    → (index_of (tail_of sport n port accept) ≡ n)
      × (rule_of (tail_of sport n port accept) ≡ (false, accept, ℤ.pos port))
unfolding index_of rule_of port_part is_prefix
read_sport n port accept =
    let rest = to_string port ++ target_of accept in
    let d =
      digits_of-append (to_string n) b' ' (codes "-p tcp --sport " ++ rest) (to_string-All n)
        refl in
    let a =
      after_digits-append (to_string n) b' ' (codes "-p tcp --sport " ++ rest) (to_string-All n)
        refl in
    (
      rw (d, value-to_string n) refl,
      rw
          (
            a,
            target-after port accept,
            target-digits port accept,
            target-accept accept,
            value-to_string port,
          )
          refl,
    )

suc_minus : (n : ℕ) → suc n - 1 ≡ n
suc_minus n = omega arith

takes_port-IsPort : (d b : Bool) (port : ℕ) → port ≤ 65535 → takes_port (d, b, ℤ.pos port) ≡ true
unfolding takes_port
takes_port-IsPort d b port h = ground (arith, h)

insert_at-takes_port :
    (n : ℕ) (r : Rule) (xs : List Rule)
    → takes_port r ≡ true
    → insert_at (suc n) r xs ≡ take n xs ++ r ∷ drop n xs
unfolding insert_at
insert_at-takes_port n r xs h = rw (h, suc_minus n) refl

replace_at-takes_port :
    (n : ℕ) (r : Rule) (xs : List Rule)
    → takes_port r ≡ true
    → replace_at (suc n) r xs ≡ take n xs ++ r ∷ drop (suc n) xs
unfolding replace_at
replace_at-takes_port n r xs h = rw (h, suc_minus n) refl

insert_input_law :
    (s : Chains) (n : ℕ) (accept : Bool) (port : ℤ)
    → IsPort port
    → let t = run_one s (rule_cmd (codes "iptables -I INPUT ") (suc n) dport port accept) in
      (t.0 ≡ take n s.0 ++ (true, accept, port) ∷ drop n s.0) × (t.1 ≡ s.1)
unfolding run_one is_prefix int_to_string
insert_input_law s n accept (ℤ.pos port) h =
    let (i, r) = read_dport (suc n) port accept in
    let k = takes_port-IsPort true accept port h in
    (rw (i, r, insert_at-takes_port n (true, accept, ℤ.pos port) s.0 k) refl, refl)
insert_input_law s n accept (ℤ.negsuc port) h = absurd h

insert_output_law :
    (s : Chains) (n : ℕ) (accept : Bool) (port : ℤ)
    → IsPort port
    → let t = run_one s (rule_cmd (codes "iptables -I OUTPUT ") (suc n) sport port accept) in
      (t.1 ≡ take n s.1 ++ (false, accept, port) ∷ drop n s.1) × (t.0 ≡ s.0)
unfolding run_one is_prefix int_to_string
insert_output_law s n accept (ℤ.pos port) h =
    let (i, r) = read_sport (suc n) port accept in
    let k = takes_port-IsPort false accept port h in
    (rw (i, r, insert_at-takes_port n (false, accept, ℤ.pos port) s.1 k) refl, refl)
insert_output_law s n accept (ℤ.negsuc port) h = absurd h

replace_input_law :
    (s : Chains) (n : ℕ) (accept : Bool) (port : ℤ)
    → IsPort port
    → let t = run_one s (rule_cmd (codes "iptables -R INPUT ") (suc n) dport port accept) in
      (t.0 ≡ take n s.0 ++ (true, accept, port) ∷ drop (suc n) s.0) × (t.1 ≡ s.1)
unfolding run_one is_prefix int_to_string
replace_input_law s n accept (ℤ.pos port) h =
    let (i, r) = read_dport (suc n) port accept in
    let k = takes_port-IsPort true accept port h in
    (rw (i, r, replace_at-takes_port n (true, accept, ℤ.pos port) s.0 k) refl, refl)
replace_input_law s n accept (ℤ.negsuc port) h = absurd h

replace_output_law :
    (s : Chains) (n : ℕ) (accept : Bool) (port : ℤ)
    → IsPort port
    → let t = run_one s (rule_cmd (codes "iptables -R OUTPUT ") (suc n) sport port accept) in
      (t.1 ≡ take n s.1 ++ (false, accept, port) ∷ drop (suc n) s.1) × (t.0 ≡ s.0)
unfolding run_one is_prefix int_to_string
replace_output_law s n accept (ℤ.pos port) h =
    let (i, r) = read_sport (suc n) port accept in
    let k = takes_port-IsPort false accept port h in
    (rw (i, r, replace_at-takes_port n (false, accept, ℤ.pos port) s.1 k) refl, refl)
replace_output_law s n accept (ℤ.negsuc port) h = absurd h

save_law : (s : Chains) → run_one s (codes "iptables-save > /etc/iptables.rules") ≡ s
unfolding run_one is_prefix
save_law s = refl

abbrev tables : Iptables
tables = record {
  State = Chains;
  run = run_one;
  input = λ s. s.0;
  output = λ s. s.1;
  Rule = Rule;
  dport_rule = λ b z. (true, b, z);
  sport_rule = λ b z. (false, b, z);
  insert_input = λ s n accept port k h. insert_input_law s n accept port k;
  insert_output = λ s n accept port k h. insert_output_law s n accept port k;
  replace_input = λ s n accept port k h. replace_input_law s n accept port k;
  replace_output = λ s n accept port k h. replace_output_law s n accept port k;
  save_keeps = λ s. (ap (λ t. t.0) (save_law s), ap (λ t. t.1) (save_law s));
}

abbrev settings : NetworkProtocol
settings = record {
  http_enabled = false;
  http_port = ℤ.pos 80;
  https_enabled = true;
  https_port = ℤ.pos 443;
  snmp_enabled = true;
  snmp_port = ℤ.pos 161;
  ipmi_enabled = true;
  ipmi_port = ℤ.pos 623;
  kvmip_enabled = false;
  kvmip_port = ℤ.pos 5900;
  ssh_enabled = true;
  ssh_port = ℤ.pos 22;
  virtual_media_enabled = false;
  virtual_media_port = ℤ.pos 17988;
  ntp_enabled = true;
  ntp_port = ℤ.pos 123;
}

abbrev no_ssh : NetworkProtocol
no_ssh = record settings { ssh_enabled = false }

abbrev empty_chains : Chains
empty_chains = ([], [])

settings-HasPorts : HasPorts settings
unfolding protocols
settings-HasPorts = (
  omega arith,
  (
    omega arith,
    (omega arith, (omega arith, (omega arith, (omega arith, (omega arith, (omega arith, tt)))))),
  ),
)

no_ssh-HasPorts : HasPorts no_ssh
unfolding protocols
no_ssh-HasPorts = (
  omega arith,
  (
    omega arith,
    (omega arith, (omega arith, (omega arith, (omega arith, (omega arith, (omega arith, tt)))))),
  ),
)

init_iptable_lem_example :
    ((run_all tables empty_chains (init_iptable settings)).0
      ≡ input_rules tables (protocols settings) ++ [])
    × ((run_all tables empty_chains (init_iptable settings)).1
        ≡ output_rules tables (protocols settings) ++ [])
init_iptable_lem_example = init_iptable_lem tables settings empty_chains settings-HasPorts

abbrev full_chains : Chains
full_chains =
    (input_rules tables (protocols settings) ++ [], output_rules tables (protocols settings) ++ [])

patch_iptable_lem_example :
    ((run_all tables full_chains (patch_iptable no_ssh)).0
      ≡ input_rules tables (protocols no_ssh) ++ [])
    × ((run_all tables full_chains (patch_iptable no_ssh)).1
        ≡ output_rules tables (protocols no_ssh) ++ [])
patch_iptable_lem_example =
    patch_iptable_lem tables settings no_ssh full_chains [] [] no_ssh-HasPorts refl refl
