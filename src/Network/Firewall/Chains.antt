-- ===== src/Network/Firewall/Chains.antt =====
-- The chains of the firewall behind `init_iptable` and `patch_iptable`.
use cmm_sdk.Common.{
  ℕ, suc, ◌≡◌, refl, sym, ◌∙◌, ap, subst, Bool, List, [], ◌∷◌, ◌++◌, append_assoc, arith, length,
  length-append, map, All,
}
use cmm_sdk.Common.Text.{Text, codes}
use cmm_sdk.Common.Int.{ℤ}
use cmm_sdk.Network.Firewall.{NetworkProtocol, protocol_cmds, init_iptable, patch_iptable}
use cmm_sdk.Network.Firewall.Tables.{IsPort, rule_cmd, Iptables, run_all}
use cmm_sdk.Network.Firewall.Settings.{
  Setting, protocols, HasPorts, cmds, all_protocols-cmds, insert_cmds, replace_cmds,
}
use cmm_sdk.Network.Firewall.Places.{room, room_for, placed, exchanged, snoc-length}

module _ (T : Iptables) where
  open T use {
    State, run, Rule, dport_rule, sport_rule, input, output, insert_input, insert_output,
    replace_input, replace_output, save_keeps,
  }

  abbrev Has : State → List Rule → List Rule → Type 0
  Has s xs ys = (input s ≡ xs) × (output s ≡ ys)

  -- The rules of the settings in the chain INPUT and in the chain OUTPUT.
  abbrev pub input_rules : List Setting → List Rule
  input_rules rs = map (λ r. dport_rule r.0 r.1) rs

  abbrev pub output_rules : List Setting → List Rule
  output_rules rs = map (λ r. sport_rule r.0 r.1) rs

  run_all-append :
      (s : State) (cs ds : List Text) → run_all T s (cs ++ ds) ≡ run_all T (run_all T s cs) ds
  unfolding run_all
  run_all-append s [] ds = refl
  run_all-append s (c ∷ cs) ds = run_all-append (run s c) cs ds

  insert_one :
      (s : State) (b : Bool) (port : ℤ) (p q xs ys : List Rule)
      → IsPort port
      → length q ≡ length p
      → Has s (p ++ xs) (q ++ ys)
      → Has
          (run_all T s (protocol_cmds (codes "I") (suc (length p)) b port))
          (p ++ dport_rule b port ∷ xs)
          (q ++ sport_rule b port ∷ ys)
  unfolding run_all
  insert_one s b port p q xs ys k same (hi, ho) =
      let (i1, o1) = insert_input s (length p) b port k (room (input s) p xs hi) in
      let s1 = run s (
        rule_cmd (codes "iptables -I INPUT ") (suc (length p)) (codes " -p tcp --dport ") port b) in
      let (o2, i2) = insert_output s1 (length q) b port k (room (output s1) q ys (o1 ∙ ho)) in
      let second : ℕ → State = λ n.
        run s1 (rule_cmd (codes "iptables -I OUTPUT ") (suc n) (codes " -p tcp --sport ") port b) in
      let done : Has (second (length q)) (p ++ dport_rule b port ∷ xs)
          (q ++ sport_rule b port ∷ ys) =
        (
          i2 ∙ (i1 ∙ placed (dport_rule b port) (input s) p xs hi),
          o2 ∙ placed (sport_rule b port) (output s1) q ys (o1 ∙ ho),
        ) in
      subst (λ cs. Has (run_all T s cs) (p ++ dport_rule b port ∷ xs) (q ++ sport_rule b port ∷ ys))
        (sym (insert_cmds (suc (length p)) b port))
        (subst (λ n. Has (second n) (p ++ dport_rule b port ∷ xs) (q ++ sport_rule b port ∷ ys))
          same done)

  replace_one :
      (s : State) (b : Bool) (port : ℤ) (u v : Rule) (p q xs ys : List Rule)
      → IsPort port
      → length q ≡ length p
      → Has s (p ++ u ∷ xs) (q ++ v ∷ ys)
      → Has
          (run_all T s (protocol_cmds (codes "R") (suc (length p)) b port))
          (p ++ dport_rule b port ∷ xs)
          (q ++ sport_rule b port ∷ ys)
  unfolding run_all
  replace_one s b port u v p q xs ys k same (hi, ho) =
      let (i1, o1) = replace_input s (length p) b port k (room_for u (input s) p xs hi) in
      let s1 = run s (
        rule_cmd (codes "iptables -R INPUT ") (suc (length p)) (codes " -p tcp --dport ") port b) in
      let (o2, i2) =
        replace_output s1 (length q) b port k (room_for v (output s1) q ys (o1 ∙ ho)) in
      let second : ℕ → State = λ n.
        run s1 (rule_cmd (codes "iptables -R OUTPUT ") (suc n) (codes " -p tcp --sport ") port b) in
      let done : Has (second (length q)) (p ++ dport_rule b port ∷ xs)
          (q ++ sport_rule b port ∷ ys) =
        (
          i2 ∙ (i1 ∙ exchanged (dport_rule b port) u (input s) p xs hi),
          o2 ∙ exchanged (sport_rule b port) v (output s1) q ys (o1 ∙ ho),
        ) in
      subst (λ cs. Has (run_all T s cs) (p ++ dport_rule b port ∷ xs) (q ++ sport_rule b port ∷ ys))
        (sym (replace_cmds (suc (length p)) b port))
        (subst (λ n. Has (second n) (p ++ dport_rule b port ∷ xs) (q ++ sport_rule b port ∷ ys))
          same done)

  -- One protocol, then the others, whose rules follow its own.
  Has-step :
      (s : State) (op : Text) (r : Setting) (rs : List Setting) (p q xs ys : List Rule) (u v : Rule)
      → let s1 = run_all T s (protocol_cmds op (suc (length p)) r.0 r.1) in
        Has
          (run_all T s1 (cmds op (suc (length (p ++ u ∷ []))) rs))
          ((p ++ u ∷ []) ++ xs)
          ((q ++ v ∷ []) ++ ys)
        → Has (run_all T s (cmds op (suc (length p)) (r ∷ rs))) (p ++ u ∷ xs) (q ++ v ∷ ys)
  unfolding cmds
  Has-step s op r rs p q xs ys u v (hi, ho) =
      let first = protocol_cmds op (suc (length p)) r.0 r.1 in
      let same : run_all T s (first ++ cmds op (suc (suc (length p))) rs)
          ≡ run_all T (run_all T s first) (cmds op (suc (length (p ++ u ∷ []))) rs) =
        run_all-append s first (cmds op (suc (suc (length p))) rs)
        ∙ ap (λ n. run_all T (run_all T s first) (cmds op (suc n) rs)) (sym (snoc-length p u)) in
      (
        ap input same ∙ (hi ∙ append_assoc p (u ∷ []) xs),
        ap output same ∙ (ho ∙ append_assoc q (v ∷ []) ys),
      )

  snoc-Has :
      (s : State) (u v : Rule) (p q xs ys : List Rule)
      → Has s (p ++ u ∷ xs) (q ++ v ∷ ys)
      → Has s ((p ++ u ∷ []) ++ xs) ((q ++ v ∷ []) ++ ys)
  snoc-Has s u v p q xs ys (hi, ho) =
      (hi ∙ sym (append_assoc p (u ∷ []) xs), ho ∙ sym (append_assoc q (v ∷ []) ys))

  snoc_same :
      (u v : Rule) (p q : List Rule)
      → length q ≡ length p
      → length (q ++ v ∷ []) ≡ length (p ++ u ∷ [])
  snoc_same u v p q h = omega (arith, h, length-append p (u ∷ []), length-append q (v ∷ []))

  insert_settings :
      (s : State) (rs : List Setting) (p q xs ys : List Rule)
      → All (λ r. IsPort r.1) rs
      → length q ≡ length p
      → Has s (p ++ xs) (q ++ ys)
      → Has
          (run_all T s (cmds (codes "I") (suc (length p)) rs))
          (p ++ (input_rules rs ++ xs))
          (q ++ (output_rules rs ++ ys))
  unfolding run_all cmds
  insert_settings s [] p q xs ys k e (hi, ho) = ((save_keeps s).0 ∙ hi, (save_keeps s).1 ∙ ho)
  insert_settings s (r ∷ rs) p q xs ys k e h =
      let s1 = run_all T s (protocol_cmds (codes "I") (suc (length p)) r.0 r.1) in
      let u = dport_rule r.0 r.1 in
      let v = sport_rule r.0 r.1 in
      Has-step s (codes "I") r rs p q (input_rules rs ++ xs) (output_rules rs ++ ys) u v (
        insert_settings s1 rs (p ++ u ∷ []) (q ++ v ∷ []) xs ys k.1 (snoc_same u v p q e)
          (snoc-Has s1 u v p q xs ys (insert_one s r.0 r.1 p q xs ys k.0 e h)))

  -- As many old rules of either chain as there are new ones.
  replace_settings :
      (s : State) (rs : List Setting) (os ps p q xs ys : List Rule)
      → All (λ r. IsPort r.1) rs
      → length q ≡ length p
      → length os ≡ length rs
      → length ps ≡ length rs
      → Has s (p ++ (os ++ xs)) (q ++ (ps ++ ys))
      → Has
          (run_all T s (cmds (codes "R") (suc (length p)) rs))
          (p ++ (input_rules rs ++ xs))
          (q ++ (output_rules rs ++ ys))
  unfolding run_all cmds
  replace_settings s [] [] [] p q xs ys k e a b (hi, ho) =
      ((save_keeps s).0 ∙ hi, (save_keeps s).1 ∙ ho)
  replace_settings s [] (o ∷ os) ps p q xs ys k e a b h = absurd (omega (arith, a))
  replace_settings s [] [] (o ∷ ps) p q xs ys k e a b h = absurd (omega (arith, b))
  replace_settings s (r ∷ rs) [] ps p q xs ys k e a b h = absurd (omega (arith, a))
  replace_settings s (r ∷ rs) (o ∷ os) [] p q xs ys k e a b h = absurd (omega (arith, b))
  replace_settings s (r ∷ rs) (o ∷ os) (w ∷ ps) p q xs ys k e a b h =
      let s1 = run_all T s (protocol_cmds (codes "R") (suc (length p)) r.0 r.1) in
      let u = dport_rule r.0 r.1 in
      let v = sport_rule r.0 r.1 in
      let old = replace_one s r.0 r.1 o w p q (os ++ xs) (ps ++ ys) k.0 e h in
      Has-step s (codes "R") r rs p q (input_rules rs ++ xs) (output_rules rs ++ ys) u v (
        replace_settings s1 rs os ps (p ++ u ∷ []) (q ++ v ∷ []) xs ys k.1 (snoc_same u v p q e)
          (omega (arith, a)) (omega (arith, b)) (snoc-Has s1 u v p q (os ++ xs) (ps ++ ys) old))

  -- When every port of the settings is from 0 to 65535, the commands of `init_iptable`, run in
  -- order, put the rules of the settings in front of both chains: eight rules in the order of the
  -- indexes, INPUT by destination port and OUTPUT by source port, with the rules that were there
  -- behind them.
  pub init_iptable_lem :
      (net : NetworkProtocol) (s : State)
      → HasPorts net
      → (input (run_all T s (init_iptable net)) ≡ input_rules (protocols net) ++ input s)
        × (output (run_all T s (init_iptable net)) ≡ output_rules (protocols net) ++ output s)
  unfolding init_iptable
  init_iptable_lem net s k =
      rw (all_protocols-cmds net (codes "I"))
        (insert_settings s (protocols net) [] [] (input s) (output s) k refl (refl, refl))

  -- When the rules of some settings stand in front of both chains and every port of the new settings
  -- is from 0 to 65535, the commands of `patch_iptable` replace those rules with the rules of the
  -- new settings and keep the rules behind them.
  pub patch_iptable_lem :
      (old net : NetworkProtocol) (s : State) (xs ys : List Rule)
      → HasPorts net
      → input s ≡ input_rules (protocols old) ++ xs
      → output s ≡ output_rules (protocols old) ++ ys
      → (input (run_all T s (patch_iptable net)) ≡ input_rules (protocols net) ++ xs)
        × (output (run_all T s (patch_iptable net)) ≡ output_rules (protocols net) ++ ys)
  unfolding patch_iptable protocols
  patch_iptable_lem old net s xs ys k hi ho = rw (all_protocols-cmds net (codes "R")) (
      replace_settings s (protocols net) (input_rules (protocols old))
        (output_rules (protocols old)) [] [] xs ys k refl refl refl (hi, ho))
