-- ===== src/Network/Hosts/Rename.antt =====
-- What `change_hosts_file` does to each line.
use cmm_sdk.Common.{
  length-drop, ℕ, zero, suc, ◌+◌, ◌-◌, ◌≡◌, ◌≢◌, refl, sym, ◌∙◌, ap, subst, true, false, some, List,
  [], ◌∷◌, ◌++◌, ◌==◌, length, take, drop, arith, ◌⊎◌, inl, inr, Bool-cases, Option-cases, ==_iff,
  append-nil, ◌≤◌,
}
use cmm_sdk.Common.Text.{is_prefix-append, Text, find}
use cmm_sdk.Network.Lines.{newline, char_at}
use cmm_sdk.Network.Hosts.{is_blank, host_at, host_line, change_hosts_file}

find-append :
    (p s : Text) (i : ℕ) → find p s ≡ some i → s ≡ take i s ++ (p ++ drop (length p) (drop i s))
unfolding find
find-append p [] i h = ground (arith, is_prefix-append p [])
find-append p (c ∷ s) zero h = ground (arith, is_prefix-append p (c ∷ s))
find-append p (c ∷ s) (suc i) h = ground (arith, find-append p s i)

not_small : (n : ℕ) → ¬ (suc n ≤ 0)
not_small n = omega arith

drop_short : (n : ℕ) (s : Text) → length s ≤ n → drop n s ≡ []
drop_short zero [] h = refl
drop_short zero (c ∷ s) h = absurd (not_small (length s) h)
drop_short (suc n) [] h = refl
drop_short (suc n) (c ∷ s) h = drop_short n s (omega (arith, h))

length-take : (n : ℕ) (s : Text) → n ≤ length s → length (take n s) ≡ n
length-take zero s h = refl
length-take (suc n) [] h = omega (arith, h)
length-take (suc n) (c ∷ s) h = ap suc (length-take n s (omega (arith, h)))

-- A match that ends the line splits it.
find_end : (p s : Text) (i : ℕ) → find p s ≡ some i → i + length p ≡ length s → s ≡ take i s ++ p
find_end p s i h k =
    let short = drop_short (length p) (drop i s) (omega (arith, k, length-drop i s)) in
    find-append p s i h ∙ ap (λ d. take i s ++ d) (ap (λ d. p ++ d) short ∙ append-nil p)

module _ (target new : Text) where
  -- A line that is kept, or whose end is the host's name behind a blank.
  pub data HostLine : Text → Text → Type 0 where
    -- No match, or the first match begins the line, follows no blank or does not end the line.
    unchanged :
        (line : Text)
        → ((pos : ℕ)
            → find target line ≡ some pos
            → (pos ≡ 0)
              ⊎ (is_blank (char_at line (pos - 1)) ≡ false)
              ⊎ (pos + length target ≢ length line))
        → HostLine line (newline line)
    renamed :
        (before : Text)
        → find target (before ++ target) ≡ some (length before)
        → is_blank (char_at (before ++ target) (length before - 1)) ≡ true
        → HostLine (before ++ target) (newline (before ++ new))

  pub data HostsFile : List Text → List Text → Type 0 where
    end : HostsFile [] []
    line :
        {l o : Text} {ls os : List Text}
        → HostLine l o
        → HostsFile ls os
        → HostsFile (l ∷ ls) (o ∷ os)

  HostLine-renamed :
      (l : Text) (pos : ℕ)
      → find target l ≡ some pos
      → is_blank (char_at l (pos - 1)) ≡ true
      → pos + length target ≡ length l
      → HostLine l (newline (take pos l ++ new))
  HostLine-renamed l pos at blank ends =
      let split = find_end target l pos at ends in
      let len = length-take pos l (omega (arith, ends)) in
      subst (λ x. HostLine x (newline (take pos l ++ new))) (sym split)
        (renamed (take pos l) (ap (find target) (sym split) ∙ (at ∙ ap some (sym len))) (
          ap is_blank (
            ap (λ x. char_at x (length (take pos l) - 1)) (sym split)
            ∙ ap (λ n. char_at l (n - 1)) len)
          ∙ blank))

  host_line_lem : (l : Text) → HostLine l (host_line target new l)
  unfolding host_line host_at
  host_line_lem l = elim (Option-cases (find target l)) [
    | inl absent ↦ rw absent (unchanged l (λ pos h. cc))
    | inr (pos, at) ↦ elim (Bool-cases (pos == 0)) [
      | inl z ↦ rw (at, z) (unchanged l (λ q h. ground (arith, at, h, ==_iff pos 0)))
      | inr nz ↦ elim (Bool-cases (is_blank (char_at l (pos - 1)))) [
        | inr b ↦ rw (at, nz, b) (unchanged l (λ q h. ground (arith, at, h, b)))
        | inl b ↦ elim (Bool-cases ((pos + length target) == length l)) [
          | inr n ↦
              rw (at, nz, b, n)
                (unchanged l
                  (λ q h. ground (arith, at, h, n, ==_iff (pos + length target) (length l))))
          | inl y ↦
              rw (at, nz, b, y)
                (HostLine-renamed l pos at b ((==_iff (pos + length target) (length l)).0 y))
        ]
      ]
    ]
  ]

  -- `change_hosts_file` writes one line for each line it reads, in their order: a line whose first match
  -- of the old name ends it and follows a blank ends in the new name, and every other line is kept.
  pub change_hosts_file_lem :
      (lines : List Text) → HostsFile lines (change_hosts_file target new lines)
  unfolding change_hosts_file
  change_hosts_file_lem [] = end
  change_hosts_file_lem (l ∷ ls) = line (host_line_lem l) (change_hosts_file_lem ls)
