-- ===== src/Tests/Numbers.antt =====
-- The allocator from `init_numset` on.
use cmm_sdk.Common.{ℕ, ◌≡◌, refl, arith, some, [], ◌∷◌, length, ◌≤◌, ◌<◌, ◌+◌}
use cmm_sdk.Numset.{
  Numsets, scan, take_num, allocate_below, allocate_session_num, uint_max, init_numset,
  allocate_numset_num,
}
use cmm_sdk.Numset.Sets.{mem}
use cmm_sdk.Numset.Fresh.{IsFresh, allocate_total}
use cmm_sdk.Numset.History.{Held, allocates, here, next, Inv, Reach-Inv}

abbrev one_session : Numsets
one_session = take_num init_numset allocate_session_num 1

first_session : allocate_numset_num init_numset allocate_session_num ≡ some (1, one_session)
unfolding allocate_numset_num allocate_below scan init_numset uint_max mem take_num
first_session = refl

first_cursor : init_numset.numset_num allocate_session_num ≤ uint_max
unfolding init_numset uint_max
first_cursor = omega arith

first_room : length (init_numset.numset allocate_session_num) + 1 < uint_max
unfolding init_numset uint_max
first_room = omega arith

allocate_total_example :
    (n : ℕ) × (t : Numsets) × (allocate_numset_num init_numset allocate_session_num ≡ some (n, t))
    × IsFresh init_numset allocate_session_num n t
    × (n < uint_max)
allocate_total_example = allocate_total init_numset allocate_session_num first_cursor first_room

one_below : 1 < uint_max
unfolding uint_max
one_below = omega arith

abbrev nothing_held : Held
nothing_held = record { sets = init_numset; held = [] }

abbrev one_held : Held
one_held = record { sets = one_session; held = 1 ∷ [] }

Reach-Inv_example : Inv allocate_session_num one_held
Reach-Inv_example =
    Reach-Inv allocate_session_num nothing_held refl (next here (allocates 1 first_session refl))
