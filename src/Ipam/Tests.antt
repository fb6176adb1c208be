-- ===== src/Ipam/Tests.antt =====
-- The theorems on addresses at a small network, and a run in which a second release costs a user
-- an address.
use shakenfist.Prelude.{
  ◌≡◌, ◌≢◌, refl, String, Bool, true, false, [], ◌∷◌, none, some, lookup, contains, elem, erase,
  insert, remove, nat_beq, leb, nat_eq, length, arith, if◌then◌else◌,
}
use shakenfist.Ipam.Block.{Block, num_addresses, network_address, get_random_address}
use shakenfist.Ipam.Model.{
  Ipam, Reservation, instances, deletion_halo, Env, reserve, release, release_haloed,
}
use shakenfist.Ipam.Halo.{IsHaloListed}
use shakenfist.Ipam.Release.{Released, release-Released}
use shakenfist.Ipam.Freed.{release_haloed-frees}
use shakenfist.Ipam.Allocate.{reserve_random_free_address}
use shakenfist.Ipam.Outcome.{Outcome, Full}
use shakenfist.Ipam.Allocation.{
  reserve_random_free_address-Outcome, reserve_random_free_address-congested,
}

-- A clock that stands at 1000.
abbrev env : Env
env = record { time = λ k. 1000; ip_deletion_halo_duration = 300 }

abbrev user : String × String
user = ("instance", "i1")

-- 10.0.0.0/30
abbrev block : Block
block = record { address = 167772161; prefixlen = 30 }

abbrev held : Reservation
held = record { user = some user; when = 900; kind = instances; comment = "" }

abbrev haloed : Reservation
haloed = record { user = none; when = 990; kind = deletion_halo; comment = "" }

-- Index 1 is held, and index 2 is in the halo.
abbrev partly : Ipam
partly = record {
  block = block;
  reservations = (167772161, held) ∷ (167772162, haloed) ∷ [];
  halo = (167772162, 990) ∷ [];
  ticks = 0;
}

partly-IsHaloListed : IsHaloListed partly
unfolding lookup
partly-IsHaloListed = record { listed = ((refl, refl), tt); distinct = (tt, tt) }

reserve_random_free_address-Outcome_example :
    Outcome user instances partly
      (reserve_random_free_address env user instances "" (λ i. 1) partly)
reserve_random_free_address-Outcome_example =
    reserve_random_free_address-Outcome env user instances "" (λ i. 1) partly partly-IsHaloListed

-- The indices 1 to 3 are held: one address is left, the first, which is never tried.
abbrev full : Ipam
full = record {
  block = block;
  reservations = (167772161, held) ∷ (167772162, held) ∷ (167772163, held) ∷ [];
  halo = [];
  ticks = 0;
}

no_address : (reserve_random_free_address env user instances "" (λ i. 1) full).1 ≡ none
unfolding reserve_random_free_address reserve lookup num_addresses network_address
    get_random_address
no_address = refl

size_differs : length full.reservations ≢ num_addresses block
unfolding num_addresses
size_differs = omega arith

reserve_random_free_address-congested_example : Full 1 (num_addresses block) full
reserve_random_free_address-congested_example =
    reserve_random_free_address-congested env user instances "" (λ i. 1) full
      (record { listed = tt; distinct = tt }) size_differs no_address

release-Released_example :
    ((release env 167772161 partly).1 ≡ true)
    × Released env 167772161 partly (release env 167772161 partly).0
unfolding lookup
release-Released_example =
    release-Released env 167772161 partly held partly-IsHaloListed (refl, (λ p. cc p))

release_haloed-frees_example :
    contains 167772162 ((release_haloed env 5 partly).0).reservations ≡ false
unfolding elem
release_haloed-frees_example =
    release_haloed-frees env 5 167772162 990 partly (λ k. omega arith) refl

-- A user releases an address at 0 and again at 100. At 200 it is free, and another user reserves it;
-- at 300 the item of the second release is old, and the address is free again.
abbrev uneven : Env
uneven = record {
  time = λ k. if nat_beq k 0 then 0 else if nat_beq k 1 then 100 else if leb k 5 then 200 else 300;
  ip_deletion_halo_duration = 300;
}

abbrev released_twice : Ipam
released_twice =
    let s = (release uneven 167772161 full).0 in
    let s' = (release uneven 167772161 s).0 in (release_haloed uneven 150 s').0

abbrev taken : Ipam × Bool
taken = reserve uneven 167772161 ("instance", "i2") instances "" released_twice

second_user_has_it : taken.1 ≡ true
unfolding release release_haloed reserve lookup elem erase insert remove
second_user_has_it = refl

second_user_lost_it :
    contains 167772161 ((release_haloed uneven 150 taken.0).0).reservations ≡ false
unfolding release release_haloed reserve lookup elem erase insert remove
second_user_lost_it = refl
