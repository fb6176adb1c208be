-- ===== src/Ipam/Allocate.antt =====
-- reserve_random_free_address (shakenfist/ipam.py): five addresses at random, then a scan of the whole
-- block, then a second scan if shortening the deletion halo frees something.
use shakenfist.Prelude.{
  ℕ, zero, suc, ◌+◌, ◌-◌, String, Option, none, some, length, nat_beq, if◌then◌else◌,
}
use shakenfist.Ipam.Block.{num_addresses, network_address, get_random_address}
use shakenfist.Ipam.Model.{Ipam, Env, Kind, reserve, release_haloed}

-- The address given, or `none` for the exception CongestedNetwork, and the state after either.
abbrev pub Allocation : Type 0
Allocation = Ipam × Option ℕ

module _ (env : Env) (user : String × String) (kind : Kind) (comment : String) where
  -- the loop of the random attempts, with the rounds left and the bits of the next attempts
  unfoldable pub try_random : ℕ → (ℕ → ℕ) → Ipam → Allocation
  try_random zero bits s = (s, none)
  try_random (suc rounds) bits s =
      let address = get_random_address s.block (bits 0) in
      let (s', free) = reserve env address user kind comment s in
      let rest = try_random rounds (λ i. bits (suc i)) s' in
      if free then (s', some address) else rest

  -- the loop of a scan from an index, with the rounds left
  unfoldable pub scan : ℕ → ℕ → Ipam → Allocation
  scan zero idx s = (s, none)
  scan (suc rounds) idx s =
      let address = network_address s.block + idx in
      let (s', free) = reserve env address user kind comment s in
      let rest = scan rounds (idx + 1) s' in if free then (s', some address) else rest

  -- `idx = 1; while idx < self.num_addresses`
  unfoldable pub scan_block : Ipam → Allocation
  unfolding scan
  scan_block s = scan (num_addresses s.block - 1) 1 s

  -- what follows the first scan
  unfoldable pub shorten_halo : Ipam → Allocation
  unfolding scan_block
  shorten_halo s =
      let (s', freed) = release_haloed env 30 s in
      let again = scan_block s' in if nat_beq freed 0 then (s', none) else again

  -- the second step runs if the first gives no address
  abbrev pub or_else : Allocation → (Ipam → Allocation) → Allocation
  or_else (s, none) next = next s
  or_else (s, some address) next = (s, some address)

  -- reserve_random_free_address
  unfoldable pub reserve_random_free_address : (ℕ → ℕ) → Ipam → Allocation
  unfolding try_random scan_block shorten_halo
  reserve_random_free_address bits s =
      if nat_beq (length s.reservations) (num_addresses s.block)
      then (s, none)
      else or_else (or_else (try_random 5 bits s) scan_block) shorten_halo
