-- ===== src/Ipam/Allocation.antt =====
-- The whole of reserve_random_free_address (shakenfist/ipam.py).
use shakenfist.Prelude.{
  ℕ, ◌≡◌, ◌≢◌, refl, String, none, some, length, nat_beq, nat_eq, beq_ne, Bool-cases, inl, inr,
  arith, ◌-◌,
}
use shakenfist.Ipam.Block.{num_addresses}
use shakenfist.Ipam.Model.{Ipam, Kind, Env}
use shakenfist.Ipam.Halo.{IsHaloListed}
use shakenfist.Ipam.Freed.{Freed, Freed-refl}
use shakenfist.Ipam.Allocate.{
  Allocation, try_random, scan_block, shorten_halo, or_else, reserve_random_free_address,
}
use shakenfist.Ipam.Outcome.{
  Outcome, Full, Full-after, try_random-Outcome, scan_block-Outcome, shorten_halo-Outcome,
  or_else-Outcome, scan-Full,
}

module _ (env : Env) (user : String × String) (kind : Kind) (comment : String) (bits : ℕ → ℕ)
    (s : Ipam) (inv : IsHaloListed s) where
  attempts : Allocation
  attempts = try_random env user kind comment 5 bits s

  scanned : Allocation
  scanned = or_else env user kind comment attempts (scan_block env user kind comment)

  attempts-Outcome : Outcome user kind s attempts
  unfolding attempts
  attempts-Outcome = try_random-Outcome env user kind comment 5 bits s inv

  scanned-Outcome : Outcome user kind s scanned
  unfolding scanned
  scanned-Outcome =
      or_else-Outcome env user kind comment s attempts _ attempts-Outcome
        (λ t f. scan_block-Outcome env user kind comment t f.inv)

  -- From a state whose halo list is right, in that it lists only addresses that are reserved as haloed
  -- since that time, each once, the call either raises CongestedNetwork, and then nothing but haloed
  -- addresses went; or it gives an address of the block which nobody had, reserved for the
  -- user under the type asked for. On both paths nobody who had an address loses it, and the halo
  -- list stays right.
  pub reserve_random_free_address-Outcome :
      Outcome user kind s (reserve_random_free_address env user kind comment bits s)
  unfolding reserve_random_free_address attempts scanned
  reserve_random_free_address-Outcome =
      elim (Bool-cases (nat_beq (length s.reservations) (num_addresses s.block))) [
        | inl full ↦ rw full (Freed-refl s inv)
        | inr room ↦ rw room (
            or_else-Outcome env user kind comment s scanned _ scanned-Outcome
              (λ t f. shorten_halo-Outcome env user kind comment t f.inv))
      ]

  -- From a state whose halo list is right, in that it lists only addresses that are reserved as haloed
  -- since that time, each once, and where the number of reservations is not the size of the block,
  -- the call raises CongestedNetwork only if every address of the block but its first had a
  -- reservation when it began.
  pub reserve_random_free_address-congested :
      length s.reservations ≢ num_addresses s.block
      → (reserve_random_free_address env user kind comment bits s).1 ≡ none
      → Full 1 (num_addresses s.block) s
  unfolding reserve_random_free_address attempts scanned
  reserve_random_free_address-congested room h i l u =
      let first = or_else-none attempts (scan_block env user kind comment) scanned_none in
      let f = Outcome-none attempts attempts-Outcome first.0 in
      let b = f.block in
      Full-after s attempts.0 1 (num_addresses s.block) f
        (λ j m w.
          scan-Full env user kind comment (num_addresses (attempts.0).block - 1) 1 attempts.0 f.inv
            (unfold scan_block in first.1) j m (rw b (omega arith)))
        i l u
    where
      or_else-none :
          (p : Allocation) (next : Ipam → Allocation)
          → (or_else env user kind comment p next).1 ≡ none
          → (p.1 ≡ none) × ((next p.0).1 ≡ none)
      or_else-none (t, none) next e = (refl, e)
      or_else-none (t, some a) next e = cc

      Outcome-none : (p : Allocation) → Outcome user kind s p → p.1 ≡ none → Freed s p.0
      Outcome-none (t, none) o e = o
      Outcome-none (t, some a) o e = cc

      scanned_none : scanned.1 ≡ none
      scanned_none =
          (or_else-none scanned (shorten_halo env user kind comment)
            (rw (beq_ne (length s.reservations) (num_addresses s.block) room) at h)).0
