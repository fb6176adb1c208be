-- ===== src/Ipam/Outcome.antt =====
-- What reserve_random_free_address gives (shakenfist/ipam.py): an address of the block that nobody
-- had, or CongestedNetwork, and that only if no address after the first is free.
use mathlib.Core.Path.{subst}
use native.Mathlib.Nat.{mod-lt, one-le-pow}
use shakenfist.Prelude.{
  ℕ, zero, suc, ◌+◌, ◌-◌, ◌≤◌, ◌<◌, ◌≡◌, String, true, Option, none, some, contains, nat_beq,
  nat_eq, Bool-cases, inl, inr, if◌then◌else◌, arith,
}
use shakenfist.Ipam.Block.{Block, num_addresses, network_address, get_random_address}
use shakenfist.Ipam.Model.{Ipam, Kind, Env, reserve, release_haloed}
use shakenfist.Ipam.Halo.{IsHaloListed}
use shakenfist.Ipam.Freed.{Freed, Freed-refl, Freed-trans, release_haloed-Freed}
use shakenfist.Ipam.Reserve.{Granted, Freed-Granted, reserve-Granted, reserve-refused}
use shakenfist.Ipam.Allocate.{Allocation, try_random, scan, scan_block, shorten_halo, or_else}

abbrev pub InBlock : Block → ℕ → Type 0
InBlock b a = (network_address b ≤ a) × (a < network_address b + num_addresses b)

-- Either nothing but haloed addresses went, or the user was given an address of the block.
abbrev pub Outcome : String × String → Kind → Ipam → Allocation → Type 0
Outcome user kind s (s', none) = Freed s s'
Outcome user kind s (s', some a) = Granted user kind a s s' × InBlock s.block a

-- All addresses of the block from one index to another have reservations.
abbrev pub Full : ℕ → ℕ → Ipam → Type 0
Full from to s =
    (i : ℕ) → from ≤ i → i < to → contains (network_address s.block + i) s.reservations ≡ true

pub num_pos : (b : Block) → 0 < num_addresses b
unfolding num_addresses
num_pos b = one-le-pow (32 - b.prefixlen) 2 (omega arith)

random-InBlock : (b : Block) (bits : ℕ) → InBlock b (get_random_address b bits)
unfolding get_random_address
random-InBlock b bits = omega (arith, mod-lt bits (num_pos b))

module _ (user : String × String) (kind : Kind) where
  after_Freed :
      (s t : Ipam) (p : Allocation) → Freed s t → Outcome user kind t p → Outcome user kind s p
  after_Freed s t (u, none) f o = Freed-trans s t u f o
  after_Freed s t (u, some a) f o =
      (Freed-Granted s t u f o.0, subst (λ b. InBlock b a) f.block o.1)

pub Full-after : (s t : Ipam) (from to : ℕ) → Freed s t → Full from to t → Full from to s
Full-after s t from to f full i l h =
    f.shrinks _
      (subst (λ b. contains (network_address b + i) t.reservations ≡ true) f.block (full i l h))

module _ (env : Env) (user : String × String) (kind : Kind) (comment : String) where
  -- one attempt, and then the rest of a loop
  abbrev attempt : (a : ℕ) (s : Ipam) (rest : Ipam → Allocation) → Ipam × Option ℕ
  attempt a s rest =
      let (s', free) = reserve env a user kind comment s in
      let other = rest s' in if free then (s', some a) else other

  attempt-Outcome :
      (a : ℕ) (s : Ipam) (rest : Ipam → Allocation)
      → IsHaloListed s
      → InBlock s.block a
      → ((t : Ipam) → Freed s t → Outcome user kind t (rest t))
      → Outcome user kind s (attempt a s rest)
  attempt-Outcome a s rest inv range next =
      elim (Bool-cases (reserve env a user kind comment s).1) [
        | inl free ↦ rw free (reserve-Granted env a user kind comment s inv free, range)
        | inr held ↦
            let f = (reserve-refused env a user kind comment s inv held).0 in
            rw held (after_Freed user kind s _ (rest _) f (next _ f))
      ]

  attempt-none :
      (a : ℕ) (s : Ipam) (rest : Ipam → Allocation)
      → IsHaloListed s
      → (attempt a s rest).1 ≡ none
      → (t : Ipam) × Freed s t × (contains a s.reservations ≡ true) × ((rest t).1 ≡ none)
  attempt-none a s rest inv none_given = elim (Bool-cases (reserve env a user kind comment s).1) [
    | inl free ↦ absurd (ground arith)
    | inr held ↦
        let refused = reserve-refused env a user kind comment s inv held in
        ((reserve env a user kind comment s).0, refused.0, refused.1, ground arith)
  ]

  pub try_random-Outcome :
      (rounds : ℕ) (bits : ℕ → ℕ) (s : Ipam)
      → IsHaloListed s
      → Outcome user kind s (try_random env user kind comment rounds bits s)
  unfolding try_random
  try_random-Outcome zero bits s inv = Freed-refl s inv
  try_random-Outcome (suc rounds) bits s inv =
      attempt-Outcome (get_random_address s.block (bits 0)) s
        (try_random env user kind comment rounds (λ i. bits (suc i))) inv
        (random-InBlock s.block (bits 0))
        (λ t f. try_random-Outcome rounds (λ i. bits (suc i)) t f.inv)

  scan-Outcome :
      (rounds idx : ℕ) (s : Ipam)
      → IsHaloListed s
      → idx + rounds ≤ num_addresses s.block
      → Outcome user kind s (scan env user kind comment rounds idx s)
  unfolding scan
  scan-Outcome zero idx s inv fits = Freed-refl s inv
  scan-Outcome (suc rounds) idx s inv fits =
      attempt-Outcome (network_address s.block + idx) s
        (scan env user kind comment rounds (idx + 1)) inv (omega arith)
        (λ t f. scan-Outcome rounds (idx + 1) t f.inv (rw (f.block) (omega arith)))

  pub scan-Full :
      (rounds idx : ℕ) (s : Ipam)
      → IsHaloListed s
      → (scan env user kind comment rounds idx s).1 ≡ none
      → Full idx (idx + rounds) s
  unfolding scan
  scan-Full zero idx s inv h i l u = absurd (omega arith)
  scan-Full (suc rounds) idx s inv h i l u =
      let (t, f, held, rest) =
        attempt-none (network_address s.block + idx) s (scan env user kind comment rounds (idx + 1))
          inv h in
      elim (Bool-cases (nat_beq i idx)) [
        | inl here ↦ rw ((nat_eq.beq_iff i idx).0 here) held
        | inr later ↦
            Full-after s t (idx + 1) (idx + 1 + rounds) f (scan-Full rounds (idx + 1) t f.inv rest)
              i (ground arith) (omega arith)
      ]

  pub scan_block-Outcome :
      (s : Ipam) → IsHaloListed s → Outcome user kind s (scan_block env user kind comment s)
  unfolding scan_block
  scan_block-Outcome s inv =
      scan-Outcome (num_addresses s.block - 1) 1 s inv (omega (arith, num_pos s.block))

  pub shorten_halo-Outcome :
      (s : Ipam) → IsHaloListed s → Outcome user kind s (shorten_halo env user kind comment s)
  unfolding shorten_halo
  shorten_halo-Outcome s inv =
      let f = release_haloed-Freed env 30 s inv in
      elim (Bool-cases (nat_beq (release_haloed env 30 s).1 0)) [
        | inl nothing ↦ rw nothing f
        | inr some_freed ↦
            rw some_freed (after_Freed user kind s _ _ f (scan_block-Outcome _ f.inv))
      ]

  pub or_else-Outcome :
      (s : Ipam) (p : Allocation) (next : Ipam → Allocation)
      → Outcome user kind s p
      → ((t : Ipam) → Freed s t → Outcome user kind t (next t))
      → Outcome user kind s (or_else env user kind comment p next)
  or_else-Outcome s (t, none) next f go = after_Freed user kind s t _ f (go t f)
  or_else-Outcome s (t, some a) next o go = o
