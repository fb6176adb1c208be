-- ===== src/Ipam/Reserve.antt =====
-- reserve and release (shakenfist/ipam.py).
use mathlib.Core.Path.{subst}
use shakenfist.Prelude.{
  ℕ, ◌+◌, ◌≡◌, ◌≢◌, refl, sym, ◌∙◌, String, true, false, Option, none, some, Dict, lookup, contains,
  insert, lookup-insert, lookup-insert_ne, lookup-insert_self, nat_eq, pair_eq, All-map, arith,
  is_some,
}
use shakenfist.Ipam.Model.{
  Ipam, Reservation, Kind, deletion_halo, Env, is_free, release_haloed, claim, reserve,
}
use shakenfist.Ipam.Halo.{IsHaloAt, Items, Lacks, Listed, IsHaloListed, Listed-away}
use shakenfist.Ipam.Freed.{Freed, release_haloed-Freed}

-- The address is reserved for someone: its reservation is no halo.
abbrev pub IsLive : ℕ → Reservation → Ipam → Type 0
IsLive b r s = (lookup b s.reservations ≡ some r) × (r.kind ≢ deletion_halo)

-- The address was given to the user, and nobody else lost one.
pub record Granted (user : String × String) (kind : Kind) (address : ℕ) (s s' : Ipam) : Type 0 where
  pub inv : IsHaloListed s'
  pub live : (b : ℕ) (r : Reservation) → IsLive b r s → lookup b s'.reservations ≡ some r
  pub reserved :
      (r : Reservation) × (lookup address s'.reservations ≡ some r)
      × (r.user ≡ some user)
      × (r.kind ≡ kind)
  pub was_free : (r : Reservation) → ¬ IsLive address r s
  pub block : s'.block ≡ s.block

pub Freed-Granted :
    {user : String × String} {kind : Kind} {address : ℕ} (s t u : Ipam)
    → Freed s t
    → Granted user kind address t u
    → Granted user kind address s u
Freed-Granted s t u f g = record {
  inv = g.inv;
  live = λ b r h. g.live b r (f.live b r h.0 h.1, h.1);
  reserved = g.reserved;
  was_free = λ r h. g.was_free r (f.live _ r h.0 h.1, h.1);
  block = g.block ∙ f.block;
}

pub absent : (o : Option Reservation) (when : ℕ) → is_some o ≡ false → ¬ IsHaloAt o when
absent none when e h = h
absent (some r) when e h = cc

-- A free address is not in the halo.
Lacks-free :
    (reservations : Dict ℕ Reservation) (address : ℕ) (items : Items)
    → contains address reservations ≡ false
    → Listed reservations items
    → Lacks address items
Lacks-free reservations address items free = All-map items (λ item h p.
    absent (lookup address reservations) item.1 free
      (subst (λ a. IsHaloAt (lookup a reservations) item.1) p h))

module _ (address : ℕ) (reservation : Reservation) (s : Ipam) where
  claim-true :
      (claim address reservation s).1 ≡ true
      → (contains address s.reservations ≡ false)
        × ((claim address reservation s).0
            ≡ record s { reservations = insert address reservation s.reservations })
  unfolding claim is_free
  claim-true h = ground arith

  claim-false :
      (claim address reservation s).1 ≡ false
      → (contains address s.reservations ≡ true) × ((claim address reservation s).0 ≡ s)
  unfolding claim is_free
  claim-false h = ground arith

  -- A reservation at a free address leaves the halo and the other reservations alone.
  insert-IsHaloListed :
      IsHaloListed s
      → contains address s.reservations ≡ false
      → IsHaloListed (record s { reservations = insert address reservation s.reservations })
  insert-IsHaloListed inv free = record {
    listed =
        Listed-away s.reservations (insert address reservation s.reservations) address s.halo
          (λ a n. lookup-insert_ne address a reservation s.reservations (λ p. n (sym p)))
          (Lacks-free s.reservations address s.halo free inv.listed) inv.listed;
    distinct = inv.distinct;
  }

  insert-live :
      contains address s.reservations ≡ false
      → (b : ℕ) (r : Reservation) → lookup b s.reservations ≡ some r
      → lookup b (insert address reservation s.reservations) ≡ some r
  insert-live free b r h =
      ground (arith, lookup-insert address b reservation s.reservations, nat_eq.beq_iff address b)

module _ (address : ℕ) (reservation : Reservation) (user : String × String) (s : Ipam)
    (of_user : reservation.user ≡ some user) where
  claim-Granted :
      IsHaloListed s
      → (claim address reservation s).1 ≡ true
      → Granted user reservation.kind address s (claim address reservation s).0
  claim-Granted inv h =
      let (free, e) = claim-true address reservation s h in
      rw e (record {
        inv = insert-IsHaloListed address reservation s inv free;
        live = λ b r l. insert-live address reservation s free b r l.0;
        reserved =
            (reservation, lookup-insert_self address reservation s.reservations, of_user, refl);
        was_free = λ r l. ground (arith, l.0);
        block = refl;
      })

module _ (env : Env) (address : ℕ) (user : String × String) (kind : Kind) (comment : String)
    (s : Ipam) (inv : IsHaloListed s) where
  abbrev haloed : Ipam
  haloed = (release_haloed env env.ip_deletion_halo_duration s).0

  abbrev ticked : Ipam
  ticked = record haloed { ticks = haloed.ticks + 1 }

  Freed-ticked : Freed s ticked
  Freed-ticked =
      let f = release_haloed-Freed env env.ip_deletion_halo_duration s inv in
      record {
        inv = record { listed = f.inv.listed; distinct = f.inv.distinct };
        live = f.live;
        shrinks = f.shrinks;
        block = f.block;
      }

  -- A reservation that is made gives the address to the user, and only if nobody had it.
  pub reserve-Granted :
      (reserve env address user kind comment s).1 ≡ true
      → Granted user kind address s (reserve env address user kind comment s).0
  unfolding reserve
  reserve-Granted h =
      Freed-Granted s ticked _ Freed-ticked
        (claim-Granted address _ user ticked refl Freed-ticked.inv h)

  -- One that is refused changes only the halo, and the address had a reservation.
  pub reserve-refused :
      (reserve env address user kind comment s).1 ≡ false
      → Freed s (reserve env address user kind comment s).0
        × (contains address s.reservations ≡ true)
  unfolding reserve
  reserve-refused h =
      let (held, e) = claim-false address _ ticked h in
      (rw e Freed-ticked, Freed-ticked.shrinks address held)
