-- ===== src/Ipam/Release.antt =====
-- release (shakenfist/ipam.py): the address goes into the deletion halo.
use mathlib.Core.Path.{subst}
use shakenfist.Prelude.{
  ℕ, ◌+◌, ◌≡◌, ◌≢◌, refl, sym, ap, ◌∙◌, Bool, true, false, [], ◌∷◌, ◌++◌, none, some, lookup,
  contains, insert, lookup-insert_ne, lookup-insert_self, elem, elem-append, nat_eq, pair_eq,
  All-elem, All-map, All-append, arith, is_some,
}
use shakenfist.Ipam.Model.{Ipam, Reservation, deletion_halo, Env, is_free, add_halo, release}
use shakenfist.Ipam.Halo.{IsHaloAt, Items, Lacks, Distinct, IsHaloListed, Listed-away}
use shakenfist.Ipam.Reserve.{IsLive}

Lacks-elem :
    (address when : ℕ) (items : Items) → Lacks address items → elem (address, when) items ≡ false
unfolding elem
Lacks-elem address when [] l = refl
Lacks-elem address when ((a, w) ∷ items) l =
    ground (arith, l.0, nat_eq.beq_iff a address, Lacks-elem address when items l.1)

Distinct-append :
    (address when : ℕ) (items : Items)
    → Distinct items
    → Lacks address items
    → Distinct (items ++ (address, when) ∷ [])
Distinct-append address when [] d l = (tt, tt)
Distinct-append address when ((a, w) ∷ items) d l = (
  All-append (λ (item : ℕ × ℕ). item.0 ≢ a) items ((address, when) ∷ []) d.0
      ((λ p. l.0 (sym p)), tt),
  Distinct-append address when items d.1 l.1,
)

module _ (env : Env) (address : ℕ) (s : Ipam) where
  abbrev now : ℕ
  now = env.time s.ticks

  abbrev halo_now : Reservation
  halo_now = record { user = none; when = now; kind = deletion_halo; comment = "" }

  release-free :
      contains address s.reservations ≡ false
      → release env address s ≡ (record s { ticks = s.ticks + 1 }, false)
  unfolding release is_free
  release-free h = ground arith

  release-held :
      contains address s.reservations ≡ true
      → release env address s ≡ (
        add_halo
            (address, now)
            (record s {
              ticks = s.ticks + 1;
              reservations = insert address halo_now s.reservations;
            }),
        true,
      )
  unfolding release is_free
  release-held h = ground arith

  Lacks-live : (r : Reservation) → IsHaloListed s → IsLive address r s → Lacks address s.halo
  Lacks-live r inv live =
      All-map s.halo
        (λ item h p.
          live.1
            (subst (λ o. IsHaloAt o item.1) (ap (λ a. lookup a s.reservations) p ∙ live.0) h).0)
        inv.listed

  -- What the release of an address does that somebody has.
  pub record Released (s' : Ipam) : Type 0 where
    pub inv : IsHaloListed s'
    pub haloed : lookup address s'.reservations ≡ some halo_now
    pub others : (b : ℕ) → b ≢ address → lookup b s'.reservations ≡ lookup b s.reservations
    pub enlisted : s'.halo ≡ s.halo ++ (address, now) ∷ []

  appended : Ipam
  appended = record s {
    ticks = s.ticks + 1;
    reservations = insert address halo_now s.reservations;
    halo = s.halo ++ (address, now) ∷ [];
  }

  appended-Released : Lacks address s.halo → IsHaloListed s → Released appended
  unfolding appended
  appended-Released lacks inv = record {
    inv = record {
      listed =
          All-append
            (λ (item : ℕ × ℕ).
              IsHaloAt (lookup item.0 (insert address halo_now s.reservations)) item.1)
            s.halo ((address, now) ∷ [])
            (Listed-away s.reservations (insert address halo_now s.reservations) address s.halo
              (λ a n. lookup-insert_ne address a halo_now s.reservations (λ p. n (sym p))) lacks
              inv.listed)
            (rw (lookup-insert_self address halo_now s.reservations) (refl, refl), tt);
      distinct = Distinct-append address now s.halo inv.distinct lacks;
    };
    haloed = lookup-insert_self address halo_now s.reservations;
    others = λ b n. lookup-insert_ne address b halo_now s.reservations (λ p. n (sym p));
    enlisted = refl;
  }

  release-appended :
      contains address s.reservations ≡ true
      → Lacks address s.halo
      → release env address s ≡ (appended, true)
  unfolding appended add_halo
  release-appended held lacks = release-held held ∙ rw (Lacks-elem address now s.halo lacks)

  -- The release of an address that somebody has, from a state whose halo list is right, puts the
  -- address into the halo under the time of the release, appends just that item to the list, leaves
  -- every other reservation alone, and keeps the list right.
  pub release-Released :
      (r : Reservation)
      → IsHaloListed s
      → IsLive address r s
      → ((release env address s).1 ≡ true) × Released (release env address s).0
  release-Released r inv live =
      let lacks = Lacks-live r inv live in
      let e = release-appended (ap is_some live.0) lacks in
      (ap (λ (p : Ipam × Bool). p.1) e, rw e (appended-Released lacks inv))

  elem-add_halo :
      (item item' : ℕ × ℕ) (t : Ipam)
      → elem item t.halo ≡ true
      → elem item (add_halo item' t).halo ≡ true
  unfolding add_halo
  elem-add_halo item item' t h = ground (arith, elem-append item t.halo (item' ∷ []))

  reservations-add_halo :
      (item : ℕ × ℕ) (t : Ipam) → (add_halo item t).reservations ≡ t.reservations
  unfolding add_halo
  reservations-add_halo item t = ground arith

  -- A second release, of an address that is in the halo, at another time than the first, leaves the
  -- list wrong: its old item is still there, and no reservation of that time.
  pub release-twice :
      (r : Reservation)
      → lookup address s.reservations ≡ some r
      → elem (address, r.when) s.halo ≡ true
      → r.when ≢ now
      → ¬ IsHaloListed (release env address s).0
  release-twice r held here late inv = late (
      sym
        (subst (λ o. IsHaloAt o r.when)
          (reservations-at ∙ lookup-insert_self address halo_now s.reservations)
          (All-elem (λ (item : ℕ × ℕ). IsHaloAt (lookup item.0 after.reservations) item.1)
            (address, r.when) after.halo inv.listed still)).1)
    where
      after : Ipam
      after = (release env address s).0

      before : Ipam
      before = record s {
        ticks = s.ticks + 1;
        reservations = insert address halo_now s.reservations;
      }

      is_after : after ≡ add_halo (address, now) before
      is_after = ap (λ (p : Ipam × Bool). p.0) (release-held (ap is_some held))

      reservations-at : lookup address after.reservations ≡ lookup address before.reservations
      reservations-at =
          ap (λ (t : Ipam). lookup address t.reservations) is_after
          ∙ ap (λ d. lookup address d) (reservations-add_halo (address, now) before)

      still : elem (address, r.when) after.halo ≡ true
      still = rw is_after (elem-add_halo (address, r.when) (address, now) before here)
