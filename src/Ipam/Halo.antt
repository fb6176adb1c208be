-- ===== src/Ipam/Halo.antt =====
-- The deletion halo (shakenfist/ipam.py): the attribute lists exactly once each address whose
-- reservation is a halo, with the time of that reservation, as long as no address is released twice.
use mathlib.Core.Path.{subst}
use shakenfist.Prelude.{
  ℕ, ◌-◌, ◌≡◌, ◌≢◌, sym, Bool, true, List, [], ◌∷◌, Option, none, some, Dict, lookup, remove,
  lookup-remove_ne, elem, erase, ltb, ◌==◌, nat_eq, pair_eq, Bool-cases, inl, inr, All, All-elem,
  All-erase, All-map₂, arith,
}
use shakenfist.Ipam.Model.{Ipam, Reservation, deletion_halo, Env, remove_halo, release_one}

-- A reservation that is a halo since `when`.
abbrev pub IsHaloAt : Option Reservation → ℕ → Type 0
IsHaloAt none when = ⊥
IsHaloAt (some r) when = (r.kind ≡ deletion_halo) × (r.when ≡ when)

abbrev pub Items : Type 0
Items = List (ℕ × ℕ)

-- No item is about the address.
abbrev pub Lacks : ℕ → Items → Type 0
Lacks address items = All (λ (item : ℕ × ℕ). item.0 ≢ address) items

abbrev pub Distinct : Items → Type 0
Distinct [] = Unit
Distinct ((address, when) ∷ items) = Lacks address items × Distinct items

abbrev pub Listed : Dict ℕ Reservation → Items → Type 0
Listed reservations items =
    All (λ (item : ℕ × ℕ). IsHaloAt (lookup item.0 reservations) item.1) items

pub record IsHaloListed (s : Ipam) : Type 0 where
  pub listed : Listed s.reservations s.halo
  pub distinct : Distinct s.halo

abbrev same_item : ℕ × ℕ → ℕ × ℕ → Bool
same_item p q = p == q

same_address : (p q : ℕ × ℕ) → same_item p q ≡ true → p.0 ≡ q.0
same_address p q h = ground arith

module _ (address when : ℕ) where
  Lacks-erase : (a : ℕ) (items : Items) → Lacks a items → Lacks a (erase (address, when) items)
  Lacks-erase a items = All-erase (λ (item : ℕ × ℕ). item.0 ≢ a) (address, when) items

  Distinct-erase : (items : Items) → Distinct items → Distinct (erase (address, when) items)
  unfolding erase
  Distinct-erase [] d = tt
  Distinct-erase ((a, w) ∷ items) d = elim (Bool-cases (same_item (a, w) (address, when))) [
    | inl same ↦ rw same (d.1)
    | inr other ↦ rw other (Lacks-erase a items d.0, Distinct-erase items d.1)
  ]

  -- Once its item is gone, the address is not listed any more.
  Lacks-erase_self :
      (items : Items)
      → Distinct items
      → elem (address, when) items ≡ true
      → Lacks address (erase (address, when) items)
  unfolding erase elem
  Lacks-erase_self [] d m = tt
  Lacks-erase_self ((a, w) ∷ items) d m = elim (Bool-cases (same_item (a, w) (address, when))) [
    | inl same ↦ rw same (subst (λ b. Lacks b items) (same_address (a, w) (address, when) same) d.0)
    | inr other ↦ rw other (
      (λ p.
          All-elem (λ (item : ℕ × ℕ). item.0 ≢ a) (address, when) items d.0 (rw other at m)
            (sym p)),
      Lacks-erase_self items d.1 (rw other at m),
    )
  ]

-- A change at an address that is not listed is not seen by the items.
pub Listed-away :
    (reservations reservations' : Dict ℕ Reservation) (address : ℕ) (items : Items)
    → ((a : ℕ) → a ≢ address → lookup a reservations' ≡ lookup a reservations)
    → Lacks address items
    → Listed reservations items
    → Listed reservations' items
Listed-away reservations reservations' address items same lacks listed =
    All-map₂ items (λ item n h. rw (same item.0 n) h) lacks listed

module _ (env : Env) (duration address when : ℕ) (s : Ipam) (inv : IsHaloListed s)
    (here : elem (address, when) s.halo ≡ true) where
  pub release_one-IsHaloListed : IsHaloListed (release_one env duration address when s).0
  unfolding release_one remove_halo
  release_one-IsHaloListed = elim (Bool-cases (ltb duration (env.time s.ticks - when))) [
    | inl old ↦
        rw (old, here)
          (record {
            listed =
                Listed-away s.reservations (remove address s.reservations) address
                  (erase (address, when) s.halo)
                  (λ a n. lookup-remove_ne address a s.reservations (λ p. n (sym p)))
                  (Lacks-erase_self address when s.halo inv.distinct here)
                  (All-erase (λ (item : ℕ × ℕ). IsHaloAt (lookup item.0 s.reservations) item.1)
                    (address, when) s.halo inv.listed);
            distinct = Distinct-erase address when s.halo inv.distinct;
          })
    | inr young ↦ rw young (record { listed = inv.listed; distinct = inv.distinct })
  ]
