-- ===== src/Ipam/Freed.antt =====
-- What release_haloed may change (shakenfist/ipam.py): haloed addresses go, and nothing else.
use mathlib.Core.Bool.{false≢true}
use mathlib.Core.Path.{subst}
use shakenfist.Prelude.{
  ℕ, ◌-◌, ◌<◌, ◌≡◌, ◌≢◌, refl, sym, ap, ◌∙◌, Bool, true, false, ◌&&◌, [], ◌∷◌, none, some, lookup,
  contains, lookup-remove, elem, elem-erase_ne, ltb, nat_eq, nat_beq, beq_refl, pair_eq, Bool-cases,
  inl, inr, All, All-elem, All-map₂, All-map, if◌then◌else◌, arith,
}
use shakenfist.Ipam.Model.{
  Ipam, Reservation, deletion_halo, Env, remove_halo, release_one, release_each, release_haloed,
}
use shakenfist.Ipam.Halo.{IsHaloAt, Items, Distinct, IsHaloListed, release_one-IsHaloListed}

-- From `s` to `s'` only haloed addresses went.
pub record Freed (s s' : Ipam) : Type 0 where
  pub inv : IsHaloListed s'
  pub live :
      (b : ℕ) (r : Reservation)
      → lookup b s.reservations ≡ some r
      → r.kind ≢ deletion_halo
      → lookup b s'.reservations ≡ some r
  pub shrinks : (b : ℕ) → contains b s'.reservations ≡ true → contains b s.reservations ≡ true
  pub block : s'.block ≡ s.block

pub Freed-refl : (s : Ipam) → IsHaloListed s → Freed s s
Freed-refl s inv = record { inv = inv; live = λ b r h n. h; shrinks = λ b h. h; block = refl }

pub Freed-trans : (s t u : Ipam) → Freed s t → Freed t u → Freed s u
Freed-trans s t u f g = record {
  inv = g.inv;
  live = λ b r h n. g.live b r (f.live b r h n) n;
  shrinks = λ b h. f.shrinks b (g.shrinks b h);
  block = g.block ∙ f.block;
}

module _ (env : Env) (duration address when : ℕ) (s : Ipam) where
  abbrev step : Ipam
  step = (release_one env duration address when s).0

  abbrev expired : Bool
  expired = ltb duration (env.time s.ticks - when)

  lookup-release_one :
      (b : ℕ)
      → lookup b step.reservations
        ≡ (if expired && nat_beq address b then none else lookup b s.reservations)
  unfolding release_one remove_halo
  lookup-release_one b = ground (arith, lookup-remove address b s.reservations)

  elem-release_one :
      (a w : ℕ) → a ≢ address → elem (a, w) s.halo ≡ true → elem (a, w) step.halo ≡ true
  unfolding release_one remove_halo
  elem-release_one a w n h = ground (
    arith,
    elem-erase_ne (address, when) (a, w) s.halo (λ p. n (sym (ap (λ (i : ℕ × ℕ). i.0) p))),
  )

  block-release_one : step.block ≡ s.block
  unfolding release_one remove_halo
  block-release_one = ground arith

  -- a listed address has no live reservation
  listed_ne :
      IsHaloListed s
      → elem (address, when) s.halo ≡ true
      → (b : ℕ) (r : Reservation) → lookup b s.reservations ≡ some r
      → r.kind ≢ deletion_halo
      → address ≢ b
  listed_ne inv here b r h n p =
      n
        (subst (λ o. IsHaloAt o when) (ap (λ c. lookup c s.reservations) p ∙ h)
          (All-elem (λ (item : ℕ × ℕ). IsHaloAt (lookup item.0 s.reservations) item.1)
            (address, when) s.halo inv.listed here)).0

  release_one-Freed : IsHaloListed s → elem (address, when) s.halo ≡ true → Freed s step
  release_one-Freed inv here = record {
    inv = release_one-IsHaloListed env duration address when s inv here;
    live = λ b r h n. ground (arith, lookup-release_one b, listed_ne inv here b r h n);
    shrinks = λ b h. ground (arith, lookup-release_one b);
    block = block-release_one;
  }

module _ (env : Env) (duration : ℕ) where
  release_each-Freed :
      (haloed : Items) (freed : ℕ) (s : Ipam)
      → Distinct haloed
      → All (λ item. elem item s.halo ≡ true) haloed
      → IsHaloListed s
      → Freed s (release_each env duration haloed freed s).0
  unfolding release_each
  release_each-Freed [] freed s d m inv = Freed-refl s inv
  release_each-Freed ((address, when) ∷ haloed) freed s d m inv =
      let s' = (release_one env duration address when s).0 in
      let f = release_one-Freed env duration address when s inv m.0 in
      Freed-trans s s' _ f (
        release_each-Freed haloed _ s' d.1
          (All-map₂ haloed
            (λ item n h. elem-release_one env duration address when s item.0 item.1 n h) d.0 m.1)
          f.inv)

  elem_self : (items : Items) → All (λ item. elem item items ≡ true) items
  unfolding elem
  elem_self [] = tt
  elem_self (x ∷ items) =
      (ground (arith, beq_refl x), All-map items (λ item h. ground (arith, h)) (elem_self items))

  -- release_haloed frees haloed addresses and nothing else, and the halo stays right.
  pub release_haloed-Freed : (s : Ipam) → IsHaloListed s → Freed s (release_haloed env duration s).0
  unfolding release_haloed
  release_haloed-Freed s inv = release_each-Freed s.halo 0 s inv.distinct (elem_self s.halo) inv

module _ (env : Env) (duration : ℕ) (address : ℕ) where
  release_each-gone :
      (haloed : Items) (freed : ℕ) (s : Ipam)
      → contains address s.reservations ≡ false
      → contains address ((release_each env duration haloed freed s).0).reservations ≡ false
  unfolding release_each
  release_each-gone [] freed s h = h
  release_each-gone ((a, when) ∷ haloed) freed s h =
      release_each-gone haloed _ _
        (ground (arith, lookup-release_one env duration a when s address))

  release_each-frees :
      (when : ℕ) (haloed : Items) (freed : ℕ) (s : Ipam)
      → ((k : ℕ) → duration < env.time k - when)
      → elem (address, when) haloed ≡ true
      → contains address ((release_each env duration haloed freed s).0).reservations ≡ false
  unfolding release_each elem
  release_each-frees when [] freed s old here = absurd (false≢true here)
  release_each-frees when ((a, w) ∷ haloed) freed s old here =
      elim (Bool-cases (nat_beq a address && nat_beq w when)) [
        | inl same ↦
            release_each-gone haloed _ _
              (ground (arith, lookup-release_one env duration a w s address, old s.ticks))
        | inr other ↦ release_each-frees when haloed _ _ old (rw other at here)
      ]

  -- An item of the list that has expired frees its address, whatever reservation the address has.
  pub release_haloed-frees :
      (when : ℕ) (s : Ipam)
      → ((k : ℕ) → duration < env.time k - when)
      → elem (address, when) s.halo ≡ true
      → contains address ((release_haloed env duration s).0).reservations ≡ false
  unfolding release_haloed
  release_haloed-frees when s old here = release_each-frees when s.halo 0 s old here
