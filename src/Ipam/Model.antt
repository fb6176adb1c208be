-- ===== src/Ipam/Model.antt =====
-- The state of an IPAM of version 4 or later, and its operations (shakenfist/ipam.py). Each runs
-- under the lock `reservations`, which is taken to be granted, so it is one step.
use shakenfist.Prelude.{
  ℕ, ◌+◌, ◌-◌, String, Bool, true, false, List, [], ◌∷◌, ◌++◌, Option, none, some, Dict, lookup,
  contains, insert, remove, map, elem, erase, ltb, nat_eq, pair_eq, if◌then◌else◌,
}
use shakenfist.Ipam.Block.{Block, network_address, broadcast_address, get_address_at_index}

-- RESERVATION_TYPE_*
pub data Kind : Type 0 where
  network broadcast gateway floating routed instances deletion_halo unknown : Kind

-- `user` is `None`, or a pair of an object type and a uuid.
pub record Reservation : Type 0 where
  pub user : Option (String × String)
  pub when : ℕ
  pub kind : Kind
  pub comment : String

-- `reservations` is what etcd holds under /sf/ipam_reservations/<uuid>/, `halo` the attribute
-- `deletion-halo`. `ticks` counts the readings of the clock, of which `time` has the values.
pub record Ipam : Type 0 where
  pub block : Block
  pub reservations : Dict ℕ Reservation
  pub halo : List (ℕ × ℕ)
  pub ticks : ℕ

abbrev pub Clock : Type 0
Clock = ℕ → ℕ

-- What the operations take from outside: the clock, and config.IP_DELETION_HALO_DURATION.
pub record Env : Type 0 where
  pub time : Clock
  pub ip_deletion_halo_duration : ℕ

-- is_free
unfoldable pub is_free : Ipam → ℕ → Bool
is_free s address = elim (contains address s.reservations) [ true ↦ false | false ↦ true ]

-- _add_item_in_attribute_list('deletion-halo', …)
unfoldable pub add_halo : ℕ × ℕ → Ipam → Ipam
add_halo item s = if elem item s.halo then s else record s { halo = s.halo ++ item ∷ [] }

-- _remove_item_in_attribute_list('deletion-halo', …)
unfoldable pub remove_halo : ℕ × ℕ → Ipam → Ipam
remove_halo item s = if elem item s.halo then record s { halo = erase item s.halo } else s

-- the part of reserve that runs under the lock
unfoldable pub claim : ℕ → Reservation → Ipam → Ipam × Bool
unfolding is_free
claim address reservation s =
    if is_free s address
    then (record s { reservations = insert address reservation s.reservations }, true)
    else (s, false)

module _ (env : Env) where
  open env use {time, ip_deletion_halo_duration}

  -- one round of the loop of release_haloed, and whether it frees the address
  unfoldable pub release_one : ℕ → ℕ → ℕ → Ipam → Ipam × Bool
  unfolding remove_halo
  release_one duration address when s =
      let t = time s.ticks in
      let s' = record s { ticks = s.ticks + 1 } in
      if ltb duration (t - when)
      then (
        remove_halo (address, when) (record s' { reservations = remove address s'.reservations }),
        true,
      )
      else (s', false)

  -- the loop of release_haloed, over the list as it was read at its start
  unfoldable pub release_each : ℕ → List (ℕ × ℕ) → ℕ → Ipam → Ipam × ℕ
  unfolding release_one
  release_each duration [] freed s = (s, freed)
  release_each duration ((address, when) ∷ haloed) freed s =
      let (s', released) = release_one duration address when s in
      release_each duration haloed (if released then freed + 1 else freed) s'

  -- release_haloed
  unfoldable pub release_haloed : ℕ → Ipam → Ipam × ℕ
  unfolding release_each
  release_haloed duration s = release_each duration s.halo 0 s

  -- reserve
  unfoldable pub reserve : ℕ → String × String → Kind → String → Ipam → Ipam × Bool
  unfolding release_haloed claim
  reserve address user kind comment s =
      let s₁ = (release_haloed ip_deletion_halo_duration s).0 in
      let reservation : Reservation = record {
        user = some user;
        when = time s₁.ticks;
        kind = kind;
        comment = comment;
      } in
      claim address reservation (record s₁ { ticks = s₁.ticks + 1 })

  -- release
  unfoldable pub release : ℕ → Ipam → Ipam × Bool
  unfolding is_free add_halo
  release address s =
      let now = time s.ticks in
      let reservation : Reservation = record {
        user = none;
        when = now;
        kind = deletion_halo;
        comment = "";
      } in
      let s' = record s { ticks = s.ticks + 1 } in
      if is_free s' address then (s', false) else (
        add_halo (address, now)
            (record s' { reservations = insert address reservation s'.reservations }),
        true,
      )

  -- new, on the block: the reservations that every network starts with. A block of one address has
  -- no address at index 1, which is an IndexError, `none`.
  unfoldable pub new : Block → String → Option Ipam
  unfolding reserve
  new block network_uuid =
      let user : String × String = ("network", network_uuid) in
      let s₀ : Ipam = record { block = block; reservations = []; halo = []; ticks = 0 } in
      let s₁ = (reserve (network_address block) user network "" s₀).0 in
      let s₂ = (reserve (broadcast_address block) user broadcast "" s₁).0 in
      elim (get_address_at_index block 1) [
        | none ↦ none
        | some address ↦ some ((reserve address user gateway "" s₂).0)
      ]

  -- get_reservation
  unfoldable pub get_reservation : ℕ → Ipam → Option Reservation
  get_reservation address s = lookup address s.reservations

  -- get_haloed_addresses
  unfoldable pub get_haloed_addresses : Ipam → List ℕ
  get_haloed_addresses s = map (λ (item : ℕ × ℕ). item.0) s.halo
