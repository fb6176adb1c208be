-- ===== src/Interface/Floating.antt =====
-- A floating address: an interface without one gets it, and a second one is lost
-- (assign_floating_ip of shakenfist/external_api/util.py).
use Prim.Native.String.{String}
use mathlib.Core.Path.{subst}
use mathlib.Core.Option.{some-injective}
use shakenfist.Prelude.{
  ℕ, ◌≡◌, ◌≢◌, refl, sym, ap, none, some, lookup, string_eq, lookup-insert_self, Option-cases, ◌⊎◌,
  inl, inr,
}
use shakenfist.Ipam.Model.{Reservation, Env, floating}
use shakenfist.Ipam.Halo.{IsHaloListed}
use shakenfist.Ipam.Reserve.{Granted, IsLive}
use shakenfist.Ipam.Allocate.{Allocation, reserve_random_free_address}
use shakenfist.Ipam.Outcome.{Outcome as Ipam_outcome}
use shakenfist.Ipam.Allocation.{reserve_random_free_address-Outcome}
use shakenfist.Interface.Model.{Interface, World, already_floating, set_floating}
use shakenfist.Interface.Allocate.{Outcome, answered, raised, allocated, assign_floating_ip}

pub answered≢allocated : {code : ℕ} → ◌≡◌ {A = Outcome} (answered code) allocated → ⊥
answered≢allocated h = cc

-- An interface that was given a floating address, and nothing else changed but the address's pool.
pub record Floats (iface_uuid : String) (ni : Interface) (w w' : World) : Type 0 where
  pub address : ℕ
  pub granted :
      Granted
        ("networkinterface", iface_uuid)
        floating
        address
        w.floating_network
        w'.floating_network
  pub interface : lookup iface_uuid w'.interfaces ≡ some (record ni { floating = some address })
  pub networks : w'.networks ≡ w.networks

module _ (env : Env) (bits : ℕ → ℕ) (iface_uuid : String) (ni : Interface) (w : World)
    (inv : IsHaloListed w.floating_network) (there : lookup iface_uuid w.interfaces ≡ some ni) where
  pool : Allocation
  pool =
      reserve_random_free_address env ("networkinterface", iface_uuid) floating "" bits
        w.floating_network

  pool-Outcome : Ipam_outcome ("networkinterface", iface_uuid) floating w.floating_network pool
  unfolding pool
  pool-Outcome =
      reserve_random_free_address-Outcome env ("networkinterface", iface_uuid) floating "" bits
        w.floating_network inv

  pool-Granted :
      (a : ℕ)
      → pool.1 ≡ some a
      → Granted ("networkinterface", iface_uuid) floating a w.floating_network pool.0
  pool-Granted a h = go pool pool-Outcome h
    where
      go :
          (p : Allocation)
          → Ipam_outcome ("networkinterface", iface_uuid) floating w.floating_network p
          → p.1 ≡ some a
          → Granted ("networkinterface", iface_uuid) floating a w.floating_network p.0
      go (t, none) o e = cc
      go (t, some b) o e =
          subst (λ x. Granted ("networkinterface", iface_uuid) floating x w.floating_network t)
            (some-injective _ _ e) o.0

  pub assign_floating_ip-Floats :
      (w' : World)
      → ni.floating ≡ none
      → assign_floating_ip env bits iface_uuid w ≡ (w', allocated)
      → Floats iface_uuid ni w w'
  unfolding assign_floating_ip set_floating pool
  assign_floating_ip-Floats w' free h = elim (Option-cases pool.1) [
    | inl full ↦ absurd (answered≢allocated (ap (λ r. r.1) (rw (assign_floating_ip, full) at h)))
    | inr (a, got) ↦
        subst (Floats iface_uuid ni w)
          (ap (λ r. r.0) (rw (assign_floating_ip, got, set_floating, there, free) at h))
          (record {
            address = a;
            granted = pool-Granted a got;
            interface = lookup-insert_self iface_uuid _ w.interfaces;
            networks = refl;
          })
  ]

  -- The address that is lost: reserved for the interface, and not its floating address.
  pub record Lost (old : ℕ) (result : World × Outcome) : Type 0 where
    pub address : ℕ
    pub granted :
        Granted
          ("networkinterface", iface_uuid)
          floating
          address
          w.floating_network
          result.0.floating_network
    pub other : address ≢ old
    pub interface : lookup iface_uuid result.0.interfaces ≡ some ni
    pub outcome : result.1 ≡ raised already_floating

  pub assign_floating_ip-Lost :
      (old : ℕ) (r : Reservation)
      → ni.floating ≡ some old
      → IsLive old r w.floating_network
      → ((assign_floating_ip env bits iface_uuid w).1 ≡ answered 507)
        ⊎ Lost old (assign_floating_ip env bits iface_uuid w)
  unfolding assign_floating_ip set_floating pool
  assign_floating_ip-Lost old r has live = elim (Option-cases pool.1) [
    | inl full ↦ inl (rw (assign_floating_ip, full))
    | inr (a, got) ↦
        let granted = pool-Granted a got in
        inr (
          rw (assign_floating_ip, got, set_floating, there, has)
            (record {
              address = a;
              granted = granted;
              other = λ same.
                  granted.was_free r (subst (λ x. IsLive x r w.floating_network) (sym same) live);
              interface = there;
              outcome = refl;
            }))
  ]
