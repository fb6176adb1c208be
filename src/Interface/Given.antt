-- ===== src/Interface/Given.antt =====
-- What an interface has been given when _netdesc_allocate_address returns
-- (shakenfist/external_api/instance.py).
use Prim.Native.String.{String}
use mathlib.Core.Path.{subst}
use shakenfist.Prelude.{
  ℕ, ◌≡◌, refl, sym, ap, Bool, true, false, List, Option, none, some, lookup, insert, string_eq, ok,
  ok-injective, lookup-insert_self, Option-cases, inl, inr,
}
use shakenfist.ObjectState.Names.{initial}
use shakenfist.Ipam.Model.{Ipam, Env, reserve, instances}
use shakenfist.Ipam.Halo.{IsHaloListed}
use shakenfist.Ipam.Reserve.{Granted, reserve-Granted}
use shakenfist.Ipam.Allocate.{Allocation, reserve_random_free_address}
use shakenfist.Ipam.Outcome.{Outcome as Ipam_outcome}
use shakenfist.Ipam.Allocation.{reserve_random_free_address-Outcome}
use shakenfist.Instance.Placement.{add_item}
use shakenfist.Interface.Model.{
  Interface, Network, World, choose_mac, add_networkinterface, new_interface,
}
use shakenfist.Interface.Allocate.{Asked, without, any, this, given, taken, allocate_address}

pub some≢none {ℓ} : {A : Type ℓ} {a : A} → ◌≡◌ {A = Option A} (some a) none → ⊥
some≢none h = cc

-- The address that an instance asked for, and what became of the IPAM: an address that is given was
-- nobody's and is now the instance's, and nobody else lost one.
unfoldable pub Address : String → Asked → Option ℕ → Ipam → Ipam → Type 0
Address inst without address s s' = (address ≡ none) × (s' ≡ s)
Address inst any address s s' =
    (a : ℕ) × (address ≡ some a) × Granted ("instance", inst) instances a s s'
Address inst (this wanted) address s s' =
    (address ≡ some wanted) × Granted ("instance", inst) instances wanted s s'

module _ (env : Env) (bits : ℕ → ℕ) (inst : String) (s : Ipam) (inv : IsHaloListed s) where
  given-Address :
      (r : Allocation) (address : Option ℕ)
      → Ipam_outcome ("instance", inst) instances s r
      → (given r).1 ≡ ok address
      → Address inst any address s (given r).0
  unfolding Address
  given-Address (t, none) address o h = cc
  given-Address (t, some a) address o h = (a, sym (ok-injective h), o.0)

  taken-Address :
      (wanted : ℕ) (r : Ipam × Bool) (address : Option ℕ)
      → (r.1 ≡ true → Granted ("instance", inst) instances wanted s r.0)
      → (taken wanted r).1 ≡ ok address
      → Address inst (this wanted) address s (taken wanted r).0
  unfolding Address
  taken-Address wanted (t, true) address g h = (sym (ok-injective h), g refl)
  taken-Address wanted (t, false) address g h = cc

  pub allocate_address-Address :
      (asked : Asked) (address : Option ℕ)
      → (allocate_address env bits inst asked s).1 ≡ ok address
      → Address inst asked address s (allocate_address env bits inst asked s).0
  unfolding allocate_address
  allocate_address-Address without address h = unfold Address in (sym (ok-injective h), refl)
  allocate_address-Address any address h =
      given-Address (reserve_random_free_address env ("instance", inst) instances "" bits s) address
        (reserve_random_free_address-Outcome env ("instance", inst) instances "" bits s inv) h
  allocate_address-Address (this wanted) address h =
      taken-Address wanted (reserve env wanted ("instance", inst) instances "" s) address
        (λ g. reserve-Granted env wanted ("instance", inst) instances "" s inv g) h

-- An interface that is new, in the list of its network.
pub record Written (iface_uuid : String) (static_values : Interface) (w w' : World) : Type 0 where
  pub network : Network
  pub mac : String
  pub found : lookup static_values.network_uuid w.networks ≡ some network
  pub networks :
      w'.networks
      ≡ insert static_values.network_uuid
          (record network { networkinterfaces = add_item iface_uuid network.networkinterfaces })
          w.networks
  pub interface :
      lookup iface_uuid w'.interfaces
      ≡ some (record static_values { macaddr = mac; floating = none; state = some initial })
  pub same_floating : w'.floating_network ≡ w.floating_network

module _ (iface_uuid : String) (static_values : Interface) (macaddress : Option String)
    (candidates : List String) (w w' : World) where
  pub new_interface-Written :
      new_interface iface_uuid static_values macaddress candidates w ≡ (w', none)
      → Written iface_uuid static_values w w'
  unfolding new_interface add_networkinterface
  new_interface-Written h =
      elim (Option-cases (choose_mac iface_uuid macaddress candidates w.macaddresses)) [
        | inl out ↦ absurd (some≢none (ap (λ r. r.1) (rw (new_interface, out) at h)))
        | inr (found, chosen) ↦ elim (Option-cases (lookup static_values.network_uuid w.networks)) [
          | inl gone ↦ absurd (
              some≢none
                (ap (λ r. r.1) (rw (new_interface, chosen, add_networkinterface, gone) at h)))
          | inr (n, there) ↦
              subst (Written iface_uuid static_values w)
                (ap (λ r. r.0) (rw (new_interface, chosen, add_networkinterface, there) at h))
                (record {
                  network = n;
                  mac = found.0;
                  found = there;
                  networks = refl;
                  interface = lookup-insert_self iface_uuid _ w.interfaces;
                  same_floating = refl;
                })
        ]
      ]
