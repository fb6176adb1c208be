-- ===== src/Interface/Allocate.antt =====
-- The address, the interface and the floating address of one network of a new instance
-- (_netdesc_allocate_address of shakenfist/external_api/instance.py, assign_floating_ip of
-- shakenfist/external_api/util.py).
use Prim.Native.String.{String}
use shakenfist.Prelude.{
  ℕ, Bool, true, false, List, Option, none, some, lookup, insert, string_eq, Result, ok, err,
}
use shakenfist.Ipam.Model.{Ipam, Env, reserve, floating, instances}
use shakenfist.Ipam.Allocate.{Allocation, reserve_random_free_address}
use shakenfist.Instance.Disks.{or_text}
use shakenfist.Interface.Model.{World, InterfaceError, new_interface, set_floating}

-- A network description, once it passed the checks: an address like 'none', none, or one.
pub data Asked : Type 0 where
  without any : Asked
  this : ℕ → Asked

pub record NetDesc : Type 0 where
  pub network_uuid : String
  pub address : Asked
  pub macaddress : Option String
  pub model : Option String
  pub float : Bool

-- What comes of it: an error status, after which the instance is deleted due to an error; an exception
-- that is not handled; or the interface.
pub data Outcome : Type 0 where
  answered : ℕ → Outcome
  raised : InterfaceError → Outcome
  allocated : Outcome

-- The address given, or the status of the error
abbrev pub given : Allocation → Ipam × Result ℕ (Option ℕ)
given (ipam, none) = (ipam, err 507)
given (ipam, some address) = (ipam, ok (some address))

abbrev pub taken : ℕ → Ipam × Bool → Ipam × Result ℕ (Option ℕ)
taken address (ipam, true) = (ipam, ok (some address))
taken address (ipam, false) = (ipam, err 409)

module _ (env : Env) (bits : ℕ → ℕ) where
  -- assign_floating_ip: the exception CongestedNetwork is `answered 507`. The address is reserved
  -- before the setter is called.
  unfoldable pub assign_floating_ip : String → World → World × Outcome
  unfolding reserve_random_free_address set_floating
  assign_floating_ip interface_uuid w =
      let (ipam, address) =
        reserve_random_free_address env ("networkinterface", interface_uuid) floating "" bits
          w.floating_network in
      let w' = record w { floating_network = ipam } in
      elim address [
        | none ↦ (w', answered 507)
        | some a ↦ elim (set_floating interface_uuid (some a) w') [
          | ok w'' ↦ (w'', allocated)
          | err e ↦ (w', raised e)
        ]
      ]

  -- the address of the interface
  unfoldable pub allocate_address : String → Asked → Ipam → Ipam × Result ℕ (Option ℕ)
  unfolding reserve reserve_random_free_address
  allocate_address inst without ipam = (ipam, ok none)
  allocate_address inst any ipam =
      given (reserve_random_free_address env ("instance", inst) instances "" bits ipam)
  allocate_address inst (this address) ipam =
      taken address (reserve env address ("instance", inst) instances "" ipam)

  abbrev pub then_float : String → Bool → World × Option InterfaceError → World × Outcome
  then_float iface_uuid float (w, some e) = (w, raised e)
  then_float iface_uuid false (w, none) = (w, allocated)
  then_float iface_uuid true (w, none) = assign_floating_ip iface_uuid w

  -- the interface on a network whose address is known
  unfoldable pub make_interface :
      String → NetDesc → String → ℕ → List String → Option ℕ → World → World × Outcome
  unfolding new_interface assign_floating_ip
  make_interface iface_uuid netdesc inst order candidates address w =
      then_float iface_uuid netdesc.float (
        new_interface iface_uuid
          (record {
            network_uuid = netdesc.network_uuid;
            instance_uuid = inst;
            macaddr = "";
            ipv4 = address;
            order = order;
            model = or_text "virtio" netdesc.model;
            floating = none;
            state = none;
          })
          netdesc.macaddress candidates w)

  -- _netdesc_allocate_address
  unfoldable pub netdesc_allocate_address :
      String → NetDesc → String → ℕ → List String → World → World × Outcome
  unfolding allocate_address make_interface
  netdesc_allocate_address iface_uuid netdesc inst order candidates w =
      elim (lookup netdesc.network_uuid w.networks) [
        | none ↦ (w, answered 404)
        | some n ↦
            let (ipam, address) = allocate_address inst netdesc.address n.ipam in
            let w' = record w {
              networks = insert netdesc.network_uuid (record n { ipam = ipam }) w.networks;
            } in
            elim address [
              | err code ↦ (w', answered code)
              | ok a ↦ make_interface iface_uuid netdesc inst order candidates a w'
            ]
      ]
