-- ===== src/Interface/Joined.antt =====
-- A new interface holds what it asked for (_netdesc_allocate_address of
-- shakenfist/external_api/instance.py).
use Prim.Native.String.{String}
use mathlib.Core.Path.{subst}
use mathlib.Core.Option.{some-injective}
use shakenfist.Prelude.{
  ℕ, ◌≡◌, refl, sym, ap, ◌∙◌, Bool, true, false, ◌||◌, List, Option, none, some, lookup, insert,
  elem, string_eq, beq_refl, Result, ok, err, lookup-insert_self, ◌⊎◌, inl, inr,
}
use shakenfist.ObjectState.Names.{initial}
use shakenfist.Ipam.Model.{Ipam, Env, floating}
use shakenfist.Ipam.Halo.{IsHaloListed}
use shakenfist.Ipam.Reserve.{Granted}
use shakenfist.Instance.Disks.{or_text}
use shakenfist.Instance.Placement.{add_item}
use shakenfist.Interface.Model.{Interface, Network, World, InterfaceError, new_interface}
use shakenfist.Interface.Allocate.{
  NetDesc, Outcome, raised, allocated, allocate_address, then_float, make_interface,
  netdesc_allocate_address,
}
use shakenfist.Interface.Floating.{assign_floating_ip-Floats, answered≢allocated}
use shakenfist.Instance.Listed.{elem-add_item}
use shakenfist.Interface.Given.{Address, allocate_address-Address, Written, new_interface-Written}

raised≢allocated : {e : InterfaceError} → ◌≡◌ {A = Outcome} (raised e) allocated → ⊥
raised≢allocated h = cc

Result-cases :
    (r : Result ℕ (Option ℕ)) → ((a : Option ℕ) × (r ≡ ok a)) ⊎ ((code : ℕ) × (r ≡ err code))
Result-cases (ok a) = inl (a, refl)
Result-cases (err code) = inr (code, refl)

-- What an interface holds when it is made.
pub record Made (float : Bool) (iface_uuid inst network_uuid : String) (address : Option ℕ)
    (w w' : World) : Type 0 where
  pub network : Network
  pub ni : Interface
  pub found : lookup network_uuid w.networks ≡ some network
  pub networks :
      w'.networks
      ≡ insert network_uuid
          (record network { networkinterfaces = add_item iface_uuid network.networkinterfaces })
          w.networks
  pub interface : lookup iface_uuid w'.interfaces ≡ some ni
  pub ipv4 : ni.ipv4 ≡ address
  pub owner : ni.instance_uuid ≡ inst
  pub on_network : ni.network_uuid ≡ network_uuid
  pub fresh_state : ni.state ≡ some initial
  pub floated :
      float ≡ true
      → (a : ℕ) × (ni.floating ≡ some a)
        × Granted ("networkinterface", iface_uuid) floating a w.floating_network w'.floating_network

module _ (env : Env) (bits : ℕ → ℕ) (iface_uuid : String) (sv : Interface) where
  then_float-Made :
      (float : Bool) (r : World × Option InterfaceError) (w w' : World)
      → IsHaloListed w.floating_network
      → ((r.1 ≡ none) → Written iface_uuid sv w r.0)
      → then_float env bits iface_uuid float r ≡ (w', allocated)
      → Made float iface_uuid sv.instance_uuid sv.network_uuid sv.ipv4 w w'
  then_float-Made float (w1, some e) w w' inv written h =
      absurd (raised≢allocated (ap (λ r. r.1) h))
  then_float-Made false (w1, none) w w' inv written h =
      let v = written refl in
      subst (Made false iface_uuid sv.instance_uuid sv.network_uuid sv.ipv4 w) (ap (λ r. r.0) h)
        (record {
          network = v.network;
          ni = record sv { macaddr = v.mac; floating = none; state = some initial };
          found = v.found;
          networks = v.networks;
          interface = v.interface;
          ipv4 = refl;
          owner = refl;
          on_network = refl;
          fresh_state = refl;
          floated = λ no_. cc;
        })
  then_float-Made true (w1, none) w w' inv written h =
      let v = written refl in
      let ni : Interface = record sv { macaddr = v.mac; floating = none; state = some initial } in
      let f =
        assign_floating_ip-Floats env bits iface_uuid ni w1
          (subst IsHaloListed (sym v.same_floating) inv) v.interface w' refl h in
      record {
        network = v.network;
        ni = record ni { floating = some f.address };
        found = v.found;
        networks = f.networks ∙ v.networks;
        interface = f.interface;
        ipv4 = refl;
        owner = refl;
        on_network = refl;
        fresh_state = refl;
        floated = λ _. (
          f.address,
          refl,
          subst
              (λ s.
                Granted ("networkinterface", iface_uuid) floating f.address s w'.floating_network)
              v.same_floating f.granted,
        );
      }

-- What an instance holds on a network when _netdesc_allocate_address returns an interface.
pub record Joined (netdesc : NetDesc) (iface_uuid inst : String) (before : Network) (w w' : World)
    : Type 0 where
  pub after : Network
  pub ni : Interface
  pub is : lookup netdesc.network_uuid w'.networks ≡ some after
  pub interface : lookup iface_uuid w'.interfaces ≡ some ni
  pub address : Address inst netdesc.address ni.ipv4 before.ipam after.ipam
  pub owner : ni.instance_uuid ≡ inst
  pub on_network : ni.network_uuid ≡ netdesc.network_uuid
  pub listed : elem iface_uuid after.networkinterfaces ≡ true
  pub list : after.networkinterfaces ≡ add_item iface_uuid before.networkinterfaces
  pub fresh_state : ni.state ≡ some initial
  pub floated :
      netdesc.float ≡ true
      → (a : ℕ) × (ni.floating ≡ some a)
        × Granted ("networkinterface", iface_uuid) floating a w.floating_network w'.floating_network

module _ (env : Env) (bits : ℕ → ℕ) (iface_uuid : String) (netdesc : NetDesc) (inst : String)
    (order : ℕ) (candidates : List String) (w w' : World) where
  with_ipam : Network → Ipam → World
  with_ipam n ipam = record w {
    networks = insert netdesc.network_uuid (record n { ipam = ipam }) w.networks;
  }

  made :
      (n : Network) (ipam : Ipam) (address : Option ℕ)
      → IsHaloListed w.floating_network
      → make_interface env bits iface_uuid netdesc inst order candidates address (with_ipam n ipam)
        ≡ (w', allocated)
      → Made netdesc.float iface_uuid inst netdesc.network_uuid address (with_ipam n ipam) w'
  unfolding make_interface with_ipam
  made n ipam address inv h =
      let sv : Interface = record {
        network_uuid = netdesc.network_uuid;
        instance_uuid = inst;
        macaddr = "";
        ipv4 = address;
        order = order;
        model = or_text "virtio" netdesc.model;
        floating = none;
        state = none;
      } in
      let w1 = with_ipam n ipam in
      let r = new_interface iface_uuid sv netdesc.macaddress candidates w1 in
      then_float-Made env bits iface_uuid sv netdesc.float r w1 w' inv
        (λ e. new_interface-Written iface_uuid sv netdesc.macaddress candidates w1 r.0 (pair e)) h
    where
      pair : {r : World × Option InterfaceError} → r.1 ≡ none → r ≡ (r.0, none)
      pair {r} e = ap (λ x. (r.0, x)) e

  -- An address that is given and an interface that is made are what the instance holds.
  joined :
      (n : Network) (ipam : Ipam) (address : Option ℕ)
      → lookup netdesc.network_uuid w.networks ≡ some n
      → Address inst netdesc.address address n.ipam ipam
      → Made netdesc.float iface_uuid inst netdesc.network_uuid address (with_ipam n ipam) w'
      → Joined netdesc iface_uuid inst n w w'
  unfolding with_ipam
  joined n ipam address there a m =
      let e : record n { ipam = ipam } ≡ m.network = some-injective _ _ (
        sym (lookup-insert_self netdesc.network_uuid (record n { ipam = ipam }) w.networks)
        ∙ m.found) in
      record {
        after = record m.network {
          networkinterfaces = add_item iface_uuid m.network.networkinterfaces;
        };
        ni = m.ni;
        is =
            ap (lookup netdesc.network_uuid) m.networks
            ∙ lookup-insert_self netdesc.network_uuid _ _;
        interface = m.interface;
        address =
            subst (λ x. Address inst netdesc.address x n.ipam m.network.ipam) (sym m.ipv4)
              (subst (λ (x : Network). Address inst netdesc.address address n.ipam x.ipam) e a);
        owner = m.owner;
        on_network = m.on_network;
        listed =
            elem-add_item iface_uuid iface_uuid m.network.networkinterfaces
            ∙ ap (λ b. b || elem iface_uuid m.network.networkinterfaces) (beq_refl iface_uuid);
        list = ap (λ (x : Network). add_item iface_uuid x.networkinterfaces) (sym e);
        fresh_state = m.fresh_state;
        floated = m.floated;
      }

  -- Where the halos of the network and of the floating network list only addresses that are reserved
  -- as haloed since that time, each once, and _netdesc_allocate_address returns an interface: it is
  -- stored, it is in the list of its network, and it is the instance's; its address is the one asked
  -- for, or one that was free, is reserved for the instance, and nobody else lost theirs; and where
  -- it floats, so is its floating address, for the interface.
  pub netdesc_allocate_address-Joined :
      (n : Network)
      → lookup netdesc.network_uuid w.networks ≡ some n
      → IsHaloListed n.ipam
      → IsHaloListed w.floating_network
      → netdesc_allocate_address env bits iface_uuid netdesc inst order candidates w
        ≡ (w', allocated)
      → Joined netdesc iface_uuid inst n w w'
  unfolding netdesc_allocate_address with_ipam
  netdesc_allocate_address-Joined n there inv inv' h =
      let r = allocate_address env bits inst netdesc.address n.ipam in
      elim (Result-cases r.1) [
        | inr (code, refused) ↦ absurd (
            answered≢allocated (ap (λ x. x.1) (rw (netdesc_allocate_address, there, refused) at h)))
        | inl (address, got) ↦
            joined n r.0 address there
              (allocate_address-Address env bits inst n.ipam inv netdesc.address address got)
              (made n r.0 address inv' (rw (netdesc_allocate_address, there, got) at h))
      ]
