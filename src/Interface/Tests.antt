-- ===== src/Interface/Tests.antt =====
-- An interface on a small network: it is made with a floating address, floated again, and deleted.
use Prim.Native.String.{String}
use mathlib.Core.Bool.{false≢true}
use shakenfist.Prelude.{
  ◌≡◌, refl, true, List, [], ◌∷◌, none, some, lookup, insert, remove, string_eq, nat_eq, ◌⊎◌, ◌≢◌,
}
use shakenfist.ObjectState.Names.{initial}
use shakenfist.Ipam.Block.{num_addresses, network_address, get_random_address}
use shakenfist.Ipam.Model.{
  Ipam, Reservation, floating, Env, reserve, release_haloed, release_each, claim, is_free,
}
use shakenfist.Ipam.Halo.{IsHaloListed}
use shakenfist.Ipam.Allocate.{reserve_random_free_address, try_random}
use shakenfist.Instance.Devices.{no_repeats}
use shakenfist.Interface.Model.{
  Interface, Network, World, create_mac, choose_mac, add_networkinterface, new_interface,
  set_floating, hard_delete_interface,
}
use shakenfist.Interface.Allocate.{
  NetDesc, any, answered, allocated, assign_floating_ip, allocate_address, make_interface,
  netdesc_allocate_address,
}
use shakenfist.Interface.Floating.{Lost, assign_floating_ip-Lost}
use shakenfist.Interface.Joined.{Joined, netdesc_allocate_address-Joined}
use shakenfist.Interface.Macs.{hard_delete_interface-reuses}
use shakenfist.Interface.Left.{Returned, delete_interface-netdesc_allocate_address}

abbrev env : Env
env = record { time = λ k. 1000; ip_deletion_halo_duration = 300 }

-- 10.0.0.0/29 and 192.168.0.0/29, with no reservations
abbrev ipam : Ipam
ipam = record {
  block = record { address = 167772160; prefixlen = 29 };
  reservations = [];
  halo = [];
  ticks = 0;
}

abbrev public : Ipam
public = record ipam { block = record { address = 3232235520; prefixlen = 29 } }

abbrev network : Network
network = record { ipam = ipam; networkinterfaces = [] }

abbrev world : World
world = record {
  macaddresses = ("02:00:00:00:00:01", "other") ∷ [];
  interfaces = [];
  networks = ("net1", network) ∷ [];
  floating_network = public;
  defloats = [];
}

abbrev netdesc : NetDesc
netdesc = record {
  network_uuid = "net1";
  address = any;
  macaddress = none;
  model = none;
  float = true;
}

abbrev macs : List String
macs = "02:00:00:00:00:01" ∷ "02:00:00:00:00:02" ∷ []

abbrev after : World
after = (netdesc_allocate_address env (λ i. 3) "ni1" netdesc "i1" 0 macs world).0

found : lookup "net1" world.networks ≡ some network
unfolding lookup
found = refl

made : netdesc_allocate_address env (λ i. 3) "ni1" netdesc "i1" 0 macs world ≡ (after, allocated)
unfolding netdesc_allocate_address allocate_address make_interface new_interface choose_mac
    create_mac add_networkinterface assign_floating_ip set_floating reserve_random_free_address
    try_random reserve release_haloed release_each claim is_free lookup insert num_addresses
    network_address get_random_address
made = refl

abbrev ni : Interface
ni = record {
  network_uuid = "net1";
  instance_uuid = "i1";
  macaddr = "02:00:00:00:00:02";
  ipv4 = some 167772163;
  order = 0;
  model = "virtio";
  floating = some 3232235523;
  state = some initial;
}

is_made : lookup "ni1" after.interfaces ≡ some ni
unfolding netdesc_allocate_address allocate_address make_interface new_interface choose_mac
    create_mac add_networkinterface assign_floating_ip set_floating reserve_random_free_address
    try_random reserve release_haloed release_each claim is_free lookup insert num_addresses
    network_address get_random_address
is_made = refl

empty-IsHaloListed : IsHaloListed ipam
empty-IsHaloListed = record { listed = tt; distinct = tt }

public-IsHaloListed : IsHaloListed public
public-IsHaloListed = record { listed = tt; distinct = tt }

netdesc_allocate_address-Joined_example : Joined netdesc "ni1" "i1" network world after
netdesc_allocate_address-Joined_example =
    netdesc_allocate_address-Joined env (λ i. 3) "ni1" netdesc "i1" 0 macs world after network found
      empty-IsHaloListed public-IsHaloListed made

no_interfaces : no_repeats network.networkinterfaces ≡ true
unfolding no_repeats
no_interfaces = refl

delete_interface-netdesc_allocate_address_example :
    Returned env netdesc "ni1" "i1" world after network
delete_interface-netdesc_allocate_address_example =
    delete_interface-netdesc_allocate_address env (λ i. 3) "ni1" netdesc "i1" 0 macs world after
      network refl found empty-IsHaloListed public-IsHaloListed no_interfaces made

-- The interface floats, and is floated once more.
abbrev floats : Reservation
floats = record {
  user = some ("networkinterface", "ni1");
  when = 900;
  kind = floating;
  comment = "";
}

abbrev floated : World
floated = record {
  macaddresses = [];
  interfaces = ("ni1", ni) ∷ [];
  networks = [];
  floating_network = record public { reservations = (3232235523, floats) ∷ [] };
  defloats = [];
}

floated-IsHaloListed : IsHaloListed floated.floating_network
floated-IsHaloListed = record { listed = tt; distinct = tt }

in_floated : lookup "ni1" floated.interfaces ≡ some ni
unfolding lookup
in_floated = refl

has_address : lookup 3232235523 floated.floating_network.reservations ≡ some floats
unfolding lookup
has_address = refl

assign_floating_ip-Lost_example :
    ((assign_floating_ip env (λ i. 4) "ni1" floated).1 ≡ answered 507)
    ⊎ Lost env
        (λ i. 4)
        "ni1"
        ni
        floated
        floated-IsHaloListed
        in_floated
        3232235523
        (assign_floating_ip env (λ i. 4) "ni1" floated)
assign_floating_ip-Lost_example =
    assign_floating_ip-Lost env (λ i. 4) "ni1" ni floated floated-IsHaloListed in_floated 3232235523
      floats refl (has_address, λ p. cc)

-- Two interfaces with one MAC address, the second of which asked for it
abbrev twins : World
twins = record floated {
  macaddresses = ("02:00:00:00:00:02", "ni1") ∷ [];
  interfaces = ("ni1", ni) ∷ ("ni2", ni) ∷ [];
}

twins_differ : ◌≢◌ {A = String} "ni1" "ni2"
twins_differ = λ e. false≢true ((string_eq.beq_iff "ni1" "ni2").1 e)

first_twin : lookup "ni1" twins.interfaces ≡ some ni
unfolding lookup
first_twin = refl

second_twin : lookup "ni2" twins.interfaces ≡ some ni
unfolding lookup
second_twin = refl

hard_delete_interface-reuses_example :
    (lookup "ni1" (hard_delete_interface "ni2" twins).interfaces ≡ some ni)
    × (choose_mac "ni3" none
          ("02:00:00:00:00:02" ∷ [])
          (hard_delete_interface "ni2" twins).macaddresses
        ≡ some (
          "02:00:00:00:00:02",
          insert "02:00:00:00:00:02" "ni3" (remove "02:00:00:00:00:02" twins.macaddresses),
        ))
hard_delete_interface-reuses_example =
    hard_delete_interface-reuses twins "ni1" "ni2" "ni3" "02:00:00:00:00:02" ni ni [] twins_differ
      first_twin second_twin refl refl
