-- ===== src/Interface/Model.antt =====
-- Network interfaces and what they hold: NetworkInterface of shakenfist/networkinterface.py, and
-- add_networkinterface and remove_networkinterface of shakenfist/network.py. The DHCP leases are left
-- out, and of the network's object there is its IPAM and the list of its interfaces.
use Prim.Native.String.{String}
use shakenfist.Prelude.{
  ℕ, Bool, true, false, List, [], ◌∷◌, Option, none, some, Dict, lookup, insert, remove, contains,
  ◌==◌, string_eq, if◌then◌else◌, Result, ok, err,
}
use shakenfist.ObjectState.Names.{
  StateName, initial, deleted, networkinterface, option_state_name_eq, OptionStateName-discrete,
}
use shakenfist.ObjectState.Update.{Failure, validate}
use shakenfist.Ipam.Model.{Ipam, Env, release}
use shakenfist.Instance.Placement.{add_item, remove_item}

pub record Interface : Type 0 where
  pub network_uuid : String
  pub instance_uuid : String
  pub macaddr : String
  pub ipv4 : Option ℕ
  pub order : ℕ
  pub model : String
  pub floating : Option ℕ
  pub state : Option StateName

-- A network, as far as its interfaces go.
pub record Network : Type 0 where
  pub ipam : Ipam
  pub networkinterfaces : List String

-- What is in etcd: /sf/macaddress/<mac> with its interface, the interfaces, the networks and the
-- IPAM of the floating network; and the DefloatNetworkInterfaceTasks that were enqueued.
pub record World : Type 0 where
  pub macaddresses : Dict String String
  pub interfaces : Dict String Interface
  pub networks : Dict String Network
  pub floating_network : Ipam
  pub defloats : List (String × String)

-- `out_of_candidates` is no exception of the program, which would go on.
pub data InterfaceError : Type 0 where
  network_missing already_floating interface_missing out_of_candidates : InterfaceError
  invalid : Failure → InterfaceError

-- `while not etcd.create('macaddress', None, possible_mac, …)`, over the random addresses
unfoldable pub create_mac :
    String → List String → Dict String String → Option (String × Dict String String)
create_mac interface_uuid [] macaddresses = none
create_mac interface_uuid (possible_mac ∷ candidates) macaddresses =
    let next = create_mac interface_uuid candidates macaddresses in
    if contains possible_mac macaddresses
    then next
    else some (possible_mac, insert possible_mac interface_uuid macaddresses)

-- the MAC address of an interface: the one asked for, or a new one
unfoldable pub choose_mac :
    String → Option String → List String → Dict String String → Option (String × Dict String String)
unfolding create_mac
choose_mac interface_uuid none candidates macaddresses =
    create_mac interface_uuid candidates macaddresses
choose_mac interface_uuid (some macaddress) candidates macaddresses =
    if macaddress == ""
    then create_mac interface_uuid candidates macaddresses
    else some (macaddress, macaddresses)

-- add_networkinterface, on the networks
unfoldable pub add_networkinterface : String → String → World → World × Option InterfaceError
unfolding add_item
add_networkinterface interface_uuid network_uuid w = elim (lookup network_uuid w.networks) [
  | none ↦ (w, some network_missing)
  | some n ↦ (
    record w {
      networks =
          insert network_uuid
            (record n { networkinterfaces = add_item interface_uuid n.networkinterfaces })
            w.networks;
    },
    none,
  )
]

-- new, for a MAC address that is asked for or `none`; an exception leaves what was written before it
unfoldable pub new_interface :
    String → Interface → Option String → List String → World → World × Option InterfaceError
unfolding choose_mac add_networkinterface
new_interface interface_uuid static_values macaddress candidates w =
    elim (choose_mac interface_uuid macaddress candidates w.macaddresses) [
      | none ↦ (w, some out_of_candidates)
      | some (mac, macaddresses) ↦
          add_networkinterface interface_uuid static_values.network_uuid (record w {
            macaddresses = macaddresses;
            interfaces =
                insert interface_uuid
                  (record static_values { macaddr = mac; floating = none; state = some initial })
                  w.interfaces;
          })
    ]

abbrev pub both : Option ℕ → Option ℕ → Bool
both (some new) (some old) = true
both _ _ = false

-- the setter of `floating`
unfoldable pub set_floating : String → Option ℕ → World → Result InterfaceError World
set_floating interface_uuid address w = elim (lookup interface_uuid w.interfaces) [
  | none ↦ err interface_missing
  | some ni ↦
      if both address ni.floating
      then err already_floating
      else ok (record w {
        interfaces = insert interface_uuid (record ni { floating = address }) w.interfaces;
      })
]

-- the release of the address of an interface; an interface without one releases None, which is free
abbrev pub release_address : Env → Option ℕ → Ipam → Ipam
release_address env none ipam = record ipam { ticks = Prim.Native.Nat.suc ipam.ticks }
release_address env (some address) ipam = (release env address ipam).0

-- `if n: n.ipam.release(self.ipv4); n.remove_networkinterface(self)`
unfoldable pub leave_network : Env → String → Interface → Dict String Network → Dict String Network
unfolding release remove_item
leave_network env interface_uuid ni networks = elim (lookup ni.network_uuid networks) [
  | none ↦ networks
  | some n ↦
      insert ni.network_uuid
        (record {
          ipam = release_address env ni.ipv4 n.ipam;
          networkinterfaces = remove_item interface_uuid n.networkinterfaces;
        })
        networks
]

-- `self.state = dbo.STATE_DELETED`
unfoldable pub set_deleted : Interface → Result InterfaceError Interface
unfolding OptionStateName-discrete validate
set_deleted ni =
    if ni.state == some deleted then ok ni else elim (validate networkinterface ni.state deleted) [
      | ok u ↦ ok (record ni { state = some deleted })
      | err e ↦ err (invalid e)
    ]

abbrev pub defloat_task : String → Interface → List (String × String) → List (String × String)
defloat_task interface_uuid ni defloats = elim ni.floating [
  | none ↦ defloats
  | some address ↦ (ni.network_uuid, interface_uuid) ∷ defloats
]

-- delete; an exception leaves what was written before it
unfoldable pub delete_interface : Env → String → World → World × Option InterfaceError
unfolding leave_network set_deleted
delete_interface env interface_uuid w = elim (lookup interface_uuid w.interfaces) [
  | none ↦ (w, some interface_missing)
  | some ni ↦
      let left = record w {
        networks = leave_network env interface_uuid ni w.networks;
        defloats = defloat_task interface_uuid ni w.defloats;
      } in
      elim (set_deleted ni) [
        | err e ↦ (left, some e)
        | ok gone ↦ (record left { interfaces = insert interface_uuid gone w.interfaces }, none)
      ]
]

-- hard_delete
unfoldable pub hard_delete_interface : String → World → World
hard_delete_interface interface_uuid w = elim (lookup interface_uuid w.interfaces) [
  | none ↦ w
  | some ni ↦ record w {
    macaddresses = remove ni.macaddr w.macaddresses;
    interfaces = remove interface_uuid w.interfaces;
  }
]
