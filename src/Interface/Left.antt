-- ===== src/Interface/Left.antt =====
-- The deletion of an interface gives back its address (NetworkInterface.delete of
-- shakenfist/networkinterface.py).
use Prim.Native.String.{String}
use mathlib.Core.Path.{subst}
use shakenfist.Prelude.{
  ℕ, ◌≡◌, refl, sym, ap, ◌∙◌, true, false, not, ◌&&◌, List, ◌∷◌, Option, none, some, lookup, elem,
  ◌==◌, string_eq, nat_eq, beq_refl, ok, lookup-insert_self, ◌⊎◌, inl, inr,
}
use shakenfist.ObjectState.Names.{
  StateName, initial, created, deleted, networkinterface, option_state_name_eq,
  OptionStateName-discrete, StateName-discrete,
}
use shakenfist.ObjectState.Tables.{state_targets, in_state_targets, in_targets}
use shakenfist.ObjectState.Update.{validate}
use shakenfist.Ipam.Model.{Reservation, Env, instances, deletion_halo, release}
use shakenfist.Ipam.Halo.{IsHaloListed}
use shakenfist.Ipam.Reserve.{IsLive}
use shakenfist.Ipam.Release.{Released, release-Released}
use shakenfist.Instance.Placement.{remove_item}
use shakenfist.Instance.Devices.{no_repeats}
use shakenfist.Instance.Listed.{elem-remove_item, no_repeats-add_item}
use shakenfist.Interface.Model.{
  Interface, Network, World, InterfaceError, leave_network, set_deleted, delete_interface,
}
use shakenfist.Interface.Allocate.{NetDesc, any, allocated, netdesc_allocate_address}
use shakenfist.Interface.Given.{Address}
use shakenfist.Interface.Joined.{netdesc_allocate_address-Joined}

no_halo : instances ≡ deletion_halo → ⊥
no_halo e = cc

-- The states from which an interface may be deleted for the first time.
abbrev pub Deletable : Interface → Type 0
Deletable ni = (ni.state ≡ some initial) ⊎ (ni.state ≡ some created)

validate-live :
    (value : StateName)
    → (value ≡ initial) ⊎ (value ≡ created)
    → (((some value == some deleted)) ≡ false)
      × (validate networkinterface (some value) deleted ≡ ok tt)
unfolding validate state_targets in_state_targets in_targets elem lookup OptionStateName-discrete
    StateName-discrete
validate-live value (inl e) =
    subst
      (λ v.
        ((some v == some deleted) ≡ false) × (validate networkinterface (some v) deleted ≡ ok tt))
      (sym e) (refl, refl)
validate-live value (inr e) =
    subst
      (λ v.
        ((some v == some deleted) ≡ false) × (validate networkinterface (some v) deleted ≡ ok tt))
      (sym e) (refl, refl)

set_deleted-from :
    (ni : Interface) (value : StateName)
    → (value ≡ initial) ⊎ (value ≡ created)
    → ni.state ≡ some value
    → set_deleted ni ≡ ok (record ni { state = some deleted })
unfolding set_deleted state_targets
set_deleted-from ni value known e =
    let (live, valid) = validate-live value known in rw (set_deleted, e, live, valid)

set_deleted-ok :
    (ni : Interface) → Deletable ni → set_deleted ni ≡ ok (record ni { state = some deleted })
set_deleted-ok ni (inl e) = set_deleted-from ni initial (inl refl) e
set_deleted-ok ni (inr e) = set_deleted-from ni created (inr refl) e

-- An interface that is gone: its address is in the halo of its network, it is in the list of the
-- network no more, and a floating address of it is to be taken away by a task.
pub record Left (env : Env) (uuid : String) (ni : Interface) (address : ℕ) (n : Network) (w : World)
    (result : World × Option InterfaceError) : Type 0 where
  pub after : Network
  pub returned : result.1 ≡ none
  pub network : lookup ni.network_uuid result.0.networks ≡ some after
  pub released : Released env address n.ipam after.ipam
  pub unlisted : elem uuid after.networkinterfaces ≡ false
  pub interface : lookup uuid result.0.interfaces ≡ some (record ni { state = some deleted })
  pub defloats :
      (a : ℕ) → ni.floating ≡ some a → result.0.defloats ≡ (ni.network_uuid, uuid) ∷ w.defloats

module _ (env : Env) (uuid : String) (ni : Interface) (address : ℕ) (n : Network) (w : World) where
  -- The deletion of an interface that holds its address does not raise; the address goes into the halo
  -- of its network and nobody else loses theirs, the interface is deleted and in no list, and a task
  -- is enqueued for its floating address, if it has one.
  pub delete_interface-Left :
      (r : Reservation)
      → lookup uuid w.interfaces ≡ some ni
      → lookup ni.network_uuid w.networks ≡ some n
      → ni.ipv4 ≡ some address
      → IsHaloListed n.ipam
      → IsLive address r n.ipam
      → no_repeats n.networkinterfaces ≡ true
      → Deletable ni
      → Left env uuid ni address n w (delete_interface env uuid w)
  unfolding delete_interface leave_network
  delete_interface-Left r there on has inv live once deletable =
      rw (delete_interface, there, set_deleted-ok ni deletable)
        (record {
          after = record {
            ipam = (release env address n.ipam).0;
            networkinterfaces = remove_item uuid n.networkinterfaces;
          };
          returned = refl;
          network = rw (leave_network, on, has) (lookup-insert_self ni.network_uuid _ w.networks);
          released = (release-Released env address n.ipam r inv live).1;
          unlisted =
              elem-remove_item uuid uuid n.networkinterfaces once
              ∙ ap (λ b. not b && elem uuid n.networkinterfaces) (beq_refl uuid);
          interface = lookup-insert_self uuid _ w.interfaces;
          defloats = λ a e. rw e;
        })

-- An interface that an instance was given with a random address, and deletes.
pub record Returned (env : Env) (netdesc : NetDesc) (uuid inst : String) (w w' : World)
    (n : Network) : Type 0 where
  pub address : ℕ
  pub was_free : (r : Reservation) → ¬ IsLive address r n.ipam
  pub middle : Network
  pub last : Network
  pub returned : (delete_interface env uuid w').1 ≡ none
  pub network : lookup netdesc.network_uuid (delete_interface env uuid w').0.networks ≡ some last
  pub released : Released env address middle.ipam last.ipam
  pub kept :
      (b : ℕ) (r : Reservation) → IsLive b r n.ipam → lookup b last.ipam.reservations ≡ some r
  pub unlisted : elem uuid last.networkinterfaces ≡ false

module _ (env : Env) (bits : ℕ → ℕ) (uuid : String) (netdesc : NetDesc) (inst : String) (order : ℕ)
    (candidates : List String) (w w' : World) where
  -- In a network whose halo lists only addresses that are reserved as haloed since that time, each
  -- once: an interface that is allocated with any address of it, and then deleted, puts that
  -- address, which nobody had, into the halo; whoever had an address of the network still has it, and
  -- the interface is in the list of the network no more.
  pub delete_interface-netdesc_allocate_address :
      (n : Network)
      → netdesc.address ≡ any
      → lookup netdesc.network_uuid w.networks ≡ some n
      → IsHaloListed n.ipam
      → IsHaloListed w.floating_network
      → no_repeats n.networkinterfaces ≡ true
      → netdesc_allocate_address env bits uuid netdesc inst order candidates w ≡ (w', allocated)
      → Returned env netdesc uuid inst w w' n
  unfolding Address
  delete_interface-netdesc_allocate_address n wants there inv inv' once h =
      let j =
        netdesc_allocate_address-Joined env bits uuid netdesc inst order candidates w w' n there inv
          inv' h in
      let (address, has, granted) =
        subst (λ a. Address inst a j.ni.ipv4 n.ipam j.after.ipam) wants j.address in
      let (r, reserved, _, kind) = granted.reserved in
      let live : IsLive address r j.after.ipam = (reserved, (λ halo. no_halo (sym kind ∙ halo))) in
      let on = ap (λ x. lookup x w'.networks) j.on_network ∙ j.is in
      let l =
        delete_interface-Left env uuid j.ni address j.after w' r j.interface on has granted.inv live
          (ap no_repeats j.list ∙ no_repeats-add_item uuid n.networkinterfaces once)
          (inl j.fresh_state) in
      record {
        address = address;
        was_free = granted.was_free;
        middle = j.after;
        last = l.after;
        returned = l.returned;
        network =
            ap (λ x. lookup x (delete_interface env uuid w').0.networks) (sym j.on_network)
            ∙ l.network;
        released = l.released;
        kept = λ b s alive.
            l.released.others b
              (λ same. granted.was_free s (subst (λ x. IsLive x s n.ipam) same alive))
            ∙ granted.live b s alive;
        unlisted = l.unlisted;
      }
