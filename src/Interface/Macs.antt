-- ===== src/Interface/Macs.antt =====
-- MAC addresses: an address that is chosen is nobody's, and what hard_delete of an interface with an
-- address of its own does to that (shakenfist/networkinterface.py).
use Prim.Native.String.{String}
use mathlib.Core.Path.{subst}
use mathlib.Core.Bool.{false≢true}
use mathlib.Core.Option.{some-injective}
use shakenfist.Prelude.{
  ◌≡◌, ◌≢◌, refl, sym, ap, ◌∙◌, true, false, List, [], ◌∷◌, none, some, Dict, lookup, insert,
  remove, contains, elem, is_some, string_eq, lookup-remove_self, lookup-remove_ne, Bool-cases,
  Option-cases, inl, inr, arith,
}
use shakenfist.Interface.Model.{Interface, World, create_mac, choose_mac, hard_delete_interface}

-- An address that nobody had and that is now entered for the interface.
pub record Fresh (interface_uuid : String) (macaddresses : Dict String String)
    (result : String × Dict String String) : Type 0 where
  pub free : lookup result.0 macaddresses ≡ none
  pub entered : result.1 ≡ insert result.0 interface_uuid macaddresses

not-contains :
    (mac : String) (macaddresses : Dict String String)
    → contains mac macaddresses ≡ false
    → lookup mac macaddresses ≡ none
not-contains mac macaddresses h = ground (arith, h)

create_mac-Fresh :
    (interface_uuid : String) (candidates : List String) (macaddresses : Dict String String)
    {result : String × Dict String String}
    → create_mac interface_uuid candidates macaddresses ≡ some result
    → Fresh interface_uuid macaddresses result
unfolding create_mac
create_mac-Fresh interface_uuid [] macaddresses h = cc
create_mac-Fresh interface_uuid (mac ∷ candidates) macaddresses h =
    elim (Bool-cases (contains mac macaddresses)) [
      | inl used ↦
          create_mac-Fresh interface_uuid candidates macaddresses (rw (create_mac, used) at h)
      | inr unused ↦
          subst (Fresh interface_uuid macaddresses)
            (some-injective _ _ (rw (create_mac, unused) at h))
            (record { free = not-contains mac macaddresses unused; entered = refl })
    ]

-- A candidate that is free is enough for an address to be found.
create_mac-returns :
    (interface_uuid mac : String) (candidates : List String) (macaddresses : Dict String String)
    → elem mac candidates ≡ true
    → lookup mac macaddresses ≡ none
    → is_some (create_mac interface_uuid candidates macaddresses) ≡ true
unfolding create_mac elem
create_mac-returns interface_uuid mac [] macaddresses there free = cc
create_mac-returns interface_uuid mac (m ∷ candidates) macaddresses there free = ground (
  arith,
  string_eq.beq_iff m mac,
  create_mac-returns interface_uuid mac candidates macaddresses,
  there,
  free,
)

-- The random addresses suffice, and what is chosen is free.
pub create_mac-found :
    (interface_uuid mac : String) (candidates : List String) (macaddresses : Dict String String)
    → elem mac candidates ≡ true
    → lookup mac macaddresses ≡ none
    → (result : String × Dict String String) × (create_mac interface_uuid candidates macaddresses
        ≡ some result)
      × Fresh interface_uuid macaddresses result
create_mac-found interface_uuid mac candidates macaddresses there free =
    elim (Option-cases (create_mac interface_uuid candidates macaddresses)) [
      | inr (result, found) ↦
          (result, found, create_mac-Fresh interface_uuid candidates macaddresses found)
      | inl out ↦ absurd (
          false≢true (
            sym (ap is_some out)
            ∙ create_mac-returns interface_uuid mac candidates macaddresses there free))
    ]

-- After the hard delete of an interface that had asked for the MAC address of another, the address is
-- chosen for the next interface that draws it, although the other interface still has it.
pub hard_delete_interface-reuses :
    (w : World) (first second third mac : String) (a b : Interface) (candidates : List String)
    → first ≢ second
    → lookup first w.interfaces ≡ some a
    → lookup second w.interfaces ≡ some b
    → a.macaddr ≡ mac
    → b.macaddr ≡ mac
    → (lookup first (hard_delete_interface second w).interfaces ≡ some a)
      × (choose_mac third none (mac ∷ candidates) (hard_delete_interface second w).macaddresses
          ≡ some (mac, insert mac third (remove mac w.macaddresses)))
unfolding hard_delete_interface choose_mac create_mac
hard_delete_interface-reuses w first second third mac a b candidates n ha hb ma mb = (
  rw (hard_delete_interface, hb) (lookup-remove_ne second first w.interfaces (λ e. n (sym e)) ∙ ha),
  rw (hard_delete_interface, hb, mb, create_mac, lookup-remove_self),
)
