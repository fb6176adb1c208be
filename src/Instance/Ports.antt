-- ===== src/Instance/Ports.antt =====
-- The console ports of the instances on a node (_allocate_console_port, _free_console_port,
-- allocate_instance_ports and deallocate_instance_ports of shakenfist/instance.py). The random
-- candidates are a list; that it runs out stands for the loop going on.
use Prim.Native.String.{String}
use shakenfist.Prelude.{
  ℕ, Bool, true, false, List, [], ◌∷◌, ◌++◌, Option, none, some, Dict, lookup, insert, remove,
  contains, keys, ◌==◌, string_eq, nat_eq, elem, if◌then◌else◌,
}

-- The attribute 'ports' of an instance.
pub record Ports : Type 0 where
  pub console_port : ℕ
  pub vdi_port : ℕ
  pub vdi_tls_port : Option ℕ

-- The entries /sf/console/<node>/<port> of one node, with their instance, and the attributes.
pub record PortsDb : Type 0 where
  pub console : Dict ℕ String
  pub ports : Dict String Ports

-- _allocate_console_port: the port, the candidates that are left, and the entries. `binds` says to
-- which ports the socket can be bound.
unfoldable pub allocate_console_port :
    String → (ℕ → Bool) → List ℕ → List ℕ → Dict ℕ String → Option (ℕ × List ℕ × Dict ℕ String)
unfolding elem
allocate_console_port uuid binds consumed [] console = none
allocate_console_port uuid binds consumed (port ∷ candidates) console =
    let next = allocate_console_port uuid binds consumed candidates console in
    let next_consumed =
      allocate_console_port uuid binds (consumed ++ (port ∷ [])) candidates console in
    if elem port consumed
    then next
    else if binds port
    then if contains port console then next else some (port, candidates, insert port uuid console)
    else next_consumed

infixl 5 ◌>>=◌
abbrev pub ◌>>=◌ {ℓ κ} : {A : Type ℓ} {B : Type κ} → Option A → (A → Option B) → Option B
none >>= f = none
some a >>= f = f a

-- the third port, which only a console of kind spice has
unfoldable pub allocate_tls :
    String → (ℕ → Bool) → Bool → List ℕ → Dict ℕ String → Option (Option ℕ × Dict ℕ String)
unfolding allocate_console_port
allocate_tls uuid binds false candidates console = some (none, console)
allocate_tls uuid binds true candidates console = do
  tls ← allocate_console_port uuid binds (keys console) candidates console
  some (some tls.0, tls.2)

-- the ports that are new
unfoldable pub allocate_all :
    String → (ℕ → Bool) → Bool → List ℕ → Dict ℕ String → Option (Ports × Dict ℕ String)
unfolding allocate_console_port allocate_tls
allocate_all uuid binds spice candidates console = do
  first ← allocate_console_port uuid binds (keys console) candidates console
  second ← allocate_console_port uuid binds (keys first.2) first.1 first.2
  third ← allocate_tls uuid binds spice second.1 second.2
  some (record { console_port = first.0; vdi_port = second.0; vdi_tls_port = third.0 }, third.1)

-- allocate_instance_ports
unfoldable pub allocate_instance_ports :
    String → (ℕ → Bool) → Bool → List ℕ → PortsDb → Option PortsDb
unfolding allocate_all
allocate_instance_ports uuid binds spice candidates db = elim (lookup uuid db.ports) [
  | some p ↦ some db
  | none ↦ (do
    allocated ← allocate_all uuid binds spice candidates db.console
    some (record { console = allocated.1; ports = insert uuid allocated.0 db.ports }))
]

-- _free_console_port
abbrev pub free_console_port : Option ℕ → Dict ℕ String → Dict ℕ String
free_console_port none console = console
free_console_port (some port) console = if port == 0 then console else remove port console

-- deallocate_instance_ports
unfoldable pub deallocate_instance_ports : String → PortsDb → PortsDb
deallocate_instance_ports uuid db = elim (lookup uuid db.ports) [
  | none ↦ record db { ports = remove uuid db.ports }
  | some p ↦ record {
    console =
        free_console_port p.vdi_tls_port (
          free_console_port (some p.vdi_port) (free_console_port (some p.console_port) db.console));
    ports = remove uuid db.ports;
  }
]
