-- ===== src/Instance/Owned.antt =====
-- No two instances on a node have the same console port (shakenfist/instance.py).
use Prim.Native.String.{String}
use mathlib.Core.Path.{subst}
use mathlib.Core.Option.{some-injective}
use shakenfist.Prelude.{
  ℕ, ◌≡◌, ◌≢◌, refl, sym, ap, ◌∙◌, Bool, true, false, List, [], ◌∷◌, Option, none, some, Dict,
  lookup, insert, remove, ◌==◌, string_eq, nat_eq, lookup-remove, lookup-insert_ne,
  lookup-insert_self, Bool-cases, Option-cases, ◌⊎◌, inl, inr, arith,
}
use shakenfist.Instance.Ports.{
  Ports, PortsDb, ◌>>=◌, allocate_all, allocate_instance_ports, free_console_port,
  deallocate_instance_ports,
}
use shakenfist.Instance.Fresh.{bind-some, Held, Grown, Held-Grown, allocate_all-Held}

-- Every instance holds the ports that its attribute says.
unfoldable pub Owned : PortsDb → Type 0
Owned db = (uuid : String) (p : Ports) → lookup uuid db.ports ≡ some p → Held uuid p db.console

true≢false : {b : Bool} → b ≡ true → b ≡ false → ⊥
true≢false t f = cc

same-key :
    (uuid other : String) (ports : Dict String Ports) (a p : Ports)
    → uuid ≡ other
    → lookup other (insert uuid a ports) ≡ some p
    → a ≡ p
same-key uuid other ports a p same found = some-injective _ _ (
    sym (ap (λ x. lookup x (insert uuid a ports)) (sym same) ∙ lookup-insert_self uuid a ports)
    ∙ found)

insert-Owned :
    (uuid : String) (allocated : Ports) (console : Dict ℕ String) (db : PortsDb)
    → Grown db.console console
    → Held uuid allocated console
    → Owned db
    → Owned (record { console = console; ports = insert uuid allocated db.ports })
unfolding Owned
insert-Owned uuid allocated console db grown held owned other p found =
    elim (Bool-cases (uuid == other)) [
      | inl same ↦
          let e = (string_eq.beq_iff uuid other).0 same in
          subst (λ x. Held other x console) (same-key uuid other db.ports allocated p e found)
            (subst (λ x. Held x allocated console) e held)
      | inr different ↦ Held-Grown other p db.console console grown (
          owned other p (
            sym (
              lookup-insert_ne uuid other allocated db.ports
                (λ e. true≢false ((string_eq.beq_iff uuid other).1 e) different))
            ∙ found))
    ]

allocate_instance_ports-Owned :
    (uuid : String) (binds : ℕ → Bool) (spice : Bool) (candidates : List ℕ) (db : PortsDb)
    {db' : PortsDb}
    → allocate_instance_ports uuid binds spice candidates db ≡ some db'
    → Owned db
    → Owned db'
unfolding allocate_instance_ports Owned
allocate_instance_ports-Owned uuid binds spice candidates db h owned =
    elim (Option-cases (lookup uuid db.ports)) [
      | inr (p, found) ↦
          subst Owned (some-injective _ _ (rw (allocate_instance_ports, found) at h)) owned
      | inl absent ↦
          let (allocated, all, h1) =
            bind-some (allocate_all uuid binds spice candidates db.console) _
              (rw (allocate_instance_ports, absent) at h) in
          let (grown, held) = allocate_all-Held uuid binds spice candidates db.console all in
          subst Owned (some-injective _ _ h1)
            (insert-Owned uuid allocated.0 allocated.1 db grown held owned)
    ]

-- Freeing one port leaves the entries of the others.
lookup-free_console_port :
    (freed : Option ℕ) (port : ℕ) (console : Dict ℕ String)
    → ((p : ℕ) → freed ≡ some p → p ≢ port)
    → lookup port (free_console_port freed console) ≡ lookup port console
lookup-free_console_port none port console n = refl
lookup-free_console_port (some p) port console n =
    ground (arith, lookup-remove p port console, nat_eq.beq_iff p port, n p refl)

owners-apart :
    (f port : ℕ) (uuid other : String) (console : Dict ℕ String)
    → lookup f console ≡ some uuid
    → lookup port console ≡ some other
    → (uuid == other) ≡ false
    → f ≢ port
owners-apart f port uuid other console hf hp different same =
    true≢false
      ((string_eq.beq_iff uuid other).1
        (some-injective _ _ (sym hf ∙ ap (λ x. lookup x console) same ∙ hp)))
      different

-- Freeing the ports that one instance holds leaves what another holds.
freed-Grown :
    (uuid other : String) (p : Ports) (console : Dict ℕ String)
    → Held uuid p console
    → (uuid == other) ≡ false
    → (port : ℕ) → lookup port console ≡ some other
    → lookup port (
        free_console_port p.vdi_tls_port
          (free_console_port (some p.vdi_port) (free_console_port (some p.console_port) console)))
      ≡ some other
freed-Grown uuid other p console held different port there =
    lookup-free_console_port p.vdi_tls_port port _
      (λ f e. owners-apart f port uuid other console (held.third f e) there different)
    ∙ lookup-free_console_port (some p.vdi_port) port _ (λ f e.
      owners-apart f port uuid other console
        (ap (λ x. lookup x console) (sym (some-injective _ _ e)) ∙ held.second) there different)
    ∙ lookup-free_console_port (some p.console_port) port console (λ f e.
      owners-apart f port uuid other console
        (ap (λ x. lookup x console) (sym (some-injective _ _ e)) ∙ held.first) there different)
    ∙ there

Held-kept :
    (uuid : String) (p : Ports) (console console' : Dict ℕ String)
    → ((port : ℕ) → lookup port console ≡ some uuid → lookup port console' ≡ some uuid)
    → Held uuid p console
    → Held uuid p console'
Held-kept uuid p console console' g h = record {
  first = g p.console_port h.first;
  second = g p.vdi_port h.second;
  third = λ port e. g port (h.third port e);
  apart = h.apart;
  tls_apart = h.tls_apart;
}

was-there :
    (uuid other : String) (ports : Dict String Ports) (q : Ports)
    → lookup other (remove uuid ports) ≡ some q
    → ((uuid == other) ≡ false) × (lookup other ports ≡ some q)
was-there uuid other ports q found = ground (arith, lookup-remove uuid other ports, found)

deallocate_instance_ports-Owned :
    (uuid : String) (db : PortsDb) → Owned db → Owned (deallocate_instance_ports uuid db)
unfolding deallocate_instance_ports Owned
deallocate_instance_ports-Owned uuid db owned = elim (Option-cases (lookup uuid db.ports)) [
  | inl absent ↦
      rw (deallocate_instance_ports, absent)
        (λ other q found. owned other q (was-there uuid other db.ports q found).1)
  | inr (p, held) ↦
      rw (deallocate_instance_ports, held)
        (λ other q found.
          let (different, there) = was-there uuid other db.ports q found in
          Held-kept other q db.console _
            (freed-Grown uuid other p db.console (owned uuid p held) different)
            (owned other q there))
]

pub data PortCall : Type 0 where
  allocate : String → (ℕ → Bool) → Bool → List ℕ → PortCall
  deallocate : String → PortCall

-- One instance after the other takes and frees its ports.
unfoldable pub run_ports : List PortCall → PortsDb → Option PortsDb
unfolding allocate_instance_ports deallocate_instance_ports
run_ports [] db = some db
run_ports (allocate uuid binds spice candidates ∷ calls) db = do
  db' ← allocate_instance_ports uuid binds spice candidates db
  run_ports calls db'
run_ports (deallocate uuid ∷ calls) db = run_ports calls (deallocate_instance_ports uuid db)

abbrev pub Uses : Ports → ℕ → Type 0
Uses p port = (p.console_port ≡ port) ⊎ ((p.vdi_port ≡ port) ⊎ (p.vdi_tls_port ≡ some port))

-- A port belongs to one instance.
pub Exclusive : PortsDb → Type 0
Exclusive db =
    (uuid other : String) (p q : Ports) (port : ℕ)
    → lookup uuid db.ports ≡ some p
    → lookup other db.ports ≡ some q
    → Uses p port
    → Uses q port
    → uuid ≡ other

Held-Uses :
    (uuid : String) (p : Ports) (port : ℕ) (console : Dict ℕ String)
    → Held uuid p console
    → Uses p port
    → lookup port console ≡ some uuid
Held-Uses uuid p port console h (inl e) = ap (λ x. lookup x console) (sym e) ∙ h.first
Held-Uses uuid p port console h (inr (inl e)) = ap (λ x. lookup x console) (sym e) ∙ h.second
Held-Uses uuid p port console h (inr (inr e)) = h.third port e

Owned-Exclusive : (db : PortsDb) → Owned db → Exclusive db
unfolding Owned Exclusive
Owned-Exclusive db owned uuid other p q port hp hq up uq = some-injective _ _ (
    sym (Held-Uses uuid p port db.console (owned uuid p hp) up)
    ∙ Held-Uses other q port db.console (owned other q hq) uq)

run_ports-Owned :
    (calls : List PortCall) (db : PortsDb) {db' : PortsDb}
    → run_ports calls db ≡ some db'
    → Owned db
    → Owned db'
unfolding run_ports
run_ports-Owned [] db h owned = subst Owned (some-injective _ _ h) owned
run_ports-Owned (allocate uuid binds spice candidates ∷ calls) db h owned =
    let (middle, first, rest) =
      bind-some (allocate_instance_ports uuid binds spice candidates db) _ h in
    run_ports-Owned calls middle rest
      (allocate_instance_ports-Owned uuid binds spice candidates db first owned)
run_ports-Owned (deallocate uuid ∷ calls) db h owned =
    run_ports-Owned calls (deallocate_instance_ports uuid db) h
      (deallocate_instance_ports-Owned uuid db owned)

-- Whichever instances take and free their console ports, from a state in which every instance holds
-- its ports, each that has ports still holds them, and no two instances have a port in common.
pub run_ports-Exclusive :
    (calls : List PortCall) (db db' : PortsDb)
    → run_ports calls db ≡ some db'
    → Owned db
    → Owned db' × Exclusive db'
run_ports-Exclusive calls db db' h owned =
    let after = run_ports-Owned calls db h owned in (after, Owned-Exclusive db' after)
