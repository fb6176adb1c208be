-- ===== src/Instance/Tests.antt =====
-- An instance with two disks from one blob, two nodes, and what is done to them.
use Prim.Native.String.{String}
use mathlib.Core.Path.{subst}
use shakenfist.Prelude.{
  ℕ, ◌==◌, if◌then◌else◌, ◌≡◌, refl, true, false, List, [], ◌∷◌, Option, none, some, lookup, insert,
  string_eq, nat_eq, All-lookup, ok, err, elem, erase, remove, keys,
}
use shakenfist.ObjectState.Names.{
  created, preflight, option_state_name_eq, state_name_eq, OptionStateName-discrete,
}
use shakenfist.ObjectState.Update.{ObjectDb, Times, state}
use shakenfist.ObjectState.Runs.{value_of}
use shakenfist.Blob.Model.{Blob, Blobs, ref_count_inc}
use shakenfist.Instance.Disks.{
  DiskSpec, or_none, get_disk_device, disk_entry, bump, add_disks, add_refs, devices_of,
  blob_references, nvme_drives, take_references, initialize_block_devices, index_error,
}
use shakenfist.Instance.Devices.{Distinct, no_repeats}
use shakenfist.Instance.References.{Referred, initialize_block_devices-Referred}
use shakenfist.Instance.Placement.{
  Cluster, placement_of, place_instance, place_all, on_node, add_item, remove_item,
}
use shakenfist.Instance.Listed.{Listed, is_at, place_all-Listed}
use shakenfist.Instance.Power.{
  PowerState, update_power_state, attempt, change_power, reached, pause,
}
use shakenfist.Instance.Attempts.{Outcome, change_power-Outcome}
use shakenfist.Instance.AgentOperations.{
  Operations, agent_operation_enqueue, agent_operation_dequeue,
}
use shakenfist.Instance.Fifo.{Call, enqueue, dequeue, run, Served, run-Served}
use shakenfist.Instance.Failing.{is_instance_state}
use shakenfist.Instance.Failure.{Start, refused, ports_clash, create}
use shakenfist.Instance.Deletion.{Ends, enqueue_delete_due_error-Ends}
use shakenfist.Instance.Created.{CreateEnds, create-CreateEnds}
use shakenfist.Instance.Ports.{
  PortsDb, allocate_console_port, allocate_tls, allocate_all, allocate_instance_ports,
  deallocate_instance_ports,
}
use shakenfist.Instance.Owned.{
  Owned, Exclusive, PortCall, allocate, deallocate, run_ports, run_ports-Exclusive,
}

-- Disks
abbrev first_disk : DiskSpec
first_disk = record {
  bus = some "virtio";
  kind = none;
  size = some 8;
  base = none;
  blob_uuid = some "debian";
}

abbrev second_disk : DiskSpec
second_disk = record {
  bus = some "nvme";
  kind = none;
  size = none;
  base = none;
  blob_uuid = some "debian";
}

abbrev debian : Blob
debian = record {
  depends_on = none;
  state = some created;
  ref_count = 1;
  transcoded = [];
  sha512 = none;
}

abbrev stored : Blobs
stored = ("debian", debian) ∷ []

abbrev taken : Blobs
taken = ("debian", record debian { ref_count = 3 }) ∷ []

initialized :
    initialize_block_devices "virtio" false (first_disk ∷ second_disk ∷ []) none stored
    ≡ ok (
      disk_entry "virtio" first_disk (record { prefix = "vd"; suffix = "a" })
          ∷ disk_entry "virtio" second_disk (record { prefix = "nvme"; suffix = "1" })
          ∷ [],
      (record { prefix = "nvme"; suffix = "1" }, "qcow2", 1) ∷ [],
      ("debian", 2) ∷ [],
      taken,
    )
unfolding initialize_block_devices devices_of add_disks get_disk_device lookup nvme_drives
    blob_references add_refs bump insert take_references ref_count_inc disk_entry
    OptionStateName-discrete
initialized = refl

initialize_block_devices-Referred_example :
    Distinct (
      disk_entry "virtio" first_disk (record { prefix = "vd"; suffix = "a" })
      ∷ disk_entry "virtio" second_disk (record { prefix = "nvme"; suffix = "1" })
      ∷ [])
    × Referred (first_disk ∷ second_disk ∷ []) none stored taken
initialize_block_devices-Referred_example =
    initialize_block_devices-Referred "virtio" false (first_disk ∷ second_disk ∷ []) none stored
      taken
      (disk_entry "virtio" first_disk (record { prefix = "vd"; suffix = "a" })
        ∷ disk_entry "virtio" second_disk (record { prefix = "nvme"; suffix = "1" })
        ∷ [])
      ((record { prefix = "nvme"; suffix = "1" }, "qcow2", 1) ∷ []) (("debian", 2) ∷ []) initialized

-- A device beyond the last letter, and one beyond the last digit.
too_many : get_disk_device "virtio" 26 ≡ err index_error
unfolding get_disk_device lookup
too_many = refl

too_many_nvme : get_disk_device "nvme" 10 ≡ err index_error
unfolding get_disk_device lookup
too_many_nvme = refl

-- Two nodes, without instances
abbrev nodes : Cluster
nodes = record { placements = []; nodes = ("sf1", []) ∷ ("sf2", []) ∷ [] }

no_instances :
    (name : String) (instances : List String)
    → lookup name nodes.nodes ≡ some instances
    → ◌≡◌ {A = List String} [] instances
no_instances name instances h =
    All-lookup (λ item. ◌≡◌ {A = List String} [] item.1) name instances nodes.nodes
      (refl, (refl, tt)) h

nodes-Listed : Listed nodes
unfolding no_repeats elem lookup
nodes-Listed = record {
  once = λ name instances h. subst (λ l. no_repeats l ≡ true) (no_instances name instances h) refl;
  placed = λ name instances h uuid.
      subst (λ l. elem uuid l ≡ is_at (or_none (placement_of uuid nodes).node) name)
        (no_instances name instances h) refl;
}

abbrev moves : List (String × Option String)
moves = ("i1", some "sf1") ∷ ("i2", some "sf1") ∷ ("i1", some "sf2") ∷ []

moved_to : (place_all moves nodes).nodes ≡ (("sf1", "i2" ∷ []) ∷ ("sf2", "i1" ∷ []) ∷ [])
unfolding place_all place_instance on_node add_item remove_item lookup insert elem erase
moved_to = refl

place_all-Listed_example : Listed (place_all moves nodes)
place_all-Listed_example = place_all-Listed moves nodes nodes-Listed

-- An instance that is on, and that libvirt reports as paused after the second request
abbrev is_on : PowerState
is_on = record { power_state = some "on"; power_state_previous = none }

abbrev slow : ℕ → String
slow n = elim (Prim.Native.Nat.compare n 2) [ Prim.Native.Nat.Ordering.lt ↦ "on" | _ ↦ "paused" ]

paused_late : pause true slow is_on ≡ (
  reached "not ready (instance paused)" 2,
  record { power_state = some "paused"; power_state_previous = some "on" },
)
unfolding change_power attempt update_power_state
paused_late = refl

change_power-Outcome_example :
    Outcome "not ready (instance paused)" slow is_on 1
      (change_power "not ready (instance paused)" true slow is_on)
change_power-Outcome_example = change_power-Outcome "not ready (instance paused)" slow is_on

-- Two agent operations are added, and one is ready.
abbrev calls : List Call
calls = enqueue "a" ∷ enqueue "b" ∷ dequeue (("a", "queued") ∷ ("b", "queued") ∷ []) ∷ []

abbrev no_operations : Operations
no_operations = record { queue = []; all = [] }

served : run calls no_operations ≡ ("a" ∷ [], record { queue = "b" ∷ []; all = "a" ∷ "b" ∷ [] })
unfolding run agent_operation_enqueue agent_operation_dequeue lookup
served = refl

run-Served_example : Served calls no_operations (run calls no_operations)
run-Served_example = run-Served calls no_operations

-- An instance in preflight
abbrev in_preflight : ObjectDb String
in_preflight = record {
  objects = ("i1", "instance") ∷ [];
  states = ("i1", record { value = some preflight; update_time = 1 }) ∷ [];
  errors = [];
  caches = [];
  memory = [];
}

abbrev at : ℕ → Times
at n = record { at_state = n; at_all = n; at_cache = n }

preflight_value : value_of false "i1" in_preflight ≡ some preflight
unfolding value_of state lookup
preflight_value = refl

preflight_known : is_instance_state (some preflight) ≡ true
unfolding is_instance_state lookup OptionStateName-discrete
preflight_known = refl

enqueue_delete_due_error-Ends_example :
    Ends "i1" "no such image" (at 2) (at 3) (some preflight) in_preflight
enqueue_delete_due_error-Ends_example =
    enqueue_delete_due_error-Ends "i1" "no such image" (at 2) (at 3) (some preflight) in_preflight
      preflight_value preflight_known (λ p. cc)

-- The third call finds a port in use.
abbrev busy : ℕ → Start
busy n = if n == 2 then ports_clash else refused

create-CreateEnds_example :
    CreateEnds "i1" true busy (create "i1" true busy (λ n. none) (at 2) (at 3) in_preflight)
create-CreateEnds_example =
    create-CreateEnds "i1" true busy (λ n. none) (at 2) (at 3) in_preflight preflight_value

-- Two instances take ports, the second from candidates that the first has.
abbrev no_ports : PortsDb
no_ports = record { console = []; ports = [] }

no_ports-Owned : Owned no_ports
unfolding Owned lookup
no_ports-Owned uuid p h = cc

abbrev port_calls : List PortCall
port_calls =
    allocate "i1" (λ port. true) false (30001 ∷ 30002 ∷ [])
    ∷ allocate "i2" (λ port. true) false (30002 ∷ 30003 ∷ 30004 ∷ [])
    ∷ deallocate "i1"
    ∷ []

abbrev ports_after : PortsDb
ports_after = record {
  console = (30003, "i2") ∷ (30004, "i2") ∷ [];
  ports = ("i2", record { console_port = 30003; vdi_port = 30004; vdi_tls_port = none }) ∷ [];
}

ports_run : run_ports port_calls no_ports ≡ some ports_after
unfolding run_ports allocate_instance_ports allocate_all allocate_tls allocate_console_port
    deallocate_instance_ports elem lookup insert remove keys
ports_run = refl

run_ports-Exclusive_example : Owned ports_after × Exclusive ports_after
run_ports-Exclusive_example =
    run_ports-Exclusive port_calls no_ports ports_after ports_run no_ports-Owned
