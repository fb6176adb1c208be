-- ===== src/Scheduler/Metrics.antt =====
-- What the scheduler knows of the nodes, and the tests that it makes of a node
-- (shakenfist/scheduler.py). Ratios are fractions, compared without a division.
use Prim.Native.String.{String}
use shakenfist.Prelude.{
  ℕ, ◌+◌, ◌-◌, ◌*◌, Bool, false, not, List, [], ◌∷◌, Option, none, some, Dict, insert, ltb, nat_beq,
  string_eq, if◌then◌else◌, Result, ok, err,
}

-- The metrics of a node, with the default of `get` where a key is missing. Memory is in MB, disk in
-- bytes, and the load in hundredths.
pub record Metrics : Type 0 where
  pub is_hypervisor : Bool
  pub node_queue_waiting : ℕ
  pub cpu_max_per_instance : ℕ
  pub cpu_max : ℕ
  pub cpu_total_instance_vcpus : ℕ
  pub memory_available : ℕ
  pub memory_total_instance_actual : ℕ
  pub memory_max : ℕ
  pub disk_free_instances : ℕ
  pub cpu_load_1 : ℕ

-- What `get` gives of `{}`.
abbrev pub no_metrics : Metrics
no_metrics = record {
  is_hypervisor = false;
  node_queue_waiting = 0;
  cpu_max_per_instance = 0;
  cpu_max = 0;
  cpu_total_instance_vcpus = 0;
  memory_available = 0;
  memory_total_instance_actual = 0;
  memory_max = 0;
  disk_free_instances = 0;
  cpu_load_1 = 0;
}

pub record Ratio : Type 0 where
  pub numerator : ℕ
  pub denominator : ℕ

-- The settings. `ram_system_reservation` is RAM_SYSTEM_RESERVATION * 1024, in MB.
pub record Config : Type 0 where
  pub scheduler_cache_timeout : ℕ
  pub cpu_overcommit_ratio : Ratio
  pub ram_overcommit_ratio : Ratio
  pub ram_system_reservation : ℕ
  pub minimum_free_disk : ℕ

-- A disk of the specification of an instance, with its size in GB where it has one.
pub record Disk : Type 0 where
  pub size : Option ℕ

abbrev pub gib : ℕ
gib = 1024 * 1024 * 1024

abbrev pub unreasonable_queue_length : ℕ
unreasonable_queue_length = 20

-- LowResourceException, CandidateNodeNotFoundException, the IndexError of an empty list and the
-- ZeroDivisionError of a node without memory.
pub data SchedulerError : Type 0 where
  low_resource : SchedulerError
  candidate_not_found : String → SchedulerError
  index_error : SchedulerError
  zero_division : SchedulerError

-- What `etcd.get('metrics', …)` gives for a node: a ReadException, nothing, or an entry.
pub data Stored : Type 0 where
  unreadable : Stored
  absent : Stored
  entry : ℕ → Metrics → Stored

-- get_active_node_metrics, over the active nodes, with what is stored for each, and the time at
-- which it is read
unfoldable pub get_active_node_metrics :
    List (String × ℕ × Stored) → Dict String Metrics → Dict String Metrics
get_active_node_metrics [] metrics = metrics
get_active_node_metrics ((uuid, now, unreadable) ∷ nodes) metrics =
    get_active_node_metrics nodes metrics
get_active_node_metrics ((uuid, now, absent) ∷ nodes) metrics =
    get_active_node_metrics nodes (insert uuid no_metrics metrics)
get_active_node_metrics ((uuid, now, entry timestamp new_metrics) ∷ nodes) metrics =
    get_active_node_metrics nodes
      (insert uuid (if ltb (now - timestamp) 120 then new_metrics else no_metrics) metrics)

-- _has_reasonable_queue_state
unfoldable pub has_reasonable_queue_state : Metrics → Bool
has_reasonable_queue_state m = not (ltb unreasonable_queue_length m.node_queue_waiting)

-- _has_sufficient_cpu
unfoldable pub has_sufficient_cpu : Config → ℕ → Metrics → Bool
has_sufficient_cpu c cpus m =
    let hard_max_cpus = m.cpu_max * c.cpu_overcommit_ratio.numerator in
    not
      (ltb hard_max_cpus ((m.cpu_total_instance_vcpus + cpus) * c.cpu_overcommit_ratio.denominator))

-- _has_sufficient_ram
unfoldable pub has_sufficient_ram : Config → ℕ → Metrics → Result SchedulerError Bool
has_sufficient_ram c memory m =
    if ltb m.memory_available (c.ram_system_reservation + memory)
    then ok false
    else if nat_beq m.memory_max 0
    then err zero_division
    else ok (
        not (
          ltb (m.memory_max * c.ram_overcommit_ratio.numerator)
            ((m.memory_total_instance_actual + memory) * c.ram_overcommit_ratio.denominator)))

-- the sum of the sizes in _has_sufficient_disk
unfoldable pub requested_disk : List Disk → ℕ
requested_disk [] = 0
requested_disk (d ∷ disks) = elim d.size [
  | none ↦ requested_disk disks
  | some size ↦ size + requested_disk disks
]

-- _has_sufficient_disk: `requested > free / GiB - minimum`
unfoldable pub has_sufficient_disk : Config → List Disk → Metrics → Bool
unfolding requested_disk
has_sufficient_disk c disks m =
    not (ltb m.disk_free_instances ((requested_disk disks + c.minimum_free_disk) * gib))
