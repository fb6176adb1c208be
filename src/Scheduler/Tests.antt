-- ===== src/Scheduler/Tests.antt =====
-- find_candidates on a small cloud (shakenfist/scheduler.py).
use Prim.Native.String.{String}
use shakenfist.Prelude.{
  ◌≡◌, refl, true, false, [], ◌∷◌, none, some, elem, string_eq, ok, err, lookup, insert, keys, keep,
  ◌*◌,
}
use shakenfist.Prelude.Int.{negsuc, ◌+ℤ◌, ℤ-discrete}
use shakenfist.Scheduler.Metrics.{
  Metrics, Config, entry, gib, low_resource, get_active_node_metrics, has_reasonable_queue_state,
  has_sufficient_cpu, has_sufficient_ram, requested_disk, has_sufficient_disk,
}
use shakenfist.Scheduler.Find.{
  Instance, World, Scheduler, refresh_metrics, current, check_requested, initial_candidates,
  some_left, keep_sufficient_ram, filter_candidates, add_tags, add_instances, affinity_of, shuffle,
  choose, find_candidates,
}
use shakenfist.Scheduler.Groups.{append_to, group_by, best_key, best_group}
use shakenfist.Scheduler.Choice.{Best}
use shakenfist.Scheduler.Chosen.{Known, eligible, find_candidates-Best, find_candidates-Explained}

abbrev quiet_node : Metrics
quiet_node = record {
  is_hypervisor = true;
  node_queue_waiting = 2;
  cpu_max_per_instance = 8;
  cpu_max = 8;
  cpu_total_instance_vcpus = 4;
  memory_available = 32768;
  memory_total_instance_actual = 8192;
  memory_max = 65536;
  disk_free_instances = 100 * gib;
  cpu_load_1 = 120;
}

abbrev full_node : Metrics
full_node = record quiet_node { cpu_total_instance_vcpus = 128 }

abbrev config : Config
config = record {
  scheduler_cache_timeout = 5;
  cpu_overcommit_ratio = record { numerator = 16; denominator = 1 };
  ram_overcommit_ratio = record { numerator = 3; denominator = 2 };
  ram_system_reservation = 5120;
  minimum_free_disk = 20;
}

abbrev wanted : Instance
wanted = record {
  uuid = "i";
  namespace = "ns";
  tags = [];
  cpus = 2;
  memory = 1024;
  disk_spec = record { size = some 8 } ∷ record { size = none } ∷ [];
  affinity = ("web", negsuc 9) ∷ [];
}

abbrev neighbour : Instance
neighbour = record wanted { uuid = "j"; tags = "web" ∷ [] }

abbrev world : World
world = record {
  now = 100;
  active =
      ("a", 100, entry 90 quiet_node)
      ∷ ("b", 100, entry 90 quiet_node)
      ∷ ("c", 100, entry 90 full_node)
      ∷ [];
  refreshed = 101;
  nodes = ("a", "j" ∷ []) ∷ ("b", []) ∷ ("c", []) ∷ [];
  instances = ("i", wanted) ∷ ("j", neighbour) ∷ [];
}

abbrev started : Scheduler
started = record { metrics = []; metrics_updated = 0 }

chosen : (find_candidates config world (3 ∷ []) wanted [] started).0 ≡ ok ("b" ∷ [])
unfolding find_candidates current initial_candidates filter_candidates choose refresh_metrics
    get_active_node_metrics check_requested some_left keep_sufficient_ram has_sufficient_ram
    has_sufficient_disk requested_disk has_reasonable_queue_state has_sufficient_cpu affinity_of
    add_instances add_tags group_by best_group best_key shuffle append_to insert lookup keys elem
    keep ◌+ℤ◌ ℤ-discrete
chosen = refl

-- The node "c" has no CPU left and "a" runs an instance to stay away from.
find_candidates-Best_example :
    Known (current config world started).metrics []
    × ((d : String) × (elem d ("b" ∷ []) ≡ true))
    × Best world wanted
        (current config world started).metrics
        (eligible config world [] wanted [] started)
        ("b" ∷ [])
find_candidates-Best_example =
    find_candidates-Best config world (3 ∷ []) wanted [] started ("b" ∷ []) chosen

abbrev greedy : Instance
greedy = record wanted { cpus = 9 }

refused : (find_candidates config world [] greedy ("a" ∷ "c" ∷ []) started).0 ≡ err low_resource
unfolding find_candidates current initial_candidates filter_candidates choose refresh_metrics
    get_active_node_metrics check_requested some_left keep_sufficient_ram has_sufficient_ram
    has_sufficient_disk requested_disk has_reasonable_queue_state has_sufficient_cpu affinity_of
    add_instances add_tags group_by best_group best_key shuffle append_to insert lookup keys elem
    keep ◌+ℤ◌ ℤ-discrete
refused = refl

-- No node has nine CPUs.
find_candidates-Explained_example :
    Known (current config world started).metrics ("a" ∷ "c" ∷ [])
    × ((d : String) → eligible config world [] greedy ("a" ∷ "c" ∷ []) started d ≡ false)
find_candidates-Explained_example =
    find_candidates-Explained config world [] greedy ("a" ∷ "c" ∷ []) started low_resource refused
