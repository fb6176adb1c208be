-- ===== src/Scheduler/Find.antt =====
-- find_candidates (shakenfist/scheduler.py): from the nodes with metrics, or those that are asked
-- for, to those that fit, and of these the ones with the highest affinity and then the lowest load.
use Prim.Native.String.{String}
use shakenfist.Prelude.{
  ℕ, ◌-◌, ◌/◌, zero, suc, Bool, true, false, not, ◌||◌, List, [], ◌∷◌, Option, none, some, Dict,
  lookup, contains, keys, ltb, ◌==◌, string_eq, nat_eq, elem, keep, if◌then◌else◌, Result, ok, err,
  ◌>>=◌,
}
use shakenfist.Prelude.Int.{ℤ, pos, int_eq, ◌+ℤ◌, ltb_ℤ}
use shakenfist.Scheduler.Metrics.{
  Metrics, no_metrics, Config, Disk, SchedulerError, low_resource, candidate_not_found, index_error,
  Stored, get_active_node_metrics, has_reasonable_queue_state, has_sufficient_cpu,
  has_sufficient_ram, has_sufficient_disk,
}
use shakenfist.Scheduler.Groups.{group_by, best_group}

-- The properties of an instance that are read here; an affinity is a weight for each tag.
pub record Instance : Type 0 where
  pub uuid : String
  pub namespace : String
  pub tags : List String
  pub cpus : ℕ
  pub memory : ℕ
  pub disk_spec : List Disk
  pub affinity : Dict String ℤ

-- Scheduler.__init__
pub record Scheduler : Type 0 where
  pub metrics : Dict String Metrics
  pub metrics_updated : ℕ

-- What is read while the scheduler runs: the clock, the active nodes with their metrics, the clock
-- after they are read, the instances of each node that is in the database, and the instances.
pub record World : Type 0 where
  pub now : ℕ
  pub active : List (String × ℕ × Stored)
  pub refreshed : ℕ
  pub nodes : Dict String (List String)
  pub instances : Dict String Instance

-- refresh_metrics
unfoldable pub refresh_metrics : World → Scheduler
unfolding get_active_node_metrics
refresh_metrics w = record {
  metrics = get_active_node_metrics w.active [];
  metrics_updated = w.refreshed;
}

abbrev is_empty {ℓ} : {A : Type ℓ} → List A → Bool
is_empty [] = true
is_empty (_ ∷ _) = false

-- the start of find_candidates and of summarize_resources
unfoldable pub current : Config → World → Scheduler → Scheduler
unfolding refresh_metrics
current c w s =
    if ltb c.scheduler_cache_timeout (w.now - s.metrics_updated) || is_empty s.metrics
    then refresh_metrics w
    else s

-- self.metrics[node]; the nodes that are looked up here have an entry
abbrev pub or_no_metrics : Option Metrics → Metrics
or_no_metrics none = no_metrics
or_no_metrics (some m) = m

abbrev pub metrics_of : Dict String Metrics → String → Metrics
metrics_of metrics n = or_no_metrics (lookup n metrics)

-- for n in candidates: if n not in self.metrics: raise
unfoldable pub check_requested :
    Dict String Metrics → List String → Result SchedulerError (List String)
check_requested metrics [] = ok []
check_requested metrics (n ∷ candidates) =
    let rest = check_requested metrics candidates in
    if contains n metrics
    then rest >>= (λ checked. ok (n ∷ checked))
    else err (candidate_not_found n)

-- the candidates that were asked for, or all the nodes with metrics
unfoldable pub initial_candidates :
    Dict String Metrics → List String → Result SchedulerError (List String)
unfolding check_requested
initial_candidates metrics [] = ok (keys metrics)
initial_candidates metrics (n ∷ candidates) = check_requested metrics (n ∷ candidates)

-- if not candidates: raise exceptions.LowResourceException
unfoldable pub some_left : List String → Result SchedulerError (List String)
some_left [] = err low_resource
some_left (c ∷ candidates) = ok (c ∷ candidates)

-- the loop that removes the nodes without enough idle RAM
unfoldable pub keep_sufficient_ram :
    Config → ℕ → Dict String Metrics → List String → Result SchedulerError (List String)
unfolding has_sufficient_ram
keep_sufficient_ram c memory metrics [] = ok []
keep_sufficient_ram c memory metrics (n ∷ candidates) = do
  fits ← has_sufficient_ram c memory (metrics_of metrics n)
  rest ← keep_sufficient_ram c memory metrics candidates
  ok (if fits then n ∷ rest else rest)

-- the filters, in turn
unfoldable pub filter_candidates :
    Config → Instance → Dict String Metrics → List String → Result SchedulerError (List String)
unfolding some_left keep_sufficient_ram keep
filter_candidates c inst metrics candidates = do
  hypervisors ← some_left (keep (λ n. (metrics_of metrics n).is_hypervisor) candidates)
  capable ← some_left (
      keep (λ n. not (ltb (metrics_of metrics n).cpu_max_per_instance inst.cpus))
        (keep (λ n. has_reasonable_queue_state (metrics_of metrics n)) hypervisors))
  idle ← some_left (keep (λ n. has_sufficient_cpu c inst.cpus (metrics_of metrics n)) capable)
  roomy ← keep_sufficient_ram c inst.memory metrics idle
  fitting ← some_left roomy
  some_left (keep (λ n. has_sufficient_disk c inst.disk_spec (metrics_of metrics n)) fitting)

-- for tag, val in requested_affinity.items(): if tag in i.tags: affinity += int(val)
unfoldable pub add_tags : Dict String ℤ → List String → ℤ → ℤ
add_tags [] tags affinity = affinity
add_tags ((tag, val) ∷ requested) tags affinity =
    add_tags requested tags (if elem tag tags then affinity +ℤ val else affinity)

-- the loop over the instances of a node
unfoldable pub add_instances : World → Instance → List String → ℤ → ℤ
unfolding add_tags
add_instances w inst [] affinity = affinity
add_instances w inst (instance_uuid ∷ uuids) affinity = elim (lookup instance_uuid w.instances) [
  | none ↦ add_instances w inst uuids affinity
  | some i ↦ add_instances w inst uuids (
      if i.uuid == inst.uuid || is_empty i.tags || not (i.namespace == inst.namespace)
      then affinity
      else add_tags inst.affinity i.tags affinity)
]

-- the affinity of a node; one that is not in the database has none
unfoldable pub affinity_of : World → Instance → String → Option ℤ
unfolding add_instances
affinity_of w inst c = elim (lookup c w.nodes) [
  | none ↦ none
  | some instances ↦ some (add_instances w inst instances (pos 0))
]

-- math.floor(self.metrics[c].get('cpu_load_1', 0))
abbrev pub load_of : Dict String Metrics → String → ℕ
load_of metrics n = (metrics_of metrics n).cpu_load_1 / 100

-- a list out of order: each element goes to a random place in the rest
abbrev pub insert_at : ℕ → String → List String → List String
insert_at zero x xs = x ∷ xs
insert_at (suc n) x [] = x ∷ []
insert_at (suc n) x (y ∷ xs) = y ∷ insert_at n x xs

unfoldable pub shuffle : List ℕ → List String → List String
shuffle random [] = []
shuffle [] (x ∷ xs) = x ∷ shuffle [] xs
shuffle (r ∷ random) (x ∷ xs) = insert_at r x (shuffle random xs)

abbrev pub or_index_error : Option (List String) → Result SchedulerError (List String)
or_index_error none = err index_error
or_index_error (some group) = ok group

-- the highest affinity, then the lowest load
unfoldable pub choose :
    World
    → Instance
    → Dict String Metrics
    → List ℕ
    → List String
    → Result SchedulerError (List String)
unfolding affinity_of group_by best_group shuffle
choose w inst metrics random candidates = do
  close ←
      or_index_error (best_group (λ a b. ltb_ℤ b a) (group_by (affinity_of w inst) candidates []))
  quiet ← or_index_error (best_group ltb (group_by (λ n. some (load_of metrics n)) close []))
  ok (shuffle random quiet)

-- find_candidates, with the scheduler after it
unfoldable pub find_candidates :
    Config
    → World
    → List ℕ
    → Instance
    → List String
    → Scheduler
    → Result SchedulerError (List String) × Scheduler
unfolding current initial_candidates filter_candidates choose
find_candidates c w random inst candidates s =
    let fresh = current c w s in
    (
      initial_candidates fresh.metrics candidates
          >>= filter_candidates c inst fresh.metrics
          >>= choose w inst fresh.metrics random,
      fresh,
    )
