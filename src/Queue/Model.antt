-- ===== src/Queue/Model.antt =====
-- The work queues in etcd (enqueue, dequeue, resolve, get_queue_length and restart_queues of
-- shakenfist/etcd.py). A queue has its jobs under /sf/queue/<queue>/ and the jobs that are worked on
-- under /sf/processing/<queue>/; no operation on a queue touches another.
use Prim.Native.Nat.{compare as compare_ℕ, Ordering}
use Prim.Native.String.{String, compare}
use shakenfist.Prelude.{
  ℕ, ◌+◌, Bool, true, false, [], ◌∷◌, Option, none, some, Dict, lookup, insert, remove, keys, ltb,
  length, pair_eq, nat_eq, string_eq, if◌then◌else◌,
}
use shakenfist.Scheduler.Groups.{best_key}

-- The name of a job is the time at which it is due and a random text, `{entry_time}-{random_id}`.
abbrev pub JobName : Type 0
JobName = ℕ × String

-- The order of the names, as etcd sorts them.
abbrev pub before : JobName → JobName → Bool
before a b = elim (compare_ℕ a.0 b.0) [
  | Ordering.lt ↦ true
  | Ordering.gt ↦ false
  | Ordering.eq ↦ elim (compare a.1 b.1) [ Ordering.lt ↦ true | _ ↦ false ]
]

-- A queue, of work items of any kind.
pub record Queue (W : Type 0) : Type 0 where
  pub queued : Dict JobName W
  pub processing : Dict JobName W

module _ {W : Type 0} where
  -- enqueue, at a time, with the random text that it draws
  unfoldable pub enqueue : ℕ → String → W → ℕ → Queue W → Queue W
  enqueue now random_id workitem delay q = record q {
    queued = insert (now + delay, random_id) workitem q.queued;
  }

  -- put('processing', …); client.delete(…)
  unfoldable pub take_job : JobName → W → Queue W → Queue W
  take_job jobname workitem q = record {
    queued = remove jobname q.queued;
    processing = insert jobname workitem q.processing;
  }

  -- dequeue: the first job by name, unless it is due later
  unfoldable pub dequeue : ℕ → Queue W → Option (JobName × W) × Queue W
  unfolding best_key take_job
  dequeue now q = elim (best_key before (keys q.queued)) [
    | none ↦ (none, q)
    | some jobname ↦ elim (lookup jobname q.queued) [
      | none ↦ (none, q)
      | some workitem ↦
          if ltb now jobname.0
          then (none, q)
          else (some (jobname, workitem), take_job jobname workitem q)
    ]
  ]

  -- resolve
  unfoldable pub resolve : JobName → Queue W → Queue W
  resolve jobname q = record q { processing = remove jobname q.processing }

  -- one round of _restart_queue
  unfoldable pub requeue : JobName → W → Queue W → Queue W
  requeue jobname workitem q = record {
    queued = insert jobname workitem q.queued;
    processing = remove jobname q.processing;
  }

  unfoldable pub requeue_each : Dict JobName W → Queue W → Queue W
  unfolding requeue
  requeue_each [] q = q
  requeue_each ((jobname, workitem) ∷ jobs) q = requeue_each jobs (requeue jobname workitem q)

  -- _restart_queue
  unfoldable pub restart_queue : Queue W → Queue W
  unfolding requeue_each
  restart_queue q = requeue_each q.processing q

  -- the loop of get_queue_length: the jobs that are due, and those that are deferred
  unfoldable pub count_due : ℕ → Dict JobName W → ℕ × ℕ
  count_due now [] = (0, 0)
  count_due now ((jobname, workitem) ∷ jobs) =
      let (queued, deferred) = count_due now jobs in
      if ltb now jobname.0 then (queued, deferred + 1) else (queued + 1, deferred)

  -- get_queue_length
  unfoldable pub get_queue_length : ℕ → Queue W → ℕ × ℕ × ℕ
  unfolding count_due
  get_queue_length now q = let due = count_due now q.queued in (length q.processing, due.0, due.1)
