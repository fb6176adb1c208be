-- ===== src/Queue/Tests.antt =====
-- A queue in use.
use Prim.Native.String.{String}
use shakenfist.Prelude.{
  ◌≡◌, refl, [], ◌∷◌, none, some, lookup, insert, keys, pair_eq, nat_eq, string_eq,
}
use shakenfist.Scheduler.Groups.{best_key}
use shakenfist.Queue.Model.{
  JobName, Queue, enqueue, dequeue, restart_queue, count_due, get_queue_length,
}
use shakenfist.Queue.Outstanding.{outstanding, IsQueue}
use shakenfist.Queue.Runs.{Steps, enqueued, dequeued, restarted, done, next, Steps-Waits}

abbrev first : JobName
first = (100, "a")

abbrev second : JobName
second = (105, "b")

abbrev started : Queue String
started = record { queued = (first, "fetch") ∷ []; processing = [] }

abbrev filled : Queue String
filled = enqueue 102 "b" "snapshot" 3 started

abbrev ended : Queue String
ended = restart_queue (dequeue 103 filled).1

started-IsQueue : IsQueue started
unfolding lookup
started-IsQueue = record { apart = λ j m. refl; unique = tt }

first_waits : outstanding first started ≡ some "fetch"
unfolding lookup
first_waits = refl

second_new : outstanding second started ≡ none
unfolding lookup
second_new = refl

used : Steps first started ended
used = next started filled ended (enqueued 102 "b" "snapshot" 3 started second_new) (
    next filled (dequeue 103 filled).1 ended (dequeued 103 filled)
      (next (dequeue 103 filled).1 ended ended (restarted (dequeue 103 filled).1) (done ended)))

-- The job is taken, and waits again after the restart.
taken : (dequeue 103 filled).0 ≡ some (first, "fetch")
unfolding dequeue enqueue best_key keys lookup insert
taken = refl

lengths : get_queue_length 103 filled ≡ (0, 1, 1)
unfolding get_queue_length count_due enqueue insert
lengths = refl

Steps-Waits_example : IsQueue ended × (outstanding first ended ≡ some "fetch")
Steps-Waits_example = Steps-Waits first started ended "fetch" used started-IsQueue first_waits
