-- ===== src/Queue/Runs.antt =====
-- What holds of a queue over time (shakenfist/etcd.py).
use Prim.Native.String.{String}
use mathlib.Core.Path.{subst}
use shakenfist.Prelude.{
  ℕ, ◌+◌, ◌≡◌, ◌≢◌, sym, ◌∙◌, true, none, some, insert, pair_eq, pair_beq_iff, nat_eq, string_eq,
  ◌==◌, beq_ne, lookup-insert, lookup-remove, remove-Unique, inl, inr, arith,
}
use shakenfist.Queue.Model.{JobName, Queue, enqueue, dequeue, resolve, restart_queue}
use shakenfist.Queue.Outstanding.{
  outstanding, IsQueue, restart_queue-outstanding, take_job-outstanding, take_job-IsQueue,
  restart_queue-IsQueue, dequeue-cases,
}

-- A step of a queue in which the job j is not resolved: a job with a new name is added, the next one
-- is taken, another is resolved, or a node starts again.
pub data Step {W : Type 0} (j : JobName) : Queue W → Queue W → Type 0 where
  enqueued :
      (now : ℕ) (random_id : String) (workitem : W) (delay : ℕ) (q : Queue W)
      → outstanding (now + delay, random_id) q ≡ none
      → Step j q (enqueue now random_id workitem delay q)
  dequeued : (now : ℕ) (q : Queue W) → Step j q (dequeue now q).1
  resolved : (k : JobName) (q : Queue W) → k ≢ j → Step j q (resolve k q)
  restarted : (q : Queue W) → Step j q (restart_queue q)

pub data Steps {W : Type 0} (j : JobName) : Queue W → Queue W → Type 0 where
  done : (q : Queue W) → Steps j q q
  next : (p q r : Queue W) → Step j p q → Steps j q r → Steps j p r

module _ {W : Type 0} (j : JobName) where
  -- The queue is in order, and the job is there.
  abbrev pub Waits : W → Queue W → Type 0
  Waits w q = IsQueue q × (outstanding j q ≡ some w)

  insert-Waits :
      (k : JobName) (item : W) (q : Queue W) (w : W)
      → outstanding k q ≡ none
      → Waits w q
      → Waits w (record q { queued = insert k item q.queued })
  insert-Waits k item q w new (h, here) = (
    record {
      apart = λ i m. ground (arith, lookup-insert k i item q.queued, h.apart i, m, clash i);
      unique = h.unique;
    },
    ground (arith, lookup-insert k j item q.queued, here, clash j),
  )
    where
      clash : (i : JobName) → (k == i) ≡ true → outstanding i q ≡ none
      clash i same =
          subst (λ n. outstanding n q ≡ none) ((pair_beq_iff nat_eq string_eq k i).0 same) new

  enqueue-Waits :
      (now : ℕ) (random_id : String) (item : W) (delay : ℕ) (q : Queue W) (w : W)
      → outstanding (now + delay, random_id) q ≡ none
      → Waits w q
      → Waits w (enqueue now random_id item delay q)
  unfolding enqueue
  enqueue-Waits now random_id item delay q w = insert-Waits (now + delay, random_id) item q w

  resolve-Waits : (k : JobName) (q : Queue W) (w : W) → k ≢ j → Waits w q → Waits w (resolve k q)
  unfolding resolve
  resolve-Waits k q w other (h, here) = (
    record {
      apart = λ i m. ground (arith, lookup-remove k i q.processing, h.apart i, m);
      unique = remove-Unique k q.processing h.unique;
    },
    ground (arith, lookup-remove k j q.processing, here, beq_ne k j other),
  )

  dequeue-Waits : (now : ℕ) (q : Queue W) (w : W) → Waits w q → Waits w (dequeue now q).1
  dequeue-Waits now q w (h, here) = elim (dequeue-cases now q) [
    | inl idle ↦ subst (λ r. Waits w r.1) (sym idle) (h, here)
    | inr (k, item, there, first, due, taken) ↦
        subst (λ r. Waits w r.1) (sym taken)
          (take_job-IsQueue k item q h, take_job-outstanding j k item q h there ∙ here)
  ]

  Step-Waits : (p q : Queue W) (w : W) → Step j p q → Waits w p → Waits w q
  Step-Waits _ _ w (enqueued now random_id item delay q new) h =
      enqueue-Waits now random_id item delay q w new h
  Step-Waits _ _ w (dequeued now q) h = dequeue-Waits now q w h
  Step-Waits _ _ w (resolved k q other) h = resolve-Waits k q w other h
  Step-Waits _ _ w (restarted q) (h, here) =
      (restart_queue-IsQueue q h, restart_queue-outstanding j q h ∙ here)

  -- A job that is in a queue, or is worked on, stays so with its work item until it is resolved:
  -- however jobs with new names are added, jobs are taken, others are resolved and the node is
  -- restarted, and no job is in the queue and in work at once.
  pub Steps-Waits :
      (p q : Queue W) (w : W)
      → Steps j p q
      → IsQueue p
      → outstanding j p ≡ some w
      → IsQueue q × (outstanding j q ≡ some w)
  Steps-Waits _ _ w (done q) h here = (h, here)
  Steps-Waits _ _ w (next p q r s rest) h here =
      let (h', here') = Step-Waits p q w s (h, here) in Steps-Waits q r w rest h' here'
