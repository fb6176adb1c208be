-- ===== src/Queue/Outstanding.antt =====
-- No job is lost, none is in a queue and in work at once, and the first due job comes next
-- (shakenfist/etcd.py).
use mathlib.Core.Path.{subst}
use shakenfist.Prelude.{
  ℕ, ◌≡◌, ◌≢◌, refl, true, false, [], ◌∷◌, Option, none, some, Dict, lookup, keys, contains, ltb,
  pair_eq, nat_eq, string_eq, ◌==◌, pair_beq_iff, lookup-insert, lookup-remove, All, Unique,
  lookup-absent, insert-Unique, remove-Unique, if◌then◌else◌, Bool-cases, Option-cases, ◌⊎◌, inl,
  inr, arith,
}
use shakenfist.Scheduler.Groups.{best_key}
use shakenfist.Queue.Model.{
  JobName, before, Queue, take_job, dequeue, requeue, requeue_each, restart_queue,
}

module _ {W : Type 0} where
  abbrev or_else : Option W → Option W → Option W
  or_else none o = o
  or_else (some w) o = some w

  -- The work item of a job that waits or is worked on.
  abbrev pub outstanding : JobName → Queue W → Option W
  outstanding j q = or_else (lookup j q.queued) (lookup j q.processing)

  -- No job waits and is worked on at once, and no name is there twice.
  pub record IsQueue (q : Queue W) : Type 0 where
    pub apart : (j : JobName) → contains j q.queued ≡ true → contains j q.processing ≡ false
    pub unique : Unique q.processing

  requeue_each-queued :
      (j : JobName) (jobs : Dict JobName W) (q : Queue W)
      → Unique jobs
      → lookup j (requeue_each jobs q).queued ≡ or_else (lookup j jobs) (lookup j q.queued)
  unfolding requeue_each requeue lookup
  requeue_each-queued j [] q u = refl
  requeue_each-queued j ((k, w) ∷ jobs) q u =
      ground (
        arith,
        requeue_each-queued j jobs (requeue k w q) u.1,
        lookup-insert k j w q.queued,
        absent,
      )
    where
      absent : (k == j) ≡ true → lookup j jobs ≡ none
      absent same = lookup-absent j jobs (
          subst (λ n. All (λ item. item.0 ≢ n) jobs) ((pair_beq_iff nat_eq string_eq k j).0 same)
            u.0)

  requeue_each-processing :
      (j : JobName) (jobs : Dict JobName W) (q : Queue W)
      → lookup j (requeue_each jobs q).processing
        ≡ (if contains j jobs then none else lookup j q.processing)
  unfolding requeue_each requeue lookup
  requeue_each-processing j [] q = refl
  requeue_each-processing j ((k, w) ∷ jobs) q =
      ground (arith, requeue_each-processing j jobs (requeue k w q), lookup-remove k j q.processing)

  pub restart_queue-outstanding :
      (j : JobName) (q : Queue W) → IsQueue q → outstanding j (restart_queue q) ≡ outstanding j q
  unfolding restart_queue
  restart_queue-outstanding j q h = ground (
    arith,
    requeue_each-queued j q.processing q h.unique,
    requeue_each-processing j q.processing q,
    h.apart j,
  )

  pub take_job-outstanding :
      (j k : JobName) (w : W) (q : Queue W)
      → IsQueue q
      → lookup k q.queued ≡ some w
      → outstanding j (take_job k w q) ≡ outstanding j q
  unfolding take_job
  take_job-outstanding j k w q h here =
      ground (arith, lookup-remove k j q.queued, lookup-insert k j w q.processing, moved, h.apart j)
    where
      moved : (k == j) ≡ true → lookup j q.queued ≡ some w
      moved same =
          subst (λ n. lookup n q.queued ≡ some w) ((pair_beq_iff nat_eq string_eq k j).0 same) here

  pub take_job-IsQueue : (k : JobName) (w : W) (q : Queue W) → IsQueue q → IsQueue (take_job k w q)
  unfolding take_job
  take_job-IsQueue k w q h = record {
    apart = λ j m.
        ground (arith, lookup-remove k j q.queued, lookup-insert k j w q.processing, h.apart j, m);
    unique = insert-Unique k w q.processing h.unique;
  }

  requeue_each-Unique :
      (jobs : Dict JobName W) (q : Queue W)
      → Unique q.processing
      → Unique (requeue_each jobs q).processing
  unfolding requeue_each requeue
  requeue_each-Unique [] q u = u
  requeue_each-Unique ((k, w) ∷ jobs) q u =
      requeue_each-Unique jobs (requeue k w q) (remove-Unique k q.processing u)

  pub restart_queue-IsQueue : (q : Queue W) → IsQueue q → IsQueue (restart_queue q)
  unfolding restart_queue
  restart_queue-IsQueue q h = record {
    apart = λ j m. ground (arith, requeue_each-processing j q.processing q);
    unique = requeue_each-Unique q.processing q h.unique;
  }

  -- What dequeue does: nothing, or it takes a job that is there and due.
  pub dequeue-cases :
      (now : ℕ) (q : Queue W)
      → (dequeue now q ≡ (none, q))
        ⊎ ((k : JobName) × (w : W) × (lookup k q.queued ≡ some w)
            × (best_key before (keys q.queued) ≡ some k)
            × (ltb now k.0 ≡ false)
            × (dequeue now q ≡ (some (k, w), take_job k w q)))
  unfolding dequeue
  dequeue-cases now q = elim (Option-cases (best_key before (keys q.queued))) [
    | inl nothing ↦ inl (rw (dequeue, nothing) refl)
    | inr (k, found) ↦ elim (Option-cases (lookup k q.queued)) [
      | inl missing ↦ inl (rw (dequeue, found, missing) refl)
      | inr (w, here) ↦ elim (Bool-cases (ltb now k.0)) [
        | inl early ↦ inl (rw (dequeue, found, here, early) refl)
        | inr due ↦ inr (k, w, here, found, due, rw (dequeue, found, here, due) refl)
      ]
    ]
  ]
