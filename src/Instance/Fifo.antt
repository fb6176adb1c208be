-- ===== src/Instance/Fifo.antt =====
-- The agent operations of an instance leave its queue in the order in which they were added
-- (shakenfist/instance.py).
use Prim.Native.String.{String}
use text.Mathlib.TextEquality.{eq_iff}
use mathlib.Core.Path.{subst}
use shakenfist.Prelude.{
  ◌≡◌, refl, sym, ap, ◌∙◌, List, [], ◌∷◌, ◌++◌, Option, none, some, Dict, lookup, ◌==◌, string_eq,
  Bool-cases, Option-cases, inl, inr,
}
use shakenfist.Blob.Model.{option_list}
use shakenfist.Instance.AgentOperations.{
  Operations, agent_operation_enqueue, agent_operation_dequeue,
}

-- What is done to the queue: an operation is added, or one is asked for, in the states of the agent
-- operations at that time.
pub data Call : Type 0 where
  enqueue : String → Call
  dequeue : Dict String String → Call

abbrev pub with_served : Option String → List String → List String
with_served none served = served
with_served (some agentop_uuid) served = agentop_uuid ∷ served

-- The operations that dequeue returned, in turn, and the attribute at the end.
unfoldable pub run : List Call → Operations → List String × Operations
unfolding agent_operation_enqueue agent_operation_dequeue
run [] db_data = ([], db_data)
run (enqueue agentop_uuid ∷ calls) db_data =
    run calls (agent_operation_enqueue agentop_uuid db_data)
run (dequeue states ∷ calls) db_data =
    let (agentop, db_data') = agent_operation_dequeue states db_data in
    let (served, last) = run calls db_data' in (with_served agentop served, last)

-- What was added, in turn.
abbrev pub enqueued : List Call → List String
enqueued [] = []
enqueued (enqueue agentop_uuid ∷ calls) = agentop_uuid ∷ enqueued calls
enqueued (dequeue states ∷ calls) = enqueued calls

-- The states of the agent operations at one of the calls of dequeue.
pub data Called (states : Dict String String) : List Call → Type 0 where
  now : (calls : List Call) → Called states (dequeue states ∷ calls)
  later : (call : Call) (calls : List Call) → Called states calls → Called states (call ∷ calls)

-- At one of the calls of dequeue the agent operation had that state, or was not there.
pub record AskedAt (calls : List Call) (agentop_uuid : String) (state : Option String)
    : Type 0 where
  pub states : Dict String String
  pub asked : Called states calls
  pub found : lookup agentop_uuid states ≡ state

-- The first list is the second without the agent operations that were not there at a call. The others
-- were queued at a call.
pub data Within (calls : List Call) : List String → List String → Type 0 where
  done : Within calls [] []
  keeps :
      (x : String) (xs ys : List String)
      → AskedAt calls x (some "queued")
      → Within calls xs ys
      → Within calls (x ∷ xs) (x ∷ ys)
  skips :
      (x : String) (xs ys : List String)
      → AskedAt calls x none
      → Within calls xs ys
      → Within calls xs (x ∷ ys)

-- An abstract queue: what was in it and what was added is what was taken and what is left, in that
-- order; what was taken was served, in that order and in the state queued, but for what was not there
-- when it was asked for; and all that was added is on record.
pub record Served (calls : List Call) (before : Operations) (after : List String × Operations)
    : Type 0 where
  pub taken : List String
  pub in_order : before.queue ++ enqueued calls ≡ taken ++ after.1.queue
  pub served_of_taken : Within calls after.0 taken
  pub recorded : after.1.all ≡ before.all ++ enqueued calls

append_nil : (xs : List String) → xs ++ [] ≡ xs
append_nil [] = refl
append_nil (x ∷ xs) = ap (λ l. x ∷ l) (append_nil xs)

append_assoc : (xs ys zs : List String) → (xs ++ ys) ++ zs ≡ xs ++ (ys ++ zs)
append_assoc [] ys zs = refl
append_assoc (x ∷ xs) ys zs = ap (λ l. x ∷ l) (append_assoc xs ys zs)

Within-append :
    (calls : List Call) (xs ys us vs : List String)
    → Within calls xs us
    → Within calls ys vs
    → Within calls (xs ++ ys) (us ++ vs)
Within-append calls _ ys _ vs done r = r
Within-append calls _ ys _ vs (keeps x xs us a h) r =
    keeps x (xs ++ ys) (us ++ vs) a (Within-append calls xs ys us vs h r)
Within-append calls _ ys _ vs (skips x xs us a h) r =
    skips x (xs ++ ys) (us ++ vs) a (Within-append calls xs ys us vs h r)

AskedAt-later :
    (call : Call) (calls : List Call) (x : String) (state : Option String)
    → AskedAt calls x state
    → AskedAt (call ∷ calls) x state
AskedAt-later call calls x state a = record {
  states = a.states;
  asked = later call calls a.asked;
  found = a.found;
}

Within-later :
    (call : Call) (calls : List Call) (xs us : List String)
    → Within calls xs us
    → Within (call ∷ calls) xs us
Within-later call calls _ _ done = done
Within-later call calls _ _ (keeps x xs us a h) =
    keeps x xs us (AskedAt-later call calls x (some "queued") a) (Within-later call calls xs us h)
Within-later call calls _ _ (skips x xs us a h) =
    skips x xs us (AskedAt-later call calls x none a) (Within-later call calls xs us h)

-- What one call of dequeue takes from the queue.
record Took (calls : List Call) (before : Operations) (result : Option String × Operations)
    : Type 0 where
  taken : List String
  queue : before.queue ≡ taken ++ result.1.queue
  all : result.1.all ≡ before.all
  returned : Within calls (option_list result.0) taken

agent_operation_dequeue-Took :
    (calls : List Call) (states : Dict String String) (queue : List String) (db_data : Operations)
    → db_data.queue ≡ queue
    → Took (dequeue states ∷ calls) db_data (agent_operation_dequeue states db_data)
unfolding agent_operation_dequeue
agent_operation_dequeue-Took calls states [] db_data h =
    rw (agent_operation_dequeue, h)
      (record { taken = []; queue = sym h; all = refl; returned = done })
agent_operation_dequeue-Took calls states (u ∷ queue) db_data h =
    elim (Option-cases (lookup u states)) [
      | inl gone ↦
          rw (agent_operation_dequeue, h, gone)
            (record {
              taken = u ∷ [];
              queue = refl;
              all = refl;
              returned =
                  skips u [] [] (record { states = states; asked = now calls; found = gone }) done;
            })
      | inr (state, found) ↦ elim (Bool-cases (state == "queued")) [
        | inl ready ↦
            rw (agent_operation_dequeue, h, found, ready)
              (record {
                taken = u ∷ [];
                queue = refl;
                all = refl;
                returned =
                    keeps u [] []
                      (record {
                        states = states;
                        asked = now calls;
                        found = found ∙ ap some ((eq_iff state "queued").0 ready);
                      })
                      done;
              })
        | inr waits ↦
            rw (agent_operation_dequeue, h, found, waits)
              (record { taken = []; queue = sym h; all = refl; returned = done })
      ]
    ]

with_served-append :
    (o : Option String) (served : List String) → with_served o served ≡ option_list o ++ served
with_served-append none served = refl
with_served-append (some u) served = refl

-- Whatever is added and asked for, in whatever states the agent operations are, the queue is first in,
-- first out: what was in it and what was added, in that order, is what was taken from it and then what
-- is left; what was taken was served in that order, and was queued at a call that asked for one, but
-- for what was not there at such a call; and all that was added is on record.
pub run-Served :
    (calls : List Call) (db_data : Operations) → Served calls db_data (run calls db_data)
unfolding run agent_operation_enqueue agent_operation_dequeue
run-Served [] db_data = record {
  taken = [];
  in_order = append_nil db_data.queue;
  served_of_taken = done;
  recorded = sym (append_nil db_data.all);
}
run-Served (enqueue agentop_uuid ∷ calls) db_data =
    let s = run-Served calls (agent_operation_enqueue agentop_uuid db_data) in
    record {
      taken = s.taken;
      in_order = sym (append_assoc db_data.queue (agentop_uuid ∷ []) (enqueued calls)) ∙ s.in_order;
      served_of_taken = Within-later (enqueue agentop_uuid) calls _ _ s.served_of_taken;
      recorded = s.recorded ∙ append_assoc db_data.all (agentop_uuid ∷ []) (enqueued calls);
    }
run-Served (dequeue states ∷ calls) db_data =
    let result = agent_operation_dequeue states db_data in
    let t = agent_operation_dequeue-Took calls states db_data.queue db_data refl in
    let s = run-Served calls result.1 in
    let last = (run calls result.1).1 in
    record {
      taken = t.taken ++ s.taken;
      in_order =
          ap (λ q. q ++ enqueued calls) t.queue
          ∙ append_assoc t.taken result.1.queue (enqueued calls)
          ∙ ap (λ q. t.taken ++ q) s.in_order
          ∙ sym (append_assoc t.taken s.taken last.queue);
      served_of_taken =
          subst (λ l. Within (dequeue states ∷ calls) l (t.taken ++ s.taken))
            (sym (with_served-append result.0 _))
            (Within-append (dequeue states ∷ calls) _ _ t.taken s.taken t.returned
              (Within-later (dequeue states) calls _ _ s.served_of_taken));
      recorded = s.recorded ∙ ap (λ l. l ++ enqueued calls) t.all;
    }
