-- ===== src/Instance/AgentOperations.antt =====
-- The queue of agent operations of an instance (agent_operation_enqueue and agent_operation_dequeue
-- of shakenfist/instance.py).
use Prim.Native.String.{String}
use shakenfist.Prelude.{
  List, [], ◌∷◌, ◌++◌, Option, none, some, Dict, lookup, ◌==◌, string_eq, if◌then◌else◌,
}

-- The attribute 'agent_operations'; a list that is not there is read as empty.
pub record Operations : Type 0 where
  pub queue : List String
  pub all : List String

-- agent_operation_enqueue
unfoldable pub agent_operation_enqueue : String → Operations → Operations
agent_operation_enqueue agentop_uuid db_data = record {
  queue = db_data.queue ++ (agentop_uuid ∷ []);
  all = db_data.all ++ (agentop_uuid ∷ []);
}

-- agent_operation_dequeue, where `states` gives the state of each agent operation that there is: the
-- operation that is to be executed, and the attribute
unfoldable pub agent_operation_dequeue :
    Dict String String → Operations → Option String × Operations
agent_operation_dequeue states db_data = elim db_data.queue [
  | [] ↦ (none, db_data)
  | agentop_uuid ∷ queue ↦ elim (lookup agentop_uuid states) [
    | none ↦ (none, record db_data { queue = queue })
    | some state ↦
        if state == "queued"
        then (some agentop_uuid, record db_data { queue = queue })
        else (none, db_data)
  ]
]
