-- ===== src/ObjectState/Names.antt =====
-- The names of the states and of the object types (shakenfist/baseobject.py and its subclasses).
use Prim.Native.String.{String}
use shakenfist.Prelude.{Eq, dec_beq, dec_beq_iff, Option}

pub data StateName : Type 0 where
  initial creating created deleted delete_wait error hard_deleted : StateName
  preflight initial_error preflight_error creating_error created_error delete_wait_error : StateName
  missing stopping stopped : StateName
  queued executing complete : StateName

unfoldable pub StateName-discrete : Discrete StateName
StateName-discrete = hlevel

instance abbrev pub state_name_eq : Eq StateName
state_name_eq = record {
  beq = dec_beq StateName-discrete;
  beq_iff = dec_beq_iff StateName-discrete;
}

-- The state of an object is `None` before its first update.
unfoldable pub OptionStateName-discrete : Discrete (Option StateName)
OptionStateName-discrete = hlevel

instance abbrev pub option_state_name_eq : Eq (Option StateName)
option_state_name_eq = record {
  beq = dec_beq OptionStateName-discrete;
  beq_iff = dec_beq_iff OptionStateName-discrete;
}

unfoldable pub state_string : StateName → String
state_string initial = "initial"
state_string creating = "creating"
state_string created = "created"
state_string deleted = "deleted"
state_string delete_wait = "delete-wait"
state_string error = "error"
state_string hard_deleted = "hard-deleted"
state_string preflight = "preflight"
state_string initial_error = "initial-error"
state_string preflight_error = "preflight-error"
state_string creating_error = "creating-error"
state_string created_error = "created-error"
state_string delete_wait_error = "delete-wait-error"
state_string missing = "missing"
state_string stopping = "stopping"
state_string stopped = "stopped"
state_string queued = "queued"
state_string executing = "executing"
state_string complete = "complete"

-- `unknown` is the base class, which defines no transitions.
pub data ObjectType : Type 0 where
  unknown agentoperation artifact blob instances ipam namespace network networkinterface :
      ObjectType
  node upload : ObjectType

unfoldable pub object_type_string : ObjectType → String
object_type_string unknown = "unknown"
object_type_string agentoperation = "agentoperation"
object_type_string artifact = "artifact"
object_type_string blob = "blob"
object_type_string instances = "instance"
object_type_string ipam = "ipam"
object_type_string namespace = "namespace"
object_type_string network = "network"
object_type_string networkinterface = "networkinterface"
object_type_string node = "node"
object_type_string upload = "upload"
