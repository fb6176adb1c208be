-- ===== src/ObjectState/Tables.antt =====
-- `state_targets` of each class, and Python's `in` at a value of it.
use Prim.Native.String.{String}
use text.Mathlib.Text.{starts_with}
use shakenfist.Prelude.{Bool, false, ◌||◌, List, [], ◌∷◌, Option, none, some, Dict, lookup, elem}
use shakenfist.ObjectState.Names.{
  StateName, initial, creating, created, deleted, delete_wait, error, preflight, initial_error,
  preflight_error, creating_error, created_error, delete_wait_error, missing, stopping, stopped,
  queued, executing, complete, state_name_eq, option_state_name_eq, StateName-discrete,
  OptionStateName-discrete, state_string, ObjectType, unknown, agentoperation, artifact, blob,
  instances, ipam, namespace, network, networkinterface, node, upload,
}

-- A value of the dictionary is a tuple of names. `(name)`, with no comma, is the string itself, and
-- `None` is `None`.
pub data Targets : Type 0 where
  tuple : List StateName → Targets
  chars : StateName → Targets
  nothing : Targets

-- Python's `small in big` on strings.
unfoldable pub is_substring : String → String → Bool
is_substring small String.[] = starts_with "" small
is_substring small (String.◌∷◌ c big) =
    starts_with (String.◌∷◌ c big) small || is_substring small big

-- `new_value in targets`; `none` is the TypeError of `in None`.
unfoldable pub in_targets : StateName → Targets → Option Bool
unfolding is_substring elem state_string StateName-discrete
in_targets new (tuple names) = some (elem new names)
in_targets new (chars name) = some (is_substring (state_string new) (state_string name))
in_targets new nothing = none

abbrev pub Transitions : Type 0
Transitions = Dict (Option StateName) Targets

-- BaseOperation.state_targets
abbrev pub operation_targets : Transitions
operation_targets =
    (none, tuple (initial ∷ error ∷ []))
    ∷ (some initial, tuple (preflight ∷ queued ∷ deleted ∷ error ∷ []))
    ∷ (some preflight, tuple (queued ∷ deleted ∷ error ∷ []))
    ∷ (some queued, tuple (executing ∷ deleted ∷ error ∷ []))
    ∷ (some executing, tuple (complete ∷ deleted ∷ error ∷ []))
    ∷ (some complete, chars deleted)
    ∷ (some error, chars deleted)
    ∷ (some deleted, nothing)
    ∷ []

-- Artifact.state_targets
abbrev pub artifact_targets : Transitions
artifact_targets =
    (none, chars initial)
    ∷ (some initial, tuple (created ∷ deleted ∷ error ∷ []))
    ∷ (some created, tuple (deleted ∷ error ∷ []))
    ∷ (some error, tuple (deleted ∷ error ∷ []))
    ∷ (some deleted, tuple [])
    ∷ []

-- Blob.state_targets
abbrev pub blob_targets : Transitions
blob_targets =
    (none, chars initial)
    ∷ (some initial, tuple (created ∷ error ∷ deleted ∷ []))
    ∷ (some created, tuple (error ∷ deleted ∷ []))
    ∷ (some error, chars deleted)
    ∷ (some deleted, tuple [])
    ∷ []

-- Instance.state_targets
abbrev pub instance_targets : Transitions
instance_targets =
    (none, tuple (initial ∷ error ∷ []))
    ∷ (some initial, tuple (preflight ∷ delete_wait ∷ deleted ∷ initial_error ∷ []))
    ∷ (some preflight, tuple (creating ∷ delete_wait ∷ deleted ∷ preflight_error ∷ []))
    ∷ (some creating, tuple (created ∷ delete_wait ∷ deleted ∷ creating_error ∷ []))
    ∷ (some created, tuple (delete_wait ∷ deleted ∷ created_error ∷ []))
    ∷ (some initial_error, tuple (delete_wait ∷ deleted ∷ error ∷ []))
    ∷ (some preflight_error, tuple (delete_wait ∷ deleted ∷ error ∷ []))
    ∷ (some creating_error, tuple (delete_wait ∷ deleted ∷ error ∷ []))
    ∷ (some created_error, tuple (delete_wait ∷ deleted ∷ error ∷ []))
    ∷ (some error, tuple (delete_wait ∷ deleted ∷ error ∷ []))
    ∷ (some delete_wait, tuple (deleted ∷ delete_wait_error ∷ []))
    ∷ (some delete_wait_error, chars error)
    ∷ (some deleted, nothing)
    ∷ []

-- IPAM.state_targets
abbrev pub ipam_targets : Transitions
ipam_targets = (none, chars created) ∷ (some created, chars deleted) ∷ (some deleted, nothing) ∷ []

-- Namespace.state_targets
abbrev pub namespace_targets : Transitions
namespace_targets = (none, chars created) ∷ (some created, chars deleted) ∷ []

-- Network.state_targets
abbrev pub network_targets : Transitions
network_targets =
    (none, tuple (initial ∷ []))
    ∷ (some initial, tuple (created ∷ deleted ∷ error ∷ []))
    ∷ (some created, tuple (deleted ∷ delete_wait ∷ error ∷ []))
    ∷ (some delete_wait, tuple (deleted ∷ error ∷ []))
    ∷ (some error, tuple (deleted ∷ error ∷ []))
    ∷ (some deleted, tuple [])
    ∷ []

-- NetworkInterface.state_targets
abbrev pub networkinterface_targets : Transitions
networkinterface_targets =
    (none, tuple (initial ∷ []))
    ∷ (some initial, tuple (created ∷ deleted ∷ error ∷ []))
    ∷ (some created, tuple (deleted ∷ error ∷ []))
    ∷ (some error, tuple (deleted ∷ error ∷ []))
    ∷ (some deleted, tuple [])
    ∷ []

-- Node.state_targets
abbrev pub node_targets : Transitions
node_targets =
    (none, tuple (created ∷ error ∷ missing ∷ []))
    ∷ (some created, tuple (deleted ∷ error ∷ missing ∷ stopping ∷ []))
    ∷ (some stopping, tuple (stopped ∷ deleted ∷ error ∷ created ∷ []))
    ∷ (some stopped, tuple (created ∷ deleted ∷ error ∷ []))
    ∷ (some error, tuple (created ∷ deleted ∷ []))
    ∷ (some missing, tuple (created ∷ deleted ∷ error ∷ []))
    ∷ (some deleted, nothing)
    ∷ []

-- Upload.state_targets
abbrev pub upload_targets : Transitions
upload_targets =
    (none, chars created) ∷ (some created, chars deleted) ∷ (some deleted, tuple []) ∷ []

-- `self.state_targets`; the base class has `None`.
unfoldable pub state_targets : ObjectType → Option Transitions
state_targets unknown = none
state_targets agentoperation = some operation_targets
state_targets artifact = some artifact_targets
state_targets blob = some blob_targets
state_targets instances = some instance_targets
state_targets ipam = some ipam_targets
state_targets namespace = some namespace_targets
state_targets network = some network_targets
state_targets networkinterface = some networkinterface_targets
state_targets node = some node_targets
state_targets upload = some upload_targets

-- `new_value in self.state_targets.get(orig, [])`
unfoldable pub in_state_targets : Transitions → Option StateName → StateName → Option Bool
unfolding lookup in_targets OptionStateName-discrete
in_state_targets table orig new = elim (lookup orig table) [
  | none ↦ some false
  | some targets ↦ in_targets new targets
]
