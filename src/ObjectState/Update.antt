-- ===== src/ObjectState/Update.antt =====
-- `_state_update`, the `error` property, `_db_create` and `hard_delete` of DatabaseBackedObject
-- (shakenfist/baseobject.py). The locks are taken to be granted, so that each method is one step.
use Prim.Native.String.{String}
use shakenfist.Prelude.{
  ℕ, Bool, true, false, ◌||◌, Option, none, some, Dict, lookup, contains, insert, remove, ◌==◌,
  string_eq, if◌then◌else◌, Result, ok, err, ◌>>◌,
}
use text.Mathlib.Text.{◌==◌ as str_eq}
use shakenfist.ObjectState.Names.{
  StateName, deleted, hard_deleted, state_string, OptionStateName-discrete, option_state_name_eq,
  ObjectType,
}
use shakenfist.ObjectState.Tables.{state_targets, in_state_targets}
use shakenfist.ObjectState.Cache.{Caches, update_object_state_cache}

-- The class State
pub record State : Type 0 where
  pub value : Option StateName
  pub update_time : ℕ

-- What one object type keeps in etcd: the objects' static values, the attributes `state` and
-- `error`, and the caches; and the states of the objects which are only in the memory of a process.
pub record ObjectDb (S : Type 0) : Type 0 where
  pub objects : Dict String S
  pub states : Dict String State
  pub errors : Dict String (Option String)
  pub caches : Caches
  pub memory : Dict String State

pub data Failure : Type 0 where
  invalid_state no_transitions type_error attribute_error : Failure

-- The values that `time.time()` has where one update asks for it.
pub record Times : Type 0 where
  pub at_state : ℕ
  pub at_all : ℕ
  pub at_cache : ℕ

module _ {S : Type 0} where
  -- the property `state`; an object with no such attribute is in State(None, 0)
  unfoldable pub state : Bool → String → ObjectDb S → State
  state in_memory uuid db = elim (lookup uuid (if in_memory then db.memory else db.states)) [
    | none ↦ record { value = none; update_time = 0 }
    | some s ↦ s
  ]

  -- _db_set_attribute('state', …)
  unfoldable pub set_state : Bool → String → State → ObjectDb S → ObjectDb S
  set_state true uuid s db = record db { memory = insert uuid s db.memory }
  set_state false uuid s db = record db { states = insert uuid s db.states }

-- the validation of the transition in _state_update
unfoldable pub validate : ObjectType → Option StateName → StateName → Result Failure (Unit {0})
validate ty orig new_value = elim (state_targets ty) [
  | none ↦ err no_transitions
  | some targets ↦ elim (in_state_targets targets orig new_value) [
    | none ↦ err type_error
    | some true ↦ ok tt
    | some false ↦ err invalid_state
  ]
]

module _ {S : Type 0} where
  -- the end of _state_update, once the change is known to be valid
  unfoldable pub commit_state :
      Bool → String → Option StateName → StateName → Times → ObjectDb S → ObjectDb S
  unfolding set_state
  commit_state in_memory uuid orig new_value t db =
      let new_state : State = record { value = some new_value; update_time = t.at_state } in
      let db' = set_state in_memory uuid new_state db in
      if in_memory then db' else record db' {
        caches = update_object_state_cache uuid orig new_value t.at_all t.at_cache db'.caches;
      }

  -- _state_update
  unfoldable pub state_update :
      ObjectType
      → Bool
      → String
      → StateName
      → Bool
      → Times
      → ObjectDb S
      → Result Failure (ObjectDb S)
  unfolding OptionStateName-discrete
  state_update ty in_memory uuid new_value skip_transition_validation t db =
      let orig = (state in_memory uuid db).value in
      if orig == some new_value
      then ok db
      else if orig == some deleted
      then err invalid_state
      else (do
        if skip_transition_validation then ok tt else validate ty orig new_value
        ok (commit_state in_memory uuid orig new_value t db))

  -- _db_create; etcd.create leaves what is there already
  unfoldable pub db_create : String → S → ObjectDb S → ObjectDb S
  db_create uuid static_values db = record db {
    objects = if contains uuid db.objects then db.objects else insert uuid static_values db.objects;
  }

  -- hard_delete
  unfoldable pub hard_delete : Bool → String → Times → ObjectDb S → ObjectDb S
  hard_delete in_memory uuid t db = record db {
    objects = remove uuid db.objects;
    states = remove uuid db.states;
    errors = remove uuid db.errors;
    caches =
        update_object_state_cache uuid (state in_memory uuid db).value hard_deleted t.at_all
          t.at_cache db.caches;
  }

-- Python's `big.endswith(small)`
unfoldable pub ends_with : String → String → Bool
ends_with String.[] small = str_eq String.[] small
ends_with (String.◌∷◌ c big) small = str_eq (String.◌∷◌ c big) small || ends_with big small

module _ {S : Type 0} where
  -- the property `error`
  unfoldable pub error_message : String → ObjectDb S → Option String
  error_message uuid db = elim (lookup uuid db.errors) [ none ↦ none | some message ↦ message ]

  -- its setter, for an object in etcd; an empty message is no message
  unfoldable pub set_error : String → Option String → ObjectDb S → Result Failure (ObjectDb S)
  unfolding ends_with state_string
  set_error uuid none db = ok (record db { errors = insert uuid none db.errors })
  set_error uuid (some message) db =
      let stored = record db { errors = insert uuid (some message) db.errors } in
      if str_eq message "" then ok stored else elim ((state false uuid db).value) [
        | none ↦ err attribute_error
        | some value ↦
            if ends_with (state_string value) "error" then ok stored else err invalid_state
      ]
