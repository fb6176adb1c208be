-- ===== src/Instance/Failure.antt =====
-- What becomes of the state of an instance when it fails and when it is deleted: create,
-- enqueue_delete_due_error and _delete_globally of shakenfist/instance.py, on the object database.
use Prim.Native.String.{String}
use shakenfist.Prelude.{
  ℕ, zero, suc, ◌+◌, Bool, true, false, not, Option, none, some, ◌==◌, string_eq, if◌then◌else◌,
  Result, ok, err, ◌>>=◌,
}
use shakenfist.ObjectState.Names.{
  StateName, initial, creating, created, deleted, delete_wait, error, preflight, initial_error,
  preflight_error, creating_error, created_error, delete_wait_error, option_state_name_eq,
  OptionStateName-discrete, state_string, instances,
}
use shakenfist.ObjectState.Update.{
  ObjectDb, Times, Failure, invalid_state, attribute_error, state, state_update, ends_with,
  set_error,
}

-- '%s-error' % value, where that is the name of a state. No other text is in the tables.
abbrev pub error_state : Option StateName → Option StateName
error_state (some initial) = some initial_error
error_state (some preflight) = some preflight_error
error_state (some creating) = some creating_error
error_state (some created) = some created_error
error_state (some delete_wait) = some delete_wait_error
error_state _ = none

module _ {S : Type 0} where
  abbrev pub set_instance_state :
      String → StateName → Times → ObjectDb S → Result Failure (ObjectDb S)
  set_instance_state uuid new t db = state_update instances false uuid new false t db

  -- self.state = '%s-error' % self.state.value
  unfoldable pub try_error_state : String → Times → ObjectDb S → Result Failure (ObjectDb S)
  try_error_state uuid t db = elim (error_state (state false uuid db).value) [
    | none ↦ err invalid_state
    | some new ↦ set_instance_state uuid new t db
  ]

  -- `try: … except Exception: self.state = self.STATE_ERROR`
  unfoldable pub or_error :
      String → Times → ObjectDb S → Result Failure (ObjectDb S) → Result Failure (ObjectDb S)
  or_error uuid t db (ok db') = ok db'
  or_error uuid t db (err e) = set_instance_state uuid error t db

  -- enqueue_delete_due_error: whether the deletion was put on the node's queue, and the database
  unfoldable pub enqueue_delete_due_error :
      String → String → Times → ObjectDb S → Result Failure (Bool × ObjectDb S)
  unfolding OptionStateName-discrete try_error_state or_error
  enqueue_delete_due_error uuid error_msg t db =
      if (state false uuid db).value == some deleted then ok (false, db) else (do
        db' ← or_error uuid t db (try_error_state uuid t db)
        db'' ← set_error uuid (some error_msg) db'
        ok (true, db''))

  -- the end of _delete_globally
  unfoldable pub delete_globally : String → Times → ObjectDb S → Result Failure (ObjectDb S)
  unfolding ends_with state_string
  delete_globally uuid t db = elim ((state false uuid db).value) [
    | none ↦ err attribute_error
    | some value ↦
        if ends_with (state_string value) "-error"
        then set_instance_state uuid error t db
        else set_instance_state uuid deleted t db
  ]

-- virDomainState, as far as extract_power_state tells the states apart
pub data Domain : Type 0 where
  shutoff crashed paused pmsuspended running : Domain

-- extract_power_state
abbrev pub extract_power_state : Domain → String
extract_power_state shutoff = "off"
extract_power_state crashed = "crashed"
extract_power_state paused = "paused"
extract_power_state pmsuspended = "paused"
extract_power_state running = "on"

-- is_powered_on, whose result is a text; `none` is an instance that libvirt does not know
abbrev pub is_powered_on : Option Domain → String
is_powered_on none = "off"
is_powered_on (some domain) = extract_power_state domain

-- What happens in a call of _power_on_inner: libvirt does not define the domain; the domain starts, or
-- runs already; a port of the instance is in use; or libvirt refuses for another reason.
pub data Start : Type 0 where
  no_domain started already_running ports_clash refused : Start

pub data CreateError : Type 0 where
  -- NoDomainException
  no_domain_exception : CreateError
  -- KeyError
  key_error : CreateError
  state_failure : Failure → CreateError

-- An exception, with the database as it is when it is raised.
abbrev pub Raised : Type 0 → Type 0
Raised S = CreateError × ObjectDb S

abbrev pub with_database {ℓ} :
    {S : Type 0} {A : Type ℓ} → ObjectDb S → Result Failure A → Result (Raised S) A
with_database db (ok a) = ok a
with_database db (err e) = err (state_failure e, db)

-- The exception that follows the request for the deletion, unless that one raises
abbrev pub then_no_domain :
    {S : Type 0} → ObjectDb S → Result Failure (Bool × ObjectDb S) → Result (Raised S) Bool
then_no_domain db (ok failed) = err (no_domain_exception, failed.1)
then_no_domain db (err e) = err (state_failure e, db)

-- `has_tls` says whether the ports of the instance have a vdi_tls_port, as those for spice do.
module _ {S : Type 0} (uuid : String) (has_tls : Bool) (t : Times) (db : ObjectDb S) where
  -- _power_on_inner, on the state; on a clash it reads ports['vdi_tls_port']
  unfoldable pub power_on_inner : Start → Result (Raised S) Bool
  unfolding enqueue_delete_due_error
  power_on_inner no_domain =
      then_no_domain db (enqueue_delete_due_error uuid "power on failed to create domain" t db)
  power_on_inner started = ok true
  power_on_inner already_running = ok true
  power_on_inner ports_clash = if has_tls then ok false else err (key_error, db)
  power_on_inner refused = ok false

  module _ (starts : ℕ → Start) where
    -- The loop of power_on over the attempts that are left, at the number of calls of
    -- _power_on_inner so far, the n-th of which finds `starts n`. How many there were when it ends.
    unfoldable pub power_on_again : ℕ → ℕ → Result (Raised S) ℕ
    unfolding power_on_inner
    power_on_again zero calls = power_on_inner (starts calls) >>= λ _. ok (calls + 1)
    power_on_again (suc attempts) calls =
        let rest = power_on_again attempts (calls + 1) in
        power_on_inner (starts calls) >>= λ done. if done then ok (calls + 1) else rest

    -- power_on: how often it called _power_on_inner, and whether it reset the agent state
    unfoldable pub power_on : Result (Raised S) (ℕ × Bool)
    unfolding power_on_again power_on_inner
    power_on = power_on_inner (starts 0) >>= λ done.
        if done then ok (1, false) else power_on_again 5 1 >>= λ calls. ok (calls, true)

module _ {S : Type 0} where
  -- create, on the state: the configuration of the disks, and of the config drive, is taken to
  -- succeed
  unfoldable pub create :
      String
      → Bool
      → (ℕ → Start)
      → (ℕ → Option Domain)
      → Times
      → Times
      → ObjectDb S
      → Result (Raised S) (ObjectDb S)
  unfolding power_on enqueue_delete_due_error
  create uuid has_tls starts domain t t' db = do
    db' ← with_database db (set_instance_state uuid creating t db)
    powered ← power_on uuid has_tls t' db' starts
    (if not (is_powered_on (domain powered.0) == "")
        then with_database db' (set_instance_state uuid created t' db')
        else (do
          failed ←
              with_database db' (enqueue_delete_due_error uuid "Instance failed to power on" t' db')
          ok failed.1))
