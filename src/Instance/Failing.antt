-- ===== src/Instance/Failing.antt =====
-- An instance that fails ends in an error state, and its deletion always comes to an end
-- (shakenfist/instance.py).
use Prim.Native.String.{String}
use shakenfist.Prelude.{
  ◌≡◌, Bool, true, false, Option, none, some, lookup, ◌==◌, string_eq, beq_refl, contains,
  Bool-cases, inl, inr, Result, ok, lookup-insert_self, insert,
}
use shakenfist.ObjectState.Names.{
  StateName, initial, creating, created, deleted, delete_wait, error, preflight, initial_error,
  preflight_error, creating_error, created_error, delete_wait_error, option_state_name_eq,
  OptionStateName-discrete, state_string, instances,
}
use shakenfist.ObjectState.Tables.{instance_targets}
use shakenfist.ObjectState.Update.{
  ObjectDb, Times, Failure, state, validate, commit_state, state_update, ends_with, set_error,
  error_message,
}
use shakenfist.ObjectState.Runs.{value_of, state-commit_state}
use shakenfist.Instance.Failure.{
  error_state, set_instance_state, try_error_state, or_error, enqueue_delete_due_error,
}

-- The states that an instance may be in, before its first one included.
unfoldable pub is_instance_state : Option StateName → Bool
unfolding lookup OptionStateName-discrete
is_instance_state value = contains value instance_targets

-- The state after a failure.
abbrev pub failed_state : Option StateName → StateName
failed_state (some initial) = initial_error
failed_state (some preflight) = preflight_error
failed_state (some creating) = creating_error
failed_state (some created) = created_error
failed_state (some delete_wait) = delete_wait_error
failed_state _ = error

-- The state after the deletion.
abbrev pub final_state : Option StateName → StateName
final_state (some initial_error) = error
final_state (some preflight_error) = error
final_state (some creating_error) = error
final_state (some created_error) = error
final_state (some delete_wait_error) = error
final_state _ = deleted

unfoldable pub Moved :
    {S : Type 0} → String → StateName → ObjectDb S → Result Failure (ObjectDb S) → Type 0
Moved {S} uuid new db result =
    (db' : ObjectDb S) × (result ≡ ok db') × (value_of false uuid db' ≡ some new)

module _ {S : Type 0} (uuid : String) (t : Times) (db : ObjectDb S) where
  -- A state that is accepted is the state afterwards.
  pub set-Moved :
      (orig : Option StateName) (new : StateName)
      → (state false uuid db).value ≡ orig
      → (orig == some new) ≡ false
      → (orig == some deleted) ≡ false
      → validate instances orig new ≡ ok tt
      → Moved uuid new db (set_instance_state uuid new t db)
  unfolding state_update Moved
  set-Moved orig new h other live valid = (
    commit_state false uuid orig new t db,
    rw (state_update, h, other, live, valid),
    rw (state-commit_state, beq_refl),
  )

  pub same-Moved :
      (new : StateName)
      → (state false uuid db).value ≡ some new
      → Moved uuid new db (set_instance_state uuid new t db)
  unfolding state_update Moved value_of
  same-Moved new h = (
    db,
    rw (state_update, (option_state_name_eq.beq_iff (state false uuid db).value (some new)).1 h),
    h,
  )

module _ {S : Type 0} (uuid : String) (message : String) where
  stored_either_way :
      (db : ObjectDb S) (new : StateName)
      → (state false uuid db).value ≡ some new
      → ends_with (state_string new) "error" ≡ true
      → set_error uuid (some message) db
        ≡ ok (record db { errors = insert uuid (some message) db.errors })
  unfolding set_error
  stored_either_way db new h ends = elim (Bool-cases (message == "")) [
    | inl empty ↦ rw (set_error, empty)
    | inr other ↦ rw (set_error, other, h, ends)
  ]

  -- The message of an object in an error state is stored.
  set_error-stores :
      (db : ObjectDb S) (new : StateName)
      → value_of false uuid db ≡ some new
      → ends_with (state_string new) "error" ≡ true
      → (db' : ObjectDb S) × (set_error uuid (some message) db ≡ ok db')
        × (value_of false uuid db' ≡ some new)
        × (error_message uuid db' ≡ some message)
  unfolding value_of error_message state
  set_error-stores db new h ends = (
    record db { errors = insert uuid (some message) db.errors },
    stored_either_way db new h ends,
    h,
    rw (error_message, lookup-insert_self),
  )

  -- What a failure leaves behind, where the instance was not deleted.
  pub record Errs (orig : Option StateName) (result : Result Failure (Bool × ObjectDb S))
      : Type 0 where
    pub after : ObjectDb S
    pub returned : result ≡ ok (true, after)
    pub value : value_of false uuid after ≡ some (failed_state orig)
    pub stored : error_message uuid after ≡ some message

  pub to-Errs :
      (t : Times) (db : ObjectDb S) (orig : Option StateName)
      → (state false uuid db).value ≡ orig
      → (orig == some deleted) ≡ false
      → ends_with (state_string (failed_state orig)) "error" ≡ true
      → Moved uuid (failed_state orig) db (or_error uuid t db (try_error_state uuid t db))
      → Errs orig (enqueue_delete_due_error uuid message t db)
  unfolding enqueue_delete_due_error Moved
  to-Errs t db orig h live ends m =
      let (db', moved, value) = m in
      let (db'', stored, value', message') = set_error-stores db' (failed_state orig) value ends in
      record {
        after = db'';
        returned = rw (enqueue_delete_due_error, h, live, moved, stored);
        value = value';
        stored = message';
      }

  -- A failure that the tables have a state for.
  pub tried-Moved :
      (t : Times) (db : ObjectDb S) (orig : Option StateName) (new : StateName)
      → (state false uuid db).value ≡ orig
      → error_state orig ≡ some new
      → Moved uuid new db (set_instance_state uuid new t db)
      → Moved uuid new db (or_error uuid t db (try_error_state uuid t db))
  unfolding try_error_state or_error Moved
  tried-Moved t db orig new h e (db', moved, value) =
      (db', rw (or_error, try_error_state, h, e, moved), value)

  pub fallback-Moved :
      (t : Times) (db : ObjectDb S) (orig : Option StateName)
      → (state false uuid db).value ≡ orig
      → error_state orig ≡ none
      → Moved uuid error db (set_instance_state uuid error t db)
      → Moved uuid error db (or_error uuid t db (try_error_state uuid t db))
  unfolding try_error_state or_error Moved
  fallback-Moved t db orig h e (db', moved, value) =
      (db', rw (or_error, try_error_state, h, e, moved), value)
