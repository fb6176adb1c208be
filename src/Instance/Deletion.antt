-- ===== src/Instance/Deletion.antt =====
-- The deletion of an instance comes to an end whatever state it is in, after a failure too
-- (shakenfist/instance.py).
use Prim.Native.String.{String}
use mathlib.Core.Path.{subst}
use shakenfist.Prelude.{
  ◌≡◌, ◌≢◌, refl, sym, true, false, Option, none, some, lookup, ◌==◌, string_eq, elem, ok,
}
use shakenfist.ObjectState.Names.{
  StateName, StateName-discrete, initial, creating, created, deleted, delete_wait, error,
  hard_deleted, preflight, initial_error, preflight_error, creating_error, created_error,
  delete_wait_error, missing, stopping, stopped, queued, executing, complete, option_state_name_eq,
  OptionStateName-discrete, state_string, instances,
}
use shakenfist.ObjectState.Tables.{state_targets, in_state_targets, in_targets, is_substring}
use shakenfist.ObjectState.Update.{ObjectDb, Times, state, validate, ends_with, error_message}
use shakenfist.ObjectState.Runs.{value_of}
use shakenfist.Instance.Failure.{
  error_state, set_instance_state, try_error_state, or_error, enqueue_delete_due_error,
  delete_globally,
}
use shakenfist.Instance.Failing.{
  is_instance_state, failed_state, final_state, Moved, set-Moved, same-Moved, Errs, to-Errs,
  tried-Moved, fallback-Moved,
}

module _ {S : Type 0} (uuid : String) (message : String) (t : Times) (db : ObjectDb S) where
  -- From a state that may fail into a state of its own.
  own_error :
      (orig : Option StateName) (new : StateName)
      → (state false uuid db).value ≡ orig
      → error_state orig ≡ some new
      → failed_state orig ≡ new
      → (orig == some new) ≡ false
      → (orig == some deleted) ≡ false
      → validate instances orig new ≡ ok tt
      → ends_with (state_string new) "error" ≡ true
      → Errs uuid message orig (enqueue_delete_due_error uuid message t db)
  own_error orig new h e f other live valid ends =
      to-Errs uuid message t db orig h live
        (subst (λ x. ends_with (state_string x) "error" ≡ true) (sym f) ends)
        (subst (λ x. Moved uuid x db (or_error uuid t db (try_error_state uuid t db))) (sym f)
          (tried-Moved uuid message t db orig new h e
            (set-Moved uuid t db orig new h other live valid)))

  -- From any other, into the error state.
  plain_error :
      (orig : Option StateName)
      → (state false uuid db).value ≡ orig
      → error_state orig ≡ none
      → failed_state orig ≡ error
      → (orig == some deleted) ≡ false
      → ends_with (state_string error) "error" ≡ true
      → Moved uuid error db (set_instance_state uuid error t db)
      → Errs uuid message orig (enqueue_delete_due_error uuid message t db)
  plain_error orig h e f live ends m =
      to-Errs uuid message t db orig h live
        (subst (λ x. ends_with (state_string x) "error" ≡ true) (sym f) ends)
        (subst (λ x. Moved uuid x db (or_error uuid t db (try_error_state uuid t db))) (sym f)
          (fallback-Moved uuid message t db orig h e m))

  pub fails :
      (orig : Option StateName)
      → (state false uuid db).value ≡ orig
      → is_instance_state orig ≡ true
      → orig ≢ some deleted
      → Errs uuid message orig (enqueue_delete_due_error uuid message t db)
  unfolding is_instance_state lookup OptionStateName-discrete validate ends_with state_string
      state_targets in_state_targets in_targets elem StateName-discrete is_substring
  fails none h known live =
      plain_error none h refl refl refl refl (set-Moved uuid t db none error h refl refl refl)
  fails (some error) h known live =
      plain_error (some error) h refl refl refl refl (same-Moved uuid t db error h)
  fails (some deleted) h known live = absurd (live refl)
  fails (some initial) h known live =
      own_error (some initial) initial_error h refl refl refl refl refl refl
  fails (some creating) h known live =
      own_error (some creating) creating_error h refl refl refl refl refl refl
  fails (some created) h known live =
      own_error (some created) created_error h refl refl refl refl refl refl
  fails (some delete_wait) h known live =
      own_error (some delete_wait) delete_wait_error h refl refl refl refl refl refl
  fails (some preflight) h known live =
      own_error (some preflight) preflight_error h refl refl refl refl refl refl
  fails (some initial_error) h known live =
      plain_error (some initial_error) h refl refl refl refl
        (set-Moved uuid t db (some initial_error) error h refl refl refl)
  fails (some preflight_error) h known live =
      plain_error (some preflight_error) h refl refl refl refl
        (set-Moved uuid t db (some preflight_error) error h refl refl refl)
  fails (some creating_error) h known live =
      plain_error (some creating_error) h refl refl refl refl
        (set-Moved uuid t db (some creating_error) error h refl refl refl)
  fails (some created_error) h known live =
      plain_error (some created_error) h refl refl refl refl
        (set-Moved uuid t db (some created_error) error h refl refl refl)
  fails (some delete_wait_error) h known live =
      plain_error (some delete_wait_error) h refl refl refl refl
        (set-Moved uuid t db (some delete_wait_error) error h refl refl refl)
  fails (some hard_deleted) h known live = cc
  fails (some missing) h known live = cc
  fails (some stopping) h known live = cc
  fails (some stopped) h known live = cc
  fails (some queued) h known live = cc
  fails (some executing) h known live = cc
  fails (some complete) h known live = cc

  deletes :
      (orig : Option StateName)
      → (state false uuid db).value ≡ orig
      → is_instance_state orig ≡ true
      → orig ≢ none
      → Moved uuid (final_state orig) db (delete_globally uuid t db)
  unfolding is_instance_state lookup OptionStateName-discrete validate ends_with state_string
      state_targets in_state_targets in_targets elem StateName-discrete is_substring delete_globally
  deletes none h known there = absurd (there refl)
  deletes (some deleted) h known there = rw (delete_globally, h) (same-Moved uuid t db deleted h)
  deletes (some error) h known there =
      rw (delete_globally, h) (set-Moved uuid t db (some error) deleted h refl refl refl)
  deletes (some initial) h known there =
      rw (delete_globally, h) (set-Moved uuid t db (some initial) deleted h refl refl refl)
  deletes (some creating) h known there =
      rw (delete_globally, h) (set-Moved uuid t db (some creating) deleted h refl refl refl)
  deletes (some created) h known there =
      rw (delete_globally, h) (set-Moved uuid t db (some created) deleted h refl refl refl)
  deletes (some delete_wait) h known there =
      rw (delete_globally, h) (set-Moved uuid t db (some delete_wait) deleted h refl refl refl)
  deletes (some preflight) h known there =
      rw (delete_globally, h) (set-Moved uuid t db (some preflight) deleted h refl refl refl)
  deletes (some initial_error) h known there =
      rw (delete_globally, h) (set-Moved uuid t db (some initial_error) error h refl refl refl)
  deletes (some preflight_error) h known there =
      rw (delete_globally, h) (set-Moved uuid t db (some preflight_error) error h refl refl refl)
  deletes (some creating_error) h known there =
      rw (delete_globally, h) (set-Moved uuid t db (some creating_error) error h refl refl refl)
  deletes (some created_error) h known there =
      rw (delete_globally, h) (set-Moved uuid t db (some created_error) error h refl refl refl)
  deletes (some delete_wait_error) h known there =
      rw (delete_globally, h) (set-Moved uuid t db (some delete_wait_error) error h refl refl refl)
  deletes (some hard_deleted) h known there = cc
  deletes (some missing) h known there = cc
  deletes (some stopping) h known there = cc
  deletes (some stopped) h known there = cc
  deletes (some queued) h known there = cc
  deletes (some executing) h known there = cc
  deletes (some complete) h known there = cc

-- A failure, and then the deletion that it asked for.
pub record Ends {S : Type 0} (uuid message : String) (t t' : Times) (orig : Option StateName)
    (db : ObjectDb S) : Type 0 where
  pub failed : ObjectDb S
  pub last : ObjectDb S
  pub enqueued : enqueue_delete_due_error uuid message t db ≡ ok (true, failed)
  pub error_value : value_of false uuid failed ≡ some (failed_state orig)
  pub stored : error_message uuid failed ≡ some message
  pub finished : delete_globally uuid t' failed ≡ ok last
  pub last_value : value_of false uuid last ≡ some (final_state (some (failed_state orig)))

failed-known : (orig : Option StateName) → is_instance_state (some (failed_state orig)) ≡ true
unfolding is_instance_state lookup OptionStateName-discrete
failed-known none = refl
failed-known (some initial) = refl
failed-known (some creating) = refl
failed-known (some created) = refl
failed-known (some deleted) = refl
failed-known (some delete_wait) = refl
failed-known (some error) = refl
failed-known (some hard_deleted) = refl
failed-known (some preflight) = refl
failed-known (some initial_error) = refl
failed-known (some preflight_error) = refl
failed-known (some creating_error) = refl
failed-known (some created_error) = refl
failed-known (some delete_wait_error) = refl
failed-known (some missing) = refl
failed-known (some stopping) = refl
failed-known (some stopped) = refl
failed-known (some queued) = refl
failed-known (some executing) = refl
failed-known (some complete) = refl

-- From every state of an instance but deleted, enqueue_delete_due_error enqueues the deletion and
-- leaves the instance in the error state of its state, or in error, with the message; and the end of
-- _delete_globally then does not raise: it leaves the instance in error, or, where it had been in an
-- error state before the failure, deleted.
pub enqueue_delete_due_error-Ends :
    {S : Type 0} (uuid message : String) (t t' : Times) (orig : Option StateName) (db : ObjectDb S)
    → value_of false uuid db ≡ orig
    → is_instance_state orig ≡ true
    → orig ≢ some deleted
    → Ends uuid message t t' orig db
unfolding value_of Moved
enqueue_delete_due_error-Ends uuid message t t' orig db h known live =
    let e = fails uuid message t db orig h known live in
    let (last, finished, last_value) =
      deletes uuid message t' e.after (some (failed_state orig)) e.value (failed-known orig)
        (λ p. cc) in
    record {
      failed = e.after;
      last = last;
      enqueued = e.returned;
      error_value = e.value;
      stored = e.stored;
      finished = finished;
      last_value = last_value;
    }
