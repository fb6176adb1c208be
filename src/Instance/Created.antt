-- ===== src/Instance/Created.antt =====
-- How the creation of an instance ends, whether or not it powers on (shakenfist/instance.py).
use Prim.Native.String.{String}
use mathlib.Core.Path.{subst}
use shakenfist.Prelude.{
  ℕ, zero, suc, ◌+◌, ◌<◌, ◌≤◌, ◌≡◌, refl, Bool, true, false, Option, none, some, lookup, ◌==◌,
  string_eq, elem, Result, ok, err, ◌>>=◌, if◌then◌else◌, arith, ap, sym, not, ok-injective,
}
use shakenfist.ObjectState.Names.{
  StateName-discrete, creating, created, preflight, creating_error, OptionStateName-discrete,
}
use shakenfist.ObjectState.Tables.{state_targets, in_state_targets, in_targets}
use shakenfist.ObjectState.Update.{ObjectDb, Times, Failure, validate, error_message}
use shakenfist.ObjectState.Runs.{value_of}
use shakenfist.Instance.Failure.{
  enqueue_delete_due_error, set_instance_state, Domain, shutoff, crashed, paused, pmsuspended,
  running, is_powered_on, Start, no_domain, started, already_running, ports_clash, refused,
  no_domain_exception, key_error, state_failure, Raised, with_database, then_no_domain,
  power_on_inner, power_on_again, power_on, create,
}
use shakenfist.Instance.Failing.{is_instance_state, Moved, set-Moved, Errs}
use shakenfist.Instance.Deletion.{fails}

powered : (domain : Option Domain) → (is_powered_on domain == "") ≡ false
powered none = refl
powered (some shutoff) = refl
powered (some crashed) = refl
powered (some paused) = refl
powered (some pmsuspended) = refl
powered (some running) = refl

-- The exceptions of a call of _power_on_inner for an instance that is being created: libvirt defined
-- no domain, and then the instance is in creating-error with a message; or a port was in use and
-- there was no TLS port, and then it is in creating.
abbrev pub Halted : {S : Type 0} → String → Bool → Start → Raised S → Type 0
Halted uuid has_tls start (no_domain_exception, db) =
    (start ≡ no_domain)
    × (value_of false uuid db ≡ some creating_error)
    × (error_message uuid db ≡ some "power on failed to create domain")
Halted uuid has_tls start (key_error, db) =
    (start ≡ ports_clash) × (has_tls ≡ false) × (value_of false uuid db ≡ some creating)
Halted uuid has_tls start (state_failure e, db) = ⊥

err≢ok {ℓ} : {E : Type 0} {A : Type ℓ} {e : E} {a : A} → ◌≡◌ {A = Result E A} (err e) (ok a) → ⊥
err≢ok h = cc

module _ {S : Type 0} (uuid : String) (has_tls : Bool) (t : Times) (db : ObjectDb S)
    (is_creating : value_of false uuid db ≡ some creating) where
  abbrev Inner : Start → Result (Raised S) Bool → Type 0
  Inner start (ok done) = Unit
  Inner start (err raised) = Halted uuid has_tls start raised

  no_domain-Halted :
      (result : Result Failure (Bool × ObjectDb S))
      → Errs uuid "power on failed to create domain" (some creating) result
      → Inner no_domain (then_no_domain db result)
  no_domain-Halted (ok (b, after)) e =
      let same = ap (λ p. p.1) (ok-injective e.returned) in
      (
        refl,
        subst (λ d. value_of false uuid d ≡ some creating_error) (sym same) e.value,
        subst (λ d. error_message uuid d ≡ some "power on failed to create domain") (sym same)
            e.stored,
      )
  no_domain-Halted (err e') e = absurd (err≢ok e.returned)

  clash-Halted :
      (b : Bool) → has_tls ≡ b → Inner ports_clash (if b then ok false else err (key_error, db))
  clash-Halted true h = tt
  clash-Halted false h = (refl, h, is_creating)

  power_on_inner-Inner : (start : Start) → Inner start (power_on_inner uuid has_tls t db start)
  unfolding power_on_inner is_instance_state OptionStateName-discrete lookup value_of
  power_on_inner-Inner no_domain =
      no_domain-Halted (enqueue_delete_due_error uuid "power on failed to create domain" t db) (
        fails uuid "power on failed to create domain" t db (some creating) is_creating refl
          (λ p. cc))
  power_on_inner-Inner started = tt
  power_on_inner-Inner already_running = tt
  power_on_inner-Inner ports_clash = clash-Halted has_tls refl
  power_on_inner-Inner refused = tt

  module _ (starts : ℕ → Start) where
    -- Within so many calls
    abbrev Ran : ℕ → Result (Raised S) ℕ → Type 0
    Ran most (ok calls) = calls ≤ most
    Ran most (err raised) = (k : ℕ) × (k < most) × Halted uuid has_tls (starts k) raised

    one_call :
        (most calls : ℕ) (result : Result (Raised S) Bool) (rest : Result (Raised S) ℕ)
        → calls < most
        → Inner (starts calls) result
        → Ran most rest
        → Ran most (result >>= λ done. if done then ok (calls + 1) else rest)
    one_call most calls (ok true) rest low i r = omega (arith, low)
    one_call most calls (ok false) rest low i r = r
    one_call most calls (err raised) rest low i r = (calls, low, i)

    last_call :
        (most calls : ℕ) (result : Result (Raised S) Bool)
        → calls < most
        → Inner (starts calls) result
        → Ran most (result >>= λ _. ok (calls + 1))
    last_call most calls (ok done) low i = omega (arith, low)
    last_call most calls (err raised) low i = (calls, low, i)

    power_on_again-Ran :
        (attempts calls most : ℕ)
        → calls + attempts < most
        → Ran most (power_on_again uuid has_tls t db starts attempts calls)
    unfolding power_on_again
    power_on_again-Ran zero calls most low =
        last_call most calls (power_on_inner uuid has_tls t db (starts calls)) (omega (arith, low))
          (power_on_inner-Inner (starts calls))
    power_on_again-Ran (suc attempts) calls most low =
        one_call most calls (power_on_inner uuid has_tls t db (starts calls))
          (power_on_again uuid has_tls t db starts attempts (calls + 1)) (omega (arith, low))
          (power_on_inner-Inner (starts calls))
          (power_on_again-Ran attempts (calls + 1) most (omega (arith, low)))

    -- What power_on comes to
    abbrev Tried : Result (Raised S) (ℕ × Bool) → Type 0
    Tried (ok p) = p.0 ≤ 7
    Tried (err raised) = (k : ℕ) × (k < 7) × Halted uuid has_tls (starts k) raised

    repeated : (r : Result (Raised S) ℕ) → Ran 7 r → Tried (r >>= λ calls. ok (calls, true))
    repeated (ok calls) h = h
    repeated (err raised) h = h

    first_call :
        (result : Result (Raised S) Bool) (rest : Result (Raised S) ℕ)
        → Inner (starts 0) result
        → Ran 7 rest
        → Tried
            (result >>= λ done. if done then ok (1, false) else rest >>= λ calls. ok (calls, true))
    first_call (ok true) rest i r = omega arith
    first_call (ok false) rest i r = repeated rest r
    first_call (err raised) rest i r = (0, omega arith, i)

    power_on-Tried : Tried (power_on uuid has_tls t db starts)
    unfolding power_on
    power_on-Tried =
        first_call (power_on_inner uuid has_tls t db (starts 0))
          (power_on_again uuid has_tls t db starts 5 1) (power_on_inner-Inner (starts 0))
          (power_on_again-Ran 5 1 7 (omega arith))

-- How create ends: the instance is in created; or one of the first seven calls of _power_on_inner
-- raised.
abbrev pub CreateEnds :
    {S : Type 0} → String → Bool → (ℕ → Start) → Result (Raised S) (ObjectDb S) → Type 0
CreateEnds uuid has_tls starts (ok db) = value_of false uuid db ≡ some created
CreateEnds uuid has_tls starts (err raised) =
    (k : ℕ) × (k < 7) × Halted uuid has_tls (starts k) raised

-- create of an instance in preflight leaves it in created, though no call of _power_on_inner succeeds
-- and whatever libvirt reports of it, unless one of the first seven calls raises. That is
-- NoDomainException, where libvirt does not define the domain, and then the instance is in
-- creating-error with a message; or KeyError, where a port is in use and the instance has no TLS port,
-- and then it is in creating.
pub create-CreateEnds :
    {S : Type 0} (uuid : String) (has_tls : Bool) (starts : ℕ → Start) (domain : ℕ → Option Domain)
    (t t' : Times) (db : ObjectDb S)
    → value_of false uuid db ≡ some preflight
    → CreateEnds uuid has_tls starts (create uuid has_tls starts domain t t' db)
unfolding value_of Moved create is_instance_state lookup OptionStateName-discrete validate
    state_targets in_state_targets in_targets elem StateName-discrete
create-CreateEnds {S} uuid has_tls starts domain t t' db h =
    let (db', begins, is_creating) =
      set-Moved uuid t db (some preflight) creating h refl refl refl in
    let (last, finishes, is_created) =
      set-Moved uuid t' db' (some creating) created is_creating refl refl refl in
    subst (CreateEnds uuid has_tls starts) (sym (after_start db' begins)) (
      finish db' last is_creating finishes is_created (power_on uuid has_tls t' db' starts)
        (power_on-Tried uuid has_tls t' db' is_creating starts))
  where
    then_created : ObjectDb S → ℕ × Bool → Result (Raised S) (ObjectDb S)
    then_created db' p =
        if not (is_powered_on (domain p.0) == "")
        then with_database db' (set_instance_state uuid created t' db')
        else (do
          failed ←
              with_database db' (enqueue_delete_due_error uuid "Instance failed to power on" t' db')
          ok failed.1)

    after_start :
        (db' : ObjectDb S)
        → set_instance_state uuid creating t db ≡ ok db'
        → create uuid has_tls starts domain t t' db
          ≡ (power_on uuid has_tls t' db' starts >>= then_created db')
    after_start db' begins = rw (create, begins) refl

    finish :
        (db' last : ObjectDb S) (is_creating : value_of false uuid db' ≡ some creating)
        → set_instance_state uuid created t' db' ≡ ok last
        → value_of false uuid last ≡ some created
        → (r : Result (Raised S) (ℕ × Bool)) → Tried uuid has_tls t' db' is_creating starts r
        → CreateEnds uuid has_tls starts (r >>= then_created db')
    finish db' last is_creating finishes is_created (ok p) low =
        rw (then_created, powered (domain p.0), finishes) is_created
    finish db' last is_creating finishes is_created (err raised) low = low
