-- ===== src/ObjectState/Runs.antt =====
-- Any sequence of updates and hard deletes of the objects of one type: `deleted` is final, and the
-- caches agree with the states (shakenfist/baseobject.py, shakenfist/cache.py).
use Prim.Native.String.{String}
use text.Mathlib.TextEquality.{eq_iff}
use shakenfist.Prelude.{
  ◌≡◌, ◌≢◌, refl, ◌∙◌, sym, Bool, true, false, ◌&&◌, not, List, [], ◌∷◌, Option, none, some,
  lookup-insert, lookup-remove, ◌==◌, string_eq, beq_ne, Bool-cases, inl, inr, if◌then◌else◌,
  Result, ok, err, is_ok, arith, ◌⊎◌, All,
}
use shakenfist.ObjectState.Names.{
  StateName, deleted, hard_deleted, option_state_name_eq, state_name_eq, ObjectType,
}
use shakenfist.ObjectState.Cache.{of_state, update_object_state_cache}
use shakenfist.ObjectState.CacheLaws.{cached, cached-update_object_state_cache}
use shakenfist.ObjectState.Update.{
  ObjectDb, Times, Failure, state, validate, commit_state, state_update, hard_delete, db_create,
}

pub data Action (S : Type 0) : Type 0 where
  create : String → S → Action S
  update : Bool → String → StateName → Bool → Times → Action S
  destroy : String → Times → Action S

-- An exception leaves the objects as they are.
abbrev pub or_unchanged {ℓ κ} : {E : Type ℓ} {A : Type κ} → A → Result E A → A
or_unchanged a (ok b) = b
or_unchanged a (err e) = a

-- Is `some s` the state?
unfoldable pub is_state : Option StateName → StateName → Bool
is_state none s = false
is_state (some new) s = new == s

is_state_beq : (o : Option StateName) (s : StateName) → (o == some s) ≡ is_state o s
unfolding is_state
is_state_beq none s = beq_ne none (some s) (λ p. cc p)
is_state_beq (some new) s =
    ground (arith, state_name_eq.beq_iff new s, option_state_name_eq.beq_iff (some new) (some s))

module _ {S : Type 0} where
  unfoldable pub act : ObjectType → ObjectDb S → Action S → ObjectDb S
  act ty db (create uuid static_values) = db_create uuid static_values db
  act ty db (update in_memory uuid new skip t) =
      or_unchanged db (state_update ty in_memory uuid new skip t db)
  act ty db (destroy uuid t) = hard_delete false uuid t db

  unfoldable pub run : ObjectType → ObjectDb S → List (Action S) → ObjectDb S
  run ty db [] = db
  run ty db (a ∷ actions) = run ty (act ty db a) actions

  unfoldable pub value_of : Bool → String → ObjectDb S → Option StateName
  value_of in_memory uuid db = (state in_memory uuid db).value

  -- An update changes the state of its object only, and that to the new one.
  pub state-commit_state :
      (m : Bool) (u v : String) (orig : Option StateName) (new : StateName) (t : Times)
      (db : ObjectDb S)
      → value_of false v (commit_state m u orig new t db)
        ≡ (if not m && u == v then some new else value_of false v db)
  unfolding commit_state state value_of
  state-commit_state true u v orig new t db = refl
  state-commit_state false u v orig new t db =
      ground
        (arith, lookup-insert u v (record { value = some new; update_time = t.at_state }) db.states)

  state-hard_delete :
      (u v : String) (t : Times) (db : ObjectDb S)
      → value_of false v (hard_delete false u t db) ≡ (if u == v then none else value_of false v db)
  unfolding hard_delete state value_of
  state-hard_delete u v t db = ground (arith, lookup-remove u v db.states)

  -- An update does nothing, or commits; and it commits only for an object that is not deleted.
  update_cases :
      (ty : ObjectType) (m : Bool) (u : String) (new : StateName) (skip : Bool) (t : Times)
      (db : ObjectDb S)
      → (act ty db (update m u new skip t) ≡ db)
        ⊎ ((act ty db (update m u new skip t) ≡ commit_state m u (value_of m u db) new t db)
            × ((value_of m u db == some deleted) ≡ false))
  unfolding act state_update value_of
  update_cases ty m u new skip t db = elim (Bool-cases (value_of m u db == some deleted)) [
    | inl e ↦ inl (ground arith)
    | inr e ↦ elim (Bool-cases (value_of m u db == some new)) [
      | inl same ↦ inl (ground arith)
      | inr other ↦ elim (Bool-cases skip) [
        | inl skipped ↦ inr (ground arith, e)
        | inr checked ↦ elim (valid-cases (validate ty (value_of m u db) new)) [
          | inl v ↦ inr (ground arith, e)
          | inr v ↦ inl (ground arith)
        ]
      ]
    ]
  ]
    where
      valid-cases : (r : Result Failure (Unit {0})) → (r ≡ ok tt) ⊎ (is_ok r ≡ false)
      valid-cases (ok tt) = inl refl
      valid-cases (err x) = inr refl

  -- Does the run hard delete the object?
  abbrev pub Spares : String → Action S → Type 0
  Spares u (create _ _) = Unit
  Spares u (update _ _ _ _ _) = Unit
  Spares u (destroy v _) = v ≢ u

  act-deleted :
      (ty : ObjectType) (u : String) (db : ObjectDb S) (a : Action S)
      → Spares u a
      → value_of false u db ≡ some deleted
      → value_of false u (act ty db a) ≡ some deleted
  act-deleted ty u db (create v x) spares h = unfold act db_create value_of state in h
  act-deleted ty u db (update true v new skip t) spares h =
      elim (update_cases ty true v new skip t db) [
        | inl e ↦ rw e h
        | inr c ↦ rw (c.0) (state-commit_state true v u (value_of true v db) new t db ∙ h)
      ]
  act-deleted ty u db (update false v new skip t) spares h =
      elim (update_cases ty false v new skip t db) [
        | inl e ↦ rw e h
        | inr c ↦ rw (c.0) (
            ground (
              arith,
              state-commit_state false v u (value_of false v db) new t db,
              eq_iff v u,
              option_state_name_eq.beq_iff (value_of false v db) (some deleted),
              h,
            ))
      ]
  act-deleted ty u db (destroy v t) n h =
      unfold act in state-hard_delete v u t db ∙ rw (beq_ne v u n) h

  -- Whatever updates and creations of any objects of the type follow, with or without validation,
  -- and whatever other objects are hard deleted, an object that is deleted stays deleted.
  pub run-deleted :
      (ty : ObjectType) (u : String) (db : ObjectDb S) (actions : List (Action S))
      → All (Spares u) actions
      → (state false u db).value ≡ some deleted
      → (state false u (run ty db actions)).value ≡ some deleted
  unfolding run value_of
  run-deleted ty u db [] spares h = h
  run-deleted ty u db (a ∷ actions) spares h =
      run-deleted ty u (act ty db a) actions spares.1 (act-deleted ty u db a spares.0 h)

  -- An object is in the cache of a state exactly when it is in that state. The cache of the objects
  -- that were hard deleted stands for no state that an object is in.
  pub record Consistent (db : ObjectDb S) : Type 0 where
    pub at :
        (u : String) (s : StateName)
        → s ≢ hard_deleted
        → cached u (of_state s) db.caches ≡ is_state (state false u db).value s

  caches-commit_state :
      (u : String) (orig : Option StateName) (new : StateName) (t : Times) (db : ObjectDb S)
      → (commit_state false u orig new t db).caches
        ≡ update_object_state_cache u orig new t.at_all t.at_cache db.caches
  unfolding commit_state
  caches-commit_state u orig new t db = refl

  caches-hard_delete :
      (u : String) (t : Times) (db : ObjectDb S)
      → (hard_delete false u t db).caches
        ≡ update_object_state_cache u
            (state false u db).value
            hard_deleted
            t.at_all
            t.at_cache
            db.caches
  unfolding hard_delete
  caches-hard_delete u t db = refl

  commit_state-Consistent :
      (m : Bool) (u : String) (new : StateName) (t : Times) (db : ObjectDb S)
      → Consistent db
      → Consistent (commit_state m u (value_of m u db) new t db)
  unfolding value_of is_state
  commit_state-Consistent true u new t db c = unfold commit_state state in record { at = c.at }
  commit_state-Consistent false u new t db c = record {
    at = λ v s n. ground (
      arith,
      caches-commit_state u (value_of false u db) new t db,
      cached-update_object_state_cache u v s (value_of false u db) new t.at_all t.at_cache
          db.caches,
      state-commit_state false u v (value_of false u db) new t db,
      c.at v s n,
      is_state_beq (value_of false u db) s,
      eq_iff u v,
    );
  }

  hard_delete-Consistent :
      (u : String) (t : Times) (db : ObjectDb S)
      → Consistent db
      → Consistent (hard_delete false u t db)
  unfolding value_of is_state
  hard_delete-Consistent u t db c = record {
    at = λ v s n. ground (
      arith,
      caches-hard_delete u t db,
      cached-update_object_state_cache u v s (value_of false u db) hard_deleted t.at_all t.at_cache
          db.caches,
      state-hard_delete u v t db,
      c.at v s n,
      is_state_beq (value_of false u db) s,
      eq_iff u v,
      beq_ne hard_deleted s (λ p. n (sym p)),
    );
  }

  act-Consistent :
      (ty : ObjectType) (db : ObjectDb S) (a : Action S) → Consistent db → Consistent (act ty db a)
  act-Consistent ty db (create u x) c = unfold act db_create state in record { at = c.at }
  act-Consistent ty db (update m u new skip t) c = elim (update_cases ty m u new skip t db) [
    | inl e ↦ rw e c
    | inr committed ↦ rw (committed.0) (commit_state-Consistent m u new t db c)
  ]
  act-Consistent ty db (destroy u t) c = unfold act in hard_delete-Consistent u t db c

  -- Whatever creations, updates and hard deletes of the objects of one type follow, accepted or
  -- refused, if the caches agree with the states before them, then they do so after them: an object
  -- is in the cache of a state other than `hard-deleted` exactly when that is its state in etcd.
  pub run-Consistent :
      (ty : ObjectType) (db : ObjectDb S) (actions : List (Action S))
      → Consistent db
      → Consistent (run ty db actions)
  unfolding run
  run-Consistent ty db [] c = c
  run-Consistent ty db (a ∷ actions) c =
      run-Consistent ty (act ty db a) actions (act-Consistent ty db a c)
