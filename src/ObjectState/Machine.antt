-- ===== src/ObjectState/Machine.antt =====
-- What `_state_update` accepts, and that `deleted` is final.
use Prim.Native.String.{String}
use mathlib.Core.Bool.{false≢true}
use shakenfist.Prelude.{
  ◌≡◌, ◌≢◌, refl, ◌∙◌, sym, Bool, ◌&&◌, ◌||◌, not, Option, some, ◌==◌, string_eq, Bool-cases, inl,
  inr, if◌then◌else◌, ok, err, arith,
}
use shakenfist.ObjectState.Names.{StateName, deleted, option_state_name_eq, ObjectType, unknown}
use shakenfist.ObjectState.Tables.{Transitions, state_targets}
use shakenfist.ObjectState.Documented.{edge_of, in_state_targets-diagram}
use shakenfist.ObjectState.Update.{
  ObjectDb, Times, invalid_state, state, validate, commit_state, state_update,
}

has_targets :
    (ty : ObjectType) → ty ≢ unknown → (table : Transitions) × (state_targets ty ≡ some table)
unfolding state_targets
has_targets unknown n = absurd (n refl)
has_targets ty n = (_, refl)

-- the validation accepts the edges, and refuses all else as an invalid transition
pub validate-edge :
    (ty : ObjectType) (orig : Option StateName) (new : StateName)
    → ty ≢ unknown
    → orig ≢ some deleted
    → validate ty orig new ≡ (if edge_of ty orig new then ok tt else err invalid_state)
unfolding validate
validate-edge ty orig new known n =
    let (table, h) = has_targets ty known in
    ground (arith, h, in_state_targets-diagram ty orig new h n)

module _ {S : Type 0} (ty : ObjectType) (in_memory : Bool) (uuid : String) (new : StateName)
    (skip : Bool) (t : Times) (db : ObjectDb S) where
  pub state_update-accepts :
      ty ≢ unknown
      → state_update ty in_memory uuid new skip t db ≡ (
          let orig = (state in_memory uuid db).value in
          if orig == some new
          then ok db
          else if not (orig == some deleted) && (skip || edge_of ty orig new)
          then ok (commit_state in_memory uuid orig new t db)
          else err invalid_state)
  unfolding state_update
  state_update-accepts known = elim (Bool-cases ((state in_memory uuid db).value == some deleted)) [
    | inl e ↦ ground arith
    | inr e ↦ ground (
      arith,
      validate-edge ty (state in_memory uuid db).value new known
          (λ p. false≢true (sym e ∙ (option_state_name_eq.beq_iff _ _).1 p)),
    )
  ]
