-- ===== src/Namespace/Access.antt =====
-- Which objects a request reaches: from_db_by_ref of shakenfist/baseobject.py, behind arg_is_instance_ref
-- and requires_instance_ownership of shakenfist/external_api/base.py (and the same for networks).
use Prim.Native.String.{String}
use text.Mathlib.TextEquality.{eq_iff}
use mathlib.Core.Path.{subst}
use shakenfist.Prelude.{
  ◌≡◌, Bool, true, ◌&&◌, [], ◌∷◌, Option, none, some, Dict, lookup, elem, ◌==◌, string_eq,
  if◌then◌else◌, Result, ok, err, ◌>>=◌, ◌>>◌, bind-ok, ok-injective, ◌⊎◌, arith, ap, ◌∙◌, refl,
  ◌||◌, keep, Bool-cases, inl, inr, false,
}
use shakenfist.Blob.Model.{values}
use shakenfist.Namespace.Api.{Reply, requires_ownership}

-- An instance or a network, as the checks see it.
pub record Object : Type 0 where
  pub uuid : String
  pub name : String
  pub namespace : String
  pub active : Bool

-- MultipleObjects
pub data RefError : Type 0 where
  multiple_objects : RefError

abbrev or_default : Object → Option Object → Object
or_default d none = d
or_default d (some o) = o

-- namespace_filter
unfoldable pub namespace_filter : String → Object → Bool
namespace_filter namespace o = if namespace == "system" then true else o.namespace == namespace

abbrev pub named : String → String → Object → Bool
named ref namespace o = o.active && namespace_filter namespace o && o.name == ref

-- the loop over the objects, with the one found so far
unfoldable pub find_named :
    String → String → Dict String Object → Option Object → Result RefError (Option Object)
unfolding namespace_filter
find_named ref namespace [] found_obj = ok found_obj
find_named ref namespace ((uuid, o) ∷ objects) none =
    find_named ref namespace objects (if named ref namespace o then some o else none)
find_named ref namespace ((uuid, o) ∷ objects) (some found_obj) =
    let rest = find_named ref namespace objects (some found_obj) in
    if named ref namespace o then err multiple_objects else rest

-- An active object of a name that is in the caller's namespace, or anywhere for system
abbrev pub is_meant : String → String → Object → Bool
is_meant ref caller o = o.active && (caller == "system" || o.namespace == caller) && o.name == ref

named-is_meant : (ref caller : String) (o : Object) → named ref caller o ≡ is_meant ref caller o
unfolding namespace_filter
named-is_meant ref caller o = ground arith

multiple≢ok :
    {found_obj : Option Object}
    → ◌≡◌ {A = Result RefError (Option Object)} (err multiple_objects) (ok found_obj)
    → ⊥
multiple≢ok h = cc

find_named-found :
    (ref caller : String) (objects : Dict String Object) (found_obj o : Object)
    → find_named ref caller objects (some found_obj) ≡ ok (some o)
    → (found_obj ≡ o) × (keep (is_meant ref caller) (values objects) ≡ [])
unfolding find_named keep
find_named-found ref caller [] found_obj o h = (ap (or_default o) (ok-injective h), refl)
find_named-found ref caller ((uuid, x) ∷ objects) found_obj o h =
    elim (Bool-cases (is_meant ref caller x)) [
      | inl hit ↦ absurd (multiple≢ok (rw (find_named, named-is_meant ref caller x ∙ hit) at h))
      | inr miss ↦
          let (same, none_) =
            find_named-found ref caller objects found_obj o
              (rw (find_named, named-is_meant ref caller x ∙ miss) at h) in
          (same, rw (keep, miss) none_)
    ]

find_named-sole :
    (ref caller : String) (objects : Dict String Object) (o : Object)
    → find_named ref caller objects none ≡ ok (some o)
    → keep (is_meant ref caller) (values objects) ≡ o ∷ []
unfolding find_named keep
find_named-sole ref caller [] o h = cc
find_named-sole ref caller ((uuid, x) ∷ objects) o h = elim (Bool-cases (is_meant ref caller x)) [
  | inl hit ↦
      let (same, none_) =
        find_named-found ref caller objects x o
          (rw (find_named, named-is_meant ref caller x ∙ hit) at h) in
      rw (keep, hit) (ap (λ xs. x ∷ xs) none_ ∙ ap (λ y. y ∷ []) same)
  | inr miss ↦
      rw (keep, miss)
        (find_named-sole ref caller objects o
          (rw (find_named, named-is_meant ref caller x ∙ miss) at h))
]

-- `valid_uuid4` says whether Python's uuid module reads a text as a UUID.
module _ (valid_uuid4 : String → Bool) where
  -- from_db_by_ref
  unfoldable pub from_db_by_ref :
      String → String → Dict String Object → Result RefError (Option Object)
  unfolding find_named
  from_db_by_ref ref namespace objects =
      if valid_uuid4 ref then ok (lookup ref objects) else find_named ref namespace objects none

  abbrev or_error : Result RefError (Option Object) → Reply Object
  or_error (ok none) = err 404
  or_error (ok (some o)) = ok o
  or_error (err multiple_objects) = err 400

  -- arg_is_instance_ref, then requires_instance_ownership
  unfoldable pub reach : String → String → Dict String Object → Reply Object
  unfolding from_db_by_ref requires_ownership
  reach ref caller objects = do
    o ← or_error (from_db_by_ref ref caller objects)
    requires_ownership caller (some o.namespace)
    ok o

  -- What a request may reach: an object that its caller owns, and the one that it names, which is
  -- the object of that UUID, or else the only active object of the name among those in the caller's
  -- namespace, or among all for the namespace system.
  pub record Reached (ref caller : String) (objects : Dict String Object) (o : Object)
      : Type 0 where
    pub owned : (o.namespace ≡ caller) ⊎ (caller ≡ "system")
    pub meant :
        (valid_uuid4 ref ≡ true) × (lookup ref objects ≡ some o)
        ⊎ (valid_uuid4 ref ≡ false) × (keep (is_meant ref caller) (values objects) ≡ o ∷ [])

  from_db_by_ref-some :
      (ref caller : String) (objects : Dict String Object) (o : Object)
      → from_db_by_ref ref caller objects ≡ ok (some o)
      → (valid_uuid4 ref ≡ true) × (lookup ref objects ≡ some o)
        ⊎ (valid_uuid4 ref ≡ false) × (keep (is_meant ref caller) (values objects) ≡ o ∷ [])
  unfolding from_db_by_ref
  from_db_by_ref-some ref caller objects o h = elim (Bool-cases (valid_uuid4 ref)) [
    | inl uuid ↦ inl (uuid, ok-injective (rw (from_db_by_ref, uuid) at h))
    | inr name ↦ inr (name, find_named-sole ref caller objects o (rw (from_db_by_ref, name) at h))
  ]

  or_error-ok :
      (r : Result RefError (Option Object)) (o : Object) → or_error r ≡ ok o → r ≡ ok (some o)
  or_error-ok (ok none) o h = cc
  or_error-ok (ok (some x)) o h = ap (λ y. ok (some y)) (ok-injective h)
  or_error-ok (err multiple_objects) o h = cc

  -- A request reaches only an object in its caller's namespace, unless the caller is the namespace
  -- system: the object of the UUID that it asks for, or else the only active object of that name in
  -- the caller's namespace, or among all for system.
  pub reach-owned :
      (ref caller : String) (objects : Dict String Object) (o : Object)
      → reach ref caller objects ≡ ok o
      → Reached ref caller objects o
  unfolding reach requires_ownership elem
  reach-owned ref caller objects o h =
      let (found, there, h1) = bind-ok (or_error (from_db_by_ref ref caller objects)) _ h in
      let (_, owned, h2) = bind-ok (requires_ownership caller (some found.namespace)) _ h1 in
      subst (Reached ref caller objects) (ok-injective h2) (record {
        owned = ground (arith, owned, eq_iff found.namespace caller, eq_iff "system" caller);
        meant =
            from_db_by_ref-some ref caller objects found
              (or_error-ok (from_db_by_ref ref caller objects) found there);
      })
