-- ===== src/ObjectState/Members.antt =====
-- The iterator over the objects in some states gives exactly those (shakenfist/baseobject.py,
-- shakenfist/cache.py).
use Prim.Native.String.{String}
use shakenfist.Prelude.{
  ℕ, ◌≡◌, ◌≢◌, refl, sym, ap, ◌∙◌, Bool, false, ◌&&◌, ◌||◌, List, [], ◌∷◌, Option, none, some, Dict,
  lookup, contains, elem, ◌==◌, string_eq, beq_ne, if◌then◌else◌, All, Unique, lookup-absent,
  Bool-cases, inl, inr, arith,
}
use shakenfist.ObjectState.Names.{StateName, state_name_eq, hard_deleted, ObjectType}
use shakenfist.ObjectState.Cache.{
  CacheName, cache_name_eq, all, of_state, of_none, Caches, CacheSpace, read_cache, or_empty,
}
use shakenfist.ObjectState.CacheLaws.{cached}
use shakenfist.ObjectState.Update.{ObjectDb, state}
use shakenfist.ObjectState.Runs.{Consistent, is_state}
use shakenfist.ObjectState.Iterate.{in_states}

-- The caches of a type, as etcd holds them under the paths of the type.
unfoldable pub space_of : ObjectType → Caches → CacheSpace
space_of ty [] = []
space_of ty ((name, uuids) ∷ caches) = (ty, name, uuids) ∷ space_of ty caches

-- Whether an object is in the cache of one of the states.
unfoldable pub in_some : String → List StateName → Caches → Bool
in_some u [] caches = false
in_some u (s ∷ states) caches = cached u (of_state s) caches || in_some u states caches

-- The same, by going through the caches.
unfoldable pub hits : String → List StateName → Caches → Bool
hits u states [] = false
hits u states ((name, uuids) ∷ caches) =
    (in_states name states && contains u uuids) || hits u states caches

hits-none : (u : String) (caches : Caches) → hits u [] caches ≡ false
unfolding hits in_states elem
hits-none u [] = refl
hits-none u ((all, uuids) ∷ caches) = hits-none u caches
hits-none u ((of_state s, uuids) ∷ caches) = hits-none u caches
hits-none u ((of_none, uuids) ∷ caches) = hits-none u caches

cached-cons :
    (u : String) (s : StateName) (name : CacheName) (uuids : Dict String ℕ) (caches : Caches)
    → cached u (of_state s) ((name, uuids) ∷ caches)
      ≡ (if name == of_state s then contains u uuids else cached u (of_state s) caches)
unfolding read_cache lookup
cached-cons u s name uuids caches = elim (Bool-cases (name == of_state s)) [
  | inl same ↦ rw (read_cache, lookup, same)
  | inr other ↦ rw (read_cache, lookup, other)
]

-- The cache of a state comes once.
cached-absent :
    (u : String) (s : StateName) (name : CacheName) (uuids : Dict String ℕ) (caches : Caches)
    → Unique ((name, uuids) ∷ caches)
    → name ≡ of_state s
    → cached u (of_state s) caches ≡ false
unfolding read_cache lookup
cached-absent u s name uuids caches once e =
    ap (λ o. contains u (or_empty o))
      (ap (λ n. lookup n caches) (sym e) ∙ lookup-absent name caches once.0)

not_state : (name : CacheName) (s : StateName) → name ≢ of_state s → (name == of_state s) ≡ false
not_state name s n = beq_ne name (of_state s) n

same_state : (s t : StateName) → (of_state t == of_state s) ≡ (s == t)
same_state s t =
    ground (arith, cache_name_eq.beq_iff (of_state t) (of_state s), state_name_eq.beq_iff s t)

-- One state more
hits-cons :
    (u : String) (s : StateName) (states : List StateName) (caches : Caches)
    → Unique caches
    → hits u (s ∷ states) caches ≡ (cached u (of_state s) caches || hits u states caches)
unfolding hits in_states elem
hits-cons u s states [] once = unfold read_cache lookup in refl
hits-cons u s states ((all, uuids) ∷ caches) once = ground (
  arith,
  cached-cons u s all uuids caches,
  not_state all s (λ p. cc),
  hits-cons u s states caches once.1,
)
hits-cons u s states ((of_none, uuids) ∷ caches) once = ground (
  arith,
  cached-cons u s of_none uuids caches,
  not_state of_none s (λ p. cc),
  hits-cons u s states caches once.1,
)
hits-cons u s states ((of_state t, uuids) ∷ caches) once = elim (Bool-cases (s == t)) [
  | inl same ↦ ground (
    arith,
    cached-cons u s (of_state t) uuids caches,
    same_state s t,
    same,
    cached-absent u s (of_state t) uuids caches once
        (ap of_state (sym ((state_name_eq.beq_iff s t).0 same))),
    hits-cons u s states caches once.1,
  )
  | inr other ↦ ground (
    arith,
    cached-cons u s (of_state t) uuids caches,
    same_state s t,
    other,
    hits-cons u s states caches once.1,
  )
]

pub hits-in_some :
    (u : String) (states : List StateName) (caches : Caches)
    → Unique caches
    → hits u states caches ≡ in_some u states caches
unfolding in_some
hits-in_some u [] caches once = hits-none u caches
hits-in_some u (s ∷ states) caches once =
    hits-cons u s states caches once
    ∙ ap (λ b. cached u (of_state s) caches || b) (hits-in_some u states caches once)

-- Whether a state is one of some.
unfoldable pub is_in : Option StateName → List StateName → Bool
is_in none states = false
is_in (some s) states = elem s states

is_in-nil : (value : Option StateName) → false ≡ is_in value []
unfolding is_in elem
is_in-nil none = refl
is_in-nil (some s) = refl

is_in-cons :
    (value : Option StateName) (s : StateName) (states : List StateName)
    → (is_state value s || is_in value states) ≡ is_in value (s ∷ states)
unfolding is_in elem is_state
is_in-cons none s states = refl
is_in-cons (some t) s states = ground (arith, state_name_eq.beq_iff t s, state_name_eq.beq_iff s t)

module _ {S : Type 0} (db : ObjectDb S) (consistent : Consistent db) where
  pub in_some-state :
      (u : String) (states : List StateName)
      → All (λ s. s ≢ hard_deleted) states
      → in_some u states db.caches ≡ is_in (state false u db).value states
  unfolding in_some
  in_some-state u [] known = is_in-nil (state false u db).value
  in_some-state u (s ∷ states) known =
      ap (λ b. b || in_some u states db.caches) (consistent.at u s known.0)
      ∙ ap (λ b. is_state (state false u db).value s || b) (in_some-state u states known.1)
      ∙ is_in-cons (state false u db).value s states
