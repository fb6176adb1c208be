-- ===== src/ObjectState/Iterated.antt =====
-- The iterator over the objects in some states gives exactly those (shakenfist/baseobject.py,
-- shakenfist/cache.py).
use Prim.Native.String.{String}
use text.Mathlib.TextEquality.{eq_iff}
use shakenfist.Prelude.{
  ◌≡◌, ◌≢◌, refl, sym, ap, ◌∙◌, Bool, true, false, ◌&&◌, List, [], ◌∷◌, ◌++◌, some, Dict, lookup,
  contains, is_some, keys, elem, elem-append, elem-keys, ◌==◌, string_eq, All, Unique, beq_ne,
  Bool-cases, Option-cases, ◌⊎◌, inl, inr, arith, Result, ok, err, ◌>>=◌,
}
use shakenfist.ObjectState.Names.{
  StateName, StateName-discrete, state_name_eq, hard_deleted, ObjectType, object_type_string,
}
use shakenfist.ObjectState.Names
use shakenfist.ObjectState.Cache.{cache_name_eq, Caches, CacheSpace}
use shakenfist.ObjectState.Update.{ObjectDb, state}
use shakenfist.ObjectState.Runs.{Consistent}
use shakenfist.ObjectState.Iterate.{
  in_prefix, read_object_state_cache_many, stored_objects, get_iterator, target_states,
  active_states, healthy_states, inactive_states, PrefilterError, invalid_object_prefilter,
}
use shakenfist.ObjectState.Members.{space_of, hits, hits-in_some, is_in, in_some-state}

in_prefix-same : (ty : ObjectType) → in_prefix ty ty ≡ true
unfolding in_prefix object_type_string
in_prefix-same Names.unknown = refl
in_prefix-same Names.agentoperation = refl
in_prefix-same Names.artifact = refl
in_prefix-same Names.blob = refl
in_prefix-same Names.instances = refl
in_prefix-same Names.ipam = refl
in_prefix-same Names.namespace = refl
in_prefix-same Names.network = refl
in_prefix-same Names.networkinterface = refl
in_prefix-same Names.node = refl
in_prefix-same Names.upload = refl

-- No cache of another type that the same prefix finds has the object.
unfoldable pub Elsewhere : ObjectType → String → CacheSpace → Type 0
Elsewhere ty u others = All (λ c. (in_prefix ty c.0 && contains u c.2) ≡ false) others

others-elem :
    (ty : ObjectType) (u : String) (states : List StateName) (others : CacheSpace)
    → Elsewhere ty u others
    → elem u (read_object_state_cache_many ty states others) ≡ false
unfolding read_object_state_cache_many elem Elsewhere
others-elem ty u states [] absent = refl
others-elem ty u states ((other, name, uuids) ∷ space) absent = ground (
  arith,
  absent.0,
  others-elem ty u states space absent.1,
  elem-append u (keys uuids) (read_object_state_cache_many ty states space),
  elem-keys u uuids,
)

many-elem :
    (ty : ObjectType) (u : String) (states : List StateName) (caches : Caches) (others : CacheSpace)
    → Elsewhere ty u others
    → elem u (read_object_state_cache_many ty states (space_of ty caches ++ others))
      ≡ hits u states caches
unfolding read_object_state_cache_many hits space_of
many-elem ty u states [] others absent = others-elem ty u states others absent
many-elem ty u states ((name, uuids) ∷ caches) others absent = ground (
  arith,
  in_prefix-same ty,
  many-elem ty u states caches others absent,
  elem-append u (keys uuids)
      (read_object_state_cache_many ty states (space_of ty caches ++ others)),
  elem-keys u uuids,
)

is_in-known :
    (states : List StateName)
    → elem hard_deleted states ≡ false
    → All (λ s. s ≢ hard_deleted) states
unfolding elem
is_in-known [] h = tt
is_in-known (s ∷ states) h = (
  (λ p. ground (arith, state_name_eq.beq_iff s hard_deleted, h, p)),
  is_in-known states (ground (arith, h)),
)

active_states-known : (ty : ObjectType) → elem hard_deleted (active_states ty) ≡ false
unfolding elem StateName-discrete
active_states-known Names.unknown = refl
active_states-known Names.agentoperation = refl
active_states-known Names.artifact = refl
active_states-known Names.blob = refl
active_states-known Names.instances = refl
active_states-known Names.ipam = refl
active_states-known Names.namespace = refl
active_states-known Names.network = refl
active_states-known Names.networkinterface = refl
active_states-known Names.node = refl
active_states-known Names.upload = refl

healthy_states-known : (ty : ObjectType) → elem hard_deleted (healthy_states ty) ≡ false
unfolding elem StateName-discrete
healthy_states-known Names.unknown = refl
healthy_states-known Names.agentoperation = refl
healthy_states-known Names.artifact = refl
healthy_states-known Names.blob = refl
healthy_states-known Names.instances = refl
healthy_states-known Names.ipam = refl
healthy_states-known Names.namespace = refl
healthy_states-known Names.network = refl
healthy_states-known Names.networkinterface = refl
healthy_states-known Names.node = refl
healthy_states-known Names.upload = refl

inactive_states-known : (ty : ObjectType) → elem hard_deleted (inactive_states ty) ≡ false
unfolding elem StateName-discrete
inactive_states-known Names.unknown = refl
inactive_states-known Names.agentoperation = refl
inactive_states-known Names.artifact = refl
inactive_states-known Names.blob = refl
inactive_states-known Names.instances = refl
inactive_states-known Names.ipam = refl
inactive_states-known Names.namespace = refl
inactive_states-known Names.network = refl
inactive_states-known Names.networkinterface = refl
inactive_states-known Names.node = refl
inactive_states-known Names.upload = refl

-- A prefilter is refused, or stands for states other than `hard-deleted`.
target_states-cases :
    (ty : ObjectType) (p : String)
    → (target_states ty p ≡ err invalid_object_prefilter)
      ⊎ ((states : List StateName) × (target_states ty p ≡ ok states)
          × (elem hard_deleted states ≡ false))
unfolding target_states
target_states-cases ty p = elim (Bool-cases (p == "active")) [
  | inl e ↦ inr (active_states ty, rw e refl, active_states-known ty)
  | inr active ↦ elim (Bool-cases (p == "deleted")) [
    | inl e ↦ inr (Names.deleted ∷ [], rw (active, e) refl, unfold elem StateName-discrete in refl)
    | inr removed ↦ elim (Bool-cases (p == "healthy")) [
      | inl e ↦ inr (healthy_states ty, rw (active, removed, e) refl, healthy_states-known ty)
      | inr healthy ↦ elim (Bool-cases (p == "inactive")) [
        | inl e ↦
            inr
              (inactive_states ty, rw (active, removed, healthy, e) refl, inactive_states-known ty)
        | inr inactive ↦ inl (rw (active, removed, healthy, inactive) refl)
      ]
    ]
  ]
]

module _ {S : Type 0} where
  contains-same :
      (u v : String) (objects : Dict String S)
      → ((v == u) && contains u objects) ≡ ((v == u) && contains v objects)
  contains-same u v objects = elim (Bool-cases (v == u)) [
    | inl same ↦ ap (λ w. (v == u) && contains w objects) (sym ((eq_iff v u).0 same))
    | inr other ↦ rw other refl
  ]

  contains-stored_objects :
      (u : String) (uuids : List String) (objects : Dict String S)
      → contains u (stored_objects uuids objects) ≡ (elem u uuids && contains u objects)
  unfolding stored_objects elem lookup
  contains-stored_objects u [] objects = refl
  contains-stored_objects u (v ∷ uuids) objects = elim (Option-cases (lookup v objects)) [
    | inl missing ↦
        rw (stored_objects, missing) ground
          (
            arith,
            ap is_some missing,
            contains-same u v objects,
            contains-stored_objects u uuids objects,
          )
    | inr found ↦
        rw (stored_objects, found.1) ground
          (
            arith,
            ap is_some found.1,
            contains-same u v objects,
            contains-stored_objects u uuids objects,
          )
  ]

  -- What a generator says of an object: whether it yields it, unless it raises.
  abbrev pub yields :
      String → Result PrefilterError (List (String × S)) → Result PrefilterError Bool
  yields u found = found >>= λ objects. ok (contains u objects)

  -- An iterator with a prefilter that is not empty raises InvalidObjectPrefilter exactly when the prefilter stands for
  -- no states. Otherwise, while the caches of the type agree with the states, each comes once, and
  -- no cache of a type whose name the prefix also begins has the object, it yields an object exactly
  -- when it is stored and its state is among those of the prefilter.
  pub get_iterator-state :
      (ty : ObjectType) (p : String) (u : String) (db : ObjectDb S) (others : CacheSpace)
      → p ≢ ""
      → Consistent db
      → Unique db.caches
      → Elsewhere ty u others
      → yields u (get_iterator ty (some p) (space_of ty db.caches ++ others) db.objects) ≡ (
          target_states ty p >>= λ states.
          ok (is_in (state false u db).value states && contains u db.objects))
  unfolding get_iterator
  get_iterator-state ty p u db others given consistent once absent =
      elim (target_states-cases ty p) [
        | inl e ↦ rw (get_iterator, beq_ne p "" given, e) refl
        | inr (states, e, known) ↦
            rw (get_iterator, beq_ne p "" given, e)
              (ap ok (
                contains-stored_objects u
                  (read_object_state_cache_many ty states (space_of ty db.caches ++ others))
                  db.objects
                ∙ ap (λ b. b && contains u db.objects)
                    (many-elem ty u states db.caches others absent
                      ∙ hits-in_some u states db.caches once
                      ∙ in_some-state db consistent u states (is_in-known states known))))
      ]
