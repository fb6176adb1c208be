-- ===== src/Artifact/Url.antt =====
-- Finding an artifact by its URL (from_url and the filters of shakenfist/artifact.py).
use Prim.Native.String.{String}
use text.Mathlib.TextEquality.{eq_iff}
use mathlib.Core.Path.{subst}
use shakenfist.Prelude.{
  ◌≡◌, refl, ap, ◌∙◌, Bool, true, false, ◌&&◌, ◌||◌, List, [], ◌∷◌, Option, some, elem, keep, All,
  All-map, ◌==◌, string_eq, if◌then◌else◌, Result, ok, err, ok-injective, Bool-cases, inl, inr,
  arith, ◌⊎◌,
}
use shakenfist.ObjectState.Names.{
  StateName, initial, creating, created, option_state_name_eq, OptionStateName-discrete,
}
use shakenfist.Namespace.Model.{Namespaces, namespace_is_trusted}

-- An artifact as the filters see it.
pub record Found : Type 0 where
  pub uuid : String
  pub artifact_type : String
  pub source_url : String
  pub namespace : String
  pub shared : Bool
  pub state : Option StateName

-- TooManyMatches
pub data UrlError : Type 0 where
  too_many_matches : UrlError

-- What from_url gives: an artifact that is there, that a new one is made, or None.
pub data Answer : Type 0 where
  found : Found → Answer
  make_new : Answer
  nothing : Answer

-- namespace_or_shared_filter
unfoldable pub namespace_or_shared_filter : Namespaces → String → Found → Bool
unfolding namespace_is_trusted
namespace_or_shared_filter namespaces namespace o =
    namespace == "system"
    || o.shared
    || namespace_is_trusted namespaces o.namespace namespace
    || o.namespace == namespace

-- not_dead_states_filter
unfoldable pub not_dead_states_filter : Found → Bool
unfolding elem OptionStateName-discrete
not_dead_states_filter o = elem o.state (some initial ∷ some creating ∷ some created ∷ [])

-- the filters of from_url; url_filter and type_filter are its first two tests
unfoldable pub wanted : Namespaces → String → String → String → Found → Bool
unfolding namespace_or_shared_filter not_dead_states_filter
wanted namespaces artifact_type url namespace a =
    url == a.source_url
    && artifact_type == a.artifact_type
    && not_dead_states_filter a
    && namespace_or_shared_filter namespaces namespace a

-- the choice among more than one match
unfoldable pub choose_local : List Found → Result UrlError Answer
choose_local (a ∷ []) = ok (found a)
choose_local _ = err too_many_matches

-- the choice among the matches
unfoldable pub choose_match : String → Bool → List Found → Result UrlError Answer
unfolding choose_local keep
choose_match namespace create_if_new [] = ok (if create_if_new then make_new else nothing)
choose_match namespace create_if_new (a ∷ []) = ok (found a)
choose_match namespace create_if_new (a ∷ b ∷ artifacts) =
    choose_local (keep (λ c. c.namespace == namespace) (a ∷ b ∷ artifacts))

-- from_url
unfoldable pub from_url :
    Namespaces → List Found → String → String → String → Bool → Result UrlError Answer
unfolding wanted choose_match keep
from_url namespaces artifacts artifact_type url namespace create_if_new =
    choose_match namespace create_if_new
      (keep (wanted namespaces artifact_type url namespace) artifacts)

keep-All :
    (test : Found → Bool) (P : Found → Type 0) (xs : List Found)
    → All P xs
    → All (λ a. P a × (test a ≡ true)) (keep test xs)
unfolding keep
keep-All test P [] h = tt
keep-All test P (x ∷ xs) h = elim (Bool-cases (test x)) [
  | inl yes_ ↦ rw (keep, yes_) ((h.0, yes_), keep-All test P xs h.1)
  | inr no_ ↦ rw (keep, no_) (keep-All test P xs h.1)
]

abbrev found_or : Found → Answer → Found
found_or d (found a) = a
found_or d make_new = d
found_or d nothing = d

abbrev head_or : Found → List Found → Found
head_or d [] = d
head_or d (x ∷ xs) = x

found-injective : (a b : Found) → found a ≡ found b → a ≡ b
found-injective a b p = ap (found_or a) p

choose_local-found :
    (P : Found → Type 0) (xs : List Found) (a : Found)
    → All P xs
    → choose_local xs ≡ ok (found a)
    → P a
unfolding choose_local
choose_local-found P [] a h r = cc
choose_local-found P (x ∷ []) a h r = subst P (found-injective x a (ok-injective r)) h.0
choose_local-found P (x ∷ y ∷ xs) a h r = cc

choose_match-found :
    (P : Found → Type 0) (namespace : String) (create_if_new : Bool) (xs : List Found) (a : Found)
    → All P xs
    → choose_match namespace create_if_new xs ≡ ok (found a)
    → P a
unfolding choose_match
choose_match-found P namespace true [] a h r = cc
choose_match-found P namespace false [] a h r = cc
choose_match-found P namespace create_if_new (x ∷ []) a h r =
    subst P (found-injective x a (ok-injective r)) h.0
choose_match-found P namespace create_if_new (x ∷ y ∷ xs) a h r =
    choose_local-found P (keep (λ c. c.namespace == namespace) (x ∷ y ∷ xs)) a
      (All-map (keep (λ c. c.namespace == namespace) (x ∷ y ∷ xs)) (λ c p. p.0)
        (keep-All (λ c. c.namespace == namespace) P (x ∷ y ∷ xs) h))
      r

-- What an artifact that is found has to be: of that URL and type, in a state in which it is not dead,
-- and the namespace's own, shared, or of a namespace that trusts the one that asks.
pub record Wanted (namespaces : Namespaces) (artifact_type url namespace : String) (a : Found)
    : Type 0 where
  pub at_url : a.source_url ≡ url
  pub of_type : a.artifact_type ≡ artifact_type
  pub alive : (a.state ≡ some initial) ⊎ (a.state ≡ some creating) ⊎ (a.state ≡ some created)
  pub visible :
      (namespace ≡ "system")
      ⊎ (a.shared ≡ true)
      ⊎ (a.namespace ≡ namespace)
      ⊎ (namespace_is_trusted namespaces a.namespace namespace ≡ true)

wanted-Wanted :
    (namespaces : Namespaces) (artifact_type url namespace : String) (a : Found)
    → wanted namespaces artifact_type url namespace a ≡ true
    → Wanted namespaces artifact_type url namespace a
unfolding wanted namespace_or_shared_filter not_dead_states_filter elem
wanted-Wanted namespaces artifact_type url namespace a h = record {
  at_url = ground (arith, h, eq_iff url a.source_url);
  of_type = ground (arith, h, eq_iff artifact_type a.artifact_type);
  alive = ground (
    arith,
    h,
    option_state_name_eq.beq_iff a.state (some initial),
    option_state_name_eq.beq_iff a.state (some creating),
    option_state_name_eq.beq_iff a.state (some created),
    option_state_name_eq.beq_iff (some initial) a.state,
    option_state_name_eq.beq_iff (some creating) a.state,
    option_state_name_eq.beq_iff (some created) a.state,
  );
  visible = ground (arith, h, eq_iff namespace "system", eq_iff a.namespace namespace);
}

module _ (namespaces : Namespaces) (artifacts : List Found) (artifact_type url namespace : String)
    (create_if_new : Bool) where
  -- An artifact that from_url finds is one of the artifacts, in that whatever holds of all of them
  -- holds of it; has the URL and the type; is initial, creating or created; and is shared, of the
  -- namespace that asks or of one that trusts it, unless the namespace system asks.
  pub from_url-Wanted :
      (P : Found → Type 0) (a : Found)
      → All P artifacts
      → from_url namespaces artifacts artifact_type url namespace create_if_new ≡ ok (found a)
      → P a × Wanted namespaces artifact_type url namespace a
  unfolding from_url
  from_url-Wanted P a h r =
      let (held, passed) =
        choose_match-found (λ c. P c × (wanted namespaces artifact_type url namespace c ≡ true))
          namespace create_if_new (keep (wanted namespaces artifact_type url namespace) artifacts) a
          (keep-All (wanted namespaces artifact_type url namespace) P artifacts h) r in
      (held, wanted-Wanted namespaces artifact_type url namespace a passed)

  keep-keep :
      (p q : Found → Bool) (xs : List Found) → keep q (keep p xs) ≡ keep (λ a. p a && q a) xs
  unfolding keep
  keep-keep p q [] = refl
  keep-keep p q (x ∷ xs) = elim (Bool-cases (p x)) [
    | inl yes_ ↦
        rw (keep, yes_)
          (elim (Bool-cases (q x)) [
            | inl both ↦ rw (keep, both) (ap (λ ys. x ∷ ys) (keep-keep p q xs))
            | inr one ↦ rw (keep, one) (keep-keep p q xs)
          ])
    | inr no_ ↦ rw (keep, no_) (keep-keep p q xs)
  ]

  choose_match-own :
      (xs : List Found) (a : Found)
      → keep (λ c. c.namespace == namespace) xs ≡ a ∷ []
      → choose_match namespace create_if_new xs ≡ ok (found a)
  unfolding choose_match keep choose_local
  choose_match-own [] a h = cc
  choose_match-own (x ∷ []) a h = elim (Bool-cases (x.namespace == namespace)) [
    | inl own ↦ ap (λ c. ok (found c)) (ap (head_or x) (rw (keep, own) at h))
    | inr other ↦ absurd (nil-cons (rw (keep, other) at h))
  ]
    where
      nil-cons : ◌≡◌ {A = List Found} [] (a ∷ []) → ⊥
      nil-cons p = cc
  choose_match-own (x ∷ y ∷ xs) a h = ap choose_local h

  -- Where exactly one artifact of its own namespace matches, from_url finds that one, however many
  -- shared artifacts and artifacts of trusting namespaces match as well.
  pub from_url-own :
      (a : Found)
      → keep
          (λ c. wanted namespaces artifact_type url namespace c && c.namespace == namespace)
          artifacts
        ≡ a ∷ []
      → from_url namespaces artifacts artifact_type url namespace create_if_new ≡ ok (found a)
  unfolding from_url
  from_url-own a h =
      choose_match-own (keep (wanted namespaces artifact_type url namespace) artifacts) a (
        keep-keep (wanted namespaces artifact_type url namespace) (λ c. c.namespace == namespace)
          artifacts
        ∙ h)
