-- ===== src/Scheduler/Groups.antt =====
-- `by_key = defaultdict(list)`, filled with the candidates in turn, and the group of the best key
-- (find_candidates of shakenfist/scheduler.py, for the affinity and for the load).
use Prim.Native.String.{String}
use text.Mathlib.TextEquality.{eq_iff}
use shakenfist.Prelude.{
  ◌≡◌, sym, ap, ◌∙◌, Bool, true, false, ◌||◌, List, [], ◌∷◌, ◌++◌, Option, none, some, Dict, lookup,
  insert, keys, Eq, ◌==◌, elem, elem-append, ◌&&◌, string_eq, if◌then◌else◌, lookup-insert,
  Bool-cases, Option-cases, inl, inr, arith,
}

abbrev pub or_nothing : Option (List String) → List String
or_nothing none = []
or_nothing (some group) = group

module _ {K : Type 0} ⦃e : Eq K⦄ where
  -- groups[key].append(c)
  unfoldable pub append_to : K → String → Dict K (List String) → Dict K (List String)
  append_to key c groups = insert key (or_nothing (lookup key groups) ++ c ∷ []) groups

  -- the loop; a candidate with no key is left out
  unfoldable pub group_by :
      (String → Option K) → List String → Dict K (List String) → Dict K (List String)
  unfolding append_to
  group_by key_of [] groups = groups
  group_by key_of (c ∷ candidates) groups = elim (key_of c) [
    | none ↦ group_by key_of candidates groups
    | some key ↦ group_by key_of candidates (append_to key c groups)
  ]

  -- the first of the keys in an order
  unfoldable pub best_key : (K → K → Bool) → List K → Option K
  best_key before [] = none
  best_key before (k ∷ rest) = elim (best_key before rest) [
    | none ↦ some k
    | some b ↦ if before b k then some b else some k
  ]

  -- `groups[sorted(groups)[0]]`, in that order; `none` is the IndexError
  unfoldable pub best_group : (K → K → Bool) → Dict K (List String) → Option (List String)
  unfolding best_key
  best_group before groups = elim (best_key before (keys groups)) [
    | none ↦ none
    | some key ↦ some (or_nothing (lookup key groups))
  ]

  -- the members of a group
  abbrev pub members : K → Dict K (List String) → List String
  members key groups = or_nothing (lookup key groups)

  members-append_to :
      (key k : K) (c : String) (groups : Dict K (List String))
      → members k (append_to key c groups)
        ≡ (if key == k then members key groups ++ c ∷ [] else members k groups)
  unfolding append_to
  members-append_to key k c groups =
      ground (arith, lookup-insert key k (members key groups ++ c ∷ []) groups)

  elem-append_to :
      (key k : K) (c d : String) (groups : Dict K (List String))
      → elem d (members k (append_to key c groups))
        ≡ (elem d (members k groups) || (key == k && c == d))
  elem-append_to key k c d groups = elim (Bool-cases (key == k)) [
    | inl same ↦
        rw (members-append_to, same, elem-append)
          (rw ((e.beq_iff key k).0 same) (elem_one (elem d (members k groups))))
    | inr other ↦ rw (members-append_to, other) (or_false (elem d (members k groups)))
  ]
    where
      elem_one : (b : Bool) → (b || elem d (c ∷ [])) ≡ (b || (true && c == d))
      elem_one b = unfold elem in ground arith

      or_false : (b : Bool) → b ≡ (b || (false && c == d))
      or_false b = ground arith

  -- Is this the key of the candidate?
  abbrev pub has_key : Option K → K → Bool
  has_key none k = false
  has_key (some key) k = key == k

  pub elem-group_by :
      (key_of : String → Option K) (candidates : List String) (groups : Dict K (List String))
      (k : K) (d : String)
      → elem d (members k (group_by key_of candidates groups))
        ≡ (elem d (members k groups) || (elem d candidates && has_key (key_of d) k))
  unfolding group_by elem
  elem-group_by key_of [] groups k d = or_false (elem d (members k groups))
    where
      or_false : (b : Bool) → b ≡ (b || false)
      or_false b = ground arith
  elem-group_by key_of (c ∷ candidates) groups k d = elim (Option-cases (key_of c)) [
    | inl keyless ↦
        rw (keyless, group_by)
          (elem-group_by key_of candidates groups k d
            ∙ skip (elem d (members k groups))
                (λ same. ap (λ x. has_key (key_of x) k) (sym same) ∙ ap (λ o. has_key o k) keyless))
    | inr (key, has) ↦
        rw (has, group_by)
          (elem-group_by key_of candidates (append_to key c groups) k d
            ∙ ap (λ b. b || (elem d candidates && has_key (key_of d) k))
                (elem-append_to key k c d groups)
            ∙ move (elem d (members k groups)) (key == k)
                (λ same. ap (λ x. has_key (key_of x) k) (sym same) ∙ ap (λ o. has_key o k) has))
  ]
    where
      skip :
          (b : Bool)
          → (c ≡ d → has_key (key_of d) k ≡ false)
          → (b || (elem d candidates && has_key (key_of d) k))
            ≡ (b || ((c == d || elem d candidates) && has_key (key_of d) k))
      skip b n = ground (arith, eq_iff c d, n)

      move :
          (b here : Bool)
          → (c ≡ d → has_key (key_of d) k ≡ here)
          → ((b || (here && c == d)) || (elem d candidates && has_key (key_of d) k))
            ≡ (b || ((c == d || elem d candidates) && has_key (key_of d) k))
      move b here n = ground (arith, eq_iff c d, n)
