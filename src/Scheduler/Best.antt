-- ===== src/Scheduler/Best.antt =====
-- The group of the best key has exactly the candidates with that key, and no candidate has a better
-- one (find_candidates of shakenfist/scheduler.py).
use Prim.Native.String.{String}
use mathlib.Core.Bool.{false≢true}
use mathlib.Core.Option.{some-injective}
use shakenfist.Prelude.{
  ◌≡◌, ◌≢◌, refl, sym, ap, ◌∙◌, Bool, true, false, ◌&&◌, List, [], ◌∷◌, ◌++◌, Option, none, some,
  Dict, lookup, keys, is_some, Eq, beq_refl, elem, elem-keys, string_eq, Option-cases, inl, inr,
  arith, All, All-lookup, All-insert,
}
use shakenfist.Scheduler.Groups.{
  or_nothing, append_to, group_by, best_key, best_group, members, has_key, elem-group_by,
}

-- `before` is the strict part of a total order: the better key comes before the other.
pub record IsOrder {K : Type 0} (before : K → K → Bool) : Type 0 where
  pub asym : (a b : K) → before a b ≡ true → before b a ≡ false
  pub trans : (a b c : K) → before b a ≡ false → before c b ≡ false → before c a ≡ false
  pub irrefl : (a : K) → before a a ≡ false

module _ {K : Type 0} ⦃e : Eq K⦄ (before : K → K → Bool) (o : IsOrder before) where
  -- No key is the best one of an empty list only.
  best_key-none : (ks : List K) → best_key before ks ≡ none → (k : K) → elem k ks ≡ false
  unfolding best_key elem
  best_key-none [] h k = refl
  best_key-none (x ∷ ks) h k = elim (Option-cases (best_key before ks)) [
    | inl nothing ↦ absurd (ground arith)
    | inr (b, found) ↦ absurd (ground arith)
  ]

  -- No key comes before the best one.
  pub best_key-first :
      (ks : List K) (b : K)
      → best_key before ks ≡ some b
      → (k : K) → elem k ks ≡ true
      → before k b ≡ false
  unfolding best_key elem
  best_key-first [] b h k m = cc
  best_key-first (x ∷ ks) b h k m = elim (Option-cases (best_key before ks)) [
    | inl nothing ↦ ground (arith, nothing, e.beq_iff x k, best_key-none ks nothing k, o.irrefl x)
    | inr (c, found) ↦ ground (
      arith,
      found,
      e.beq_iff x k,
      best_key-first ks c found k,
      o.asym c x,
      o.trans x c k,
      o.irrefl x,
      o.trans k c x,
    )
  ]

  pub best_key-elem : (ks : List K) (b : K) → best_key before ks ≡ some b → elem b ks ≡ true
  unfolding best_key elem
  best_key-elem [] b h = cc
  best_key-elem (x ∷ ks) b h = elim (Option-cases (best_key before ks)) [
    | inl nothing ↦ ground (arith, nothing, beq_refl x, e.beq_iff x b)
    | inr (c, found) ↦
        ground (arith, found, beq_refl x, e.beq_iff x b, best_key-elem ks c found, e.beq_iff c b)
  ]

  -- A key with a member is one of the keys.
  members-key :
      (d : String) (k : K) (groups : Dict K (List String))
      → elem d (members k groups) ≡ true
      → elem k (keys groups) ≡ true
  unfolding elem
  members-key d k groups m = elem-keys k groups ∙ elim (Option-cases (lookup k groups)) [
    | inl missing ↦ absurd (false≢true (rw missing at m))
    | inr (group, found) ↦ rw found refl
  ]

  -- The best group is that of the best key.
  best_group-some :
      (groups : Dict K (List String)) (g : List String)
      → best_group before groups ≡ some g
      → (k : K) × (best_key before (keys groups) ≡ some k) × (members k groups ≡ g)
  unfolding best_group
  best_group-some groups g h = elim (Option-cases (best_key before (keys groups))) [
    | inl nothing ↦ absurd (none-some (rw (best_group, nothing) at h))
    | inr (k, found) ↦ (k, found, some-injective _ _ (rw (best_group, found) at h))
  ]
    where
      none-some : ◌≡◌ {A = Option (List String)} none (some g) → ⊥
      none-some p = cc

  best_group-nothing :
      (groups : Dict K (List String))
      → best_group before groups ≡ none
      → best_key before (keys groups) ≡ none
  unfolding best_group
  best_group-nothing groups h = elim (Option-cases (best_key before (keys groups))) [
    | inl nothing ↦ nothing
    | inr (k, found) ↦ absurd (some-none (members k groups) (rw (best_group, found) at h))
  ]
    where
      some-none : (g : List String) → ◌≡◌ {A = Option (List String)} (some g) none → ⊥
      some-none g p = cc

  module _ (key_of : String → Option K) (candidates : List String) where
    elem-group :
        (d : String) (k : K)
        → elem d (members k (group_by key_of candidates []))
          ≡ (elem d candidates && has_key (key_of d) k)
    unfolding elem lookup
    elem-group d k = elem-group_by key_of candidates [] k d

    keyed-key :
        (d : String) (k : K)
        → elem d candidates ≡ true
        → key_of d ≡ some k
        → elem k (keys (group_by key_of candidates [])) ≡ true
    keyed-key d k m has =
        members-key d k (group_by key_of candidates [])
          (elem-group d k ∙ rw (m, has, beq_refl k) refl)

    -- The group is the candidates with the best key.
    pub best_group-elem :
        (g : List String)
        → best_group before (group_by key_of candidates []) ≡ some g
        → (k : K) × ((d : String) → elem d g ≡ (elem d candidates && has_key (key_of d) k))
          × ((d : String) (j : K)
              → elem d candidates ≡ true
              → key_of d ≡ some j
              → before j k ≡ false)
    best_group-elem g h =
        let (k, found, same) = best_group-some (group_by key_of candidates []) g h in
        (
          k,
          (λ d. ap (elem d) (sym same) ∙ elem-group d k),
          (λ d j m has.
              best_key-first (keys (group_by key_of candidates [])) k found j
                (keyed-key d j m has)),
        )

    -- There is no group only where no candidate has a key.
    pub best_group-none :
        best_group before (group_by key_of candidates []) ≡ none
        → (d : String) → elem d candidates ≡ true
        → key_of d ≡ none
    best_group-none h d m = elim (Option-cases (key_of d)) [
      | inl keyless ↦ keyless
      | inr (k, has) ↦ absurd (
          false≢true (
            sym (best_key-none (keys (group_by key_of candidates [])) (best_group-nothing _ h) k)
            ∙ keyed-key d k m has))
    ]

  -- No group is empty.
  Full : K × List String → Type 0
  Full item = item.1 ≢ []

  append-full : (xs : List String) (c : String) → (xs ++ c ∷ []) ≢ []
  append-full [] c p = cc
  append-full (x ∷ xs) c p = cc

  group_by-Full :
      (key_of : String → Option K) (candidates : List String) (groups : Dict K (List String))
      → All Full groups
      → All Full (group_by key_of candidates groups)
  unfolding group_by append_to Full
  group_by-Full key_of [] groups h = h
  group_by-Full key_of (c ∷ candidates) groups h = elim (Option-cases (key_of c)) [
    | inl keyless ↦ rw (group_by, keyless) (group_by-Full key_of candidates groups h)
    | inr (k, has) ↦
        rw (group_by, has)
          (group_by-Full key_of candidates (append_to k c groups) (
            All-insert Full k (or_nothing (lookup k groups) ++ c ∷ []) groups h
              (append-full (or_nothing (lookup k groups)) c)))
  ]

  best_key-Full :
      (groups : Dict K (List String)) (k : K)
      → All Full groups
      → best_key before (keys groups) ≡ some k
      → members k groups ≢ []
  unfolding Full
  best_key-Full groups k h found empty = elim (Option-cases (lookup k groups)) [
    | inl missing ↦ absurd (
        false≢true (
          ap is_some (sym missing)
          ∙ sym (elem-keys k groups)
          ∙ best_key-elem (keys groups) k found))
    | inr (group, here) ↦ All-lookup Full k group groups h here (ap or_nothing (sym here) ∙ empty)
  ]

  pub best_group-full :
      (key_of : String → Option K) (candidates : List String) (g : List String)
      → best_group before (group_by key_of candidates []) ≡ some g
      → g ≢ []
  best_group-full key_of candidates g h empty =
      let (k, found, same) = best_group-some (group_by key_of candidates []) g h in
      best_key-Full (group_by key_of candidates []) k (group_by-Full key_of candidates [] tt) found
        (same ∙ empty)
