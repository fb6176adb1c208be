-- ===== src/Prelude/Lists.antt =====
-- Lists measured by native numbers, and Python's list methods.
use Prim.Native.Nat.{ℕ, zero, suc, ◌+◌}
use mathlib.Core.Path.{◌≡◌, refl, sym, ◌∙◌}
use mathlib.Core.Logic.{◌≢◌}
use mathlib.Core.Bool.{Bool, true, false, ◌||◌}
use mathlib.Core.List.{List, [], ◌∷◌, ◌++◌}
use native.Mathlib.Omega.{arith}
use mathlib.Core.Bool.{false≢true}
use mathlib.Core.Path.{subst}
use mathlib.Core.Logic.{inl, inr}
use shakenfist.Prelude.Tests.{if◌then◌else◌, Bool-cases}
use mathlib.Core.Option.{Option, none, some, some-injective}
use shakenfist.Prelude.Mapping.{Dict, lookup, insert, remove, keys, contains}
use shakenfist.Prelude.Keys.{Eq, ◌==◌, beq_ne}

module _ {ℓ} {A : Type ℓ} where
  abbrev pub length : List A → ℕ
  length [] = 0
  length (x ∷ xs) = suc (length xs)

  abbrev pub take : ℕ → List A → List A
  take zero xs = []
  take (suc n) [] = []
  take (suc n) (x ∷ xs) = x ∷ take n xs

  abbrev pub drop : ℕ → List A → List A
  drop zero xs = xs
  drop (suc n) [] = []
  drop (suc n) (x ∷ xs) = drop n xs

  pub length-append : (xs ys : List A) → length (xs ++ ys) ≡ length xs + length ys
  length-append [] ys = omega arith
  length-append (x ∷ xs) ys = omega (arith, length-append xs ys)

  -- [x for x in xs if test(x)]
  unfoldable pub keep : (A → Bool) → List A → List A
  keep test [] = []
  keep test (x ∷ xs) = let rest = keep test xs in if test x then x ∷ rest else rest

  abbrev pub All {κ} : (A → Type κ) → List A → Type κ
  All P [] = Unit
  All P (x ∷ xs) = P x × All P xs

module _ {ℓ} {A : Type ℓ} ⦃e : Eq A⦄ where
  -- a in xs
  unfoldable pub elem : A → List A → Bool
  elem a [] = false
  elem a (x ∷ xs) = x == a || elem a xs

  -- xs.remove(a), where a is in xs: the first one goes.
  unfoldable pub erase : A → List A → List A
  erase a [] = []
  erase a (x ∷ xs) = if x == a then xs else x ∷ erase a xs

  pub elem-append : (a : A) (xs ys : List A) → elem a (xs ++ ys) ≡ (elem a xs || elem a ys)
  unfolding elem
  elem-append a [] ys = refl
  elem-append a (x ∷ xs) ys = ground (arith, elem-append a xs ys)

  pub elem-erase_ne : (a b : A) (xs : List A) → a ≢ b → elem b (erase a xs) ≡ elem b xs
  unfolding elem erase
  elem-erase_ne a b [] n = refl
  elem-erase_ne a b (x ∷ xs) n =
      ground (arith, e.beq_iff x a, e.beq_iff x b, elem-erase_ne a b xs n)

  pub elem-keep :
      (a : A) (test : A → Bool) (xs : List A)
      → elem a (keep test xs) ≡ (if test a then elem a xs else false)
  unfolding elem keep
  elem-keep a test [] = ground arith
  elem-keep a test (x ∷ xs) = ground (arith, e.beq_iff x a, elem-keep a test xs)

module _ {ℓ κ} {A : Type ℓ} ⦃e : Eq A⦄ (P : A → Type κ) where
  pub All-elem : (a : A) (xs : List A) → All P xs → elem a xs ≡ true → P a
  unfolding elem
  All-elem a [] h m = absurd (false≢true m)
  All-elem a (x ∷ xs) h m = elim (Bool-cases (x == a)) [
    | inl same ↦ subst P ((e.beq_iff x a).0 same) h.0
    | inr other ↦ All-elem a xs h.1 (rw other at m)
  ]

  pub All-erase : (a : A) (xs : List A) → All P xs → All P (erase a xs)
  unfolding erase
  All-erase a [] h = tt
  All-erase a (x ∷ xs) h = elim (Bool-cases (x == a)) [
    | inl same ↦ rw same (h.1)
    | inr other ↦ rw other (h.0, All-erase a xs h.1)
  ]

module _ {ℓ κ} {A : Type ℓ} (P : A → Type κ) where
  pub All-append : (xs ys : List A) → All P xs → All P ys → All P (xs ++ ys)
  All-append [] ys hx hy = hy
  All-append (x ∷ xs) ys hx hy = (hx.0, All-append xs ys hx.1 hy)

module _ {ℓ κ μ} {A : Type ℓ} {P : A → Type κ} {Q : A → Type μ} where
  pub All-map : (xs : List A) → ((a : A) → P a → Q a) → All P xs → All Q xs
  All-map [] f h = tt
  All-map (x ∷ xs) f h = (f x h.0, All-map xs f h.1)

  pub All-map₂ {ν} :
      {R : A → Type ν} (xs : List A) → ((a : A) → P a → Q a → R a) → All P xs → All Q xs → All R xs
  All-map₂ [] f h k = tt
  All-map₂ (x ∷ xs) f h k = (f x h.0 k.0, All-map₂ xs f h.1 k.1)

module _ {ℓ κ μ} {K : Type ℓ} {V : Type κ} ⦃e : Eq K⦄ (P : K × V → Type μ) where
  -- What holds of every item of a dictionary holds of each that is looked up.
  pub All-lookup : (k : K) (v : V) (d : Dict K V) → All P d → lookup k d ≡ some v → P (k, v)
  unfolding lookup
  All-lookup k v [] h found = absurd (none-some found)
    where
      none-some : ◌≡◌ {A = Option V} none (some v) → ⊥
      none-some p = cc
  All-lookup k v ((j, w) ∷ d) h found = elim (Bool-cases (j == k)) [
    | inl same ↦
        subst (λ x. P (x, v)) ((e.beq_iff j k).0 same)
          (subst (λ x. P (j, x)) (some-injective _ _ (rw same at found)) h.0)
    | inr other ↦ All-lookup k v d h.1 (rw other at found)
  ]

module _ {ℓ κ μ} {K : Type ℓ} {V : Type κ} ⦃e : Eq K⦄ (P : K × V → Type μ) where
  pub All-insert : (k : K) (v : V) (d : Dict K V) → All P d → P (k, v) → All P (insert k v d)
  unfolding insert
  All-insert k v [] h p = (p, tt)
  All-insert k v ((j, w) ∷ d) h p = elim (Bool-cases (j == k)) [
    | inl same ↦ rw same (p, h.1)
    | inr other ↦ rw other (h.0, All-insert k v d h.1 p)
  ]

module _ {ℓ κ} {K : Type ℓ} {V : Type κ} ⦃e : Eq K⦄ where
  pub elem-keys : (k : K) (d : Dict K V) → elem k (keys d) ≡ contains k d
  unfolding elem keys lookup
  elem-keys k [] = refl
  elem-keys k ((j, w) ∷ d) = ground (arith, elem-keys k d)

module _ {ℓ κ μ} {K : Type ℓ} {V : Type κ} ⦃e : Eq K⦄ (P : K × V → Type μ) where
  pub All-remove : (k : K) (d : Dict K V) → All P d → All P (remove k d)
  unfolding remove
  All-remove k [] h = tt
  All-remove k ((j, w) ∷ d) h = elim (Bool-cases (j == k)) [
    | inl same ↦ rw same (All-remove k d h.1)
    | inr other ↦ rw other (h.0, All-remove k d h.1)
  ]

  -- No item with a removed key is left.
  pub All-removed :
      (k : K)
      → ((item : K × V) → (item.0 == k) ≡ false → P item)
      → (d : Dict K V) → All P (remove k d)
  unfolding remove
  All-removed k p [] = tt
  All-removed k p ((j, w) ∷ d) = elim (Bool-cases (j == k)) [
    | inl same ↦ rw same (All-removed k p d)
    | inr other ↦ rw other (p (j, w) other, All-removed k p d)
  ]

module _ {ℓ κ} {K : Type ℓ} {V : Type κ} ⦃e : Eq K⦄ where
  -- Each key is there once, as in any dictionary.
  abbrev pub Unique : Dict K V → Type (ℓ ⊔ κ)
  Unique [] = Unit
  Unique ((k, v) ∷ d) = All (λ item. item.0 ≢ k) d × Unique d

  pub lookup-absent : (k : K) (d : Dict K V) → All (λ item. item.0 ≢ k) d → lookup k d ≡ none
  unfolding lookup
  lookup-absent k [] h = refl
  lookup-absent k ((j, v) ∷ d) h = rw (lookup, beq_ne j k h.0) (lookup-absent k d h.1)

  pub insert-Unique : (k : K) (v : V) (d : Dict K V) → Unique d → Unique (insert k v d)
  unfolding insert
  insert-Unique k v [] u = (tt, tt)
  insert-Unique k v ((j, w) ∷ d) u = elim (Bool-cases (j == k)) [
    | inl same ↦
        rw (insert, same)
          (subst (λ n. All (λ item. item.0 ≢ n) d) ((e.beq_iff j k).0 same) u.0, u.1)
    | inr other ↦
        rw (insert, other)
          (
            All-insert (λ item. item.0 ≢ j) k v d u.0
                (λ p. false≢true (sym other ∙ (e.beq_iff j k).1 (sym p))),
            insert-Unique k v d u.1,
          )
  ]

  pub remove-Unique : (k : K) (d : Dict K V) → Unique d → Unique (remove k d)
  unfolding remove
  remove-Unique k [] u = tt
  remove-Unique k ((j, w) ∷ d) u = elim (Bool-cases (j == k)) [
    | inl same ↦ rw (remove, same) (remove-Unique k d u.1)
    | inr other ↦
        rw (remove, other) (All-remove (λ item. item.0 ≢ j) k d u.0, remove-Unique k d u.1)
  ]
