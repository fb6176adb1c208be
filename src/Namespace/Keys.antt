-- ===== src/Namespace/Keys.antt =====
-- Which keys of a namespace are live (shakenfist/namespace.py).
use Prim.Native.String.{String}
use mathlib.Core.Path.{subst}
use text.Mathlib.TextEquality.{eq_iff}
use shakenfist.Prelude.{
  Unique, lookup-absent, ℕ, ◌≡◌, ◌≢◌, refl, sym, ◌∙◌, true, false, [], ◌∷◌, Option, none, some,
  Dict, lookup, ◌==◌, string_eq, All, All-map, if◌then◌else◌, Bool-cases, inl, inr,
}
use shakenfist.Namespace.Model.{Key, expired, live_keys}

pub All-live_keys :
    (P : String × Key → Type 0) (now : ℕ) (d : Dict String Key)
    → All P d
    → All (λ item. P item × (expired now item.1 ≡ false)) (live_keys now d)
unfolding live_keys
All-live_keys P now [] h = tt
All-live_keys P now ((name, k) ∷ d) h = elim (Bool-cases (expired now k)) [
  | inl old ↦ rw (live_keys, old) (All-live_keys P now d h.1)
  | inr fresh ↦ rw (live_keys, fresh) ((h.0, fresh), All-live_keys P now d h.1)
]

pub live_keys-All :
    (P : String × Key → Type 0) (now : ℕ) (d : Dict String Key) → All P d → All P (live_keys now d)
live_keys-All P now d h = All-map (live_keys now d) (λ item p. p.0) (All-live_keys P now d h)

pub live_keys-Unique : (now : ℕ) (d : Dict String Key) → Unique d → Unique (live_keys now d)
unfolding live_keys
live_keys-Unique now [] u = tt
live_keys-Unique now ((name, k) ∷ d) u = elim (Bool-cases (expired now k)) [
  | inl old ↦ rw (live_keys, old) (live_keys-Unique now d u.1)
  | inr fresh ↦
      rw (live_keys, fresh)
        (live_keys-All (λ item. item.0 ≢ name) now d u.0, live_keys-Unique now d u.1)
]

abbrev pub if_live : ℕ → Option Key → Option Key
if_live now none = none
if_live now (some k) = if expired now k then none else some k

-- A live key is one that is there and has not expired.
pub lookup-live_keys :
    (now : ℕ) (name : String) (d : Dict String Key)
    → Unique d
    → lookup name (live_keys now d) ≡ if_live now (lookup name d)
unfolding lookup live_keys
lookup-live_keys now name [] u = refl
lookup-live_keys now name ((j, k) ∷ d) u = elim (Bool-cases (expired now k)) [
  | inl old ↦ elim (Bool-cases (j == name)) [
    | inl same ↦
        rw (live_keys, lookup, old, same)
          (lookup-absent name (live_keys now d) (
              live_keys-All (λ item. item.0 ≢ name) now d
                (subst (λ n. All (λ item. item.0 ≢ n) d) ((eq_iff j name).0 same) u.0))
            ∙ sym (dead old))
    | inr other ↦ rw (live_keys, lookup, old, other) (lookup-live_keys now name d u.1)
  ]
  | inr fresh ↦ elim (Bool-cases (j == name)) [
    | inl same ↦ rw (live_keys, lookup, fresh, same) (sym (alive fresh))
    | inr other ↦ rw (live_keys, lookup, fresh, other) (lookup-live_keys now name d u.1)
  ]
]
  where
    dead : expired now k ≡ true → if_live now (some k) ≡ none
    dead old = rw old refl

    alive : expired now k ≡ false → if_live now (some k) ≡ some k
    alive fresh = rw fresh refl
