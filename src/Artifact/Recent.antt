-- ===== src/Artifact/Recent.antt =====
-- What adding an index does to the most recent one, and what any use of an artifact keeps true
-- (shakenfist/artifact.py).
use Prim.Native.String.{String}
use mathlib.Core.Path.{subst}
use shakenfist.Prelude.{
  ℕ, zero, suc, ◌+◌, ◌-◌, ◌<◌, ◌≤◌, ◌≡◌, refl, sym, ap, ◌∙◌, List, [], ◌∷◌, ◌++◌, Option, some,
  Dict, lookup, keys, length, length-append, drop, All, string_eq, nat_eq, beq_refl, beq_ne, ok,
  arith, inl, inr,
}
use shakenfist.Blob.Model.{Blobs}
use shakenfist.Artifact.Order.{sorted, last, last-append, sorted-Ascending, All-drop}
use shakenfist.Artifact.Model.{Artifact, or_default, entry_at, most_recent_index, add_index}
use shakenfist.Artifact.Kept.{with_indexes, newest, drop-keys}
use shakenfist.Artifact.Versions.{
  highest, IsNumbered, stored, keys-append, above, stored-IsNumbered, newest-IsNumbered, renewed,
  Added, add_index-Added,
}

drop-append {ℓ} :
    {A : Type ℓ} (n : ℕ) (xs ys : List A) → n ≤ length xs → drop n (xs ++ ys) ≡ drop n xs ++ ys
drop-append zero xs ys h = refl
drop-append (suc n) [] ys h = absurd (omega (arith, h))
drop-append (suc n) (x ∷ xs) ys h = drop-append n xs ys (omega (arith, h))

-- With a new last item, the newest items are the end of the old ones and the new one.
newest-append :
    (max : ℕ) (d : Dict ℕ String) (item : ℕ × String)
    → (n : ℕ) × (newest max (d ++ item ∷ []) ≡ drop n d ++ item ∷ [])
newest-append zero d item = (0, refl)
newest-append (suc m) d item = (
  length (d ++ item ∷ []) - suc m,
  drop-append (length (d ++ item ∷ []) - suc m) d (item ∷ [])
      (omega (arith, length-append d (item ∷ []))),
)

length-drop {ℓ} : {A : Type ℓ} (n : ℕ) (xs : List A) → length (drop n xs) ≡ length xs - n
length-drop zero xs = omega arith
length-drop (suc n) [] = omega arith
length-drop (suc n) (x ∷ xs) = omega (arith, length-drop n xs)

lookup-end :
    (k : ℕ) (u : String) (d : Dict ℕ String)
    → All (λ i. i < k) (keys d)
    → lookup k (d ++ (k, u) ∷ []) ≡ some u
unfolding lookup keys
lookup-end k u [] h = rw (lookup, beq_refl k) refl
lookup-end k u ((i, v) ∷ d) h =
    rw (lookup, beq_ne i k (λ p. omega (arith, h.0, p))) (lookup-end k u d h.1)

pub most_recent_index-end :
    (a : Artifact) (d : Dict ℕ String) (k : ℕ) (u : String)
    → IsNumbered (with_indexes a (d ++ (k, u) ∷ []))
    → All (λ i. i < k) (keys d)
    → most_recent_index (with_indexes a (d ++ (k, u) ∷ [])) ≡ some (k, u)
unfolding most_recent_index
most_recent_index-end a d k u numbered h =
    rw (most_recent_index, last_key) (ap (entry_at k) (lookup-end k u d h))
  where
    last_key : last (sorted (keys (d ++ (k, u) ∷ []))) ≡ some k
    last_key =
        ap last (sorted-Ascending (keys (d ++ (k, u) ∷ [])) numbered.ascending)
        ∙ ap last (keys-append k u d)
        ∙ last-append (keys d) k

module _ (fuel default : ℕ) (uuid : String) (blobs : Blobs) (a : Artifact) (h : IsNumbered a) where
  pub renewed-IsNumbered : IsNumbered (renewed fuel default uuid blobs a h)
  renewed-IsNumbered =
      newest-IsNumbered (or_default default a.max_versions) (stored uuid a)
        (stored-IsNumbered uuid a h)

  most_recent_index-renewed :
      most_recent_index (renewed fuel default uuid blobs a h) ≡ some (highest a + 1, uuid)
  most_recent_index-renewed =
      let (n, same) =
        newest-append (or_default default a.max_versions) a.indexes (highest a + 1, uuid) in
      ap (λ d. most_recent_index (with_indexes (stored uuid a) d)) same
      ∙ most_recent_index-end (stored uuid a) (drop n a.indexes) (highest a + 1) uuid
          (subst (λ d. IsNumbered (with_indexes (stored uuid a) d)) same renewed-IsNumbered)
          (subst (All (λ i. i < highest a + 1)) (sym (drop-keys n a.indexes))
            (All-drop (λ i. i < highest a + 1) n (keys a.indexes) (above a h)))

  -- Where add_index returns, the entry that it returns is the most recent index of the artifact.
  pub add_index-most_recent_index :
      (blobs' : Blobs) (a' : Artifact) (entry : Option (ℕ × String))
      → add_index fuel default uuid blobs a ≡ ok (blobs', a', entry)
      → most_recent_index a' ≡ entry
  add_index-most_recent_index blobs' a' entry r =
      elim (subst (Added fuel default uuid blobs a h) r
        (add_index-Added fuel default uuid blobs a h)) [
          | inl (same, _, recent, _) ↦ ap most_recent_index same ∙ sym recent
          | inr (new, recent, _) ↦ ap most_recent_index new ∙ most_recent_index-renewed ∙ sym recent
        ]

pub length-newest : (m : ℕ) (d : Dict ℕ String) → length (newest (suc m) d) ≤ suc m
length-newest m d = omega (arith, length-drop (length d - suc m) d)
