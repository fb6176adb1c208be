-- ===== src/Artifact/Runs.antt =====
-- Whatever is done to an artifact, exceptions included, its indexes stay in order and no number is
-- given out twice (shakenfist/artifact.py).
use Prim.Native.String.{String}
use mathlib.Core.Path.{subst}
use shakenfist.Prelude.{
  ℕ, suc, ◌<◌, ◌≤◌, ◌≡◌, refl, sym, List, [], ◌∷◌, Option, some, Dict, lookup, remove, keys, length,
  All, All-map, All-append, drop, length-append, zero, ◌+◌, ◌==◌, string_eq, nat_eq, Result, ok,
  err, ◌>>=◌, arith, Bool-cases, Option-cases, ◌⊎◌, inl, inr,
}
use shakenfist.Blob.Model.{Blobs, BlobError}
use shakenfist.ObjectState.Names.{option_state_name_eq}
use shakenfist.Prelude.Lists
use shakenfist.Artifact.Order.{Ascending, All-drop}
use shakenfist.Artifact.Model.{
  Artifact, ArtifactError, or_default, with_artifact, unref, del_index, delete_old_versions,
  set_max_versions, add_index,
}
use shakenfist.Artifact.Kept.{
  with_indexes, newest, delete_old_versions-newest, delete_old_versions-err,
}
use shakenfist.Artifact.Versions.{
  highest, IsNumbered, stored, stored-IsNumbered, drop-IsNumbered, newest-IsNumbered, newest-drop,
  Added, add_index-Added,
}
use shakenfist.Artifact.Recent.{renewed-IsNumbered, length-newest}

-- What is done to an artifact, with the blobs as they are at the time.
pub data Operation : Type 0 where
  add : String → Blobs → Operation
  delete_index : ℕ → Blobs → Operation
  limit : ℕ → Blobs → Operation

abbrev pub artifact_of : Result ArtifactError (Blobs × Artifact) → Artifact
artifact_of (ok (blobs, a)) = a
artifact_of (err (e, a)) = a

abbrev pub artifact_added : Result ArtifactError (Blobs × Artifact × Option (ℕ × String)) → Artifact
artifact_added (ok (blobs, a, entry)) = a
artifact_added (err (e, a)) = a

All-remove :
    (P : ℕ → Type 0) (i : ℕ) (d : Dict ℕ String) → All P (keys d) → All P (keys (remove i d))
unfolding keys remove
All-remove P i [] h = tt
All-remove P i ((j, u) ∷ d) h = elim (Bool-cases (j == i)) [
  | inl same ↦ rw (remove, same) (All-remove P i d h.1)
  | inr other ↦ rw (remove, other) (h.0, All-remove P i d h.1)
]

Ascending-remove : (i : ℕ) (d : Dict ℕ String) → Ascending (keys d) → Ascending (keys (remove i d))
unfolding keys remove
Ascending-remove i [] h = tt
Ascending-remove i ((j, u) ∷ d) h = elim (Bool-cases (j == i)) [
  | inl same ↦ rw (remove, same) (Ascending-remove i d h.1)
  | inr other ↦ rw (remove, other) (All-remove (λ x. j < x) i d h.0, Ascending-remove i d h.1)
]

pub data Has (item : ℕ × String) : Dict ℕ String → Type 0 where
  first : (d : Dict ℕ String) → Has item (item ∷ d)
  behind : (other : ℕ × String) (d : Dict ℕ String) → Has item d → Has item (other ∷ d)

-- An index that the artifact has with that blob, or one that is above all that it gave out
abbrev pub OldOrNew : Artifact → ℕ × String → Type 0
OldOrNew a item = Has item a.indexes ⊎ (highest a < item.0)

-- The indexes of the artifact at a later time: they ascend up to the highest index given out, which
-- is not lower than it was, and each was there with its blob, or is above those that were given out.
pub record Later (a a' : Artifact) : Type 0 where
  pub numbered : IsNumbered a'
  pub highest_rises : highest a ≤ highest a'
  pub old_or_new : All (OldOrNew a) a'.indexes

All-there : (d : Dict ℕ String) → All (λ item. Has item d) d
All-there [] = tt
All-there (item ∷ d) = (first d, All-map d (λ other h. behind item d h) (All-there d))

All-old : (a : Artifact) → All (OldOrNew a) a.indexes
All-old a = All-map a.indexes (λ item h. inl h) (All-there a.indexes)

at_item :
    (P : ℕ × String → Type 0) (item : ℕ × String) (d : Dict ℕ String)
    → Has item d
    → All P d
    → P item
at_item P item _ (first d) h = h.0
at_item P item _ (behind other d m) h = at_item P item d m h.1

stored-OldOrNew : (uuid : String) (a : Artifact) → All (OldOrNew a) (stored uuid a).indexes
stored-OldOrNew uuid a =
    All-append (OldOrNew a) a.indexes ((highest a + 1, uuid) ∷ []) (All-old a)
      (inr (omega arith), tt)

newest-OldOrNew :
    (a b : Artifact) (max : ℕ)
    → All (OldOrNew a) b.indexes
    → All (OldOrNew a) (newest max b.indexes)
newest-OldOrNew a b max h =
    let (n, same) = newest-drop max b.indexes in
    subst (All (OldOrNew a)) (sym same) (All-drop (OldOrNew a) n b.indexes h)

Later-refl : (a : Artifact) → IsNumbered a → Later a a
Later-refl a h = record { numbered = h; highest_rises = omega arith; old_or_new = All-old a }

Later-trans : (a b c : Artifact) → Later a b → Later b c → Later a c
Later-trans a b c l m = record {
  numbered = m.numbered;
  highest_rises = omega (arith, l.highest_rises, m.highest_rises);
  old_or_new =
      All-map c.indexes
        (λ item o. elim o [
          | inl old ↦ at_item (OldOrNew a) item b.indexes old l.old_or_new
          | inr new ↦ inr (omega (arith, l.highest_rises, new))
        ])
        m.old_or_new;
}

module _ (fuel default : ℕ) where
  -- What is stored after an operation.
  unfoldable pub perform : Operation → Artifact → Artifact
  unfolding add_index del_index set_max_versions
  perform (add uuid blobs) a = artifact_added (add_index fuel default uuid blobs a)
  perform (delete_index i blobs) a = artifact_of (del_index fuel i blobs a)
  perform (limit n blobs) a = artifact_of (set_max_versions fuel default n blobs a)

  unfoldable pub perform_all : List Operation → Artifact → Artifact
  unfolding perform
  perform_all [] a = a
  perform_all (o ∷ operations) a = perform_all operations (perform o a)

  del_index-artifact :
      (i : ℕ) (blobs : Blobs) (a : Artifact)
      → (artifact_of (del_index fuel i blobs a) ≡ a)
        ⊎ (artifact_of (del_index fuel i blobs a) ≡ with_indexes a (remove i a.indexes))
  unfolding del_index
  del_index-artifact i blobs a = elim (Option-cases (lookup i a.indexes)) [
    | inl missing ↦ inl (rw (del_index, missing) refl)
    | inr (u, here) ↦ inr (rw (del_index, here) (either (unref fuel a.in_memory_only u blobs)))
  ]
    where
      a_less : Artifact
      a_less = with_indexes a (remove i a.indexes)

      either :
          (r : Result BlobError Blobs)
          → artifact_of (with_artifact a_less r >>= (λ blobs'. ok (blobs', a_less))) ≡ a_less
      either (ok blobs') = refl
      either (err e) = refl

  set_max_versions-limited :
      (n : ℕ) (blobs : Blobs) (a : Artifact)
      → delete_old_versions fuel default blobs (record a { max_versions = some n })
        ≡ set_max_versions fuel default n blobs a
  unfolding set_max_versions
  set_max_versions-limited n blobs a = refl

  perform-Later : (o : Operation) (a : Artifact) → IsNumbered a → Later a (perform o a)
  unfolding perform
  perform-Later (add uuid blobs) a h =
      go (add_index fuel default uuid blobs a) (add_index-Added fuel default uuid blobs a h)
    where
      go :
          (r : Result ArtifactError (Blobs × Artifact × Option (ℕ × String)))
          → Added fuel default uuid blobs a h r
          → Later a (artifact_added r)
      go (ok (blobs', a', entry)) (inl (same, _, _, _)) =
          subst (Later a) (sym same) (Later-refl a h)
      go (ok (blobs', a', entry)) (inr (new, _, _)) = subst (Later a) (sym new) (record {
        numbered = renewed-IsNumbered fuel default uuid blobs a h;
        highest_rises = omega arith;
        old_or_new =
            newest-OldOrNew a (stored uuid a) (or_default default a.max_versions)
              (stored-OldOrNew uuid a);
      })
      go (err (e, a')) (inl same) = subst (Later a) (sym same) (Later-refl a h)
      go (err (e, a')) (inr (m, new, _)) = subst (Later a) (sym new) (record {
        numbered = drop-IsNumbered m (stored uuid a) (stored-IsNumbered uuid a h);
        highest_rises = omega arith;
        old_or_new = All-drop (OldOrNew a) m (stored uuid a).indexes (stored-OldOrNew uuid a);
      })
  perform-Later (delete_index i blobs) a h = elim (del_index-artifact i blobs a) [
    | inl same ↦ subst (Later a) (sym same) (Later-refl a h)
    | inr less ↦ subst (Later a) (sym less) (record {
      numbered = record {
        ascending = Ascending-remove i a.indexes h.ascending;
        below = All-remove (λ j. j ≤ highest a) i a.indexes h.below;
      };
      highest_rises = omega arith;
      old_or_new = Lists.All-remove (OldOrNew a) i a.indexes (All-old a);
    })
  ]
  perform-Later (limit n blobs) a h =
      subst (λ r. Later a (artifact_of r)) (set_max_versions-limited n blobs a)
        (go (delete_old_versions fuel default blobs limited) refl)
    where
      limited : Artifact
      limited = record a { max_versions = some n }

      numbered : IsNumbered limited
      numbered = record { ascending = h.ascending; below = h.below }

      go :
          (r : Result ArtifactError (Blobs × Artifact))
          → delete_old_versions fuel default blobs limited ≡ r
          → Later a (artifact_of r)
      go (ok (blobs', a')) r =
          subst (Later a)
            (sym (
              delete_old_versions-newest fuel default blobs limited numbered.ascending blobs' a' r))
            (record {
              numbered = newest-IsNumbered n limited numbered;
              highest_rises = omega arith;
              old_or_new = newest-OldOrNew a a n (All-old a);
            })
      go (err (e, a')) r =
          let (m, less) =
            delete_old_versions-err fuel default blobs limited numbered.ascending e a' r in
          subst (Later a) (sym less) (record {
            numbered = drop-IsNumbered m limited numbered;
            highest_rises = omega arith;
            old_or_new = All-drop (OldOrNew a) m a.indexes (All-old a);
          })

  -- After any operations on an artifact whose indexes ascend up to the highest index given out,
  -- where each may return or raise and finds the blobs as it may, they still do; the highest index
  -- has not fallen; and each index of the artifact was there before, with the same blob, or is above
  -- every index that had been given out. So an index that is gone does not come back.
  pub perform_all-Later :
      (operations : List Operation) (a : Artifact)
      → IsNumbered a
      → Later a (perform_all operations a)
  unfolding perform_all
  perform_all-Later [] a h = Later-refl a h
  perform_all-Later (o ∷ operations) a h =
      let now = perform-Later o a h in
      Later-trans a (perform o a) (perform_all operations (perform o a)) now
        (perform_all-Later operations (perform o a) now.numbered)

  -- The bound on the number of indexes after add_index
  abbrev pub Bounded :
      ℕ → Artifact → Result ArtifactError (Blobs × Artifact × Option (ℕ × String)) → Type 0
  Bounded max a (ok (blobs', a', entry)) = (a' ≡ a) ⊎ (length a'.indexes ≤ max)
  Bounded max a (err (e, a')) = length a'.indexes ≤ length a.indexes + 1

  length-drop_le : (n : ℕ) (d : Dict ℕ String) → length (drop n d) ≤ length d
  length-drop_le zero d = omega arith
  length-drop_le (suc n) [] = omega arith
  length-drop_le (suc n) (item ∷ d) = omega (arith, length-drop_le n d)

  -- On an artifact whose indexes ascend up to the highest one given out, and whose max_versions is
  -- not 0: add_index that returns either changes nothing or leaves at most max_versions indexes; one
  -- that raises leaves at most one index more than there were.
  pub add_index-Bounded :
      (uuid : String) (blobs : Blobs) (a : Artifact) (m : ℕ)
      → IsNumbered a
      → or_default default a.max_versions ≡ suc m
      → Bounded (suc m) a (add_index fuel default uuid blobs a)
  add_index-Bounded uuid blobs a m h max =
      go (add_index fuel default uuid blobs a) (add_index-Added fuel default uuid blobs a h)
    where
      stored_length : length (stored uuid a).indexes ≡ length a.indexes + 1
      stored_length = omega (arith, length-append a.indexes ((highest a + 1, uuid) ∷ []))

      go :
          (r : Result ArtifactError (Blobs × Artifact × Option (ℕ × String)))
          → Added fuel default uuid blobs a h r
          → Bounded (suc m) a r
      go (ok (blobs', a', entry)) (inl (same, _, _, _)) = inl same
      go (ok (blobs', a', entry)) (inr (new, _, _)) = inr (
          subst (λ x. length x.indexes ≤ suc m) (sym new)
            (subst (λ n. length (newest n (stored uuid a).indexes) ≤ suc m) (sym max)
              (length-newest m (stored uuid a).indexes)))
      go (err (e, a')) (inl same) =
          subst (λ x. length x.indexes ≤ length a.indexes + 1) (sym same) (omega arith)
      go (err (e, a')) (inr (n, new, _)) =
          subst (λ x. length x.indexes ≤ length a.indexes + 1) (sym new)
            (omega (arith, length-drop_le n (stored uuid a).indexes, stored_length))
