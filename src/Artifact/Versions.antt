-- ===== src/Artifact/Versions.antt =====
-- The indexes of an artifact are numbered upwards, and adding one makes it the most recent
-- (shakenfist/artifact.py).
use Prim.Native.String.{String}
use text.Mathlib.TextEquality.{eq_iff}
use mathlib.Core.Bool.{false≢true}
use mathlib.Core.Path.{subst}
use shakenfist.Prelude.{
  ℕ, zero, suc, ◌+◌, ◌-◌, ◌<◌, ◌≤◌, ◌≡◌, ◌≢◌, false, refl, sym, ap, ◌∙◌, [], ◌∷◌, ◌++◌, Option,
  none, some, Dict, lookup, insert, keys, length, drop, All, All-map, All-append, ◌==◌, string_eq,
  nat_eq, beq_ne, if◌then◌else◌, Result, ok, err, bind-ok, bind-err, ok-injective, ◌>>=◌, arith,
  Bool-cases, Option-cases, ◌⊎◌, inl, inr,
}
use shakenfist.Blob.Model.{Blob, Blobs, BlobError, ref_count_inc}
use shakenfist.Artifact.Order.{Ascending, Ascending-append, Ascending-drop, All-drop}
use shakenfist.Artifact.Model.{
  Artifact, ArtifactError, with_artifact, or_default, most_recent_index, delete_old_versions,
  store_index, compare_index, add_index, same_content,
}
use shakenfist.Artifact.Unneeded.{
  checksum, checksum-lookup, Unneeded, same_content-true, same_content-false,
}
use shakenfist.Artifact.Kept.{
  with_indexes, newest, drop-keys, delete_old_versions-newest, delete_old_versions-err,
  with_artifact-err,
}

abbrev or_default_entry : String → Option (ℕ × String) → String
or_default_entry d none = d
or_default_entry d (some (i, uuid)) = uuid

none≢some {ℓ} : {A : Type ℓ} {x : A} → ◌≡◌ {A = Option A} none (some x) → ⊥
none≢some h = cc

abbrev pub highest : Artifact → ℕ
highest a = or_default 0 a.highest_index

-- The indexes ascend, and none is above the highest index given out.
pub record IsNumbered (a : Artifact) : Type 0 where
  pub ascending : Ascending (keys a.indexes)
  pub below : All (λ i. i ≤ highest a) (keys a.indexes)

-- The artifact with one more index.
abbrev pub stored : String → Artifact → Artifact
stored uuid a = record a {
  highest_index = some (highest a + 1);
  indexes = a.indexes ++ (highest a + 1, uuid) ∷ [];
}

insert-new :
    (k : ℕ) (u : String) (d : Dict ℕ String)
    → All (λ i. i < k) (keys d)
    → insert k u d ≡ d ++ (k, u) ∷ []
unfolding insert keys
insert-new k u [] h = refl
insert-new k u ((i, v) ∷ d) h =
    rw (insert, beq_ne i k (λ p. omega (arith, h.0, p)))
      (ap (λ xs. (i, v) ∷ xs) (insert-new k u d h.1))

pub keys-append :
    (k : ℕ) (u : String) (d : Dict ℕ String) → keys (d ++ (k, u) ∷ []) ≡ keys d ++ k ∷ []
unfolding keys
keys-append k u [] = refl
keys-append k u ((i, v) ∷ d) = ap (λ xs. i ∷ xs) (keys-append k u d)

pub above : (a : Artifact) → IsNumbered a → All (λ i. i < highest a + 1) (keys a.indexes)
above a h = All-map (keys a.indexes) (λ i b. omega (arith, b)) h.below

pub stored-IsNumbered : (uuid : String) (a : Artifact) → IsNumbered a → IsNumbered (stored uuid a)
stored-IsNumbered uuid a h = record {
  ascending =
      subst Ascending (sym (keys-append (highest a + 1) uuid a.indexes))
        (Ascending-append (keys a.indexes) (highest a + 1) h.ascending (above a h));
  below = subst (All (λ i. i ≤ highest a + 1)) (sym (keys-append (highest a + 1) uuid a.indexes)) (
      All-append (λ i. i ≤ highest a + 1) (keys a.indexes) ((highest a + 1) ∷ [])
        (All-map (keys a.indexes) (λ i b. omega (arith, b)) h.below) (omega arith, tt));
}

pub drop-IsNumbered :
    (n : ℕ) (a : Artifact) → IsNumbered a → IsNumbered (with_indexes a (drop n a.indexes))
drop-IsNumbered n a h = record {
  ascending =
      subst Ascending (sym (drop-keys n a.indexes)) (Ascending-drop n (keys a.indexes) h.ascending);
  below =
      subst (All (λ i. i ≤ highest a)) (sym (drop-keys n a.indexes))
        (All-drop (λ i. i ≤ highest a) n (keys a.indexes) h.below);
}

pub newest-drop : (max : ℕ) (d : Dict ℕ String) → (n : ℕ) × (newest max d ≡ drop n d)
newest-drop zero d = (0, refl)
newest-drop (suc m) d = (length d - suc m, refl)

pub newest-IsNumbered :
    (max : ℕ) (a : Artifact) → IsNumbered a → IsNumbered (with_indexes a (newest max a.indexes))
newest-IsNumbered max a h =
    let (n, same) = newest-drop max a.indexes in
    subst (λ d. IsNumbered (with_indexes a d)) (sym same) (drop-IsNumbered n a h)

module _ (fuel default : ℕ) (uuid : String) (blobs : Blobs) (a : Artifact) (h : IsNumbered a) where
  abbrev pub versions : ℕ
  versions = or_default default a.max_versions

  -- The artifact with one more index, and only the newest kept.
  abbrev pub renewed : Artifact
  renewed = with_indexes (stored uuid a) (newest versions (stored uuid a).indexes)

  abbrev counted : Result BlobError Blobs
  counted = if a.in_memory_only then ok blobs else ref_count_inc uuid 1 blobs

  pub store_index-stored : store_index fuel default uuid blobs a ≡ (
      with_artifact (stored uuid a) counted >>= (λ blobs'.
        delete_old_versions fuel default blobs' (stored uuid a)
        >>= (λ kept. ok (kept.0, kept.1, some (highest a + 1, uuid)))))
  unfolding store_index
  store_index-stored =
      ap
        (λ d. with_artifact (record (stored uuid a) { indexes = d }) counted >>= (λ blobs'.
          delete_old_versions fuel default blobs' (record (stored uuid a) { indexes = d })
          >>= (λ kept. ok (kept.0, kept.1, some (highest a + 1, uuid)))))
        (insert-new (highest a + 1) uuid a.indexes (above a h))

  store_index-ok :
      (blobs' : Blobs) (a' : Artifact) (entry : Option (ℕ × String))
      → store_index fuel default uuid blobs a ≡ ok (blobs', a', entry)
      → (a' ≡ renewed) × (entry ≡ some (highest a + 1, uuid))
  store_index-ok blobs' a' entry r =
      let (b1, k1, r1) =
        bind-ok (with_artifact (stored uuid a) counted) _ (sym store_index-stored ∙ r) in
      let (kept, k2, r2) = bind-ok (delete_old_versions fuel default b1 (stored uuid a)) _ r1 in
      (
        ap (λ p. p.1) (sym (ok-injective r2))
            ∙ delete_old_versions-newest fuel default b1 (stored uuid a)
                (stored-IsNumbered uuid a h).ascending kept.0 kept.1 k2,
        ap (λ p. p.2) (sym (ok-injective r2)),
      )

  store_index-err :
      (e : BlobError) (a' : Artifact)
      → store_index fuel default uuid blobs a ≡ err (e, a')
      → (m : ℕ) × (a' ≡ with_indexes (stored uuid a) (drop m (stored uuid a).indexes))
  store_index-err e a' r =
      elim (bind-err (with_artifact (stored uuid a) counted) _ (sym store_index-stored ∙ r)) [
        | inl raised ↦ (0, sym (with_artifact-err (stored uuid a) counted e a' raised).1)
        | inr (b1, k1, r1) ↦
            elim (bind-err (delete_old_versions fuel default b1 (stored uuid a)) _ r1) [
              | inl raised ↦
                  delete_old_versions-err fuel default b1 (stored uuid a)
                    (stored-IsNumbered uuid a h).ascending e a' raised
              | inr (kept, k2, r2) ↦ absurd (ok-err (kept.0, kept.1, some (highest a + 1, uuid)) r2)
            ]
      ]
    where
      ok-err :
          (x : Blobs × Artifact × Option (ℕ × String))
          → ◌≡◌ {A = Result ArtifactError (Blobs × Artifact × Option (ℕ × String))}
              (ok x)
              (err (e, a'))
          → ⊥
      ok-err x p = cc

  -- add_index either changes nothing and returns the most recent entry, that one having the blob or
  -- its content already, or stores an index, and then it has not.
  abbrev pub Added : Result ArtifactError (Blobs × Artifact × Option (ℕ × String)) → Type 0
  Added (ok (blobs', a', entry)) =
      (a' ≡ a) × (blobs' ≡ blobs) × (entry ≡ most_recent_index a) × Unneeded uuid blobs a
      ⊎ (a' ≡ renewed) × (entry ≡ some (highest a + 1, uuid)) × (Unneeded uuid blobs a → ⊥)
  Added (err (e, a')) =
      (a' ≡ a)
      ⊎ ((m : ℕ) × (a' ≡ with_indexes (stored uuid a) (drop m (stored uuid a).indexes))
          × (Unneeded uuid blobs a → ⊥))

  store_index-Added : (Unneeded uuid blobs a → ⊥) → Added (store_index fuel default uuid blobs a)
  store_index-Added needed = go (store_index fuel default uuid blobs a) refl
    where
      go :
          (r : Result ArtifactError (Blobs × Artifact × Option (ℕ × String)))
          → store_index fuel default uuid blobs a ≡ r
          → Added r
      go (ok (blobs', a', entry)) r =
          let (new, last) = store_index-ok blobs' a' entry r in inr (new, last, needed)
      go (err (e, a')) r = let (m, new) = store_index-err e a' r in inr (m, new, needed)

  compare_index-Added :
      (mri : Option (ℕ × String)) (old_sha512 : Option String)
      → mri ≡ most_recent_index a
      → ((sha512 : String)
          → sha512 ≢ ""
          → old_sha512 ≡ some sha512
          → checksum uuid blobs ≡ some sha512
          → Unneeded uuid blobs a)
      → (((sha512 : String)
            → sha512 ≢ ""
            → old_sha512 ≡ some sha512
            → checksum uuid blobs ≡ some sha512
            → ⊥)
          → Unneeded uuid blobs a
          → ⊥)
      → Added (compare_index fuel default mri old_sha512 uuid blobs a)
  unfolding compare_index
  compare_index-Added mri old_sha512 recent hit miss = elim (Option-cases (lookup uuid blobs)) [
    | inl missing ↦ rw (compare_index, missing) (inl refl)
    | inr (new_blob, here) ↦ elim (Bool-cases (same_content old_sha512 new_blob.sha512)) [
      | inl same ↦
          rw (compare_index, here, same)
            (let (sha512, there, p, q) = same_content-true old_sha512 new_blob.sha512 same in
              inl (
                refl,
                refl,
                recent,
                hit sha512 there p (checksum-lookup uuid blobs new_blob here ∙ q),
              ))
      | inr other ↦
          rw (compare_index, here, other)
            (store_index-Added (
              miss (λ sha512 there p q.
                same_content-false old_sha512 new_blob.sha512 sha512 other there p
                  (sym (checksum-lookup uuid blobs new_blob here) ∙ q))))
    ]
  ]

  Unneeded-apart :
      (i : ℕ) (old_uuid : String) (b : Blob)
      → most_recent_index a ≡ some (i, old_uuid)
      → lookup old_uuid blobs ≡ some b
      → (old_uuid == uuid) ≡ false
      → ((sha512 : String)
          → sha512 ≢ ""
          → b.sha512 ≡ some sha512
          → checksum uuid blobs ≡ some sha512
          → ⊥)
      → Unneeded uuid blobs a
      → ⊥
  Unneeded-apart i old_uuid b recent here other apart u =
      let e = ap (λ o. or_default_entry old_uuid o) (sym u.recent ∙ recent) in
      elim u.same [
        | inl same ↦ false≢true (sym other ∙ (eq_iff old_uuid uuid).1 (sym e ∙ same))
        | inr (sha512, there, p, q) ↦
            apart sha512 there
              (sym (checksum-lookup old_uuid blobs b here) ∙ ap (λ v. checksum v blobs) (sym e) ∙ p)
              q
      ]

  -- For an artifact whose indexes ascend, none above the highest one given out: if its most recent
  -- index has the blob, or a blob of the same checksum, add_index returns that entry and changes
  -- nothing; if not, it gives the next index to the blob and keeps only the newest max_versions
  -- indexes, or all of them for 0; and where it raises, nothing has changed, or the new index is
  -- stored already and some of the oldest may be gone.
  pub add_index-Added : Added (add_index fuel default uuid blobs a)
  unfolding add_index
  add_index-Added = elim (Option-cases (most_recent_index a)) [
    | inl nothing ↦
        rw (add_index, nothing)
          (compare_index-Added none none (sym nothing) (λ sha512 there p q. absurd (none≢some p))
            (λ _ u. none≢some (sym nothing ∙ u.recent)))
    | inr ((i, old_uuid), recent) ↦ elim (Option-cases (lookup old_uuid blobs)) [
      | inl missing ↦ rw (add_index, recent, missing) (inl refl)
      | inr (old_blob, here) ↦ elim (Bool-cases (old_uuid == uuid)) [
        | inl same ↦
            rw (add_index, recent, here, same)
              (inl (
                refl,
                refl,
                sym recent,
                record {
                  index = i;
                  old_uuid = old_uuid;
                  recent = recent;
                  same = inl ((eq_iff old_uuid uuid).0 same);
                },
              ))
        | inr other ↦
            rw (add_index, recent, here, other)
              (compare_index-Added (some (i, old_uuid)) old_blob.sha512 (sym recent)
                (λ sha512 there p q. record {
                  index = i;
                  old_uuid = old_uuid;
                  recent = recent;
                  same = inr (sha512, there, checksum-lookup old_uuid blobs old_blob here ∙ p, q);
                })
                (λ apart u. Unneeded-apart i old_uuid old_blob recent here other apart u))
      ]
    ]
  ]
