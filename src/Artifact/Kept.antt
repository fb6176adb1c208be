-- ===== src/Artifact/Kept.antt =====
-- Which indexes delete_old_versions keeps (shakenfist/artifact.py).
use Prim.Native.String.{String}
use mathlib.Core.Path.{subst}
use shakenfist.Prelude.{
  ℕ, zero, suc, ◌-◌, ◌<◌, ◌≤◌, ◌≡◌, refl, sym, ap, ◌∙◌, true, false, [], ◌∷◌, some, Dict, lookup,
  remove, keys, ltb, length, take, drop, All, string_eq, nat_eq, beq_refl, beq_ne, Result, ok, err,
  bind-ok, bind-err, ok-injective, err-injective, ◌>>=◌, arith, Bool-cases, inl, inr,
}
use shakenfist.Blob.Model.{Blobs, BlobError}
use shakenfist.Artifact.Order.{but_last, Ascending, sorted-Ascending}
use shakenfist.Artifact.Model.{
  Artifact, ArtifactError, with_artifact, or_default, unref, del_index, del_each,
  delete_old_versions,
}

abbrev pub with_indexes : Artifact → Dict ℕ String → Artifact
with_indexes a indexes = record a { indexes = indexes }

-- The last `max` items, or all of them for 0.
abbrev pub newest : ℕ → Dict ℕ String → Dict ℕ String
newest zero d = d
newest (suc m) d = drop (length d - suc m) d

remove-missing : (k : ℕ) (d : Dict ℕ String) → All (λ i. k < i) (keys d) → remove k d ≡ d
unfolding remove keys
remove-missing k [] h = refl
remove-missing k ((i, u) ∷ d) h =
    rw (beq_ne i k (λ p. omega (arith, h.0, p)), remove-missing k d h.1) refl

remove-first :
    (k : ℕ) (u : String) (d : Dict ℕ String) → All (λ i. k < i) (keys d) → remove k ((k, u) ∷ d) ≡ d
unfolding remove
remove-first k u d h = rw (remove, beq_refl k) (remove-missing k d h)

lookup-first : (k : ℕ) (u : String) (d : Dict ℕ String) → lookup k ((k, u) ∷ d) ≡ some u
unfolding lookup
lookup-first k u d = rw (lookup, beq_refl k) refl

length-keys : (d : Dict ℕ String) → length (keys d) ≡ length d
unfolding keys
length-keys [] = refl
length-keys ((i, u) ∷ d) = ap suc (length-keys d)

with_artifact-ok {ℓ} :
    {A : Type ℓ} (a : Artifact) (m : Result BlobError A) (x : A)
    → with_artifact a m ≡ ok x
    → m ≡ ok x
with_artifact-ok a (ok y) x h = ap ok (ok-injective h)
with_artifact-ok a (err e) x h = cc

pub with_artifact-err {ℓ} :
    {A : Type ℓ} (a : Artifact) (m : Result BlobError A) (e : BlobError) (b : Artifact)
    → with_artifact a m ≡ err (e, b)
    → (m ≡ err e) × (a ≡ b)
with_artifact-err a (ok y) e b h = cc
with_artifact-err a (err d) e b h =
    (ap (λ p. err p.0) (err-injective h), ap (λ p. p.1) (err-injective h))

module _ (fuel : ℕ) where
  -- Deleting the first index leaves the others.
  del_index-first :
      (i : ℕ) (u : String) (d : Dict ℕ String) (blobs : Blobs) (a : Artifact)
      → All (λ j. i < j) (keys d)
      → del_index fuel i blobs (with_indexes a ((i, u) ∷ d)) ≡ (
          with_artifact (with_indexes a d) (unref fuel a.in_memory_only u blobs)
          >>= (λ blobs'. ok (blobs', with_indexes a d)))
  unfolding del_index
  del_index-first i u d blobs a above =
      rw (del_index, lookup-first i u d, remove-first i u d above) refl

  del_each-drop :
      (n : ℕ) (d : Dict ℕ String) (blobs blobs' : Blobs) (a a' : Artifact)
      → Ascending (keys d)
      → del_each fuel (take n (keys d)) blobs (with_indexes a d) ≡ ok (blobs', a')
      → a' ≡ with_indexes a (drop n d)
  unfolding del_each keys
  del_each-drop zero d blobs blobs' a a' up h = ap (λ p. p.1) (sym (ok-injective h))
  del_each-drop (suc n) [] blobs blobs' a a' up h = ap (λ p. p.1) (sym (ok-injective h))
  del_each-drop (suc n) ((i, u) ∷ d) blobs blobs' a a' up h =
      let (next, first, more) =
        bind-ok (del_index fuel i blobs (with_indexes a ((i, u) ∷ d))) _ h in
      let (left, released, last) =
        bind-ok (with_artifact (with_indexes a d) (unref fuel a.in_memory_only u blobs)) _
          (sym (del_index-first i u d blobs a up.0) ∙ first) in
      del_each-drop n d left blobs' a a' up.1 (
        subst (λ p. del_each fuel (take n (keys d)) p.0 p.1 ≡ ok (blobs', a'))
          (sym (ok-injective last)) more)

  del_each-err :
      (n : ℕ) (d : Dict ℕ String) (blobs : Blobs) (e : BlobError) (a a' : Artifact)
      → Ascending (keys d)
      → del_each fuel (take n (keys d)) blobs (with_indexes a d) ≡ err (e, a')
      → (m : ℕ) × (a' ≡ with_indexes a (drop m d))
  unfolding del_each keys
  del_each-err zero d blobs e a a' up h = cc
  del_each-err (suc n) [] blobs e a a' up h = cc
  del_each-err (suc n) ((i, u) ∷ d) blobs e a a' up h =
      elim (bind-err (del_index fuel i blobs (with_indexes a ((i, u) ∷ d))) _ h) [
        | inl failed ↦
            elim (bind-err (with_artifact (with_indexes a d) (unref fuel a.in_memory_only u blobs))
              _ (sym (del_index-first i u d blobs a up.0) ∙ failed)) [
                | inl r ↦
                    (1, sym (with_artifact-err _ (unref fuel a.in_memory_only u blobs) e a' r).1)
                | inr (left, released, last) ↦ absurd (ok-err (left, with_indexes a d) last)
              ]
        | inr (next, first, more) ↦
            let (left, released, last) =
              bind-ok (with_artifact (with_indexes a d) (unref fuel a.in_memory_only u blobs)) _
                (sym (del_index-first i u d blobs a up.0) ∙ first) in
            let (m, same) = del_each-err n d left e a a' up.1 (
              subst (λ p. del_each fuel (take n (keys d)) p.0 p.1 ≡ err (e, a'))
                (sym (ok-injective last)) more) in
            (suc m, same)
      ]
    where
      ok-err :
          (x : Blobs × Artifact)
          → ◌≡◌ {A = Result ArtifactError (Blobs × Artifact)} (ok x) (err (e, a'))
          → ⊥
      ok-err x p = cc

pub drop-keys : (n : ℕ) (d : Dict ℕ String) → keys (drop n d) ≡ drop n (keys d)
unfolding keys
drop-keys zero d = refl
drop-keys (suc n) [] = refl
drop-keys (suc n) ((i, u) ∷ d) = drop-keys n d

newest-few : (max : ℕ) (d : Dict ℕ String) → length d ≤ max → newest max d ≡ d
newest-few zero d h = refl
newest-few (suc m) d h = ap (λ n. drop n d) (no_more (length d) (suc m) h)
  where
    no_more : (x y : ℕ) → x ≤ y → x - y ≡ 0
    no_more x y h = omega (arith, h)

-- What is deleted is a prefix of the indexes.
but_last-take :
    (max : ℕ) (d : Dict ℕ String)
    → (n : ℕ) × (but_last max (keys d) ≡ take n (keys d)) × (drop n d ≡ newest max d)
unfolding but_last
but_last-take zero d = (0, refl, refl)
but_last-take (suc m) d =
    (length d - suc m, ap (λ n. take (n - suc m) (keys d)) (length-keys d), refl)

module _ (fuel default : ℕ) (blobs : Blobs) (a : Artifact) (up : Ascending (keys a.indexes)) where
  abbrev limit : ℕ
  limit = or_default default a.max_versions

  delete_old_versions-prefix :
      (ltb limit (length (keys a.indexes)) ≡ true)
      → (n : ℕ) × (delete_old_versions fuel default blobs a
          ≡ del_each fuel (take n (keys a.indexes)) blobs a)
        × (drop n a.indexes ≡ newest limit a.indexes)
  unfolding delete_old_versions
  delete_old_versions-prefix more =
      let (n, prefix, rest) = but_last-take limit a.indexes in
      (
        n,
        rw (delete_old_versions, more)
            (ap (λ is. del_each fuel (but_last limit is) blobs a)
                (sorted-Ascending (keys a.indexes) up)
              ∙ ap (λ is. del_each fuel is blobs a) prefix),
        rest,
      )

  delete_old_versions-few :
      ltb limit (length (keys a.indexes)) ≡ false
      → delete_old_versions fuel default blobs a ≡ ok (blobs, a)
  unfolding delete_old_versions
  delete_old_versions-few few = rw (delete_old_versions, few) refl

  -- delete_old_versions keeps the newest indexes.
  pub delete_old_versions-newest :
      (blobs' : Blobs) (a' : Artifact)
      → delete_old_versions fuel default blobs a ≡ ok (blobs', a')
      → a' ≡ with_indexes a (newest limit a.indexes)
  delete_old_versions-newest blobs' a' h = elim (Bool-cases (ltb limit (length (keys a.indexes)))) [
    | inl more ↦
        let (n, same, rest) = delete_old_versions-prefix more in
        del_each-drop fuel n a.indexes blobs blobs' a a' up (sym same ∙ h)
        ∙ ap (with_indexes a) rest
    | inr few ↦
        ap (λ p. p.1) (sym (ok-injective (sym (delete_old_versions-few few) ∙ h)))
        ∙ ap (with_indexes a) (sym (newest-few limit a.indexes (below few)))
  ]
    where
      below : ltb limit (length (keys a.indexes)) ≡ false → length a.indexes ≤ limit
      below few = ground (arith, length-keys a.indexes)

  pub delete_old_versions-err :
      (e : BlobError) (a' : Artifact)
      → delete_old_versions fuel default blobs a ≡ err (e, a')
      → (m : ℕ) × (a' ≡ with_indexes a (drop m a.indexes))
  delete_old_versions-err e a' h = elim (Bool-cases (ltb limit (length (keys a.indexes)))) [
    | inl more ↦
        let (n, same, rest) = delete_old_versions-prefix more in
        del_each-err fuel n a.indexes blobs e a a' up (sym same ∙ h)
    | inr few ↦ absurd (ok-err (sym (delete_old_versions-few few) ∙ h))
  ]
    where
      ok-err : ◌≡◌ {A = Result ArtifactError (Blobs × Artifact)} (ok (blobs, a)) (err (e, a')) → ⊥
      ok-err p = cc
