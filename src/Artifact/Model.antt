-- ===== src/Artifact/Model.antt =====
-- The versions of an artifact (shakenfist/artifact.py): an index names a blob, and an artifact keeps
-- as many of its newest indexes as `max_versions` says.
use Prim.Native.String.{String}
use shakenfist.Prelude.{
  ℕ, ◌+◌, Bool, false, not, ◌&&◌, List, [], ◌∷◌, Option, none, some, Dict, lookup, insert, remove,
  keys, contains, ltb, length, ◌==◌, string_eq, nat_eq, if◌then◌else◌, Result, ok, err, ◌>>=◌,
}
use shakenfist.Blob.Model.{Blobs, BlobError, blob_missing, ref_count_inc, ref_count_dec, dec_each}
use shakenfist.Artifact.Order.{sorted, last, but_last}

-- The attributes of an artifact: `indexes` has the blob of each `index_…`.
pub record Artifact : Type 0 where
  pub in_memory_only : Bool
  pub max_versions : Option ℕ
  pub highest_index : Option ℕ
  pub indexes : Dict ℕ String

-- An exception, with the artifact as it is stored when it is raised.
abbrev pub ArtifactError : Type 0
ArtifactError = BlobError × Artifact

abbrev pub with_artifact {ℓ} : {A : Type ℓ} → Artifact → Result BlobError A → Result ArtifactError A
with_artifact a (ok x) = ok x
with_artifact a (err e) = err (e, a)

abbrev pub or_default : ℕ → Option ℕ → ℕ
or_default default none = default
or_default default (some n) = n

-- the entry of an index, with its number
abbrev pub entry_at : ℕ → Option String → Option (ℕ × String)
entry_at i none = none
entry_at i (some uuid) = some (i, uuid)

-- most_recent_index; `none` is {'index': 0}
unfoldable pub most_recent_index : Artifact → Option (ℕ × String)
unfolding sorted
most_recent_index a = elim (last (sorted (keys a.indexes))) [
  | none ↦ none
  | some i ↦ entry_at i (lookup i a.indexes)
]

-- the blobs of get_all_indexes, in the order of the indexes
unfoldable pub blobs_of : Dict ℕ String → List ℕ → List String
blobs_of indexes [] = []
blobs_of indexes (i ∷ is) = elim (lookup i indexes) [
  | none ↦ blobs_of indexes is
  | some uuid ↦ uuid ∷ blobs_of indexes is
]

-- `fuel` bounds the depth of the blobs' references.
module _ (fuel : ℕ) where
  -- b = Blob.from_db(uuid); if b and not self.in_memory_only: b.ref_count_dec(self)
  unfoldable pub unref : Bool → String → Blobs → Result BlobError Blobs
  unfolding ref_count_dec
  unref in_memory_only uuid blobs =
      if contains uuid blobs && not in_memory_only
      then ref_count_dec fuel 1 uuid blobs
      else ok blobs

  -- del_index
  unfoldable pub del_index : ℕ → Blobs → Artifact → Result ArtifactError (Blobs × Artifact)
  unfolding unref
  del_index index blobs a = elim (lookup index a.indexes) [
    | none ↦ ok (blobs, a)
    | some blob_uuid ↦
        let a' = record a { indexes = remove index a.indexes } in
        with_artifact a' (unref a.in_memory_only blob_uuid blobs) >>= (λ blobs'. ok (blobs', a'))
  ]

  -- for i in …: self.del_index(i)
  unfoldable pub del_each : List ℕ → Blobs → Artifact → Result ArtifactError (Blobs × Artifact)
  unfolding del_index
  del_each [] blobs a = ok (blobs, a)
  del_each (i ∷ is) blobs a = do next ← del_index i blobs a; del_each is next.0 next.1

  -- the end of delete, on the blobs of the indexes
  unfoldable pub delete_references : Blobs → Artifact → Result BlobError Blobs
  unfolding blobs_of sorted dec_each ref_count_dec
  delete_references blobs a =
      if a.in_memory_only
      then ok blobs
      else dec_each (ref_count_dec fuel 1) (blobs_of a.indexes (sorted (keys a.indexes))) blobs

-- old_checksums and new_checksums have a sha512 each, and it is the same
abbrev pub same_content : Option String → Option String → Bool
same_content (some x) (some y) = not (x == "") && x == y
same_content _ _ = false

-- `default` is ARTIFACT_MAX_VERSIONS_DEFAULT.
module _ (fuel default : ℕ) where
  -- delete_old_versions
  unfoldable pub delete_old_versions : Blobs → Artifact → Result ArtifactError (Blobs × Artifact)
  unfolding del_each but_last sorted
  delete_old_versions blobs a =
      let indexes = keys a.indexes in
      let max = or_default default a.max_versions in
      if ltb max (length indexes)
      then del_each fuel (but_last max (sorted indexes)) blobs a
      else ok (blobs, a)

  -- the setter of max_versions
  unfoldable pub set_max_versions : ℕ → Blobs → Artifact → Result ArtifactError (Blobs × Artifact)
  unfolding delete_old_versions
  set_max_versions value blobs a =
      delete_old_versions blobs (record a { max_versions = some value })

  -- add_index, from the comparison of the checksums
  unfoldable pub store_index :
      String → Blobs → Artifact → Result ArtifactError (Blobs × Artifact × Option (ℕ × String))
  unfolding delete_old_versions
  store_index blob_uuid blobs a =
      let index = or_default 0 a.highest_index + 1 in
      let a' = record a {
        highest_index = some index;
        indexes = insert index blob_uuid a.indexes;
      } in
      do
        blobs' ←
            with_artifact a'
              (if a.in_memory_only then ok blobs else ref_count_inc blob_uuid 1 blobs)
        kept ← delete_old_versions blobs' a'
        ok (kept.0, kept.1, some (index, blob_uuid))

  -- add_index, once the most recent index and its checksum are known
  unfoldable pub compare_index :
      Option (ℕ × String)
      → Option String
      → String
      → Blobs
      → Artifact
      → Result ArtifactError (Blobs × Artifact × Option (ℕ × String))
  unfolding store_index
  compare_index mri old_sha512 blob_uuid blobs a = elim (lookup blob_uuid blobs) [
    | none ↦ err (blob_missing, a)
    | some new_blob ↦
        if same_content old_sha512 new_blob.sha512
        then ok (blobs, a, mri)
        else store_index blob_uuid blobs a
  ]

  -- add_index, with the entry that it returns
  unfoldable pub add_index :
      String → Blobs → Artifact → Result ArtifactError (Blobs × Artifact × Option (ℕ × String))
  unfolding most_recent_index compare_index
  add_index blob_uuid blobs a = elim (most_recent_index a) [
    | none ↦ compare_index none none blob_uuid blobs a
    | some (i, old_uuid) ↦ elim (lookup old_uuid blobs) [
      | none ↦ err (blob_missing, a)
      | some old_blob ↦
          if old_uuid == blob_uuid
          then ok (blobs, a, some (i, old_uuid))
          else compare_index (some (i, old_uuid)) old_blob.sha512 blob_uuid blobs a
    ]
  ]

-- resolve_to_blob; its test for a deleted blob compares a State object with a text, and never holds
unfoldable pub resolve_to_blob : Blobs → Artifact → Option String
unfolding most_recent_index
resolve_to_blob blobs a = elim (most_recent_index a) [
  | none ↦ none
  | some (i, blob_uuid) ↦ if contains blob_uuid blobs then some blob_uuid else none
]
