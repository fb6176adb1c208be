-- ===== src/Artifact/Dangling.antt =====
-- An index that add_index stores although it raises (shakenfist/artifact.py).
use Prim.Native.String.{String}
use shakenfist.Prelude.{ℕ, ◌+◌, ◌≡◌, refl, ◌∙◌, false, none, some, lookup, string_eq, err}
use shakenfist.Blob.Model.{Blob, Blobs, blob_deleted, ref_count_inc}
use shakenfist.ObjectState.Names.{deleted, OptionStateName-discrete, option_state_name_eq}
use shakenfist.Artifact.Model.{
  Artifact, most_recent_index, add_index, compare_index, resolve_to_blob,
}
use shakenfist.Artifact.Versions.{
  highest, IsNumbered, stored, stored-IsNumbered, above, store_index-stored,
}
use shakenfist.Artifact.Recent.{most_recent_index-end}

ref_count_inc-deleted :
    (uuid : String) (blobs : Blobs) (b : Blob)
    → lookup uuid blobs ≡ some b
    → b.state ≡ some deleted
    → ref_count_inc uuid 1 blobs ≡ err blob_deleted
unfolding ref_count_inc OptionStateName-discrete
ref_count_inc-deleted uuid blobs b here gone = rw (ref_count_inc, here, gone) refl

module _ (fuel default : ℕ) (uuid : String) (blobs : Blobs) (b : Blob) (a : Artifact) where
  -- Adding a deleted blob, which is still in the database, to a persistent artifact without an
  -- index raises BlobDeleted, and leaves the new index in the artifact, which then resolves to the
  -- deleted blob.
  pub add_index-deleted :
      IsNumbered a
      → most_recent_index a ≡ none
      → a.in_memory_only ≡ false
      → lookup uuid blobs ≡ some b
      → b.state ≡ some deleted
      → (add_index fuel default uuid blobs a ≡ err (blob_deleted, stored uuid a))
        × (resolve_to_blob blobs (stored uuid a) ≡ some uuid)
  unfolding add_index compare_index resolve_to_blob
  add_index-deleted h nothing persistent here gone = (
    rw (add_index, nothing, compare_index, here)
        (store_index-stored fuel default uuid blobs a h
          ∙ rw (persistent, ref_count_inc-deleted uuid blobs b here gone) refl),
    rw
        (
          resolve_to_blob,
          most_recent_index-end (stored uuid a) a.indexes (highest a + 1) uuid
              (stored-IsNumbered uuid a h) (above a h),
          here,
        )
        refl,
  )
