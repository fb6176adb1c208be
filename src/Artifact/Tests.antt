-- ===== src/Artifact/Tests.antt =====
-- The theorems on the versions of an artifact at small examples (shakenfist/artifact.py).
use shakenfist.Prelude.{
  true, List, false, keep, elem, ◌==◌, ◌&&◌, ◌≡◌, refl, false, [], ◌∷◌, none, some, lookup, insert,
  remove, keys, string_eq, ok, err, arith,
}
use shakenfist.ObjectState.Names.{created, deleted, OptionStateName-discrete}
use shakenfist.Blob.Model.{
  Blob, Blobs, blob_deleted, ref_count_inc, ref_count_dec, delete_unused, dec_each, references,
  set_deleted,
}
use shakenfist.Artifact.Order.{sorted, insert_sorted, but_last}
use shakenfist.Artifact.Model.{
  Artifact, most_recent_index, add_index, compare_index, store_index, delete_old_versions, del_each,
  del_index, unref, resolve_to_blob,
}
use shakenfist.Artifact.Versions.{IsNumbered, stored, Added, add_index-Added}
use shakenfist.Artifact.Runs.{
  add, limit, delete_index, Later, Bounded, perform_all, perform_all-Later, add_index-Bounded,
}
use shakenfist.Namespace.Model.{namespace_is_trusted}
use shakenfist.Artifact.Url.{
  Found, found, wanted, Wanted, not_dead_states_filter, namespace_or_shared_filter, from_url,
  from_url-own, from_url-Wanted,
}
use shakenfist.Artifact.Dangling.{add_index-deleted}

abbrev one : Blob
one = record {
  depends_on = none;
  state = some created;
  ref_count = 2;
  transcoded = [];
  sha512 = some "1";
}

abbrev two : Blob
two = record one { ref_count = 0; sha512 = some "2" }

abbrev gone : Blob
gone = record one { ref_count = 0; state = some deleted }

abbrev blobs : Blobs
blobs = ("one", one) ∷ ("two", two) ∷ ("gone", gone) ∷ []

abbrev fresh : Artifact
fresh = record { in_memory_only = false; max_versions = some 1; highest_index = none; indexes = [] }

fresh-IsNumbered : IsNumbered fresh
unfolding keys
fresh-IsNumbered = record { ascending = tt; below = tt }

abbrev used : Artifact
used = record fresh { highest_index = some 4; indexes = (4, "one") ∷ [] }

used-IsNumbered : IsNumbered used
unfolding keys
used-IsNumbered = record { ascending = (tt, tt); below = (omega arith, tt) }

abbrev blobs_after : Blobs
blobs_after =
    ("one", record one { ref_count = 1 })
    ∷ ("two", record two { ref_count = 1 })
    ∷ ("gone", gone)
    ∷ []

abbrev used_after : Artifact
used_after = record used { highest_index = some 5; indexes = (5, "two") ∷ [] }

added : add_index 3 3 "two" blobs used ≡ ok (blobs_after, used_after, some (5, "two"))
unfolding add_index most_recent_index compare_index store_index delete_old_versions del_each
    del_index unref ref_count_inc ref_count_dec delete_unused dec_each references set_deleted sorted
    insert_sorted but_last keys lookup insert remove OptionStateName-discrete
added = refl

add_index-Added_example :
    Added 3 3 "two" blobs used used-IsNumbered (add_index 3 3 "two" blobs used)
add_index-Added_example = add_index-Added 3 3 "two" blobs used used-IsNumbered

add_index-Bounded_example : Bounded 3 3 1 used (add_index 3 3 "two" blobs used)
add_index-Bounded_example = add_index-Bounded 3 3 "two" blobs used 0 used-IsNumbered refl

perform_all-Later_example :
    Later used (perform_all 3 3 (add "two" blobs ∷ limit 2 blobs ∷ delete_index 5 blobs ∷ []) used)
perform_all-Later_example =
    perform_all-Later 3 3 (add "two" blobs ∷ limit 2 blobs ∷ delete_index 5 blobs ∷ []) used
      used-IsNumbered

nothing_stored : most_recent_index fresh ≡ none
unfolding most_recent_index keys sorted
nothing_stored = refl

found_gone : lookup "gone" blobs ≡ some gone
unfolding lookup
found_gone = refl

add_index-deleted_example :
    (add_index 3 3 "gone" blobs fresh ≡ err (blob_deleted, stored "gone" fresh))
    × (resolve_to_blob blobs (stored "gone" fresh) ≡ some "gone")
add_index-deleted_example =
    add_index-deleted 3 3 "gone" blobs gone fresh fresh-IsNumbered nothing_stored refl found_gone
      refl

abbrev image : Found
image = record {
  uuid = "1";
  artifact_type = "image";
  source_url = "http://x";
  namespace = "team";
  shared = false;
  state = some created;
}

abbrev shared_image : Found
shared_image = record image { uuid = "2"; namespace = "system"; shared = true }

abbrev images : List Found
images = shared_image ∷ image ∷ []

one_own :
    keep (λ c. wanted [] "image" "http://x" "team" c && c.namespace == "team") images ≡ image ∷ []
unfolding keep wanted not_dead_states_filter namespace_or_shared_filter namespace_is_trusted elem
    lookup OptionStateName-discrete
one_own = refl

from_url-own_example : from_url [] images "image" "http://x" "team" false ≡ ok (found image)
from_url-own_example = from_url-own [] images "image" "http://x" "team" false image one_own

abbrev HasUuid : Found → Type 0
HasUuid a = (a.source_url == "http://x") ≡ true

from_url-Wanted_example : HasUuid image × Wanted [] "image" "http://x" "team" image
from_url-Wanted_example =
    from_url-Wanted [] images "image" "http://x" "team" false HasUuid image (refl, (refl, tt))
      from_url-own_example
