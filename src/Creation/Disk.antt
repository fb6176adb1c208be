-- ===== src/Creation/Disk.antt =====
-- The disks of a request and its NVRAM template, turned into blobs (_artifact_safety_checks and post
-- of shakenfist/external_api/instance.py).
use Prim.Native.String.{String, ◌++◌ as str_append}
use text.Mathlib.Text.{starts_with}
use shakenfist.Prelude.{
  ℕ, true, false, not, ◌||◌, List, [], ◌∷◌, Option, none, some, lookup, ◌==◌, string_eq,
  if◌then◌else◌, Result, ok, err, ◌>>=◌, ◌>>◌,
}
use shakenfist.ObjectState.Names.{created, initial, option_state_name_eq, OptionStateName-discrete}
use shakenfist.Artifact.Model.{resolve_to_blob}
use shakenfist.Artifact.Url.{
  Found, Answer, UrlError, found, make_new, nothing, from_url, too_many_matches as many,
}
use shakenfist.Namespace.Model.{namespace_is_trusted}
use shakenfist.Instance.Disks.{DiskSpec, or_text, get_disk_device, Device, DiskError}
use shakenfist.Creation.Request.{
  ApiError, status, too_many_matches, unbound_local_error, Database, Base, no_base, label, snapshot,
  upload_url, label_url, blob_url, image, base_of, after,
}

-- The artifact of an answer, or None
abbrev pub answered : Result UrlError Answer → Result ApiError (Option Found)
answered (ok (found a)) = ok (some a)
answered (ok make_new) = ok none
answered (ok nothing) = ok none
answered (err many) = err too_many_matches

-- the artifact with a uuid
unfoldable pub from_db : String → List Found → Option Found
from_db uuid [] = none
from_db uuid (a ∷ artifacts) = if a.uuid == uuid then some a else from_db uuid artifacts

module _ (caller : String) (db : Database) where
  -- _artifact_safety_checks
  unfoldable pub artifact_safety_checks : Option Found → Result ApiError Found
  unfolding OptionStateName-discrete namespace_is_trusted
  artifact_safety_checks none = err (status 404)
  artifact_safety_checks (some a) =
      if not (a.state == some created)
      then err (status 404)
      else if namespace_is_trusted db.namespaces a.namespace caller || a.shared
      then ok a
      else err (status 404)

  abbrev pub resolved : Option String → Result ApiError String
  resolved none = err (status 404)
  resolved (some blob_uuid) = ok blob_uuid

  -- a.resolve_to_blob(), of an artifact by its uuid
  unfoldable pub blob_of : Found → Option String
  unfolding resolve_to_blob
  blob_of a = elim (lookup a.uuid db.versions) [
    | none ↦ none
    | some versions ↦ resolve_to_blob db.blobs versions
  ]

  -- the checks of an artifact, and its blob
  unfoldable pub checked_blob : Option Found → Result ApiError String
  unfolding artifact_safety_checks blob_of
  checked_blob o = do a ← artifact_safety_checks o; resolved (blob_of a)

-- What the loop over the disks carries along: the artifacts, and the variable `blob_uuid`.
pub record Loop : Type 0 where
  pub artifacts : List Found
  pub blob_uuid : Option String

-- `fresh` gives the uuids of new artifacts.
module _ (fresh : ℕ → String) (config_bus caller namespace : String) (db : Database) where
  -- Artifact.new, for an image
  abbrev pub new_image : String → String → Found
  new_image uuid url = record {
    uuid = uuid;
    artifact_type = "image";
    source_url = url;
    namespace = namespace;
    shared = false;
    state = some initial;
  }

  -- `Artifact.from_url(…, create_if_new=True)`, on the artifacts
  abbrev pub ensure_image :
      String → String → List Found → Result UrlError Answer → Result ApiError (List Found)
  ensure_image uuid url artifacts (ok make_new) = ok (new_image uuid url ∷ artifacts)
  ensure_image uuid url artifacts (ok (found a)) = ok artifacts
  ensure_image uuid url artifacts (ok nothing) = ok artifacts
  ensure_image uuid url artifacts (err many) = err too_many_matches

  -- the artifact that a base names
  unfoldable pub base_artifact : Base → List Found → Result ApiError (Option Found)
  unfolding from_url from_db
  base_artifact (label name) artifacts = answered (
      from_url db.namespaces artifacts "label"
        (str_append "sf://label/" (str_append caller (str_append "/" name))) namespace false)
  base_artifact (snapshot uuid) artifacts = ok (from_db uuid artifacts)
  base_artifact (upload_url url) artifacts =
      answered (from_url db.namespaces artifacts "image" url namespace false)
  base_artifact (label_url url) artifacts =
      answered (from_url db.namespaces artifacts "label" url namespace false)
  base_artifact _ artifacts = ok none

  -- a base that an artifact stands for
  unfoldable pub artifact_disk : Base → DiskSpec → Loop → Result ApiError (DiskSpec × Loop)
  unfolding base_artifact checked_blob
  artifact_disk base d loop = do
    a ← base_artifact base loop.artifacts
    blob_uuid ← checked_blob caller db a
    ok (record d { blob_uuid = some blob_uuid }, record loop { blob_uuid = some blob_uuid })

  -- the shorthand of the base, turned into a blob; an image is entered as an artifact
  unfoldable pub resolve_base : String → Base → DiskSpec → Loop → Result ApiError (DiskSpec × Loop)
  unfolding artifact_disk from_url
  resolve_base uuid no_base d loop = ok (d, loop)
  resolve_base uuid (blob_url b) d loop = ok (record d { blob_uuid = some b }, loop)
  resolve_base uuid (image url) d loop = do
    artifacts ←
        ensure_image uuid url loop.artifacts
          (from_url db.namespaces loop.artifacts "image" url namespace true)
    ok (d, record loop { artifacts = artifacts })
  resolve_base uuid base d loop = artifact_disk base d loop

  abbrev pub known_bus : Result DiskError Device → Result ApiError (Unit {0})
  known_bus (ok device) = ok tt
  known_bus (err e) = err (status 400)

  -- one round of the loop over the disks
  unfoldable pub transform_disk :
      String → Option DiskSpec → Loop → Result ApiError (DiskSpec × Loop)
  unfolding get_disk_device base_of resolve_base
  transform_disk uuid none loop = err (status 400)
  transform_disk uuid (some d) loop = do
    known_bus (get_disk_device (or_text config_bus d.bus) 0)
    resolve_base uuid (base_of d.base) d loop

  -- the loop over the disks, from the i-th
  unfoldable pub transform_disks :
      ℕ → List (Option DiskSpec) → Loop → Result ApiError (List DiskSpec × Loop)
  unfolding transform_disk
  transform_disks i [] loop = ok ([], loop)
  transform_disks i (d ∷ disk) loop = do
    first ← transform_disk (fresh i) d loop
    rest ← transform_disks (Prim.Native.Nat.suc i) disk first.1
    ok (first.0 ∷ rest.0, rest.1)

  abbrev pub unbound : Option String → Result ApiError (Option String)
  unbound none = err unbound_local_error
  unbound (some blob_uuid) = ok (some blob_uuid)

  -- the NVRAM template, where the empty text is no template
  unfoldable pub nvram_blob : String → Loop → Result ApiError (Option String)
  unfolding base_artifact checked_blob after
  nvram_blob nvram_template loop =
      if starts_with nvram_template "label:"
      then (do
        a ← base_artifact (label (after "label:" nvram_template)) loop.artifacts
        blob_uuid ← checked_blob caller db a
        ok (some blob_uuid))
      else if starts_with nvram_template "sf://blob/"
      then unbound loop.blob_uuid
      else ok (some nvram_template)

  unfoldable pub transform_nvram : Option String → Loop → Result ApiError (Option String)
  unfolding nvram_blob
  transform_nvram none loop = ok none
  transform_nvram (some nvram_template) loop =
      if nvram_template == "" then ok (some "") else nvram_blob nvram_template loop
