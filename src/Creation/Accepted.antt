-- ===== src/Creation/Accepted.antt =====
-- What a request to create an instance satisfies when it passes the checks
-- (shakenfist/external_api/instance.py).
use Prim.Native.String.{String}
use mathlib.Core.Path.{subst}
use mathlib.Core.Bool.{false≢true}
use shakenfist.Prelude.{
  ℕ, suc, ◌≡◌, refl, sym, ap, ◌∙◌, Bool, true, false, ◌||◌, List, [], ◌∷◌, Option, none, some, All,
  ◌==◌, string_eq, Result, ok, err, is_ok, bind-ok, ok-injective, Bool-cases, inl, inr,
}
use shakenfist.ObjectState.Names.{created, option_state_name_eq}
use shakenfist.Artifact.Url.{Found, from_url}
use shakenfist.Namespace.Model.{namespace_is_trusted}
use shakenfist.Instance.Disks.{Device, DiskError, DiskSpec, or_text, get_disk_device}
use shakenfist.Creation.Request.{
  ApiError, check, Database, Base, no_base, label, snapshot, upload_url, label_url, blob_url, image,
  base_of,
}
use shakenfist.Creation.Disk.{
  Loop, artifact_safety_checks, resolved, blob_of, checked_blob, base_artifact, artifact_disk,
  ensure_image, resolve_base, known_bus, transform_disk, transform_disks,
}

-- A test that answered with no error holds.
pub check-holds :
    (code : ℕ) (b : Bool) → ◌≡◌ {A = Result ApiError (Unit {0})} (check code b) (ok tt) → b ≡ true
check-holds code true h = refl
check-holds code false h = cc

-- An artifact that a caller may use, and its blob.
pub record Usable (caller : String) (db : Database) (blob_uuid : String) : Type 0 where
  pub artifact : Found
  pub created_state : artifact.state ≡ some created
  pub visible :
      (namespace_is_trusted db.namespaces artifact.namespace caller || artifact.shared) ≡ true
  pub blob : blob_of caller db artifact ≡ some blob_uuid

abbrev pub names_artifact : Base → Bool
names_artifact no_base = false
names_artifact (label name) = true
names_artifact (snapshot uuid) = true
names_artifact (upload_url url) = true
names_artifact (label_url url) = true
names_artifact (blob_url uuid) = false
names_artifact (image url) = false

pub err≢ok {ℓ} :
    {A : Type ℓ} {e : ApiError} {a : A} → ◌≡◌ {A = Result ApiError A} (err e) (ok a) → ⊥
err≢ok h = cc

module _ (caller : String) (db : Database) where
  artifact_safety_checks-Usable :
      (o : Option Found) (a : Found)
      → artifact_safety_checks caller db o ≡ ok a
      → (a.state ≡ some created)
        × ((namespace_is_trusted db.namespaces a.namespace caller || a.shared) ≡ true)
  unfolding artifact_safety_checks
  artifact_safety_checks-Usable none a h = cc
  artifact_safety_checks-Usable (some b) a h = elim (Bool-cases (b.state == some created)) [
    | inr other ↦ absurd (err≢ok (rw (artifact_safety_checks, other) at h))
    | inl same ↦
        elim (Bool-cases (namespace_is_trusted db.namespaces b.namespace caller || b.shared)) [
          | inr hidden ↦ absurd (err≢ok (rw (artifact_safety_checks, same, hidden) at h))
          | inl seen ↦
              subst
                (λ x.
                  (x.state ≡ some created)
                  × ((namespace_is_trusted db.namespaces x.namespace caller || x.shared) ≡ true))
                (ok-injective (rw (artifact_safety_checks, same, seen) at h))
                ((option_state_name_eq.beq_iff b.state (some created)).0 same, seen)
        ]
  ]

  resolved-some :
      (o : Option String) (blob_uuid : String)
      → resolved caller db o ≡ ok blob_uuid
      → o ≡ some blob_uuid
  resolved-some none blob_uuid h = cc
  resolved-some (some b) blob_uuid h = ap some (ok-injective h)

  checked_blob-Usable :
      (o : Option Found) (blob_uuid : String)
      → checked_blob caller db o ≡ ok blob_uuid
      → Usable caller db blob_uuid
  unfolding checked_blob
  checked_blob-Usable o blob_uuid h =
      let (a, checked, h1) = bind-ok (artifact_safety_checks caller db o) _ h in
      let (is_created, visible) = artifact_safety_checks-Usable o a checked in
      record {
        artifact = a;
        created_state = is_created;
        visible = visible;
        blob = resolved-some (blob_of caller db a) blob_uuid h1;
      }

-- What is known of a disk that passed.
pub record Sourced (config_bus caller : String) (db : Database) (d : DiskSpec) : Type 0 where
  pub bus : is_ok (get_disk_device (or_text config_bus d.bus) 0) ≡ true
  pub source :
      names_artifact (base_of d.base) ≡ true
      → (blob_uuid : String) × (d.blob_uuid ≡ some blob_uuid) × Usable caller db blob_uuid

module _ (fresh : ℕ → String) (config_bus caller namespace : String) (db : Database) where
  known_bus-ok :
      (r : Result DiskError Device)
      → known_bus fresh config_bus caller namespace db r ≡ ok tt
      → is_ok r ≡ true
  known_bus-ok (ok device) h = refl
  known_bus-ok (err e) h = cc

  -- A disk that the database gave a blob, with the base and the bus that it had.
  Gives : DiskSpec → DiskSpec → Type 0
  Gives d d' =
      (d'.bus ≡ d.bus)
      × (d'.base ≡ d.base)
      × (names_artifact (base_of d.base) ≡ true
          → (blob_uuid : String) × (d'.blob_uuid ≡ some blob_uuid) × Usable caller db blob_uuid)

  artifact_disk-Gives :
      (base : Base) (d d' : DiskSpec) (loop after : Loop)
      → artifact_disk fresh config_bus caller namespace db base d loop ≡ ok (d', after)
      → Gives d d'
  unfolding artifact_disk Gives
  artifact_disk-Gives base d d' loop after h =
      let (a, named, h1) =
        bind-ok (base_artifact fresh config_bus caller namespace db base loop.artifacts) _ h in
      let (blob_uuid, checked, h2) = bind-ok (checked_blob caller db a) _ h1 in
      subst (Gives d) (ap (λ r. r.0) (ok-injective h2))
        (refl, refl, λ n. (blob_uuid, refl, checked_blob-Usable caller db a blob_uuid checked))

  -- A base that names no artifact
  plain :
      {A : Type 0} (base : Base) (d : DiskSpec)
      → names_artifact base ≡ false
      → base ≡ base_of d.base
      → names_artifact (base_of d.base) ≡ true
      → A
  plain base d f e t = absurd (false≢true (sym f ∙ ap names_artifact e ∙ t))

  resolve_base-Gives :
      (uuid : String) (d d' : DiskSpec) (base : Base) (loop after : Loop)
      → base ≡ base_of d.base
      → resolve_base fresh config_bus caller namespace db uuid base d loop ≡ ok (d', after)
      → Gives d d'
  unfolding resolve_base Gives
  resolve_base-Gives uuid d d' no_base loop after e h =
      subst (Gives d) (ap (λ r. r.0) (ok-injective h)) (refl, refl, plain no_base d refl e)
  resolve_base-Gives uuid d d' (blob_url b) loop after e h =
      subst (Gives d) (ap (λ r. r.0) (ok-injective h)) (refl, refl, plain (blob_url b) d refl e)
  resolve_base-Gives uuid d d' (image url) loop after e h =
      let (artifacts, entered, h1) =
        bind-ok
          (ensure_image fresh config_bus caller namespace db uuid url loop.artifacts
            (from_url db.namespaces loop.artifacts "image" url namespace true))
          _ h in
      subst (Gives d) (ap (λ r. r.0) (ok-injective h1)) (refl, refl, plain (image url) d refl e)
  resolve_base-Gives uuid d d' (label name) loop after e h =
      artifact_disk-Gives (label name) d d' loop after h
  resolve_base-Gives uuid d d' (snapshot s) loop after e h =
      artifact_disk-Gives (snapshot s) d d' loop after h
  resolve_base-Gives uuid d d' (upload_url url) loop after e h =
      artifact_disk-Gives (upload_url url) d d' loop after h
  resolve_base-Gives uuid d d' (label_url url) loop after e h =
      artifact_disk-Gives (label_url url) d d' loop after h

  transform_disk-Sourced :
      (uuid : String) (d : Option DiskSpec) (d' : DiskSpec) (loop after : Loop)
      → transform_disk fresh config_bus caller namespace db uuid d loop ≡ ok (d', after)
      → Sourced config_bus caller db d'
  unfolding transform_disk Gives
  transform_disk-Sourced uuid none d' loop after h = absurd (err≢ok h)
  transform_disk-Sourced uuid (some d) d' loop after h =
      let (_, known, h1) =
        bind-ok
          (known_bus fresh config_bus caller namespace db
            (get_disk_device (or_text config_bus d.bus) 0))
          _ h in
      let (bus, base, source) = resolve_base-Gives uuid d d' (base_of d.base) loop after refl h1 in
      record {
        bus = ap (λ b. is_ok (get_disk_device (or_text config_bus b) 0)) bus ∙ known_bus-ok _ known;
        source = λ n. source (ap (λ b. names_artifact (base_of b)) (sym base) ∙ n);
      }

  pub transform_disks-Sourced :
      (i : ℕ) (disk : List (Option DiskSpec)) (disk' : List DiskSpec) (loop after : Loop)
      → transform_disks fresh config_bus caller namespace db i disk loop ≡ ok (disk', after)
      → All (Sourced config_bus caller db) disk'
  unfolding transform_disks
  transform_disks-Sourced i [] disk' loop after h =
      subst (λ l. All (Sourced config_bus caller db) l) (ap (λ r. r.0) (ok-injective h)) tt
  transform_disks-Sourced i (d ∷ disk) disk' loop after h =
      let (first, one, h1) =
        bind-ok (transform_disk fresh config_bus caller namespace db (fresh i) d loop) _ h in
      let (rest, others, h2) =
        bind-ok (transform_disks fresh config_bus caller namespace db (suc i) disk first.1) _ h1 in
      subst (λ l. All (Sourced config_bus caller db) l) (ap (λ r. r.0) (ok-injective h2))
        (
          transform_disk-Sourced (fresh i) d first.0 loop first.1 one,
          transform_disks-Sourced (suc i) disk rest.0 first.1 rest.1 others,
        )
