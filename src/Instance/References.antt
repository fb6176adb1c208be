-- ===== src/Instance/References.antt =====
-- An instance takes one reference to a blob for each disk, and for the NVRAM template, that names it
-- (_initialize_block_devices of shakenfist/instance.py).
use Prim.Native.String.{String}
use mathlib.Core.Path.{subst}
use shakenfist.Prelude.{
  ℕ, ◌+◌, ◌≡◌, refl, sym, ap, ◌∙◌, Bool, List, [], ◌∷◌, Option, none, some, Dict, lookup, ◌==◌,
  string_eq, if◌then◌else◌, Bool-cases, Option-cases, inl, inr, arith, Result, ok, err, bind-ok,
  ok-injective, lookup-insert, Unique, lookup-absent, insert-Unique,
}
use shakenfist.ObjectState.Names.{deleted, option_state_name_eq}
use shakenfist.Blob.Model.{Blob, Blobs, BlobError, ref_count_inc}
use shakenfist.Instance.Devices.{Distinct, devices_of-Distinct}
use shakenfist.Instance.Disks.{
  Device, DiskSpec, BlockDevice, or_none, bump, add_refs, devices_of, blob_references, from_blobs,
  take_references, initialize_block_devices,
}

-- A blob with n references more.
abbrev pub referred : ℕ → Option Blob → Option Blob
referred n none = none
referred n (some b) = some (record b { ref_count = b.ref_count + n })

abbrev counted : String → Dict String ℕ → ℕ
counted uuid refs = elim (lookup uuid refs) [ none ↦ 0 | some n ↦ n ]

-- 1 where the reference names the blob.
abbrev pub names : String → Option String → ℕ
names uuid none = 0
names uuid (some other) = if other == uuid then 1 else 0

-- How many disks name a blob.
unfoldable pub named_by : String → List DiskSpec → ℕ
named_by uuid [] = 0
named_by uuid (d ∷ disks) = names uuid (or_none d.blob_uuid) + named_by uuid disks

counted-bump :
    (uuid : String) (name : Option String) (refs : Dict String ℕ)
    → counted uuid (bump name refs) ≡ counted uuid refs + names uuid name
unfolding bump
counted-bump uuid none refs = omega arith
counted-bump uuid (some other) refs = ground (
  arith,
  lookup-insert other uuid (elim (lookup other refs) [ none ↦ 1 | some n ↦ n + 1 ]) refs,
  string_eq.beq_iff other uuid,
)

counted-add_refs :
    (uuid : String) (disks : List DiskSpec) (refs : Dict String ℕ)
    → counted uuid (add_refs disks refs) ≡ counted uuid refs + named_by uuid disks
unfolding add_refs named_by
counted-add_refs uuid [] refs = omega arith
counted-add_refs uuid (d ∷ disks) refs = omega (
  arith,
  counted-bump uuid (or_none d.blob_uuid) refs,
  counted-add_refs uuid disks (bump (or_none d.blob_uuid) refs),
)

counted-blob_references :
    (uuid : String) (disks : List DiskSpec) (template : Option String)
    → counted uuid (bump template (add_refs disks [])) ≡ named_by uuid disks + names uuid template
unfolding lookup
counted-blob_references uuid disks template =
    omega (arith, counted-bump uuid template (add_refs disks []), counted-add_refs uuid disks [])

bump-Unique : (name : Option String) (refs : Dict String ℕ) → Unique refs → Unique (bump name refs)
unfolding bump
bump-Unique none refs u = u
bump-Unique (some uuid) refs u = insert-Unique uuid _ refs u

add_refs-Unique :
    (disks : List DiskSpec) (refs : Dict String ℕ) → Unique refs → Unique (add_refs disks refs)
unfolding add_refs
add_refs-Unique [] refs u = u
add_refs-Unique (d ∷ disks) refs u =
    add_refs-Unique disks _ (bump-Unique (or_none d.blob_uuid) refs u)

err≢ok : {e : BlobError} {blobs : Blobs} → ◌≡◌ {A = Result BlobError Blobs} (err e) (ok blobs) → ⊥
err≢ok h = cc

lookup-ref_count_inc :
    (u uuid : String) (count : ℕ) (blobs : Blobs) {later : Blobs}
    → ref_count_inc uuid count blobs ≡ ok later
    → lookup u later ≡ (if uuid == u then referred count (lookup u blobs) else lookup u blobs)
unfolding ref_count_inc
lookup-ref_count_inc u uuid count blobs h = elim (Option-cases (lookup uuid blobs)) [
  | inl gone ↦ absurd (err≢ok (rw (ref_count_inc, gone) at h))
  | inr (b, found) ↦ elim (Bool-cases (b.state == some deleted)) [
    | inl dead ↦ absurd (err≢ok (rw (ref_count_inc, found, dead) at h))
    | inr live ↦
        subst
          (λ x.
            lookup u x ≡ (if uuid == u then referred count (lookup u blobs) else lookup u blobs))
          (ok-injective (rw (ref_count_inc, found, live) at h))
          (ground (
            arith,
            lookup-insert uuid u (record b { ref_count = b.ref_count + count }) blobs,
            string_eq.beq_iff uuid u,
            found,
          ))
  ]
]

referred-zero : (o : Option Blob) → o ≡ referred 0 o
referred-zero none = refl
referred-zero (some b) = ap (λ n. some (record b { ref_count = n })) (omega arith)

lookup-take_references :
    (u : String) (refs : Dict String ℕ) (blobs : Blobs) {later : Blobs}
    → Unique refs
    → take_references refs blobs ≡ ok later
    → lookup u later ≡ referred (counted u refs) (lookup u blobs)
unfolding take_references lookup
lookup-take_references u [] blobs once h =
    subst (λ x. lookup u x ≡ referred 0 (lookup u blobs)) (ok-injective h)
      (referred-zero (lookup u blobs))
lookup-take_references u ((uuid, count) ∷ refs) blobs once h =
    let (middle, taken, h1) = bind-ok (ref_count_inc uuid count blobs) _ h in
    let first = lookup-ref_count_inc u uuid count blobs taken in
    let rest = lookup-take_references u refs middle once.1 h1 in
    elim (Bool-cases (uuid == u)) [
      | inl same ↦
          ground
            (arith, first, rest, same, lookup-absent uuid refs once.0, string_eq.beq_iff uuid u)
      | inr other ↦ ground (arith, first, rest, other)
    ]

from_blobs-ok :
    (m : Result BlobError Blobs) {later : Blobs} → from_blobs m ≡ ok later → m ≡ ok later
from_blobs-ok (ok blobs) h = ap ok (ok-injective h)
from_blobs-ok (err e) h = cc

-- Of all the blobs, the counts have risen by the references of the instance's disks and template.
pub Referred : List DiskSpec → Option String → Blobs → Blobs → Type 0
Referred disk_spec nvram_template blobs later =
    (uuid : String)
    → lookup uuid later
      ≡ referred (named_by uuid disk_spec + names uuid (or_none nvram_template)) (lookup uuid blobs)

-- Where _initialize_block_devices returns, no two of its devices are the same, and each blob has as
-- many references more as disks, and the NVRAM template, name it; nothing else of a blob changed.
pub initialize_block_devices-Referred :
    (config_bus : String) (configdrive : Bool) (disk_spec : List DiskSpec)
    (nvram_template : Option String) (blobs later : Blobs) (devices : List BlockDevice)
    (drives : List (Device × String × ℕ)) (refs : Dict String ℕ)
    → initialize_block_devices config_bus configdrive disk_spec nvram_template blobs
      ≡ ok (devices, drives, refs, later)
    → Distinct devices × Referred disk_spec nvram_template blobs later
unfolding initialize_block_devices blob_references Referred
initialize_block_devices-Referred config_bus configdrive disk_spec nvram_template blobs later
      devices drives refs h =
    let (found, named, h1) = bind-ok (devices_of config_bus configdrive disk_spec) _ h in
    let (taken, took, h2) =
      bind-ok (from_blobs (take_references (blob_references disk_spec nvram_template) blobs)) _
        h1 in
    let result = ok-injective h2 in
    let template = or_none nvram_template in
    (
      subst Distinct (ap (λ r. r.0) result)
          (devices_of-Distinct config_bus configdrive disk_spec named),
      λ uuid.
          ap (lookup uuid) (sym (ap (λ r. r.3) result))
          ∙ lookup-take_references uuid (blob_references disk_spec nvram_template) blobs
              (bump-Unique template _ (add_refs-Unique disk_spec [] tt)) (from_blobs-ok _ took)
          ∙ ap (λ n. referred n (lookup uuid blobs))
              (counted-blob_references uuid disk_spec template),
    )
