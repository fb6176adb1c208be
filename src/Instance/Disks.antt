-- ===== src/Instance/Disks.antt =====
-- The block devices of an instance and the blobs that they refer to (_get_disk_device and
-- _initialize_block_devices of shakenfist/instance.py). The path of a device is its name in the
-- instance's directory, so it is left out.
use Prim.Native.String.{String}
use shakenfist.Prelude.{
  ℕ, zero, suc, ◌+◌, Bool, true, false, List, [], ◌∷◌, Option, none, some, Dict, lookup, insert,
  ◌==◌, string_eq, if◌then◌else◌, Result, ok, err, ◌>>=◌,
}
use shakenfist.Blob.Model.{Blobs, BlobError, ref_count_inc}

abbrev pub letters : List String
letters =
    "a" ∷ "b" ∷ "c" ∷ "d" ∷ "e" ∷ "f" ∷ "g" ∷ "h" ∷ "i" ∷ "j" ∷ "k" ∷ "l" ∷ "m" ∷ "n" ∷ "o" ∷ "p"
    ∷ "q" ∷ "r" ∷ "s" ∷ "t" ∷ "u" ∷ "v" ∷ "w" ∷ "x" ∷ "y" ∷ "z" ∷ []

abbrev pub numbers : List String
numbers = "0" ∷ "1" ∷ "2" ∷ "3" ∷ "4" ∷ "5" ∷ "6" ∷ "7" ∷ "8" ∷ "9" ∷ []

-- The name of a device is its prefix and a character of an index scheme.
pub record Device : Type 0 where
  pub prefix : String
  pub suffix : String

-- InstanceBadDiskSpecification, the IndexError of a text or list, and what a blob raises.
pub data DiskError : Type 0 where
  bad_disk_specification : DiskError
  index_error : DiskError
  from_blob : BlobError → DiskError

-- text[index], list[index]
abbrev pub get_elem? {ℓ} : {A : Type ℓ} → List A → ℕ → Option A
get_elem? [] i = none
get_elem? (x ∷ xs) zero = some x
get_elem? (x ∷ xs) (suc i) = get_elem? xs i

-- `bases` of _get_disk_device
abbrev pub bases : Dict String (String × List String)
bases =
    ("sata", ("sd", letters))
    ∷ ("scsi", ("sd", letters))
    ∷ ("usb", ("sd", letters))
    ∷ ("virtio", ("vd", letters))
    ∷ ("nvme", ("nvme", numbers))
    ∷ []

abbrev pub device_in : String → Option String → Result DiskError Device
device_in prefix none = err index_error
device_in prefix (some suffix) = ok (record { prefix = prefix; suffix = suffix })

-- _get_disk_device
unfoldable pub get_disk_device : String → ℕ → Result DiskError Device
get_disk_device bus index = elim (lookup bus bases) [
  | none ↦ err bad_disk_specification
  | some (prefix, index_scheme) ↦ device_in prefix (get_elem? index_scheme index)
]

-- A disk of `disk_spec`.
pub record DiskSpec : Type 0 where
  pub bus : Option String
  pub kind : Option String
  pub size : Option ℕ
  pub base : Option String
  pub blob_uuid : Option String

-- A value that is there and is not the empty text.
abbrev pub or_text : String → Option String → String
or_text default none = default
or_text default (some text) = if text == "" then default else text

abbrev pub or_none : Option String → Option String
or_none none = none
or_none (some text) = if text == "" then none else some text

-- An entry of block_devices['devices'].
pub record BlockDevice : Type 0 where
  pub format : String
  pub size : Option ℕ
  pub device : Device
  pub bus : String
  pub base : Option String
  pub blob_uuid : Option String
  pub present_as : String
  pub snapshot_ignores : Bool
  pub is_configdrive : Bool

-- blob_refs[uuid] += 1
unfoldable pub bump : Option String → Dict String ℕ → Dict String ℕ
bump none blob_refs = blob_refs
bump (some uuid) blob_refs =
    insert uuid (elim (lookup uuid blob_refs) [ none ↦ 1 | some n ↦ n + 1 ]) blob_refs

-- the entry of a disk; config_bus is DISK_BUS
unfoldable pub disk_entry : String → DiskSpec → Device → BlockDevice
disk_entry config_bus d device = record {
  format = "qcow2";
  size = d.size;
  device = device;
  bus = or_text config_bus d.bus;
  base = d.base;
  blob_uuid = d.blob_uuid;
  present_as = or_text "disk" d.kind;
  snapshot_ignores = false;
  is_configdrive = false;
}

-- the entry of the config drive
unfoldable pub configdrive_entry : String → Device → BlockDevice
configdrive_entry bus device = record {
  format = "raw";
  size = none;
  device = device;
  bus = bus;
  base = none;
  blob_uuid = none;
  present_as = "disk";
  snapshot_ignores = true;
  is_configdrive = true;
}

-- the loop over disk_spec[1:], from the index i
unfoldable pub add_disks : String → ℕ → List DiskSpec → Result DiskError (List BlockDevice)
unfolding get_disk_device disk_entry
add_disks config_bus i [] = ok []
add_disks config_bus i (d ∷ disks) = do
  device ← get_disk_device (or_text config_bus d.bus) i
  rest ← add_disks config_bus (i + 1) disks
  ok (disk_entry config_bus d device ∷ rest)

unfoldable pub add_refs : List DiskSpec → Dict String ℕ → Dict String ℕ
unfolding bump
add_refs [] blob_refs = blob_refs
add_refs (d ∷ disks) blob_refs = add_refs disks (bump (or_none d.blob_uuid) blob_refs)

-- block_devices['devices']
unfoldable pub devices_of : String → Bool → List DiskSpec → Result DiskError (List BlockDevice)
unfolding add_disks configdrive_entry
devices_of config_bus configdrive [] = err index_error
devices_of config_bus configdrive (d ∷ disks) = do
  root_device ← get_disk_device (or_text config_bus d.bus) 0
  config_device ← get_disk_device (or_text config_bus d.bus) 1
  rest ← add_disks config_bus (if configdrive then 2 else 1) disks
  ok (
      disk_entry config_bus d root_device
      ∷ (if configdrive
          then configdrive_entry (or_text config_bus d.bus) config_device ∷ rest
          else rest))

-- blob_refs, for the disks and the NVRAM template
unfoldable pub blob_references : List DiskSpec → Option String → Dict String ℕ
unfolding add_refs bump
blob_references disk_spec nvram_template = bump (or_none nvram_template) (add_refs disk_spec [])

-- the drives of `extracommands`: the device of each disk on an NVMe bus, with its format and number
unfoldable pub nvme_drives : ℕ → List BlockDevice → List (Device × String × ℕ)
nvme_drives nvme_counter [] = []
nvme_drives nvme_counter (d ∷ devices) =
    let rest = nvme_drives (if d.bus == "nvme" then nvme_counter + 1 else nvme_counter) devices in
    if d.bus == "nvme" then (d.device, d.format, nvme_counter + 1) ∷ rest else rest

abbrev pub from_blobs : Result BlobError Blobs → Result DiskError Blobs
from_blobs (ok blobs) = ok blobs
from_blobs (err e) = err (from_blob e)

-- for blob_uuid in blob_refs: b.ref_count_inc(self, blob_refs[blob_uuid])
unfoldable pub take_references : Dict String ℕ → Blobs → Result BlobError Blobs
unfolding ref_count_inc
take_references [] blobs = ok blobs
take_references ((uuid, count) ∷ blob_refs) blobs = do
  blobs' ← ref_count_inc uuid count blobs
  take_references blob_refs blobs'

-- _initialize_block_devices: the devices, the NVMe drives, the blob references and the blobs
unfoldable pub initialize_block_devices :
    String
    → Bool
    → List DiskSpec
    → Option String
    → Blobs
    → Result DiskError (List BlockDevice × List (Device × String × ℕ) × Dict String ℕ × Blobs)
unfolding devices_of nvme_drives blob_references take_references
initialize_block_devices config_bus configdrive disk_spec nvram_template blobs = do
  devices ← devices_of config_bus configdrive disk_spec
  blobs' ← from_blobs (take_references (blob_references disk_spec nvram_template) blobs)
  ok (devices, nvme_drives 0 devices, blob_references disk_spec nvram_template, blobs')
