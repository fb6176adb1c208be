-- ===== src/Creation/Tests.antt =====
-- A request for an instance with a disk from a snapshot and a network.
use Prim.Native.String.{String}
use shakenfist.Prelude.{
  ◌≡◌, refl, Bool, true, false, [], ◌∷◌, none, some, lookup, keys, elem, string_eq, nat_eq, ok, err,
}
use shakenfist.ObjectState.Names.{created, StateName-discrete, OptionStateName-discrete}
use shakenfist.ObjectState.Tables.{is_substring}
use shakenfist.Ipam.Block.{is_in_range, network_address, broadcast_address, num_addresses}
use shakenfist.Blob.Model.{Blob}
use shakenfist.Artifact.Model.{Artifact, resolve_to_blob, most_recent_index}
use shakenfist.Artifact.Url.{Found}
use shakenfist.Namespace.Model.{namespace_is_trusted}
use shakenfist.Namespace.Access.{from_db_by_ref, find_named, namespace_filter}
use shakenfist.Instance.Disks.{DiskSpec, get_disk_device}
use shakenfist.Creation.Request.{
  wanted_address, Request, Network, Database, unbound_local_error, noneish, after, base_of,
  characters,
}
use shakenfist.Creation.Disk.{
  from_db, artifact_safety_checks, blob_of, checked_blob, base_artifact, artifact_disk,
  resolve_base, transform_disk, transform_disks, nvram_blob, transform_nvram,
}
use shakenfist.Creation.Checks.{
  Checked, network_of, address_fits, netdesc_safety_checks, check_networks, validate_metadata,
  check_video, check_node, valid_name, any_ide, check_arguments, check_rest, check_request,
}
use shakenfist.Creation.Passed.{Accepted, check_request-Accepted, check_request-nvram_template}

abbrev root_blob : Blob
root_blob = record {
  depends_on = none;
  state = some created;
  ref_count = 1;
  transcoded = [];
  sha512 = none;
}

abbrev snapshot_found : Found
snapshot_found = record {
  uuid = "a1";
  artifact_type = "snapshot";
  source_url = "sf://instance/i0";
  namespace = "team";
  shared = false;
  state = some created;
}

abbrev versions : Artifact
versions = record {
  in_memory_only = false;
  max_versions = none;
  highest_index = some 1;
  indexes = (1, "b1") ∷ [];
}

abbrev lan : Network
lan = record {
  object = record { uuid = "n1"; name = "lan"; namespace = "team"; active = true };
  state = some created;
  block = record { address = 167772160; prefixlen = 24 };
}

abbrev db : Database
db = record {
  namespaces = ("team", record { state = some created; nonced_keys = []; full_trust = none }) ∷ [];
  artifacts = snapshot_found ∷ [];
  versions = ("a1", versions) ∷ [];
  blobs = ("b1", root_blob) ∷ [];
  nodes = ("sf1", some created) ∷ [];
  networks = ("n1", lan) ∷ [];
}

abbrev disk : DiskSpec
disk = record {
  bus = none;
  kind = none;
  size = some 8;
  base = some "sf://snapshot/a1";
  blob_uuid = none;
}

abbrev request : Request
request = record {
  name = "web";
  namespace = none;
  placed_on = some "sf1";
  disk = some disk ∷ [];
  network =
      some (record { network_uuid = some "lan"; address = some (wanted_address 167772165) }) ∷ [];
  video = none;
  uefi = true;
  configdrive = none;
  metadata = [];
  nvram_template = none;
  secure_boot = true;
}

abbrev any_name : String → Bool
any_name name = true

abbrev no_uuid : String → Bool
no_uuid text = false

abbrev checked : Checked
checked = record {
  name = "web";
  namespace = "team";
  disk = record disk { blob_uuid = some "b1" } ∷ [];
  network = record { network_uuid = some "n1"; address = some (wanted_address 167772165) } ∷ [];
  video = record { model = some "cirrus"; memory = some 16384; vdi = some "spice" };
  uefi = true;
  configdrive = "openstack-disk";
  nvram_template = none;
  secure_boot = true;
  machine_type = "q35";
  placed_on = some "sf1";
  artifacts = snapshot_found ∷ [];
}

accepted : check_request any_name no_uuid (λ i. "new") "virtio" "team" db request ≡ ok checked
unfolding check_request check_arguments check_rest namespace_is_trusted valid_name check_node elem
    transform_disks transform_disk transform_nvram any_ide check_networks netdesc_safety_checks
    network_of address_fits check_video validate_metadata is_substring characters get_disk_device
    base_of noneish after resolve_base artifact_disk base_artifact from_db checked_blob
    artifact_safety_checks blob_of resolve_to_blob most_recent_index lookup keys from_db_by_ref
    find_named namespace_filter is_in_range network_address broadcast_address num_addresses
    StateName-discrete OptionStateName-discrete
accepted = refl

check_request-Accepted_example : Accepted any_name "virtio" "team" db checked
check_request-Accepted_example =
    check_request-Accepted any_name no_uuid (λ i. "new") "virtio" "team" db request checked accepted

-- A template that is a blob, where no disk comes from an artifact
plain_disks :
    transform_nvram
      (λ i. "new")
      "virtio"
      "team"
      "team"
      db
      (some "sf://blob/b1")
      (record { artifacts = []; blob_uuid = none })
    ≡ err unbound_local_error
unfolding transform_nvram nvram_blob
plain_disks = refl

check_request-nvram_template_example :
    check_request any_name no_uuid
      (λ i. "new")
      "virtio"
      "team"
      db
      (record request { nvram_template = some "sf://blob/b1" })
    ≡ check_request any_name no_uuid
        (λ i. "new")
        "virtio"
        "team"
        db
        (record request { nvram_template = some "sf://blob/b2" })
check_request-nvram_template_example =
    check_request-nvram_template any_name no_uuid (λ i. "new") "virtio" "team" db request
      "sf://blob/b1" "sf://blob/b2" (record { no_label = refl; url = refl; filled = refl })
      (record { no_label = refl; url = refl; filled = refl })
