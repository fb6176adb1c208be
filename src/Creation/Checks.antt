-- ===== src/Creation/Checks.antt =====
-- All the checks of post before an instance is made, in their order (_netdesc_safety_checks,
-- _validate_instance_metadata and post of shakenfist/external_api/instance.py).
use Prim.Native.String.{String}
use shakenfist.Prelude.{
  ℕ, Bool, true, false, not, ◌&&◌, ◌||◌, List, [], ◌∷◌, Option, none, some, Dict, lookup, is_some,
  elem, ltb, ◌==◌, string_eq, if◌then◌else◌, Result, ok, err, ◌>>=◌, ◌>>◌,
}
use shakenfist.ObjectState.Names.{
  StateName, created, option_state_name_eq, OptionStateName-discrete,
}
use shakenfist.ObjectState.Tables.{is_substring}
use shakenfist.Ipam.Block.{Block, is_in_range}
use shakenfist.Artifact.Url.{Found}
use shakenfist.Namespace.Model.{namespace_is_trusted}
use shakenfist.Namespace.Access.{Object, RefError, multiple_objects, from_db_by_ref}
use shakenfist.Instance.Disks.{DiskSpec, or_none, or_text}
use shakenfist.Creation.Request.{
  ApiError, status, check, Address, no_address, wanted_address, NetDesc, MetaValue, falsy, a_list,
  a_dict, scalar, Video, Request, Network, Database, characters,
}
use shakenfist.Creation.Disk.{Loop, transform_disks, transform_nvram}

-- What the request has become when it passed: the arguments of Instance.new, and the artifacts.
pub record Checked : Type 0 where
  pub name : String
  pub namespace : String
  pub disk : List DiskSpec
  pub network : List NetDesc
  pub video : Video
  pub uefi : Bool
  pub configdrive : String
  pub nvram_template : Option String
  pub secure_boot : Bool
  pub machine_type : String
  pub placed_on : Option String
  pub artifacts : List Found

abbrev pub objects_of : Dict String Network → Dict String Object
objects_of [] = []
objects_of ((uuid, n) ∷ networks) = (uuid, n.object) ∷ objects_of networks

-- the network of an object that was found
unfoldable pub network_of :
    Dict String Network → Result RefError (Option Object) → Result ApiError Network
network_of networks (err multiple_objects) = err (status 400)
network_of networks (ok none) = err (status 404)
network_of networks (ok (some o)) = elim (lookup o.uuid networks) [
  | none ↦ err (status 404)
  | some n ↦ ok n
]

-- the range check of an address
unfoldable pub address_fits : Block → Option Address → Bool
unfolding is_in_range
address_fits block none = true
address_fits block (some no_address) = true
address_fits block (some (wanted_address address)) = is_in_range block address

abbrev pub given : Option String → Result ApiError String
given none = err (status 400)
given (some network_uuid) = ok network_uuid

-- `valid_uuid4` says whether Python's uuid module reads a text as a UUID.
module _ (valid_uuid4 : String → Bool) (caller : String) (networks : Dict String Network)
    (namespace : String) where
  -- _netdesc_safety_checks, on the description with the uuid of the network
  unfoldable pub netdesc_safety_checks : Option NetDesc → Result ApiError NetDesc
  unfolding from_db_by_ref network_of address_fits OptionStateName-discrete
  netdesc_safety_checks none = err (status 400)
  netdesc_safety_checks (some netdesc) = do
    ref ← given netdesc.network_uuid
    n ← network_of networks (from_db_by_ref valid_uuid4 ref caller (objects_of networks))
    check 400 (address_fits n.block netdesc.address)
    check 406 (n.state == some created)
    check 404 (n.object.namespace == namespace)
    ok (record netdesc { network_uuid = some n.object.uuid })

  -- the loop over the networks
  unfoldable pub check_networks : List (Option NetDesc) → Result ApiError (List NetDesc)
  unfolding netdesc_safety_checks
  check_networks [] = ok []
  check_networks (d ∷ network) = do
    first ← netdesc_safety_checks d
    rest ← check_networks network
    ok (first ∷ rest)

abbrev all_true : List Bool → Bool
all_true [] = true
all_true (b ∷ bs) = b && all_true bs

-- _validate_instance_metadata, once there is a value
abbrev valid_value : String → MetaValue → Bool
valid_value key falsy = false
valid_value key a_list = not (key == "affinity")
valid_value key (a_dict values) =
    not (key == "tags") && (not (key == "affinity") || all_true values)
valid_value key scalar = not (key == "tags") && not (key == "affinity")

-- _validate_instance_metadata, for each key
unfoldable pub validate_metadata : Dict String MetaValue → Bool
validate_metadata [] = true
validate_metadata ((key, value) ∷ metadata) =
    not (key == "") && valid_value key value && validate_metadata metadata

-- the video specification, with its defaults
unfoldable pub check_video : Option Video → Result ApiError Video
check_video none = ok (record { model = some "cirrus"; memory = some 16384; vdi = some "spice" })
check_video (some video) = do
  check 400 (is_some video.model)
  check 400 (is_some video.memory)
  ok (record video { vdi = elim video.vdi [ none ↦ some "spice" | some vdi ↦ some vdi ] })

-- the node that the request names
unfoldable pub check_node :
    Dict String (Option StateName) → Option String → Result ApiError (Unit {0})
unfolding OptionStateName-discrete
check_node nodes none = ok tt
check_node nodes (some name) = elim (lookup name nodes) [
  | none ↦ err (status 404)
  | some state ↦ check 404 (state == some created)
]

-- the test of the name; `hostname` is the validator of a host name
unfoldable pub valid_name : (String → Bool) → String → Bool
unfolding is_substring characters
valid_name hostname name =
    hostname name && not (is_substring "." name) && not (ltb 63 (characters name))

-- whether some disk is on an IDE bus
unfoldable pub any_ide : List DiskSpec → Bool
any_ide [] = false
any_ide (d ∷ disk) = or_text "" d.bus == "ide" || any_ide disk

abbrev pub some_disk : List (Option DiskSpec) → Bool
some_disk [] = false
some_disk (d ∷ disk) = true

-- The config drive asked for, or the default.
abbrev pub drive_of : Option String → String
drive_of configdrive = or_text "openstack-disk" configdrive

module _ (hostname valid_uuid4 : String → Bool) (fresh : ℕ → String) (config_bus caller : String)
    (db : Database) where
  -- the first checks of post, up to the loop over the disks
  unfoldable pub check_arguments : Request → Result ApiError (Unit {0})
  unfolding namespace_is_trusted valid_name check_node elem
  check_arguments r = do
    check 404 (namespace_is_trusted db.namespaces (or_text caller r.namespace) caller)
    check 400 (valid_name hostname r.name)
    check 400 (not r.secure_boot || r.uefi)
    check_node db.nodes (or_none r.placed_on)
    check 400 (elem (drive_of r.configdrive) ("openstack-disk" ∷ "none" ∷ []))
    check 400 (some_disk r.disk)

  -- the checks after the NVRAM template, up to the call of Instance.new
  unfoldable pub check_rest :
      Request → List DiskSpec × Loop → Option String → Result ApiError Checked
  unfolding any_ide check_networks check_video validate_metadata
  check_rest r disks nvram_template = do
    check 400 (not (any_ide disks.0))
    network ← check_networks valid_uuid4 caller db.networks (or_text caller r.namespace) r.network
    video ← check_video r.video
    check 400 (validate_metadata r.metadata)
    ok (record {
      name = r.name;
      namespace = or_text caller r.namespace;
      disk = disks.0;
      network = network;
      video = video;
      uefi = r.uefi;
      configdrive = drive_of r.configdrive;
      nvram_template = nvram_template;
      secure_boot = r.secure_boot;
      machine_type = if r.secure_boot then "q35" else "pc";
      placed_on = or_none r.placed_on;
      artifacts = disks.1.artifacts;
    })

  -- post, up to the call of Instance.new
  unfoldable pub check_request : Request → Result ApiError Checked
  unfolding check_arguments transform_disks transform_nvram check_rest
  check_request r =
      let namespace = or_text caller r.namespace in
      let start : Loop = record { artifacts = db.artifacts; blob_uuid = none } in
      (do
        check_arguments r
        disks ← transform_disks fresh config_bus caller namespace db 0 r.disk start
        nvram_template ←
            transform_nvram fresh config_bus caller namespace db r.nvram_template disks.1
        check_rest r disks nvram_template)
