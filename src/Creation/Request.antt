-- ===== src/Creation/Request.antt =====
-- What a request to create an instance holds, what the checks look at, and how they fail
-- (shakenfist/external_api/instance.py).
use Prim.Native.String.{String, slice, len}
use text.Mathlib.Text.{starts_with}
use shakenfist.Prelude.{
  ℕ, suc, Bool, true, false, List, [], ◌∷◌, Option, none, some, Dict, elem, string_eq,
  if◌then◌else◌, Result, ok, err,
}
use shakenfist.ObjectState.Names.{StateName}
use shakenfist.Ipam.Block.{Block}
use shakenfist.Blob.Model.{Blobs}
use shakenfist.Artifact.Model.{Artifact}
use shakenfist.Artifact.Url.{Found}
use shakenfist.Namespace.Model.{Namespaces}
use shakenfist.Namespace.Access.{Object}
use shakenfist.Instance.Disks.{DiskSpec}

-- The status of an answer that is an error, or an exception that the endpoint does not handle.
pub data ApiError : Type 0 where
  status : ℕ → ApiError
  too_many_matches : ApiError
  unbound_local_error : ApiError

-- A test that answers with a status where it fails
abbrev pub check : ℕ → Bool → Result ApiError (Unit {0})
check code true = ok tt
check code false = err (status code)

-- A network specification; `address` is a number, or none of them for a text like "none".
pub data Address : Type 0 where
  no_address : Address
  wanted_address : ℕ → Address

pub record NetDesc : Type 0 where
  pub network_uuid : Option String
  pub address : Option Address

-- A value of the metadata, as far as it is looked at: of a dictionary whether int() reads each value.
pub data MetaValue : Type 0 where
  falsy : MetaValue
  a_list : MetaValue
  a_dict : List Bool → MetaValue
  scalar : MetaValue

pub record Video : Type 0 where
  pub model : Option String
  pub memory : Option ℕ
  pub vdi : Option String

-- The arguments of post that the checks look at. `none` in a list is an entry that is no JSON object.
pub record Request : Type 0 where
  pub name : String
  pub namespace : Option String
  pub placed_on : Option String
  pub disk : List (Option DiskSpec)
  pub network : List (Option NetDesc)
  pub video : Option Video
  pub uefi : Bool
  pub configdrive : Option String
  pub metadata : Dict String MetaValue
  pub nvram_template : Option String
  pub secure_boot : Bool

-- A network, as the checks see it.
pub record Network : Type 0 where
  pub object : Object
  pub state : Option StateName
  pub block : Block

-- What is in the database. The versions of an artifact are kept under its uuid.
pub record Database : Type 0 where
  pub namespaces : Namespaces
  pub artifacts : List Found
  pub versions : Dict String Artifact
  pub blobs : Blobs
  pub nodes : Dict String (Option StateName)
  pub networks : Dict String Network

-- 'none'.lower() in each of its spellings
abbrev none_texts : List String
none_texts =
    "none" ∷ "nonE" ∷ "noNe" ∷ "noNE" ∷ "nOne" ∷ "nOnE" ∷ "nONe" ∷ "nONE" ∷ "None" ∷ "NonE" ∷ "NoNe"
    ∷ "NoNE" ∷ "NOne" ∷ "NOnE" ∷ "NONe" ∷ "NONE" ∷ []

-- noneish
unfoldable pub noneish : Option String → Bool
unfolding elem
noneish none = true
noneish (some value) = elem value ("" ∷ none_texts)

-- text[len(prefix):]
unfoldable pub after : String → String → String
after prefix text = slice text (len prefix) (len text)

-- len(text)
unfoldable pub characters : String → ℕ
characters String.[] = 0
characters (String.◌∷◌ c text) = suc (characters text)

-- What the base of a disk asks for.
pub data Base : Type 0 where
  no_base : Base
  label : String → Base
  snapshot : String → Base
  upload_url label_url : String → Base
  blob_url : String → Base
  image : String → Base

-- the chain of tests on `disk_base`
unfoldable pub base_of : Option String → Base
unfolding noneish after
base_of none = no_base
base_of (some disk_base) =
    if noneish (some disk_base)
    then no_base
    else if starts_with disk_base "label:"
    then label (after "label:" disk_base)
    else if starts_with disk_base "sf://snapshot/"
    then snapshot (after "sf://snapshot/" disk_base)
    else if starts_with disk_base "sf://upload/"
    then upload_url disk_base
    else if starts_with disk_base "sf://label/"
    then label_url disk_base
    else if starts_with disk_base "sf://blob/"
    then blob_url (after "sf://blob/" disk_base)
    else image disk_base
