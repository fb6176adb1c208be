-- ===== src/Blob/Model.antt =====
-- Blobs and their reference counts (shakenfist/blob.py). A blob is in use as long as something refers
-- to it: artifacts, instances, agent operations, and the blobs which depend on it.
use Prim.Native.String.{String}
use shakenfist.Prelude.{
  ℕ, zero, suc, ◌+◌, ◌-◌, List, [], ◌∷◌, ◌++◌, Option, none, some, Dict, lookup, insert, contains,
  ◌==◌, string_eq, nat_beq, if◌then◌else◌, Result, ok, err, ◌>>=◌, ◌>>◌,
}
use shakenfist.ObjectState.Names.{
  StateName, deleted, option_state_name_eq, OptionStateName-discrete, blob,
}
use shakenfist.ObjectState.Update.{Failure, validate}

-- A blob, as far as references go. `transcoded` maps styles to the uuids of other blobs, and
-- `sha512` is the entry of that name in `checksums`.
pub record Blob : Type 0 where
  pub depends_on : Option String
  pub state : Option StateName
  pub ref_count : ℕ
  pub transcoded : Dict String String
  pub sha512 : Option String

-- The blobs in etcd, by uuid
abbrev pub Blobs : Type 0
Blobs = Dict String Blob

-- `out_of_fuel` is no exception of the program: the model gave up.
pub data BlobError : Type 0 where
  out_of_fuel : BlobError
  blob_missing : BlobError
  blob_deleted : BlobError
  failed : Failure → BlobError

abbrev pub raised : Result Failure (Unit {0}) → Result BlobError (Unit {0})
raised (ok u) = ok u
raised (err e) = err (failed e)

-- `self.state = self.STATE_DELETED`
unfoldable pub set_deleted : Blob → Result BlobError Blob
unfolding OptionStateName-discrete
set_deleted b =
    if b.state == some deleted
    then ok b
    else (do raised (validate blob b.state deleted); ok (record b { state = some deleted }))

-- ref_count_inc
unfoldable pub ref_count_inc : String → ℕ → Blobs → Result BlobError Blobs
unfolding OptionStateName-discrete
ref_count_inc uuid count blobs = elim (lookup uuid blobs) [
  | none ↦ err blob_missing
  | some b ↦
      if b.state == some deleted
      then err blob_deleted
      else ok (insert uuid (record b { ref_count = b.ref_count + count }) blobs)
]

-- `for …: b = Blob.from_db(uuid); if b: b.ref_count_dec(self)`
unfoldable pub dec_each :
    (String → Blobs → Result BlobError Blobs) → List String → Blobs → Result BlobError Blobs
dec_each dec [] blobs = ok blobs
dec_each dec (uuid ∷ uuids) blobs =
    if contains uuid blobs
    then (do blobs' ← dec uuid blobs; dec_each dec uuids blobs')
    else dec_each dec uuids blobs

-- d.values()
abbrev pub values {ℓ κ} : {K : Type ℓ} {V : Type κ} → Dict K V → List V
values [] = []
values ((k, v) ∷ d) = v ∷ values d

abbrev pub option_list {ℓ} : {A : Type ℓ} → Option A → List A
option_list none = []
option_list (some a) = a ∷ []

-- The blobs that a blob refers to: those transcoded from it, and the one that it depends on.
unfoldable pub references : Blob → List String
references b = values b.transcoded ++ option_list b.depends_on

-- _delete_unused, on a blob whose new count is stored
unfoldable pub delete_unused :
    (String → Blobs → Result BlobError Blobs) → String → Blob → ℕ → Blobs → Result BlobError Blobs
unfolding dec_each references
delete_unused dec uuid b new_count blobs =
    if nat_beq new_count 0
    then (do b' ← set_deleted b; dec_each dec (references b) (insert uuid b' blobs))
    else ok blobs

-- ref_count_dec; `count` goes to the event log only. A count below zero is set to zero, as the
-- subtraction of natural numbers does.
unfoldable pub ref_count_dec : ℕ → ℕ → String → Blobs → Result BlobError Blobs
unfolding delete_unused
ref_count_dec zero count uuid blobs = err out_of_fuel
ref_count_dec (suc fuel) count uuid blobs = elim (lookup uuid blobs) [
  | none ↦ err blob_missing
  | some b ↦
      let new_count = b.ref_count - 1 in
      let b' = record b { ref_count = new_count } in
      delete_unused (ref_count_dec fuel 1) uuid b' new_count (insert uuid b' blobs)
]
