-- ===== src/Blob/Fuel.antt =====
-- A decrement ends (shakenfist/blob.py): the references of blobs have no cycle, and then the fuel
-- need only be more than the length of the longest chain of references.
use Prim.Native.String.{String}
use mathlib.Core.Path.{subst}
use shakenfist.Prelude.{
  ℕ, zero, suc, ◌-◌, ◌≤◌, ◌<◌, ◌≡◌, refl, ◌∙◌, true, List, [], ◌∷◌, Option, none, some, lookup,
  insert, contains, is_some, string_eq, nat_beq, nat_eq, Result, ok, lookup-insert_self, Bool-cases,
  Option-cases, inl, inr, All, All-map, is_ok, ◌||◌, ◌==◌, beq_refl, arith,
}
use shakenfist.ObjectState.Names.{deleted, option_state_name_eq, blob}
use shakenfist.ObjectState.Update.{validate}
use shakenfist.Blob.Model.{
  Blob, Blobs, BlobError, set_deleted, dec_each, references, delete_unused, ref_count_dec,
}
use shakenfist.Blob.Release.{
  Less, OptionLess, Fewer, Fewer-insert, set_deleted-Less, counted, counted-Less,
  ref_count_dec-step, ref_count_dec-Fewer, Decreases,
}

-- `deleted` is a state that the blob may go to.
abbrev pub Deletable : Blob → Type 0
Deletable b = (b.state == some deleted || is_ok (validate blob b.state deleted)) ≡ true

-- A blob has a higher rank than each that it refers to and that there is, and may be deleted.
pub record IsRanked (rank : String → ℕ) (blobs : Blobs) : Type 0 where
  pub below :
      (uuid : String) (b : Blob)
      → lookup uuid blobs ≡ some b
      → All (λ v. contains v blobs ≡ true → rank v < rank uuid) (references b)
  pub deletable : (uuid : String) (b : Blob) → lookup uuid blobs ≡ some b → Deletable b

-- What came from a blob by decrements.
origin :
    (o : Option Blob) (b' : Blob) → OptionLess o (some b') → (b : Blob) × (o ≡ some b) × Less b b'
origin none b' l = elim l [ ]
origin (some b) b' l = (b, refl, l)

contains-Fewer : (o o' : Option Blob) → OptionLess o o' → is_some o' ≡ true → is_some o ≡ true
contains-Fewer none none l h = h
contains-Fewer none (some b) l h = elim l [ ]
contains-Fewer (some b) o' l h = refl

contains-Fewer_back : (o o' : Option Blob) → OptionLess o o' → is_some o ≡ true → is_some o' ≡ true
contains-Fewer_back (some b) none l h = elim l [ ]
contains-Fewer_back (some b) (some c) l h = refl
contains-Fewer_back none o' l h = cc

references-Less : (b b' : Blob) → Less b b' → references b' ≡ references b
unfolding references
references-Less b b' l = rw (l.depends_on, l.transcoded)

Deletable-Less : (b b' : Blob) → Less b b' → Deletable b → Deletable b'
Deletable-Less b b' l h = elim l.state [
  | inl same ↦ rw same h
  | inr gone ↦ rw (gone.0, beq_refl (some deleted))
]

set_deleted-Deletable : (b : Blob) → Deletable b → (b' : Blob) × (set_deleted b ≡ ok b')
unfolding set_deleted
set_deleted-Deletable b h = (
  record b { state = some deleted },
  ground (arith, option_state_name_eq.beq_iff b.state (some deleted)),
)

IsRanked-Fewer :
    (rank : String → ℕ) (blobs blobs' : Blobs)
    → Fewer blobs blobs'
    → IsRanked rank blobs
    → IsRanked rank blobs'
IsRanked-Fewer rank blobs blobs' f r = record {
  below = λ u b' here.
      let (b, there, l) =
        origin (lookup u blobs) b' (subst (OptionLess (lookup u blobs)) here (f.at u)) in
      rw (references-Less b b' l) (
        All-map (references b)
          (λ v k c. k (contains-Fewer (lookup v blobs) (lookup v blobs') (f.at v) c))
          (r.below u b there));
  deletable = λ u b' here.
      let (b, there, l) =
        origin (lookup u blobs) b' (subst (OptionLess (lookup u blobs)) here (f.at u)) in
      Deletable-Less b b' l (r.deletable u b there);
}

abbrev Succeeds : (String → Blobs → Result BlobError Blobs) → String → Blobs → Type 0
Succeeds dec uuid blobs = (blobs' : Blobs) × (dec uuid blobs ≡ ok blobs')

dec_each-Succeeds :
    (rank : String → ℕ) (bound : ℕ) (dec : String → Blobs → Result BlobError Blobs)
    (uuids : List String) (blobs : Blobs)
    → Decreases dec
    → ((u : String) (x : Blobs)
        → IsRanked rank x
        → contains u x ≡ true
        → rank u < bound
        → Succeeds dec u x)
    → IsRanked rank blobs
    → All (λ v. contains v blobs ≡ true → rank v < bound) uuids
    → (blobs' : Blobs) × (dec_each dec uuids blobs ≡ ok blobs')
unfolding dec_each
dec_each-Succeeds rank bound dec [] blobs d total r low = (blobs, refl)
dec_each-Succeeds rank bound dec (uuid ∷ uuids) blobs d total r low =
    elim (Bool-cases (contains uuid blobs)) [
      | inl there ↦
          let (between, first) = total uuid blobs r there (low.0 there) in
          let f = d uuid blobs between first in
          let (blobs', rest) =
            dec_each-Succeeds rank bound dec uuids between d total
              (IsRanked-Fewer rank blobs between f r)
              (All-map uuids
                (λ v k c. k (contains-Fewer (lookup v blobs) (lookup v between) (f.at v) c))
                low.1) in
          (blobs', rw (there, first) rest)
      | inr missing ↦
          let (blobs', rest) = dec_each-Succeeds rank bound dec uuids blobs d total r low.1 in
          (blobs', rw missing rest)
    ]

delete_unused-Succeeds :
    (rank : String → ℕ) (bound : ℕ) (dec : String → Blobs → Result BlobError Blobs) (uuid : String)
    (b : Blob) (new_count : ℕ) (blobs : Blobs)
    → Decreases dec
    → ((u : String) (x : Blobs)
        → IsRanked rank x
        → contains u x ≡ true
        → rank u < bound
        → Succeeds dec u x)
    → IsRanked rank blobs
    → lookup uuid blobs ≡ some b
    → b.ref_count ≡ new_count
    → rank uuid ≤ bound
    → (blobs' : Blobs) × (delete_unused dec uuid b new_count blobs ≡ ok blobs')
unfolding delete_unused
delete_unused-Succeeds rank bound dec uuid b new_count blobs d total r here count enough =
    elim (Bool-cases (nat_beq new_count 0)) [
      | inl unused ↦
          let (b', gone) = set_deleted-Deletable b (r.deletable uuid b here) in
          let f =
            Fewer-insert uuid b b' blobs here
              (set_deleted-Less b b' (count ∙ (nat_eq.beq_iff new_count 0).0 unused) gone) in
          let (blobs', done) =
            dec_each-Succeeds rank bound dec (references b) (insert uuid b' blobs) d total
              (IsRanked-Fewer rank blobs (insert uuid b' blobs) f r)
              (All-map (references b)
                (λ v k c. below_bound v (
                  k (contains-Fewer (lookup v blobs) (lookup v (insert uuid b' blobs)) (f.at v) c)))
                (r.below uuid b here)) in
          (blobs', rw (unused, gone) done)
      | inr used ↦ (blobs, rw used)
    ]
  where
    below_bound : (v : String) → rank v < rank uuid → rank v < bound
    below_bound v k = omega arith

-- If the blobs that there are can be ranked so that each refers only to blobs of lower rank, and
-- each is in a state from which it may be deleted, then a decrement with more fuel than the rank of
-- its blob returns: it neither runs out of fuel nor raises.
pub ref_count_dec-total :
    (rank : String → ℕ) (fuel count : ℕ) (uuid : String) (blobs : Blobs)
    → IsRanked rank blobs
    → contains uuid blobs ≡ true
    → rank uuid < fuel
    → (blobs' : Blobs) × (ref_count_dec fuel count uuid blobs ≡ ok blobs')
ref_count_dec-total rank zero count uuid blobs r there enough = absurd (omega arith)
ref_count_dec-total rank (suc fuel) count uuid blobs r there enough =
    elim (Option-cases (lookup uuid blobs)) [
      | inl missing ↦ absurd (ground arith)
      | inr (b, here) ↦
          let f = Fewer-insert uuid b (counted b) blobs here (counted-Less b) in
          let (blobs', done) =
            delete_unused-Succeeds rank fuel (ref_count_dec fuel 1) uuid (counted b)
              (b.ref_count - 1) (insert uuid (counted b) blobs) (ref_count_dec-Fewer fuel 1)
              (λ u x ranked c low. ref_count_dec-total rank fuel 1 u x ranked c low)
              (IsRanked-Fewer rank blobs (insert uuid (counted b) blobs) f r)
              (lookup-insert_self uuid (counted b) blobs) refl (omega arith) in
          (blobs', ref_count_dec-step fuel count uuid b blobs here ∙ done)
    ]
