-- ===== src/Blob/Release.antt =====
-- What a decrement changes (shakenfist/blob.py): counts only fall, and a blob is deleted only when
-- nothing refers to it.
use Prim.Native.String.{String}
use text.Mathlib.TextEquality.{eq_iff}
use mathlib.Core.Path.{subst}
use shakenfist.Prelude.{
  ℕ, zero, suc, ◌-◌, ◌≤◌, ◌≡◌, refl, sym, ◌∙◌, List, [], ◌∷◌, Option, none, some, lookup, insert,
  contains, ◌==◌, string_eq, nat_beq, nat_eq, ok-injective, bind-ok, lookup-insert_self, Result, ok,
  lookup-insert, Bool-cases, ◌⊎◌, inl, inr, Option-cases, arith,
}
use shakenfist.ObjectState.Names.{deleted, option_state_name_eq}
use shakenfist.Blob.Model.{
  Blob, Blobs, BlobError, set_deleted, dec_each, references, delete_unused, ref_count_dec,
}

-- From `b` to `b'` the count did not rise, the references are the same, and the state is the same or
-- has become `deleted` with no reference left.
pub record Less (b b' : Blob) : Type 0 where
  pub count : b'.ref_count ≤ b.ref_count
  pub depends_on : b'.depends_on ≡ b.depends_on
  pub transcoded : b'.transcoded ≡ b.transcoded
  pub state : (b'.state ≡ b.state) ⊎ ((b'.state ≡ some deleted) × (b'.ref_count ≡ 0))

abbrev pub OptionLess : Option Blob → Option Blob → Type 0
OptionLess none none = Unit
OptionLess (some b) (some b') = Less b b'
OptionLess _ _ = ⊥

-- So it is for every blob.
pub record Fewer (blobs blobs' : Blobs) : Type 0 where
  pub at : (uuid : String) → OptionLess (lookup uuid blobs) (lookup uuid blobs')

Less-refl : (b : Blob) → Less b b
Less-refl b = record { count = omega arith; depends_on = refl; transcoded = refl; state = inl refl }

Less-trans : (b c d : Blob) → Less b c → Less c d → Less b d
Less-trans b c d f g = record {
  count = omega (arith, f.count, g.count);
  depends_on = g.depends_on ∙ f.depends_on;
  transcoded = g.transcoded ∙ f.transcoded;
  state = ground (arith, f.state, g.state, f.count, g.count);
}

OptionLess-refl : (o : Option Blob) → OptionLess o o
OptionLess-refl none = tt
OptionLess-refl (some b) = Less-refl b

OptionLess-trans : (o p q : Option Blob) → OptionLess o p → OptionLess p q → OptionLess o q
OptionLess-trans none none none f g = tt
OptionLess-trans none none (some d) f g = g
OptionLess-trans none (some c) q f g = elim f [ ]
OptionLess-trans (some b) none q f g = elim f [ ]
OptionLess-trans (some b) (some c) none f g = g
OptionLess-trans (some b) (some c) (some d) f g = Less-trans b c d f g

pub Fewer-refl : (blobs : Blobs) → Fewer blobs blobs
Fewer-refl blobs = record { at = λ u. OptionLess-refl (lookup u blobs) }

pub Fewer-trans : (x y z : Blobs) → Fewer x y → Fewer y z → Fewer x z
Fewer-trans x y z f g = record {
  at = λ u. OptionLess-trans (lookup u x) (lookup u y) (lookup u z) (f.at u) (g.at u);
}

-- Replacing one blob by one with less.
pub Fewer-insert :
    (uuid : String) (b b' : Blob) (blobs : Blobs)
    → lookup uuid blobs ≡ some b
    → Less b b'
    → Fewer blobs (insert uuid b' blobs)
Fewer-insert uuid b b' blobs here l = record {
  at = λ v. elim (Bool-cases (uuid == v)) [
    | inl same ↦
        rw (lookup-insert, same)
          (subst (λ w. OptionLess (lookup w blobs) (some b')) ((eq_iff uuid v).0 same) (rw here l))
    | inr other ↦ rw (lookup-insert, other) (OptionLess-refl (lookup v blobs))
  ];
}

set_deleted-ok : (b b' : Blob) → set_deleted b ≡ ok b' → b' ≡ record b { state = some deleted }
unfolding set_deleted
set_deleted-ok b b' h = ground (arith, option_state_name_eq.beq_iff b.state (some deleted))

pub set_deleted-Less : (b b' : Blob) → b.ref_count ≡ 0 → set_deleted b ≡ ok b' → Less b b'
set_deleted-Less b b' none_left h = rw (set_deleted-ok b b' h) (record {
  count = omega arith;
  depends_on = refl;
  transcoded = refl;
  state = inr (refl, none_left);
})

abbrev pub Decreases : (String → Blobs → Result BlobError Blobs) → Type 0
Decreases dec =
    (uuid : String) (blobs blobs' : Blobs) → dec uuid blobs ≡ ok blobs' → Fewer blobs blobs'

dec_each-Fewer :
    (dec : String → Blobs → Result BlobError Blobs) (uuids : List String) (blobs blobs' : Blobs)
    → Decreases dec
    → dec_each dec uuids blobs ≡ ok blobs'
    → Fewer blobs blobs'
unfolding dec_each
dec_each-Fewer dec [] blobs blobs' d h = subst (Fewer blobs) (ok-injective h) (Fewer-refl blobs)
dec_each-Fewer dec (uuid ∷ uuids) blobs blobs' d h = elim (Bool-cases (contains uuid blobs)) [
  | inl there ↦
      let (between, first, rest) = bind-ok (dec uuid blobs) (dec_each dec uuids) (rw there at h) in
      Fewer-trans blobs between blobs' (d uuid blobs between first)
        (dec_each-Fewer dec uuids between blobs' d rest)
  | inr missing ↦ dec_each-Fewer dec uuids blobs blobs' d (rw missing at h)
]

delete_unused-Fewer :
    (dec : String → Blobs → Result BlobError Blobs) (uuid : String) (b : Blob) (new_count : ℕ)
    (blobs blobs' : Blobs)
    → Decreases dec
    → lookup uuid blobs ≡ some b
    → b.ref_count ≡ new_count
    → delete_unused dec uuid b new_count blobs ≡ ok blobs'
    → Fewer blobs blobs'
unfolding delete_unused
delete_unused-Fewer dec uuid b new_count blobs blobs' d here count h =
    elim (Bool-cases (nat_beq new_count 0)) [
      | inl unused ↦
          let (b', gone, rest) =
            bind-ok (set_deleted b) (λ b'. dec_each dec (references b) (insert uuid b' blobs))
              (rw unused at h) in
          Fewer-trans blobs (insert uuid b' blobs) blobs'
            (Fewer-insert uuid b b' blobs here
              (set_deleted-Less b b' (count ∙ (nat_eq.beq_iff new_count 0).0 unused) gone))
            (dec_each-Fewer dec (references b) (insert uuid b' blobs) blobs' d rest)
      | inr used ↦ subst (Fewer blobs) (ok-injective (rw used at h)) (Fewer-refl blobs)
    ]

abbrev pub counted : Blob → Blob
counted b = record b { ref_count = b.ref_count - 1 }

pub counted-Less : (b : Blob) → Less b (counted b)
counted-Less b = record {
  count = omega arith;
  depends_on = refl;
  transcoded = refl;
  state = inl refl;
}

pub ref_count_dec-step :
    (fuel count : ℕ) (uuid : String) (b : Blob) (blobs : Blobs)
    → lookup uuid blobs ≡ some b
    → ref_count_dec (suc fuel) count uuid blobs
      ≡ delete_unused
          (ref_count_dec fuel 1)
          uuid
          (counted b)
          (b.ref_count - 1)
          (insert uuid (counted b) blobs)
unfolding ref_count_dec
ref_count_dec-step fuel count uuid b blobs here = rw (here, ref_count_dec)

-- After a decrement that succeeds, whatever it does to the blobs that the blob refers to, no count
-- has risen, no reference and no deletion is undone, and every blob whose state changed is deleted
-- with a count of zero.
pub ref_count_dec-Fewer :
    (fuel count : ℕ) (uuid : String) (blobs blobs' : Blobs)
    → ref_count_dec fuel count uuid blobs ≡ ok blobs'
    → Fewer blobs blobs'
unfolding ref_count_dec
ref_count_dec-Fewer zero count uuid blobs blobs' h = cc
ref_count_dec-Fewer (suc fuel) count uuid blobs blobs' h = elim (Option-cases (lookup uuid blobs)) [
  | inl missing ↦ absurd (ground arith)
  | inr (b, here) ↦
      Fewer-trans blobs (insert uuid (counted b) blobs) blobs'
        (Fewer-insert uuid b (counted b) blobs here (counted-Less b))
        (delete_unused-Fewer (ref_count_dec fuel 1) uuid (counted b) (b.ref_count - 1)
          (insert uuid (counted b) blobs) blobs' (ref_count_dec-Fewer fuel 1)
          (lookup-insert_self uuid (counted b) blobs) refl
          (sym (ref_count_dec-step fuel count uuid b blobs here) ∙ h))
]
