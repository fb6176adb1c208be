-- ===== src/Artifact/Unneeded.antt =====
-- When add_index has nothing to add: the most recent index of an artifact has the blob already, or one
-- of the same checksum (shakenfist/artifact.py).
use Prim.Native.String.{String}
use text.Mathlib.TextEquality.{eq_iff}
use mathlib.Core.Path.{subst}
use shakenfist.Prelude.{
  ℕ, ◌≡◌, ◌≢◌, true, false, refl, sym, ap, Option, none, some, lookup, string_eq, nat_eq, beq_ne,
  beq_refl, arith, ◌⊎◌,
}
use shakenfist.Blob.Model.{Blob, Blobs}
use shakenfist.Artifact.Model.{Artifact, most_recent_index, same_content}

-- The sha512 of a blob, if there is such a blob and it has one
abbrev pub checksum : String → Blobs → Option String
checksum uuid blobs = elim (lookup uuid blobs) [ none ↦ none | some b ↦ b.sha512 ]

pub checksum-lookup :
    (uuid : String) (blobs : Blobs) (b : Blob)
    → lookup uuid blobs ≡ some b
    → checksum uuid blobs ≡ b.sha512
checksum-lookup uuid blobs b here = rw (checksum, here) refl

-- The most recent index has the blob, or one with the same checksum, which is not empty.
pub record Unneeded (uuid : String) (blobs : Blobs) (a : Artifact) : Type 0 where
  pub index : ℕ
  pub old_uuid : String
  pub recent : most_recent_index a ≡ some (index, old_uuid)
  pub same :
      (old_uuid ≡ uuid)
      ⊎ ((sha512 : String) × (sha512 ≢ "")
          × (checksum old_uuid blobs ≡ some sha512)
          × (checksum uuid blobs ≡ some sha512))

pub same_content-true :
    (old new : Option String)
    → same_content old new ≡ true
    → (sha512 : String) × (sha512 ≢ "") × (old ≡ some sha512) × (new ≡ some sha512)
same_content-true none new h = cc
same_content-true (some x) none h = cc
same_content-true (some x) (some y) h = (
  x,
  (λ p. ground (arith, h, p, eq_iff x "")),
  refl,
  ap some (sym (ground (arith, h, eq_iff x y))),
)

pub same_content-false :
    (old new : Option String) (sha512 : String)
    → same_content old new ≡ false
    → sha512 ≢ ""
    → old ≡ some sha512
    → new ≡ some sha512
    → ⊥
same_content-false old new sha512 h there p q =
    let h1 =
      subst (λ n. same_content (some sha512) n ≡ false) q
        (subst (λ o. same_content o new ≡ false) p h) in
    ground (arith, h1, beq_refl sha512, beq_ne sha512 "" there)
