-- ===== src/Blob/Count.antt =====
-- Counting up and down (shakenfist/blob.py).
use Prim.Native.String.{String}
use shakenfist.Prelude.{
  ℕ, suc, ◌+◌, ◌-◌, ◌<◌, ◌≡◌, ◌≢◌, sym, ap, ◌∙◌, true, [], ◌∷◌, some, lookup, insert, contains,
  string_eq, nat_eq, Result, ok, ◌>>=◌, lookup-insert_self, lookup-insert_ne, beq_ne, is_some,
  arith,
}
use shakenfist.ObjectState.Names.{deleted, option_state_name_eq}
use shakenfist.Blob.Model.{
  Blob, Blobs, BlobError, set_deleted, dec_each, references, delete_unused, ref_count_inc,
  ref_count_dec,
}
use shakenfist.Blob.Release.{counted, ref_count_dec-step}

-- One blob has a new count, and nothing else changed.
pub record Recounted (uuid : String) (b : Blob) (count : ℕ) (blobs blobs' : Blobs) : Type 0 where
  pub self : lookup uuid blobs' ≡ some (record b { ref_count = count })
  pub others : (v : String) → v ≢ uuid → lookup v blobs' ≡ lookup v blobs

dec-used :
    (fuel count : ℕ) (uuid : String) (b : Blob) (blobs : Blobs)
    → lookup uuid blobs ≡ some b
    → 1 < b.ref_count
    → ref_count_dec (suc fuel) count uuid blobs ≡ ok (insert uuid (counted b) blobs)
dec-used fuel count uuid b blobs here more =
    ref_count_dec-step fuel count uuid b blobs here
    ∙ (unfold delete_unused in rw (beq_ne (b.ref_count - 1) 0 (omega arith)))

inc-alive :
    (uuid : String) (b : Blob) (count : ℕ) (blobs : Blobs)
    → lookup uuid blobs ≡ some b
    → b.state ≢ some deleted
    → ref_count_inc uuid count blobs
      ≡ ok (insert uuid (record b { ref_count = b.ref_count + count }) blobs)
unfolding ref_count_inc
inc-alive uuid b count blobs here alive =
    rw (here, ref_count_inc) (rw (beq_ne b.state (some deleted) alive))

-- A decrement takes one from the count, however many references its caller gives up: after an
-- increment by `count` of a blob that is not deleted, a decrement by `count` leaves `count - 1` more
-- than there were, if the increment made it more than 1, and changes nothing else.
pub ref_count_dec-inc :
    (fuel : ℕ) (uuid : String) (b : Blob) (count : ℕ) (blobs : Blobs)
    → lookup uuid blobs ≡ some b
    → b.state ≢ some deleted
    → 1 < b.ref_count + count
    → (blobs' : Blobs) × ((do
      x ← ref_count_inc uuid count blobs
      ref_count_dec (suc fuel) count uuid x)
        ≡ ok blobs')
      × Recounted uuid b (b.ref_count + count - 1) blobs blobs'
ref_count_dec-inc fuel uuid b count blobs here alive more =
    let b₁ : Blob = record b { ref_count = b.ref_count + count } in
    let blobs₁ = insert uuid b₁ blobs in
    let blobs₂ = insert uuid (counted b₁) blobs₁ in
    (
      blobs₂,
      rw (inc-alive uuid b count blobs here alive)
          (dec-used fuel count uuid b₁ blobs₁ (lookup-insert_self uuid b₁ blobs) more),
      record {
        self = lookup-insert_self uuid (counted b₁) blobs₁;
        others = λ v n.
            lookup-insert_ne uuid v (counted b₁) blobs₁ (λ p. n (sym p))
            ∙ lookup-insert_ne uuid v b₁ blobs (λ p. n (sym p));
      },
    )

again_deleted : (b : Blob) → b.state ≡ some deleted → set_deleted b ≡ ok b
unfolding set_deleted
again_deleted b gone = rw ((option_state_name_eq.beq_iff b.state (some deleted)).1 gone)

one_reference :
    (dep : String) (b : Blob)
    → b.transcoded ≡ []
    → b.depends_on ≡ some dep
    → references b ≡ dep ∷ []
unfolding references
one_reference dep b no_styles depends = rw (no_styles, depends)

dec_one :
    (dec : String → Blobs → Result BlobError Blobs) (uuid : String) (blobs : Blobs)
    → contains uuid blobs ≡ true
    → dec_each dec (uuid ∷ []) blobs ≡ (dec uuid blobs >>= ok)
unfolding dec_each
dec_one dec uuid blobs there = rw there

delete_again :
    (dec : String → Blobs → Result BlobError Blobs) (uuid dep : String) (b : Blob) (blobs : Blobs)
    → b.state ≡ some deleted
    → references b ≡ dep ∷ []
    → delete_unused dec uuid b 0 blobs ≡ dec_each dec (dep ∷ []) (insert uuid b blobs)
unfolding delete_unused
delete_again dec uuid dep b blobs gone refs = rw (again_deleted b gone, refs)

-- A decrement of a blob that is deleted already, and whose count is zero, takes a reference from the
-- blob that it depends on once more.
pub ref_count_dec-again :
    (fuel : ℕ) (uuid dep : String) (b c : Blob) (blobs : Blobs)
    → lookup uuid blobs ≡ some b
    → b.state ≡ some deleted
    → b.ref_count ≡ 0
    → b.transcoded ≡ []
    → b.depends_on ≡ some dep
    → lookup dep blobs ≡ some c
    → 1 < c.ref_count
    → uuid ≢ dep
    → (blobs' : Blobs) × (ref_count_dec (suc (suc fuel)) 1 uuid blobs ≡ ok blobs')
      × (lookup dep blobs' ≡ some (counted c))
ref_count_dec-again fuel uuid dep b c blobs here gone none_left no_styles depends there more n =
    let blobs₁ = insert uuid (counted b) blobs in
    let blobs₂ = insert uuid (counted b) blobs₁ in
    let there₂ =
      lookup-insert_ne uuid dep (counted b) blobs₁ n
      ∙ (lookup-insert_ne uuid dep (counted b) blobs n ∙ there) in
    (
      insert dep (counted c) blobs₂,
      ref_count_dec-step (suc fuel) 1 uuid b blobs here
          ∙ ap (λ k. delete_unused (ref_count_dec (suc fuel) 1) uuid (counted b) k blobs₁)
              (ap (λ k. k - 1) none_left)
          ∙ delete_again (ref_count_dec (suc fuel) 1) uuid dep (counted b) blobs₁ gone
              (one_reference dep (counted b) no_styles depends)
          ∙ dec_one (ref_count_dec (suc fuel) 1) dep blobs₂ (ap is_some there₂)
          ∙ ap (λ r. r >>= ok) (dec-used fuel 1 dep c blobs₂ there₂ more),
      lookup-insert_self dep (counted c) blobs₂,
    )
