-- ===== src/Blob/Tests.antt =====
-- The theorems on reference counts at two blobs, one of which depends on the other.
use Prim.Native.String.{String}
use shakenfist.Prelude.{
  ℕ, ◌<◌, ◌≡◌, refl, true, [], ◌∷◌, none, some, lookup, insert, contains, string_eq, if◌then◌else◌,
  ok, ◌>>=◌, arith, ◌==◌, All, All-lookup,
}
use shakenfist.ObjectState.Names.{created, deleted, OptionStateName-discrete}
use shakenfist.Blob.Model.{Blob, Blobs, ref_count_inc, ref_count_dec, references, set_deleted}
use shakenfist.ObjectState.Update.{validate}
use shakenfist.ObjectState.Tables.{state_targets, in_state_targets}
use shakenfist.Blob.Release.{Fewer, ref_count_dec-Fewer, counted}
use shakenfist.Blob.Fuel.{IsRanked, Deletable, ref_count_dec-total}
use shakenfist.Blob.Count.{Recounted, ref_count_dec-inc}

abbrev base : Blob
base = record {
  depends_on = none;
  state = some created;
  ref_count = 2;
  transcoded = [];
  sha512 = none;
}

abbrev layer : Blob
layer = record base { depends_on = some "base"; ref_count = 1 }

abbrev stale : Blob
stale = record layer { state = some deleted; ref_count = 0 }

abbrev two : Blobs
two = ("base", base) ∷ ("layer", layer) ∷ []

abbrev after : Blobs
after = ("base", counted base) ∷ ("layer", stale) ∷ []

deletes_layer : ref_count_dec 2 1 "layer" two ≡ ok after
unfolding ref_count_dec lookup insert set_deleted validate state_targets in_state_targets
deletes_layer = refl

ref_count_dec-Fewer_example : Fewer two after
ref_count_dec-Fewer_example = ref_count_dec-Fewer 2 1 "layer" two after deletes_layer

rank : String → ℕ
rank u = if u == "layer" then 1 else 0

ref_count_dec-inc_example :
    (blobs' : Blobs) × ((do x ← ref_count_inc "base" 3 two; ref_count_dec 1 3 "base" x) ≡ ok blobs')
    × Recounted "base" base 4 two blobs'
unfolding lookup
ref_count_dec-inc_example = ref_count_dec-inc 0 "base" base 3 two refl (λ p. cc p) (omega arith)

ranked : IsRanked rank two
unfolding references lookup rank validate state_targets in_state_targets OptionStateName-discrete
ranked = record {
  below = λ u b here.
      All-lookup
        (λ (item : String × Blob).
          All (λ v. contains v two ≡ true → rank v < rank item.0) (references item.1))
        u b two (tt, (((λ c. omega arith), tt), tt)) here;
  deletable = λ u b here.
      All-lookup (λ (item : String × Blob). Deletable item.1) u b two (refl, (refl, tt)) here;
}

ref_count_dec-total_example : (blobs' : Blobs) × (ref_count_dec 2 1 "layer" two ≡ ok blobs')
unfolding rank lookup
ref_count_dec-total_example = ref_count_dec-total rank 2 1 "layer" two ranked refl (omega arith)
