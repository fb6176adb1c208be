-- ===== src/Scheduler/Filter.antt =====
-- What one filter of find_candidates leaves, and when it raises (shakenfist/scheduler.py).
use Prim.Native.String.{String}
use text.Mathlib.TextEquality.{eq_iff}
use shakenfist.Prelude.{
  ℕ, ◌≡◌, ◌≢◌, refl, sym, ap, ◌∙◌, Bool, true, false, ◌&&◌, ◌||◌, List, [], ◌∷◌, Dict, ◌==◌,
  string_eq, elem, elem-keep, keep, if◌then◌else◌, Result, ok, err, bind-ok, bind-err,
  err-injective, beq_refl, inl, inr, ok-injective, arith,
}
use shakenfist.Scheduler.Metrics.{Metrics, Config, SchedulerError, low_resource, has_sufficient_ram}
use shakenfist.Scheduler.Find.{metrics_of, some_left, keep_sufficient_ram}

abbrev pub holds : Result SchedulerError Bool → Bool
holds (ok b) = b
holds (err e) = false

pub some_left-ok : (xs ys : List String) → some_left xs ≡ ok ys → (xs ≡ ys) × (ys ≢ [])
unfolding some_left
some_left-ok [] ys h = cc
some_left-ok (x ∷ xs) ys h = (ok-injective h, λ empty. cons-nil x xs (ok-injective h ∙ empty))
  where
    cons-nil : (x : String) (xs : List String) → (x ∷ xs) ≢ []
    cons-nil x xs p = cc

pub some_left-err :
    (xs : List String) (e : SchedulerError) → some_left xs ≡ err e → (xs ≡ []) × (e ≡ low_resource)
unfolding some_left
some_left-err [] e h = (refl, sym (err-injective h))
some_left-err (x ∷ xs) e h = cc

module _ (c : Config) (memory : ℕ) (metrics : Dict String Metrics) where
  abbrev enough_ram : String → Result SchedulerError Bool
  enough_ram n = has_sufficient_ram c memory (metrics_of metrics n)

  pub elem-keep_sufficient_ram :
      (xs ys : List String) (d : String)
      → keep_sufficient_ram c memory metrics xs ≡ ok ys
      → elem d ys ≡ (elem d xs && holds (enough_ram d))
  unfolding keep_sufficient_ram elem
  elem-keep_sufficient_ram [] ys d h = ap (elem d) (sym (ok-injective h))
  elem-keep_sufficient_ram (x ∷ xs) ys d h =
      let (fits, tested, more) = bind-ok (enough_ram x) _ h in
      let (rest, kept, last) = bind-ok (keep_sufficient_ram c memory metrics xs) _ more in
      ap (elem d) (sym (ok-injective last))
      ∙ one fits rest (elem-keep_sufficient_ram xs rest d kept)
          (λ same. ap (λ n. holds (enough_ram n)) (sym same) ∙ ap holds tested)
    where
      one :
          (fits : Bool) (rest : List String)
          → elem d rest ≡ (elem d xs && holds (enough_ram d))
          → (x ≡ d → holds (enough_ram d) ≡ fits)
          → elem d (if fits then x ∷ rest else rest) ≡ (elem d (x ∷ xs) && holds (enough_ram d))
      one fits rest h same = ground (arith, eq_iff x d)

  pub keep_sufficient_ram-err :
      (xs : List String) (e : SchedulerError)
      → keep_sufficient_ram c memory metrics xs ≡ err e
      → (d : String) × (elem d xs ≡ true) × (enough_ram d ≡ err e)
  unfolding keep_sufficient_ram elem
  keep_sufficient_ram-err [] e h = cc
  keep_sufficient_ram-err (x ∷ xs) e h = elim (bind-err (enough_ram x) _ h) [
    | inl raised ↦ (x, ap (λ b. b || elem x xs) (beq_refl x), raised)
    | inr (fits, tested, more) ↦ elim (bind-err (keep_sufficient_ram c memory metrics xs) _ more) [
      | inl raised ↦
          let (d, m, r) = keep_sufficient_ram-err xs e raised in
          (d, ap (λ b. x == d || b) m ∙ or_true (x == d), r)
      | inr (rest, kept, last) ↦ absurd (ok-err _ e last)
    ]
  ]
    where
      or_true : (b : Bool) → (b || true) ≡ true
      or_true true = refl
      or_true false = refl

      ok-err :
          (a : List String) (e : SchedulerError)
          → ◌≡◌ {A = Result SchedulerError (List String)} (ok a) (err e)
          → ⊥
      ok-err a e p = cc

-- One filter.
pub kept :
    (test : String → Bool) (xs ys : List String)
    → some_left (keep test xs) ≡ ok ys
    → (d : String) → elem d ys ≡ (if test d then elem d xs else false)
kept test xs ys h d = ap (elem d) (sym (some_left-ok (keep test xs) ys h).0) ∙ elem-keep d test xs

pub none_kept :
    (test : String → Bool) (xs : List String) (e : SchedulerError)
    → some_left (keep test xs) ≡ err e
    → (e ≡ low_resource) × ((d : String) → (if test d then elem d xs else false) ≡ false)
unfolding elem
none_kept test xs e h =
    let (empty, low) = some_left-err (keep test xs) e h in
    (low, λ d. sym (elem-keep d test xs) ∙ ap (elem d) empty)
