-- ===== src/Scheduler/Chosen.antt =====
-- What find_candidates promises: the nodes that it returns, and the exceptions that it raises
-- (shakenfist/scheduler.py).
use Prim.Native.String.{String}
use mathlib.Core.Bool.{false≢true}
use mathlib.Core.Path.{subst}
use text.Mathlib.TextEquality.{eq_iff}
use shakenfist.Prelude.{
  ℕ, ◌≡◌, sym, ap, ◌∙◌, Bool, true, false, ◌&&◌, List, [], ◌∷◌, none, Dict, contains, ◌==◌,
  string_eq, elem, elem-keys, beq_refl, Result, ok, err, ◌>>=◌, bind-ok, bind-err, ok-injective,
  err-injective, arith, Bool-cases, inl, inr,
}
use shakenfist.Scheduler.Metrics.{
  Metrics, Config, SchedulerError, low_resource, candidate_not_found, index_error, zero_division,
  has_sufficient_ram,
}
use shakenfist.Scheduler.Find.{
  Scheduler, Instance, World, metrics_of, current, check_requested, initial_candidates,
  filter_candidates, find_candidates, affinity_of,
}
use shakenfist.Scheduler.Suitable.{suitable, elem-filter_candidates, filter_candidates-err}
use shakenfist.Scheduler.Choice.{Best, choose-Best, choose-err, choose-full}

-- Is a node one that may be considered?
abbrev pub considered : Dict String Metrics → List String → String → Bool
considered metrics [] d = contains d metrics
considered metrics (n ∷ candidates) d = elem d (n ∷ candidates)

-- Every node that is asked for has metrics.
abbrev pub Known : Dict String Metrics → List String → Type 0
Known metrics candidates = (d : String) → elem d candidates ≡ true → contains d metrics ≡ true

check_requested-ok :
    (metrics : Dict String Metrics) (xs ys : List String)
    → check_requested metrics xs ≡ ok ys
    → (xs ≡ ys) × Known metrics xs
unfolding check_requested elem
check_requested-ok metrics [] ys h = (ok-injective h, λ d m. absurd (false≢true m))
check_requested-ok metrics (x ∷ xs) ys h = elim (Bool-cases (contains x metrics)) [
  | inl there ↦
      let (checked, k, last) =
        bind-ok (check_requested metrics xs) _ (rw (check_requested, there) at h) in
      let (same, known) = check_requested-ok metrics xs checked k in
      (
        ap (λ zs. x ∷ zs) same ∙ ok-injective last,
        λ d m. elim (Bool-cases (x == d)) [
          | inl here ↦ subst (λ n. contains n metrics ≡ true) ((eq_iff x d).0 here) there
          | inr other ↦ known d (rw other at m)
        ],
      )
  | inr missing ↦ absurd (err-ok (rw (check_requested, missing) at h))
]
  where
    err-ok : ◌≡◌ {A = Result SchedulerError (List String)} (err (candidate_not_found x)) (ok ys) → ⊥
    err-ok p = cc

check_requested-err :
    (metrics : Dict String Metrics) (xs : List String) (e : SchedulerError)
    → check_requested metrics xs ≡ err e
    → (d : String) × (e ≡ candidate_not_found d) × (elem d xs ≡ true) × (contains d metrics ≡ false)
unfolding check_requested elem
check_requested-err metrics [] e h = cc
check_requested-err metrics (x ∷ xs) e h = elim (Bool-cases (contains x metrics)) [
  | inl there ↦ elim (bind-err (check_requested metrics xs) _ (rw (check_requested, there) at h)) [
    | inl raised ↦
        let (d, what, m, missing) = check_requested-err metrics xs e raised in
        (d, what, ground (arith, m), missing)
    | inr (checked, k, last) ↦ absurd (ok-err checked last)
  ]
  | inr missing ↦ (
    x,
    sym (err-injective (rw (check_requested, missing) at h)),
    ground (arith, beq_refl x),
    missing,
  )
]
  where
    ok-err :
        (zs : List String) → ◌≡◌ {A = Result SchedulerError (List String)} (ok (x ∷ zs)) (err e) → ⊥
    ok-err zs p = cc

initial_candidates-ok :
    (metrics : Dict String Metrics) (candidates xs : List String)
    → initial_candidates metrics candidates ≡ ok xs
    → ((d : String) → elem d xs ≡ considered metrics candidates d) × Known metrics candidates
unfolding initial_candidates elem
initial_candidates-ok metrics [] xs h =
    ((λ d. ap (elem d) (sym (ok-injective h)) ∙ elem-keys d metrics), λ d m. absurd (false≢true m))
initial_candidates-ok metrics (n ∷ candidates) xs h =
    let (same, known) = check_requested-ok metrics (n ∷ candidates) xs h in
    ((λ d. ap (elem d) (sym same)), known)

initial_candidates-err :
    (metrics : Dict String Metrics) (candidates : List String) (e : SchedulerError)
    → initial_candidates metrics candidates ≡ err e
    → (d : String) × (e ≡ candidate_not_found d)
      × (elem d candidates ≡ true)
      × (contains d metrics ≡ false)
unfolding initial_candidates
initial_candidates-err metrics [] e h = cc
initial_candidates-err metrics (n ∷ candidates) e h =
    check_requested-err metrics (n ∷ candidates) e h

has_sufficient_ram-err :
    (c : Config) (memory : ℕ) (m : Metrics) (e : SchedulerError)
    → has_sufficient_ram c memory m ≡ err e
    → (e ≡ zero_division) × (m.memory_max ≡ 0)
unfolding has_sufficient_ram
has_sufficient_ram-err c memory m e h = ground arith

module _ (c : Config) (w : World) (random : List ℕ) (inst : Instance) (candidates : List String)
    (s : Scheduler) where
  -- The metrics that the decision is made on.
  abbrev read_metrics : Dict String Metrics
  read_metrics = (current c w s).metrics

  -- Is a node a candidate that the instance fits on?
  abbrev pub eligible : String → Bool
  eligible d = considered read_metrics candidates d && suitable c inst (metrics_of read_metrics d)

  -- Why the exception was raised.
  abbrev pub Explained : SchedulerError → Type 0
  Explained low_resource = Known read_metrics candidates × ((d : String) → eligible d ≡ false)
  Explained (candidate_not_found d) = (elem d candidates ≡ true) × (contains d read_metrics ≡ false)
  Explained index_error = (d : String) → eligible d ≡ true → affinity_of w inst d ≡ none
  Explained zero_division =
      (d : String) × (considered read_metrics candidates d ≡ true)
      × ((metrics_of read_metrics d).memory_max ≡ 0)

  -- When find_candidates returns, every node that was asked for has metrics, and the list is not
  -- empty. Its nodes are exactly those that are considered, pass every filter and have one
  -- affinity and one load; no such node has a higher affinity, and none of this affinity a lower
  -- load.
  pub find_candidates-Best :
      (ys : List String)
      → (find_candidates c w random inst candidates s).0 ≡ ok ys
      → Known read_metrics candidates
        × ((d : String) × (elem d ys ≡ true))
        × Best w inst read_metrics eligible ys
  unfolding find_candidates
  find_candidates-Best ys h =
      let (xs, chain, chosen) =
        bind-ok
          (initial_candidates read_metrics candidates >>= filter_candidates c inst read_metrics) _
          h in
      let (zs, k, filtered) = bind-ok (initial_candidates read_metrics candidates) _ chain in
      let (same, known) = initial_candidates-ok read_metrics candidates zs k in
      (
        known,
        choose-full w inst read_metrics random xs ys chosen,
        subst (λ p. Best w inst read_metrics p ys)
            (λ i d.
              (elem-filter_candidates c inst read_metrics zs xs filtered d
                  ∙ ap (λ b. b && suitable c inst (metrics_of read_metrics d)) (same d))
                i)
            (choose-Best w inst read_metrics random xs ys chosen),
      )

  -- When find_candidates raises: LowResourceException where every node that was asked for has
  -- metrics and no node is eligible; CandidateNodeNotFoundException for a node that was asked for
  -- and has no metrics; IndexError where no eligible node is in the database; ZeroDivisionError
  -- where a node that is considered reports no memory.
  pub find_candidates-Explained :
      (e : SchedulerError) → (find_candidates c w random inst candidates s).0 ≡ err e → Explained e
  unfolding find_candidates
  find_candidates-Explained e h =
      elim (bind-err
        (initial_candidates read_metrics candidates >>= filter_candidates c inst read_metrics) _
        h) [
          | inl r ↦ elim (bind-err (initial_candidates read_metrics candidates) _ r) [
            | inl asked ↦
                let (d, what, m, missing) =
                  initial_candidates-err read_metrics candidates e asked in
                subst Explained (sym what) (m, missing)
            | inr (zs, k, filtered) ↦
                let (same, known) = initial_candidates-ok read_metrics candidates zs k in
                elim (filter_candidates-err c inst read_metrics zs e filtered) [
                  | inl (low, unfit) ↦ subst Explained (sym low) (
                    known,
                    λ d.
                        ap (λ b. b && suitable c inst (metrics_of read_metrics d)) (sym (same d))
                        ∙ unfit d,
                  )
                  | inr (d, m, ram) ↦
                      let (zero_div, empty) =
                        has_sufficient_ram-err c inst.memory (metrics_of read_metrics d) e ram in
                      subst Explained (sym zero_div) (d, sym (same d) ∙ m, empty)
                ]
          ]
          | inr (xs, chain, r) ↦
              let (zs, k, filtered) =
                bind-ok (initial_candidates read_metrics candidates) _ chain in
              let (same, known) = initial_candidates-ok read_metrics candidates zs k in
              let (index, gone) = choose-err w inst read_metrics random xs e r in
              subst Explained (sym index) (λ d fits. gone d (
                elem-filter_candidates c inst read_metrics zs xs filtered d
                ∙ ap (λ b. b && suitable c inst (metrics_of read_metrics d)) (same d)
                ∙ fits))
        ]
