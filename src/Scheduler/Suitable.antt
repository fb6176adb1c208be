-- ===== src/Scheduler/Suitable.antt =====
-- What all the filters of find_candidates leave, and when they raise (shakenfist/scheduler.py).
use Prim.Native.String.{String}
use shakenfist.Prelude.{
  ◌≡◌, ◌≢◌, ap, Bool, true, false, not, ◌&&◌, List, [], Dict, ltb, string_eq, elem, elem-keep, keep,
  ok, err, ◌>>=◌, bind-ok, bind-err, ◌⊎◌, inl, inr, arith,
}
use shakenfist.Scheduler.Metrics.{
  Metrics, Config, SchedulerError, low_resource, has_reasonable_queue_state, has_sufficient_cpu,
  has_sufficient_ram, has_sufficient_disk,
}
use shakenfist.Scheduler.Find.{
  Instance, metrics_of, some_left, keep_sufficient_ram, filter_candidates,
}
use shakenfist.Scheduler.Filter.{
  holds, some_left-ok, some_left-err, elem-keep_sufficient_ram, keep_sufficient_ram-err, kept,
  none_kept,
}

-- Does the instance fit on a node?
abbrev pub suitable : Config → Instance → Metrics → Bool
suitable c inst m =
    m.is_hypervisor
    && has_reasonable_queue_state m
    && not (ltb m.cpu_max_per_instance inst.cpus)
    && has_sufficient_cpu c inst.cpus m
    && holds (has_sufficient_ram c inst.memory m)
    && has_sufficient_disk c inst.disk_spec m

module _ (c : Config) (inst : Instance) (metrics : Dict String Metrics) where
  abbrev hypervisor : String → Bool
  hypervisor n = (metrics_of metrics n).is_hypervisor

  abbrev ready : String → Bool
  ready n = has_reasonable_queue_state (metrics_of metrics n)

  abbrev capable : String → Bool
  capable n = not (ltb (metrics_of metrics n).cpu_max_per_instance inst.cpus)

  abbrev idle : String → Bool
  idle n = has_sufficient_cpu c inst.cpus (metrics_of metrics n)

  abbrev roomy : String → Bool
  roomy n = has_sufficient_disk c inst.disk_spec (metrics_of metrics n)

  -- The filters leave the candidates that are suitable.
  pub elem-filter_candidates :
      (candidates ys : List String)
      → filter_candidates c inst metrics candidates ≡ ok ys
      → (d : String) → elem d ys ≡ (elem d candidates && suitable c inst (metrics_of metrics d))
  unfolding filter_candidates
  elem-filter_candidates candidates ys h d =
      let (xs1, k1, h1) = bind-ok (some_left (keep hypervisor candidates)) _ h in
      let (xs2, k2, h2) = bind-ok (some_left (keep capable (keep ready xs1))) _ h1 in
      let (xs3, k3, h3) = bind-ok (some_left (keep idle xs2)) _ h2 in
      let (xs4, k4, h4) = bind-ok (keep_sufficient_ram c inst.memory metrics xs3) _ h3 in
      let (xs5, k5, h5) = bind-ok (some_left xs4) _ h4 in
      ground (
        arith,
        kept hypervisor candidates xs1 k1 d,
        elem-keep d ready xs1,
        kept capable (keep ready xs1) xs2 k2 d,
        kept idle xs2 xs3 k3 d,
        elem-keep_sufficient_ram c inst.memory metrics xs3 xs4 d k4,
        ap (elem d) (some_left-ok xs4 xs5 k5).0,
        kept roomy xs5 ys h5 d,
      )

  pub filter_candidates-full :
      (candidates ys : List String) → filter_candidates c inst metrics candidates ≡ ok ys → ys ≢ []
  unfolding filter_candidates
  filter_candidates-full candidates ys h =
      let (xs1, k1, h1) = bind-ok (some_left (keep hypervisor candidates)) _ h in
      let (xs2, k2, h2) = bind-ok (some_left (keep capable (keep ready xs1))) _ h1 in
      let (xs3, k3, h3) = bind-ok (some_left (keep idle xs2)) _ h2 in
      let (xs4, k4, h4) = bind-ok (keep_sufficient_ram c inst.memory metrics xs3) _ h3 in
      let (xs5, k5, h5) = bind-ok (some_left xs4) _ h4 in (some_left-ok (keep roomy xs5) ys h5).1

  -- The tests before that of the memory.
  abbrev early : String → Bool
  early d = hypervisor d && ready d && capable d && idle d

  module _ (candidates xs : List String) (e : SchedulerError) where
    early-err :
        ((d : String) → elem d xs ≡ (elem d candidates && early d))
        → (keep_sufficient_ram c inst.memory metrics xs
            >>= (λ ys. some_left ys >>= (λ zs. some_left (keep roomy zs))))
          ≡ err e
        → (e ≡ low_resource)
            × ((d : String) → (elem d candidates && suitable c inst (metrics_of metrics d)) ≡ false)
          ⊎ ((d : String) × (elem d candidates ≡ true)
              × (has_sufficient_ram c inst.memory (metrics_of metrics d) ≡ err e))
    unfolding elem
    early-err same h = elim (bind-err (keep_sufficient_ram c inst.memory metrics xs) _ h) [
      | inl raised ↦
          let (d, m, ram) = keep_sufficient_ram-err c inst.memory metrics xs e raised in
          inr (d, ground (arith, same d, m), ram)
      | inr (ys, k, g) ↦ elim (bind-err (some_left ys) _ g) [
        | inl r ↦
            let (empty, low) = some_left-err ys e r in
            inl (
              low,
              λ d. ground (
                arith,
                same d,
                elem-keep_sufficient_ram c inst.memory metrics xs ys d k,
                ap (elem d) empty,
              ),
            )
        | inr (zs, k2, r) ↦
            let (low, none_left) = none_kept roomy zs e r in
            inl (
              low,
              λ d. ground (
                arith,
                same d,
                elem-keep_sufficient_ram c inst.memory metrics xs ys d k,
                ap (elem d) (some_left-ok ys zs k2).0,
                none_left d,
              ),
            )
      ]
    ]

  -- The filters raise where no candidate is suitable, or at a node whose test divides by zero.
  pub filter_candidates-err :
      (candidates : List String) (e : SchedulerError)
      → filter_candidates c inst metrics candidates ≡ err e
      → (e ≡ low_resource)
          × ((d : String) → (elem d candidates && suitable c inst (metrics_of metrics d)) ≡ false)
        ⊎ ((d : String) × (elem d candidates ≡ true)
            × (has_sufficient_ram c inst.memory (metrics_of metrics d) ≡ err e))
  unfolding filter_candidates
  filter_candidates-err candidates e h =
      elim (bind-err (some_left (keep hypervisor candidates)) _ h) [
        | inl r ↦
            let (low, none_left) = none_kept hypervisor candidates e r in
            inl (low, λ d. ground (arith, none_left d))
        | inr (xs1, k1, h1) ↦ elim (bind-err (some_left (keep capable (keep ready xs1))) _ h1) [
          | inl r ↦
              let (low, none_left) = none_kept capable (keep ready xs1) e r in
              inl (
                low,
                λ d. ground (
                  arith,
                  none_left d,
                  elem-keep d ready xs1,
                  kept hypervisor candidates xs1 k1 d,
                ),
              )
          | inr (xs2, k2, h2) ↦ elim (bind-err (some_left (keep idle xs2)) _ h2) [
            | inl r ↦
                let (low, none_left) = none_kept idle xs2 e r in
                inl (
                  low,
                  λ d. ground (
                    arith,
                    none_left d,
                    kept capable (keep ready xs1) xs2 k2 d,
                    elem-keep d ready xs1,
                    kept hypervisor candidates xs1 k1 d,
                  ),
                )
            | inr (xs3, k3, h3) ↦
                early-err candidates xs3 e
                  (λ d. ground (
                    arith,
                    kept hypervisor candidates xs1 k1 d,
                    elem-keep d ready xs1,
                    kept capable (keep ready xs1) xs2 k2 d,
                    kept idle xs2 xs3 k3 d,
                  ))
                  h3
          ]
        ]
      ]
