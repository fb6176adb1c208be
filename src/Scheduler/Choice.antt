-- ===== src/Scheduler/Choice.antt =====
-- What the choice of find_candidates gives: the nodes of the highest affinity and then of the lowest
-- load, in some order (shakenfist/scheduler.py).
use Prim.Native.String.{String}
use shakenfist.Prelude.{
  beq_refl, ℕ, ◌≡◌, ◌≢◌, refl, sym, ap, ◌∙◌, zero, suc, Bool, true, ◌&&◌, ◌||◌, List, [], ◌∷◌,
  Option, none, some, Dict, ltb, ◌==◌, string_eq, nat_eq, elem, ◌≤◌, Result, ok, err, ◌>>=◌,
  bind-ok, bind-err, ok-injective, err-injective, arith, inl, inr,
}
use shakenfist.Prelude.Int.{ℤ, int_eq, ◌≤ℤ◌, ltb_ℤ}
use shakenfist.Scheduler.Metrics.{Metrics, SchedulerError, index_error}
use shakenfist.Scheduler.Groups.{group_by, best_group, has_key}
use shakenfist.Scheduler.Best.{IsOrder, best_group-elem, best_group-none, best_group-full}
use shakenfist.Scheduler.Find.{
  Instance, World, insert_at, shuffle, affinity_of, load_of, choose, or_index_error,
}

abbrev higher : ℤ → ℤ → Bool
higher a b = ltb_ℤ b a

pub lower-IsOrder : IsOrder ltb
lower-IsOrder = record {
  asym = λ a b h. ground arith;
  trans = λ a b c h k. ground arith;
  irrefl = λ a. ground arith;
}

pub higher-IsOrder : IsOrder higher
higher-IsOrder = record {
  asym = λ a b h. ground arith;
  trans = λ a b c h k. ground arith;
  irrefl = λ a. ground arith;
}

elem-head : (x : String) (xs : List String) → elem x (x ∷ xs) ≡ true
unfolding elem
elem-head x xs = ap (λ b. b || elem x xs) (beq_refl x)

-- A shuffled list has the same elements.
elem-insert_at :
    (r : ℕ) (x d : String) (xs : List String) → elem d (insert_at r x xs) ≡ elem d (x ∷ xs)
unfolding elem
elem-insert_at zero x d xs = refl
elem-insert_at (suc n) x d [] = refl
elem-insert_at (suc n) x d (y ∷ xs) = ground (arith, elem-insert_at n x d xs)

pub elem-shuffle :
    (random : List ℕ) (d : String) (xs : List String) → elem d (shuffle random xs) ≡ elem d xs
unfolding elem shuffle
elem-shuffle random d [] = refl
elem-shuffle [] d (x ∷ xs) = ap (λ b. x == d || b) (elem-shuffle [] d xs)
elem-shuffle (r ∷ random) d (x ∷ xs) =
    elem-insert_at r x d (shuffle random xs) ∙ ap (λ b. x == d || b) (elem-shuffle random d xs)

or_index_error-ok :
    (o : Option (List String)) (g : List String) → or_index_error o ≡ ok g → o ≡ some g
or_index_error-ok none g h = cc
or_index_error-ok (some x) g h = ap some (ok-injective h)

or_index_error-err :
    (o : Option (List String)) (e : SchedulerError)
    → or_index_error o ≡ err e
    → (o ≡ none) × (e ≡ index_error)
or_index_error-err none e h = (refl, sym (err-injective h))
or_index_error-err (some x) e h = cc

module _ (w : World) (inst : Instance) (metrics : Dict String Metrics) where
  abbrev load_key : String → Option ℕ
  load_key n = some (load_of metrics n)

  -- The nodes that are chosen: those of the affinity k and the load l, where no candidate has a
  -- higher affinity and none of this affinity a lower load.
  abbrev pub Best : (String → Bool) → List String → Type 0
  Best candidate ys =
      (k : ℤ) × (l : ℕ) × ((d : String)
        → elem d ys ≡ (candidate d && has_key (affinity_of w inst d) k && load_of metrics d == l))
      × ((d : String) (j : ℤ) → candidate d ≡ true → affinity_of w inst d ≡ some j → j ≤ℤ k)
      × ((d : String) → candidate d ≡ true → affinity_of w inst d ≡ some k → l ≤ load_of metrics d)

  pub choose-Best :
      (random : List ℕ) (candidates ys : List String)
      → choose w inst metrics random candidates ≡ ok ys
      → Best (λ d. elem d candidates) ys
  unfolding choose
  choose-Best random candidates ys h =
      let (close, c1, h1) =
        bind-ok (or_index_error (best_group higher (group_by (affinity_of w inst) candidates []))) _
          h in
      let (quiet, c2, h2) =
        bind-ok (or_index_error (best_group ltb (group_by load_key close []))) _ h1 in
      let (k, near, top) =
        best_group-elem higher higher-IsOrder (affinity_of w inst) candidates close
          (or_index_error-ok _ close c1) in
      let (l, low, least) =
        best_group-elem ltb lower-IsOrder load_key close quiet (or_index_error-ok _ quiet c2) in
      (
        k,
        l,
        (λ d.
            ground
              (arith, near d, low d, elem-shuffle random d quiet, ap (elem d) (ok-injective h2))),
        (λ d j m has. ground (arith, top d j m has)),
        (λ d m has.
            ground (arith, least d (load_of metrics d) (near d ∙ rw (m, has) (beq_refl k)) refl)),
      )

  pub choose-err :
      (random : List ℕ) (candidates : List String) (e : SchedulerError)
      → choose w inst metrics random candidates ≡ err e
      → (e ≡ index_error) × ((d : String) → elem d candidates ≡ true → affinity_of w inst d ≡ none)
  unfolding choose
  choose-err random candidates e h =
      elim (bind-err
        (or_index_error (best_group higher (group_by (affinity_of w inst) candidates []))) _ h) [
          | inl r ↦
              let (none_near, index) = or_index_error-err _ e r in
              (
                index,
                best_group-none higher higher-IsOrder (affinity_of w inst) candidates none_near,
              )
          | inr (close, c1, h1) ↦ absurd (
              never close
                (best_group-full higher higher-IsOrder (affinity_of w inst) candidates close
                  (or_index_error-ok _ close c1))
                h1)
        ]
    where
      none-some : (n : ℕ) → ◌≡◌ {A = Option ℕ} (some n) none → ⊥
      none-some n p = cc

      ok-err :
          (xs : List String) → ◌≡◌ {A = Result SchedulerError (List String)} (ok xs) (err e) → ⊥
      ok-err xs p = cc

      never :
          (close : List String)
          → close ≢ []
          → (or_index_error (best_group ltb (group_by load_key close []))
              >>= (λ quiet. ok (shuffle random quiet)))
            ≡ err e
          → ⊥
      never [] full g = full refl
      never (x ∷ close) full g =
          elim (bind-err (or_index_error (best_group ltb (group_by load_key (x ∷ close) []))) _ g) [
            | inl r ↦ none-some (load_of metrics x) (
                best_group-none ltb lower-IsOrder load_key (x ∷ close) (or_index_error-err _ e r).0
                  x (elem-head x close))
            | inr (quiet, c2, last) ↦ ok-err _ last
          ]

  -- Some node is chosen.
  pub choose-full :
      (random : List ℕ) (candidates ys : List String)
      → choose w inst metrics random candidates ≡ ok ys
      → (d : String) × (elem d ys ≡ true)
  unfolding choose
  choose-full random candidates ys h =
      let (close, c1, h1) =
        bind-ok (or_index_error (best_group higher (group_by (affinity_of w inst) candidates []))) _
          h in
      let (quiet, c2, h2) =
        bind-ok (or_index_error (best_group ltb (group_by load_key close []))) _ h1 in
      let (d, m) =
        some_elem quiet
          (best_group-full ltb lower-IsOrder load_key close quiet (or_index_error-ok _ quiet c2)) in
      (d, ap (elem d) (sym (ok-injective h2)) ∙ elem-shuffle random d quiet ∙ m)
    where
      some_elem : (xs : List String) → xs ≢ [] → (d : String) × (elem d xs ≡ true)
      some_elem [] full = absurd (full refl)
      some_elem (x ∷ xs) full = (x, elem-head x xs)
