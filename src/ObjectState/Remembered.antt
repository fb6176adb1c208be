-- ===== src/ObjectState/Remembered.antt =====
-- What the cache of the versions that nodes report holds (shakenfist/baseobject.py).
use Prim.Native.String.{String}
use mathlib.Core.Bool.{false≢true}
use text.Mathlib.TextEquality.{eq_iff}
use shakenfist.Prelude.{
  ℕ, ◌+◌, ◌≤◌, ◌≡◌, refl, sym, ap, ◌∙◌, Bool, true, false, List, [], ◌∷◌, Option, none, some, Dict,
  lookup, insert, elem, ◌||◌, lookup-insert, ◌==◌, string_eq, ltb, if◌then◌else◌, All, Bool-cases,
  Option-cases, inl, inr, arith, Result, ok, err, ok-injective,
}
use shakenfist.ObjectState.Upgrade.{
  NodeMetrics, considered, minimum_version, object_names, UpgradeFailure, VersionCache, no_cache,
  Look, is_stale, fill_cache, read_filled, renew_cache, get_minimum_object_version,
}

-- The calls of get_minimum_object_version in a process, the latest first
abbrev pub Calls : Type 0
Calls = List (Look × String)

-- The cache after them
unfoldable pub cache_after : Calls → VersionCache
unfolding get_minimum_object_version
cache_after [] = no_cache
cache_after ((look, objname) ∷ earlier) =
    (get_minimum_object_version look objname (cache_after earlier)).1

-- The clock does not go back.
abbrev pub InOrder : Calls → Type 0
InOrder [] = Unit
InOrder ((look, objname) ∷ earlier) = All (λ call. call.0.now ≤ look.now) earlier × InOrder earlier

-- What one of the calls found
pub data Observed (look : Look) : Calls → Type 0 where
  at_first : (objname : String) (earlier : Calls) → Observed look ((look, objname) ∷ earlier)
  at_earlier :
      (call : Look × String) (earlier : Calls)
      → Observed look earlier
      → Observed look (call ∷ earlier)

abbrev pub metrics_of : Look → Dict String NodeMetrics
metrics_of look = considered look.now look.states look.metrics

-- A minimum that comes from what a call found which was not before that time.
pub record ComesFrom (calls : Calls) (objname : String) (minimum : Option ℕ) (time : ℕ)
    : Type 0 where
  pub look : Look
  pub observed : Observed look calls
  pub computed : minimum_version objname (metrics_of look) ≡ minimum
  pub recent : time ≤ look.now

pub record Sound (calls : Calls) (cache : VersionCache) : Type 0 where
  pub at :
      (name : String) (m : Option ℕ)
      → lookup name cache.versions ≡ some m
      → (elem name object_names ≡ true) × ComesFrom calls name m cache.age

first_of_two :
    {A : Type 0} (p q : Bool) (x y z : A)
    → (p ≡ true → y ≡ x)
    → (if q then x else (if p then y else z)) ≡ (if p || q then x else z)
first_of_two true true x y z h = refl
first_of_two true false x y z h = h refl
first_of_two false true x y z h = refl
first_of_two false false x y z h = refl

err≢ok {ℓ} : {E : Type 0} {A : Type ℓ} {e : E} {a : A} → ◌≡◌ {A = Result E A} (err e) (ok a) → ⊥
err≢ok h = cc

lookup-fill_cache :
    (names : List String) (metrics : Dict String NodeMetrics) (versions : Dict String (Option ℕ))
    (name : String)
    → lookup name (fill_cache names metrics versions)
      ≡ (if elem name names then some (minimum_version name metrics) else lookup name versions)
unfolding fill_cache elem
lookup-fill_cache [] metrics versions name = refl
lookup-fill_cache (n ∷ names) metrics versions name =
    lookup-fill_cache names metrics (insert n (minimum_version n metrics) versions) name
    ∙ ap (λ o. if elem name names then some (minimum_version name metrics) else o)
        (lookup-insert n name (minimum_version n metrics) versions)
    ∙ first_of_two (n == name) (elem name names) (some (minimum_version name metrics))
        (some (minimum_version n metrics)) (lookup name versions)
        (λ same. ap (λ k. some (minimum_version k metrics)) ((eq_iff n name).0 same))

some-injective : {a b : Option ℕ} → ◌≡◌ {A = Option (Option ℕ)} (some a) (some b) → a ≡ b
some-injective {a} h = ap (or_infinite a) h
  where
    or_infinite : Option ℕ → Option (Option ℕ) → Option ℕ
    or_infinite d none = d
    or_infinite d (some m) = m

ComesFrom-later :
    (call : Look × String) (calls : Calls) (objname : String) (m : Option ℕ) (time : ℕ)
    → ComesFrom calls objname m time
    → ComesFrom (call ∷ calls) objname m time
ComesFrom-later call calls objname m time c = record {
  look = c.look;
  observed = at_earlier call calls c.observed;
  computed = c.computed;
  recent = c.recent;
}

-- What a call returns comes from what a call found which was at most 300 seconds ago.
pub record Returns (look : Look) (objname : String) (calls : Calls)
    (result : Result UpgradeFailure (Option ℕ) × VersionCache) : Type 0 where
  pub sound : Sound calls result.1
  pub not_ahead : result.1.age ≤ look.now
  pub returned :
      (m : Option ℕ)
      → result.0 ≡ ok m
      → (time : ℕ) × (look.now ≤ 300 + time) × ComesFrom calls objname m time

module _ (look : Look) (objname : String) (earlier : Calls) (age : ℕ) (behind : age ≤ look.now)
    (versions : Dict String (Option ℕ))
    (known : (name : String) (m : Option ℕ)
      → lookup name versions ≡ some m
      → elem name object_names ≡ true) where
  abbrev filled : Dict String (Option ℕ)
  filled = fill_cache object_names (metrics_of look) versions

  abbrev calls : Calls
  calls = (look, objname) ∷ earlier

  filled-Sound :
      (time : ℕ) → time ≤ look.now → Sound calls (record { versions = filled; age = time })
  filled-Sound time low = record {
    at = λ name m h. elim (Bool-cases (elem name object_names)) [
      | inl one ↦ (
        one,
        record {
          look = look;
          observed = at_first objname earlier;
          computed = some-injective (
              sym (
                lookup-fill_cache object_names (metrics_of look) versions name
                ∙ ap
                    (λ b.
                      if b
                      then some (minimum_version name (metrics_of look))
                      else lookup name versions)
                    one)
              ∙ h);
          recent = low;
        },
      )
      | inr other ↦ absurd (
          false≢true (
            sym other
            ∙ known name m (
                sym (
                  lookup-fill_cache object_names (metrics_of look) versions name
                  ∙ ap
                      (λ b.
                        if b
                        then some (minimum_version name (metrics_of look))
                        else lookup name versions)
                      other)
                ∙ h)))
    ];
  }

  fresh_minimum :
      (m : Option ℕ)
      → lookup objname filled ≡ some m
      → (time : ℕ) × (look.now ≤ 300 + time) × ComesFrom calls objname m time
  fresh_minimum m h =
      let (_, c) = (filled-Sound look.now (omega arith)).at objname m h in
      (look.now, omega arith, c)

  renew_cache-Returns : Returns look objname calls (renew_cache look objname age versions)
  unfolding renew_cache read_filled
  renew_cache-Returns = go (lookup objname filled) refl
    where
      go :
          (o : Option (Option ℕ))
          → lookup objname filled ≡ o
          → Returns look objname calls (read_filled look.now objname age filled)
      go none h =
          rw (read_filled, h)
            (record {
              sound = filled-Sound age behind;
              not_ahead = behind;
              returned = λ m e. absurd (err≢ok e);
            })
      go (some none) h =
          rw (read_filled, h)
            (record {
              sound = filled-Sound age behind;
              not_ahead = behind;
              returned = λ m e. fresh_minimum m (h ∙ ap some (ok-injective e));
            })
      go (some (some least)) h =
          rw (read_filled, h)
            (record {
              sound = filled-Sound look.now (omega arith);
              not_ahead = omega arith;
              returned = λ m e. fresh_minimum m (h ∙ ap some (ok-injective e));
            })

fresh_enough : (now : ℕ) (c : VersionCache) → is_stale now c ≡ false → now ≤ 300 + c.age
unfolding is_stale
fresh_enough now c warm = go c.versions warm
  where
    go :
        (versions : Dict String (Option ℕ))
        → elim versions [ [] ↦ true | _ ∷ _ ↦ ltb (300 + c.age) now ] ≡ false
        → now ≤ 300 + c.age
    go [] h = absurd (false≢true (sym h))
    go (item ∷ versions) h = ground (arith, h)

get_minimum_object_version-Returns :
    (look : Look) (objname : String) (earlier : Calls) (cache : VersionCache)
    → Sound earlier cache
    → cache.age ≤ look.now
    → Returns look objname
        ((look, objname) ∷ earlier)
        (get_minimum_object_version look objname cache)
unfolding get_minimum_object_version lookup
get_minimum_object_version-Returns look objname earlier cache sound behind =
    elim (Bool-cases (is_stale look.now cache)) [
      | inl stale ↦
          rw (get_minimum_object_version, stale)
            (renew_cache-Returns look objname earlier cache.age behind [] (λ name m h. cc))
      | inr warm ↦ elim (Option-cases (lookup objname cache.versions)) [
        | inl missing ↦
            rw (get_minimum_object_version, warm, missing)
              (renew_cache-Returns look objname earlier cache.age behind cache.versions
                (λ name m h. (sound.at name m h).0))
        | inr (minimum, here) ↦
            rw (get_minimum_object_version, warm, here)
              (record {
                sound = record {
                  at = λ name m h.
                      let (one, c) = sound.at name m h in
                      (one, ComesFrom-later (look, objname) earlier name m cache.age c);
                };
                not_ahead = behind;
                returned = λ m e. (
                  cache.age,
                  fresh_enough look.now cache warm,
                  ComesFrom-later (look, objname) earlier objname m cache.age
                      (sound.at objname m (here ∙ ap some (ok-injective e))).1,
                );
              })
      ]
    ]

pub cache_after-Returns :
    (look : Look) (objname : String) (earlier : Calls)
    → InOrder ((look, objname) ∷ earlier)
    → Returns look objname
        ((look, objname) ∷ earlier)
        (get_minimum_object_version look objname (cache_after earlier))
unfolding cache_after lookup
cache_after-Returns look objname [] order =
    get_minimum_object_version-Returns look objname [] no_cache (record { at = λ name m h. cc })
      (omega arith)
cache_after-Returns look objname ((before, name) ∷ earlier) order =
    let r = cache_after-Returns before name earlier order.1 in
    get_minimum_object_version-Returns look objname ((before, name) ∷ earlier)
      (cache_after ((before, name) ∷ earlier)) r.sound (omega (arith, r.not_ahead, order.0.0))
