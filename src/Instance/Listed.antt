-- ===== src/Instance/Listed.antt =====
-- Each node lists exactly the instances that are placed at it (shakenfist/instance.py,
-- shakenfist/node.py).
use Prim.Native.String.{String}
use mathlib.Core.Path.{subst}
use mathlib.Core.Option.{some-injective}
use shakenfist.Prelude.{
  ◌≡◌, refl, sym, ap, ◌∙◌, Bool, true, false, not, ◌&&◌, ◌||◌, List, [], ◌∷◌, ◌++◌, Option, none,
  some, Dict, lookup, insert, ◌==◌, string_eq, if◌then◌else◌, Bool-cases, Option-cases, inl, inr,
  elem, erase, elem-append, elem-erase_ne, lookup-insert, arith,
}
use shakenfist.Instance.Disks.{or_none}
use shakenfist.Instance.Devices.{no_repeats}
use shakenfist.Instance.Placement.{
  add_item, remove_item, Placement, placement_in, Cluster, placement_of, same_location, on_node,
  place_instance, place_all,
}

-- Whether a location is the node of that name.
abbrev pub is_at : Option String → String → Bool
is_at none name = false
is_at (some location) name = location == name

no_repeats-append :
    (a : String) (xs : List String)
    → no_repeats xs ≡ true
    → elem a xs ≡ false
    → no_repeats (xs ++ (a ∷ [])) ≡ true
unfolding no_repeats elem
no_repeats-append a [] once new = refl
no_repeats-append a (x ∷ xs) once new = ground (
  arith,
  no_repeats-append a xs,
  elem-append x xs (a ∷ []),
  string_eq.beq_iff x a,
  string_eq.beq_iff a x,
  once,
  new,
)

elem-erase : (u a : String) (xs : List String) → elem u xs ≡ false → elem u (erase a xs) ≡ false
unfolding elem erase
elem-erase u a [] h = refl
elem-erase u a (x ∷ xs) h = ground (arith, elem-erase u a xs, h)

no_repeats-erase :
    (a : String) (xs : List String) → no_repeats xs ≡ true → no_repeats (erase a xs) ≡ true
unfolding no_repeats erase
no_repeats-erase a [] once = refl
no_repeats-erase a (x ∷ xs) once = ground (arith, no_repeats-erase a xs, elem-erase x a xs, once)

elem-erase_self :
    (a : String) (xs : List String) → no_repeats xs ≡ true → elem a (erase a xs) ≡ false
unfolding no_repeats erase elem
elem-erase_self a [] once = refl
elem-erase_self a (x ∷ xs) once = ground (arith, elem-erase_self a xs, string_eq.beq_iff x a, once)

pub elem-add_item :
    (u a : String) (xs : List String) → elem u (add_item a xs) ≡ (a == u || elem u xs)
unfolding add_item elem
elem-add_item u a xs = ground (arith, elem-append u xs (a ∷ []), string_eq.beq_iff a u)

pub no_repeats-add_item :
    (a : String) (xs : List String) → no_repeats xs ≡ true → no_repeats (add_item a xs) ≡ true
unfolding add_item
no_repeats-add_item a xs once = ground (arith, no_repeats-append a xs, once)

pub elem-remove_item :
    (u a : String) (xs : List String)
    → no_repeats xs ≡ true
    → elem u (remove_item a xs) ≡ (not (a == u) && elem u xs)
unfolding remove_item
elem-remove_item u a xs once =
    ground (arith, elem-erase_self a xs, elem-erase_ne a u xs, string_eq.beq_iff a u, once)

no_repeats-remove_item :
    (a : String) (xs : List String) → no_repeats xs ≡ true → no_repeats (remove_item a xs) ≡ true
unfolding remove_item
no_repeats-remove_item a xs once = ground (arith, no_repeats-erase a xs, once)

-- What becomes of one node's list.
changed : (List String → List String) → Bool → Option (List String) → Option (List String)
changed change here none = none
changed change here (some xs) = some (if here then change xs else xs)

lookup-on_node :
    (change : List String → List String) (location : Option String) (name : String)
    (nodes : Dict String (List String))
    → lookup name (on_node change location nodes)
      ≡ changed change (is_at location name) (lookup name nodes)
unfolding on_node changed
lookup-on_node change none name nodes = ground arith
lookup-on_node change (some a) name nodes = elim (Option-cases (lookup a nodes)) [
  | inl gone ↦ ground (arith, gone, string_eq.beq_iff a name)
  | inr (xs, here) ↦
      ground (arith, here, string_eq.beq_iff a name, lookup-insert a name (change xs) nodes)
]

-- A node that is there lists no instance twice, and exactly those placed at it.
pub record Listed (c : Cluster) : Type 0 where
  pub once :
      (name : String) (instances : List String)
      → lookup name c.nodes ≡ some instances
      → no_repeats instances ≡ true
  pub placed :
      (name : String) (instances : List String)
      → lookup name c.nodes ≡ some instances
      → (uuid : String) → elem uuid instances ≡ is_at (or_none (placement_of uuid c).node) name

-- One node's list after an instance has left one node and arrived at another.
moved : String → Bool → Bool → List String → List String
moved uuid left arrived xs =
    let xs' = if left then remove_item uuid xs else xs in if arrived then add_item uuid xs' else xs'

no_repeats-moved :
    (uuid : String) (left arrived : Bool) (xs : List String)
    → no_repeats xs ≡ true
    → no_repeats (moved uuid left arrived xs) ≡ true
unfolding moved
no_repeats-moved uuid left arrived xs once = ground (
  arith,
  no_repeats-remove_item uuid xs once,
  no_repeats-add_item uuid (remove_item uuid xs) (no_repeats-remove_item uuid xs once),
  no_repeats-add_item uuid xs once,
  once,
)

elem-moved :
    (u uuid : String) (left arrived : Bool) (xs : List String)
    → no_repeats xs ≡ true
    → (uuid ≡ u → elem u xs ≡ left)
    → elem u (moved uuid left arrived xs) ≡ (if uuid == u then arrived else elem u xs)
unfolding moved
elem-moved u uuid left arrived xs once was = ground (
  arith,
  elem-remove_item u uuid xs once,
  elem-add_item u uuid (remove_item uuid xs),
  elem-add_item u uuid xs,
  string_eq.beq_iff uuid u,
  was,
)

both-changed :
    (uuid : String) (left arrived : Bool) (o : Option (List String)) (instances : List String)
    → changed (add_item uuid) arrived (changed (remove_item uuid) left o) ≡ some instances
    → (xs : List String) × (o ≡ some xs) × (moved uuid left arrived xs ≡ instances)
unfolding changed moved
both-changed uuid left arrived none instances h = cc
both-changed uuid left arrived (some xs) instances h = (xs, refl, some-injective _ _ h)

module _ (uuid : String) (location : Option String) (c : Cluster) (h : Listed c) where
  old : Option String
  old = (placement_of uuid c).node

  -- The list of a node after the move is what the move makes of its list before.
  lookup-moved :
      (name : String) (instances : List String)
      → lookup name (
          on_node
            (add_item uuid)
            (or_none location)
            (on_node (remove_item uuid) (or_none old) c.nodes))
        ≡ some instances
      → (xs : List String) × (lookup name c.nodes ≡ some xs)
        × (moved uuid (is_at (or_none old) name) (is_at (or_none location) name) xs ≡ instances)
  lookup-moved name instances found = both-changed uuid _ _ _ instances (
      sym (
        lookup-on_node (add_item uuid) (or_none location) name _
        ∙ ap (changed (add_item uuid) (is_at (or_none location) name))
            (lookup-on_node (remove_item uuid) (or_none old) name c.nodes))
      ∙ found)

  placed-after :
      (u name : String) (placement : Placement)
      → placement.node ≡ location
      → is_at (or_none (placement_in (lookup u (insert uuid placement c.placements))).node) name ≡ (
          if uuid == u
          then is_at (or_none location) name
          else is_at (or_none (placement_of u c).node) name)
  placed-after u name placement there =
      ground (arith, lookup-insert uuid u placement c.placements, there)

  place_instance-Listed : Listed (place_instance uuid location c)
  unfolding place_instance old
  place_instance-Listed = elim (Bool-cases (same_location (placement_of uuid c).node location)) [
    | inl same ↦ rw (place_instance, same) h
    | inr other ↦
        rw (place_instance, other)
          (record {
            once = λ name instances found.
                let (xs, was, now) = lookup-moved name instances found in
                subst (λ l. no_repeats l ≡ true) now
                  (no_repeats-moved uuid _ _ xs (h.once name xs was));
            placed = λ name instances found u.
                let (xs, was, now) = lookup-moved name instances found in
                ap (elem u) (sym now)
                ∙ elem-moved u uuid _ _ xs (h.once name xs was) (λ same.
                  subst (λ x. elem x xs ≡ is_at (or_none old) name) same
                    (h.placed name xs was uuid))
                ∙ ap (λ b. if uuid == u then is_at (or_none location) name else b)
                    (h.placed name xs was u)
                ∙ sym (placed-after u name _ refl);
          })
  ]

-- Whatever instances are placed wherever, each node that is there still lists no instance twice, and
-- lists exactly the instances whose placement it is.
pub place_all-Listed :
    (moves : List (String × Option String)) (c : Cluster) → Listed c → Listed (place_all moves c)
unfolding place_all
place_all-Listed [] c h = h
place_all-Listed ((uuid, location) ∷ moves) c h =
    place_all-Listed moves (place_instance uuid location c)
      (place_instance-Listed uuid location c h)
