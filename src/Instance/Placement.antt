-- ===== src/Instance/Placement.antt =====
-- Where instances are placed, and the list of instances that each node keeps as a cache of it
-- (place_instance of shakenfist/instance.py, add_instance and remove_instance of shakenfist/node.py,
-- and the attribute lists of shakenfist/baseobject.py).
use Prim.Native.String.{String}
use shakenfist.Prelude.{
  ℕ, ◌+◌, Bool, true, false, List, [], ◌∷◌, ◌++◌, Option, none, some, Dict, lookup, insert, ◌==◌,
  string_eq, if◌then◌else◌, elem, erase,
}
use shakenfist.Instance.Disks.{or_none}

-- _add_item_in_attribute_list
unfoldable pub add_item : String → List String → List String
unfolding elem
add_item item items = if elem item items then items else items ++ (item ∷ [])

-- _remove_item_in_attribute_list
unfoldable pub remove_item : String → List String → List String
unfolding elem erase
remove_item item items = if elem item items then erase item items else items

-- The attribute 'placement' of an instance.
pub record Placement : Type 0 where
  pub node : Option String
  pub placement_attempts : ℕ

abbrev pub unplaced : Placement
unplaced = record { node = none; placement_attempts = 0 }

-- The placements in etcd, by instance, and the instances of the nodes that are there, by node.
pub record Cluster : Type 0 where
  pub placements : Dict String Placement
  pub nodes : Dict String (List String)

abbrev pub placement_in : Option Placement → Placement
placement_in none = unplaced
placement_in (some placement) = placement

abbrev pub placement_of : String → Cluster → Placement
placement_of uuid c = placement_in (lookup uuid c.placements)

-- n.instances, of a node that is there
abbrev pub instances_of : String → Dict String (List String) → List String
instances_of name nodes = elim (lookup name nodes) [ none ↦ [] | some instances ↦ instances ]

abbrev pub same_location : Option String → Option String → Bool
same_location none none = true
same_location (some a) (some b) = a == b
same_location _ _ = false

-- `if location: n = Node.from_db(location); if n: …`
unfoldable pub on_node :
    (List String → List String)
    → Option String
    → Dict String (List String)
    → Dict String (List String)
on_node change none nodes = nodes
on_node change (some name) nodes = elim (lookup name nodes) [
  | none ↦ nodes
  | some instances ↦ insert name (change instances) nodes
]

-- place_instance
unfoldable pub place_instance : String → Option String → Cluster → Cluster
unfolding on_node add_item remove_item
place_instance uuid location c =
    let placement = placement_of uuid c in
    if same_location placement.node location then c else record {
      placements =
          insert uuid
            (record { node = location; placement_attempts = placement.placement_attempts + 1 })
            c.placements;
      nodes =
          on_node (add_item uuid) (or_none location)
            (on_node (remove_item uuid) (or_none placement.node) c.nodes);
    }

-- Several placements, one after the other.
unfoldable pub place_all : List (String × Option String) → Cluster → Cluster
unfolding place_instance
place_all [] c = c
place_all ((uuid, location) ∷ moves) c = place_all moves (place_instance uuid location c)
