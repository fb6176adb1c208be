-- ===== src/Namespace/Model.antt =====
-- The keys of a namespace and whom it trusts (shakenfist/namespace.py).
use Prim.Native.String.{String}
use shakenfist.Prelude.{
  ℕ, Bool, true, false, List, [], ◌∷◌, ◌++◌, Option, none, some, Dict, lookup, insert, remove,
  contains, ltb, elem, erase, ◌==◌, string_eq, if◌then◌else◌,
}
use shakenfist.ObjectState.Names.{StateName, created}

-- A key: the hash of its secret, and a nonce, which goes into the tokens that are made from it.
pub record Key : Type 0 where
  pub key : String
  pub nonce : String
  pub expiry : Option ℕ

-- The attributes of a namespace. `full_trust` is `none` where the attribute is missing.
pub record Namespace : Type 0 where
  pub state : Option StateName
  pub nonced_keys : Dict String Key
  pub full_trust : Option (List String)

abbrev pub Namespaces : Type 0
Namespaces = Dict String Namespace

-- 'expiry' in key and time.time() > key['expiry']
abbrev pub expired : ℕ → Key → Bool
expired now k = elim k.expiry [ none ↦ false | some expiry ↦ ltb expiry now ]

-- the property keys, at a time
unfoldable pub live_keys : ℕ → Dict String Key → Dict String Key
live_keys now [] = []
live_keys now ((name, k) ∷ nonced_keys) =
    let rest = live_keys now nonced_keys in if expired now k then rest else (name, k) ∷ rest

-- add_key, with the hash of the new key and a new nonce
unfoldable pub add_key : ℕ → String → String → Option ℕ → String → Namespace → Namespace
unfolding live_keys
add_key now name encoded expiry nonce n =
    let k : Key = record { key = encoded; nonce = nonce; expiry = expiry } in
    record n { nonced_keys = insert name k (live_keys now n.nonced_keys) }

-- remove_key
unfoldable pub remove_key : ℕ → String → Namespace → Namespace
unfolding live_keys
remove_key now name n =
    let live = live_keys now n.nonced_keys in
    if contains name live then record n { nonced_keys = remove name live } else n

abbrev pub or_nobody : Option (List String) → List String
or_nobody none = []
or_nobody (some trusted) = trusted

-- trust
abbrev pub trust : Namespace → List String
trust n = or_nobody n.full_trust

-- add_trust; `none` is the error of a missing attribute
unfoldable pub add_trust : String → Namespace → Option Namespace
add_trust namespace n = elim n.full_trust [
  | none ↦ none
  | some full_trust ↦
      if elem namespace full_trust
      then some n
      else some (record n { full_trust = some (full_trust ++ namespace ∷ []) })
]

-- remove_trust
unfoldable pub remove_trust : String → Namespace → Option Namespace
remove_trust namespace n = if namespace == "system" then some n else elim n.full_trust [
  | none ↦ none
  | some full_trust ↦
      if elem namespace full_trust
      then some (record n { full_trust = some (erase namespace full_trust) })
      else some n
]

abbrev created_namespace : Namespace
created_namespace = record {
  state = some created;
  nonced_keys = [];
  full_trust = some ("system" ∷ []);
}

-- new: a namespace that is there already is returned as it is
unfoldable pub new_namespace : String → Namespaces → Namespaces
new_namespace name namespaces =
    if contains name namespaces then namespaces else insert name created_namespace namespaces

-- namespace_is_trusted
unfoldable pub namespace_is_trusted : Namespaces → String → String → Bool
namespace_is_trusted namespaces namespace requestor =
    if namespace == requestor
    then true
    else elim (lookup namespace namespaces) [ none ↦ false | some n ↦ elem requestor (trust n) ]
