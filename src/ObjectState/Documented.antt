-- ===== src/ObjectState/Documented.antt =====
-- The transition diagrams of docs/developer_guide/state_machine.md, as lists of edges, and what
-- `state_targets` allows beyond them.
use shakenfist.Prelude.{
  ◌≡◌, ◌≢◌, refl, ap, Bool, true, false, ◌&&◌, ◌||◌, not, List, [], ◌∷◌, ◌++◌, Option, none, some,
  ◌==◌, elem, arith, Eq, beq_ne, Bool-cases, inl, inr,
}
use shakenfist.ObjectState.Names.{
  StateName, initial, creating, created, deleted, delete_wait, error, hard_deleted, preflight,
  initial_error, preflight_error, creating_error, created_error, delete_wait_error, missing,
  stopping, stopped, queued, executing, complete, state_name_eq, option_state_name_eq,
  StateName-discrete, OptionStateName-discrete, ObjectType, unknown, agentoperation, artifact, blob,
  instances, ipam, namespace, network, networkinterface, node, upload,
}
use shakenfist.ObjectState.Tables.{Transitions, state_targets, in_state_targets}

-- `[*] --> s` is the edge from `none`.
abbrev pub Edges : Type 0
Edges = List (Option StateName × StateName)

abbrev from_each : List StateName → StateName → Edges
from_each [] new = []
from_each (s ∷ names) new = (some s, new) ∷ from_each names new

abbrev agentoperation_diagram : Edges
agentoperation_diagram =
    (none, initial)
      ∷ (none, error)
      ∷ (some initial, preflight)
      ∷ (some initial, queued)
      ∷ (some preflight, queued)
      ∷ (some queued, executing)
      ∷ (some executing, complete)
      ∷ from_each (initial ∷ preflight ∷ queued ∷ executing ∷ complete ∷ error ∷ []) deleted
    ++ from_each (initial ∷ preflight ∷ queued ∷ executing ∷ []) error

-- Artifacts, blobs and network interfaces have the same diagram.
abbrev stored_diagram : Edges
stored_diagram =
    (none, initial) ∷ (some initial, created) ∷ from_each (initial ∷ created ∷ error ∷ []) deleted
    ++ from_each (initial ∷ created ∷ []) error

abbrev instance_diagram : Edges
instance_diagram =
    (none, initial)
      ∷ (none, error)
      ∷ (some initial, preflight)
      ∷ (some preflight, creating)
      ∷ (some creating, created)
      ∷ (some initial, initial_error)
      ∷ (some preflight, preflight_error)
      ∷ (some creating, creating_error)
      ∷ (some created, created_error)
      ∷ (some delete_wait, deleted)
      ∷ (some delete_wait, delete_wait_error)
      ∷ from_each (initial ∷ preflight ∷ creating ∷ created ∷ error ∷ []) delete_wait
    ++ (from_each (initial ∷ preflight ∷ creating ∷ created ∷ error ∷ []) deleted
        ++ from_each
            (initial_error ∷ preflight_error ∷ creating_error ∷ created_error ∷ delete_wait_error
              ∷ [])
            error)

abbrev created_diagram : Edges
created_diagram = (none, created) ∷ (some created, deleted) ∷ []

abbrev network_diagram : Edges
network_diagram =
    (none, initial)
      ∷ (some initial, created)
      ∷ (some created, delete_wait)
      ∷ from_each (initial ∷ created ∷ delete_wait ∷ error ∷ []) deleted
    ++ from_each (initial ∷ created ∷ delete_wait ∷ []) error

abbrev node_diagram : Edges
node_diagram =
    (none, created)
      ∷ (none, error)
      ∷ (none, missing)
      ∷ (some created, missing)
      ∷ (some created, stopping)
      ∷ (some stopping, stopped)
      ∷ from_each (stopping ∷ stopped ∷ error ∷ missing ∷ []) created
    ++ (from_each (created ∷ stopping ∷ stopped ∷ error ∷ missing ∷ []) deleted
        ++ from_each (created ∷ stopping ∷ stopped ∷ missing ∷ []) error)

-- The base class has no diagram, and the document leaves IPAMs out: theirs is that of the objects
-- which are only created and deleted.
unfoldable pub diagram : ObjectType → Edges
diagram unknown = []
diagram agentoperation = agentoperation_diagram
diagram artifact = stored_diagram
diagram blob = stored_diagram
diagram instances = instance_diagram
diagram ipam = created_diagram
diagram namespace = created_diagram
diagram network = network_diagram
diagram networkinterface = stored_diagram
diagram node = node_diagram
diagram upload = created_diagram

-- What the classes allow and the diagrams do not show.
unfoldable pub undocumented : ObjectType → Edges
undocumented artifact = (some error, error) ∷ []
undocumented network = (some error, error) ∷ []
undocumented networkinterface = (some error, error) ∷ []
undocumented instances =
    (some error, error)
      ∷ from_each (initial_error ∷ preflight_error ∷ creating_error ∷ created_error ∷ [])
          delete_wait
    ++ from_each (initial_error ∷ preflight_error ∷ creating_error ∷ created_error ∷ []) deleted
undocumented _ = []

unfoldable pub has_edge : Edges → Option StateName → StateName → Bool
unfolding StateName-discrete OptionStateName-discrete
has_edge [] orig new = false
has_edge ((f, t) ∷ edges) orig new = f == orig && t == new || has_edge edges orig new

-- Checking a test at every state name.
abbrev names : List StateName
names =
    initial ∷ creating ∷ created ∷ deleted ∷ delete_wait ∷ error ∷ hard_deleted ∷ preflight
    ∷ initial_error ∷ preflight_error ∷ creating_error ∷ created_error ∷ delete_wait_error ∷ missing
    ∷ stopping ∷ stopped ∷ queued ∷ executing ∷ complete ∷ []

origins : List StateName → List (Option StateName)
origins [] = none ∷ []
origins (s ∷ rest) = some s ∷ origins rest

every {ℓ} : {A : Type ℓ} → (A → Bool) → List A → Bool
every p [] = true
every p (x ∷ xs) = p x && every p xs

every_sound {ℓ} :
    {A : Type ℓ} ⦃e : Eq A⦄ (p : A → Bool) (a : A) (xs : List A)
    → every p xs ≡ true
    → elem a xs ≡ true
    → p a ≡ true
unfolding every elem
every_sound p a [] h m = cc
every_sound ⦃e⦄ p a (x ∷ xs) h m = elim (Bool-cases (x == a)) [
  | inl eq ↦ subst_test ((e.beq_iff x a).0 eq)
  | inr ne ↦ ground (arith, every_sound p a xs)
]
  where
    subst_test : x ≡ a → p a ≡ true
    subst_test eq = ground (arith, ap p eq)

elem-names : (s : StateName) → elem s names ≡ true
unfolding elem StateName-discrete
elem-names initial = refl
elem-names _ = refl

elem-origins : (o : Option StateName) → elem o (origins names) ≡ true
unfolding elem origins OptionStateName-discrete
elem-origins none = refl
elem-origins (some initial) = refl
elem-origins (some _) = refl

-- `answer` is `some edge`, but for the state that is tested first.
answer_test : Option Bool → Bool → Bool → Bool
answer_test none edge is_deleted = is_deleted
answer_test (some true) edge is_deleted = edge
answer_test (some false) edge is_deleted = not edge

answer_test_sound :
    (answer : Option Bool) (edge is_deleted : Bool)
    → is_deleted ≡ false
    → answer_test answer edge is_deleted ≡ true
    → answer ≡ some edge
unfolding answer_test
answer_test_sound none edge is_deleted n h = ground arith
answer_test_sound (some true) true is_deleted n h = refl
answer_test_sound (some true) false is_deleted n h = cc
answer_test_sound (some false) true is_deleted n h = cc
answer_test_sound (some false) false is_deleted n h = refl

abbrev pub edge_of : ObjectType → Option StateName → StateName → Bool
edge_of ty orig new = has_edge (diagram ty) orig new || has_edge (undocumented ty) orig new

-- What `_state_update` asks of the table, and what the document says, as one Boolean test.
agrees : ObjectType → Transitions → Option StateName → StateName → Bool
unfolding in_state_targets has_edge diagram undocumented answer_test
agrees ty table orig new =
    answer_test (in_state_targets table orig new) (edge_of ty orig new) (orig == some deleted)

agrees_everywhere : ObjectType → Bool
unfolding agrees state_targets every origins
agrees_everywhere ty = elim (state_targets ty) [
  | none ↦ true
  | some table ↦ every (λ orig. every (agrees ty table orig) names) (origins names)
]

agrees_table : (ty : ObjectType) → agrees_everywhere ty ≡ true
unfolding agrees_everywhere
agrees_table unknown = refl
agrees_table agentoperation = refl
agrees_table _ = refl

agrees_at :
    (ty : ObjectType) {table : Transitions} (orig : Option StateName) (new : StateName)
    → state_targets ty ≡ some table
    → agrees ty table orig new ≡ true
unfolding agrees_everywhere
agrees_at ty {table} orig new h =
    every_sound (agrees ty table orig) new names
      (every_sound (λ o. every (agrees ty table o) names) orig (origins names)
        (rw (h, agrees_everywhere) at (agrees_table ty)) (elem-origins orig))
      (elem-names new)

pub in_state_targets-diagram :
    (ty : ObjectType) {table : Transitions} (orig : Option StateName) (new : StateName)
    → state_targets ty ≡ some table
    → orig ≢ some deleted
    → in_state_targets table orig new
      ≡ some (has_edge (diagram ty) orig new || has_edge (undocumented ty) orig new)
in_state_targets-diagram ty {table} orig new h n =
    answer_test_sound (in_state_targets table orig new) (edge_of ty orig new) (orig == some deleted)
      (beq_ne orig (some deleted) n) (unfold agrees in agrees_at ty orig new h)
