-- ===== src/Namespace/Change.antt =====
-- What is done to the keys and the trust of a namespace over time (shakenfist/namespace.py).
use Prim.Native.String.{String}
use shakenfist.Prelude.{
  ℕ, ◌≡◌, refl, List, [], ◌∷◌, Option, none, some, ◌+◌, ◌==◌, string_eq, elem, Bool-cases,
  Option-cases, inl, inr,
}
use shakenfist.ObjectState.Names.{option_state_name_eq}
use shakenfist.Namespace.Model.{Namespace, add_key, remove_key, add_trust, remove_trust}

-- What is done to a namespace.
pub data Operation : Type 0 where
  store_key : String → String → Option ℕ → String → Operation
  drop_key : String → Operation
  trust_namespace : String → Operation
  distrust_namespace : String → Operation

abbrev pub or_same : Namespace → Option Namespace → Namespace
or_same n none = n
or_same n (some m) = m

unfoldable pub change : ℕ → Operation → Namespace → Namespace
unfolding add_key remove_key add_trust remove_trust
change now (store_key name encoded expiry nonce) n = add_key now name encoded expiry nonce n
change now (drop_key name) n = remove_key now name n
change now (trust_namespace namespace) n = or_same n (add_trust namespace n)
change now (distrust_namespace namespace) n = or_same n (remove_trust namespace n)

-- The operations in turn, each with the time that passes before it.
unfoldable pub change_all : ℕ → List (ℕ × Operation) → Namespace → ℕ × Namespace
unfolding change
change_all now [] n = (now, n)
change_all now ((delay, o) ∷ operations) n =
    change_all (now + delay) operations (change (now + delay) o n)

pub add_trust-keys :
    (namespace : String) (n : Namespace)
    → (or_same n (add_trust namespace n)).nonced_keys ≡ n.nonced_keys
unfolding add_trust
add_trust-keys namespace n = elim (Option-cases n.full_trust) [
  | inl missing ↦ rw (add_trust, missing) refl
  | inr (trusted, has) ↦ elim (Bool-cases (elem namespace trusted)) [
    | inl there ↦ rw (add_trust, has, there) refl
    | inr absent ↦ rw (add_trust, has, absent) refl
  ]
]

pub remove_trust-keys :
    (namespace : String) (n : Namespace)
    → (or_same n (remove_trust namespace n)).nonced_keys ≡ n.nonced_keys
unfolding remove_trust
remove_trust-keys namespace n = elim (Bool-cases (namespace == "system")) [
  | inl system ↦ rw (remove_trust, system) refl
  | inr other ↦ elim (Option-cases n.full_trust) [
    | inl missing ↦ rw (remove_trust, other, missing) refl
    | inr (trusted, has) ↦ elim (Bool-cases (elem namespace trusted)) [
      | inl there ↦ rw (remove_trust, other, has, there) refl
      | inr absent ↦ rw (remove_trust, other, has, absent) refl
    ]
  ]
]
