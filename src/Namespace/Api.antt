-- ===== src/Namespace/Api.antt =====
-- Authentication and authorization in the API (shakenfist/external_api/base.py and auth.py). The
-- password hash of bcrypt is a parameter, and a token is what the JWT library reads from it.
use Prim.Native.String.{String}
use text.Mathlib.Text.{starts_with}
use shakenfist.Prelude.{
  ℕ, Bool, true, false, not, ◌&&◌, ◌||◌, List, [], ◌∷◌, Option, none, some, Dict, lookup, insert,
  contains, elem, ◌==◌, string_eq, if◌then◌else◌, Result, ok, err, ◌>>=◌, ◌>>◌,
}
use shakenfist.ObjectState.Names.{
  StateName, created, deleted, error, option_state_name_eq, OptionStateName-discrete,
}
use shakenfist.Namespace.Model.{
  Key, Namespace, Namespaces, live_keys, add_key, remove_key, namespace_is_trusted,
}

-- The claims of a token with a valid signature: its subject, which is `none` where it is not a pair,
-- and its nonce.
pub record Claims : Type 0 where
  pub sub : Option (String × String)
  pub nonce : Option String

abbrev pub nonce_matches : Option String → Key → Bool
nonce_matches none k = false
nonce_matches (some nonce) k = nonce == k.nonce

-- the part of verify_token on the key
unfoldable pub verify_key : ℕ → String → Option String → Namespace → Bool
unfolding live_keys
verify_key now key_name nonce n =
    if key_name == "_service_key"
    then true
    else elim (lookup key_name (live_keys now n.nonced_keys)) [
      | none ↦ false
      | some k ↦ nonce_matches nonce k
    ]

-- verify_token; `false` is the NoAuthorizationError
unfoldable pub verify_token : ℕ → Claims → Namespaces → Bool
unfolding verify_key OptionStateName-discrete
verify_token now claims namespaces = elim claims.sub [
  | none ↦ false
  | some (ns_name, key_name) ↦ elim (lookup ns_name namespaces) [
    | none ↦ false
    | some ns ↦ if ns.state == some deleted then false else verify_key now key_name claims.nonce ns
  ]
]

-- What a handler answers: a result, or the status code of an error.
abbrev pub Reply : Type 0 → Type 0
Reply A = Result ℕ A

-- a test that answers with a status code where it fails
abbrev pub require : ℕ → Bool → Reply (Unit {0})
require status true = ok tt
require status false = err status

-- caller_is_admin
unfoldable pub caller_is_admin : String → Reply (Unit {0})
caller_is_admin caller = require 401 (caller == "system")

-- requires_instance_ownership and requires_network_ownership, for the namespace of the object that
-- was found, if one was
unfoldable pub requires_ownership : String → Option String → Reply (Unit {0})
requires_ownership caller none = err 404
requires_ownership caller (some namespace) = require 404 (elem caller (namespace ∷ "system" ∷ []))

-- requires_instance_active and requires_network_active
unfoldable pub requires_active : Option (Option StateName) → Reply (Unit {0})
unfolding OptionStateName-discrete
requires_active none = err 404
requires_active (some state) = require 406 (state == some created)

-- requires_namespace_ownership
unfoldable pub requires_namespace_ownership : Namespaces → String → String → Reply (Unit {0})
unfolding namespace_is_trusted
requires_namespace_ownership namespaces namespace caller =
    require 404 (namespace_is_trusted namespaces namespace caller)

-- arg_is_namespace
unfoldable pub arg_is_namespace : Namespaces → Option String → Reply (String × Namespace)
unfolding OptionStateName-discrete
arg_is_namespace namespaces none = err 400
arg_is_namespace namespaces (some namespace) = elim (lookup namespace namespaces) [
  | none ↦ err 404
  | some ns ↦ if ns.state == some deleted then err 404 else ok (namespace, ns)
]

-- The text of a request that is there and not empty.
abbrev pub given : Option String → Option String
given none = none
given (some text) = if text == "" then none else some text

-- create_token
abbrev pub create_token : String → String → String → Claims
create_token ns keyname nonce = record { sub = some (ns, keyname); nonce = some nonce }

module _ (hashpw : String → String → String) (checkpw : String → String → Option Bool) where
  -- the loop over the keys in AuthEndpoint.post; `none` of checkpw is the ValueError
  unfoldable pub find_key : String → Dict String Key → Option (String × String)
  find_key key [] = none
  find_key key ((keyname, k) ∷ nonced_keys) = elim (checkpw key k.key) [
    | none ↦ find_key key nonced_keys
    | some false ↦ find_key key nonced_keys
    | some true ↦ some (keyname, k.nonce)
  ]

  abbrev pub or_unauthorized : String → Option (String × String) → Reply Claims
  or_unauthorized namespace none = err 401
  or_unauthorized namespace (some (keyname, nonce)) = ok (create_token namespace keyname nonce)

  abbrev pub or_missing : Option String → Reply String
  or_missing none = err 400
  or_missing (some text) = ok text

  -- AuthEndpoint.post
  unfoldable pub authenticate : ℕ → Option String → Option String → Namespaces → Reply Claims
  unfolding arg_is_namespace find_key live_keys
  authenticate now namespace key namespaces = do
    found ← arg_is_namespace namespaces namespace
    secret ← or_missing (given key)
    or_unauthorized found.0 (find_key secret (live_keys now found.1.nonced_keys))

  -- _namespace_keys_putpost, with the salt and the nonce that it draws
  unfoldable pub namespace_keys_putpost :
      ℕ → String → String → Option String → Option String → Namespace → Reply Namespace
  unfolding add_key
  namespace_keys_putpost now salt nonce key_name key n = do
    name ← or_missing (given key_name)
    secret ← or_missing (given key)
    require 403 (not (starts_with name "_service_key"))
    ok (add_key now name (hashpw secret salt) none nonce n)

-- AuthNamespaceKeyEndpoint.delete, after its decorators
unfoldable pub delete_key : ℕ → Option String → Namespace → Reply Namespace
unfolding remove_key live_keys
delete_key now key_name n = elim (given key_name) [
  | none ↦ err 400
  | some name ↦
      if contains name (live_keys now n.nonced_keys) then ok (remove_key now name n) else err 404
]

-- i.state.value in [dbo.STATE_DELETED, dbo.STATE_ERROR], for every instance of the namespace
unfoldable pub all_gone : List (Option StateName) → Bool
unfolding OptionStateName-discrete
all_gone [] = true
all_gone (state ∷ states) = (state == some deleted || state == some error) && all_gone states

-- AuthNamespaceEndpoint.delete, after its decorators, with the states of the instances of the
-- namespace and those of its networks that are not dead; its artifacts are deleted as well.
unfoldable pub delete_namespace :
    String → List (Option StateName) → List String → Namespaces → Reply Namespaces
unfolding all_gone
delete_namespace namespace instances networks namespaces = elim (lookup namespace namespaces) [
  | none ↦ err 404
  | some ns ↦ do
    require 403 (not (namespace == "system"))
    require 400 (all_gone instances)
    require 400 (none_left networks)
    ok (insert namespace (record ns { state = some deleted }) namespaces)
]
  where
    none_left : List String → Bool
    none_left [] = true
    none_left (_ ∷ _) = false
