-- ===== src/Namespace/Tests.antt =====
-- The theorems on tokens and trust at a small namespace.
use Prim.Native.String.{String}
use mathlib.Core.Bool.{false≢true}
use text.Mathlib.TextEquality.{eq_iff}
use text.Mathlib.Text.{◌==◌ as str_eq}
use shakenfist.Prelude.{
  Dict, false, ℕ, ◌+◌, ◌≡◌, ◌≢◌, refl, Bool, true, false, List, [], ◌∷◌, Option, none, some, lookup,
  elem, ok, ap, ◌==◌, All, string_eq,
}
use shakenfist.ObjectState.Names.{created, deleted, option_state_name_eq, OptionStateName-discrete}
use shakenfist.Namespace.Model.{
  Key, Namespace, Namespaces, live_keys, add_key, remove_key, trust, namespace_is_trusted,
}
use shakenfist.Namespace.Api.{
  requires_ownership, Claims, create_token, verify_token, arg_is_namespace, find_key, authenticate,
  namespace_keys_putpost,
}
use shakenfist.Namespace.Access.{
  Object, namespace_filter, find_named, from_db_by_ref, reach, Reached, reach-owned,
}
use shakenfist.Namespace.Tokens.{authenticate-verify_token}
use shakenfist.Namespace.Change.{
  store_key, trust_namespace, distrust_namespace, Operation, change_all,
}
use shakenfist.Namespace.Revoked.{Redrawn, remove_key-revokes}
use shakenfist.Namespace.Trusted.{namespace_is_trusted-system}

-- A hash that is the secret itself.
abbrev hash : String → String → String
hash secret salt = secret

abbrev check : String → String → Option Bool
check secret hashed = some (str_eq secret hashed)

abbrev old_key : Key
old_key = record { key = "old"; nonce = "n1"; expiry = some 5 }

abbrev deploy_key : Key
deploy_key = record { key = "secret"; nonce = "n2"; expiry = none }

abbrev team : Namespace
team = record {
  state = some created;
  nonced_keys = ("old", old_key) ∷ ("deploy", deploy_key) ∷ [];
  full_trust = some ("system" ∷ []);
}

abbrev namespaces : Namespaces
namespaces = ("team", team) ∷ []

abbrev token : Claims
token = create_token "team" "deploy" "n2"

found_team : lookup "team" namespaces ≡ some team
unfolding lookup
found_team = refl

other_name : ◌≢◌ {A = String} "deploy" "old"
other_name p = false≢true ((eq_iff "deploy" "old").1 p)

logged_in : authenticate hash check 10 (some "team") (some "secret") namespaces ≡ ok token
unfolding authenticate arg_is_namespace find_key live_keys lookup OptionStateName-discrete
logged_in = refl

authenticate-verify_token_example : verify_token 10 token namespaces ≡ true
authenticate-verify_token_example =
    authenticate-verify_token hash check 10 "team" (some "secret") namespaces team token found_team
      ((other_name, tt), (tt, tt)) logged_in

abbrev later_operations : List (ℕ × Operation)
later_operations =
    (3, store_key "deploy" "secret" none "n3")
    ∷ (1, trust_namespace "ci")
    ∷ (0, distrust_namespace "system")
    ∷ []

abbrev later : ℕ × Namespace
later = change_all 10 later_operations (remove_key 10 "deploy" team)

abbrev later_namespaces : Namespaces
later_namespaces = ("team", later.1) ∷ []

found_later : lookup "team" later_namespaces ≡ some later.1
unfolding lookup
found_later = refl

deploy_plain : ◌≢◌ {A = String} "deploy" "_service_key"
deploy_plain p = false≢true ((eq_iff "deploy" "_service_key").1 p)

nonce_unused : All (λ o. Redrawn "n2" o.1 → ⊥) later_operations
nonce_unused = ((λ p. false≢true ((eq_iff "n3" "n2").1 p)), ((λ p. p), ((λ p. p), tt)))

remove_key-revokes_example :
    verify_token (later.0 + 7) (create_token "team" "deploy" "n2") later_namespaces ≡ false
remove_key-revokes_example =
    remove_key-revokes "deploy" "n2" 10 7 later_operations team "team" later_namespaces deploy_plain
      nonce_unused found_later

abbrev after : ℕ × Namespace
after = change_all 10 later_operations team

abbrev namespaces_after : Namespaces
namespaces_after = ("team", after.1) ∷ []

found_after : lookup "team" namespaces_after ≡ some after.1
unfolding lookup
found_after = refl

trusted : elem "system" (trust team) ≡ true
unfolding elem
trusted = refl

namespace_is_trusted-system_example : namespace_is_trusted namespaces_after "team" "system" ≡ true
namespace_is_trusted-system_example =
    namespace_is_trusted-system 10 later_operations team "team" namespaces_after trusted found_after

check-hash : (secret salt : String) → check secret (hash secret salt) ≡ some true
check-hash secret salt = ap some ((eq_iff secret secret).1 refl)

team_alive : (team.state == some deleted) ≡ false
unfolding OptionStateName-discrete
team_alive = refl

stored_ci :
    namespace_keys_putpost hash check 10 "salt" "n4" (some "ci") (some "word") team
    ≡ ok (add_key 10 "ci" "word" none "n4" team)
unfolding namespace_keys_putpost
stored_ci = refl

abbrev web : Object
web = record { uuid = "u2"; name = "web"; namespace = "team"; active = true }

abbrev other_web : Object
other_web = record web { uuid = "u1"; namespace = "other" }

abbrev objects : Dict String Object
objects = ("u1", other_web) ∷ ("u2", web) ∷ []

abbrev no_uuid : String → Bool
no_uuid text = false

reached : reach no_uuid "web" "team" objects ≡ ok web
unfolding reach from_db_by_ref find_named namespace_filter requires_ownership elem
reached = refl

reach-owned_example : Reached no_uuid "web" "team" objects web
reach-owned_example = reach-owned no_uuid "web" "team" objects web reached
