-- ===== src/Namespace/Login.antt =====
-- A key that was added logs in (shakenfist/external_api/auth.py).
use Prim.Native.String.{String}
use text.Mathlib.Text.{starts_with}
use mathlib.Core.Path.{subst}
use shakenfist.Prelude.{
  Unique, insert-Unique, ℕ, ◌≡◌, refl, ap, ◌∙◌, Bool, true, false, not, [], ◌∷◌, Option, none, some,
  Dict, lookup, insert, ◌==◌, string_eq, arith, is_some, ok, is_ok, bind-ok, ok-injective,
  lookup-insert_self,
}
use shakenfist.ObjectState.Names.{deleted, option_state_name_eq}
use shakenfist.Namespace.Model.{Key, Namespace, Namespaces, live_keys, add_key}
use shakenfist.Namespace.Api.{
  require, arg_is_namespace, given, find_key, or_missing, or_unauthorized, authenticate,
  namespace_keys_putpost,
}
use shakenfist.Namespace.Keys.{live_keys-Unique, lookup-live_keys, if_live}

module _ (hashpw : String → String → String) (checkpw : String → String → Option Bool)
    (checks : (secret salt : String) → checkpw secret (hashpw secret salt) ≡ some true) where
  -- Where one of the keys fits the secret, a key is found.
  find_key-some :
      (secret name : String) (k : Key) (d : Dict String Key)
      → lookup name d ≡ some k
      → checkpw secret k.key ≡ some true
      → is_some (find_key hashpw checkpw secret d) ≡ true
  unfolding find_key lookup
  find_key-some secret name k [] there checked = absurd (none-some there)
    where
      none-some : ◌≡◌ {A = Option Key} none (some k) → ⊥
      none-some p = cc
  find_key-some secret name k ((j, l) ∷ d) there checked =
      ground (arith, find_key-some secret name k d, there, checked)

  or_unauthorized-some :
      (namespace : String) (o : Option (String × String))
      → is_some o ≡ true
      → is_ok (or_unauthorized hashpw checkpw namespace o) ≡ true
  or_unauthorized-some namespace none h = cc
  or_unauthorized-some namespace (some p) h = refl

  added-live :
      (now : ℕ) (name encoded nonce : String) (n : Namespace)
      → Unique n.nonced_keys
      → lookup name (live_keys now (add_key now name encoded none nonce n).nonced_keys)
        ≡ some (record { key = encoded; nonce = nonce; expiry = none })
  unfolding add_key
  added-live now name encoded nonce n u =
      lookup-live_keys now name (add_key now name encoded none nonce n).nonced_keys (
        insert-Unique name added (live_keys now n.nonced_keys)
          (live_keys-Unique now n.nonced_keys u))
      ∙ ap (if_live now) (lookup-insert_self name added (live_keys now n.nonced_keys))
    where
      added : Key
      added = record { key = encoded; nonce = nonce; expiry = none }

  added-authenticate :
      (now : ℕ) (salt nonce namespace name secret text : String) (n : Namespace)
      (namespaces : Namespaces)
      → Unique n.nonced_keys
      → (n.state == some deleted) ≡ false
      → or_missing hashpw checkpw (given (some secret)) ≡ ok text
      → is_ok (
          authenticate hashpw checkpw now
            (some namespace)
            (some secret)
            (insert namespace (add_key now name (hashpw text salt) none nonce n) namespaces))
        ≡ true
  unfolding authenticate arg_is_namespace add_key
  added-authenticate now salt nonce namespace name secret text n namespaces u alive known =
      rw
        (
          authenticate,
          arg_is_namespace,
          lookup-insert_self namespace (add_key now name (hashpw text salt) none nonce n)
              namespaces,
          alive,
          known,
        )
        (or_unauthorized-some namespace
          (find_key hashpw checkpw text
            (live_keys now (add_key now name (hashpw text salt) none nonce n).nonced_keys))
          (find_key-some text name (record { key = hashpw text salt; nonce = nonce; expiry = none })
            (live_keys now (add_key now name (hashpw text salt) none nonce n).nonced_keys)
            (added-live now name (hashpw text salt) nonce n u) (checks text salt)))

  -- A key that _namespace_keys_putpost stores authenticates at once, in a namespace that is not
  -- deleted and in which each key name occurs once, where checkpw accepts a secret against its own
  -- hash.
  pub namespace_keys_putpost-authenticate :
      (now : ℕ) (salt nonce namespace : String) (key_name : Option String) (secret : String)
      (n n' : Namespace) (namespaces : Namespaces)
      → Unique n.nonced_keys
      → (n.state == some deleted) ≡ false
      → namespace_keys_putpost hashpw checkpw now salt nonce key_name (some secret) n ≡ ok n'
      → is_ok (
          authenticate hashpw checkpw now
            (some namespace)
            (some secret)
            (insert namespace n' namespaces))
        ≡ true
  unfolding namespace_keys_putpost
  namespace_keys_putpost-authenticate now salt nonce namespace key_name secret n n' namespaces u
        alive h =
      let (name, named, h1) = bind-ok (or_missing hashpw checkpw (given key_name)) _ h in
      let (text, known, h2) = bind-ok (or_missing hashpw checkpw (given (some secret))) _ h1 in
      let (_, plain, h3) = bind-ok (require 403 (not (starts_with name "_service_key"))) _ h2 in
      subst
        (λ m.
          is_ok (
            authenticate hashpw checkpw now (some namespace) (some secret)
              (insert namespace m namespaces))
          ≡ true)
        (ok-injective h3)
        (added-authenticate now salt nonce namespace name secret text n namespaces u alive known)
