-- ===== src/Namespace/Tokens.antt =====
-- When a token is accepted (verify_token of shakenfist/external_api/base.py, AuthEndpoint.post of
-- shakenfist/external_api/auth.py).
use Prim.Native.String.{String}
use mathlib.Core.Path.{subst}
use mathlib.Core.Option.{some-injective}
use text.Mathlib.TextEquality.{eq_iff}
use shakenfist.Prelude.{
  Unique, lookup-absent, ℕ, ◌≡◌, ◌≢◌, refl, sym, ap, ◌∙◌, Bool, true, false, [], ◌∷◌, Option, none,
  some, Dict, lookup, ◌==◌, string_eq, All, Bool-cases, Option-cases, inl, inr, ok, err, bind-ok,
  ok-injective,
}
use shakenfist.ObjectState.Names.{deleted, option_state_name_eq}
use shakenfist.Namespace.Model.{Key, Namespace, Namespaces, live_keys}
use shakenfist.Namespace.Api.{
  Claims, verify_key, verify_token, Reply, arg_is_namespace, given, create_token, find_key,
  or_missing, or_unauthorized, authenticate,
}
use shakenfist.Namespace.Keys.{live_keys-Unique}

arg_is_namespace-ok :
    (namespace : String) (namespaces : Namespaces) (ns : Namespace) (found : String × Namespace)
    → lookup namespace namespaces ≡ some ns
    → arg_is_namespace namespaces (some namespace) ≡ ok found
    → (found ≡ (namespace, ns)) × ((ns.state == some deleted) ≡ false)
unfolding arg_is_namespace
arg_is_namespace-ok namespace namespaces ns found here h =
    elim (Bool-cases (ns.state == some deleted)) [
      | inl gone ↦ absurd (err-ok (rw (arg_is_namespace, here, gone) at h))
      | inr alive ↦ (sym (ok-injective (rw (arg_is_namespace, here, alive) at h)), alive)
    ]
  where
    err-ok : ◌≡◌ {A = Reply (String × Namespace)} (err 404) (ok found) → ⊥
    err-ok p = cc

-- A live key with the nonce of the token lets it pass.
verify_key-live :
    (now : ℕ) (name nonce : String) (ns : Namespace) (k : Key)
    → lookup name (live_keys now ns.nonced_keys) ≡ some k
    → k.nonce ≡ nonce
    → verify_key now name (some nonce) ns ≡ true
unfolding verify_key
verify_key-live now name nonce ns k there same = elim (Bool-cases (name == "_service_key")) [
  | inl service ↦ rw (verify_key, service) refl
  | inr plain ↦ rw (verify_key, plain, there) ((eq_iff nonce k.nonce).1 (sym same))
]

verify_token-live :
    (now : ℕ) (namespaces : Namespaces) (namespace name nonce : String) (ns : Namespace) (k : Key)
    → lookup namespace namespaces ≡ some ns
    → (ns.state == some deleted) ≡ false
    → lookup name (live_keys now ns.nonced_keys) ≡ some k
    → k.nonce ≡ nonce
    → verify_token now (create_token namespace name nonce) namespaces ≡ true
unfolding verify_token
verify_token-live now namespaces namespace name nonce ns k here alive there same =
    rw (verify_token, here, alive) (verify_key-live now name nonce ns k there same)

module _ (hashpw : String → String → String) (checkpw : String → String → Option Bool) where
  -- The key of a name has a nonce, and its hash fits a secret.
  abbrev Fits : String → String → String → Dict String Key → Type 0
  Fits secret name nonce d =
      (k : Key) × (lookup name d ≡ some k) × (k.nonce ≡ nonce) × (checkpw secret k.key ≡ some true)

  Fits-head :
      (secret j name nonce : String) (k : Key) (d : Dict String Key)
      → checkpw secret k.key ≡ some true
      → ◌≡◌ {A = String × String} (j, k.nonce) (name, nonce)
      → Fits secret name nonce ((j, k) ∷ d)
  unfolding lookup
  Fits-head secret j name nonce k d checked found =
      (k, rw (lookup, (eq_iff j name).1 (ap (λ p. p.0) found)) refl, ap (λ p. p.1) found, checked)

  Fits-tail :
      (secret j name nonce : String) (k : Key) (d : Dict String Key)
      → All (λ item. item.0 ≢ j) d
      → Fits secret name nonce d
      → Fits secret name nonce ((j, k) ∷ d)
  unfolding lookup
  Fits-tail secret j name nonce k d apart (l, there, same, checked) =
      elim (Bool-cases (j == name)) [
        | inl clash ↦ absurd (
            none-some l (
              sym (
                lookup-absent name d
                  (subst (λ n. All (λ item. item.0 ≢ n) d) ((eq_iff j name).0 clash) apart))
              ∙ there))
        | inr other ↦ (l, rw (lookup, other) there, same, checked)
      ]
    where
      none-some : (x : Key) → ◌≡◌ {A = Option Key} none (some x) → ⊥
      none-some x p = cc

  -- A key that is found is one of the keys, and its hash fits.
  pub find_key-Fits :
      (secret : String) (d : Dict String Key) (name nonce : String)
      → Unique d
      → find_key hashpw checkpw secret d ≡ some (name, nonce)
      → Fits secret name nonce d
  unfolding find_key
  find_key-Fits secret [] name nonce u h = cc
  find_key-Fits secret ((j, k) ∷ d) name nonce u h = elim (Option-cases (checkpw secret k.key)) [
    | inl wrong ↦
        Fits-tail secret j name nonce k d u.0
          (find_key-Fits secret d name nonce u.1 (rw (find_key, wrong) at h))
    | inr (fits, checked) ↦ elim (Bool-cases fits) [
      | inl right ↦
          Fits-head secret j name nonce k d (checked ∙ ap some right)
            (some-injective _ _ (rw (find_key, checked, right) at h))
      | inr wrong ↦
          Fits-tail secret j name nonce k d u.0
            (find_key-Fits secret d name nonce u.1 (rw (find_key, checked, wrong) at h))
    ]
  ]

  or_unauthorized-ok :
      (namespace : String) (o : Option (String × String)) (claims : Claims)
      → or_unauthorized hashpw checkpw namespace o ≡ ok claims
      → (p : String × String) × (o ≡ some p) × (create_token namespace p.0 p.1 ≡ claims)
  or_unauthorized-ok namespace none claims h = cc
  or_unauthorized-ok namespace (some p) claims h = (p, refl, ok-injective h)

  -- A token from AuthEndpoint.post is accepted at once: where it answers with a token for a
  -- namespace in which each key name occurs once, verify_token accepts that token at the same time.
  pub authenticate-verify_token :
      (now : ℕ) (namespace : String) (key : Option String) (namespaces : Namespaces)
      (ns : Namespace) (claims : Claims)
      → lookup namespace namespaces ≡ some ns
      → Unique ns.nonced_keys
      → authenticate hashpw checkpw now (some namespace) key namespaces ≡ ok claims
      → verify_token now claims namespaces ≡ true
  unfolding authenticate
  authenticate-verify_token now namespace key namespaces ns claims here u h =
      let (found, asked, h1) = bind-ok (arg_is_namespace namespaces (some namespace)) _ h in
      let (same, alive) = arg_is_namespace-ok namespace namespaces ns found here asked in
      let (secret, known, h2) = bind-ok (or_missing hashpw checkpw (given key)) _ h1 in
      let (p, matched, made) =
        or_unauthorized-ok found.0
          (find_key hashpw checkpw secret (live_keys now found.1.nonced_keys)) claims h2 in
      let (k, there, nonce, checked) =
        find_key-Fits secret (live_keys now ns.nonced_keys) p.0 p.1
          (live_keys-Unique now ns.nonced_keys u)
          (ap (λ f. find_key hashpw checkpw secret (live_keys now f.1.nonced_keys)) (sym same)
            ∙ matched) in
      subst (λ c. verify_token now c namespaces ≡ true)
        (ap (λ f. create_token f.0 p.0 p.1) (sym same) ∙ made)
        (verify_token-live now namespaces namespace p.0 p.1 ns k here alive there nonce)
