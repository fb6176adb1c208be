-- ===== src/Namespace/Revoked.antt =====
-- A removed key stays removed: its tokens are refused from then on (shakenfist/namespace.py and
-- verify_token of shakenfist/external_api/base.py).
use Prim.Native.String.{String}
use mathlib.Core.Path.{subst}
use mathlib.Core.Bool.{false≢true}
use text.Mathlib.TextEquality.{eq_iff}
use shakenfist.Prelude.{
  ℕ, ◌≡◌, ◌≢◌, refl, sym, ◌∙◌, true, false, List, [], ◌∷◌, some, Dict, lookup, contains, ◌+◌, ◌==◌,
  string_eq, beq_ne, All, All-map, All-insert, All-remove, All-removed, All-lookup, Bool-cases,
  Option-cases, inl, inr, arith,
}
use shakenfist.ObjectState.Names.{deleted, option_state_name_eq}
use shakenfist.Namespace.Model.{
  Key, Namespace, Namespaces, expired, live_keys, add_key, remove_key, add_trust, remove_trust,
}
use shakenfist.Namespace.Api.{verify_key, verify_token, create_token}
use shakenfist.Namespace.Keys.{All-live_keys, live_keys-All}
use shakenfist.Namespace.Change.{
  Operation, store_key, drop_key, trust_namespace, distrust_namespace, change, change_all,
  add_trust-keys, remove_trust-keys,
}

-- The nonce is not drawn again.
abbrev pub Redrawn : String → Operation → Type 0
Redrawn nonce (store_key name encoded expiry new_nonce) = new_nonce ≡ nonce
Redrawn nonce _ = ⊥

module _ (name nonce : String) where
  -- A key of this name with this nonce has expired.
  abbrev Dead : ℕ → Dict String Key → Type 0
  Dead now d = All (λ item. item.0 ≡ name → item.1.nonce ≡ nonce → expired now item.1 ≡ true) d

  expired-later : (now later : ℕ) (k : Key) → expired now k ≡ true → expired (now + later) k ≡ true
  expired-later now later k h = ground (arith, h)

  Dead-later : (now later : ℕ) (d : Dict String Key) → Dead now d → Dead (now + later) d
  Dead-later now later d h =
      All-map d (λ item f same drawn. expired-later now later item.1 (f same drawn)) h

  change-Dead :
      (now : ℕ) (o : Operation) (n : Namespace)
      → (Redrawn nonce o → ⊥)
      → Dead now n.nonced_keys
      → Dead now (change now o n).nonced_keys
  unfolding change add_key remove_key add_trust remove_trust
  change-Dead now (store_key other encoded expiry new_nonce) n apart h =
      All-insert (λ item. item.0 ≡ name → item.1.nonce ≡ nonce → expired now item.1 ≡ true) other
        (record { key = encoded; nonce = new_nonce; expiry = expiry }) (live_keys now n.nonced_keys)
        (live_keys-All (λ item. item.0 ≡ name → item.1.nonce ≡ nonce → expired now item.1 ≡ true)
          now n.nonced_keys h)
        (λ same drawn. absurd (apart drawn))
  change-Dead now (drop_key other) n apart h =
      elim (Bool-cases (contains other (live_keys now n.nonced_keys))) [
        | inl there ↦
            rw (change, remove_key, there)
              (All-remove (λ item. item.0 ≡ name → item.1.nonce ≡ nonce → expired now item.1 ≡ true)
                other (live_keys now n.nonced_keys)
                (live_keys-All
                  (λ item. item.0 ≡ name → item.1.nonce ≡ nonce → expired now item.1 ≡ true) now
                  n.nonced_keys h))
        | inr absent ↦ rw (change, remove_key, absent) h
      ]
  change-Dead now (trust_namespace namespace) n apart h =
      subst (Dead now) (sym (add_trust-keys namespace n)) h
  change-Dead now (distrust_namespace namespace) n apart h =
      subst (Dead now) (sym (remove_trust-keys namespace n)) h

  change_all-Dead :
      (now : ℕ) (operations : List (ℕ × Operation)) (n : Namespace)
      → All (λ o. Redrawn nonce o.1 → ⊥) operations
      → Dead now n.nonced_keys
      → Dead (change_all now operations n).0 (change_all now operations n).1.nonced_keys
  unfolding change_all
  change_all-Dead now [] n apart h = h
  change_all-Dead now ((delay, o) ∷ operations) n apart h =
      change_all-Dead (now + delay) operations (change (now + delay) o n) apart.1
        (change-Dead (now + delay) o n apart.0 (Dead-later now delay n.nonced_keys h))

  -- Where no key of the name is live, all of its keys have expired.
  live_keys-absent :
      (now : ℕ) (d : Dict String Key) → contains name (live_keys now d) ≡ false → Dead now d
  unfolding live_keys lookup
  live_keys-absent now [] h = tt
  live_keys-absent now ((j, k) ∷ d) h = elim (Bool-cases (expired now k)) [
    | inl old ↦ ((λ same drawn. old), live_keys-absent now d (rw (live_keys, old) at h))
    | inr fresh ↦ elim (Bool-cases (j == name)) [
      | inl same ↦ absurd (false≢true (sym (rw (live_keys, lookup, fresh, same) at h)))
      | inr other ↦ (
        (λ same drawn. absurd (false≢true (sym other ∙ (eq_iff j name).1 same))),
        live_keys-absent now d (rw (live_keys, lookup, fresh, other) at h),
      )
    ]
  ]

  remove_key-Dead : (now : ℕ) (n : Namespace) → Dead now (remove_key now name n).nonced_keys
  unfolding remove_key
  remove_key-Dead now n = elim (Bool-cases (contains name (live_keys now n.nonced_keys))) [
    | inl there ↦
        rw (remove_key, there)
          (All-removed (λ item. item.0 ≡ name → item.1.nonce ≡ nonce → expired now item.1 ≡ true)
            name
            (λ item other same drawn. absurd (false≢true (sym other ∙ (eq_iff item.0 name).1 same)))
            (live_keys now n.nonced_keys))
    | inr absent ↦ rw (remove_key, absent) (live_keys-absent now n.nonced_keys absent)
  ]

  verify_key-Dead :
      (now : ℕ) (n : Namespace)
      → name ≢ "_service_key"
      → Dead now n.nonced_keys
      → verify_key now name (some nonce) n ≡ false
  unfolding verify_key
  verify_key-Dead now n plain dead =
      elim (Option-cases (lookup name (live_keys now n.nonced_keys))) [
        | inl missing ↦ rw (verify_key, beq_ne name "_service_key" plain, missing) refl
        | inr (k, there) ↦
            rw (verify_key, beq_ne name "_service_key" plain, there)
              (beq_ne nonce k.nonce (λ drawn.
                let (d, fresh) =
                  All-lookup
                    (λ item.
                      (item.0 ≡ name → item.1.nonce ≡ nonce → expired now item.1 ≡ true)
                      × (expired now item.1 ≡ false))
                    name k (live_keys now n.nonced_keys)
                    (All-live_keys
                      (λ item. item.0 ≡ name → item.1.nonce ≡ nonce → expired now item.1 ≡ true) now
                      n.nonced_keys dead)
                    there in
                false≢true (sym fresh ∙ d refl (sym drawn))))
      ]

  -- Once a key is removed, its tokens are refused for good: whatever is done to the namespace
  -- afterwards, and however much later, verify_token refuses a token of the key's name with its
  -- nonce, where that nonce is not drawn again and the name is not `_service_key`.
  pub remove_key-revokes :
      (now later : ℕ) (operations : List (ℕ × Operation)) (n : Namespace) (namespace : String)
      (namespaces : Namespaces)
      → name ≢ "_service_key"
      → All (λ o. Redrawn nonce o.1 → ⊥) operations
      → lookup namespace namespaces ≡ some (change_all now operations (remove_key now name n)).1
      → verify_token
          ((change_all now operations (remove_key now name n)).0 + later)
          (create_token namespace name nonce)
          namespaces
        ≡ false
  unfolding verify_token
  remove_key-revokes now later operations n namespace namespaces plain apart here =
      elim (Bool-cases (final.1.state == some deleted)) [
        | inl gone ↦ rw (verify_token, here, gone) refl
        | inr alive ↦
            rw (verify_token, here, alive)
              (verify_key-Dead (final.0 + later) final.1 plain (
                Dead-later final.0 later final.1.nonced_keys (
                  change_all-Dead now operations (remove_key now name n) apart
                    (remove_key-Dead now n))))
      ]
    where
      final : ℕ × Namespace
      final = change_all now operations (remove_key now name n)
