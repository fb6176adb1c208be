-- ===== src/Namespace/Trusted.antt =====
-- The namespace system is trusted, and stays so (shakenfist/namespace.py).
use Prim.Native.String.{String}
use mathlib.Core.Bool.{false≢true}
use text.Mathlib.TextEquality.{eq_iff}
use shakenfist.Prelude.{
  ℕ, ◌≡◌, refl, sym, ap, ◌∙◌, true, ◌||◌, List, [], ◌∷◌, Option, none, some, lookup, contains, ◌+◌,
  ◌==◌, string_eq, elem, elem-append, elem-erase_ne, Bool-cases, Option-cases, inl, inr,
}
use shakenfist.ObjectState.Names.{option_state_name_eq}
use shakenfist.Namespace.Model.{
  Namespace, Namespaces, live_keys, add_key, remove_key, add_trust, remove_trust, trust, or_nobody,
  namespace_is_trusted,
}
use shakenfist.Namespace.Change.{
  Operation, store_key, drop_key, trust_namespace, distrust_namespace, or_same, change, change_all,
}

shifted :
    (n : Namespace) (o : Option (List String))
    → n.full_trust ≡ o
    → elem "system" (trust n) ≡ true
    → elem "system" (or_nobody o) ≡ true
shifted n o same h = ap (λ p. elem "system" (or_nobody p)) (sym same) ∙ h

add_trust-system :
    (namespace : String) (n : Namespace)
    → elem "system" (trust n) ≡ true
    → elem "system" (trust (or_same n (add_trust namespace n))) ≡ true
unfolding add_trust
add_trust-system namespace n h = elim (Option-cases n.full_trust) [
  | inl missing ↦ rw (add_trust, missing) (shifted n none missing h)
  | inr (trusted, has) ↦ elim (Bool-cases (elem namespace trusted)) [
    | inl there ↦ rw (add_trust, has, there) h
    | inr absent ↦
        rw (add_trust, has, absent)
          (elem-append "system" trusted (namespace ∷ [])
            ∙ ap (λ b. b || elem "system" (namespace ∷ [])) (shifted n (some trusted) has h))
  ]
]

remove_trust-system :
    (namespace : String) (n : Namespace)
    → elem "system" (trust n) ≡ true
    → elem "system" (trust (or_same n (remove_trust namespace n))) ≡ true
unfolding remove_trust
remove_trust-system namespace n h = elim (Bool-cases (namespace == "system")) [
  | inl system ↦ rw (remove_trust, system) h
  | inr other ↦ elim (Option-cases n.full_trust) [
    | inl missing ↦ rw (remove_trust, other, missing) (shifted n none missing h)
    | inr (trusted, has) ↦ elim (Bool-cases (elem namespace trusted)) [
      | inl there ↦
          rw (remove_trust, other, has, there)
            (elem-erase_ne namespace "system" trusted
                (λ p. false≢true (sym other ∙ (eq_iff namespace "system").1 p))
              ∙ shifted n (some trusted) has h)
      | inr absent ↦ rw (remove_trust, other, has, absent) h
    ]
  ]
]

remove_key-trust :
    (now : ℕ) (name : String) (n : Namespace) → trust (remove_key now name n) ≡ trust n
unfolding remove_key
remove_key-trust now name n = elim (Bool-cases (contains name (live_keys now n.nonced_keys))) [
  | inl there ↦ rw (remove_key, there) refl
  | inr absent ↦ rw (remove_key, absent) refl
]

change-system :
    (now : ℕ) (o : Operation) (n : Namespace)
    → elem "system" (trust n) ≡ true
    → elem "system" (trust (change now o n)) ≡ true
unfolding change add_key
change-system now (store_key other encoded expiry nonce) n h = h
change-system now (drop_key other) n h = ap (elem "system") (remove_key-trust now other n) ∙ h
change-system now (trust_namespace namespace) n h = add_trust-system namespace n h
change-system now (distrust_namespace namespace) n h = remove_trust-system namespace n h

change_all-system :
    (now : ℕ) (operations : List (ℕ × Operation)) (n : Namespace)
    → elem "system" (trust n) ≡ true
    → elem "system" (trust (change_all now operations n).1) ≡ true
unfolding change_all
change_all-system now [] n h = h
change_all-system now ((delay, o) ∷ operations) n h =
    change_all-system (now + delay) operations (change (now + delay) o n)
      (change-system (now + delay) o n h)

-- The cluster's admin sees everything: a namespace that trusts the namespace system still does so
-- after any operations on its keys and its trust.
pub namespace_is_trusted-system :
    (now : ℕ) (operations : List (ℕ × Operation)) (n : Namespace) (namespace : String)
    (namespaces : Namespaces)
    → elem "system" (trust n) ≡ true
    → lookup namespace namespaces ≡ some (change_all now operations n).1
    → namespace_is_trusted namespaces namespace "system" ≡ true
unfolding namespace_is_trusted
namespace_is_trusted-system now operations n namespace namespaces h here =
    elim (Bool-cases (namespace == "system")) [
      | inl same ↦ rw (namespace_is_trusted, same) refl
      | inr other ↦ rw (namespace_is_trusted, other, here) (change_all-system now operations n h)
    ]
