-- ===== src/Instance/Fresh.antt =====
-- A console port that is allocated was free, and free candidates are enough (shakenfist/instance.py).
use Prim.Native.String.{String}
use mathlib.Core.Path.{subst}
use mathlib.Core.Option.{some-injective}
use shakenfist.Prelude.{
  ℕ, ◌≡◌, ◌≢◌, refl, sym, ap, ◌∙◌, Bool, true, false, List, [], ◌∷◌, ◌++◌, Option, none, some, Dict,
  lookup, insert, contains, keys, is_some, string_eq, nat_eq, elem, elem-append, lookup-insert_ne,
  lookup-insert_self, Bool-cases, inl, inr, arith,
}
use shakenfist.Instance.Ports.{Ports, allocate_console_port, ◌>>=◌, allocate_tls, allocate_all}

-- A port that was free, could be bound, and is now an instance's.
pub record New (uuid : String) (binds : ℕ → Bool) (console : Dict ℕ String)
    (result : ℕ × List ℕ × Dict ℕ String) : Type 0 where
  pub free : lookup result.0 console ≡ none
  pub bound : binds result.0 ≡ true
  pub entries : result.2 ≡ insert result.0 uuid console

not-contains :
    (port : ℕ) (console : Dict ℕ String)
    → contains port console ≡ false
    → lookup port console ≡ none
not-contains port console h = ground (arith, h)

pub allocate_console_port-New :
    (uuid : String) (binds : ℕ → Bool) (consumed candidates : List ℕ) (console : Dict ℕ String)
    {result : ℕ × List ℕ × Dict ℕ String}
    → allocate_console_port uuid binds consumed candidates console ≡ some result
    → New uuid binds console result
unfolding allocate_console_port
allocate_console_port-New uuid binds consumed [] console h = cc
allocate_console_port-New uuid binds consumed (port ∷ candidates) console h =
    elim (Bool-cases (elem port consumed)) [
      | inl used ↦
          allocate_console_port-New uuid binds consumed candidates console
            (rw (allocate_console_port, used) at h)
      | inr unused ↦ elim (Bool-cases (binds port)) [
        | inr taken ↦
            allocate_console_port-New uuid binds (consumed ++ (port ∷ [])) candidates console
              (rw (allocate_console_port, unused, taken) at h)
        | inl bound ↦ elim (Bool-cases (contains port console)) [
          | inl there ↦
              allocate_console_port-New uuid binds consumed candidates console
                (rw (allocate_console_port, unused, bound, there) at h)
          | inr absent ↦
              subst (New uuid binds console)
                (some-injective _ _ (rw (allocate_console_port, unused, bound, absent) at h))
                (record { free = not-contains port console absent; bound = bound; entries = refl })
        ]
      ]
    ]

-- A free port among the candidates is enough for one to be found.
pub allocate_console_port-returns :
    (uuid : String) (binds : ℕ → Bool) (consumed candidates : List ℕ) (console : Dict ℕ String)
    (port : ℕ)
    → elem port candidates ≡ true
    → elem port consumed ≡ false
    → lookup port console ≡ none
    → binds port ≡ true
    → is_some (allocate_console_port uuid binds consumed candidates console) ≡ true
unfolding allocate_console_port elem
allocate_console_port-returns uuid binds consumed [] console port there free absent can_bind = cc
allocate_console_port-returns uuid binds consumed (p ∷ candidates) console port there free absent
      can_bind =
    ground (
      arith,
      nat_eq.beq_iff p port,
      elem-append port consumed (p ∷ []),
      allocate_console_port-returns uuid binds consumed candidates console port,
      allocate_console_port-returns uuid binds (consumed ++ (p ∷ [])) candidates console port,
      there,
      free,
      absent,
      can_bind,
    )

pub bind-some {ℓ κ} :
    {A : Type ℓ} {B : Type κ} (m : Option A) (f : A → Option B) {b : B}
    → (m >>= f) ≡ some b
    → (a : A) × (m ≡ some a) × (f a ≡ some b)
bind-some none f h = cc
bind-some (some a) f h = (a, refl, h)

-- The three ports of an instance are different and all entered as its own.
pub record Held (uuid : String) (p : Ports) (console : Dict ℕ String) : Type 0 where
  pub first : lookup p.console_port console ≡ some uuid
  pub second : lookup p.vdi_port console ≡ some uuid
  pub third : (port : ℕ) → p.vdi_tls_port ≡ some port → lookup port console ≡ some uuid
  pub apart : p.console_port ≢ p.vdi_port
  pub tls_apart :
      (port : ℕ) → p.vdi_tls_port ≡ some port → (port ≢ p.console_port) × (port ≢ p.vdi_port)

-- Entries that were there are still there.
unfoldable pub Grown : Dict ℕ String → Dict ℕ String → Type 0
Grown console console' =
    (port : ℕ) (uuid : String) → lookup port console ≡ some uuid → lookup port console' ≡ some uuid

held-absent :
    (port other : ℕ) (uuid : String) (console : Dict ℕ String)
    → lookup port console ≡ none
    → lookup other console ≡ some uuid
    → port ≢ other
held-absent port other uuid console free held same =
    absurd (none≢some (sym free ∙ ap (λ x. lookup x console) same ∙ held))
  where
    none≢some : ◌≡◌ {A = Option String} none (some uuid) → ⊥
    none≢some h = cc

New-Grown :
    (uuid : String) (binds : ℕ → Bool) (console : Dict ℕ String)
    (result : ℕ × List ℕ × Dict ℕ String)
    → New uuid binds console result
    → Grown console result.2
unfolding Grown
New-Grown uuid binds console result n port other held =
    ap (lookup port) n.entries
    ∙ lookup-insert_ne result.0 port uuid console
        (held-absent result.0 port other console n.free held)
    ∙ held

New-self :
    (uuid : String) (binds : ℕ → Bool) (console : Dict ℕ String)
    (result : ℕ × List ℕ × Dict ℕ String)
    → New uuid binds console result
    → lookup result.0 result.2 ≡ some uuid
New-self uuid binds console result n =
    ap (lookup result.0) n.entries ∙ lookup-insert_self result.0 uuid console

pub Held-Grown :
    (uuid : String) (p : Ports) (console console' : Dict ℕ String)
    → Grown console console'
    → Held uuid p console
    → Held uuid p console'
unfolding Grown
Held-Grown uuid p console console' g h = record {
  first = g p.console_port uuid h.first;
  second = g p.vdi_port uuid h.second;
  third = λ port e. g port uuid (h.third port e);
  apart = h.apart;
  tls_apart = h.tls_apart;
}

-- What allocate_tls adds to two ports that are held already.
allocate_tls-Held :
    (uuid : String) (binds : ℕ → Bool) (spice : Bool) (candidates : List ℕ)
    (console : Dict ℕ String) (a b : ℕ) {result : Option ℕ × Dict ℕ String}
    → allocate_tls uuid binds spice candidates console ≡ some result
    → lookup a console ≡ some uuid
    → lookup b console ≡ some uuid
    → a ≢ b
    → Grown console result.1
      × Held uuid (record { console_port = a; vdi_port = b; vdi_tls_port = result.0 }) result.1
unfolding allocate_tls Grown
allocate_tls-Held uuid binds false candidates console a b h ha hb n =
    subst
      (λ r.
        Grown console r.1
        × Held uuid (record { console_port = a; vdi_port = b; vdi_tls_port = r.0 }) r.1)
      (some-injective _ _ h)
      (
        (λ port other held. held),
        record {
          first = ha;
          second = hb;
          third = λ port e. cc;
          apart = n;
          tls_apart = λ port e. cc;
        },
      )
allocate_tls-Held uuid binds true candidates console a b h ha hb n =
    let (tls, allocated, h1) =
      bind-some (allocate_console_port uuid binds (keys console) candidates console) _ h in
    let new = allocate_console_port-New uuid binds (keys console) candidates console allocated in
    let grown = New-Grown uuid binds console tls new in
    subst
      (λ r.
        Grown console r.1
        × Held uuid (record { console_port = a; vdi_port = b; vdi_tls_port = r.0 }) r.1)
      (some-injective _ _ h1)
      (
        grown,
        record {
          first = grown a uuid ha;
          second = grown b uuid hb;
          third = λ port e.
              subst (λ x. lookup x tls.2 ≡ some uuid) (some-injective _ _ e)
                (New-self uuid binds console tls new);
          apart = n;
          tls_apart = λ port e.
              subst (λ x. (x ≢ a) × (x ≢ b)) (some-injective _ _ e)
                (
                  held-absent tls.0 a uuid console new.free ha,
                  held-absent tls.0 b uuid console new.free hb,
                );
        },
      )

pub allocate_all-Held :
    (uuid : String) (binds : ℕ → Bool) (spice : Bool) (candidates : List ℕ)
    (console : Dict ℕ String) {result : Ports × Dict ℕ String}
    → allocate_all uuid binds spice candidates console ≡ some result
    → Grown console result.1 × Held uuid result.0 result.1
unfolding allocate_all Grown
allocate_all-Held uuid binds spice candidates console h =
    let (first, allocated, h1) =
      bind-some (allocate_console_port uuid binds (keys console) candidates console) _ h in
    let new = allocate_console_port-New uuid binds (keys console) candidates console allocated in
    let (second, allocated', h2) =
      bind-some (allocate_console_port uuid binds (keys first.2) first.1 first.2) _ h1 in
    let new' = allocate_console_port-New uuid binds (keys first.2) first.1 first.2 allocated' in
    let (third, tls, h3) = bind-some (allocate_tls uuid binds spice second.1 second.2) _ h2 in
    let own = New-self uuid binds console first new in
    let (grown, held) =
      allocate_tls-Held uuid binds spice second.1 second.2 first.0 second.0 tls
        (New-Grown uuid binds first.2 second new' first.0 uuid own)
        (New-self uuid binds first.2 second new')
        (λ same. held-absent second.0 first.0 uuid first.2 new'.free own (sym same)) in
    subst (λ r. Grown console r.1 × Held uuid r.0 r.1) (some-injective _ _ h3)
      (
        (λ port other there. grown port other (
            New-Grown uuid binds first.2 second new' port other
              (New-Grown uuid binds console first new port other there))),
        held,
      )
