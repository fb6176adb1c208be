-- ===== src/Creation/Passed.antt =====
-- All that is known of a request that passed the checks of post, and how an NVRAM template that is a
-- blob fares (shakenfist/external_api/instance.py).
use Prim.Native.String.{String}
use text.Mathlib.Text.{starts_with}
use mathlib.Core.Path.{subst}
use mathlib.Core.Option.{some-injective}
use shakenfist.Prelude.{
  ℕ, ◌≡◌, refl, sym, ap, ◌∙◌, Bool, true, false, not, ◌||◌, List, [], ◌∷◌, Option, none, some, Dict,
  lookup, elem, All, ◌==◌, string_eq, if◌then◌else◌, Result, ok, err, ◌>>=◌, bind-ok, ok-injective,
  Option-cases, inl, inr,
}
use shakenfist.ObjectState.Names.{StateName, created, option_state_name_eq}
use shakenfist.Namespace.Model.{namespace_is_trusted}
use shakenfist.Namespace.Access.{Object, RefError, multiple_objects, from_db_by_ref}
use shakenfist.Instance.Disks.{DiskSpec, or_none, or_text}
use shakenfist.Creation.Request.{ApiError, check, NetDesc, Request, Network, Database}
use shakenfist.Creation.Disk.{Loop, transform_disks, transform_nvram, nvram_blob}
use shakenfist.Creation.Accepted.{Sourced, check-holds, err≢ok, transform_disks-Sourced}
use shakenfist.Creation.Checks.{
  Checked, network_of, objects_of, address_fits, netdesc_safety_checks, check_networks, valid_name,
  check_node, any_ide, drive_of, check_video, validate_metadata, check_arguments, check_rest,
  check_request, given,
}

-- A network that an instance of the namespace may join, at the address asked for.
pub record Joinable (networks : Dict String Network) (namespace : String) (d : NetDesc)
    : Type 0 where
  pub network : Network
  pub uuid : String
  pub known : lookup uuid networks ≡ some network
  pub asked : d.network_uuid ≡ some network.object.uuid
  pub fits : address_fits network.block d.address ≡ true
  pub created_state : network.state ≡ some created
  pub own : network.object.namespace ≡ namespace

network_of-known :
    (networks : Dict String Network) (r : Result RefError (Option Object)) (n : Network)
    → network_of networks r ≡ ok n
    → (uuid : String) × (lookup uuid networks ≡ some n)
unfolding network_of
network_of-known networks (err multiple_objects) n h = cc
network_of-known networks (ok none) n h = cc
network_of-known networks (ok (some o)) n h = elim (Option-cases (lookup o.uuid networks)) [
  | inl gone ↦ absurd (err≢ok (rw (network_of, gone) at h))
  | inr (m, found) ↦ (o.uuid, found ∙ ap some (ok-injective (rw (network_of, found) at h)))
]

module _ (valid_uuid4 : String → Bool) (caller : String) (networks : Dict String Network)
    (namespace : String) where
  netdesc_safety_checks-Joinable :
      (d : Option NetDesc) (d' : NetDesc)
      → netdesc_safety_checks valid_uuid4 caller networks namespace d ≡ ok d'
      → Joinable networks namespace d'
  unfolding netdesc_safety_checks
  netdesc_safety_checks-Joinable none d' h = absurd (err≢ok h)
  netdesc_safety_checks-Joinable (some d) d' h =
      let (ref, named, h1) = bind-ok (given d.network_uuid) _ h in
      let (n, found, h2) =
        bind-ok (network_of networks (from_db_by_ref valid_uuid4 ref caller (objects_of networks)))
          _ h1 in
      let (_, fits, h3) = bind-ok (check 400 (address_fits n.block d.address)) _ h2 in
      let (_, ready, h4) = bind-ok (check 406 (n.state == some created)) _ h3 in
      let (_, own, h5) = bind-ok (check 404 (n.object.namespace == namespace)) _ h4 in
      let (uuid, known) = network_of-known networks _ n found in
      subst (Joinable networks namespace) (ok-injective h5) (record {
        network = n;
        uuid = uuid;
        known = known;
        asked = refl;
        fits = check-holds 400 _ fits;
        created_state =
            (option_state_name_eq.beq_iff n.state (some created)).0 (check-holds 406 _ ready);
        own = (string_eq.beq_iff n.object.namespace namespace).0 (check-holds 404 _ own);
      })

  check_networks-Joinable :
      (network : List (Option NetDesc)) (network' : List NetDesc)
      → check_networks valid_uuid4 caller networks namespace network ≡ ok network'
      → All (Joinable networks namespace) network'
  unfolding check_networks
  check_networks-Joinable [] network' h =
      subst (All (Joinable networks namespace)) (ok-injective h) tt
  check_networks-Joinable (d ∷ network) network' h =
      let (first, one, h1) =
        bind-ok (netdesc_safety_checks valid_uuid4 caller networks namespace d) _ h in
      let (rest, others, h2) =
        bind-ok (check_networks valid_uuid4 caller networks namespace network) _ h1 in
      subst (All (Joinable networks namespace)) (ok-injective h2)
        (netdesc_safety_checks-Joinable d first one, check_networks-Joinable network rest others)

bind-cong {ℓ κ} :
    {A : Type ℓ} {B : Type κ} (m : Result ApiError A) (f g : A → Result ApiError B)
    → ((a : A) → f a ≡ g a)
    → (m >>= f) ≡ (m >>= g)
bind-cong (ok a) f g h = h a
bind-cong (err e) f g h = refl

-- A node that a request may name.
unfoldable pub Ready : Dict String (Option StateName) → Option String → Type 0
Ready nodes placed_on =
    (name : String) → placed_on ≡ some name → lookup name nodes ≡ some (some created)

check_node-Ready :
    (nodes : Dict String (Option StateName)) (placed_on : Option String)
    → check_node nodes placed_on ≡ ok tt
    → Ready nodes placed_on
unfolding check_node Ready
check_node-Ready nodes none h name e = cc
check_node-Ready nodes (some node) h name e = elim (Option-cases (lookup node nodes)) [
  | inl gone ↦ absurd (err≢ok (rw (check_node, gone) at h))
  | inr (state, found) ↦
      ap (λ n. lookup n nodes) (sym (some-injective _ _ e))
      ∙ found
      ∙ ap some (
          (option_state_name_eq.beq_iff state (some created)).0
            (check-holds 404 _ (rw (check_node, found) at h)))
]

-- What holds of a request that passed.
pub record Accepted (hostname : String → Bool) (config_bus caller : String) (db : Database)
    (c : Checked) : Type 0 where
  pub trusted : namespace_is_trusted db.namespaces c.namespace caller ≡ true
  pub named : valid_name hostname c.name ≡ true
  pub secure : (not c.secure_boot || c.uefi) ≡ true
  pub machine : c.machine_type ≡ (if c.secure_boot then "q35" else "pc")
  pub node : Ready db.nodes c.placed_on
  pub drive : elem c.configdrive ("openstack-disk" ∷ "none" ∷ []) ≡ true
  pub disks : All (Sourced config_bus caller db) c.disk
  pub networks : All (Joinable db.networks c.namespace) c.network

module _ (hostname valid_uuid4 : String → Bool) (fresh : ℕ → String) (config_bus caller : String)
    (db : Database) where
  -- The first six checks.
  record Arguments (r : Request) : Type 0 where
    trusted : namespace_is_trusted db.namespaces (or_text caller r.namespace) caller ≡ true
    named : valid_name hostname r.name ≡ true
    secure : (not r.secure_boot || r.uefi) ≡ true
    node : Ready db.nodes (or_none r.placed_on)
    drive : elem (drive_of r.configdrive) ("openstack-disk" ∷ "none" ∷ []) ≡ true

  check_arguments-Arguments :
      (r : Request)
      → check_arguments hostname valid_uuid4 fresh config_bus caller db r ≡ ok tt
      → Arguments r
  unfolding check_arguments
  check_arguments-Arguments r h =
      let (_, trusted, h1) =
        bind-ok (check 404 (namespace_is_trusted db.namespaces (or_text caller r.namespace) caller))
          _ h in
      let (_, named, h2) = bind-ok (check 400 (valid_name hostname r.name)) _ h1 in
      let (_, secure, h3) = bind-ok (check 400 (not r.secure_boot || r.uefi)) _ h2 in
      let (_, node, h4) = bind-ok (check_node db.nodes (or_none r.placed_on)) _ h3 in
      let (_, drive, _) =
        bind-ok (check 400 (elem (drive_of r.configdrive) ("openstack-disk" ∷ "none" ∷ []))) _ h4 in
      record {
        trusted = check-holds 404 _ trusted;
        named = check-holds 400 _ named;
        secure = check-holds 400 _ secure;
        node = check_node-Ready db.nodes (or_none r.placed_on) node;
        drive = check-holds 400 _ drive;
      }

  check_rest-Accepted :
      (r : Request) (disks : List DiskSpec × Loop) (nvram_template : Option String) (c : Checked)
      → Arguments r
      → All (Sourced config_bus caller db) disks.0
      → check_rest hostname valid_uuid4 fresh config_bus caller db r disks nvram_template ≡ ok c
      → Accepted hostname config_bus caller db c
  unfolding check_rest
  check_rest-Accepted r disks nvram_template c a sourced h =
      let namespace = or_text caller r.namespace in
      let (_, _, h1) = bind-ok (check 400 (not (any_ide disks.0))) _ h in
      let (network, joins, h2) =
        bind-ok (check_networks valid_uuid4 caller db.networks namespace r.network) _ h1 in
      let (video, _, h3) = bind-ok (check_video r.video) _ h2 in
      let (_, _, h4) = bind-ok (check 400 (validate_metadata r.metadata)) _ h3 in
      subst (Accepted hostname config_bus caller db) (ok-injective h4) (record {
        trusted = a.trusted;
        named = a.named;
        secure = a.secure;
        machine = refl;
        node = a.node;
        drive = a.drive;
        disks = sourced;
        networks =
            check_networks-Joinable valid_uuid4 caller db.networks namespace r.network network
              joins;
      })

  pub check_request-Accepted :
      (r : Request) (c : Checked)
      → check_request hostname valid_uuid4 fresh config_bus caller db r ≡ ok c
      → Accepted hostname config_bus caller db c
  unfolding check_request
  check_request-Accepted r c h =
      let namespace = or_text caller r.namespace in
      let start : Loop = record { artifacts = db.artifacts; blob_uuid = none } in
      let (_, arguments, h1) =
        bind-ok (check_arguments hostname valid_uuid4 fresh config_bus caller db r) _ h in
      let (disks, sourced, h2) =
        bind-ok (transform_disks fresh config_bus caller namespace db 0 r.disk start) _ h1 in
      let (nvram_template, _, h3) =
        bind-ok (transform_nvram fresh config_bus caller namespace db r.nvram_template disks.1) _
          h2 in
      check_rest-Accepted r disks nvram_template c (check_arguments-Arguments r arguments)
        (transform_disks-Sourced fresh config_bus caller namespace db 0 r.disk disks.0 start disks.1
          sourced)
        h3

  -- A template that is the URL of a blob.
  pub record IsBlobTemplate (template : String) : Type 0 where
    pub no_label : starts_with template "label:" ≡ false
    pub url : starts_with template "sf://blob/" ≡ true
    pub filled : (template == "") ≡ false

  template_ignored :
      (namespace template other : String) (loop : Loop)
      → IsBlobTemplate template
      → IsBlobTemplate other
      → transform_nvram fresh config_bus caller namespace db (some template) loop
        ≡ transform_nvram fresh config_bus caller namespace db (some other) loop
  unfolding transform_nvram nvram_blob
  template_ignored namespace template other loop a b =
      rw (a.filled, b.filled, nvram_blob, a.no_label, a.url, b.no_label, b.url)

  -- Which blob the URL of an NVRAM template names makes no difference to the outcome of the checks:
  -- the same template is chosen, or the same error is raised.
  pub check_request-nvram_template :
      (r : Request) (template other : String)
      → IsBlobTemplate template
      → IsBlobTemplate other
      → check_request hostname valid_uuid4 fresh config_bus caller db
          (record r { nvram_template = some template })
        ≡ check_request hostname valid_uuid4 fresh config_bus caller db
            (record r { nvram_template = some other })
  unfolding check_request
  check_request-nvram_template r template other a b =
      bind-cong (check_arguments hostname valid_uuid4 fresh config_bus caller db r) _ _ (λ u.
        bind-cong
          (transform_disks fresh config_bus caller (or_text caller r.namespace) db 0 r.disk
            (record { artifacts = db.artifacts; blob_uuid = none }))
          _ _
          (λ disks.
            ap
              (λ m.
                m >>= (λ t. check_rest hostname valid_uuid4 fresh config_bus caller db r disks t))
              (template_ignored (or_text caller r.namespace) template other disks.1 a b)))
