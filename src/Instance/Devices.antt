-- ===== src/Instance/Devices.antt =====
-- No two disks of an instance have the same device (shakenfist/instance.py).
use Prim.Native.String.{String}
use mathlib.Core.Path.{subst}
use text.Mathlib.TextEquality.{eq_iff}
use shakenfist.Prelude.{
  ℕ, zero, suc, ◌+◌, ◌<◌, ◌≤◌, ◌≡◌, ◌≢◌, refl, ap, Bool, true, false, not, ◌&&◌, List, [], ◌∷◌,
  Option, none, some, lookup, ◌==◌, string_eq, elem, All, All-lookup, All-map, if◌then◌else◌,
  Option-cases, inl, inr, arith, Result, ok, err, bind-ok, ok-injective,
}
use shakenfist.Instance.Disks.{
  letters, numbers, Device, DiskError, get_elem?, bases, device_in, get_disk_device, DiskSpec,
  BlockDevice, or_text, disk_entry, configdrive_entry, add_disks, devices_of,
}

-- The position of a text in a list.
unfoldable find : String → List String → ℕ
find s [] = 0
find s (x ∷ xs) = let rest = find s xs in if x == s then 0 else suc rest

unfoldable pub no_repeats : List String → Bool
no_repeats [] = true
no_repeats (x ∷ xs) = not (elem x xs) && no_repeats xs

and-right : (a b : Bool) → (a && b) ≡ true → b ≡ true
and-right a b h = ground arith

elem-get_elem? :
    (i : ℕ) (s : String) (xs : List String) → get_elem? xs i ≡ some s → elem s xs ≡ true
unfolding elem
elem-get_elem? i s [] h = cc
elem-get_elem? zero s (x ∷ xs) h = ground (arith, eq_iff x s, h)
elem-get_elem? (suc i) s (x ∷ xs) h = ground (arith, elem-get_elem? i s xs h)

find-get_elem? :
    (i : ℕ) (s : String) (xs : List String)
    → no_repeats xs ≡ true
    → get_elem? xs i ≡ some s
    → find s xs ≡ i
unfolding find no_repeats
find-get_elem? i s [] once h = cc
find-get_elem? zero s (x ∷ xs) once h = ground (arith, eq_iff x s, h)
find-get_elem? (suc i) s (x ∷ xs) once h = ground (
  arith,
  eq_iff x s,
  elem-get_elem? i s xs h,
  find-get_elem? i s xs (and-right (not (elem x xs)) (no_repeats xs) once) h,
  once,
)

position_in : String → Option (String × List String) → ℕ
position_in suffix none = 0
position_in suffix (some (prefix, index_scheme)) = find suffix index_scheme

-- The position of a device: the one of its suffix among letters, or among numbers.
unfoldable position : Device → ℕ
position d = if d.prefix == "nvme" then find d.suffix numbers else find d.suffix letters

-- A device with the prefix and index scheme of one bus has its index as position.
Indexed : String × (String × List String) → Type 0
Indexed item =
    (s : String) (i : ℕ)
    → get_elem? item.1.1 i ≡ some s
    → position (record { prefix = item.1.0; suffix = s }) ≡ i

letters-once : no_repeats letters ≡ true
unfolding no_repeats elem
letters-once = refl

numbers-once : no_repeats numbers ≡ true
unfolding no_repeats elem
numbers-once = refl

bases-Indexed : All Indexed bases
unfolding position Indexed
bases-Indexed =
    let by_letter = λ (s : String) (i : ℕ) (h : get_elem? letters i ≡ some s).
      find-get_elem? i s letters letters-once h in
    let by_number = λ (s : String) (i : ℕ) (h : get_elem? numbers i ≡ some s).
      find-get_elem? i s numbers numbers-once h in
    (by_letter, (by_letter, (by_letter, (by_letter, (by_number, tt)))))

position-device_in :
    (base : String × List String) (bus : String) (i : ℕ) {d : Device}
    → Indexed (bus, base)
    → device_in base.0 (get_elem? base.1 i) ≡ ok d
    → position d ≡ i
unfolding Indexed
position-device_in base bus i {d} h e = elim (Option-cases (get_elem? base.1 i)) [
  | inl gone ↦ cc
  | inr (s, found) ↦ subst (λ x. position x ≡ i) (ok-injective (rw found at e)) (h s i found)
]

err≢ok : {e : DiskError} {d : Device} → ◌≡◌ {A = Result DiskError Device} (err e) (ok d) → ⊥
err≢ok h = cc

-- Each index gives a device of its own, whatever the buses are.
position-get_disk_device :
    (bus : String) (i : ℕ) {d : Device} → get_disk_device bus i ≡ ok d → position d ≡ i
unfolding get_disk_device
position-get_disk_device bus i {d} h = elim (Option-cases (lookup bus bases)) [
  | inl gone ↦ absurd (err≢ok (rw (get_disk_device, gone) at h))
  | inr (base, found) ↦
      position-device_in base bus i (All-lookup Indexed bus base bases bases-Indexed found)
        (rw (get_disk_device, found) at h)
]

-- The device of an entry comes from an index of at least i.
abbrev From : ℕ → BlockDevice → Type 0
From i b = i ≤ position b.device

abbrev pub Distinct : List BlockDevice → Type 0
Distinct [] = Unit
Distinct (b ∷ devices) = All (λ c. c.device ≢ b.device) devices × Distinct devices

From-ne : (i : ℕ) (b c : BlockDevice) → position b.device < i → From i c → c.device ≢ b.device
From-ne i b c below above same = omega (arith, below, above, ap position same)

From-weaken : (i : ℕ) (c : BlockDevice) → From (i + 1) c → From i c
From-weaken i c h = omega (arith, h)

apart :
    (i : ℕ) (b : BlockDevice) (devices : List BlockDevice)
    → position b.device < i
    → All (From i) devices
    → All (λ c. c.device ≢ b.device) devices
apart i b devices below h = All-map devices (λ c. From-ne i b c below) h

add_disks-Distinct :
    (config_bus : String) (i : ℕ) (disks : List DiskSpec) {devices : List BlockDevice}
    → add_disks config_bus i disks ≡ ok devices
    → All (From i) devices × Distinct devices
unfolding add_disks disk_entry
add_disks-Distinct config_bus i [] h =
    subst (λ d. All (From i) d × Distinct d) (ok-injective h) (tt, tt)
add_disks-Distinct config_bus i (d ∷ disks) h =
    let (device, named, h1) = bind-ok (get_disk_device (or_text config_bus d.bus) i) _ h in
    let (rest, added, h2) = bind-ok (add_disks config_bus (i + 1) disks) _ h1 in
    let (later, distinct) = add_disks-Distinct config_bus (i + 1) disks added in
    let here = position-get_disk_device (or_text config_bus d.bus) i named in
    subst (λ x. All (From i) x × Distinct x) (ok-injective h2)
      (
        (omega (arith, here), All-map rest (From-weaken i) later),
        (apart (i + 1) (disk_entry config_bus d device) rest (omega (arith, here)) later, distinct),
      )

-- Where devices_of returns, no two of its entries have the same device.
pub devices_of-Distinct :
    (config_bus : String) (configdrive : Bool) (disk_spec : List DiskSpec)
    {devices : List BlockDevice}
    → devices_of config_bus configdrive disk_spec ≡ ok devices
    → Distinct devices
unfolding devices_of disk_entry configdrive_entry
devices_of-Distinct config_bus configdrive [] h = cc
devices_of-Distinct config_bus true (d ∷ disks) h =
    let (root_device, root_named, h1) =
      bind-ok (get_disk_device (or_text config_bus d.bus) 0) _ h in
    let (config_device, config_named, h2) =
      bind-ok (get_disk_device (or_text config_bus d.bus) 1) _ h1 in
    let (rest, added, h3) = bind-ok (add_disks config_bus 2 disks) _ h2 in
    let (later, distinct) = add_disks-Distinct config_bus 2 disks added in
    let root_at = position-get_disk_device (or_text config_bus d.bus) 0 root_named in
    let config_at = position-get_disk_device (or_text config_bus d.bus) 1 config_named in
    subst Distinct (ok-injective h3) (
      (
        From-ne 1 (disk_entry config_bus d root_device)
            (configdrive_entry (or_text config_bus d.bus) config_device) (omega (arith, root_at))
            (omega (arith, config_at)),
        apart 2 (disk_entry config_bus d root_device) rest (omega (arith, root_at)) later,
      ),
      (
        apart 2 (configdrive_entry (or_text config_bus d.bus) config_device) rest
            (omega (arith, config_at)) later,
        distinct,
      ),
    )
devices_of-Distinct config_bus false (d ∷ disks) h =
    let (root_device, root_named, h1) =
      bind-ok (get_disk_device (or_text config_bus d.bus) 0) _ h in
    let (config_device, config_named, h2) =
      bind-ok (get_disk_device (or_text config_bus d.bus) 1) _ h1 in
    let (rest, added, h3) = bind-ok (add_disks config_bus 1 disks) _ h2 in
    let (later, distinct) = add_disks-Distinct config_bus 1 disks added in
    let root_at = position-get_disk_device (or_text config_bus d.bus) 0 root_named in
    subst Distinct (ok-injective h3)
      (apart 1 (disk_entry config_bus d root_device) rest (omega (arith, root_at)) later, distinct)
