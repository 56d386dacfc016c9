-- ===== src/Virtiofs/Shares.antt =====
-- ensureSharedMemoryBacking and applyVirtiofsIdmap on a whole domain.
use plugin_vm.Base.{
  ◌≡◌, refl, sym, ap, ◌∙◌, inl, inr, Bool, true, false, ◌&&◌, ◌||◌, Option, none, some, List, [],
  ◌∷◌, map, Bool-cases, String, str_eq,
}
use plugin_vm.Virtiofs.{
  is_virtiofs, IdMapEntry, FilesystemIdMap, MemoryBacking, XmlFilesystem, XmlDevices, XmlDomain,
  shares_memory, or_default, fill_backing, backed, ensure_shared_memory_backing, wants_id_map,
  any_wants, has_unmapped, domain_has_unmapped_passthrough_virtiofs, set_id_map, set_devices,
  apply_virtiofs_idmap,
}

and_false : (a b : Bool) → (a && b && false) ≡ false
and_false true true = refl
and_false true false = refl
and_false false b = refl

with_map :
    (m : FilesystemIdMap) (fs : XmlFilesystem)
    → wants_id_map (record fs { id_map = some m }) ≡ false
unfolding wants_id_map
with_map m fs =
    and_false (is_virtiofs fs.driver)
      (str_eq fs.access_mode "" || str_eq fs.access_mode "passthrough")

set_id_map-settles :
    (m : FilesystemIdMap) (fs : XmlFilesystem) → wants_id_map (set_id_map m fs) ≡ false
unfolding set_id_map
set_id_map-settles m fs = elim (Bool-cases (wants_id_map fs)) [
  | inl e ↦ rw e (with_map m fs)
  | inr e ↦ rw e e
]

map-settles :
    (m : FilesystemIdMap) (shares : List XmlFilesystem)
    → any_wants (map (set_id_map m) shares) ≡ false
unfolding any_wants
map-settles m [] = refl
map-settles m (fs ∷ shares) = rw (set_id_map-settles m fs, map-settles m shares)

map-settled :
    (m : FilesystemIdMap) (shares : List XmlFilesystem)
    → any_wants shares ≡ false
    → map (set_id_map m) shares ≡ shares
unfolding any_wants set_id_map
map-settled m [] h = refl
map-settled m (fs ∷ shares) h = elim (Bool-cases (wants_id_map fs)) [
  | inl e ↦ absurd (true_or _ _ e h)
  | inr e ↦ rw (e, map-settled m shares (rw e at h))
]
  where
    true_or : (a b : Bool) → a ≡ true → a || b ≡ false → ⊥
    true_or true b e h = cc
    true_or false b e h = cc

settles_devices :
    (m : FilesystemIdMap) (d : XmlDomain) (x : Option XmlDevices)
    → d.devices ≡ x
    → has_unmapped ((set_devices m d x).devices) ≡ false
unfolding set_devices has_unmapped
settles_devices m d none e = rw e
settles_devices m d (some v) e = map-settles m v.filesystems

settled_devices :
    (m : FilesystemIdMap) (d : XmlDomain) (x : Option XmlDevices)
    → d.devices ≡ x
    → has_unmapped x ≡ false
    → set_devices m d x ≡ d
unfolding set_devices has_unmapped
settled_devices m d none e h = refl
settled_devices m d (some v) e h =
    ap (λ fs. record d { devices = some (record v { filesystems = fs }) })
      (map-settled m v.filesystems h)
    ∙ ap (λ x. record d { devices = x }) (sym e)

-- The maps are set on every share that wants one: none is left without.
pub apply_virtiofs_idmap-settles :
    (d : XmlDomain) (uid gid : List IdMapEntry)
    → domain_has_unmapped_passthrough_virtiofs (apply_virtiofs_idmap d (some uid) (some gid))
      ≡ false
unfolding domain_has_unmapped_passthrough_virtiofs apply_virtiofs_idmap
apply_virtiofs_idmap-settles d uid gid = settles_devices _ d d.devices refl

-- Where no share wants a map, nothing changes.
pub apply_virtiofs_idmap-settled :
    (d : XmlDomain) (uid gid : Option (List IdMapEntry))
    → domain_has_unmapped_passthrough_virtiofs d ≡ false
    → apply_virtiofs_idmap d uid gid ≡ d
unfolding domain_has_unmapped_passthrough_virtiofs apply_virtiofs_idmap
apply_virtiofs_idmap-settled d (some uid) (some gid) h = settled_devices _ d d.devices refl h
apply_virtiofs_idmap-settled d (some uid) none h = refl
apply_virtiofs_idmap-settled d none gid h = refl

or_default_twice :
    (a b : Option String)
    → fill_backing (
        some record { memory_source = or_default a "memfd"; memory_access = or_default b "shared" })
      ≡ record { memory_source = or_default a "memfd"; memory_access = or_default b "shared" }
unfolding fill_backing
or_default_twice none none = refl
or_default_twice none (some b) = refl
or_default_twice (some a) none = refl
or_default_twice (some a) (some b) = refl

fill_backing-idempotent :
    (b : Option MemoryBacking) → fill_backing (some (fill_backing b)) ≡ fill_backing b
unfolding fill_backing
fill_backing-idempotent none = refl
fill_backing-idempotent (some b) = or_default_twice b.memory_source b.memory_access

backed-devices : (d : XmlDomain) (x : Option XmlDevices) → (backed d x).devices ≡ d.devices
unfolding backed
backed-devices d none = refl
backed-devices d (some v) = elim (Bool-cases (shares_memory v)) [ inl e ↦ rw e | inr e ↦ rw e ]

backed-idempotent : (d : XmlDomain) (x : Option XmlDevices) → backed (backed d x) x ≡ backed d x
unfolding backed
backed-idempotent d none = refl
backed-idempotent d (some v) = elim (Bool-cases (shares_memory v)) [
  | inl e ↦
      rw e
        (ap (λ b. record d { memory_backing = some b }) (fill_backing-idempotent d.memory_backing))
  | inr e ↦ rw e
]

-- A second run of the shared memory backing changes nothing.
pub ensure_shared_memory_backing-idempotent :
    (d : XmlDomain)
    → ensure_shared_memory_backing (ensure_shared_memory_backing d) ≡ ensure_shared_memory_backing d
unfolding ensure_shared_memory_backing
ensure_shared_memory_backing-idempotent d =
    ap (λ x. backed (backed d d.devices) x) (backed-devices d d.devices)
    ∙ backed-idempotent d d.devices
