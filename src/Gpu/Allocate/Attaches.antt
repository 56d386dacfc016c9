-- ===== src/Gpu/Allocate/Attaches.antt =====
-- autoAllocateExclusiveGPUs followed by ApplyToVmSpec: who gets the card.
use plugin_vm.Base.{
  ◌≡◌, refl, sym, ap, ◌∙◌, inl, inr, Bool, true, false, ◌||◌, ◌&&◌, not, Option, none, some, List,
  [], ◌∷◌, ◌++◌, append-nil, String, if◌then◌else◌, is_nil, Bool-cases,
}
use plugin_vm.Spec.{LibvirtHostdev, LibvirtDevices, LibvirtDomain, VmSpec}
use plugin_vm.Backend.{Provider}
use plugin_vm.Gpu.{
  VmInstanceOverride, devices_hostdevs, domain_hostdevs, override_hostdevs, spec_has_hostdev,
  ovr_has_hostdev, required_gpu_resource, put_devices, put_domain, put_override, drop_stale,
  add_devices, add_domain, apply_devices, apply_domain, apply_to_vm_spec,
}
use plugin_vm.Gpu.Allocate.{
  DetectedGpu, GpuSeams, persisted, with_hostdevs, with_gpu, header_of,
  write_instance_override_hostdevs, backend_without_pci, allocate_for, allocate_required,
  auto_allocate_exclusive_gpus,
}

-- What the override's hostdevs are after they are put.
override_hostdevs-put :
    (hs : List LibvirtHostdev) (o : Option VmInstanceOverride)
    → override_hostdevs (some (put_override hs o)) ≡ hs
unfolding override_hostdevs domain_hostdevs devices_hostdevs put_override put_domain put_devices
override_hostdevs-put hs none = refl
override_hostdevs-put hs (some o) = put_some o.libvirt
  where
    put_some : (d : Option LibvirtDomain) → domain_hostdevs (some (put_domain hs d)) ≡ hs
    put_some none = refl
    put_some (some d) = put_in d.devices
      where
        put_in : (x : Option LibvirtDevices) → devices_hostdevs (some (put_devices hs x)) ≡ hs
        put_in none = refl
        put_in (some x) = refl

add_devices_lem :
    (od : LibvirtDevices) (x : Option LibvirtDevices)
    → devices_hostdevs (some (add_devices od x)) ≡ devices_hostdevs x ++ od.hostdevs
unfolding devices_hostdevs add_devices
add_devices_lem od none = refl
add_devices_lem od (some x) = refl

add_domain_lem :
    (od : LibvirtDevices) (d : Option LibvirtDomain)
    → domain_hostdevs (some (add_domain od d)) ≡ domain_hostdevs d ++ od.hostdevs
unfolding domain_hostdevs add_domain
add_domain_lem od none = add_devices_lem od none
add_domain_lem od (some d) = add_devices_lem od d.devices

is_nil_lem : (hs : List LibvirtHostdev) (b : Bool) → is_nil hs && b ≡ true → hs ≡ []
is_nil_lem [] b e = refl
is_nil_lem (h ∷ hs) b e = cc

apply_devices_lem :
    (x : Option LibvirtDevices) (spec : VmSpec)
    → domain_hostdevs ((apply_devices x spec).libvirt)
      ≡ domain_hostdevs spec.libvirt ++ devices_hostdevs x
unfolding devices_hostdevs apply_devices
apply_devices_lem none spec = sym (append-nil _)
apply_devices_lem (some od) spec = elim (Bool-cases (is_nil od.hostdevs && is_nil od.filesystems)) [
  | inl e ↦ rw e (
      sym (append-nil _)
      ∙ ap (λ hs. domain_hostdevs spec.libvirt ++ hs)
          (sym (is_nil_lem od.hostdevs (is_nil od.filesystems) e)))
  | inr e ↦ rw e (add_domain_lem od spec.libvirt)
]

-- The hostdevs of the override come after those of the spec.
pub apply_to_vm_spec-hostdevs :
    (ovr : Option VmInstanceOverride) (spec : VmSpec)
    → domain_hostdevs ((apply_to_vm_spec ovr spec).libvirt)
      ≡ domain_hostdevs spec.libvirt ++ override_hostdevs ovr
unfolding apply_to_vm_spec apply_domain override_hostdevs
apply_to_vm_spec-hostdevs none spec = sym (append-nil _)
apply_to_vm_spec-hostdevs (some o) spec = below o.libvirt
  where
    below :
        (d : Option LibvirtDomain)
        → domain_hostdevs ((apply_domain d spec).libvirt)
          ≡ domain_hostdevs spec.libvirt ++ domain_hostdevs d
    below none = sym (append-nil _)
    below (some d) = apply_devices_lem d.devices spec

not_nil :
    (xs ys : List LibvirtHostdev)
    → not (is_nil xs) || not (is_nil ys) ≡ true
    → not (is_nil (xs ++ ys)) ≡ true
not_nil [] ys h = h
not_nil (x ∷ xs) ys h = refl

drop_stale_lem : (ovr : Option VmInstanceOverride) → override_hostdevs (drop_stale ovr) ≡ []
unfolding override_hostdevs drop_stale
drop_stale_lem none = refl
drop_stale_lem (some o) = elim (Bool-cases (ovr_has_hostdev (some o))) [
  | inl e ↦ rw e (override_hostdevs-put [] (some o))
  | inr e ↦ rw e (no_hostdevs (domain_hostdevs o.libvirt) e)
]
  where
    no_hostdevs : (hs : List LibvirtHostdev) → not (is_nil hs) ≡ false → hs ≡ []
    no_hostdevs [] h = refl
    no_hostdevs (x ∷ hs) h = cc

module _ {W Report : Type 0} (s : GpuSeams W Report) where
  -- The override, or the spec, has a hostdev.
  abbrev Configured : VmSpec → Option VmInstanceOverride → Type 0
  Configured spec ovr = spec_has_hostdev spec || ovr_has_hostdev ovr ≡ true

  persisted-Configured :
      (spec : VmSpec) (domain_name : String) (h : LibvirtHostdev) (hs : List LibvirtHostdev)
      (ovr : Option VmInstanceOverride) (r : W × Option String) {w' : W}
      {ovr' : Option VmInstanceOverride}
      → persisted s domain_name (put_override (h ∷ hs) ovr) r ≡ (w', ovr', none)
      → Configured spec ovr'
  unfolding persisted
  persisted-Configured spec domain_name h hs ovr (w, none) {ovr' = ovr'} e =
      let same : some (put_override (h ∷ hs) ovr) ≡ ovr' = cc in
      rw (sym same) (rw (override_hostdevs-put (h ∷ hs) ovr) (or_true (spec_has_hostdev spec)))
    where
      or_true : (b : Bool) → b || true ≡ true
      or_true true = refl
      or_true false = refl
  persisted-Configured spec domain_name h hs ovr (w, some x) e = cc

  with_hostdevs-Configured :
      (spec : VmSpec) (ovr : Option VmInstanceOverride) (domain_name tok vendor : String)
      (gpu : DetectedGpu) (hs : List LibvirtHostdev) (w : W) {w' : W}
      {ovr' : Option VmInstanceOverride}
      → with_hostdevs s ovr domain_name tok vendor gpu hs w ≡ (w', ovr', none)
      → Configured spec ovr'
  unfolding with_hostdevs
  with_hostdevs-Configured spec ovr domain_name tok vendor gpu [] w e = cc
  with_hostdevs-Configured spec ovr domain_name tok vendor gpu (h ∷ hs) w e =
      persisted-Configured spec domain_name h hs ovr
        (write_instance_override_hostdevs s domain_name (put_override (h ∷ hs) ovr)
          (header_of s tok vendor gpu) w)
        e

  with_gpu-Configured :
      (spec : VmSpec) (ovr : Option VmInstanceOverride) (domain_name tok vendor : String) (w : W)
      (gpu : Option DetectedGpu) {w' : W} {ovr' : Option VmInstanceOverride}
      → with_gpu s ovr domain_name tok vendor w gpu ≡ (w', ovr', none)
      → Configured spec ovr'
  unfolding with_gpu
  with_gpu-Configured spec ovr domain_name tok vendor w none e = cc
  with_gpu-Configured spec ovr domain_name tok vendor w (some gpu) e =
      with_hostdevs-Configured spec ovr domain_name tok vendor gpu _ w e

  module _ (registry : List (String × Provider W)) where
    branch-Configured :
        (spec : VmSpec) (ovr : Option VmInstanceOverride) (domain_name backend tok vendor : String)
        (w : W) (gpu : Option DetectedGpu) (configured takes : Bool) {w' : W}
        {ovr' : Option VmInstanceOverride}
        → spec_has_hostdev spec || ovr_has_hostdev ovr ≡ configured
        → (if configured
            then (w, ovr, none)
            else if takes
            then with_gpu s ovr domain_name tok vendor w gpu
            else (w, ovr, some (backend_without_pci domain_name tok backend)))
          ≡ (w', ovr', none)
        → Configured spec ovr'
    branch-Configured spec ovr domain_name backend tok vendor w gpu true takes {ovr' = ovr'} c e =
        let same : ovr ≡ ovr' = cc in rw (sym same) c
    branch-Configured spec ovr domain_name backend tok vendor w gpu false true c e =
        with_gpu-Configured spec ovr domain_name tok vendor w gpu e
    branch-Configured spec ovr domain_name backend tok vendor w gpu false false c e = cc

    Configured-attached :
        (spec : VmSpec) (ovr : Option VmInstanceOverride)
        → Configured spec ovr
        → spec_has_hostdev (apply_to_vm_spec ovr spec) ≡ true
    Configured-attached spec ovr c =
        rw (apply_to_vm_spec-hostdevs ovr spec)
          (not_nil (domain_hostdevs spec.libvirt) (override_hostdevs ovr) c)

    -- Add the card or fail hard: when a claimant requires a GPU and the allocation reports no
    -- error, the spec has a hostdev once the override is applied to it.
    pub auto_allocate_exclusive_gpus-attaches :
        (spec : VmSpec) (ovr : Option VmInstanceOverride) (tokens : List String)
        (resources : List (String × Option String)) (domain_name backend : String) (w : W)
        {req : String × String} {w' : W} {ovr' : Option VmInstanceOverride}
        → required_gpu_resource tokens resources ≡ some req
        → auto_allocate_exclusive_gpus s registry spec ovr tokens resources domain_name backend w
          ≡ (w', ovr', none)
        → spec_has_hostdev (apply_to_vm_spec ovr' spec) ≡ true
    unfolding auto_allocate_exclusive_gpus allocate_required allocate_for
    auto_allocate_exclusive_gpus-attaches spec ovr tokens resources domain_name backend w
          {req = (tok, vendor)} {ovr' = ovr'} r e =
        Configured-attached spec ovr'
          (branch-Configured spec ovr domain_name backend tok _ w _ _ _ refl (rw r at e))

    -- A claimant without a GPU never gets a card from a stale override: the call changes nothing
    -- on the host and reports no error, and the override that it returns adds no hostdev.
    pub auto_allocate_exclusive_gpus-spares :
        (spec : VmSpec) (ovr : Option VmInstanceOverride) (tokens : List String)
        (resources : List (String × Option String)) (domain_name backend : String) (w : W)
        → required_gpu_resource tokens resources ≡ none
        → (ovr' : Option VmInstanceOverride) × (auto_allocate_exclusive_gpus s registry spec ovr
              tokens resources domain_name backend w
            ≡ (w, ovr', none))
          × (domain_hostdevs ((apply_to_vm_spec ovr' spec).libvirt) ≡ domain_hostdevs spec.libvirt)
    unfolding auto_allocate_exclusive_gpus allocate_required
    auto_allocate_exclusive_gpus-spares spec ovr tokens resources domain_name backend w r = (
      drop_stale ovr,
      rw r,
      apply_to_vm_spec-hostdevs (drop_stale ovr) spec
          ∙ ap (λ hs. domain_hostdevs spec.libvirt ++ hs) (drop_stale_lem ovr)
          ∙ append-nil _,
    )
