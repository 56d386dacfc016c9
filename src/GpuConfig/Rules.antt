-- ===== src/GpuConfig/Rules.antt =====
-- validateLibvirtGpuConfig: what it accepts.
use plugin_vm.Base.{
  ◌≡◌, refl, ◌↔◌, inl, inr, ℕ, suc, true, false, Option, none, some, List, [], ◌∷◌, All, Bool-cases,
}
use plugin_vm.Base.Text.{Text}
use plugin_vm.Spec.{LibvirtDomain, LibvirtDevices, LibvirtGraphics}
use plugin_vm.GpuConfig.Graphics.{map_graphics}
use plugin_vm.GpuConfig.Carried.{rendered, authored, map_graphics-Carries}
use plugin_vm.GpuConfig.{
  GpuConfigError, validate_graphics_gl, validate_all_graphics, first_error, contains,
  declared_device_aliases, keys, unmatched_in, report_unmatched, validate_qemu_override_targets,
  graphics_errors, validate_libvirt_gpu_config,
}

first_error-none :
    (a b : Option GpuConfigError) → (first_error a b ≡ none) ↔ ((a ≡ none) × (b ≡ none))
first_error-none (some e) b = ((λ h. cc), (λ h. cc))
first_error-none none b = ((λ h. (refl, h)), (λ h. h.1))

-- The element of a block says what its author wrote of <gl>, `address` and `p2p`.
abbrev pub Carries : LibvirtGraphics → Type 0
Carries g = rendered (map_graphics g) ≡ authored g

validate_all_graphics-All :
    (i : ℕ) (gs : List LibvirtGraphics) → validate_all_graphics i gs ≡ none → All Carries gs
unfolding validate_all_graphics
validate_all_graphics-All i [] h = tt
validate_all_graphics-All i (g ∷ gs) h =
    let (first, rest) = (first_error-none (validate_graphics_gl i g) _).0 h in
    (map_graphics-Carries i g first, validate_all_graphics-All (suc i) gs rest)

-- Each key is the alias of a device.
abbrev pub Targets : LibvirtDomain → Type 0
Targets lv = All (λ key. contains key (declared_device_aliases lv) ≡ true) (keys lv.qemu_override)

unmatched_in-nil :
    (declared ks : List Text)
    → (report_unmatched declared (unmatched_in declared ks) ≡ none)
      ↔ All (λ key. contains key declared ≡ true) ks
unfolding unmatched_in report_unmatched
unmatched_in-nil declared [] = ((λ _. tt), (λ _. refl))
unmatched_in-nil declared (k ∷ ks) = elim (Bool-cases (contains k declared)) [
  | inl e ↦ rw e (
    (λ h. (refl, (unmatched_in-nil declared ks).0 h)),
    (λ h. (unmatched_in-nil declared ks).1 h.1),
  )
  | inr e ↦ rw e ((λ h. cc), (λ h. absurd (false≢true h.0)))
]
  where
    false≢true : false ≡ true → ⊥
    false≢true h = cc

-- So does every graphics block of the domain.
pub data AllCarry : Option LibvirtDevices → Type 0 where
  no_devices : AllCarry none
  devices_carry : {d : LibvirtDevices} → All Carries d.graphics → AllCarry (some d)

graphics_errors-AllCarry : (x : Option LibvirtDevices) → graphics_errors x ≡ none → AllCarry x
unfolding graphics_errors
graphics_errors-AllCarry none h = no_devices
graphics_errors-AllCarry (some d) h = devices_carry (validate_all_graphics-All 0 d.graphics h)

-- Of a configuration that is accepted, no `enable` or `rendernode` of a <gl>, no `address` and no
-- `p2p` of a graphics block is dropped: the element that the block becomes has each of them as it was
-- written, and none that was not. And every key of the qemu override is the alias of a device. The
-- ports, listeners, passwords and keymaps are not meant.
pub validate_libvirt_gpu_config-Carries :
    (lv : LibvirtDomain)
    → validate_libvirt_gpu_config (some lv) ≡ none
    → AllCarry lv.devices × Targets lv
unfolding validate_libvirt_gpu_config validate_qemu_override_targets
validate_libvirt_gpu_config-Carries lv h =
    let both : (graphics_errors lv.devices ≡ none) × (validate_qemu_override_targets lv ≡ none) =
      (first_error-none _ _).0 h in
    (
      graphics_errors-AllCarry lv.devices both.0,
      (unmatched_in-nil _ (keys lv.qemu_override)).0 both.1,
    )
