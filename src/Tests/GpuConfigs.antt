-- ===== src/Tests/GpuConfigs.antt =====
-- The GPU configuration of a domain with a spice display and one override.
use plugin_vm.Base.{◌≡◌, refl, inl, inr, Bool-cases, true, none, some, List, [], ◌∷◌}
use plugin_vm.Base.Int.{pos}
use plugin_vm.Base.Text.{Text, codes, text_eq, text_eq_iff}
use plugin_vm.Spec.{LibvirtDomain, Scalar, flag, whole}
use plugin_vm.GpuConfig.{
  aliases_of, contains, declared_device_aliases, unmatched_in, report_unmatched,
  validate_qemu_override_targets, validate_libvirt_gpu_config, build_override, lookup_key,
}
use plugin_vm.GpuConfig.Rules.{AllCarry, Targets, validate_libvirt_gpu_config-Carries}
use plugin_vm.GpuConfig.Order.{SameEntry, both_none, both_some, build_override-SameOverride}
use mathlib.Core.List.{Permᴰ}

abbrev props : List (Text × Scalar)
props = (codes "blob", flag true) ∷ (codes "hostmem", whole (pos 8)) ∷ []

abbrev overrides : List (Text × List (Text × Scalar))
overrides = (codes "ua-gpu", props) ∷ []

abbrev desktop : LibvirtDomain
desktop = record {
  devices = some record {
    hostdevs = [];
    filesystems = [];
    graphics =
        record {
          kind = "spice";
          gl = some record { enable = some true; render_node = "" };
          address = "";
          p2p = none;
          port = pos 0;
          auto_port = "yes";
          passwd = "";
          keymap = "";
          listen = record { kind = ""; address = "127.0.0.1"; socket = ""; network = "" } ∷ [];
        }
        ∷ [];
    video = record { alias = codes "ua-gpu" } ∷ [];
  };
  qemu_override = overrides;
}

validate_libvirt_gpu_config-Carries_example : AllCarry desktop.devices × Targets desktop
validate_libvirt_gpu_config-Carries_example = validate_libvirt_gpu_config-Carries desktop accepted
  where
    accepted : validate_libvirt_gpu_config (some desktop) ≡ none
    accepted =
        unfold validate_libvirt_gpu_config validate_qemu_override_targets declared_device_aliases
          aliases_of unmatched_in contains report_unmatched text_eq in
        refl

-- The same map, walked in the other order.
abbrev props' : List (Text × Scalar)
props' = (codes "hostmem", whole (pos 8)) ∷ (codes "blob", flag true) ∷ []

abbrev overrides' : List (Text × List (Text × Scalar))
overrides' = (codes "ua-gpu", props') ∷ []

two_keys : (n : Text) → text_eq (codes "blob") n ≡ true → text_eq (codes "hostmem") n ≡ true → ⊥
two_keys n a b =
    let e : codes "blob" ≡ n = (text_eq_iff (codes "blob") n).0 a in
    let e' : codes "hostmem" ≡ n = (text_eq_iff (codes "hostmem") n).0 b in cc

same_lookup : (n : Text) → lookup_key n props ≡ lookup_key n props'
unfolding lookup_key
same_lookup n = elim (Bool-cases (text_eq (codes "blob") n)) [
  | inl a ↦ elim (Bool-cases (text_eq (codes "hostmem") n)) [
    | inl b ↦ absurd (two_keys n a b)
    | inr b ↦ rw (a, b)
  ]
  | inr a ↦ rw a
]

same_entry : (a : Text) → SameEntry (lookup_key a overrides) (lookup_key a overrides')
unfolding lookup_key
same_entry a = elim (Bool-cases (text_eq (codes "ua-gpu") a)) [
  | inl e ↦ rw e (both_some (Permᴰ.swap refl refl, same_lookup))
  | inr e ↦ rw e both_none
]

build_override-SameOverride_example : build_override overrides ≡ build_override overrides'
build_override-SameOverride_example =
    build_override-SameOverride overrides overrides' (Permᴰ.cons refl Permᴰ.nil, same_entry)
