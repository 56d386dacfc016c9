-- ===== src/Krun/Memory.antt =====
-- When a krun guest is launched at all, and with which memory.
use plugin_vm.Base.{
  ◌+◌, ◌<◌, ◌≡◌, ◌⊎◌, inl, inr, Bool, true, false, Option, String, str_eq, arith, Bool-cases,
  Outcome, ok, err, >>=-eq-ok, Succeeds,
}
use plugin_vm.Base.Int.{ℤ, pos, negsuc, ◌-ℤ◌, ltb_ℤ}
use plugin_vm.Spec.{VmSpec}
use plugin_vm.Krun.Settings.{
  KrunError, below_gpu_floor, krun_settings, krun_guest_ram, krun_refuse_nvidia,
  krun_refuse_gpu_floor, split_ram, container_ram,
}
use plugin_vm.Krun.Plan.{KrunPlan, KrunPlanInput, build_krun_plan, assemble, plan_cpus}

-- The container holds the guest and the headroom, and the guest has memory.
abbrev pub HoldsGuest : ℤ → ℤ → ℤ → Type 0
HoldsGuest (pos c) (pos g) (pos h) = (0 < g) × (c ≡ g + h)
HoldsGuest _ _ _ = ⊥

pub split_ram-HoldsGuest : (c h c' g : ℤ) → split_ram c h ≡ ok (c', g) → (c' ≡ c) × HoldsGuest c g h
unfolding split_ram ◌-ℤ◌
split_ram-HoldsGuest (pos c) (pos h) c' (pos g) e = ground arith
split_ram-HoldsGuest (pos c) (pos h) c' (negsuc g) e = ground arith
split_ram-HoldsGuest (pos c) (negsuc h) c' g e = ground arith
split_ram-HoldsGuest (negsuc c) (pos h) c' g e = ground arith
split_ram-HoldsGuest (negsuc c) (negsuc h) c' g e = ground arith

split_ram_pass : (c g h : ℤ) → HoldsGuest c g h → split_ram c h ≡ ok (c, g)
unfolding split_ram ◌-ℤ◌
split_ram_pass (pos c) (pos g) (pos h) holds = ground arith
split_ram_pass (pos c) (pos g) (negsuc h) holds = elim holds [ ]
split_ram_pass (pos c) (negsuc g) h holds = elim holds [ ]
split_ram_pass (negsuc c) g h holds = elim holds [ ]

-- What a launch needs: memory for the guest beside the headroom, no NVIDIA device, and 1024 MiB for
-- a guest with a virtio GPU.
abbrev pub HasGpuFloor : String → ℤ → Type 0
HasGpuFloor gpu guest = (str_eq gpu "virtio" ≡ false) ⊎ (ltb_ℤ guest (pos 1024) ≡ false)

refuse_nvidia_inv : (b : Bool) {u : Unit {0}} → krun_refuse_nvidia b ≡ ok u → b ≡ false
unfolding krun_refuse_nvidia
refuse_nvidia_inv b h = ground arith

refuse_floor_inv :
    (s : Option VmSpec) (g : ℤ) {u : Unit {0}}
    → krun_refuse_gpu_floor s g ≡ ok u
    → HasGpuFloor (krun_settings s).gpu g
unfolding krun_refuse_gpu_floor
refuse_floor_inv s g h = elim (Bool-cases (str_eq (krun_settings s).gpu "virtio")) [
  | inl v ↦ inr (floor v)
  | inr v ↦ inl v
]
  where
    floor : str_eq (krun_settings s).gpu "virtio" ≡ true → ltb_ℤ g (pos 1024) ≡ false
    floor v = elim (Bool-cases (ltb_ℤ g (pos 1024))) [
      | inl low ↦ absurd (refused (rw (v, low) at h))
      | inr e ↦ e
    ]
      where
        refused :
            {u : Unit {0}}
            → Path (Outcome KrunError (Unit {0})) (err (below_gpu_floor g)) (ok u)
            → ⊥
        refused e = cc

refuse_floor_pass :
    (s : Option VmSpec) (g : ℤ)
    → HasGpuFloor (krun_settings s).gpu g
    → krun_refuse_gpu_floor s g ≡ ok tt
unfolding krun_refuse_gpu_floor
refuse_floor_pass s g (inl v) = rw v
refuse_floor_pass s g (inr low) = elim (Bool-cases (str_eq (krun_settings s).gpu "virtio")) [
  | inl v ↦ rw (v, low)
  | inr v ↦ rw v
]

module _ (resolve_vm_ram : VmSpec → String) (resolve_vm_cpus : VmSpec → ℤ) where
  -- What a plan that is made comes from.
  pub build_krun_plan-assemble :
      (i : KrunPlanInput) {plan : KrunPlan}
      → build_krun_plan resolve_vm_ram resolve_vm_cpus i ≡ ok plan
      → (c : ℤ) × (g : ℤ) × (split_ram
            (container_ram resolve_vm_ram i.spec)
            (krun_settings i.spec).ram_headroom_mib
          ≡ ok (c, g))
        × (i.nvidia ≡ false)
        × HasGpuFloor (krun_settings i.spec).gpu g
        × (plan ≡ assemble i (plan_cpus resolve_vm_cpus i.spec) c g)
  unfolding build_krun_plan krun_guest_ram
  build_krun_plan-assemble i e =
      let headroom = (krun_settings i.spec).ram_headroom_mib in
      let (ram, made, rest) =
        >>=-eq-ok (split_ram (container_ram resolve_vm_ram i.spec) headroom) _ e in
      let (_, no_nvidia, rest') = >>=-eq-ok (krun_refuse_nvidia i.nvidia) _ rest in
      let (_, floor, plan_eq) = >>=-eq-ok (krun_refuse_gpu_floor i.spec ram.1) _ rest' in
      (ram.0, ram.1, made, refuse_nvidia_inv _ no_nvidia, refuse_floor_inv _ _ floor, cc)

  -- A plan that is made gives the container its whole RAM and the guest that RAM less the headroom,
  -- which leaves it some; the host has no NVIDIA device, and a guest with a virtio GPU has 1024 MiB.
  pub build_krun_plan-HoldsGuest :
      (i : KrunPlanInput) (plan : KrunPlan)
      → build_krun_plan resolve_vm_ram resolve_vm_cpus i ≡ ok plan
      → (plan.container_mib ≡ container_ram resolve_vm_ram i.spec)
        × HoldsGuest plan.container_mib plan.guest_mib (krun_settings i.spec).ram_headroom_mib
        × (i.nvidia ≡ false)
        × HasGpuFloor (krun_settings i.spec).gpu plan.guest_mib
  build_krun_plan-HoldsGuest i plan e =
      let (c, g, made, no_nvidia, floor, same) = build_krun_plan-assemble i e in
      let (is_ram, holds) = split_ram-HoldsGuest _ _ c g made in
      rw same (is_ram, rw is_ram holds, no_nvidia, floor)

  -- A guest that fits beside the headroom, on a host with no NVIDIA device, with 1024 MiB
  -- if it has a virtio GPU, gets a plan.
  pub build_krun_plan-Succeeds :
      (i : KrunPlanInput) (g : ℤ)
      → HoldsGuest (container_ram resolve_vm_ram i.spec) g (krun_settings i.spec).ram_headroom_mib
      → i.nvidia ≡ false
      → HasGpuFloor (krun_settings i.spec).gpu g
      → Succeeds (build_krun_plan resolve_vm_ram resolve_vm_cpus i)
  unfolding build_krun_plan krun_guest_ram krun_refuse_nvidia
  build_krun_plan-Succeeds i g holds no_nvidia floor =
      let c = container_ram resolve_vm_ram i.spec in
      (
        assemble i (plan_cpus resolve_vm_cpus i.spec) c g,
        rw (split_ram_pass c g (krun_settings i.spec).ram_headroom_mib holds, no_nvidia)
            (rw (refuse_floor_pass i.spec g floor)),
      )
