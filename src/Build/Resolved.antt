-- ===== src/Build/Resolved.antt =====
-- resolveVmBuild: what a request that resolves has, which the drive relies on.
use plugin_vm.Base.{◌≡◌, ◌≢◌, refl, Option, none, some, String, str_eq, ok, Bool-cases, inl, inr}
use mathlib.Core.Path.{subst}
use plugin_vm.Base.Steps.{Step-cases, Outcome-cases}
use plugin_vm.Base.Text.{Text}
use plugin_vm.Build.{
  BuildRequest, BuildReply, BuildSpec, parse_image_arg, entity_leaf, vm_build_drive_source_kind,
}
use plugin_vm.Build.Lookups.{BuildSeams, find_spec}
use plugin_vm.Build.Resolve.{place, made_dir, unresolved_reply, resolve_drive, resolve_vm_build}
use plugin_vm.Build.Kinds.{IsReady, ready_clone, resolve_kind-IsReady}

module _ {W U B S : Type 0} (s : BuildSeams W U B S) where
  resolve_drive-IsReady :
      (dir : String) (box : Text) (req : BuildRequest) (r r' : BuildReply S) (w w' : W)
      → r.source_kind ≡ r.vm.source.kind
      → resolve_drive s dir box req r w ≡ (w', ok r')
      → IsReady r'
  unfolding resolve_drive
  resolve_drive-IsReady dir box req r r' w w' placed h =
      elim (Bool-cases (str_eq (vm_build_drive_source_kind r.vm.source.kind req) "clone")) [
        | inl c ↦
            let same : record r { source_kind = "clone" } ≡ r' = cc (rw c at h) in
            subst IsReady same (ready_clone refl)
        | inr c ↦ resolve_kind-IsReady s dir box r r' w w' placed (rw c at h)
      ]

  place-none :
      (req : BuildRequest) (box : Text) (w w' : W) (r : BuildReply S)
      → place s req box none w ≢ (w', ok r)
  unfolding place
  place-none req box w w' r h = elim (Outcome-cases (s.resolve_runtime w)) [
    | inl (_, t) ↦ cc (rw t at h)
    | inr (rt, t) ↦ elim (Outcome-cases (s.vm_disk_dir w (entity_leaf box))) [
      | inl (_, d) ↦ cc (rw (t, d) at h)
      | inr (disk, d) ↦ elim (Outcome-cases (s.abs_path w disk)) [
        | inl (_, a) ↦ cc (rw (t, d, a) at h)
        | inr (out, a) ↦ elim (Outcome-cases (s.vm_state_root w)) [
          | inl (_, o) ↦ cc (rw (t, d, a, o) at h)
          | inr (root, o) ↦ elim (Step-cases (made_dir s (s.state_dir_in root box) w)) [
            | inl (_, _, m) ↦ cc (rw (t, d, a, o, m) at h)
            | inr (w₁, _, m) ↦ cc (rw (t, d, a, o, m) at h)
          ]
        ]
      ]
    ]
  ]

  place-placed :
      (req : BuildRequest) (box : Text) (found : Option BuildSpec) (w w' : W) (r : BuildReply S)
      → place s req box found w ≡ (w', ok r)
      → r.source_kind ≡ r.vm.source.kind
  unfolding place
  place-placed req box none w w' r h = absurd (place-none req box w w' r h)
  place-placed req box (some vm) w w' r h = elim (Outcome-cases (s.resolve_runtime w)) [
    | inl (_, t) ↦ absurd (cc (rw t at h))
    | inr (rt, t) ↦ elim (Outcome-cases (s.vm_disk_dir w (entity_leaf box))) [
      | inl (_, d) ↦ absurd (cc (rw (t, d) at h))
      | inr (disk, d) ↦ elim (Outcome-cases (s.abs_path w disk)) [
        | inl (_, a) ↦ absurd (cc (rw (t, d, a) at h))
        | inr (out, a) ↦ elim (Outcome-cases (s.vm_state_root w)) [
          | inl (_, o) ↦ absurd (cc (rw (t, d, a, o) at h))
          | inr (root, o) ↦ elim (Step-cases (made_dir s (s.state_dir_in root box) w)) [
            | inl (_, _, m) ↦ absurd (cc (rw (t, d, a, o, m) at h))
            | inr (w₁, _, m) ↦
                let same : unresolved_reply s req vm rt out (s.state_dir_in root box)
                      (s.deploy_state w₁ box)
                    ≡ r =
                  cc (rw (t, d, a, o, m) at h) in
                subst (λ (x : BuildReply S). x.source_kind ≡ x.vm.source.kind) same refl
          ]
        ]
      ]
    ]
  ]

  -- A request that resolves is ready: its kind is one that the drive builds, and what the drive reads
  -- for that kind is there; a bootstrap has a distro with a bootloader and a bootstrap builder, an
  -- unattended installation a distro with an installer.
  pub resolve_vm_build-IsReady :
      (req : BuildRequest) (w w' : W) (r : BuildReply S)
      → resolve_vm_build s req w ≡ (w', ok r)
      → IsReady r
  unfolding resolve_vm_build
  resolve_vm_build-IsReady req w w' r h =
      let box = (parse_image_arg req.box).0 in
      elim (Outcome-cases (s.getwd w)) [
        | inl (_, g) ↦ absurd (cc (rw g at h))
        | inr (dir, g) ↦ elim (Step-cases (find_spec s dir box req.from_snapshot w)) [
          | inl (_, _, f) ↦ absurd (cc (rw (g, f) at h))
          | inr (w₁, vm, f) ↦ elim (Step-cases (place s req box vm w₁)) [
            | inl (_, _, p) ↦ absurd (cc (rw (g, f, p) at h))
            | inr (w₂, r₁, p) ↦
                resolve_drive-IsReady dir box req r₁ r w₂ w' (place-placed req box vm w₁ w₂ r₁ p)
                  (rw (g, f, p) at h)
          ]
        ]
      ]
