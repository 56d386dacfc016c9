-- ===== src/Build/Images.antt =====
-- ensureBuilderImageBuilt: where the builder image comes from; and the entity kind that is retired.
use plugin_vm.Base.{
  ◌≡◌, refl, sym, ap, ◌∙◌, true, false, Option, String, str_eq, Outcome, ok, err, eq_iff,
  Bool-cases, inl, inr,
}
use mathlib.Core.Path.{subst}
use plugin_vm.Base.Steps.{Step-cases, Outcome-cases}
use plugin_vm.Build.{
  BuildSpec, BuildRequest, BuildReply, parse_image_arg, vm_build_drive_source_kind,
}
use plugin_vm.Build.Lookups.{
  BuildSeams, has_slash, built_box, auto_build, local_or_build, ensure_builder_image_built,
  find_spec,
}
use plugin_vm.Build.Resolve.{place, resolve_drive, resolve_vm_build}

module _ {W U B S : Type 0} (s : BuildSeams W U B S) where
  -- Where a builder image comes from: it is a full reference, or an image of the local storage, which
  -- was built first only if it was not there.
  pub data IsBuilderImage (engine image ref : String) (w : W) : W → Type 0 where
    full_reference : has_slash image ≡ true → ref ≡ image → IsBuilderImage engine image ref w w
    in_storage :
        has_slash image ≡ false
        → s.resolve_local_image w engine image ≡ ok ref
        → IsBuilderImage engine image ref w w
    built_first :
        (dir m : String) {w' : W}
        → has_slash image ≡ false
        → s.resolve_local_image w engine image ≡ err m
        → s.getwd w ≡ ok dir
        → s.build_box image dir w ≡ (w', ok "")
        → s.resolve_local_image w' engine image ≡ ok ref
        → IsBuilderImage engine image ref w w'

  built_box-inv :
      (image : String) (r : W × Outcome String String) (w' : W)
      → built_box s image r ≡ (w', ok tt)
      → r ≡ (w', ok "")
  unfolding built_box
  built_box-inv image (w, err m) w' h = absurd (cc)
  built_box-inv image (w, ok m) w' h = elim (Bool-cases (str_eq m "")) [
    | inl e ↦ let same : w ≡ w' = cc (rw e at h) in rw (same, (eq_iff m "").0 e) refl
    | inr e ↦ absurd (cc (rw e at h))
  ]

  auto_build-inv :
      (engine image m : String) (w w' : W) (ref : String)
      → has_slash image ≡ false
      → s.resolve_local_image w engine image ≡ err m
      → auto_build s engine image w ≡ (w', ok ref)
      → IsBuilderImage engine image ref w w'
  unfolding auto_build
  auto_build-inv engine image m w w' ref short missing h = elim (Outcome-cases (s.getwd w)) [
    | inl (_, g) ↦ absurd (cc (rw g at h))
    | inr (dir, g) ↦ elim (Step-cases (built_box s image (s.build_box image dir w))) [
      | inl (_, _, b) ↦ absurd (cc (rw (g, b) at h))
      | inr (w₁, _, b) ↦ elim (Outcome-cases (s.resolve_local_image w₁ engine image)) [
        | inl (_, l) ↦ absurd (cc (rw (g, b, l) at h))
        | inr (ref', l) ↦
            let here : w₁ ≡ w' = cc (rw (g, b, l) at h) in
            let same : ref' ≡ ref = cc (rw (g, b, l) at h) in
            built_first dir m short missing g
              (built_box-inv image (s.build_box image dir w) w' (b ∙ ap (λ v. (v, ok tt)) here))
              (rw (← here, ← same) l)
      ]
    ]
  ]

  -- A builder image that is resolved is one of these, and a short name is built in the project's
  -- directory exactly where the local storage lacks it; the reference is that of the storage
  -- afterwards.
  pub ensure_builder_image_built-IsBuilderImage :
      (engine image ref : String) (w w' : W)
      → ensure_builder_image_built s engine image w ≡ (w', ok ref)
      → IsBuilderImage engine image ref w w'
  unfolding ensure_builder_image_built local_or_build
  ensure_builder_image_built-IsBuilderImage engine image ref w w' h =
      elim (Bool-cases (has_slash image)) [
        | inl full ↦
            let here : w ≡ w' = cc (rw full at h) in
            let same : image ≡ ref = cc (rw full at h) in
            subst (IsBuilderImage engine image ref w) here (full_reference full (sym same))
        | inr short ↦ elim (Outcome-cases (s.resolve_local_image w engine image)) [
          | inr (found, l) ↦
              let here : w ≡ w' = cc (rw (short, l) at h) in
              let same : found ≡ ref = cc (rw (short, l) at h) in
              subst (IsBuilderImage engine image ref w) here (in_storage short (l ∙ ap ok same))
          | inl (m, l) ↦ auto_build-inv engine image m w w' ref short l (rw (short, l) at h)
        ]
      ]

  clone_drives :
      (kind : String) (req : BuildRequest)
      → kind ≡ "clone"
      → str_eq (vm_build_drive_source_kind kind req) "clone" ≡ true
  unfolding vm_build_drive_source_kind
  clone_drives kind req e = elim (Bool-cases (str_eq req.from_snapshot "")) [
    | inl f ↦ rw (f, e) refl
    | inr f ↦ rw f refl
  ]

  -- An entity of the retired kind `clone` is not refused: without a snapshot the request resolves to
  -- the clone drive, before the switch that has the error for that kind.
  pub retired_clone-resolves :
      (req : BuildRequest) (dir : String) (vm : Option BuildSpec) (r : BuildReply S) (w w₁ w₂ : W)
      → s.getwd w ≡ ok dir
      → find_spec s dir (parse_image_arg req.box).0 req.from_snapshot w ≡ (w₁, ok vm)
      → place s req (parse_image_arg req.box).0 vm w₁ ≡ (w₂, ok r)
      → r.vm.source.kind ≡ "clone"
      → resolve_vm_build s req w ≡ (w₂, ok (record r { source_kind = "clone" }))
  unfolding resolve_vm_build resolve_drive
  retired_clone-resolves req dir vm r w w₁ w₂ g f p kind =
      rw (g, f, p, clone_drives r.vm.source.kind req kind) refl
