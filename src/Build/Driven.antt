-- ===== src/Build/Driven.antt =====
-- runVmBuildDrive: what a drive that succeeds has done.
use plugin_vm.Base.{
  ◌≡◌, refl, sym, false, Option, none, some, String, str_eq, Outcome, ok, err, eq_iff, Bool-cases,
  inl, inr,
}
use plugin_vm.Base.Steps.{Step-cases}
use plugin_vm.Base.Text.{Text}
use plugin_vm.Build.{parse_image_arg, BuildSpec, BuildRequest, BuildReply}
use plugin_vm.Build.Lookups.{BuildSeams}
use plugin_vm.Build.Resolve.{resolve_vm_build}
use plugin_vm.Build.Drive.{
  EmitOpts, DriveSeams, dispatch, after_emit, pushed, emit, build_locked, released, locked,
  under_lock, run_vm_build_drive,
}
use plugin_vm.Build.Kinds.{IsReady}
use plugin_vm.Build.Resolved.{resolve_vm_build-IsReady}

module _ {W U B S : Type 0} (s : BuildSeams W U B S) (d : DriveSeams W S) where
  -- What became of the box: without a push its emission is not looked at, with one it was emitted and
  -- pushed.
  pub data IsEmitted (engine : String) (box : Text) (opts : EmitOpts) (vm : BuildSpec)
      (disk : String) (w w' : W) : Type 0 where
    unpushed :
        opts.push ≡ ""
        → w' ≡ d.prune (d.emit_box engine (parse_image_arg box).0 vm disk opts.container_disk w).0
        → IsEmitted engine box opts vm disk w w'
    delivered :
        (w₁ : W) (ref : String)
        → str_eq opts.push "" ≡ false
        → d.emit_box engine (parse_image_arg box).0 vm disk opts.container_disk w ≡ (w₁, ok ref)
        → d.push_box engine ref opts.push w₁ ≡ (w', none)
        → IsEmitted engine box opts vm disk w w'

  -- The steps of a drive that succeeds, with the states between them.
  pub record IsDriven (box : Text) (req : BuildRequest) (opts : EmitOpts) (w w' : W) : Type 0 where
    pub reply : BuildReply S
    pub vm : BuildSpec
    pub disk : String
    pub w₁ : W
    pub w₂ : W
    pub w₃ : W
    pub w₄ : W
    pub has_resolved : resolve_vm_build s req w ≡ (w₁, ok reply)
    pub is_ready : IsReady reply
    pub has_lock : d.acquire_lock reply.output_dir w₁ ≡ (w₂, none)
    pub has_disk : dispatch s d box req.from_snapshot reply w₂ ≡ (w₃, ok (vm, disk))
    pub has_box : IsEmitted reply.engine box opts vm disk w₃ w₄
    pub has_released : d.release_lock reply.output_dir w₄ ≡ w'

  pushed-ok : (r : W × Option String) (w' : W) → pushed s d r ≡ (w', ok tt) → r ≡ (w', none)
  unfolding pushed
  pushed-ok (w, none) w' h = cc
  pushed-ok (w, some m) w' h = absurd (cc)

  after_emit-Emitted :
      (box : Text) (opts : EmitOpts) (engine : String) (vm : BuildSpec) (disk : String) (w w' : W)
      (r : W × Outcome String String)
      → d.emit_box engine (parse_image_arg box).0 vm disk opts.container_disk w ≡ r
      → after_emit s d engine opts.push r ≡ (w', ok tt)
      → IsEmitted engine box opts vm disk w w'
  unfolding after_emit
  after_emit-Emitted box opts engine vm disk w w' (w₁, err m) ran h =
      elim (Bool-cases (str_eq opts.push "")) [
        | inl p ↦
            let pruned : d.prune w₁ ≡ w' = cc (rw p at h) in
            unpushed ((eq_iff opts.push "").0 p) (rw ran (sym pruned))
        | inr p ↦ absurd (cc (rw p at h))
      ]
  after_emit-Emitted box opts engine vm disk w w' (w₁, ok ref) ran h =
      elim (Bool-cases (str_eq opts.push "")) [
        | inl p ↦
            let pruned : d.prune w₁ ≡ w' = cc (rw p at h) in
            unpushed ((eq_iff opts.push "").0 p) (rw ran (sym pruned))
        | inr p ↦
            delivered w₁ ref p ran (pushed-ok (d.push_box engine ref opts.push w₁) w' (rw p at h))
      ]

  IsDriven-locked :
      (box : Text) (req : BuildRequest) (opts : EmitOpts) (w w₁ w' : W) (r : BuildReply S)
      (lock : W × Option String)
      → resolve_vm_build s req w ≡ (w₁, ok r)
      → d.acquire_lock r.output_dir w₁ ≡ lock
      → locked s d box req.from_snapshot opts r lock ≡ (w', ok tt)
      → IsDriven box req opts w w'
  unfolding locked released build_locked emit
  IsDriven-locked box req opts w w₁ w' r (w₂, some m) resolved ran h = absurd (cc)
  IsDriven-locked box req opts w w₁ w' r (w₂, none) resolved ran h =
      elim (Step-cases (dispatch s d box req.from_snapshot r w₂)) [
        | inl (_, _, b) ↦ absurd (cc (rw b at h))
        | inr (w₃, (vm, disk), b) ↦ elim (Step-cases (emit s d box opts r.engine (vm, disk) w₃)) [
          | inl (_, _, m) ↦ absurd (cc (rw (b, m) at h))
          | inr (w₄, tt, m) ↦ record {
            reply = r;
            vm = vm;
            disk = disk;
            w₁ = w₁;
            w₂ = w₂;
            w₃ = w₃;
            w₄ = w₄;
            has_resolved = resolved;
            is_ready = resolve_vm_build-IsReady s req w w₁ r resolved;
            has_lock = ran;
            has_disk = b;
            has_box =
                after_emit-Emitted box opts r.engine vm disk w₃ w₄
                  (d.emit_box r.engine (parse_image_arg box).0 vm disk opts.container_disk w₃) refl
                  m;
            has_released = cc (rw (b, m) at h);
          }
        ]
      ]

  -- A drive that succeeds has built the disk of a ready request under the lock of its output
  -- directory, and has released that lock; with a push it has emitted the box and pushed it, and
  -- without one it has pruned the old boxes, whether the box was emitted or not.
  pub run_vm_build_drive-IsDriven :
      (box : Text) (req : BuildRequest) (opts : EmitOpts) (w w' : W)
      → run_vm_build_drive s d box req opts w ≡ (w', ok tt)
      → IsDriven box req opts w w'
  unfolding run_vm_build_drive under_lock
  run_vm_build_drive-IsDriven box req opts w w' h = elim (Step-cases (resolve_vm_build s req w)) [
    | inl (_, _, v) ↦ absurd (cc (rw v at h))
    | inr (w₁, r, v) ↦
        IsDriven-locked box req opts w w₁ w' r (d.acquire_lock r.output_dir w₁) v refl (rw v at h)
  ]
