-- ===== src/Build/Failures.antt =====
-- runVmBuildDrive: how a drive of a request that resolves fails.
use plugin_vm.Base.{◌≡◌, Option, none, some, String, str_eq, Outcome, ok, err, Bool-cases, inl, inr}
use mathlib.Core.Path.{subst}
use plugin_vm.Base.Steps.{Step-cases, Outcome-cases}
use plugin_vm.Base.Text.{Text}
use plugin_vm.Build.{
  parse_image_arg, entity_leaf, apply_clone_drive_source, BuildSpec, DistroDef, BuilderDef,
  BuildRequest, BuildReply, BuildError, lock_failed, build_failed, no_clone_dir, emit_failed,
  push_failed,
}
use plugin_vm.Build.Lookups.{BuildSeams}
use plugin_vm.Build.Resolve.{resolve_vm_build}
use plugin_vm.Build.Drive.{
  EmitOpts, DriveSeams, wrote, cloned, build_bootstrap_disk, build_iso_disk, build_clone_disk,
  dispatch_kind, dispatch, after_emit, pushed, emit, build_locked, released, locked, under_lock,
  run_vm_build_drive,
}
use plugin_vm.Build.Kinds.{
  IsReady, ready_clone, ready_cloud_image, ready_bootc, ready_bootstrap, ready_iso,
  ready_container_disk,
}
use plugin_vm.Build.Resolved.{resolve_vm_build-IsReady}

-- The errors of the steps behind the switch over the kind: none says that the kind is not known, or
-- that the reply lacks what its engine reads.
pub data IsStepError : BuildError → Type 0 where
  from_lock : (m : String) → IsStepError (lock_failed m)
  from_engine : (m : String) → IsStepError (build_failed m)
  from_clone_dir : (m : String) → IsStepError (no_clone_dir m)
  from_emission : (m : String) → IsStepError (emit_failed m)
  from_push : (m : String) → IsStepError (push_failed m)

module _ {W U B S : Type 0} (s : BuildSeams W U B S) (d : DriveSeams W S) where
  wrote-StepError :
      (vm : BuildSpec) (r : W × Outcome String String) (w' : W) (e : BuildError)
      → wrote s d vm r ≡ (w', err e)
      → IsStepError e
  unfolding wrote
  wrote-StepError vm (w, ok disk) w' e h = absurd (cc)
  wrote-StepError vm (w, err m) w' e h =
      let same : build_failed m ≡ e = cc in subst IsStepError same (from_engine m)

  pushed-StepError :
      (r : W × Option String) (w' : W) (e : BuildError) → pushed s d r ≡ (w', err e) → IsStepError e
  unfolding pushed
  pushed-StepError (w, none) w' e h = absurd (cc)
  pushed-StepError (w, some m) w' e h =
      let same : push_failed m ≡ e = cc in subst IsStepError same (from_push m)

  cloned-StepError :
      (r : W × Option String) (w' : W) (e : BuildError) → cloned s d r ≡ (w', err e) → IsStepError e
  unfolding cloned
  cloned-StepError (w, none) w' e h = absurd (cc)
  cloned-StepError (w, some m) w' e h =
      let same : build_failed m ≡ e = cc in subst IsStepError same (from_engine m)

  clone-StepError :
      (box : Text) (snapshot : String) (r : BuildReply S) (w w' : W) (e : BuildError)
      → build_clone_disk s d box snapshot r w ≡ (w', err e)
      → IsStepError e
  unfolding build_clone_disk
  clone-StepError box snapshot r w w' e h =
      elim (Step-cases (
        cloned s d (
          d.build_clone (entity_leaf box) (apply_clone_drive_source r.vm (entity_leaf box) snapshot)
            w))) [
              | inl (w₁, m, c) ↦
                  let same : m ≡ e = cc (rw c at h) in
                  subst IsStepError same (
                    cloned-StepError
                      (d.build_clone (entity_leaf box)
                        (apply_clone_drive_source r.vm (entity_leaf box) snapshot) w)
                      w₁ m c)
              | inr (w₁, _, c) ↦ elim (Outcome-cases (s.vm_disk_dir w₁ (entity_leaf box))) [
                | inl (m, f) ↦
                    let same : no_clone_dir m ≡ e = cc (rw (c, f) at h) in
                    subst IsStepError same (from_clone_dir m)
                | inr (dir, f) ↦ absurd (cc (rw (c, f) at h))
              ]
            ]

  bootstrap-StepError :
      (distro : Option DistroDef) (builder : Option BuilderDef) (r : BuildReply S) (w w' : W)
      (e : BuildError) {distro' : DistroDef} {builder' : BuilderDef}
      → distro ≡ some distro'
      → builder ≡ some builder'
      → build_bootstrap_disk s d distro builder r w ≡ (w', err e)
      → IsStepError e
  unfolding build_bootstrap_disk
  bootstrap-StepError none builder r w w' e t b h = absurd (cc)
  bootstrap-StepError (some distro) none r w w' e t b h = absurd (cc)
  bootstrap-StepError (some distro) (some builder) r w w' e t b h =
      wrote-StepError r.vm (d.build_bootstrap r distro builder w) w' e h

  iso-StepError :
      (distro : Option DistroDef) (r : BuildReply S) (w w' : W) (e : BuildError)
      {distro' : DistroDef}
      → distro ≡ some distro'
      → build_iso_disk s d distro r w ≡ (w', err e)
      → IsStepError e
  unfolding build_iso_disk
  iso-StepError none r w w' e t h = absurd (cc)
  iso-StepError (some distro) r w w' e t h = wrote-StepError r.vm (d.build_iso r distro w) w' e h

  dispatch-StepError :
      (box : Text) (snapshot : String) (r : BuildReply S) (w w' : W) (e : BuildError)
      → IsReady r
      → dispatch s d box snapshot r w ≡ (w', err e)
      → IsStepError e
  unfolding dispatch dispatch_kind
  dispatch-StepError box snapshot r w w' e ready h = by_kind ready
    where
      at :
          (kind : String)
          → r.source_kind ≡ kind
          → dispatch_kind s d kind box snapshot r w ≡ (w', err e)
      at kind k = subst (λ x. dispatch_kind s d x box snapshot r w ≡ (w', err e)) k h

      by_kind : IsReady r → IsStepError e
      by_kind (ready_cloud_image k) =
          wrote-StepError r.vm (d.build_cloud_image r w) w' e (at "cloud_image" k)
      by_kind (ready_bootc k) = wrote-StepError r.vm (d.build_bootc r w) w' e (at "bootc" k)
      by_kind (ready_container_disk k) =
          wrote-StepError r.vm (d.build_container_disk r w) w' e (at "container_disk" k)
      by_kind (ready_bootstrap distro builder k t b boots is_boot) =
          bootstrap-StepError r.distro r.builder r w w' e t b (at "bootstrap" k)
      by_kind (ready_iso distro k t unattended) = iso-StepError r.distro r w w' e t (at "iso" k)
      by_kind (ready_clone k) = clone-StepError box snapshot r w w' e (at "clone" k)

  emitted-StepError :
      (engine push : String) (r : W × Outcome String String) (w' : W) (e : BuildError)
      → after_emit s d engine push r ≡ (w', err e)
      → IsStepError e
  unfolding after_emit
  emitted-StepError engine push (w, err m) w' e h = elim (Bool-cases (str_eq push "")) [
    | inl p ↦ absurd (cc (rw p at h))
    | inr p ↦
        let same : emit_failed m ≡ e = cc (rw p at h) in subst IsStepError same (from_emission m)
  ]
  emitted-StepError engine push (w, ok ref) w' e h = elim (Bool-cases (str_eq push "")) [
    | inl p ↦ absurd (cc (rw p at h))
    | inr p ↦ pushed-StepError (d.push_box engine ref push w) w' e (rw p at h)
  ]

  build_locked-StepError :
      (box : Text) (snapshot : String) (opts : EmitOpts) (r : BuildReply S) (w w' : W)
      (e : BuildError)
      → IsReady r
      → build_locked s d box snapshot opts r w ≡ (w', err e)
      → IsStepError e
  unfolding build_locked emit
  build_locked-StepError box snapshot opts r w w' e ready h =
      elim (Step-cases (dispatch s d box snapshot r w)) [
        | inl (w₁, m, b) ↦
            let same : m ≡ e = cc (rw b at h) in
            subst IsStepError same (dispatch-StepError box snapshot r w w₁ m ready b)
        | inr (w₁, built, b) ↦
            emitted-StepError r.engine opts.push
              (d.emit_box r.engine (parse_image_arg box).0 built.0 built.1 opts.container_disk w₁)
              w' e (rw b at h)
      ]

  locked-StepError :
      (box : Text) (snapshot : String) (opts : EmitOpts) (r : BuildReply S)
      (lock : W × Option String) (w' : W) (e : BuildError)
      → IsReady r
      → locked s d box snapshot opts r lock ≡ (w', err e)
      → IsStepError e
  unfolding locked released
  locked-StepError box snapshot opts r (w, some m) w' e ready h =
      let same : lock_failed m ≡ e = cc in subst IsStepError same (from_lock m)
  locked-StepError box snapshot opts r (w, none) w' e ready h =
      elim (Step-cases (build_locked s d box snapshot opts r w)) [
        | inl (w₁, m, b) ↦
            let same : m ≡ e = cc (rw b at h) in
            subst IsStepError same (build_locked-StepError box snapshot opts r w w₁ m ready b)
        | inr (w₁, _, b) ↦ absurd (cc (rw b at h))
      ]

  -- Behind a request that resolves, a drive fails only in one of its steps: the lock, the engine of
  -- the kind, the directory of a clone, the emission or the push that was asked for. The drive knows
  -- each kind that resolves, and finds in the reply what that kind's engine reads.
  pub run_vm_build_drive-StepError :
      (box : Text) (req : BuildRequest) (opts : EmitOpts) (w w₁ w' : W) (r : BuildReply S)
      (e : BuildError)
      → resolve_vm_build s req w ≡ (w₁, ok r)
      → run_vm_build_drive s d box req opts w ≡ (w', err e)
      → IsStepError e
  unfolding run_vm_build_drive under_lock
  run_vm_build_drive-StepError box req opts w w₁ w' r e resolved h =
      locked-StepError box req.from_snapshot opts r (d.acquire_lock r.output_dir w₁) w' e
        (resolve_vm_build-IsReady s req w w₁ r resolved) (rw resolved at h)
