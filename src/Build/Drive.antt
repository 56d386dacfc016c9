-- ===== src/Build/Drive.antt =====
-- candy/plugin-vm/vm_build.go: VmBuildCmd.Run and runVmBuildDrive. The engines that build a disk,
-- the lock of an entity, and the emission and the push of a box are seams; what is printed is left
-- out.
use plugin_vm.Base.{Bool, ◌||◌, Option, none, some, String, str_eq, if◌then◌else◌, Outcome, ok, err}
use plugin_vm.Base.Steps.{Step, ◌>>=◌, ◌>>◌, pure, fail, reading}
use plugin_vm.Base.Text.{Text}
use plugin_vm.Build.{
  parse_image_arg, entity_leaf, apply_clone_drive_source, BuildSpec, DistroDef, BuilderDef,
  BuildRequest, BuildReply, BuildError, lock_failed, build_failed, no_clone_dir, emit_failed,
  push_failed, distro_undecoded, builder_undecoded, unsupported_kind, iso_not_supported,
  unsupported_disk_type,
}
use plugin_vm.Build.Lookups.{BuildSeams, lift}
use plugin_vm.Build.Resolve.{resolve_vm_build}

-- vmBoxEmitOpts
pub record EmitOpts : Type 0 where
  pub container_disk : Bool
  pub push : String

-- Each engine gives the path of the disk that it wrote. A lock is named by the output directory.
pub record DriveSeams (W S : Type 0) : Type 0 where
  pub acquire_lock : String → W → W × Option String
  pub release_lock : String → W → W
  pub build_cloud_image : BuildReply S → W → W × Outcome String String
  pub build_bootc : BuildReply S → W → W × Outcome String String
  pub build_bootstrap : BuildReply S → DistroDef → BuilderDef → W → W × Outcome String String
  pub build_iso : BuildReply S → DistroDef → W → W × Outcome String String
  pub build_container_disk : BuildReply S → W → W × Outcome String String
  pub build_clone : Text → BuildSpec → W → W × Option String
  pub disk_in : String → String
  pub emit_box : String → Text → BuildSpec → String → Bool → W → W × Outcome String String
  pub push_box : String → String → String → W → W × Option String
  pub prune : W → W

module _ {W U B S : Type 0} (s : BuildSeams W U B S) (d : DriveSeams W S) where
  abbrev pub Built : Type 0
  Built = BuildSpec × String

  unfoldable pub wrote : BuildSpec → W × Outcome String String → W × Outcome BuildError Built
  wrote vm (w, ok disk) = (w, ok (vm, disk))
  wrote vm (w, err e) = (w, err (build_failed e))

  unfoldable pub cloned : W × Option String → W × Outcome BuildError (Unit {0})
  cloned (w, none) = (w, ok tt)
  cloned (w, some e) = (w, err (build_failed e))

  unfoldable pub build_bootstrap_disk :
      Option DistroDef → Option BuilderDef → BuildReply S → Step W BuildError Built
  unfolding wrote
  build_bootstrap_disk none builder reply w = (w, err distro_undecoded)
  build_bootstrap_disk (some distro) none reply w = (w, err builder_undecoded)
  build_bootstrap_disk (some distro) (some builder) reply w =
      wrote reply.vm (d.build_bootstrap reply distro builder w)

  unfoldable pub build_iso_disk : Option DistroDef → BuildReply S → Step W BuildError Built
  unfolding wrote
  build_iso_disk none reply w = (w, err distro_undecoded)
  build_iso_disk (some distro) reply w = wrote reply.vm (d.build_iso reply distro w)

  -- The clone of the entity's own snapshot; the entity is the leaf of the box as it was given.
  unfoldable pub build_clone_disk : Text → String → BuildReply S → Step W BuildError Built
  unfolding cloned entity_leaf apply_clone_drive_source
  build_clone_disk box snapshot reply = do
    let vm = apply_clone_drive_source reply.vm (entity_leaf box) snapshot
    λ w. cloned (d.build_clone (entity_leaf box) vm w)
    dir ← reading (λ w. lift no_clone_dir (s.vm_disk_dir w (entity_leaf box)))
    pure (vm, d.disk_in dir)

  -- The switch over the kind of the reply.
  unfoldable pub dispatch_kind : String → Text → String → BuildReply S → Step W BuildError Built
  unfolding wrote build_bootstrap_disk build_iso_disk build_clone_disk
  dispatch_kind kind box snapshot reply =
      if str_eq kind "cloud_image"
      then (λ w. wrote reply.vm (d.build_cloud_image reply w))
      else if str_eq kind "bootc"
      then (λ w. wrote reply.vm (d.build_bootc reply w))
      else if str_eq kind "bootstrap"
      then build_bootstrap_disk reply.distro reply.builder reply
      else if str_eq kind "iso"
      then build_iso_disk reply.distro reply
      else if str_eq kind "container_disk"
      then (λ w. wrote reply.vm (d.build_container_disk reply w))
      else if str_eq kind "clone"
      then build_clone_disk box snapshot reply
      else fail (unsupported_kind box kind)

  unfoldable pub dispatch : Text → String → BuildReply S → Step W BuildError Built
  unfolding dispatch_kind
  dispatch box snapshot reply = dispatch_kind reply.source_kind box snapshot reply

  unfoldable pub pushed : W × Option String → W × Outcome BuildError (Unit {0})
  pushed (w, none) = (w, ok tt)
  pushed (w, some e) = (w, err (push_failed e))

  -- A failed emission is only a warning, but for a push.
  unfoldable pub after_emit :
      String → String → W × Outcome String String → W × Outcome BuildError (Unit {0})
  unfolding pushed
  after_emit engine push (w, err e) =
      if str_eq push "" then (d.prune w, ok tt) else (w, err (emit_failed e))
  after_emit engine push (w, ok ref) =
      if str_eq push "" then (d.prune w, ok tt) else pushed (d.push_box engine ref push w)

  unfoldable pub emit : Text → EmitOpts → String → Built → Step W BuildError (Unit {0})
  unfolding after_emit parse_image_arg
  emit box opts engine (vm, disk) w =
      after_emit engine opts.push
        (d.emit_box engine (parse_image_arg box).0 vm disk opts.container_disk w)

  unfoldable pub build_locked :
      Text → String → EmitOpts → BuildReply S → Step W BuildError (Unit {0})
  unfolding dispatch emit
  build_locked box snapshot opts reply = dispatch box snapshot reply >>= emit box opts reply.engine

  -- The deferred unlock.
  unfoldable pub released :
      String → W × Outcome BuildError (Unit {0}) → W × Outcome BuildError (Unit {0})
  released dir (w, r) = (d.release_lock dir w, r)

  unfoldable pub locked :
      Text
      → String
      → EmitOpts
      → BuildReply S
      → W × Option String
      → W × Outcome BuildError (Unit {0})
  unfolding build_locked released
  locked box snapshot opts reply (w, some e) = (w, err (lock_failed e))
  locked box snapshot opts reply (w, none) =
      released reply.output_dir (build_locked box snapshot opts reply w)

  unfoldable pub under_lock : Text → String → EmitOpts → BuildReply S → Step W BuildError (Unit {0})
  unfolding locked
  under_lock box snapshot opts reply w =
      locked box snapshot opts reply (d.acquire_lock reply.output_dir w)

  unfoldable pub run_vm_build_drive : Text → BuildRequest → EmitOpts → Step W BuildError (Unit {0})
  unfolding under_lock resolve_vm_build
  run_vm_build_drive box req opts = resolve_vm_build s req >>= under_lock box req.from_snapshot opts

  -- The command: the type of the disk is checked before anything else.
  unfoldable pub run_vm_build : String → BuildRequest → EmitOpts → Step W BuildError (Unit {0})
  unfolding run_vm_build_drive
  run_vm_build kind req opts =
      if str_eq kind "qcow2" || str_eq kind "raw"
      then run_vm_build_drive req.box req opts
      else if str_eq kind "iso"
      then fail iso_not_supported
      else fail (unsupported_disk_type kind)
