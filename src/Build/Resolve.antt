-- ===== src/Build/Resolve.antt =====
-- candy/plugin-vm/vm_build_resolve.go: resolveVmBuild, over its lookups.
use plugin_vm.Base.{Bool, false, not, Option, none, some, String, str_eq, if◌then◌else◌, ok, err}
use plugin_vm.Base.Steps.{Step, ◌>>=◌, ◌>>◌, pure, fail, reading, require, given}
use plugin_vm.Base.Text.{Text}
use plugin_vm.Build.{
  parse_image_arg, entity_leaf, BuildSpec, DistroDef, BuilderDef, BuildRequest, BuildReply,
  BuildError, no_cwd, runtime_failed, no_output_dir, no_state_root, mkdir_failed, nil_spec,
  box_required, image_required, no_bootloader, no_installer, builder_image_required,
  disk_size_required, distro_required, clone_kind_retired, unsupported_kind,
  vm_build_drive_source_kind, iso_distro_installer_required,
}
use plugin_vm.Build.Lookups.{
  Runtime, BuildSeams, lift, find_spec, resolve_bootc_image_ref, ensure_builder_image_built,
  load_sections, find_distro, find_builder,
}

module _ {W U B S : Type 0} (s : BuildSeams W U B S) where
  unfoldable pub engine_of : Option Runtime → String
  engine_of none = "podman"
  engine_of (some rt) = s.engine_binary rt.run_engine

  unfoldable pub rootful_of : Option Runtime → Bool
  rootful_of none = false
  rootful_of (some rt) = str_eq rt.rootful "sudo"

  unfoldable pub made_dir : String → Step W BuildError (Unit {0})
  made_dir dir w = elim (s.mkdir_all dir w).1 [
    | none ↦ ((s.mkdir_all dir w).0, ok tt)
    | some e ↦ ((s.mkdir_all dir w).0, err (mkdir_failed e))
  ]

  -- The reply before the switch over the kind.
  abbrev pub unresolved_reply :
      BuildRequest → BuildSpec → Option Runtime → String → String → Option S → BuildReply S
  unresolved_reply req vm rt output_dir state_dir state = record {
    source_kind = vm.source.kind;
    vm = vm;
    engine = engine_of rt;
    rootful = rootful_of rt;
    output_dir = output_dir;
    vm_state_dir = state_dir;
    force = req.force;
    existing_state = state;
    bootc_image_ref = "";
    builder_image_ref = "";
    distro = none;
    builder = none;
  }

  -- The directories and the host's state of the deploy; the disk's directory is that of the leaf. An
  -- entity with an empty body has no spec to read then.
  unfoldable pub place : BuildRequest → Text → Option BuildSpec → Step W BuildError (BuildReply S)
  unfolding entity_leaf made_dir
  place req box found = do
    rt ← reading (λ w. lift runtime_failed (s.resolve_runtime w))
    disk_dir ← reading (λ w. lift no_output_dir (s.vm_disk_dir w (entity_leaf box)))
    output_dir ← reading (λ w. lift no_output_dir (s.abs_path w disk_dir))
    root ← reading (λ w. lift no_state_root (s.vm_state_root w))
    made_dir (s.state_dir_in root box)
    state ← reading (λ w. ok (s.deploy_state w box))
    vm ← given nil_spec found
    pure (unresolved_reply req vm rt output_dir (s.state_dir_in root box) state)

  unfoldable pub bootstrap_image :
      BuildReply S → BuilderDef → DistroDef → Step W BuildError (BuildReply S)
  unfolding ensure_builder_image_built
  bootstrap_image reply builder distro = do
    require (not (str_eq reply.vm.source.builder_image "")) builder_image_required
    require (not (str_eq reply.vm.disk_size "")) disk_size_required
    ref ← ensure_builder_image_built s reply.engine reply.vm.source.builder_image
    pure (record reply { builder_image_ref = ref; distro = some distro; builder = some builder })

  unfoldable pub resolve_bootstrap : String → BuildReply S → Step W BuildError (BuildReply S)
  unfolding find_builder find_distro bootstrap_image
  resolve_bootstrap dir reply = do
    let source = reply.vm.source
    uf ← load_sections s dir
    builder ← find_builder s uf source.builder
    distro ← find_distro s uf source.distro
    require distro.has_bootloader (no_bootloader source.distro)
    bootstrap_image reply builder distro

  unfoldable pub resolve_iso : String → BuildReply S → Step W BuildError (BuildReply S)
  unfolding find_distro iso_distro_installer_required
  resolve_iso dir reply = do
    let source = reply.vm.source
    require (not (str_eq source.distro "")) distro_required
    require (not (str_eq reply.vm.disk_size "")) disk_size_required
    uf ← load_sections s dir
    distro ← find_distro s uf source.distro
    require (not (iso_distro_installer_required distro reply.vm)) (no_installer source.distro)
    pure (record reply { distro = some distro })

  unfoldable pub resolve_bootc : BuildReply S → Step W BuildError (BuildReply S)
  unfolding resolve_bootc_image_ref
  resolve_bootc reply = do
    require (not (str_eq reply.vm.source.box "")) box_required
    ref ← resolve_bootc_image_ref s reply.engine reply.vm.source.box
    pure (record reply { bootc_image_ref = ref })

  -- The switch over source.kind.
  unfoldable pub resolve_kind : String → Text → BuildReply S → Step W BuildError (BuildReply S)
  unfolding resolve_bootstrap resolve_iso resolve_bootc
  resolve_kind dir box reply =
      let kind = reply.vm.source.kind in
      if str_eq kind "cloud_image"
      then pure reply
      else if str_eq kind "bootc"
      then resolve_bootc reply
      else if str_eq kind "bootstrap"
      then resolve_bootstrap dir reply
      else if str_eq kind "iso"
      then resolve_iso dir reply
      else if str_eq kind "container_disk"
      then require (not (str_eq reply.vm.source.image "")) image_required >> pure reply
      else if str_eq kind "clone"
      then fail (clone_kind_retired box)
      else fail (unsupported_kind box kind)

  unfoldable pub resolve_drive :
      String → Text → BuildRequest → BuildReply S → Step W BuildError (BuildReply S)
  unfolding vm_build_drive_source_kind resolve_kind
  resolve_drive dir box req reply =
      if str_eq (vm_build_drive_source_kind reply.vm.source.kind req) "clone"
      then pure (record reply { source_kind = "clone" })
      else resolve_kind dir box reply

  unfoldable pub resolve_vm_build : BuildRequest → Step W BuildError (BuildReply S)
  unfolding parse_image_arg find_spec place resolve_drive
  resolve_vm_build req = do
    let box = (parse_image_arg req.box).0
    dir ← reading (λ w. lift no_cwd (s.getwd w))
    found ← find_spec s dir box req.from_snapshot
    reply ← place req box found
    resolve_drive dir box req reply
