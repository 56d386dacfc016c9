-- ===== src/Tests/Builds.antt =====
-- Builds of the bootstrap VM "arch"; the state counts the steps that change the host.
use plugin_vm.Base.{
  ◌≡◌, refl, true, false, none, some, ℕ, ◌+◌, String, str_eq, if◌then◌else◌, Outcome, ok, err,
}
use plugin_vm.Base.Text.{Text, codes}
use plugin_vm.Build.{
  BuildSource, BuildSpec, DistroDef, BuilderDef, BuildRequest, BuildReply, push_failed, cut_last,
  parse_image_arg, entity_leaf,
}
use plugin_vm.Build.Tagged.{tagged_clone-dispatch}
use plugin_vm.Build.Lookups.{
  BuildSeams, any_slash, has_slash, resolve_vm_build_entity, find_spec, find_builder, find_distro,
  project_in, built_box, auto_build, local_or_build, ensure_builder_image_built,
}
use plugin_vm.Build.Resolve.{
  made_dir, engine_of, rootful_of, place, bootstrap_image, resolve_bootstrap, resolve_kind,
  resolve_drive, resolve_vm_build,
}
use plugin_vm.Build.Drive.{
  EmitOpts, DriveSeams, wrote, build_bootstrap_disk, dispatch_kind, dispatch, pushed, after_emit,
  emit, build_locked, released, locked, under_lock, run_vm_build_drive,
}
use plugin_vm.Build.Kinds.{IsReady}
use plugin_vm.Build.Resolved.{resolve_vm_build-IsReady}
use plugin_vm.Build.Failures.{IsStepError, run_vm_build_drive-StepError}
use plugin_vm.Build.Driven.{IsDriven, run_vm_build_drive-IsDriven}
use plugin_vm.Build.Images.{
  IsBuilderImage, ensure_builder_image_built-IsBuilderImage, retired_clone-resolves,
}

abbrev source : String → BuildSource
source kind = record {
  kind = kind;
  box = "";
  image = "";
  builder = "pacstrap";
  builder_image = "arch-builder";
  distro = "arch";
  installer = false;
  from_vm = codes "";
  from_snapshot = "";
}

abbrev distro : DistroDef
distro = record { has_bootloader = true; has_installer = false; body = "arch" }

abbrev builder : BuilderDef
builder = record { is_bootstrap = true; body = "pacstrap" }

-- The builder image is in the storage once it was built.
abbrev local_image : ℕ → Outcome String String
local_image ℕ.zero = err "no image"
local_image (ℕ.suc ℕ.zero) = err "no image"
local_image (ℕ.suc (ℕ.suc n)) = ok "localhost/arch-builder:1"

abbrev seams : String → BuildSeams ℕ (Unit {0}) (Unit {0}) (Unit {0})
seams kind = record {
  getwd = λ w. ok "/project";
  load_project = λ w dir. ok (some tt);
  entity_body = λ uf box. some (some tt);
  deploy_target = λ uf box. none;
  resolve_vm = λ w body. ok (some record { source = source kind; disk_size = "20G" });
  builders = λ uf. some (λ name. some builder);
  distros = λ w uf. some (λ name. some distro);
  resolve_inherits = λ w uf d. d;
  resolve_runtime = λ w. ok none;
  engine_binary = λ engine. engine;
  vm_disk_dir = λ w name. ok "image/arch";
  abs_path = λ w path. ok "/project/image/arch";
  vm_state_root = λ w. ok "/state";
  state_dir_in = λ root name. "/state/charly-arch";
  mkdir_all = λ dir w. (w + 1, none);
  deploy_state = λ w name. none;
  resolve_local_image = λ w engine image. local_image w;
  build_box = λ image dir w. (w + 1, ok "");
}

abbrev request : BuildRequest
request = record { box = codes "arch"; from_snapshot = ""; force = false }

abbrev reply : BuildReply (Unit {0})
reply = record {
  source_kind = "bootstrap";
  vm = record { source = source "bootstrap"; disk_size = "20G" };
  engine = "podman";
  rootful = false;
  output_dir = "/project/image/arch";
  vm_state_dir = "/state/charly-arch";
  force = false;
  existing_state = none;
  bootc_image_ref = "";
  builder_image_ref = "localhost/arch-builder:1";
  distro = some distro;
  builder = some builder;
}

resolved : resolve_vm_build (seams "bootstrap") request 0 ≡ (2, ok reply)
unfolding resolve_vm_build find_spec resolve_vm_build_entity parse_image_arg place made_dir
    engine_of rootful_of entity_leaf cut_last resolve_drive resolve_kind resolve_bootstrap
    find_builder find_distro project_in bootstrap_image ensure_builder_image_built has_slash
    any_slash local_or_build auto_build built_box
resolved = refl

resolve_vm_build-IsReady_example : IsReady reply
resolve_vm_build-IsReady_example =
    resolve_vm_build-IsReady (seams "bootstrap") request 0 2 reply resolved

ensure_builder_image_built-IsBuilderImage_example :
    IsBuilderImage (seams "bootstrap") "podman" "arch-builder" "localhost/arch-builder:1" 1 2
ensure_builder_image_built-IsBuilderImage_example =
    ensure_builder_image_built-IsBuilderImage (seams "bootstrap") "podman" "arch-builder"
      "localhost/arch-builder:1" 1 2
      (unfold ensure_builder_image_built has_slash any_slash local_or_build auto_build built_box in
        refl)

-- An entity of kind `clone`.
abbrev clone_reply : BuildReply (Unit {0})
clone_reply = record reply {
  source_kind = "clone";
  vm = record { source = source "clone"; disk_size = "20G" };
  builder_image_ref = "";
  distro = none;
  builder = none;
}

retired_clone-resolves_example : resolve_vm_build (seams "clone") request 0 ≡ (1, ok clone_reply)
retired_clone-resolves_example =
    retired_clone-resolves (seams "clone") request "/project" (some clone_reply.vm) clone_reply 0 0
      1 refl (unfold find_spec resolve_vm_build_entity parse_image_arg cut_last in refl)
      (unfold place made_dir engine_of rootful_of entity_leaf cut_last parse_image_arg in refl) refl

-- The push succeeds to the first registry only.
abbrev drive_seams : DriveSeams ℕ (Unit {0})
drive_seams = record {
  acquire_lock = λ dir w. (w + 10, none);
  release_lock = λ dir w. w + 100;
  build_cloud_image = λ reply w. (w, ok "disk.qcow2");
  build_bootc = λ reply w. (w, ok "disk.qcow2");
  build_bootstrap = λ reply distro builder w. (w + 1, ok "disk.qcow2");
  build_iso = λ reply distro w. (w, ok "disk.qcow2");
  build_container_disk = λ reply w. (w, ok "disk.qcow2");
  build_clone = λ entity vm w. (w, none);
  disk_in = λ dir. "disk.qcow2";
  emit_box = λ engine name vm disk container_disk w. (w + 1, ok "localhost/charly-arch:1");
  push_box = λ engine ref push w.
      if str_eq push "registry/arch:1" then (w + 1, none) else (w, some "denied");
  prune = λ w. w;
}

abbrev pushing : String → EmitOpts
pushing push = record { container_disk = false; push = push }

driven :
    run_vm_build_drive
      (seams "bootstrap")
      drive_seams
      (codes "arch")
      request
      (pushing "registry/arch:1")
      0
    ≡ (115, ok tt)
unfolding run_vm_build_drive under_lock locked released build_locked dispatch dispatch_kind
    build_bootstrap_disk wrote emit after_emit pushed parse_image_arg cut_last
driven = rw resolved refl

run_vm_build_drive-IsDriven_example :
    IsDriven
      (seams "bootstrap")
      drive_seams
      (codes "arch")
      request
      (pushing "registry/arch:1")
      0
      115
run_vm_build_drive-IsDriven_example =
    run_vm_build_drive-IsDriven (seams "bootstrap") drive_seams (codes "arch") request
      (pushing "registry/arch:1") 0 115 driven

denied :
    run_vm_build_drive
      (seams "bootstrap")
      drive_seams
      (codes "arch")
      request
      (pushing "other/arch:1")
      0
    ≡ (114, err (push_failed "denied"))
unfolding run_vm_build_drive under_lock locked released build_locked dispatch dispatch_kind
    build_bootstrap_disk wrote emit after_emit pushed parse_image_arg cut_last
denied = rw resolved refl

run_vm_build_drive-StepError_example : IsStepError (push_failed "denied")
run_vm_build_drive-StepError_example =
    run_vm_build_drive-StepError (seams "bootstrap") drive_seams (codes "arch") request
      (pushing "other/arch:1") 0 2 114 reply (push_failed "denied") resolved denied

-- The clone of "arch:2024.1" is built as "1".
abbrev clone_request : Text → BuildRequest
clone_request box = record { box = box; from_snapshot = "golden"; force = false }

abbrev cloned_spec : BuildSpec
cloned_spec = record clone_reply.vm {
  source = record (source "clone") {
    kind = "clone";
    from_vm = codes "1";
    from_snapshot = "golden";
  };
}

tagged_clone-dispatch_example :
    (resolve_vm_build (seams "clone") (clone_request (codes "arch:2024.1")) 0
      ≡ resolve_vm_build (seams "clone") (clone_request (codes "arch")) 0)
    × (dispatch (seams "clone") drive_seams (codes "arch:2024.1") "golden" clone_reply 2
        ≡ (2, ok (cloned_spec, "disk.qcow2")))
tagged_clone-dispatch_example =
    tagged_clone-dispatch (seams "clone") drive_seams b'a' (codes "rch") (codes "2024") (codes "1")
      "golden" "image/arch" false clone_reply 0 2 2 (refl, (refl, (refl, (refl, tt))))
      (refl, (refl, (refl, (refl, (refl, (refl, tt)))))) (refl, tt) refl refl refl
