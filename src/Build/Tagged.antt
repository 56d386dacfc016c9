-- ===== src/Build/Tagged.antt =====
-- vm_build.go, the clone drive of runVmBuildDrive, for a box that is given with a tag.
use plugin_vm.Base.{ℕ, ◌≡◌, Bool, refl, sym, ap, ◌∙◌, none, ◌∷◌, ◌++◌, String, ok, append_assoc}
use plugin_vm.Base.Text.{Text}
use plugin_vm.Base.Split.{Lacks}
use plugin_vm.Build.{
  vm_build_drive_source_kind, entity_leaf, apply_clone_drive_source, BuildSpec, BuildReply,
}
use plugin_vm.Build.Lookups.{BuildSeams}
use plugin_vm.Build.Names.{
  parse_image_arg_lem, parse_image_arg-plain, entity_leaf_lem, entity_leaf-plain,
}
use plugin_vm.Build.Resolve.{place, resolve_drive, resolve_vm_build}
use plugin_vm.Build.Drive.{DriveSeams, cloned, build_clone_disk, dispatch_kind, dispatch}

module _ {W U B S : Type 0} (s : BuildSeams W U B S) (d : DriveSeams W S) where
  -- The spec that is handed to a build of a clone of the entity at the snapshot.
  abbrev pub clone_of : BuildSpec → Text → String → BuildSpec
  clone_of vm entity snapshot = record vm {
    source = record (vm.source) { kind = "clone"; from_vm = entity; from_snapshot = snapshot };
  }

  apply_clone_drive_source-plain :
      (vm : BuildSpec) (b : Text) (snapshot : String)
      → Lacks b'.' b
      → apply_clone_drive_source vm b snapshot ≡ clone_of vm b snapshot
  unfolding apply_clone_drive_source
  apply_clone_drive_source-plain vm b snapshot k =
      ap (λ e. clone_of vm e snapshot) (entity_leaf-plain b k)

  -- The drive builds under the leaf of the box.
  build_clone_disk-leaf :
      (box b : Text) (snapshot dir : String) (reply : BuildReply S) (w w' : W)
      → entity_leaf box ≡ b
      → Lacks b'.' b
      → d.build_clone b (clone_of reply.vm b snapshot) w ≡ (w', none)
      → s.vm_disk_dir w' b ≡ ok dir
      → build_clone_disk s d box snapshot reply w
        ≡ (w', ok (clone_of reply.vm b snapshot, d.disk_in dir))
  unfolding build_clone_disk cloned
  build_clone_disk-leaf box b snapshot dir reply w w' leaf k built in_dir =
      rw (leaf, apply_clone_drive_source-plain reply.vm b snapshot k, built, in_dir) refl

  -- The resolution reads the box without its tag.
  resolve_vm_build-tag :
      (c : ℕ) (name tag : Text) (snapshot : String) (force : Bool) (w : W)
      → Lacks b':' (c ∷ name)
      → Lacks b':' tag
      → resolve_vm_build s
          (record { box = (c ∷ name) ++ b':' ∷ tag; from_snapshot = snapshot; force = force })
          w
        ≡ resolve_vm_build s (record { box = c ∷ name; from_snapshot = snapshot; force = force }) w
  unfolding resolve_vm_build place resolve_drive vm_build_drive_source_kind
  resolve_vm_build-tag c name tag snapshot force w plain h =
      rw (parse_image_arg_lem c name tag h, parse_image_arg-plain (c ∷ name) plain) refl

  -- A clone of a box that is given with a tag is built under a part of the tag. Where the tag has a
  -- dot, the request resolves as it does for the name before the colon; but the drive of a reply for a
  -- clone has it built for what stands behind the last dot of the tag, as an entity that derives from
  -- itself, and gives the disk in the directory of that entity.
  pub tagged_clone-dispatch :
      (c : ℕ) (name a b : Text) (snapshot dir : String) (force : Bool) (reply : BuildReply S)
      (w₀ w w' : W)
      → Lacks b':' (c ∷ name)
      → Lacks b':' (a ++ b'.' ∷ b)
      → Lacks b'.' b
      → reply.source_kind ≡ "clone"
      → d.build_clone b (clone_of reply.vm b snapshot) w ≡ (w', none)
      → s.vm_disk_dir w' b ≡ ok dir
      → (resolve_vm_build s
            (record {
              box = (c ∷ name) ++ b':' ∷ (a ++ b'.' ∷ b);
              from_snapshot = snapshot;
              force = force;
            })
            w₀
          ≡ resolve_vm_build s
              (record { box = c ∷ name; from_snapshot = snapshot; force = force })
              w₀)
        × (dispatch s d ((c ∷ name) ++ b':' ∷ (a ++ b'.' ∷ b)) snapshot reply w
            ≡ (w', ok (clone_of reply.vm b snapshot, d.disk_in dir)))
  unfolding dispatch dispatch_kind
  tagged_clone-dispatch c name a b snapshot dir force reply w₀ w w' plain h k is_clone built
        in_dir =
      (
        resolve_vm_build-tag c name (a ++ b'.' ∷ b) snapshot force w₀ plain h,
        ap (λ kind. dispatch_kind s d kind box snapshot reply w) is_clone
            ∙ build_clone_disk-leaf box b snapshot dir reply w w' leaf k built in_dir,
      )
    where
      box : Text
      box = (c ∷ name) ++ b':' ∷ (a ++ b'.' ∷ b)

      leaf : entity_leaf box ≡ b
      leaf =
          ap entity_leaf (sym (append_assoc (c ∷ name) (b':' ∷ a) (b'.' ∷ b)))
          ∙ entity_leaf_lem ((c ∷ name) ++ b':' ∷ a) b k
