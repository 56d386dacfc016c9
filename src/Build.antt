-- ===== src/Build.antt =====
-- candy/plugin-vm/vm_build_resolve.go: the names of a build (parseImageArg, entityLeaf) and what a
-- build request is resolved to. Names that the code looks into are texts.
pub mod Names
pub mod Tagged
pub mod Lookups
pub mod Resolve
pub mod Drive
pub mod Kinds
pub mod Resolved
pub mod Failures
pub mod Driven
pub mod Images
use plugin_vm.Base.{
  ℕ, Bool, true, false, not, Option, none, some, List, [], ◌∷◌, String, str_eq, ◌==◌, if◌then◌else◌,
}
use plugin_vm.Base.Text.{Text, codes}

abbrev pub cut_behind : ℕ → Text → Bool → Option (Text × Text) → Option (Text × Text)
cut_behind c s here (some (a, b)) = some (c ∷ a, b)
cut_behind c s true none = some ([], s)
cut_behind c s false none = none

-- strings.LastIndex of one character, with the texts before and behind it.
unfoldable pub cut_last : ℕ → Text → Option (Text × Text)
cut_last sep [] = none
cut_last sep (c ∷ s) = cut_behind c s (c == sep) (cut_last sep s)

abbrev pub leaf_or : Text → Option (Text × Text) → Text
leaf_or name none = name
leaf_or name (some (_, leaf)) = leaf

unfoldable pub entity_leaf : Text → Text
unfolding cut_last
entity_leaf name = leaf_or name (cut_last b'.' name)

-- A colon that comes first separates nothing.
abbrev pub image_or : Text → Option (Text × Text) → Text × Text
image_or arg none = (arg, [])
image_or arg (some ([], tag)) = (arg, [])
image_or arg (some (c ∷ image, tag)) = (c ∷ image, tag)

unfoldable pub parse_image_arg : Text → Text × Text
unfolding cut_last
parse_image_arg arg = image_or arg (cut_last b':' arg)

-- VmSource, with `installer` for whether the block is there.
pub record BuildSource : Type 0 where
  pub kind : String
  pub box : String
  pub image : String
  pub builder : String
  pub builder_image : String
  pub distro : String
  pub installer : Bool
  pub from_vm : Text
  pub from_snapshot : String

pub record BuildSpec : Type 0 where
  pub source : BuildSource
  pub disk_size : String

-- The distro and the builder of the build vocabulary: whether they have the block that is asked
-- for, and the rest, which is handed on as it is.
pub record DistroDef : Type 0 where
  pub has_bootloader : Bool
  pub has_installer : Bool
  pub body : String

pub record BuilderDef : Type 0 where
  pub is_bootstrap : Bool
  pub body : String

-- spec.VmBuildRequest
pub record BuildRequest : Type 0 where
  pub box : Text
  pub from_snapshot : String
  pub force : Bool

-- spec.VmBuildReply; `S` is the state of a deploy.
pub record BuildReply (S : Type 0) : Type 0 where
  pub source_kind : String
  pub vm : BuildSpec
  pub engine : String
  pub rootful : Bool
  pub output_dir : String
  pub vm_state_dir : String
  pub force : Bool
  pub existing_state : Option S
  pub bootc_image_ref : String
  pub builder_image_ref : String
  pub distro : Option DistroDef
  pub builder : Option BuilderDef

-- `nil_spec` is the nil dereference of an entity with an empty body.
pub data BuildError : Type 0 where
  no_cwd runtime_failed no_output_dir no_state_root mkdir_failed : String → BuildError
  no_vm_entity : Text → BuildError
  vm_resolve_failed : String → BuildError
  nil_spec : BuildError
  box_required image_required : BuildError
  bootc_unresolved : String → String → BuildError
  sections_failed : String → BuildError
  no_builder_section no_distro_section : String → BuildError
  unknown_builder not_bootstrap unknown_distro no_bootloader no_installer : String → BuildError
  builder_image_required disk_size_required distro_required : BuildError
  auto_build_failed still_not_found : String → String → BuildError
  clone_kind_retired : Text → BuildError
  unsupported_kind : Text → String → BuildError
  lock_failed build_failed no_clone_dir emit_failed push_failed : String → BuildError
  distro_undecoded builder_undecoded iso_not_supported : BuildError
  unsupported_disk_type : String → BuildError

unfoldable pub vm_build_drive_source_kind : String → BuildRequest → String
vm_build_drive_source_kind entity_kind req =
    if not (str_eq req.from_snapshot "") then "clone" else entity_kind

unfoldable pub apply_clone_drive_source : BuildSpec → Text → String → BuildSpec
unfolding entity_leaf
apply_clone_drive_source vm box snapshot = record vm {
  source = record (vm.source) {
    kind = "clone";
    from_vm = entity_leaf box;
    from_snapshot = snapshot;
  };
}

abbrev pub iso_console_mode : BuildSpec → Bool
iso_console_mode vm = not vm.source.installer

unfoldable pub iso_distro_installer_required : DistroDef → BuildSpec → Bool
iso_distro_installer_required distro vm =
    if distro.has_installer then false else not (iso_console_mode vm)
