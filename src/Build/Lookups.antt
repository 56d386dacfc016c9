-- ===== src/Build/Lookups.antt =====
-- candy/plugin-vm/vm_build_resolve.go: the lookups of resolveVmBuild. The loader (loaderkit), the runtime and image
-- lookups (kit), the directories (vmshared) and the build of a box are seams; marshalling a resolved
-- record does not fail.
use plugin_vm.Base.{
  Bool, false, ◌||◌, not, Option, none, some, [], ◌∷◌, String, str_eq, ◌==◌, if◌then◌else◌, Outcome,
  ok, err,
}
use plugin_vm.Base.Steps.{Step, ◌>>=◌, ◌>>◌, pure, reading, require, given}
use plugin_vm.Base.Text.{Text, codes, text_eq}
use plugin_vm.Build.{
  BuildSpec, DistroDef, BuilderDef, BuildError, no_cwd, no_vm_entity, vm_resolve_failed,
  bootc_unresolved, sections_failed, no_builder_section, no_distro_section, unknown_builder,
  not_bootstrap, unknown_distro, auto_build_failed, still_not_found,
}

pub record Runtime : Type 0 where
  pub run_engine : String
  pub rootful : String

-- `U` is the loaded project, `B` the body of an entity, `S` the state of a deploy. The body of an
-- entity may be there and empty; `deploy_state` is none where any step to it fails. `build_box`
-- gives the error that its reply names, which is empty where there is none.
pub record BuildSeams (W U B S : Type 0) : Type 0 where
  pub getwd : W → Outcome String String
  pub load_project : W → String → Outcome String (Option U)
  pub entity_body : U → Text → Option (Option B)
  pub deploy_target : U → Text → Option Text
  pub resolve_vm : W → B → Outcome String (Option BuildSpec)
  pub builders : U → Option (String → Option BuilderDef)
  pub distros : W → U → Option (String → Option DistroDef)
  pub resolve_inherits : W → U → DistroDef → DistroDef
  pub resolve_runtime : W → Outcome String (Option Runtime)
  pub engine_binary : String → String
  pub vm_disk_dir : W → Text → Outcome String String
  pub abs_path : W → String → Outcome String String
  pub vm_state_root : W → Outcome String String
  pub state_dir_in : String → Text → String
  pub mkdir_all : String → W → W × Option String
  pub deploy_state : W → Text → Option S
  pub resolve_local_image : W → String → String → Outcome String String
  pub build_box : String → String → W → W × Outcome String String

abbrev pub lift {ℓ} : {A : Type ℓ} → (String → BuildError) → Outcome String A → Outcome BuildError A
lift f (ok a) = ok a
lift f (err e) = err (f e)

-- strings.Contains(s, "/")
unfoldable pub any_slash : Text → Bool
any_slash [] = false
any_slash (c ∷ s) = c == b'/' || any_slash s

unfoldable pub has_slash : String → Bool
unfolding any_slash
has_slash s = any_slash (codes s)

module _ {W U B S : Type 0} (s : BuildSeams W U B S) where
  abbrev pub Found : Type 0
  Found = Outcome BuildError (Option BuildSpec)

  with_body : W → Text → Option (Option B) → Found
  with_body w box none = err (no_vm_entity box)
  with_body w box (some none) = ok none
  with_body w box (some (some body)) = lift vm_resolve_failed (s.resolve_vm w body)

  with_project : W → Text → Outcome String (Option U) → Found
  unfolding with_body
  with_project w box (err e) = err (no_vm_entity box)
  with_project w box (ok none) = err (no_vm_entity box)
  with_project w box (ok (some uf)) = with_body w box (s.entity_body uf box)

  unfoldable pub resolve_vm_build_entity : W → String → Text → Found
  unfolding with_project
  resolve_vm_build_entity w dir box = with_project w box (s.load_project w dir)

  -- The hop over the deploy of the name: the caller reads only whether it gives a spec.
  spec_of : Found → Option BuildSpec
  spec_of (err e) = none
  spec_of (ok found) = found

  hop_to : W → String → Text → Option Text → Option BuildSpec
  unfolding spec_of resolve_vm_build_entity
  hop_to w dir box none = none
  hop_to w dir box (some target) =
      if text_eq target box then none else spec_of (resolve_vm_build_entity w dir target)

  hop_in : W → String → Text → Outcome String (Option U) → Option BuildSpec
  unfolding hop_to
  hop_in w dir box (err e) = none
  hop_in w dir box (ok none) = none
  hop_in w dir box (ok (some uf)) = hop_to w dir box (s.deploy_target uf box)

  unfoldable pub via_deploy_from : W → String → Text → Option BuildSpec
  unfolding hop_in
  via_deploy_from w dir box = hop_in w dir box (s.load_project w dir)

  hopped_or : BuildError → Option BuildSpec → Found
  hopped_or e none = err e
  hopped_or e (some vm) = ok (some vm)

  -- The error of the lookup is what a failed hop reports too.
  found_or_hop : W → String → Text → String → Found → Found
  unfolding hopped_or via_deploy_from
  found_or_hop w dir box snapshot (ok found) = ok found
  found_or_hop w dir box snapshot (err e) =
      if not (str_eq snapshot "") then hopped_or e (via_deploy_from w dir box) else err e

  unfoldable pub find_spec : String → Text → String → Step W BuildError (Option BuildSpec)
  unfolding found_or_hop resolve_vm_build_entity
  find_spec dir box snapshot =
      reading (λ w. found_or_hop w dir box snapshot (resolve_vm_build_entity w dir box))

  unfoldable pub resolve_bootc_image_ref : String → String → Step W BuildError String
  unfolding has_slash
  resolve_bootc_image_ref engine image =
      if has_slash image
      then pure image
      else reading (λ w. lift (bootc_unresolved image) (s.resolve_local_image w engine image))

  -- The reply of the box build, and the lookup after it.
  unfoldable pub built_box : String → W × Outcome String String → W × Outcome BuildError (Unit {0})
  built_box image (w, err e) = (w, err (auto_build_failed image e))
  built_box image (w, ok e) =
      if str_eq e "" then (w, ok tt) else (w, err (auto_build_failed image e))

  unfoldable pub auto_build : String → String → Step W BuildError String
  unfolding built_box
  auto_build engine image = do
    dir ← reading (λ w. lift no_cwd (s.getwd w))
    λ w. built_box image (s.build_box image dir w)
    reading (λ w. lift (still_not_found image) (s.resolve_local_image w engine image))

  unfoldable pub local_or_build : String → String → Outcome String String → Step W BuildError String
  unfolding auto_build
  local_or_build engine image (ok ref) = pure ref
  local_or_build engine image (err e) = auto_build engine image

  unfoldable pub ensure_builder_image_built : String → String → Step W BuildError String
  unfolding has_slash local_or_build
  ensure_builder_image_built engine image w =
      if has_slash image
      then (w, ok image)
      else local_or_build engine image (s.resolve_local_image w engine image) w

  unfoldable pub project_in : Outcome String (Option U) → Outcome BuildError U
  project_in (err e) = err (sections_failed e)
  project_in (ok none) = err (sections_failed "no charly.yml found")
  project_in (ok (some uf)) = ok uf

  abbrev pub load_sections : String → Step W BuildError U
  load_sections dir = reading (λ w. project_in (s.load_project w dir))

  -- A distro of the vocabulary, with what it inherits.
  unfoldable pub find_distro : U → String → Step W BuildError DistroDef
  find_distro uf name = do
    distros ← λ w. given (no_distro_section name) (s.distros w uf) w
    distro ← given (unknown_distro name) (distros name)
    reading (λ w. ok (s.resolve_inherits w uf distro))

  unfoldable pub find_builder : U → String → Step W BuildError BuilderDef
  find_builder uf name = do
    builders ← given (no_builder_section name) (s.builders uf)
    builder ← given (unknown_builder name) (builders name)
    require builder.is_bootstrap (not_bootstrap name)
    pure builder
