-- ===== src/Backend.antt =====
-- candy/plugin-vm/vm_backend_class.go: the class of VM backends.
-- A provider is a record of its operations over the state `W` of the host; the registry is an
-- association list, and `spec.VmBackends`, the schema's order of the words, an argument.
pub mod Resolve
pub mod Holder
pub mod Interface
pub mod KrunGuest
pub mod QemuGuest
pub mod LibvirtGuest
pub mod Stopping
use plugin_vm.Base.{
  Bool, Bool, true, false, ◌||◌, Option, none, some, List, [], ◌∷◌, ◌++◌, String, str_eq,
  if◌then◌else◌, Outcome, ok, err, ◌>>=◌,
}

pub data BackendError : Type 0 where
  no_backend_selected : BackendError
  unknown_backend : String → BackendError
  no_backend_available : List String → BackendError
  no_such_vm : String → BackendError
  vm_name_required snapshot_name_required : BackendError
  provider_failed : String → BackendError

-- The methods of `vmBackendProvider` that start, stop, find and remove a VM. `holder` is some
-- (running, state directory) where the provider holds the VM. `destroy` returns whether it tore a
-- VM down, beside an error.
pub record Provider (W : Type 0) : Type 0 where
  pub word : String
  pub auto_detectable : Bool
  pub supports_pci_hostdev : Bool
  pub available : W → Option BackendError
  pub holder : W → String → Option (Bool × String)
  pub start : String → W → W × Outcome BackendError Bool
  pub stop : String → Bool → W → W × Outcome BackendError (Unit {0})
  pub destroy : String → String → Bool → W → W × (Bool × Option BackendError)

module _ {ℓ} {V : Type ℓ} where
  unfoldable pub lookup : String → List (String × V) → Option V
  lookup key [] = none
  lookup key ((k, v) ∷ rest) = if str_eq k key then some v else lookup key rest

module _ {W : Type 0} where
  unfoldable pub known_provider : String → Option (Provider W) → Outcome BackendError (Provider W)
  known_provider word none = err (unknown_backend word)
  known_provider word (some p) = ok p

  -- One round of the `auto` loop, between skipping the word and going on past it.
  auto_test :
      Bool
      → Option BackendError
      → Provider W
      → Outcome BackendError (Provider W)
      → Outcome BackendError (Provider W)
      → Outcome BackendError (Provider W)
  auto_test false error p skipped passed = skipped
  auto_test true none p skipped passed = ok p
  auto_test true (some _) p skipped passed = passed

  auto_choice :
      W
      → Option (Provider W)
      → Outcome BackendError (Provider W)
      → Outcome BackendError (Provider W)
      → Outcome BackendError (Provider W)
  unfolding auto_test
  auto_choice w none skipped passed = skipped
  auto_choice w (some p) skipped passed =
      auto_test p.auto_detectable (p.available w) p skipped passed

  available_or : Option BackendError → Provider W → Outcome BackendError (Provider W)
  available_or none p = ok p
  available_or (some e) p = err e

  if_available : W → Provider W → Outcome BackendError (Provider W)
  unfolding available_or
  if_available w p = available_or (p.available w) p

  -- One round of the holder probe.
  holder_choice :
      W
      → String
      → Option (Provider W)
      → Option (Provider W × Bool × String)
      → Option (Provider W × Bool × String)
  holder_choice w name none rest = rest
  holder_choice w name (some p) rest = elim (p.holder w name) [
    | none ↦ rest
    | some (running, dir) ↦ some (p, running, dir)
  ]

module _ {W : Type 0} (registry : List (String × Provider W)) where
  unfoldable pub vm_backend_provider_for : String → Outcome BackendError (Provider W)
  unfolding known_provider
  vm_backend_provider_for word =
      if str_eq word "" then err no_backend_selected else known_provider word (lookup word registry)

  auto_from : W → List String → List String → Outcome BackendError (Provider W)
  unfolding auto_choice
  auto_from w probed [] = err (no_backend_available probed)
  auto_from w probed (word ∷ words) =
      let skipped = auto_from w probed words in
      let passed = auto_from w (probed ++ word ∷ []) words in
      auto_choice w (lookup word registry) skipped passed

  unfoldable pub resolve_vm_backend_provider :
      List String → String → W → Outcome BackendError (Provider W)
  unfolding auto_from if_available
  resolve_vm_backend_provider order configured w =
      if str_eq configured "" || str_eq configured "auto"
      then auto_from w [] order
      else vm_backend_provider_for configured >>= if_available w

  holder_from : W → String → List String → Option (Provider W × Bool × String)
  unfolding holder_choice
  holder_from w name [] = none
  holder_from w name (word ∷ words) =
      let rest = holder_from w name words in holder_choice w name (lookup word registry) rest

  -- The first provider in the schema's order that holds the VM, whether it runs, and its state
  -- directory.
  unfoldable pub vm_backend_holder : List String → String → W → Option (Provider W × Bool × String)
  unfolding holder_from
  vm_backend_holder order name w = holder_from w name order
