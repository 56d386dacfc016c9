-- ===== src/Backend/Interface.antt =====
-- vmBackendProvider: what a provider may promise about VMs that it does not hold, and about a stop.
use plugin_vm.Base.{◌≡◌, ◌≢◌, Bool, true, false, none, some, String, ok}
use plugin_vm.Backend.{Provider}

module _ {W : Type 0} where
  -- The promise of the qemu and the krun provider, not of libvirt, whose destroy also cleans up
  -- behind an absent domain: nothing is torn down, and nothing changes, where the provider holds no such VM and is not told
  -- its directory.
  abbrev pub IsSparing : Provider W → Type 0
  IsSparing p =
      (name : String) (delete_disk : Bool) (w : W)
      → p.holder w name ≡ none
      → ((p.destroy name "" delete_disk w).0 ≡ w) × ((p.destroy name "" delete_disk w).1.0 ≡ false)

  -- A stop that reports no error leaves a VM that the provider does not report as running.
  abbrev pub IsStopping : Provider W → Type 0
  IsStopping p =
      (name dir : String) (force : Bool) (w w' : W)
      → p.stop name force w ≡ (w', ok tt)
      → p.holder w' name ≢ some (true, dir)
