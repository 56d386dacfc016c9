-- ===== src/Backend/QemuGuest/Spares.antt =====
-- qemuBackend: what it claims, and what it leaves alone.
use plugin_vm.Base.{◌≡◌, refl, Bool, false, none, String, ok}
use plugin_vm.Backend.Interface.{IsSparing}
use plugin_vm.Backend.QemuGuest.{
  QemuSeams, qemu_state_dir_marked, qemu_holder, held_at, qemu_stop, stop_at, qemu_destroy,
  destroy_held_at, qemu_provider,
}

module _ {W : Type 0} (q : QemuSeams W) where
  marked_false :
      (w : W) (dir : String)
      → q.has_file w dir "command" ≡ false
      → q.has_file w dir "qemu.pid" ≡ false
      → qemu_state_dir_marked q w dir ≡ false
  unfolding qemu_state_dir_marked
  marked_false w dir command pid = rw (command, pid)

  -- A directory with neither a stored command nor a pid file, such as that of a krun guest, is not
  -- claimed: there is no VM in it, and a stop changes nothing and reports no error.
  pub qemu_holder-unmarked :
      (name dir : String) (force : Bool) (w : W)
      → q.vm_dir w ≡ ok dir
      → q.has_file w (q.state_dir dir name) "command" ≡ false
      → q.has_file w (q.state_dir dir name) "qemu.pid" ≡ false
      → (qemu_holder q w name ≡ none) × (qemu_stop q name force w ≡ (w, ok tt))
  unfolding qemu_holder held_at qemu_stop stop_at
  qemu_holder-unmarked name dir force w found command pid =
      let unmarked = marked_false w (q.state_dir dir name) command pid in
      (rw (found, unmarked), rw (found, unmarked))

  -- The qemu provider keeps the promise of the interface.
  pub qemu_provider-IsSparing : IsSparing (qemu_provider q)
  unfolding qemu_provider qemu_destroy destroy_held_at
  qemu_provider-IsSparing name delete_disk w free = rw free (refl, refl)
