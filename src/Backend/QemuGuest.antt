-- ===== src/Backend/QemuGuest.antt =====
-- candy/plugin-vm/vm_backend_qemu.go: the life of a bare qemu process. Its state is a directory with
-- a `command` or a `qemu.pid`; the process is reached through its monitor or by its pid.
pub mod Spares
use plugin_vm.Base.{
  Bool, true, false, ◌||◌, Option, none, some, List, [], ◌∷◌, String, str_eq, if◌then◌else◌,
  Outcome, ok, err,
}
use plugin_vm.Backend.{BackendError, provider_failed, Provider}

-- vmDir, os.Stat and os.ReadFile, vmshared.QemuAlive, the shutdowns over the monitor, and signals,
-- over the state `W` of the host. `state_dir` is filepath.Join of the directory and the name, which
-- is never empty; `read_pid` is the pid that qemu.pid holds, where it holds one. vmshared.QemuAlive reads
-- that same file: a process is alive only where its pid can be read.
pub record QemuSeams (W : Type 0) : Type 0 where
  pub vm_dir : W → Outcome String String
  pub state_dir : String → String → String
  pub has_file : W → String → String → Bool
  pub qemu_alive : W → String → Bool
  pub binary_on_path : W → Option String
  pub start_from_state_dir : String → String → W → W × Option String
  pub force_shutdown : String → W → W × Option String
  pub graceful_shutdown : String → W → W × Option String
  pub kill_by_pid : String → W → W
  pub read_pid : W → String → Option String
  pub sigterm : String → W → W
  pub remove_all : String → W → W × Option String

module _ {W : Type 0} (q : QemuSeams W) where
  any_marker : W → String → List String → Bool
  any_marker w dir [] = false
  any_marker w dir (marker ∷ rest) = q.has_file w dir marker || any_marker w dir rest

  unfoldable pub qemu_state_dir_marked : W → String → Bool
  unfolding any_marker
  qemu_state_dir_marked w dir = any_marker w dir ("command" ∷ "qemu.pid" ∷ [])

  unfoldable pub held_at : W → String → Outcome String String → Option (Bool × String)
  held_at w name (err _) = none
  held_at w name (ok dir) =
      if qemu_state_dir_marked w (q.state_dir dir name)
      then some (q.qemu_alive w (q.state_dir dir name), q.state_dir dir name)
      else none

  unfoldable pub qemu_holder : W → String → Option (Bool × String)
  unfolding held_at
  qemu_holder w name = held_at w name (q.vm_dir w)

  abbrev pub QemuRun : Type 0 → Type 0
  QemuRun A = W × Outcome BackendError A

  started : W × Option String → QemuRun Bool
  started (w, none) = (w, ok false)
  started (w, some e) = (w, err (provider_failed e))

  start_in : String → W → Outcome String String → QemuRun Bool
  unfolding started
  start_in name w (err e) = (w, err (provider_failed e))
  start_in name w (ok dir) =
      if q.qemu_alive w (q.state_dir dir name)
      then (w, ok true)
      else started (q.start_from_state_dir name (q.state_dir dir name) w)

  unfoldable pub qemu_start : String → W → QemuRun Bool
  unfolding start_in
  qemu_start name w = start_in name w (q.vm_dir w)

  -- A quit over the monitor, or else a kill.
  unfoldable pub forced : String → W × Option String → W
  forced dir (w, none) = w
  forced dir (w, some e) = q.kill_by_pid dir w

  signalled : W → Option String → W
  signalled w none = w
  signalled w (some pid) = q.sigterm pid w

  -- A shutdown over the monitor, or else a signal where the pid is known.
  unfoldable pub asked : String → W × Option String → W
  unfolding signalled
  asked dir (w, none) = w
  asked dir (w, some e) = signalled w (q.read_pid w dir)

  unfoldable pub stop_at : Bool → W → Option (Bool × String) → W
  unfolding forced asked
  stop_at force w none = w
  stop_at true w (some (running, dir)) = forced dir (q.force_shutdown dir w)
  stop_at false w (some (running, dir)) = asked dir (q.graceful_shutdown dir w)

  -- No failure of a stop is reported.
  unfoldable pub qemu_stop : String → Bool → W → QemuRun (Unit {0})
  unfolding stop_at
  qemu_stop name force w = (stop_at force w (qemu_holder w name), ok tt)

  abbrev pub TornDown : Type 0
  TornDown = W × (Bool × Option BackendError)

  removed : W × Option String → TornDown
  removed (w, none) = (w, (true, none))
  removed (w, some e) = (w, (false, some (provider_failed e)))

  unfoldable pub destroy_at : String → W → TornDown
  unfolding removed forced
  destroy_at dir w = removed (q.remove_all dir (forced dir (q.force_shutdown dir w)))

  unfoldable pub destroy_held_at : W → Option (Bool × String) → TornDown
  unfolding destroy_at
  destroy_held_at w none = (w, (false, none))
  destroy_held_at w (some (running, dir)) = destroy_at dir w

  -- The disk goes with the directory, whatever `delete_disk` says.
  unfoldable pub qemu_destroy : String → String → Bool → W → TornDown
  unfolding destroy_held_at destroy_at
  qemu_destroy name dir delete_disk w =
      if str_eq dir "" then destroy_held_at w (qemu_holder w name) else destroy_at dir w

  missing_binary : Option String → Option BackendError
  missing_binary none = none
  missing_binary (some e) = some (provider_failed e)

  unfoldable pub qemu_provider : Provider W
  unfolding missing_binary
  qemu_provider = record {
    word = "qemu";
    auto_detectable = true;
    supports_pci_hostdev = false;
    available = λ w. missing_binary (q.binary_on_path w);
    holder = qemu_holder;
    start = qemu_start;
    stop = qemu_stop;
    destroy = qemu_destroy;
  }
