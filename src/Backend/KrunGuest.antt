-- ===== src/Backend/KrunGuest.antt =====
-- candy/plugin-vm/vm_backend_krun.go: the lifecycle of a krun guest. Its state is a launch record in
-- the state directory and a container; both are reached through the seams that the code names.
pub mod Stop
pub mod Start
pub mod Spares
use plugin_vm.Base.{
  Bool, true, false, not, Option, none, some, List, String, if◌then◌else◌, Outcome, ok, err,
}
use plugin_vm.Backend.{BackendError, provider_failed, Provider}

pub record KrunState : Type 0 where
  pub name : String
  pub engine : String
  pub image : String
  pub ssh_alias : String
  pub systemd : Bool
  pub argv : List String

pub data KrunGuestError : Type 0 where
  no_state_dir : String → KrunGuestError
  record_unreadable : String → KrunGuestError
  start_failed : String → String → KrunGuestError
  poweroff_failed : String → String → KrunGuestError
  still_running : String → KrunGuestError
  container_not_removed : String → String → KrunGuestError
  state_dir_not_removed : String → String → KrunGuestError

-- krunStateDirFor, the record's file, the engine's and the SSH calls over the state `W` of the host,
-- and sdk's pollUntil: it waits until a test passes, and says whether it did before the deadline.
pub record KrunSeams (W : Type 0) : Type 0 where
  pub state_dir_for : W → String → Outcome String String
  pub has_record : W → String → Bool
  pub read_record : W → String → Outcome String KrunState
  pub container_running : W → String → Bool
  pub container_exists : W → String → Bool
  pub container_start : String → W → W × Option String
  pub container_remove : String → W → W × Option String
  pub run_argv : List String → W → W × Option String
  pub poweroff_over_ssh : String → W → W × Option String
  pub remove_record : String → W → W
  pub remove_state_dir : String → W → W × Option String
  pub poll_until : (W → Bool) → W → W × Bool

preflight_failed : Option String → Option BackendError
preflight_failed none = none
preflight_failed (some e) = some (provider_failed e)

module _ {W : Type 0} (k : KrunSeams W) where
  unfoldable pub held_in : W → String → Outcome String String → Option (Bool × String)
  held_in w name (err _) = none
  held_in w name (ok dir) =
      if k.has_record w dir then some (k.container_running w name, dir) else none

  unfoldable pub krun_holder : W → String → Option (Bool × String)
  unfolding held_in
  krun_holder w name = held_in w name (k.state_dir_for w name)

  -- The launch record of a VM, as Start and Stop read it.
  record_in : W → Outcome String String → Outcome KrunGuestError KrunState
  record_in w (err e) = err (no_state_dir e)
  record_in w (ok dir) = elim (k.read_record w dir) [
    | ok r ↦ ok r
    | err e ↦ err (record_unreadable e)
  ]

  unfoldable pub launch_record : W → String → Outcome KrunGuestError KrunState
  unfolding record_in
  launch_record w name = record_in w (k.state_dir_for w name)

  abbrev pub KrunRun : Type 0 → Type 0
  KrunRun A = W × Outcome KrunGuestError A

  launched : String → W × Option String → KrunRun Bool
  launched name (w, none) = (w, ok false)
  launched name (w, some e) = (w, err (start_failed name e))

  start_recorded : String → W → Outcome KrunGuestError KrunState → KrunRun Bool
  unfolding launched
  start_recorded name w (err e) = (w, err e)
  start_recorded name w (ok r) =
      if k.container_running w name
      then (w, ok true)
      else if k.container_exists w name
      then launched name (k.container_start name w)
      else launched name (k.run_argv r.argv w)

  -- Whether the guest was running already.
  unfoldable pub krun_start : String → W → KrunRun Bool
  unfolding start_recorded
  krun_start name w = start_recorded name w (launch_record w name)

  polled : String → W × Bool → KrunRun (Unit {0})
  polled name (w, true) = (w, ok tt)
  polled name (w, false) = (w, err (still_running name))

  await_stop : String → W × Option String → KrunRun (Unit {0})
  unfolding polled
  await_stop name (w, some e) = (w, err (poweroff_failed name e))
  await_stop name (w, none) = polled name (k.poll_until (λ v. not (k.container_running v name)) w)

  stop_recorded : String → W → Outcome KrunGuestError KrunState → KrunRun (Unit {0})
  unfolding await_stop
  stop_recorded name w (err e) = (w, err e)
  stop_recorded name w (ok r) =
      if k.container_running w name
      then await_stop name (k.poweroff_over_ssh r.ssh_alias w)
      else (w, ok tt)

  -- `force` is not read: a guest is never signalled.
  unfoldable pub krun_stop : String → Bool → W → KrunRun (Unit {0})
  unfolding stop_recorded
  krun_stop name force w = stop_recorded name w (launch_record w name)

  abbrev pub Torn : Type 0
  Torn = W × (Bool × Option KrunGuestError)

  dir_removed : String → W × Option String → Torn
  dir_removed dir (w, none) = (w, (true, none))
  dir_removed dir (w, some e) = (w, (true, some (state_dir_not_removed dir e)))

  unfoldable pub drop_state : String → String → Bool → W × Option String → Torn
  unfolding dir_removed
  drop_state name dir delete_disk (w, some e) = (w, (false, some (container_not_removed name e)))
  drop_state name dir true (w, none) = dir_removed dir (k.remove_state_dir dir w)
  drop_state name dir false (w, none) = (k.remove_record dir w, (true, none))

  unfoldable pub destroy_in : String → String → Bool → W → Torn
  unfolding drop_state
  destroy_in name dir delete_disk w =
      if k.has_record w dir
      then drop_state name dir delete_disk
          (if k.container_exists w name then k.container_remove name w else (w, none))
      else (w, (false, none))

  unfoldable pub destroy_found : String → Bool → W → Outcome String String → Torn
  unfolding destroy_in
  destroy_found name delete_disk w (err e) = (w, (false, some (no_state_dir e)))
  destroy_found name delete_disk w (ok dir) = destroy_in name dir delete_disk w

  unfoldable pub krun_destroy : String → String → Bool → W → Torn
  unfolding destroy_found
  krun_destroy name String.[] delete_disk w =
      destroy_found name delete_disk w (k.state_dir_for w name)
  krun_destroy name dir delete_disk w = destroy_in name dir delete_disk w

  -- An error as the interface passes it on, by its message.
  module _ (message : KrunGuestError → String) where
    unfoldable pub as_backend_error : {A : Type 0} → KrunRun A → W × Outcome BackendError A
    as_backend_error (w, ok a) = (w, ok a)
    as_backend_error (w, err e) = (w, err (provider_failed (message e)))

    unfoldable pub torn_error : Option KrunGuestError → Option BackendError
    torn_error none = none
    torn_error (some e) = some (provider_failed (message e))

    unfoldable pub as_torn : Torn → W × (Bool × Option BackendError)
    unfolding torn_error
    as_torn (w, (torn, e)) = (w, (torn, torn_error e))

    -- `available` is the preflight's error, where it has one.
    unfoldable pub krun_provider : (W → Option String) → Provider W
    unfolding as_backend_error as_torn preflight_failed
    krun_provider preflight_error = record {
      word = "krun";
      auto_detectable = false;
      supports_pci_hostdev = false;
      available = λ w. preflight_failed (preflight_error w);
      holder = krun_holder;
      start = λ name w. as_backend_error (krun_start name w);
      stop = λ name force w. as_backend_error (krun_stop name force w);
      destroy = λ name dir delete_disk w. as_torn (krun_destroy name dir delete_disk w);
    }
