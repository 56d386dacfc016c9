-- ===== src/Backend/LibvirtGuest.antt =====
-- candy/plugin-vm/vm_backend_libvirt.go: the life of a libvirt domain, through the operations of the
-- plugin in the same process, which always reply.
pub mod Unread
use plugin_vm.Base.{
  Bool, true, false, not, Option, none, some, String, if◌then◌else◌, Outcome, ok, err,
}
use plugin_vm.Backend.{BackendError, provider_failed, Provider}
use plugin_vm.Libvirt.{LibvirtSeams}
use plugin_vm.Libvirt.Ops.{OpError, OpReply, domain_state_op, start_op, stop_op, destroy_op}

pub data LibvirtGuestError : Type 0 where
  start_failed stop_failed destroy_failed : String → OpError → LibvirtGuestError
  still_running still_defined : String → LibvirtGuestError
  state_dir_not_removed : String → String → LibvirtGuestError

session_error : Option String → Option BackendError
session_error none = none
session_error (some e) = some (provider_failed e)

-- `remove_vm_state_dir` is removeVmStateDir.
module _ {W Dom Snap : Type 0} (l : LibvirtSeams W Dom Snap)
    (remove_vm_state_dir : String → W → W × Option String) where
  abbrev pub GuestRun : Type 0 → Type 0
  GuestRun A = W × Outcome LibvirtGuestError A

  abbrev pub held_by : OpReply → Option (Bool × String)
  held_by r = if r.exists then some (r.running, "") else none

  unfoldable pub libvirt_holder : W → String → Option (Bool × String)
  unfolding domain_state_op
  libvirt_holder w name = held_by (domain_state_op l w name)

  -- Whether the operation says that the domain runs.
  unfoldable pub says_running : W → String → Bool
  unfolding domain_state_op
  says_running w name = (domain_state_op l w name).running

  start_replied : String → OpReply → Option OpError → Outcome LibvirtGuestError Bool
  start_replied name r (some e) = err (start_failed name e)
  start_replied name r none = ok r.already_running

  after_start : String → W × OpReply → GuestRun Bool
  unfolding start_replied
  after_start name (w, r) = (w, start_replied name r r.error)

  unfoldable pub libvirt_start : String → W → GuestRun Bool
  unfolding after_start start_op
  libvirt_start name w = after_start name (start_op l name w)

  unfoldable pub polled : String → W × Bool → GuestRun (Unit {0})
  polled name (w, true) = (w, ok tt)
  polled name (w, false) = (w, err (still_running name))

  -- The stop of a running guest is asked for, so the domain is polled until it does not run.
  unfoldable pub stop_replied : String → W → Option OpError → GuestRun (Unit {0})
  unfolding polled says_running
  stop_replied name w (some e) = (w, err (stop_failed name e))
  stop_replied name w none = polled name (l.poll_until (λ v. not (says_running v name)) w)

  unfoldable pub after_stop : String → W × OpReply → GuestRun (Unit {0})
  unfolding stop_replied
  after_stop name (w, r) = stop_replied name w r.error

  -- `_, running, _ := Holder(name)`
  abbrev running_of : Option (Bool × String) → Bool
  running_of none = false
  running_of (some (running, _)) = running

  unfoldable pub libvirt_stop : String → Bool → W → GuestRun (Unit {0})
  unfolding after_stop libvirt_holder
  libvirt_stop name force w =
      if running_of (libvirt_holder w name)
      then after_stop name (stop_op l name force w)
      else (w, ok tt)

  abbrev pub TornDomain : Type 0
  TornDomain = W × (Bool × Option LibvirtGuestError)

  unfoldable pub dir_removed : String → W × Option String → TornDomain
  dir_removed name (w, none) = (w, (true, none))
  dir_removed name (w, some e) = (w, (true, some (state_dir_not_removed name e)))

  -- The destroy is believed only if the domain is gone; then the state directory goes with the disk.
  unfoldable pub destroy_replied : String → Bool → W → Option OpError → TornDomain
  unfolding dir_removed
  destroy_replied name delete_disk w (some e) = (w, (false, some (destroy_failed name e)))
  destroy_replied name delete_disk w none =
      if (domain_state_op l w name).exists
      then (w, (false, some (still_defined name)))
      else if delete_disk
      then dir_removed name (remove_vm_state_dir name w)
      else (w, (true, none))

  unfoldable pub after_destroy : String → Bool → W × OpReply → TornDomain
  unfolding destroy_replied
  after_destroy name delete_disk (w, r) = destroy_replied name delete_disk w r.error

  unfoldable pub libvirt_destroy : String → String → Bool → W → TornDomain
  unfolding after_destroy
  libvirt_destroy name dir delete_disk w = after_destroy name delete_disk (destroy_op l name w)

  -- An error as the interface passes it on, by its message.
  module _ (message : LibvirtGuestError → String) where
    unfoldable pub as_backend_error : {A : Type 0} → GuestRun A → W × Outcome BackendError A
    as_backend_error (w, ok a) = (w, ok a)
    as_backend_error (w, err e) = (w, err (provider_failed (message e)))

    torn_error : Option LibvirtGuestError → Option BackendError
    torn_error none = none
    torn_error (some e) = some (provider_failed (message e))

    unfoldable pub as_torn : TornDomain → W × (Bool × Option BackendError)
    unfolding torn_error
    as_torn (w, (torn, e)) = (w, (torn, torn_error e))

    unfoldable pub libvirt_provider : (W → Option String) → Provider W
    unfolding as_backend_error as_torn session_error libvirt_holder libvirt_start libvirt_stop
        libvirt_destroy
    libvirt_provider socket_error = record {
      word = "libvirt";
      auto_detectable = true;
      supports_pci_hostdev = true;
      available = λ w. session_error (socket_error w);
      holder = libvirt_holder;
      start = λ name w. as_backend_error (libvirt_start name w);
      stop = λ name force w. as_backend_error (libvirt_stop name force w);
      destroy = λ name dir delete_disk w. as_torn (libvirt_destroy name dir delete_disk w);
    }
