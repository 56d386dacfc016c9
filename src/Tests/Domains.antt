-- ===== src/Tests/Domains.antt =====
-- A libvirt host with one domain, whose state is the domain's state and the mode of its disk.
use plugin_vm.Base.{
  ℕ, zero, suc, sym, ◌∙◌, ◌≡◌, ◌≢◌, refl, Bool, true, false, Option, none, some, List, [], ◌∷◌,
  String, if◌then◌else◌, Outcome, ok, err,
}
use mathlib.Core.Path.{subst}
use plugin_vm.Base.Int.{pos}
use plugin_vm.Base.Text.{Text, codes}
use plugin_vm.Backend.{Provider, vm_backend_holder, lookup}
use plugin_vm.Backend.Interface.{IsStopping}
use plugin_vm.Backend.LibvirtGuest.{
  LibvirtGuestError, libvirt_holder, libvirt_stop, libvirt_destroy, libvirt_provider,
}
use plugin_vm.Backend.LibvirtGuest.Unread.{Cleaned, libvirt_stop-unread, libvirt_destroy-gone}
use plugin_vm.Backend.Stopping.{IsPolling, libvirt_provider-IsStopping}
use plugin_vm.Snapshot.{SnapshotSeams}
use plugin_vm.Snapshot.External.{first_disk_source_file}
use plugin_vm.Lifecycle.{vm_name, domain_or, stop_vm_domain, stop_vm}
use plugin_vm.Lifecycle.Stops.{stop_vm-stops}
use plugin_vm.Libvirt.{
  DomainState, running, shutoff, LibvirtSeams, graceful_stop_domain, off_at, start_domain,
  is_snapshot_disk, active_disk_path,
}
use plugin_vm.Libvirt.Sockets.{extract_graphics_socket_paths, extract_channel_socket_paths}
use plugin_vm.Libvirt.Ops.{
  domain_state_op, stop_op, destroy_op, start_on, start_reply, reads_running,
}
use plugin_vm.Libvirt.Stopping.{graceful_stop_domain-off}
use plugin_vm.Libvirt.Starting.{start_on-shares}

abbrev Host : Type 0
Host = DomainState × ℕ

abbrev disk : String
disk = "/s/snapshots/g/disk.qcow2"

abbrev snapshot_calls : SnapshotSeams Host (Unit {0}) (Unit {0})
snapshot_calls = record {
  chmod = λ path mode w. ((w.0, mode), none);
  connect = λ w. none;
  lookup_domain = λ w name. ok tt;
  domain_running = λ w dom. ok true;
  domain_disks =
      λ w dom. ok (record { device = "disk"; source_file = disk; target_dev = "vda" } ∷ []);
  snapshot_create_xml = λ dom desc flags w. (w, none);
  snapshot_lookup = λ w dom name. ok tt;
  snapshot_delete = λ snap w. (w, none);
  revert_to_snapshot = λ snap w. (w, none);
  ping_agent = λ w dom. none;
}

-- The poll changes nothing; the guest obeys the shutdown request at once if `obeys` says so.
abbrev host : Bool → LibvirtSeams Host (Unit {0}) (Unit {0})
host obeys = record {
  snapshots = snapshot_calls;
  get_state = λ w dom. ok w.0;
  domain_xml = λ w dom. ok [];
  shutdown_domain = λ dom w. ((if obeys then shutoff else w.0, w.1), none);
  destroy_domain = λ dom w. ((shutoff, w.1), none);
  create_domain = λ dom w. ((running, w.1), none);
  define_domain = λ xml w. (w, ok tt);
  undefine_domain = λ dom w. (w, none);
  snapshot_num = λ w dom. ok (pos 0);
  snapshot_names = λ w dom n. ok [];
  parent_dir = λ path. path;
  mkdir_all = λ path w. (w, none);
  poll_until = λ test w. (w, test w);
}

abbrev no_dirs : String → Host → Host × Option String
no_dirs name w = (w, none)

polls : (obeys : Bool) → IsPolling (host obeys).poll_until
polls obeys test w w' h = let e : Path Host w w' = cc in let t : test w ≡ true = cc in rw (← e) t

abbrev message : LibvirtGuestError → String
message e = "failed"

abbrev no_error : Host → Option String
no_error w = none

abbrev provider : Provider Host
provider = libvirt_provider (host true) no_dirs message no_error

-- A host on which an undefined domain, here one that is off, is not found any more.
abbrev found_on : DomainState → Outcome String (Unit {0})
found_on running = ok tt
found_on _ = err "no domain"

abbrev gone : LibvirtSeams Host (Unit {0}) (Unit {0})
gone = record (host true) {
  snapshots = record snapshot_calls { lookup_domain = λ w name. found_on w.0 };
}

-- A host on which a mode other than 0 means that the state cannot be read.
abbrev read_at : Host → Outcome String DomainState
read_at (st, zero) = ok st
read_at (st, suc n) = err "broken pipe"

abbrev deaf : LibvirtSeams Host (Unit {0}) (Unit {0})
deaf = record (host false) {
  get_state = λ w dom. read_at w;
  shutdown_domain = λ dom w. ((w.0, 1), none);
}

abbrev listeners : Text
listeners = codes "<listen type='none'/><listen type='socket' socket='/run/s'/>"

-- A guest that does not obey is turned off by force.
graceful_stop_domain-off_example :
    (host false).get_state (graceful_stop_domain (host false) tt (running, 0)) tt ≡ ok shutoff
graceful_stop_domain-off_example =
    graceful_stop_domain-off (host false) tt (running, 0) (λ v. (v.0, refl)) kills
  where
    kills :
        (v v' : Host) (r : Option String)
        → (host false).destroy_domain tt v ≡ (v', r)
        → (host false).get_state v' tt ≡ ok shutoff
    kills v v' r h = cc

start_on-shares_example :
    (w₁ : Host) × (w₁.1 ≡ 0o644)
    × ((start_on (host true) tt (shutoff, 0o444)).1
        ≡ (start_reply (host true) (start_domain (host true) tt w₁)).1)
    × ((start_on (host true) tt (shutoff, 0o444)).0.1 ≡ 0o444)
start_on-shares_example =
    start_on-shares (host true) tt (shutoff, 0o444) (λ w path. w.1) of_snapshot
      (unfold reads_running in refl) (λ path mode v. ((v.0, mode), refl, refl))
  where
    of_snapshot : is_snapshot_disk (active_disk_path (host true) (shutoff, 0o444) tt) ≡ true
    of_snapshot = unfold is_snapshot_disk active_disk_path first_disk_source_file in refl

libvirt_provider-IsStopping_example : IsStopping provider
libvirt_provider-IsStopping_example =
    libvirt_provider-IsStopping (host true) no_dirs message no_error (polls true)

-- Stopped over a registry of this provider alone.
abbrev registry : List (String × Provider Host)
registry = ("libvirt", provider) ∷ []

computed :
    vm_backend_holder registry ("libvirt" ∷ []) (vm_name "arch" "") (running, 0)
    ≡ some (provider, true, "")
unfolding vm_backend_holder lookup libvirt_holder domain_state_op libvirt_provider
computed = refl

held :
    (p : Provider Host) (up : Bool) (dir : String)
    → vm_backend_holder registry ("libvirt" ∷ []) (vm_name "arch" "") (running, 0)
      ≡ some (p, up, dir)
    → IsStopping p
held p up dir h =
    let e : provider ≡ p = cc (sym computed ∙ h) in
    subst IsStopping e
      (libvirt_provider-IsStopping (host true) no_dirs message no_error (polls true))

stopped : stop_vm registry ("libvirt" ∷ []) "arch" "" "" false (running, 0) ≡ ((shutoff, 0), ok tt)
unfolding stop_vm stop_vm_domain vm_backend_holder lookup libvirt_holder libvirt_stop
    libvirt_provider domain_state_op stop_op
stopped = refl

stop_vm-stops_example :
    (p : Provider Host) × (up : Bool) × (dir : String) × (vm_backend_holder registry
        ("libvirt" ∷ [])
        (vm_name "arch" "")
        (running, 0)
      ≡ some (p, up, dir))
    × ((dir' : String) → p.holder (shutoff, 0) (vm_name "arch" "") ≢ some (true, dir'))
unfolding domain_or
stop_vm-stops_example =
    stop_vm-stops registry ("libvirt" ∷ []) "arch" "" "" false (running, 0) (shutoff, 0) held
      stopped

destroyed :
    libvirt_destroy gone no_dirs "charly-arch" "" true (running, 0) ≡ ((shutoff, 0), (true, none))
unfolding libvirt_destroy destroy_op domain_state_op
destroyed = refl

libvirt_destroy-gone_example :
    ((destroy_op gone "charly-arch" (running, 0)).1.error ≡ none)
    × ((domain_state_op gone (destroy_op gone "charly-arch" (running, 0)).0 "charly-arch").exists
        ≡ false)
    × Cleaned gone no_dirs "charly-arch" true
        (destroy_op gone "charly-arch" (running, 0)).0
        (shutoff, 0)
libvirt_destroy-gone_example =
    libvirt_destroy-gone gone no_dirs "charly-arch" "" true (running, 0) (shutoff, 0) destroyed

-- The state cannot be read once the shutdown is asked for.
libvirt_stop-unread_example :
    (libvirt_stop deaf no_dirs "charly-arch" false (running, 0) ≡ ((running, 1), ok tt))
    × (off_at deaf tt (running, 1) ≡ false)
libvirt_stop-unread_example =
    libvirt_stop-unread deaf no_dirs "charly-arch" "broken pipe" tt (running, 0) (running, 1)
      (λ v. refl) (λ v. refl) refl refl refl (λ test v h. rw h)

socket_path : extract_graphics_socket_paths listeners ≡ codes "/run/s" ∷ []
unfolding extract_graphics_socket_paths
socket_path = refl

-- The socket of an agent's channel.
channel_path :
    extract_channel_socket_paths
      (codes "<channel type='unix'><source mode='bind' path='/q/a'/></channel>")
    ≡ codes "/q/a" ∷ []
unfolding extract_channel_socket_paths
channel_path = refl
