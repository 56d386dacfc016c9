-- ===== src/Tests/Guests.antt =====
-- Two guests side by side: a qemu process in "/vm/arch", and no krun guest; the state is whether the
-- process runs.
use plugin_vm.Base.{
  ◌≡◌, refl, sym, ◌⊎◌, inr, Bool, true, false, none, some, List, [], ◌∷◌, String, str_eq, ok, err,
}
use mathlib.Core.Path.{subst}
use mathlib.Core.Option.{some-injective}
use plugin_vm.Backend.{Provider, lookup}
use plugin_vm.Backend.Interface.{IsStopping}
use plugin_vm.Backend.Stopping.{
  IsPolling, terminated, krun_provider-IsStopping, qemu_provider-not_IsStopping,
}
use plugin_vm.Backend.KrunGuest.{KrunGuestError, KrunSeams, krun_holder, krun_provider}
use plugin_vm.Backend.LibvirtGuest.{LibvirtGuestError, libvirt_provider}
use plugin_vm.Libvirt.{LibvirtSeams}
use plugin_vm.Base.Int.{pos}
use plugin_vm.Backend.QemuGuest.{
  QemuSeams, qemu_holder, qemu_stop, qemu_state_dir_marked, qemu_provider,
}
use plugin_vm.Lifecycle.{destroy_vm_domain_on_backend}
use plugin_vm.Lifecycle.Sparing.{destroy_vm_domain_on_backend-spares}

-- Only the directory of "arch" has a marker; the monitor does not answer, and the guest takes its
-- time behind a SIGTERM.
abbrev qemu_seams : QemuSeams Bool
qemu_seams = record {
  vm_dir = λ w. ok "/vm";
  state_dir = λ dir name. name;
  has_file = λ w dir file. str_eq dir "arch";
  qemu_alive = λ w dir. w;
  binary_on_path = λ w. none;
  start_from_state_dir = λ name dir w. (true, none);
  force_shutdown = λ dir w. (w, some "no monitor");
  graceful_shutdown = λ dir w. (w, some "no monitor");
  kill_by_pid = λ dir w. false;
  read_pid = λ w dir. some "4711";
  sigterm = λ pid w. w;
  remove_all = λ dir w. (w, none);
}

-- A libvirt host without domains.
abbrev libvirt_seams : LibvirtSeams Bool (Unit {0}) (Unit {0})
libvirt_seams = record {
  snapshots = record {
    chmod = λ path mode w. (w, none);
    connect = λ w. none;
    lookup_domain = λ w name. err "no domain";
    domain_running = λ w dom. err "no domain";
    domain_disks = λ w dom. err "no domain";
    snapshot_create_xml = λ dom desc flags w. (w, some "no domain");
    snapshot_lookup = λ w dom name. err "no snapshot";
    snapshot_delete = λ snap w. (w, none);
    revert_to_snapshot = λ snap w. (w, none);
    ping_agent = λ w dom. none;
  };
  get_state = λ w dom. err "no domain";
  domain_xml = λ w dom. err "no domain";
  shutdown_domain = λ dom w. (w, some "no domain");
  destroy_domain = λ dom w. (w, some "no domain");
  create_domain = λ dom w. (w, some "no domain");
  define_domain = λ xml w. (w, err "denied");
  undefine_domain = λ dom w. (w, some "no domain");
  snapshot_num = λ w dom. ok (pos 0);
  snapshot_names = λ w dom n. ok [];
  parent_dir = λ path. path;
  mkdir_all = λ path w. (w, none);
  poll_until = λ test w. (w, test w);
}

abbrev libvirt_message : LibvirtGuestError → String
libvirt_message e = "libvirt"

abbrev krun_seams : KrunSeams Bool
krun_seams = record {
  state_dir_for = λ w name. ok name;
  has_record = λ w dir. false;
  read_record = λ w dir. err "no record";
  container_running = λ w name. false;
  container_exists = λ w name. false;
  container_start = λ name w. (w, none);
  container_remove = λ name w. (w, none);
  run_argv = λ argv w. (w, none);
  poweroff_over_ssh = λ alias w. (w, none);
  remove_record = λ dir w. w;
  remove_state_dir = λ dir w. (w, none);
  poll_until = λ test w. (w, test w);
}

abbrev message : KrunGuestError → String
message e = "krun"

abbrev registry : List (String × Provider Bool)
registry =
    ("libvirt", libvirt_provider libvirt_seams (λ name w. (w, none)) libvirt_message (λ w. none))
    ∷ ("qemu", qemu_provider qemu_seams)
    ∷ ("krun", krun_provider krun_seams message (λ w. none))
    ∷ []

-- A graceful stop without a monitor sends a SIGTERM, and reports no error while the guest runs on.
silent_stop : qemu_stop qemu_seams "arch" false true ≡ (true, ok tt)
unfolding qemu_stop qemu_holder qemu_state_dir_marked
silent_stop = refl

abbrev krun : Provider Bool
krun = krun_provider krun_seams message (λ w. none)

not_held :
    (p : Provider Bool)
    → lookup "krun" registry ≡ some p
    → ((p ≡ qemu_provider qemu_seams) ⊎ (p ≡ krun)) × (p.holder true "arch" ≡ none)
unfolding lookup krun_provider krun_holder
not_held p found =
    let same : krun ≡ p = some-injective _ _ found in
    (inr (sym same), subst (λ r. r.holder true "arch" ≡ none) same refl)

destroy_vm_domain_on_backend-spares_example :
    ((destroy_vm_domain_on_backend registry [] "arch" "krun" "" true true).0 ≡ true)
    × ((destroy_vm_domain_on_backend registry [] "arch" "krun" "" true true).1.0 ≡ false)
destroy_vm_domain_on_backend-spares_example =
    destroy_vm_domain_on_backend-spares registry [] qemu_seams krun_seams message (λ w. none) "arch"
      "krun" true true not_held

-- The qemu process of "arch" runs on behind that stop.
qemu_provider-not_IsStopping_example : ¬ IsStopping (qemu_provider qemu_seams)
qemu_provider-not_IsStopping_example =
    qemu_provider-not_IsStopping qemu_seams "arch" "arch" true true running
      (terminated refl refl refl) running
  where
    running : qemu_holder qemu_seams true "arch" ≡ some (true, "arch")
    running = unfold qemu_holder qemu_state_dir_marked in refl

polls : IsPolling krun_seams.poll_until
polls test w w' h = let e : w ≡ w' = cc in let t : test w ≡ true = cc in rw (← e) t

krun_provider-IsStopping_example : IsStopping (krun_provider krun_seams message (λ w. none))
krun_provider-IsStopping_example = krun_provider-IsStopping krun_seams message (λ w. none) polls
