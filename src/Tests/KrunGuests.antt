-- ===== src/Tests/KrunGuests.antt =====
-- A krun guest whose container runs, with the state whether it does.
use plugin_vm.Base.{◌≡◌, refl, Bool, true, false, none, [], ◌∷◌, ok}
use plugin_vm.Backend.KrunGuest.{KrunState, KrunSeams, launch_record, krun_start, krun_stop}

abbrev recorded : KrunState
recorded = record {
  name = "arch";
  engine = "podman";
  image = "arch:latest";
  ssh_alias = "charly-arch";
  systemd = true;
  argv = "podman" ∷ "run" ∷ [];
}

-- A poweroff stops the guest at once; a poll that is not met times out.
abbrev seams : KrunSeams Bool
seams = record {
  state_dir_for = λ w name. ok "/vm/arch";
  has_record = λ w dir. true;
  read_record = λ w dir. ok recorded;
  container_running = λ w name. w;
  container_exists = λ w name. true;
  container_start = λ name w. (true, none);
  container_remove = λ name w. (false, none);
  run_argv = λ argv w. (true, none);
  poweroff_over_ssh = λ alias w. (false, none);
  remove_record = λ dir w. w;
  remove_state_dir = λ dir w. (w, none);
  poll_until = λ test w. (w, test w);
}

-- A second start finds the guest running, and a stop powers it off over SSH.
started_twice : krun_start seams "arch" true ≡ (true, ok true)
unfolding krun_start launch_record
started_twice = refl

stopped : krun_stop seams "arch" false true ≡ (false, ok tt)
unfolding krun_stop launch_record
stopped = refl
