-- ===== src/Backend/Stopping.antt =====
-- The promise of a stop, which the commands rely on: who keeps it, and what it gives.
use plugin_vm.Base.{
  ◌≡◌, ◌≢◌, refl, Bool, true, false, not, Option, none, some, String, Outcome, ok, err, Bool-cases,
  inl, inr,
}
use plugin_vm.Backend.Interface.{IsStopping}
use plugin_vm.Backend.LibvirtGuest.{
  LibvirtGuestError, libvirt_holder, says_running, polled, stop_replied, after_stop, libvirt_stop,
  as_backend_error, libvirt_provider,
}
use plugin_vm.Backend.KrunGuest.{
  KrunGuestError, KrunSeams, held_in, krun_holder, krun_stop, krun_provider,
  as_backend_error as krun_as_backend_error,
}
use plugin_vm.Backend.KrunGuest.Stop.{krun_stop-not_running}
use plugin_vm.Backend.QemuGuest.{QemuSeams, qemu_holder, qemu_stop, stop_at, asked, qemu_provider}
use plugin_vm.Libvirt.{LibvirtSeams}
use plugin_vm.Libvirt.Ops.{
  OpError, OpReply, domain_state_op, stop_op, looked_up_state, connected_state,
  make_domain_state_reply,
}

-- A wait that says that its test passed ends in a state that passes it.
abbrev pub IsPolling : {W : Type 0} → ((W → Bool) → W → W × Bool) → Type 0
IsPolling {W} poll =
    (test : W → Bool) (w w' : W) → Path (W × Bool) (poll test w) (w', true) → test w' ≡ true

module _ {W Dom Snap : Type 0} (l : LibvirtSeams W Dom Snap)
    (remove_vm_state_dir : String → W → W × Option String) where
  polled-inv :
      (name : String) (r : W × Bool) {w' : W}
      → polled l remove_vm_state_dir name r ≡ (w', ok tt)
      → r ≡ (w', true)
  unfolding polled
  polled-inv name (w, true) h = cc
  polled-inv name (w, false) h = absurd (cc)

  not-running :
      (name dir : String) (w : W)
      → says_running l remove_vm_state_dir w name ≡ false
      → libvirt_holder l remove_vm_state_dir w name ≢ some (true, dir)
  unfolding says_running libvirt_holder
  not-running name dir w idle h = elim (Bool-cases (domain_state_op l w name).exists) [
    | inl there ↦
        let e : Path (Option (Bool × String)) (some ((domain_state_op l w name).running, ""))
            (some (true, dir)) =
          rw there at h in
        cc
    | inr gone ↦ let e : Path (Option (Bool × String)) none (some (true, dir)) = rw gone at h in cc
  ]

  gone-idle :
      (w : W) (name : String)
      → (domain_state_op l w name).exists ≡ false
      → (domain_state_op l w name).running ≡ false
  unfolding domain_state_op looked_up_state connected_state make_domain_state_reply
  gone-idle w name = at_connect (l.connect w)
    where
      at_domain :
          (found : Outcome String Dom)
          → (looked_up_state l w found).exists ≡ false
          → (looked_up_state l w found).running ≡ false
      at_domain (err e) h = refl
      at_domain (ok dom) h = absurd (cc)

      at_connect :
          (e : Option String)
          → (connected_state l w name e).exists ≡ false
          → (connected_state l w name e).running ≡ false
      at_connect (some e) h = refl
      at_connect none h = at_domain (l.lookup_domain w name) h

  not-true : (b : Bool) → not b ≡ true → b ≡ false
  not-true true h = cc
  not-true false h = refl

  replied-read :
      IsPolling l.poll_until
      → (name : String) (r : W × OpReply) (w' : W)
      → after_stop l remove_vm_state_dir name r ≡ (w', ok tt)
      → says_running l remove_vm_state_dir w' name ≡ false
  unfolding after_stop stop_replied
  replied-read polls name (w, r) w' h = go r.error h
    where
      go :
          (e : Option OpError)
          → stop_replied l remove_vm_state_dir name w e ≡ (w', ok tt)
          → says_running l remove_vm_state_dir w' name ≡ false
      go (some e) h = absurd (cc)
      go none h = not-true (says_running l remove_vm_state_dir w' name) (
          polls (λ v. not (says_running l remove_vm_state_dir v name)) w w'
            (polled-inv name (l.poll_until (λ v. not (says_running l remove_vm_state_dir v name)) w)
              h))

  -- The last poll of a stop that succeeds read the domain as not running.
  stop-read :
      IsPolling l.poll_until
      → (name : String) (force : Bool) (w w' : W)
      → libvirt_stop l remove_vm_state_dir name force w ≡ (w', ok tt)
      → says_running l remove_vm_state_dir w' name ≡ false
  unfolding libvirt_stop libvirt_holder says_running
  stop-read polls name force w w' h = elim (Bool-cases (domain_state_op l w name).exists) [
    | inr gone ↦ let e : w ≡ w' = cc (rw gone at h) in rw (← e) (gone-idle w name gone)
    | inl there ↦ elim (Bool-cases (domain_state_op l w name).running) [
      | inr idle ↦ let e : w ≡ w' = cc (rw (there, idle) at h) in rw (← e) idle
      | inl up ↦ replied-read polls name (stop_op l name force w) w' (rw (there, up) at h)
    ]
  ]

  passed-on :
      {A : Type 0} (message : LibvirtGuestError → String) (r : W × Outcome LibvirtGuestError A)
      (w' : W) (a : A)
      → as_backend_error l remove_vm_state_dir message r ≡ (w', ok a)
      → r ≡ (w', ok a)
  unfolding as_backend_error
  passed-on message (w, ok b) w' a h = cc
  passed-on message (w, err e) w' a h = absurd (cc)

  -- The libvirt provider keeps the promise of a stop, if a poll that passes ends in a state in which
  -- its test holds.
  pub libvirt_provider-IsStopping :
      (message : LibvirtGuestError → String) (socket_error : W → Option String)
      → IsPolling l.poll_until
      → IsStopping (libvirt_provider l remove_vm_state_dir message socket_error)
  unfolding libvirt_provider
  libvirt_provider-IsStopping message socket_error polls name dir force w w' h =
      not-running name dir w' (
        stop-read polls name force w w'
          (passed-on message (libvirt_stop l remove_vm_state_dir name force w) w' tt h))

module _ {W : Type 0} (k : KrunSeams W) where
  running-held :
      (name dir : String) (w : W)
      → k.container_running w name ≡ false
      → krun_holder k w name ≢ some (true, dir)
  unfolding krun_holder held_in
  running-held name dir w down = at_dir (k.state_dir_for w name)
    where
      at_dir : (found : Outcome String String) → held_in k w name found ≢ some (true, dir)
      at_dir (err e) h = cc
      at_dir (ok d) h = elim (Bool-cases (k.has_record w d)) [
        | inl there ↦
            let e : Path (Option (Bool × String)) (some (k.container_running w name, d))
                (some (true, dir)) =
              rw there at h in
            cc
        | inr gone ↦
            let e : Path (Option (Bool × String)) none (some (true, dir)) = rw gone at h in cc
      ]

  krun_passed-on :
      (message : KrunGuestError → String) (r : W × Outcome KrunGuestError (Unit {0})) (w' : W)
      → krun_as_backend_error k message r ≡ (w', ok tt)
      → r ≡ (w', ok tt)
  unfolding krun_as_backend_error
  krun_passed-on message (w, ok b) w' h = cc
  krun_passed-on message (w, err e) w' h = absurd (cc)

  -- The krun provider keeps the promise of a stop, if a poll that passes ends in a state in which its
  -- test holds.
  pub krun_provider-IsStopping :
      (message : KrunGuestError → String) (preflight_error : W → Option String)
      → IsPolling k.poll_until
      → IsStopping (krun_provider k message preflight_error)
  unfolding krun_provider
  krun_provider-IsStopping message preflight_error polls name dir force w w' h =
      running-held name dir w' (
        krun_stop-not_running k polls name force w w'
          (krun_passed-on message (krun_stop k name force w) w' h))

module _ {W : Type 0} (q : QemuSeams W) where
  -- What a stop without force asks for, and no more: a shutdown over the monitor, or else a SIGTERM of
  -- the process by its pid.
  pub data IsAsked (dir : String) (w w' : W) : Type 0 where
    powered_down : q.graceful_shutdown dir w ≡ (w', none) → IsAsked dir w w'
    terminated :
        {w₁ : W} {e pid : String}
        → q.graceful_shutdown dir w ≡ (w₁, some e)
        → q.read_pid w₁ dir ≡ some pid
        → q.sigterm pid w₁ ≡ w'
        → IsAsked dir w w'

  asked-IsAsked :
      (dir : String) (w w' : W) → IsAsked dir w w' → asked q dir (q.graceful_shutdown dir w) ≡ w'
  unfolding asked
  asked-IsAsked dir w w' (powered_down e) = rw e refl
  asked-IsAsked dir w w' (terminated refused has_pid sent) = rw (refused, has_pid) sent

  -- The qemu provider does not keep the promise of a stop, since it does not wait for the guest: where
  -- the guest still runs right behind the shutdown or the SIGTERM that it is asked to end by, the stop
  -- has reported success.
  pub qemu_provider-not_IsStopping :
      (name dir : String) (w w' : W)
      → qemu_holder q w name ≡ some (true, dir)
      → IsAsked dir w w'
      → qemu_holder q w' name ≡ some (true, dir)
      → ¬ IsStopping (qemu_provider q)
  unfolding qemu_provider qemu_stop stop_at
  qemu_provider-not_IsStopping name dir w w' held requested runs keeps =
      keeps name dir false w w' (rw (held, asked-IsAsked dir w w' requested) refl) runs
