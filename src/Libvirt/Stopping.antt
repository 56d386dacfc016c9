-- ===== src/Libvirt/Stopping.antt =====
-- gracefulStopDomain: the domain is off behind it.
use plugin_vm.Base.{
  ◌≡◌, refl, ap, ◌∙◌, true, Option, String, if◌then◌else◌, ok, Bool-cases, inl, inr,
}
use plugin_vm.Libvirt.{
  DomainState, shutoff, is_shutoff, is_running, LibvirtSeams, graceful_stop_domain,
  graceful_stop_at, stop_from, forced_off, asked_to_stop,
}

module _ {W Dom Snap : Type 0} (l : LibvirtSeams W Dom Snap) where
  is_shutoff-eq : (st : DomainState) → is_shutoff st ≡ true → st ≡ shutoff
  is_shutoff-eq DomainState.shutoff h = refl
  is_shutoff-eq DomainState.nostate h = absurd (cc)
  is_shutoff-eq DomainState.running h = absurd (cc)
  is_shutoff-eq DomainState.blocked h = absurd (cc)
  is_shutoff-eq DomainState.paused h = absurd (cc)
  is_shutoff-eq DomainState.shutdown h = absurd (cc)
  is_shutoff-eq DomainState.crashed h = absurd (cc)
  is_shutoff-eq DomainState.pmsuspended h = absurd (cc)
  is_shutoff-eq (DomainState.unknown_state n) h = absurd (cc)

  -- What forced_off leaves: an unread state as it is, and else a domain that is off.
  forced_off-off :
      (dom : Dom) (w : W) (st : DomainState)
      → l.get_state w dom ≡ ok st
      → ((v v' : W) (r : Option String)
          → l.destroy_domain dom v ≡ (v', r)
          → l.get_state v' dom ≡ ok shutoff)
      → l.get_state (forced_off l dom w (ok st)) dom ≡ ok shutoff
  unfolding forced_off
  forced_off-off dom w st read kills = elim (Bool-cases (is_shutoff st)) [
    | inl off ↦ rw off (read ∙ ap ok (is_shutoff-eq st off))
    | inr on ↦ rw on (kills w (l.destroy_domain dom w).0 (l.destroy_domain dom w).1 refl)
  ]

  -- A graceful stop leaves the domain off, whatever its state was, whether the shutdown request is
  -- accepted or not, and whether the guest obeys it before the deadline or not: where the state can
  -- be read and a forced destroy turns the domain off.
  pub graceful_stop_domain-off :
      (dom : Dom) (w : W)
      → ((v : W) → (st : DomainState) × (l.get_state v dom ≡ ok st))
      → ((v v' : W) (r : Option String)
          → l.destroy_domain dom v ≡ (v', r)
          → l.get_state v' dom ≡ ok shutoff)
      → l.get_state (graceful_stop_domain l dom w) dom ≡ ok shutoff
  unfolding graceful_stop_domain graceful_stop_at stop_from
  graceful_stop_domain-off dom w can_read kills =
      let (st, read) = can_read w in
      rw read (elim (Bool-cases (is_shutoff st)) [
        | inl off ↦ rw off (read ∙ ap ok (is_shutoff-eq st off))
        | inr on ↦
            rw on
              (from (if is_running st then asked_to_stop l dom (l.shutdown_domain dom w) else w))
      ])
    where
      from : (v : W) → l.get_state (forced_off l dom v (l.get_state v dom)) dom ≡ ok shutoff
      from v = let (st, read) = can_read v in rw read (forced_off-off dom v st read kills)
