-- ===== src/Snapshot/Consistent.antt =====
-- consistentCreateOpts and createConsistentSnapshot.
use plugin_vm.Base.{
  Bool, true, false, Option, none, some, String, str_eq, if◌then◌else◌, Outcome, ok, err,
}
use plugin_vm.Base.Print.{◌<>◌}
use plugin_vm.Snapshot.{
  vm_name_required, snapshot_name_required, internal_needs_stopped, agent_unreachable,
  SnapshotCreateOpts, SnapshotEntry, SnapshotSeams,
}
use plugin_vm.Snapshot.External.{Run}

abbrev pub mode_or_external : String → String
mode_or_external mode = if str_eq mode "" then "external" else mode

unfoldable pub consistent_create_opts : String → String → String → String → SnapshotCreateOpts
consistent_create_opts vm name mode desc = record {
  vm_name = vm;
  snap_name = name;
  mode = mode_or_external mode;
  description = desc;
  quiesce = true;
}

module _ {W Dom Snap : Type 0} (s : SnapshotSeams W Dom Snap) where
  -- The domain, and whether it runs; a failed connection or lookup is no domain, and a failed read
  -- of the state is not running.
  unfoldable pub running_or_not : Outcome String Bool → Bool
  running_or_not (ok b) = b
  running_or_not (err _) = false

  unfoldable pub found_domain : W → Outcome String Dom → Option (Dom × Bool)
  unfolding running_or_not
  found_domain w (err _) = none
  found_domain w (ok dom) = some (dom, running_or_not (s.domain_running w dom))

  unfoldable pub domain_now : W → String → Option (Dom × Bool)
  unfolding found_domain
  domain_now w vm = elim (s.connect w) [
    | some e ↦ none
    | none ↦ found_domain w (s.lookup_domain w ("charly-" <> vm))
  ]

  -- vmshared.CreateSnapshot, under a value of the flag `strictQuiesce`.
  module _ (create_snapshot : Bool → SnapshotCreateOpts → W → Run s SnapshotEntry) where
    unfoldable pub pinged : SnapshotCreateOpts → W → Option String → Run s SnapshotEntry
    pinged opts w (some e) = (w, err (agent_unreachable e))
    pinged opts w none = create_snapshot true opts w

    unfoldable pub plain : SnapshotCreateOpts → W → Run s SnapshotEntry
    plain opts w = create_snapshot false (record opts { quiesce = false }) w

    unfoldable pub by_state :
        SnapshotCreateOpts → String → W → Option (Dom × Bool) → Run s SnapshotEntry
    unfolding pinged plain
    by_state opts mode w (some (dom, true)) =
        if str_eq mode "internal"
        then (w, err internal_needs_stopped)
        else if str_eq mode "external"
        then pinged opts w (s.ping_agent w dom)
        else plain opts w
    by_state opts mode w _ = plain opts w

    unfoldable pub create_consistent_snapshot : SnapshotCreateOpts → W → Run s SnapshotEntry
    unfolding by_state
    create_consistent_snapshot opts w =
        if str_eq opts.vm_name ""
        then (w, err vm_name_required)
        else if str_eq opts.snap_name ""
        then (w, err snapshot_name_required)
        else by_state opts (mode_or_external opts.mode) w (domain_now w opts.vm_name)
