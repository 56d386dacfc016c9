-- ===== src/Libvirt/Starting.antt =====
-- The start operation on a domain whose disk is a snapshot's.
use plugin_vm.Base.{ℕ, ◌≡◌, refl, ap, ◌∙◌, true, false, none, String, Outcome, ok, err}
use plugin_vm.Snapshot.{SnapshotError}
use plugin_vm.Snapshot.External.{
  Run, with_snapshot_writable, dance, restored, make_snapshot_writable, make_snapshot_read_only,
  writable_result, read_only_result,
}
use plugin_vm.Libvirt.{LibvirtSeams, is_snapshot_disk, start_domain, active_disk_path}
use plugin_vm.Libvirt.Ops.{OpReply, start_reply, start_on, start_stopped, reads_running}

module _ {W Dom Snap : Type 0} (l : LibvirtSeams W Dom Snap) where
  dance_lem :
      (path : String) (f : W → Run l.snapshots (Unit {0})) (w w₁ w₂ : W)
      → l.chmod path 0o644 w ≡ (w₁, none)
      → l.chmod path 0o444 (f w₁).0 ≡ (w₂, none)
      → with_snapshot_writable l.snapshots path f w ≡ (w₂, (f w₁).1)
  unfolding with_snapshot_writable dance restored make_snapshot_writable make_snapshot_read_only
      writable_result read_only_result
  dance_lem path f w w₁ w₂ opens closes = rw (opens, closes)

  replied-to : (r : W × Outcome SnapshotError (Unit {0})) → (start_reply l r).0 ≡ r.0
  unfolding start_reply
  replied-to (w, ok _) = refl
  replied-to (w, err e) = refl

  reply-result :
      (v : W) (r : W × Outcome SnapshotError (Unit {0}))
      → (start_reply l (v, r.1)).1 ≡ (start_reply l r).1
  unfolding start_reply
  reply-result v (w, ok _) = refl
  reply-result v (w, err e) = refl

  start_on_stopped :
      (dom : Dom) (w w₁ w₂ : W)
      → is_snapshot_disk (active_disk_path l w dom) ≡ true
      → reads_running l (l.get_state w dom) ≡ false
      → l.chmod (active_disk_path l w dom) 0o644 w ≡ (w₁, none)
      → l.chmod (active_disk_path l w dom) 0o444 (start_domain l dom w₁).0 ≡ (w₂, none)
      → start_on l dom w ≡ start_reply l (w₂, (start_domain l dom w₁).1)
  unfolding start_on start_stopped
  start_on_stopped dom w w₁ w₂ snapshot idle opens closes =
      rw (idle, snapshot)
        (ap (start_reply l)
          (dance_lem (active_disk_path l w dom) (start_domain l dom) w w₁ w₂ opens closes))

  -- The start of a domain that runs from a snapshot's disk makes its file writable for the call, and
  -- leaves it read-only for the clones that share it, also where the start fails; where chmod does
  -- not fail and sets the mode.
  pub start_on-shares :
      (dom : Dom) (w : W) (mode_of : W → String → ℕ)
      → is_snapshot_disk (active_disk_path l w dom) ≡ true
      → reads_running l (l.get_state w dom) ≡ false
      → ((path : String) (mode : ℕ) (v : W)
          → (v' : W) × (l.chmod path mode v ≡ (v', none)) × (mode_of v' path ≡ mode))
      → (w₁ : W) × (mode_of w₁ (active_disk_path l w dom) ≡ 0o644)
        × ((start_on l dom w).1 ≡ (start_reply l (start_domain l dom w₁)).1)
        × (mode_of (start_on l dom w).0 (active_disk_path l w dom) ≡ 0o444)
  start_on-shares dom w mode_of snapshot idle chmods =
      let path = active_disk_path l w dom in
      let (w₁, opens, open_mode) = chmods path 0o644 w in
      let (w₂, closes, closed_mode) = chmods path 0o444 (start_domain l dom w₁).0 in
      let same = start_on_stopped dom w w₁ w₂ snapshot idle opens closes in
      (
        w₁,
        open_mode,
        ap (λ (r : W × OpReply). r.1) same ∙ reply-result w₂ (start_domain l dom w₁),
        ap (λ (r : W × OpReply). mode_of r.0 path) same
            ∙ ap (λ v. mode_of v path) (replied-to (w₂, (start_domain l dom w₁).1))
            ∙ closed_mode,
      )
