-- ===== src/Backend/LibvirtGuest/Unread.antt =====
-- The stop and the destroy of the libvirt provider: what they take for a domain that is down or gone.
use plugin_vm.Base.{
  ◌≡◌, refl, ap, ◌∙◌, Bool, true, false, not, Option, none, some, String, ok, err, Bool-cases, inl,
  inr,
}
use plugin_vm.Libvirt.{running, LibvirtSeams, off_at}
use plugin_vm.Libvirt.Ops.{
  OpError, OpReply, domain_state_op, connected_state, looked_up_state, make_domain_state_reply,
  stop_op, on_connection, on_domain, stop_on, shutdown_reply, destroy_op,
}
use plugin_vm.Backend.LibvirtGuest.{
  LibvirtGuestError, libvirt_holder, says_running, polled, stop_replied, after_stop, libvirt_stop,
  dir_removed, destroy_replied, after_destroy, libvirt_destroy,
}

module _ {W Dom Snap : Type 0} (l : LibvirtSeams W Dom Snap)
    (remove_vm_state_dir : String → W → W × Option String) where
  state_found :
      (w : W) (name : String) (dom : Dom)
      → l.connect w ≡ none
      → l.lookup_domain w name ≡ ok dom
      → domain_state_op l w name ≡ looked_up_state l w (ok dom)
  unfolding domain_state_op connected_state
  state_found w name dom c d = rw (c, d)

  unread-idle :
      (w : W) (name e : String) (dom : Dom)
      → l.connect w ≡ none
      → l.lookup_domain w name ≡ ok dom
      → l.get_state w dom ≡ err e
      → not (says_running l remove_vm_state_dir w name) ≡ true
  unfolding says_running looked_up_state make_domain_state_reply
  unread-idle w name e dom c d lost =
      ap (λ (r : OpReply). not r.running) (state_found w name dom c d) ∙ rw lost

  -- A graceful stop of a domain that runs reports success as soon as a poll cannot read the state,
  -- which says nothing of the domain: gracefulStopDomain would wait on.
  pub libvirt_stop-unread :
      (name e : String) (dom : Dom) (w w₁ : W)
      → ((v : W) → l.connect v ≡ none)
      → ((v : W) → l.lookup_domain v name ≡ ok dom)
      → l.get_state w dom ≡ ok running
      → l.shutdown_domain dom w ≡ (w₁, none)
      → l.get_state w₁ dom ≡ err e
      → ((test : W → Bool) (v : W) → test v ≡ true → l.poll_until test v ≡ (v, true))
      → (libvirt_stop l remove_vm_state_dir name false w ≡ (w₁, ok tt)) × (off_at l dom w₁ ≡ false)
  unfolding libvirt_stop libvirt_holder after_stop stop_replied polled says_running looked_up_state
      make_domain_state_reply stop_op on_connection on_domain stop_on shutdown_reply
  libvirt_stop-unread name e dom w w₁ connects found up asked lost prompt = (
    rw (state_found w name dom (connects w) (found w), up, connects w, found w, asked)
        (ap (polled l remove_vm_state_dir name) (
          prompt (λ v. not (says_running l remove_vm_state_dir v name)) w₁
            (unread-idle w₁ name e dom (connects w₁) (found w₁) lost))),
    rw lost,
  )

  -- What a destroy that succeeds has done behind the operation.
  abbrev pub Cleaned : String → Bool → W → W → Type 0
  Cleaned name true w₁ w' = remove_vm_state_dir name w₁ ≡ (w', none)
  Cleaned name false w₁ w' = w₁ ≡ w'

  dir_removed-inv :
      (name : String) (r : W × Option String) (w' : W)
      → dir_removed l remove_vm_state_dir name r ≡ (w', (true, none))
      → r ≡ (w', none)
  unfolding dir_removed
  dir_removed-inv name (w, none) w' h = cc
  dir_removed-inv name (w, some e) w' h = absurd (cc)

  gone-Cleaned :
      (name : String) (delete_disk : Bool) (w₁ w' : W)
      → (domain_state_op l w₁ name).exists ≡ false
      → destroy_replied l remove_vm_state_dir name delete_disk w₁ none ≡ (w', (true, none))
      → Cleaned name delete_disk w₁ w'
  unfolding destroy_replied
  gone-Cleaned name true w₁ w' gone h =
      dir_removed-inv name (remove_vm_state_dir name w₁) w' (rw gone at h)
  gone-Cleaned name false w₁ w' gone h =
      let e : Path (W × (Bool × Option LibvirtGuestError)) (w₁, (true, none)) (w', (true, none)) =
        rw gone at h in
      cc

  replied-gone :
      (name : String) (delete_disk : Bool) (w₁ w' : W) (e : Option OpError)
      → destroy_replied l remove_vm_state_dir name delete_disk w₁ e ≡ (w', (true, none))
      → (e ≡ none) × ((domain_state_op l w₁ name).exists ≡ false) × Cleaned name delete_disk w₁ w'
  unfolding destroy_replied
  replied-gone name delete_disk w₁ w' (some e) h = absurd (cc)
  replied-gone name delete_disk w₁ w' none h =
      elim (Bool-cases (domain_state_op l w₁ name).exists) [
        | inl there ↦ absurd (cc (rw there at h))
        | inr gone ↦ (refl, gone, gone-Cleaned name delete_disk w₁ w' gone h)
      ]

  -- A destroy that succeeds has a destroy operation that reports no error, after which the domain is
  -- not found any more; then the state directory was removed with the disk, and else nothing more
  -- was done.
  pub libvirt_destroy-gone :
      (name dir : String) (delete_disk : Bool) (w w' : W)
      → libvirt_destroy l remove_vm_state_dir name dir delete_disk w ≡ (w', (true, none))
      → ((destroy_op l name w).1.error ≡ none)
        × ((domain_state_op l (destroy_op l name w).0 name).exists ≡ false)
        × Cleaned name delete_disk (destroy_op l name w).0 w'
  unfolding libvirt_destroy after_destroy
  libvirt_destroy-gone name dir delete_disk w w' h =
      replied-gone name delete_disk (destroy_op l name w).0 w' (destroy_op l name w).1.error h
