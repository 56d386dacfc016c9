-- ===== src/Snapshot/Composite.antt =====
-- createConsistentSnapshot: which snapshot it asks for, in which state of the domain.
use plugin_vm.Base.{
  ◌≡◌, refl, Bool, true, false, ◌||◌, not, Option, none, some, String, str_eq, err, arith, eq_iff,
  ◌≢◌, Bool-cases, inl, inr,
}
use plugin_vm.Snapshot.{
  internal_needs_stopped, agent_unreachable, SnapshotCreateOpts, SnapshotEntry, SnapshotSeams,
}
use plugin_vm.Snapshot.External.{Run}
use plugin_vm.Snapshot.Consistent.{
  mode_or_external, domain_now, pinged, plain, by_state, create_consistent_snapshot,
}

str_neq : {a b : String} → str_eq a b ≡ false → a ≢ b
str_neq {a} {b} h e = ground (arith, eq_iff a b)

module _ {W Dom Snap : Type 0} (s : SnapshotSeams W Dom Snap)
    (create_snapshot : Bool → SnapshotCreateOpts → W → Run s SnapshotEntry) where
  -- The result for a running domain, by the mode and the answer of the guest agent; the state is
  -- the one the call began with until a snapshot is asked for.
  pub data Requests (opts : SnapshotCreateOpts) (w : W) : Run s SnapshotEntry → Type 0 where
    refused :
        {dom : Dom}
        → domain_now s w opts.vm_name ≡ some (dom, true)
        → mode_or_external opts.mode ≡ "internal"
        → Requests opts w (w, err internal_needs_stopped)
    unreachable :
        {dom : Dom} {e : String}
        → domain_now s w opts.vm_name ≡ some (dom, true)
        → mode_or_external opts.mode ≡ "external"
        → s.ping_agent w dom ≡ some e
        → Requests opts w (w, err (agent_unreachable e))
    strictly :
        {dom : Dom}
        → domain_now s w opts.vm_name ≡ some (dom, true)
        → mode_or_external opts.mode ≡ "external"
        → s.ping_agent w dom ≡ none
        → Requests opts w (create_snapshot true opts w)
    other_mode :
        {dom : Dom}
        → domain_now s w opts.vm_name ≡ some (dom, true)
        → mode_or_external opts.mode ≢ "internal"
        → mode_or_external opts.mode ≢ "external"
        → Requests opts w (create_snapshot false (record opts { quiesce = false }) w)
    offline :
        ((dom : Dom) → domain_now s w opts.vm_name ≢ some (dom, true))
        → Requests opts w (create_snapshot false (record opts { quiesce = false }) w)

  Requests-pinged :
      (opts : SnapshotCreateOpts) (w : W) {dom : Dom}
      → domain_now s w opts.vm_name ≡ some (dom, true)
      → mode_or_external opts.mode ≡ "external"
      → (r : Option String) → s.ping_agent w dom ≡ r
      → Requests opts w (pinged s create_snapshot opts w r)
  unfolding pinged
  Requests-pinged opts w running external (some e) p = unreachable running external p
  Requests-pinged opts w running external none p = strictly running external p

  Requests-by_state :
      (opts : SnapshotCreateOpts) (w : W) (r : Option (Dom × Bool))
      → domain_now s w opts.vm_name ≡ r
      → Requests opts w (by_state s create_snapshot opts (mode_or_external opts.mode) w r)
  unfolding by_state plain
  Requests-by_state opts w none e = offline (λ dom h. cc)
  Requests-by_state opts w (some (dom, false)) e = offline (λ dom' h. cc)
  Requests-by_state opts w (some (dom, true)) e =
      elim (Bool-cases (str_eq (mode_or_external opts.mode) "internal")) [
        | inl i ↦ rw i (refused e ((eq_iff _ _).0 i))
        | inr ni ↦ elim (Bool-cases (str_eq (mode_or_external opts.mode) "external")) [
          | inl x ↦ rw (ni, x) (Requests-pinged opts w e ((eq_iff _ _).0 x) _ refl)
          | inr nx ↦ rw (ni, nx) (other_mode e (str_neq ni) (str_neq nx))
        ]
      ]

  -- With both names given, the consistent snapshot is exactly one of these requests: a strict one
  -- for a running domain in external mode whose agent answers, an error without a change for a
  -- running domain in internal mode or with a silent agent, and a plain one in every other case.
  pub create_consistent_snapshot-Requests :
      (opts : SnapshotCreateOpts) (w : W)
      → str_eq opts.vm_name "" ≡ false
      → str_eq opts.snap_name "" ≡ false
      → Requests opts w (create_consistent_snapshot s create_snapshot opts w)
  unfolding create_consistent_snapshot
  create_consistent_snapshot-Requests opts w v n = rw (v, n) (Requests-by_state opts w _ refl)

module _ {W Dom Snap : Type 0} (s : SnapshotSeams W Dom Snap) where
  -- Two versions of CreateSnapshot that differ only on a quiesced request without the strict flag.
  abbrev pub AgreeOffFallback : (f g : Bool → SnapshotCreateOpts → W → Run s SnapshotEntry) → Type 0
  AgreeOffFallback f g =
      (strict : Bool) (opts : SnapshotCreateOpts) (w : W)
      → strict || not opts.quiesce ≡ true
      → f strict opts w ≡ g strict opts w

  pinged_agrees :
      (f g : Bool → SnapshotCreateOpts → W → Run s SnapshotEntry) (opts : SnapshotCreateOpts)
      (w : W)
      → AgreeOffFallback f g
      → (r : Option String) → pinged s f opts w r ≡ pinged s g opts w r
  unfolding pinged
  pinged_agrees f g opts w same (some e) = refl
  pinged_agrees f g opts w same none = same true opts w refl

  by_state_agrees :
      (f g : Bool → SnapshotCreateOpts → W → Run s SnapshotEntry) (opts : SnapshotCreateOpts)
      (mode : String) (w : W)
      → AgreeOffFallback f g
      → (r : Option (Dom × Bool)) → by_state s f opts mode w r ≡ by_state s g opts mode w r
  unfolding by_state plain
  by_state_agrees f g opts mode w same none = same _ _ _ refl
  by_state_agrees f g opts mode w same (some (dom, false)) = same _ _ _ refl
  by_state_agrees f g opts mode w same (some (dom, true)) =
      rw
        (
          same false (record opts { quiesce = false }) w refl,
          pinged_agrees f g opts w same (s.ping_agent w dom),
        )
        refl

  -- The best-effort fallback is out of reach of the consistent snapshot: what CreateSnapshot does
  -- on a quiesced request without the strict flag makes no difference to it.
  pub create_consistent_snapshot-no_fallback :
      (f g : Bool → SnapshotCreateOpts → W → Run s SnapshotEntry) (opts : SnapshotCreateOpts)
      (w : W)
      → AgreeOffFallback f g
      → create_consistent_snapshot s f opts w ≡ create_consistent_snapshot s g opts w
  unfolding create_consistent_snapshot
  create_consistent_snapshot-no_fallback f g opts w same =
      rw
        (by_state_agrees f g opts (mode_or_external opts.mode) w same (domain_now s w opts.vm_name))
        refl
