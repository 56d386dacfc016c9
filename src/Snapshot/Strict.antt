-- ===== src/Snapshot/Strict.antt =====
-- createExternalSnapshot: the ways in which it succeeds, and what the strict flag rules out.
use plugin_vm.Base.{
  ℕ, ◌≡◌, ◌≢◌, refl, sym, ap, ◌∙◌, Bool, true, false, ◌||◌, not, Option, none, some, List, String,
  Outcome, ok, err, arith,
}
use plugin_vm.Base.Print.{◌<>◌}
use plugin_vm.Snapshot.{
  SnapshotError, SnapshotCreateOpts, DiskXml, SnapshotXmlDesc, CreateFlags, ChmodError, not_exist,
  denied, SnapshotSeams,
}
use plugin_vm.Snapshot.External.{
  Run, desc_of, flags_of, first_disk_target_dev, make_snapshot_writable, make_snapshot_read_only,
  writable_result, read_only_result, fallback_result, after_create, create_on, with_disks,
  with_domain, connected, writable, create_external_snapshot,
}

module _ {W Dom Snap : Type 0} (s : SnapshotSeams W Dom Snap) (opts : SnapshotCreateOpts)
    (out_file : String) where
  -- What precedes the create call: the file is writable, and the domain and the target of its
  -- disk are found.
  pub record IsReady (w w₁ : W) (dom : Dom) (target : String) : Type 0 where
    pub made_writable : make_snapshot_writable s out_file w ≡ (w₁, ok tt)
    pub has_connection : s.connect w₁ ≡ none
    pub has_domain : s.lookup_domain w₁ ("charly-" <> opts.vm_name) ≡ ok dom
    pub disks : List DiskXml
    pub has_disks : s.domain_disks w₁ dom ≡ ok disks
    pub has_target : first_disk_target_dev disks ≡ ok target

  -- The two ways to succeed. `frozen`: the one create call carries the quiesce flag of the options,
  -- and the file is read-only after it. `fell_back`: the call with the flag fails, the retry
  -- without it is the last step.
  pub data Captured (strict : Bool) (w : W) : W → Type 0 where
    frozen :
        {w₁ w₂ w₃ : W} {dom : Dom} {target : String}
        → IsReady w w₁ dom target
        → s.snapshot_create_xml dom (desc_of opts target out_file) (flags_of opts.quiesce) w₁
          ≡ (w₂, none)
        → make_snapshot_read_only s out_file w₂ ≡ (w₃, ok tt)
        → Captured strict w w₃
    fell_back :
        {w₁ w₂ w₃ : W} {dom : Dom} {target e : String}
        → IsReady w w₁ dom target
        → opts.quiesce ≡ true
        → strict ≡ false
        → s.snapshot_create_xml dom (desc_of opts target out_file) (flags_of true) w₁ ≡ (w₂, some e)
        → s.snapshot_create_xml dom (desc_of opts target out_file) (flags_of false) w₂ ≡ (w₃, none)
        → Captured strict w w₃

  Captured-retry :
      (strict : Bool) {w w₁ w₂ w' : W} {dom : Dom} {target e : String}
      → IsReady w w₁ dom target
      → opts.quiesce ≡ true
      → strict ≡ false
      → s.snapshot_create_xml dom (desc_of opts target out_file) (flags_of true) w₁ ≡ (w₂, some e)
      → (r : W × Option String)
      → s.snapshot_create_xml dom (desc_of opts target out_file) (flags_of false) w₂ ≡ r
      → fallback_result s r ≡ (w', ok tt)
      → Captured strict w w'
  unfolding fallback_result
  Captured-retry strict {w' = w'} ready q lax first (w₃, none) e h =
      let same : w₃ ≡ w' = cc in rw (sym same) (fell_back ready q lax first e)
  Captured-retry strict ready q lax first (w₃, some x) e h = cc

  Captured-create :
      (strict quiesce : Bool) {w w₁ w' : W} {dom : Dom} {target : String}
      → IsReady w w₁ dom target
      → opts.quiesce ≡ quiesce
      → (r : W × Option String)
      → s.snapshot_create_xml dom (desc_of opts target out_file) (flags_of quiesce) w₁ ≡ r
      → after_create s strict dom (desc_of opts target out_file) quiesce r ≡ (w', ok tt)
      → Captured strict w w'
  unfolding after_create
  Captured-create strict quiesce ready q (w₂, none) e h = frozen ready (rw q e) h
  Captured-create false true ready q (w₂, some x) e h = Captured-retry false ready q refl e _ refl h
  Captured-create true true ready q (w₂, some x) e h = cc
  Captured-create strict false ready q (w₂, some x) e h = cc

  Captured-on :
      (strict : Bool) {w w₁ w' : W} {dom : Dom}
      → make_snapshot_writable s out_file w ≡ (w₁, ok tt)
      → s.connect w₁ ≡ none
      → s.lookup_domain w₁ ("charly-" <> opts.vm_name) ≡ ok dom
      → {disks : List DiskXml} → s.domain_disks w₁ dom ≡ ok disks
      → (t : Outcome SnapshotError String) → first_disk_target_dev disks ≡ t
      → create_on s strict opts out_file dom w₁ t ≡ (w', ok tt)
      → Captured strict w w'
  unfolding create_on
  Captured-on strict made conn found listed (err x) e h = cc
  Captured-on strict made conn found {disks} listed (ok target) e h =
      Captured-create strict opts.quiesce
        record {
          made_writable = made;
          has_connection = conn;
          has_domain = found;
          disks = disks;
          has_disks = listed;
          has_target = e;
        }
        refl _ refl h

  Captured-disks :
      (strict : Bool) {w w₁ w' : W} {dom : Dom}
      → make_snapshot_writable s out_file w ≡ (w₁, ok tt)
      → s.connect w₁ ≡ none
      → s.lookup_domain w₁ ("charly-" <> opts.vm_name) ≡ ok dom
      → (r : Outcome String (List DiskXml)) → s.domain_disks w₁ dom ≡ r
      → with_disks s strict opts out_file dom w₁ r ≡ (w', ok tt)
      → Captured strict w w'
  unfolding with_disks
  Captured-disks strict made conn found (err x) e h = cc
  Captured-disks strict made conn found (ok disks) e h =
      Captured-on strict made conn found e _ refl h

  Captured-domain :
      (strict : Bool) {w w₁ w' : W}
      → make_snapshot_writable s out_file w ≡ (w₁, ok tt)
      → s.connect w₁ ≡ none
      → (r : Outcome String Dom) → s.lookup_domain w₁ ("charly-" <> opts.vm_name) ≡ r
      → with_domain s strict opts out_file w₁ r ≡ (w', ok tt)
      → Captured strict w w'
  unfolding with_domain
  Captured-domain strict made conn (err x) e h = cc
  Captured-domain strict made conn (ok dom) e h = Captured-disks strict made conn e _ refl h

  Captured-connected :
      (strict : Bool) {w w₁ w' : W}
      → make_snapshot_writable s out_file w ≡ (w₁, ok tt)
      → (r : Option String) → s.connect w₁ ≡ r
      → connected s strict opts out_file w₁ r ≡ (w', ok tt)
      → Captured strict w w'
  unfolding connected
  Captured-connected strict made (some x) e h = cc
  Captured-connected strict made none e h = Captured-domain strict made e _ refl h

  Captured-writable :
      (strict : Bool) {w w' : W} (r : Run s (Unit {0}))
      → make_snapshot_writable s out_file w ≡ r
      → writable s strict opts out_file r ≡ (w', ok tt)
      → Captured strict w w'
  unfolding writable
  Captured-writable strict (w₁, err x) e h = cc
  Captured-writable strict (w₁, ok tt) e h = Captured-connected strict e _ refl h

  -- A capture that succeeds went one of the two ways.
  pub create_external_snapshot-Captured :
      (strict : Bool) (w w' : W)
      → create_external_snapshot s strict opts out_file w ≡ (w', ok tt)
      → Captured strict w w'
  unfolding create_external_snapshot
  create_external_snapshot-Captured strict w w' h = Captured-writable strict _ refl h

  -- Under the strict flag a capture that succeeds has made its one create call with the quiesce
  -- flag of the options, after which the file was made read-only: there was no second call.
  pub create_external_snapshot-strict :
      (w w' : W)
      → create_external_snapshot s true opts out_file w ≡ (w', ok tt)
      → (w₁ w₂ : W) × (dom : Dom) × (target : String) × IsReady w w₁ dom target
        × (s.snapshot_create_xml dom (desc_of opts target out_file) (flags_of opts.quiesce) w₁
            ≡ (w₂, none))
        × (make_snapshot_read_only s out_file w₂ ≡ (w', ok tt))
  create_external_snapshot-strict w w' h = elim (create_external_snapshot-Captured true w w' h) [
    | frozen ready made closed ↦ (_, _, _, _, ready, made, closed)
    | fell_back _ _ lax _ _ ↦ cc
  ]

  -- The modes of files, as far as chmod and libvirt's create call act on them.
  module _ (mode_of : W → String → ℕ) where
    abbrev pub ChmodSets : Type 0
    ChmodSets =
        (path : String) (m : ℕ) (w w' : W) → s.chmod path m w ≡ (w', none) → mode_of w' path ≡ m

    abbrev pub CreateKeeps : Type 0
    CreateKeeps =
        (dom : Dom) (desc : SnapshotXmlDesc) (flags : CreateFlags) (w w' : W) (r : Option String)
        → s.snapshot_create_xml dom desc flags w ≡ (w', r)
        → mode_of w' desc.file ≡ mode_of w desc.file

    read_only_mode :
        (w w' : W) (r : W × Option ChmodError)
        → ChmodSets
        → s.chmod out_file 0o444 w ≡ r
        → read_only_result s out_file r ≡ (w', ok tt)
        → mode_of w' out_file ≡ 0o444
    unfolding read_only_result
    read_only_mode w w' (w₁, none) sets e h =
        let same : w₁ ≡ w' = cc in rw (sym same) (sets out_file 0o444 w w₁ e)
    read_only_mode w w' (w₁, some not_exist) sets e h = cc
    read_only_mode w w' (w₁, some (denied x)) sets e h = cc

    -- A strict capture that succeeds, or one without the quiesce option, leaves the file with mode
    -- 0444, which clones need to share it, where chmod sets the mode.
    pub create_external_snapshot-shared :
        (strict : Bool) (w w' : W)
        → ChmodSets
        → strict || not opts.quiesce ≡ true
        → create_external_snapshot s strict opts out_file w ≡ (w', ok tt)
        → mode_of w' out_file ≡ 0o444
    unfolding make_snapshot_read_only
    create_external_snapshot-shared strict w w' sets k h =
        elim (create_external_snapshot-Captured strict w w' h) [
          | frozen _ _ closed ↦ read_only_mode _ w' _ sets refl closed
          | fell_back _ q lax _ _ ↦ absurd (ground arith)
        ]

    opened_at :
        (w w₀ w₁ : W) (r : W × Option ChmodError)
        → r ≡ (w₀, none)
        → writable_result s out_file r ≡ (w₁, ok tt)
        → w₁ ≡ w₀
    unfolding writable_result
    opened_at w w₀ w₁ (w₂, none) e h = cc
    opened_at w w₀ w₁ (w₂, some x) e h = cc

    -- A best-effort capture over an existing file, with the quiesce option and no agent, so that
    -- every create call with the flag fails, leaves the file writable (mode 0644) when it succeeds,
    -- where chmod sets the mode and the create call leaves it.
    pub create_external_snapshot-left_writable :
        (w w₀ w' : W)
        → ChmodSets
        → CreateKeeps
        → s.chmod out_file 0o644 w ≡ (w₀, none)
        → opts.quiesce ≡ true
        → ((dom : Dom) (desc : SnapshotXmlDesc) (w₁ w₂ : W)
            → s.snapshot_create_xml dom desc (flags_of true) w₁ ≢ (w₂, none))
        → create_external_snapshot s false opts out_file w ≡ (w', ok tt)
        → mode_of w' out_file ≡ 0o644
    unfolding make_snapshot_writable
    create_external_snapshot-left_writable w w₀ w' sets keeps there q no_agent h =
        elim (create_external_snapshot-Captured false w w' h) [
          | frozen {w₁} {w₂} {w₃} {dom} {target} ready made closed ↦ absurd (
              no_agent dom (desc_of opts target out_file) w₁ w₂ (
                ap (λ b. s.snapshot_create_xml dom (desc_of opts target out_file) (flags_of b) w₁)
                  (sym q)
                ∙ made))
          | fell_back {w₁} {w₂} {w₃} {dom} {target} ready _ _ first second ↦
              let step₁ : mode_of w₂ out_file ≡ mode_of w₁ out_file = keeps dom _ _ w₁ w₂ _ first in
              let step₂ : mode_of w' out_file ≡ mode_of w₂ out_file =
                keeps dom _ _ w₂ w' _ second in
              let start : mode_of w₀ out_file ≡ 0o644 = sets out_file 0o644 w w₀ there in
              let opened : w₁ ≡ w₀ = opened_at w w₀ w₁ _ there ready.made_writable in cc
        ]
