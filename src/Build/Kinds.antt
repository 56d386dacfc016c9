-- ===== src/Build/Kinds.antt =====
-- resolveVmBuild, kind by kind: a reply has what the drive reads.
use plugin_vm.Base.{
  ◌≡◌, refl, ◌∙◌, Bool, true, false, not, some, String, str_eq, ok, Bool-cases, Option-cases, inl,
  inr, arith, eq_iff,
}
use mathlib.Core.Path.{subst}
use plugin_vm.Base.Steps.{pure, require-then, Step-cases, Outcome-cases}
use plugin_vm.Base.Text.{Text}
use plugin_vm.Build.{DistroDef, BuilderDef, BuildReply, iso_distro_installer_required}
use plugin_vm.Build.Lookups.{
  BuildSeams, project_in, find_distro, find_builder, resolve_bootc_image_ref,
  ensure_builder_image_built,
}
use plugin_vm.Build.Resolve.{
  resolve_bootstrap, resolve_iso, resolve_bootc, bootstrap_image, resolve_kind,
}

-- A reply that the drive can build: a clone, or a kind with all that its engine reads.
pub data IsReady {S : Type 0} (r : BuildReply S) : Type 0 where
  ready_clone : r.source_kind ≡ "clone" → IsReady r
  ready_cloud_image : r.source_kind ≡ "cloud_image" → IsReady r
  ready_bootc : r.source_kind ≡ "bootc" → IsReady r
  ready_bootstrap :
      (distro : DistroDef) (builder : BuilderDef)
      → r.source_kind ≡ "bootstrap"
      → r.distro ≡ some distro
      → r.builder ≡ some builder
      → distro.has_bootloader ≡ true
      → builder.is_bootstrap ≡ true
      → IsReady r
  ready_iso :
      (distro : DistroDef)
      → r.source_kind ≡ "iso"
      → r.distro ≡ some distro
      → iso_distro_installer_required distro r.vm ≡ false
      → IsReady r
  ready_container_disk : r.source_kind ≡ "container_disk" → IsReady r

not-true : (b : Bool) → not b ≡ true → b ≡ false
not-true b h = ground arith

module _ {W U B S : Type 0} (s : BuildSeams W U B S) where
  find_builder-bootstrap :
      (uf : U) (name : String) (w w' : W) (b : BuilderDef)
      → find_builder s uf name w ≡ (w', ok b)
      → b.is_bootstrap ≡ true
  unfolding find_builder
  find_builder-bootstrap uf name w w' b h = elim (Option-cases (s.builders uf)) [
    | inl e ↦ absurd (cc (rw e at h))
    | inr (builders, e) ↦ elim (Option-cases (builders name)) [
      | inl f ↦ absurd (cc (rw (e, f) at h))
      | inr (builder, f) ↦
          let (boots, rest) = require-then builder.is_bootstrap _ (pure builder) (rw (e, f) at h) in
          let same : builder ≡ b = cc in
          subst (λ (x : BuilderDef). x.is_bootstrap ≡ true) same boots
    ]
  ]

  -- The rest of a bootstrap, when its builder and its distro are found.
  bootstrapped :
      (dir : String) (r r' : BuildReply S) (builder : BuilderDef) (distro : DistroDef) (w w' : W)
      → r.source_kind ≡ "bootstrap"
      → builder.is_bootstrap ≡ true
      → distro.has_bootloader ≡ true
      → bootstrap_image s r builder distro w ≡ (w', ok r')
      → IsReady r'
  unfolding bootstrap_image
  bootstrapped dir r r' builder distro w w' kind b l h =
      elim (Bool-cases (str_eq r.vm.source.builder_image "")) [
        | inl i ↦ absurd (cc (rw i at h))
        | inr i ↦ elim (Bool-cases (str_eq r.vm.disk_size "")) [
          | inl z ↦ absurd (cc (rw (i, z) at h))
          | inr z ↦
              elim (Step-cases
                (ensure_builder_image_built s r.engine r.vm.source.builder_image w)) [
                  | inl (_, _, n) ↦ absurd (cc (rw (i, z, n) at h))
                  | inr (w₁, ref, n) ↦
                      let same : record r {
                        builder_image_ref = ref;
                        distro = some distro;
                        builder = some builder;
                      }
                          ≡ r' =
                        cc (rw (i, z, n) at h) in
                      subst IsReady same (ready_bootstrap distro builder kind refl refl l b)
                ]
        ]
      ]

  resolve_bootstrap-IsReady :
      (dir : String) (r r' : BuildReply S) (w w' : W)
      → r.source_kind ≡ "bootstrap"
      → resolve_bootstrap s dir r w ≡ (w', ok r')
      → IsReady r'
  unfolding resolve_bootstrap
  resolve_bootstrap-IsReady dir r r' w w' kind h =
      elim (Outcome-cases (project_in s (s.load_project w dir))) [
        | inl (_, p) ↦ absurd (cc (rw p at h))
        | inr (uf, p) ↦ elim (Step-cases (find_builder s uf r.vm.source.builder w)) [
          | inl (_, _, b) ↦ absurd (cc (rw (p, b) at h))
          | inr (w₁, builder, b) ↦ elim (Step-cases (find_distro s uf r.vm.source.distro w₁)) [
            | inl (_, _, d) ↦ absurd (cc (rw (p, b, d) at h))
            | inr (w₂, distro, d) ↦
                let (boots, rest) =
                  require-then distro.has_bootloader _ (bootstrap_image s r builder distro)
                    (rw (p, b, d) at h) in
                bootstrapped dir r r' builder distro w₂ w' kind
                  (find_builder-bootstrap uf r.vm.source.builder w w₁ builder b) boots rest
          ]
        ]
      ]

  resolve_iso-IsReady :
      (dir : String) (r r' : BuildReply S) (w w' : W)
      → r.source_kind ≡ "iso"
      → resolve_iso s dir r w ≡ (w', ok r')
      → IsReady r'
  unfolding resolve_iso
  resolve_iso-IsReady dir r r' w w' kind h = elim (Bool-cases (str_eq r.vm.source.distro "")) [
    | inl n ↦ absurd (cc (rw n at h))
    | inr n ↦ elim (Bool-cases (str_eq r.vm.disk_size "")) [
      | inl z ↦ absurd (cc (rw (n, z) at h))
      | inr z ↦ elim (Outcome-cases (project_in s (s.load_project w dir))) [
        | inl (_, p) ↦ absurd (cc (rw (n, z, p) at h))
        | inr (uf, p) ↦ elim (Step-cases (find_distro s uf r.vm.source.distro w)) [
          | inl (_, _, d) ↦ absurd (cc (rw (n, z, p, d) at h))
          | inr (w₁, distro, d) ↦ elim (Bool-cases (iso_distro_installer_required distro r.vm)) [
            | inl q ↦ absurd (cc (rw (n, z, p, d, q) at h))
            | inr q ↦
                let same : record r { distro = some distro } ≡ r' = cc (rw (n, z, p, d, q) at h) in
                subst IsReady same (ready_iso distro kind refl q)
          ]
        ]
      ]
    ]
  ]

  resolve_bootc-IsReady :
      (r r' : BuildReply S) (w w' : W)
      → r.source_kind ≡ "bootc"
      → resolve_bootc s r w ≡ (w', ok r')
      → IsReady r'
  unfolding resolve_bootc
  resolve_bootc-IsReady r r' w w' kind h = elim (Bool-cases (str_eq r.vm.source.box "")) [
    | inl b ↦ absurd (cc (rw b at h))
    | inr b ↦ elim (Step-cases (resolve_bootc_image_ref s r.engine r.vm.source.box w)) [
      | inl (_, _, i) ↦ absurd (cc (rw (b, i) at h))
      | inr (w₁, ref, i) ↦
          let same : record r { bootc_image_ref = ref } ≡ r' = cc (rw (b, i) at h) in
          subst IsReady same (ready_bootc kind)
    ]
  ]

  pub resolve_kind-IsReady :
      (dir : String) (box : Text) (r r' : BuildReply S) (w w' : W)
      → r.source_kind ≡ r.vm.source.kind
      → resolve_kind s dir box r w ≡ (w', ok r')
      → IsReady r'
  unfolding resolve_kind
  resolve_kind-IsReady dir box r r' w w' placed h =
      elim (Bool-cases (str_eq r.vm.source.kind "cloud_image")) [
        | inl c ↦
            let same : r ≡ r' = cc (rw c at h) in
            subst IsReady same
              (ready_cloud_image (placed ∙ (eq_iff r.vm.source.kind "cloud_image").0 c))
        | inr c ↦ elim (Bool-cases (str_eq r.vm.source.kind "bootc")) [
          | inl b ↦
              resolve_bootc-IsReady r r' w w' (placed ∙ (eq_iff r.vm.source.kind "bootc").0 b)
                (rw (c, b) at h)
          | inr b ↦ elim (Bool-cases (str_eq r.vm.source.kind "bootstrap")) [
            | inl p ↦
                resolve_bootstrap-IsReady dir r r' w w'
                  (placed ∙ (eq_iff r.vm.source.kind "bootstrap").0 p) (rw (c, b, p) at h)
            | inr p ↦ elim (Bool-cases (str_eq r.vm.source.kind "iso")) [
              | inl i ↦
                  resolve_iso-IsReady dir r r' w w' (placed ∙ (eq_iff r.vm.source.kind "iso").0 i)
                    (rw (c, b, p, i) at h)
              | inr i ↦ elim (Bool-cases (str_eq r.vm.source.kind "container_disk")) [
                | inl k ↦
                    let (_, rest) =
                      require-then (not (str_eq r.vm.source.image "")) _ (pure r)
                        (rw (c, b, p, i, k) at h) in
                    let same : r ≡ r' = cc in
                    subst IsReady same (
                      ready_container_disk
                        (placed ∙ (eq_iff r.vm.source.kind "container_disk").0 k))
                | inr k ↦ elim (Bool-cases (str_eq r.vm.source.kind "clone")) [
                  | inl l ↦ absurd (cc (rw (c, b, p, i, k, l) at h))
                  | inr l ↦ absurd (cc (rw (c, b, p, i, k, l) at h))
                ]
              ]
            ]
          ]
        ]
      ]
