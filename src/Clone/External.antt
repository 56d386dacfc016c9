-- ===== src/Clone/External.antt =====
-- BuildClone: the external snapshot that a clone is built over.
use plugin_vm.Base.{◌≡◌, inl, inr, true, false, String, str_eq, Outcome, ok, err, Bool-cases}
use plugin_vm.Base.Steps.{>>=-ok, reading}
use mathlib.Core.Path.{subst}
use plugin_vm.Clone.{
  CloneError, lookup_failed, promote_failed, VmSource, CloneSource, CloneSeams, lift, lifted,
  external_parent, find_parent,
}

module _ {W : Type 0} (s : CloneSeams W) where
  pub lift-ok :
      {A : Type 0} (f : String → CloneError) (r : Outcome String A) {a : A}
      → lift f r ≡ ok a
      → r ≡ ok a
  lift-ok f (ok a) h = cc
  lift-ok f (err e) h = cc

  -- A step that only reads.
  pub reading-ok :
      {A : Type 0} (f : W → Outcome CloneError A) {w w' : W} {a : A}
      → reading f w ≡ (w', ok a)
      → (w' ≡ w) × (f w ≡ ok a)
  reading-ok f h = (cc, cc)

  -- The snapshot that a clone is built over is external: the one that the lookup found, where that is
  -- not internal, and otherwise what the promotion of it gave.
  pub data IsExternal (source : VmSource) (found : CloneSource) (w : W)
      : W → CloneSource → Type 0 where
    as_found : str_eq found.mode "internal" ≡ false → IsExternal source found w w found
    promoted :
        {w' : W} {parent : CloneSource}
        → str_eq found.mode "internal" ≡ true
        → s.promote_snapshot source.from_vm source.from_snapshot w ≡ (w', ok parent)
        → IsExternal source found w w' parent

  lifted-ok :
      {A : Type 0} (f : String → CloneError) (r : W × Outcome String A) {w' : W} {a : A}
      → lifted f r ≡ (w', ok a)
      → r ≡ (w', ok a)
  lifted-ok f (w, ok a) h = cc
  lifted-ok f (w, err e) h = cc

  external_parent-IsExternal :
      (source : VmSource) (found parent : CloneSource) (w w' : W)
      → external_parent s source found w ≡ (w', ok parent)
      → IsExternal source found w w' parent
  unfolding external_parent
  external_parent-IsExternal source found parent w w' h =
      elim (Bool-cases (str_eq found.mode "internal")) [
        | inl internal ↦ promoted internal (lifted-ok promote_failed _ (rw internal at h))
        | inr external ↦ kept_as external (rw external at h)
      ]
    where
      kept_as :
          str_eq found.mode "internal" ≡ false
          → Path (W × Outcome CloneError CloneSource) (w, ok found) (w', ok parent)
          → IsExternal source found w w' parent
      kept_as external e =
          let same_world : w ≡ w' = cc in
          let same_parent : found ≡ parent = cc in
          subst (λ p. IsExternal source found w w' p) same_parent
            (subst (λ v. IsExternal source found w v found) same_world (as_found external))

  pub find_parent-IsExternal :
      (source : VmSource) (w w' : W) (parent : CloneSource)
      → find_parent s source w ≡ (w', ok parent)
      → (found : CloneSource) × (s.lookup_snapshot w source.from_vm source.from_snapshot ≡ ok found)
        × IsExternal source found w w' parent
  unfolding find_parent
  find_parent-IsExternal source w w' parent h =
      let (w₁, found, looked_up, h₁) =
        >>=-ok
          (reading
            (λ w. lift lookup_failed (s.lookup_snapshot w source.from_vm source.from_snapshot)))
          (external_parent s source) w h in
      let (same, is_found) =
        reading-ok
          (λ v. lift lookup_failed (s.lookup_snapshot v source.from_vm source.from_snapshot))
          looked_up in
      (
        found,
        lift-ok lookup_failed _ is_found,
        subst (λ v. IsExternal source found v w' parent) same
            (external_parent-IsExternal source found parent w₁ w' h₁),
      )
