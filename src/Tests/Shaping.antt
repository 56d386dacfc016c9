-- ===== src/Tests/Shaping.antt =====
-- A clone of a base whose shape comes from the base.
use plugin_vm.Base.{◌≡◌, refl, ◌⊎◌, ◌<◌, true, none, some, [], ◌∷◌, String, ℕ}
use plugin_vm.Base.Int.{ℤ, pos}
use plugin_vm.Backend.{lookup}
use plugin_vm.Shape.{DeployNode, Deploys, vm_shape_override}
use plugin_vm.Shape.Chain.{IsShaped, by_ram, by_cpus, Leads, here, above, vm_shape_override-Leads}

abbrev clone : DeployNode
clone = record { ram = ""; cpus = pos 0; from = "base" }

abbrev base : DeployNode
base = record { ram = "8G"; cpus = pos 4; from = "template" }

abbrev deploys : Deploys
deploys = ("bed", clone) ∷ ("base", base) ∷ []

abbrev shape : String × ℤ
shape = vm_shape_override (λ name. name) (λ node. true) deploys "arch" "bed"

vm_shape_override-Leads_example :
    (1 < 16 → IsShaped base → shape ≡ (base.ram, base.cpus))
    × (1 < 16
        → ¬ IsShaped base
        → (base.from ≡ "") ⊎ (lookup base.from deploys ≡ none)
        → shape ≡ ("", pos 0))
    × (Path ℕ 1 16 → shape ≡ ("", pos 0))
vm_shape_override-Leads_example =
    vm_shape_override-Leads (λ name. name) (λ node. true) deploys "arch" "bed" clone base 1 named
      (unfold lookup in refl) leads
  where
    named : ¬ Path String "bed" ""
    named e = cc

    silent : ¬ IsShaped clone
    silent (by_ram given) = given refl
    silent (by_cpus n given) = cc

    derived : ¬ Path String "base" ""
    derived e = cc

    listed : lookup "base" deploys ≡ some base
    listed = unfold lookup in refl

    leads : Leads deploys clone 1 base
    leads = above silent (derived, listed) here
