-- ===== src/Shape.antt =====
-- candy/plugin-vm/vm_shape_override.go: the RAM and the CPUs of a VM from its deploys.
-- `spec.VmDomainIdentity` and `deploy.IsVmVenue` are external; where two keys of the map have the
-- wanted identity, Go's loop takes whichever comes first, as the list does.
pub mod Chain
use plugin_vm.Base.{
  ℕ, zero, suc, Bool, true, false, ◌&&◌, ◌||◌, not, Option, none, some, List, [], ◌∷◌, String,
  str_eq, if◌then◌else◌,
}
use plugin_vm.Base.Int.{ℤ, pos, ltb_ℤ}
use plugin_vm.Spec.{VmSpec}
use plugin_vm.Backend.{lookup}

pub record DeployNode : Type 0 where
  pub ram : String
  pub cpus : ℤ
  pub from : String

abbrev pub Deploys : Type 0
Deploys = List (String × DeployNode)

-- The node states a shape.
unfoldable pub states_shape : DeployNode → Bool
states_shape node = not (str_eq node.ram "") || ltb_ℤ (pos 0) node.cpus

unfoldable pub next_node : Deploys → String → Option DeployNode
next_node deploys from = if str_eq from "" then none else lookup from deploys

-- The walk up the `from:` chain, over at most as many nodes as the fuel says.
unfoldable pub walk_on : Deploys → ℕ → Option DeployNode → String × ℤ
walk_on deploys zero _ = ("", pos 0)
walk_on deploys (suc left) none = ("", pos 0)
walk_on deploys (suc left) (some node) =
    let above = walk_on deploys left (next_node deploys node.from) in
    if states_shape node then (node.ram, node.cpus) else above

abbrev pub walk : Deploys → ℕ → DeployNode → String × ℤ
walk deploys left node = walk_on deploys left (some node)

module _ (vm_domain_identity : String → String) (is_vm_venue : DeployNode → Bool) where
  unfoldable pub by_identity : String → Deploys → Option DeployNode
  by_identity want [] = none
  by_identity want ((name, node) ∷ rest) =
      let later = by_identity want rest in
      if is_vm_venue node && str_eq (vm_domain_identity name) want then some node else later

  unfoldable pub or_else : Option DeployNode → Option DeployNode → Option DeployNode
  or_else (some node) other = some node
  or_else none other = other

  unfoldable pub lookup_deploy_by_identity : Deploys → String → Option DeployNode
  unfolding or_else
  lookup_deploy_by_identity tree identity =
      if str_eq identity ""
      then none
      else or_else (lookup identity tree) (by_identity (vm_domain_identity identity) tree)

  -- The bound of the walk is 16 nodes.
  unfoldable pub vm_shape_override : Deploys → String → String → String × ℤ
  unfolding or_else
  vm_shape_override deploys entity identity =
      walk_on deploys 16
        (or_else (lookup_deploy_by_identity deploys identity) (lookup entity deploys))

unfoldable pub apply_vm_shape_override : VmSpec → String × ℤ → VmSpec
apply_vm_shape_override dst (ram, cpus) = record dst {
  ram = if str_eq ram "" then dst.ram else ram;
  cpus = if ltb_ℤ (pos 0) cpus then cpus else dst.cpus;
}
