-- ===== src/Krun.antt =====
-- candy/plugin-vm/vm_krun_plan.go: from a VM spec to the launch of a krun guest.
-- The resolvers of vmshared (`ResolveVmRam`, `ResolveVmCpus`) and the engine class are arguments.
pub mod Plan
pub mod Memory
pub mod Launch
pub mod Preflight
pub mod Settings
