-- ===== src/Tests/Kruns.antt =====
-- A krun guest of 2 GiB with an SSH port and one forward.
use plugin_vm.Base.{
  ◌≡◌, ◌≢◌, refl, true, false, not, none, some, List, [], ◌∷◌, String, str_eq, Outcome, ok,
}
use plugin_vm.Base.Int.{ℤ, pos, ◌-ℤ◌}
use plugin_vm.Base.Print.{fields}
use mathlib.Core.List.{Sublistᴰ}
use plugin_vm.Spec.{VmSpec, ContainerdTarget}
use plugin_vm.Krun.Settings.{
  krun_guest_ram, split_ram, krun_refuse_nvidia, krun_refuse_gpu_floor, krun_settings,
  container_ram,
}
use plugin_vm.Krun.Plan.{
  plan_cpus, KrunPlan, KrunPlanInput, assemble, build_krun_plan, EngineStartPlanRequest,
  EngineStartPlanReply, krun_start_plan_request, krun_apply_target, krun_start_argv, addressed_argv,
}
use plugin_vm.Krun.Memory.{HoldsGuest, HasGpuFloor, build_krun_plan-HoldsGuest}
use plugin_vm.Krun.Launch.{Exposes, build_krun_plan-Exposes, krun_start_argv-from_reply}
use plugin_vm.Krun.Preflight.{EngineCapability, KrunHost}

abbrev ram : VmSpec → String
ram s = s.ram

abbrev cpus : VmSpec → ℤ
cpus s = s.cpus

-- No spec: the defaults hold.
abbrev input : KrunPlanInput
input = record {
  name = "arch";
  image = "arch:latest";
  engine = "podman";
  spec = none;
  ssh_port = pos 2222;
  port_forwards = "8080:80" ∷ [];
  ssh_pub_key = "ssh-ed25519 AAAA";
  systemd = true;
  nvidia = false;
}

abbrev plan : KrunPlan
plan = assemble input (pos 1) (pos 4096) (pos 3840)

planned : build_krun_plan ram cpus input ≡ ok plan
unfolding build_krun_plan plan_cpus krun_guest_ram container_ram split_ram krun_settings ◌-ℤ◌
    krun_refuse_nvidia krun_refuse_gpu_floor
planned = refl

build_krun_plan-HoldsGuest_example :
    (plan.container_mib ≡ container_ram ram input.spec)
    × HoldsGuest plan.container_mib plan.guest_mib (krun_settings input.spec).ram_headroom_mib
    × (input.nvidia ≡ false)
    × HasGpuFloor (krun_settings input.spec).gpu plan.guest_mib
build_krun_plan-HoldsGuest_example = build_krun_plan-HoldsGuest ram cpus input plan planned

build_krun_plan-Exposes_example : Exposes input.ssh_port input.port_forwards plan.ports
build_krun_plan-Exposes_example = build_krun_plan-Exposes ram cpus input plan planned

-- The engine answers with its own argv.
abbrev invoke : String → EngineStartPlanRequest → Outcome String EngineStartPlanReply
invoke engine req = ok record { argv = "podman" ∷ "run" ∷ req.image ∷ []; error = "" }

abbrev target : ContainerdTarget
target = record { privilege_prefix = "sudo -n"; address = ""; namespace = "krun" }

abbrev argv : List String
argv = "sudo" ∷ "-n" ∷ "podman" ∷ "--namespace" ∷ "krun" ∷ "run" ∷ "arch:latest" ∷ []

krun_start_argv-from_reply_example :
    (rep : EngineStartPlanReply) × (invoke plan.engine (krun_start_plan_request plan) ≡ ok rep)
    × (str_eq rep.error "" ≡ true)
    × (rep.argv ≢ [])
    × Sublistᴰ rep.argv argv
krun_start_argv-from_reply_example = krun_start_argv-from_reply invoke plan target argv started
  where
    started : krun_start_argv invoke plan target ≡ ok argv
    started =
        unfold krun_start_argv addressed_argv krun_start_plan_request krun_apply_target fields in
        refl

abbrev capability : EngineCapability
capability = record { binary = "podman"; runtime_handlers = "crun" ∷ "krun" ∷ [] }

abbrev host : KrunHost
host = record {
  run_engine = ok "podman";
  capability_for = λ engine. some capability;
  on_path = λ bin. not (str_eq bin "crun");
  resolve_target = λ engine. ok target;
}
