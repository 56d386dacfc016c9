-- ===== src/Krun/Plan.antt =====
-- buildKrunPlan: the plan of a launch, and the engine argv it becomes.
use plugin_vm.Base.{
  Bool, true, false, not, Option, none, some, List, [], ◌∷◌, ◌++◌, map, String, str_eq,
  if◌then◌else◌, Outcome, ok, err, ◌>>=◌, ◌>>◌,
}
use plugin_vm.Base.Int.{ℤ, pos, ltb_ℤ}
use plugin_vm.Base.Print.{◌<>◌, itoa, fields}
use plugin_vm.Spec.{VmKrun, VmSpec, ContainerdTarget}
use plugin_vm.Krun.Settings.{
  KrunError, krun_settings, krun_guest_ram, krun_refuse_nvidia, krun_refuse_gpu_floor,
  krun_default_cpus, positive_or,
}

pub record KrunAnnotation : Type 0 where
  pub key : String
  pub value : String

pub record KrunPlan : Type 0 where
  pub name : String
  pub image : String
  pub engine : String
  pub runtime : String
  pub container_mib : ℤ
  pub guest_mib : ℤ
  pub cpus : ℤ
  pub ssh_port : ℤ
  pub ports : List String
  pub env : List (String × String)
  pub annotations : List KrunAnnotation
  pub extra_args : List String

pub record KrunPlanInput : Type 0 where
  pub name : String
  pub image : String
  pub engine : String
  pub spec : Option VmSpec
  pub ssh_port : ℤ
  pub port_forwards : List String
  pub ssh_pub_key : String
  pub systemd : Bool
  pub nvidia : Bool

abbrev pub krun_runtime_handler : String
krun_runtime_handler = "krun"

-- `if c { xs = append(xs, x) }`
abbrev pub when {ℓ} : {A : Type ℓ} → Bool → A → List A
when true x = x ∷ []
when false x = []

abbrev pub loopback : String → String
loopback p = "127.0.0.1:" <> p

abbrev pub plan_ports : KrunPlanInput → List String
plan_ports i =
    when (ltb_ℤ (pos 0) i.ssh_port) (loopback (itoa i.ssh_port <> ":" <> itoa (pos 22)))
    ++ map loopback i.port_forwards

abbrev pub plan_env : KrunPlanInput → List (String × String)
plan_env i =
    when i.systemd ("KRUN_INIT_PID1", "1")
    ++ when (not (str_eq i.ssh_pub_key "")) ("KRUN_SSH_PUBKEY", i.ssh_pub_key)

abbrev pub plan_annotations : VmKrun → ℤ → ℤ → List KrunAnnotation
plan_annotations k guest cpus =
    record { key = "krun.ram_mib"; value = itoa guest }
      ∷ record { key = "krun.cpus"; value = itoa cpus }
      ∷ when (str_eq k.network "passt") (record { key = "krun.use_passt"; value = "1" })
    ++ when (str_eq k.kernel "image") (record { key = "krun.custom_kernel"; value = "1" })
    ++ when k.nested_virt (record { key = "krun.nested_virt"; value = "1" })
    ++ when (str_eq k.gpu "virtio") (record { key = "krun.gpu_flags"; value = itoa k.gpu_flags })

-- The loop that appends each annotation to the arguments.
abbrev pub annotation_args : List KrunAnnotation → List String
annotation_args [] = []
annotation_args (a ∷ rest) = "--annotation" ∷ (a.key <> "=" <> a.value) ∷ annotation_args rest

abbrev pub plan_extra_args : ℤ → Bool → List KrunAnnotation → List String
plan_extra_args container systemd annotations =
    "--memory"
      ∷ (itoa container <> "m")
      ∷ "--memory-swap"
      ∷ (itoa container <> "m")
      ∷ (if systemd then "--ulimit" ∷ "nofile=524288:524288" ∷ [] else [])
    ++ annotation_args annotations

unfoldable pub plan_cpus : (VmSpec → ℤ) → Option VmSpec → ℤ
plan_cpus resolve_vm_cpus none = krun_default_cpus
plan_cpus resolve_vm_cpus (some s) = positive_or (resolve_vm_cpus s) krun_default_cpus

-- The plan after the refusals.
abbrev pub assemble : KrunPlanInput → ℤ → ℤ → ℤ → KrunPlan
assemble i cpus container guest =
    let annotations = plan_annotations (krun_settings i.spec) guest cpus in
    record {
      name = i.name;
      image = i.image;
      engine = i.engine;
      runtime = krun_runtime_handler;
      container_mib = container;
      guest_mib = guest;
      cpus = cpus;
      ssh_port = i.ssh_port;
      ports = plan_ports i;
      env = plan_env i;
      annotations = annotations;
      extra_args = plan_extra_args container i.systemd annotations;
    }

module _ (resolve_vm_ram : VmSpec → String) (resolve_vm_cpus : VmSpec → ℤ) where
  unfoldable pub build_krun_plan : KrunPlanInput → Outcome KrunError KrunPlan
  unfolding plan_cpus
  build_krun_plan i = do
    ram ← krun_guest_ram resolve_vm_ram i.spec (krun_settings i.spec).ram_headroom_mib
    krun_refuse_nvidia i.nvidia
    krun_refuse_gpu_floor i.spec ram.1
    ok (assemble i (plan_cpus resolve_vm_cpus i.spec) ram.0 ram.1)

-- spec.EngineStartPlanRequest and its reply.
pub record EngineStartPlanRequest : Type 0 where
  pub name : String
  pub image : String
  pub engine : String
  pub runtime : String
  pub detach : Bool
  pub ports : List String
  pub env : List (String × String)
  pub extra_args : List String

pub record EngineStartPlanReply : Type 0 where
  pub argv : List String
  pub error : String

unfoldable pub krun_start_plan_request : KrunPlan → EngineStartPlanRequest
krun_start_plan_request plan = record {
  name = plan.name;
  image = plan.image;
  engine = plan.engine;
  runtime = plan.runtime;
  detach = true;
  ports = plan.ports;
  env = plan.env;
  extra_args = plan.extra_args;
}

abbrev pub flag : String → String → List String
flag name value = if str_eq value "" then [] else name ∷ value ∷ []

-- The target's global flags go behind the binary, its privilege prefix before it.
unfoldable pub krun_apply_target : List String → ContainerdTarget → List String
krun_apply_target [] target = []
krun_apply_target (binary ∷ args) target =
    fields target.privilege_prefix
    ++ binary ∷ (flag "--address" target.address ++ (flag "--namespace" target.namespace ++ args))

pub data StartPlanError : Type 0 where
  invoke_failed : String → StartPlanError
  plan_error : String → StartPlanError
  empty_argv : StartPlanError

unfoldable pub addressed_argv :
    ContainerdTarget → List String → Outcome StartPlanError (List String)
addressed_argv target [] = err empty_argv
addressed_argv target (binary ∷ args) = ok (krun_apply_target (binary ∷ args) target)

unfoldable pub reply_argv :
    ContainerdTarget → EngineStartPlanReply → Outcome StartPlanError (List String)
reply_argv target rep =
    if str_eq rep.error "" then addressed_argv target rep.argv else err (plan_error rep.error)

-- The engine class takes the request by value; its JSON transport is part of the argument.
module _ (invoke : String → EngineStartPlanRequest → Outcome String EngineStartPlanReply) where
  unfoldable pub start_argv :
      ContainerdTarget → Outcome String EngineStartPlanReply → Outcome StartPlanError (List String)
  unfolding reply_argv
  start_argv target (err e) = err (invoke_failed e)
  start_argv target (ok rep) = reply_argv target rep

  unfoldable pub krun_start_argv :
      KrunPlan → ContainerdTarget → Outcome StartPlanError (List String)
  unfolding start_argv krun_start_plan_request
  krun_start_argv plan target =
      start_argv target (invoke plan.engine (krun_start_plan_request plan))
