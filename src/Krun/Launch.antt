-- ===== src/Krun/Launch.antt =====
-- What a krun launch exposes, and the argv that the engine's reply becomes.
use plugin_vm.Base.{
  ◌≡◌, ◌≢◌, refl, true, false, Option, none, some, List, [], ◌∷◌, ◌++◌, map, String, str_eq,
  if◌then◌else◌, Bool-cases, inl, inr, Outcome, ok, err,
}
use mathlib.Core.List.{Sublistᴰ}
use plugin_vm.Base.Int.{ℤ, pos, ltb_ℤ}
use plugin_vm.Base.Print.{itoa, print_from, digit, ◌<>◌, fields}
use plugin_vm.Spec.{VmSpec, ContainerdTarget}
use plugin_vm.Krun.Plan.{
  KrunPlan, KrunPlanInput, KrunAnnotation, loopback, plan_ports, build_krun_plan,
  EngineStartPlanRequest, EngineStartPlanReply, StartPlanError, flag, krun_apply_target, plan_error,
  addressed_argv, reply_argv, start_argv, krun_start_argv, krun_start_plan_request,
}
use plugin_vm.Krun.Memory.{build_krun_plan-assemble}

-- The ports of the authored forwards, one for each in their order: the forward itself, bound to the
-- loopback address.
pub data Publishes : List String → List String → Type 0 where
  no_more : Publishes [] []
  forward :
      {f : String} {fs ports : List String}
      → Publishes fs ports
      → Publishes (f ∷ fs) (("127.0.0.1:" <> f) ∷ ports)

-- The ports of a guest: before them the guest's port 22, where the host has a port for SSH.
pub data Exposes (ssh_port : ℤ) (forwards : List String) : List String → Type 0 where
  with_ssh :
      {ports : List String}
      → ltb_ℤ (pos 0) ssh_port ≡ true
      → Publishes forwards ports
      → Exposes ssh_port forwards (("127.0.0.1:" <> itoa ssh_port <> ":22") ∷ ports)
  no_ssh :
      {ports : List String}
      → ltb_ℤ (pos 0) ssh_port ≡ false
      → Publishes forwards ports
      → Exposes ssh_port forwards ports

loopback-Publishes : (fs : List String) → Publishes fs (map loopback fs)
loopback-Publishes [] = no_more
loopback-Publishes (f ∷ fs) = forward (loopback-Publishes fs)

plan_ports-Exposes : (i : KrunPlanInput) → Exposes i.ssh_port i.port_forwards (plan_ports i)
unfolding itoa print_from digit
plan_ports-Exposes i = elim (Bool-cases (ltb_ℤ (pos 0) i.ssh_port)) [
  | inl ssh ↦ rw ssh (with_ssh ssh (loopback-Publishes i.port_forwards))
  | inr none_given ↦ rw none_given (no_ssh none_given (loopback-Publishes i.port_forwards))
]

abbrev pub annotation_value : String → List KrunAnnotation → Option String
annotation_value key [] = none
annotation_value key (a ∷ rest) =
    let later = annotation_value key rest in if str_eq a.key key then some a.value else later

module _ (resolve_vm_ram : VmSpec → String) (resolve_vm_cpus : VmSpec → ℤ) where
  -- The published ports of a plan are the host's SSH port, where it has one, for the guest's port 22,
  -- and then every authored forward, in order, each of them bound to the loopback address; nothing
  -- else is published.
  pub build_krun_plan-Exposes :
      (i : KrunPlanInput) (plan : KrunPlan)
      → build_krun_plan resolve_vm_ram resolve_vm_cpus i ≡ ok plan
      → Exposes i.ssh_port i.port_forwards plan.ports
  build_krun_plan-Exposes i plan e =
      let (c, g, _, _, _, same) = build_krun_plan-assemble resolve_vm_ram resolve_vm_cpus i e in
      rw same (plan_ports-Exposes i)

  -- The guest's RAM goes to the runtime as the annotation `krun.ram_mib` alone, and the container's
  -- limit to the engine as `--memory`, with as much for `--memory-swap`, so that there is no swap.
  pub build_krun_plan-memory_args :
      (i : KrunPlanInput) (plan : KrunPlan)
      → build_krun_plan resolve_vm_ram resolve_vm_cpus i ≡ ok plan
      → (annotation_value "krun.ram_mib" plan.annotations ≡ some (itoa plan.guest_mib))
        × ((rest : List String) × (plan.extra_args
              ≡ "--memory"
                ∷ (itoa plan.container_mib <> "m")
                ∷ "--memory-swap"
                ∷ (itoa plan.container_mib <> "m")
                ∷ rest))
  build_krun_plan-memory_args i plan e =
      let (c, g, _, _, _, same) = build_krun_plan-assemble resolve_vm_ram resolve_vm_cpus i e in
      rw same (refl, (_, refl))

Sublist-self : (xs : List String) → Sublistᴰ xs xs
Sublist-self [] = Sublistᴰ.slnil
Sublist-self (x ∷ xs) = Sublistᴰ.cons-cons refl (Sublist-self xs)

Sublist-behind : (ys : List String) {xs zs : List String} → Sublistᴰ xs zs → Sublistᴰ xs (ys ++ zs)
Sublist-behind [] s = s
Sublist-behind (y ∷ ys) s = Sublistᴰ.cons (Sublist-behind ys s)

-- Addressing an engine's argv only inserts: the argv is kept, each argument of it in its place
-- before the next.
pub krun_apply_target-Sublist :
    (argv : List String) (target : ContainerdTarget) → Sublistᴰ argv (krun_apply_target argv target)
unfolding krun_apply_target
krun_apply_target-Sublist [] target = Sublistᴰ.slnil
krun_apply_target-Sublist (binary ∷ args) target = Sublist-behind (fields target.privilege_prefix) (
    Sublistᴰ.cons-cons refl (
      Sublist-behind (flag "--address" target.address)
        (Sublist-behind (flag "--namespace" target.namespace) (Sublist-self args))))

addressed_argv-Sublist :
    (target : ContainerdTarget) (xs argv : List String)
    → addressed_argv target xs ≡ ok argv
    → (xs ≢ []) × Sublistᴰ xs argv
unfolding addressed_argv
addressed_argv-Sublist target [] argv h = absurd (cc)
addressed_argv-Sublist target (binary ∷ args) argv h =
    let same : krun_apply_target (binary ∷ args) target ≡ argv = cc in
    ((λ e. cc), rw (← same) (krun_apply_target-Sublist (binary ∷ args) target))

module _ (invoke : String → EngineStartPlanRequest → Outcome String EngineStartPlanReply) where
  -- A launch argv is made only from a reply of the engine that the plan names, to the plan's own
  -- request, with no error in it and an argv that is not empty; that argv is kept in order.
  pub krun_start_argv-from_reply :
      (plan : KrunPlan) (target : ContainerdTarget) (argv : List String)
      → krun_start_argv invoke plan target ≡ ok argv
      → (rep : EngineStartPlanReply) × (invoke plan.engine (krun_start_plan_request plan) ≡ ok rep)
        × (str_eq rep.error "" ≡ true)
        × (rep.argv ≢ [])
        × Sublistᴰ rep.argv argv
  unfolding krun_start_argv reply_argv
  krun_start_argv-from_reply plan target argv e =
      go (invoke plan.engine (krun_start_plan_request plan)) refl e
    where
      accepted :
          (rep : EngineStartPlanReply)
          → reply_argv target rep ≡ ok argv
          → (str_eq rep.error "" ≡ true) × (rep.argv ≢ []) × Sublistᴰ rep.argv argv
      accepted rep h = elim (Bool-cases (str_eq rep.error "")) [
        | inl fine ↦
            let (some_argv, kept) = addressed_argv-Sublist target rep.argv argv (rw fine at h) in
            (fine, some_argv, kept)
        | inr bad ↦ absurd (refused (rw bad at h))
      ]
        where
          refused :
              Path (Outcome StartPlanError (List String)) (err (plan_error rep.error)) (ok argv) → ⊥
          refused e = cc

      go :
          (r : Outcome String EngineStartPlanReply)
          → invoke plan.engine (krun_start_plan_request plan) ≡ r
          → start_argv invoke target r ≡ ok argv
          → (rep : EngineStartPlanReply) × (invoke plan.engine (krun_start_plan_request plan)
              ≡ ok rep)
            × (str_eq rep.error "" ≡ true)
            × (rep.argv ≢ [])
            × Sublistᴰ rep.argv argv
      go (ok rep) same h =
          let (no_error, some_argv, kept) = accepted rep h in (rep, same, no_error, some_argv, kept)
      go (err e) same h = cc
