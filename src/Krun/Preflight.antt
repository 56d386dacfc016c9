-- ===== src/Krun/Preflight.antt =====
-- krunPreflight: the engine, its capability and the containerd target that a krun guest needs.
use plugin_vm.Base.{
  ◌≡◌, ◌⊎◌, Bool, true, false, ◌||◌, Option, none, some, List, [], ◌∷◌, String, str_eq, arith,
  if◌then◌else◌, Outcome, ok, err,
}
use plugin_vm.Spec.{ContainerdTarget}
use plugin_vm.Krun.Plan.{krun_runtime_handler}

-- container.EngineCapability
pub record EngineCapability : Type 0 where
  pub binary : String
  pub runtime_handlers : List String

pub data PreflightError : Type 0 where
  no_runtime : String → PreflightError
  no_capability : String → PreflightError
  handler_not_declared : String → List String → PreflightError
  engine_not_on_path : String → String → PreflightError
  handler_runtime_missing : String → PreflightError
  target_unresolved : String → PreflightError

-- slices.Contains
unfoldable pub contains : List String → String → Bool
contains [] x = false
contains (y ∷ ys) x = str_eq y x || contains ys x

-- What the preflight asks of the host: the configured engine (kit.ResolveRuntime), the capability
-- table (container.EngineCapabilityFor), exec.LookPath, and deploykit.ResolveContainerdTarget.
pub record KrunHost : Type 0 where
  pub run_engine : Outcome String String
  pub capability_for : String → Option EngineCapability
  pub on_path : String → Bool
  pub resolve_target : String → Outcome String ContainerdTarget

any_on_path : KrunHost → List String → Bool
any_on_path host [] = false
any_on_path host (bin ∷ bins) = host.on_path bin || any_on_path host bins

unfoldable pub krun_handler_runtime_installed : KrunHost → Bool
unfolding any_on_path
krun_handler_runtime_installed host = any_on_path host ("crun" ∷ "crun-krun" ∷ [])

abbrev pub Preflight : Type 0
Preflight = Outcome PreflightError (String × EngineCapability × ContainerdTarget)

with_target : String → EngineCapability → Outcome String ContainerdTarget → Preflight
with_target engine cap (err e) = err (target_unresolved e)
with_target engine cap (ok target) = ok (engine, cap, target)

with_capability : KrunHost → String → Option EngineCapability → Preflight
unfolding with_target
with_capability host engine none = err (no_capability engine)
with_capability host engine (some cap) =
    if contains cap.runtime_handlers krun_runtime_handler
    then (if host.on_path cap.binary
        then (if krun_handler_runtime_installed host
            then with_target engine cap (host.resolve_target engine)
            else err (handler_runtime_missing engine))
        else err (engine_not_on_path engine cap.binary))
    else err (handler_not_declared engine cap.runtime_handlers)

with_engine : KrunHost → Outcome String String → Preflight
unfolding with_capability
with_engine host (err e) = err (no_runtime e)
with_engine host (ok engine) = with_capability host engine (host.capability_for engine)

unfoldable pub krun_preflight : KrunHost → Preflight
unfolding with_engine
krun_preflight host = with_engine host host.run_engine

-- A host that can run a krun guest on `engine` with `cap` and `target`.
pub record IsKrunHost (host : KrunHost) (engine : String) (cap : EngineCapability)
    (target : ContainerdTarget) : Type 0 where
  pub selected : host.run_engine ≡ ok engine
  pub known : host.capability_for engine ≡ some cap
  pub declares : contains cap.runtime_handlers krun_runtime_handler ≡ true
  pub engine_installed : host.on_path cap.binary ≡ true
  pub runtime_installed : (host.on_path "crun" ≡ true) ⊎ (host.on_path "crun-krun" ≡ true)
  pub addressed : host.resolve_target engine ≡ ok target

-- The preflight passes only on a host that has all it promises: the selected engine declares the
-- krun handler, the engine's CLI and a runtime of the handler are on the path, the target resolves.
pub krun_preflight-IsKrunHost :
    (host : KrunHost) (engine : String) (cap : EngineCapability) (target : ContainerdTarget)
    → krun_preflight host ≡ ok (engine, cap, target)
    → IsKrunHost host engine cap target
unfolding krun_preflight krun_handler_runtime_installed
krun_preflight-IsKrunHost host engine cap target h = ground arith

-- And it passes on every such host.
pub krun_preflight_of_IsKrunHost :
    (host : KrunHost) (engine : String) (cap : EngineCapability) (target : ContainerdTarget)
    → IsKrunHost host engine cap target
    → krun_preflight host ≡ ok (engine, cap, target)
unfolding krun_preflight krun_handler_runtime_installed
krun_preflight_of_IsKrunHost host engine cap target h = ground arith
