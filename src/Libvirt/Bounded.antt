-- ===== src/Libvirt/Bounded.antt =====
-- candy/plugin-vm/vm_libvirt.go: boundedRPCValue and boundedRPC, as the steps of the caller, of the
-- goroutine that runs the remote call, and of the clock; and the bounds of libvirt_bounded.go.
pub mod Runs
use plugin_vm.Base.{
  ℕ, zero, suc, ◌+◌, ◌*◌, ◌≤◌, ◌<◌, ◌≡◌, Option, none, some, String, Outcome, ok, err,
}

-- The error of the remote call, or that of the bound.
pub data RpcError : Type 0 where
  rpc_failed : String → RpcError
  did_not_respond : String → ℕ → RpcError

-- The goroutine: it runs the call, or has sent the result.
pub data Worker (A : Type 0) : Type 0 where
  working : Worker A
  sent : Outcome RpcError A → Worker A

-- The caller: in the `select`, or back with a result at a time.
pub data Caller (A : Type 0) : Type 0 where
  selecting : Caller A
  returned : ℕ → Outcome RpcError A → Caller A

-- `done` is the channel of capacity 1; the clock counts from the start of the call.
pub record Call (A : Type 0) : Type 0 where
  pub clock : ℕ
  pub worker : Worker A
  pub done : Option (Outcome RpcError A)
  pub caller : Caller A

abbrev pub start_call : {A : Type 0} → Call A
start_call = record { clock = 0; worker = working; done = none; caller = selecting }

-- A result of the remote call.
abbrev pub result_of : {A : Type 0} → Outcome String A → Outcome RpcError A
result_of (ok a) = ok a
result_of (err e) = err (rpc_failed e)

-- The steps of a call with a bound. The remote call may deliver at any time, or never. Time passes
-- at any time: nothing promises when a case of the `select` that is ready is taken, and of two that
-- are ready it takes either. The timer is ready from the bound on. The goroutine sends whether the
-- caller is still there or not.
pub data Step {A : Type 0} (op : String) (bound : ℕ) (c c' : Call A) : Type 0 where
  deliver :
      (r : Outcome String A)
      → c.worker ≡ working
      → c.done ≡ none
      → c' ≡ record c { worker = sent (result_of r); done = some (result_of r) }
      → Step op bound c c'
  receive :
      (r : Outcome RpcError A)
      → c.caller ≡ selecting
      → c.done ≡ some r
      → c' ≡ record c { done = none; caller = returned c.clock r }
      → Step op bound c c'
  expire :
      c.caller ≡ selecting
      → bound ≤ c.clock
      → c' ≡ record c { caller = returned c.clock (err (did_not_respond op bound)) }
      → Step op bound c c'
  pass : c' ≡ record c { clock = suc c.clock } → Step op bound c c'

pub data Reach {A : Type 0} (op : String) (bound : ℕ) : Call A → Type 0 where
  started : Reach op bound start_call
  next : {c c' : Call A} → Reach op bound c → Step op bound c c' → Reach op bound c'

-- The bounds, in milliseconds: teardownRPCBound, which the probes of the check verbs share, that of
-- a screenshot, and that of a guest agent's command beside its own timeout in seconds.
abbrev pub teardown_rpc_bound : ℕ
teardown_rpc_bound = 30000

abbrev pub libvirt_probe_bound : ℕ
libvirt_probe_bound = teardown_rpc_bound

unfoldable pub screenshot_bound : ℕ
screenshot_bound = 1500

unfoldable pub agent_bound : ℕ → ℕ
agent_bound timeout_sec = timeout_sec * 1000 + libvirt_probe_bound
