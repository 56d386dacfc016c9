-- ===== src/Tests/Calls.antt =====
-- A remote call with a bound of one unit of time, that never responds: the caller is back at 1.
use plugin_vm.Base.{ℕ, ◌≡◌, refl, none, String, Outcome, err, arith}
use plugin_vm.Libvirt.Bounded.{
  did_not_respond, working, sent, selecting, returned, Call, result_of, Step, expire, pass, Reach,
  started, next,
}
use plugin_vm.Libvirt.Bounded.Runs.{
  IsResult, Alone, IsBack, bounded_rpc-IsResult, bounded_rpc-ComesBack,
}

abbrev after_wait : Call ℕ
after_wait = record { clock = 1; worker = working; done = none; caller = selecting }

abbrev late : Call ℕ
late = record {
  clock = 1;
  worker = working;
  done = none;
  caller = returned 1 (err (did_not_respond "screenshot" 1));
}

waited : Reach "screenshot" 1 after_wait
waited = next started (pass refl)

timed : Reach "screenshot" 1 late
timed = next waited (expire refl (omega arith) refl)

bounded_rpc-IsResult_example :
    IsResult "screenshot" 1 late.worker 1 (err (did_not_respond "screenshot" 1))
bounded_rpc-IsResult_example =
    bounded_rpc-IsResult "screenshot" 1 late 1 (err (did_not_respond "screenshot" 1)) timed refl

bounded_rpc-ComesBack_example :
    (after_wait.caller ≡ selecting
      → (c' : Call ℕ) × Alone "screenshot" 1 after_wait c' × IsBack "screenshot" 1 c')
    × ((r : Outcome String ℕ)
        → after_wait.worker ≡ working
        → (c' : Call ℕ) × Step "screenshot" 1 after_wait c' × (c'.worker ≡ sent (result_of r)))
bounded_rpc-ComesBack_example = bounded_rpc-ComesBack "screenshot" 1 after_wait waited
