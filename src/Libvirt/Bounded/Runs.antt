-- ===== src/Libvirt/Bounded/Runs.antt =====
-- boundedRPCValue: every run of it, however the goroutine and the clock are scheduled.
use plugin_vm.Base.{
  ℕ, zero, suc, ◌+◌, ◌*◌, ◌≤◌, ◌<◌, ◌≡◌, refl, Option, none, some, String, Outcome, err, arith,
}
use mathlib.Core.Path.{subst}
use native.Mathlib.Decide.{dec_lt}
use plugin_vm.Base.Int.{ℤ}
use plugin_vm.Recorder.{capture_interval}
use plugin_vm.Recorder.Frames.{capture_interval-bounds}
use plugin_vm.Libvirt.Bounded.{
  RpcError, did_not_respond, Worker, working, sent, Caller, selecting, returned, Call, start_call,
  result_of, Step, deliver, receive, expire, pass, Reach, started, next, screenshot_bound,
}

module _ {A : Type 0} (op : String) (bound : ℕ) where
  -- Where the result of a call that is back comes from: the bound has passed, or the goroutine sent
  -- it.
  pub data IsResult (w : Worker A) (t : ℕ) (r : Outcome RpcError A) : Type 0 where
    timed_out : bound ≤ t → r ≡ err (did_not_respond op bound) → IsResult w t r
    answered : w ≡ sent r → IsResult w t r

  abbrev CallerFits : Worker A → Caller A → Type 0
  CallerFits w selecting = Unit
  CallerFits w (returned t r) = IsResult w t r

  -- What is in the channel was sent, and there is room in it until then.
  abbrev ChannelFits : Worker A → Option (Outcome RpcError A) → Type 0
  ChannelFits w none = Unit
  ChannelFits w (some r) = w ≡ sent r

  record IsCall (c : Call A) : Type 0 where
    caller_fits : CallerFits c.worker c.caller
    channel_fits : ChannelFits c.worker c.done

  started-IsCall : IsCall start_call
  started-IsCall = record { caller_fits = tt; channel_fits = tt }

  delivered-fits :
      (w w' : Worker A) (caller : Caller A)
      → w ≡ working
      → CallerFits w caller
      → CallerFits w' caller
  delivered-fits w w' selecting idle h = tt
  delivered-fits w w' (returned t r) idle (timed_out at e) = timed_out at e
  delivered-fits w w' (returned t r) idle (answered e) = absurd (cc)

  in-channel :
      (w : Worker A) (done : Option (Outcome RpcError A)) (r : Outcome RpcError A)
      → done ≡ some r
      → ChannelFits w done
      → w ≡ sent r
  in-channel w none r e h = absurd (cc)
  in-channel w (some r') r e h = cc

  step-IsCall : {c c' : Call A} → Step op bound c c' → IsCall c → IsCall c'
  step-IsCall {c} (deliver r idle room e) h = rw e record {
    caller_fits = delivered-fits c.worker (sent (result_of r)) c.caller idle h.caller_fits;
    channel_fits = refl;
  }
  step-IsCall {c} (receive r at full e) h = rw e record {
    caller_fits = answered (in-channel c.worker c.done r full h.channel_fits);
    channel_fits = tt;
  }
  step-IsCall {c} (expire at late e) h =
      rw e record { caller_fits = timed_out late refl; channel_fits = h.channel_fits }
  step-IsCall {c} (pass e) h =
      rw e record { caller_fits = h.caller_fits; channel_fits = h.channel_fits }

  Reach-IsCall : {c : Call A} → Reach op bound c → IsCall c
  Reach-IsCall started = started-IsCall
  Reach-IsCall (next r st) = step-IsCall st (Reach-IsCall r)

  IsResult-fits :
      (w : Worker A) (caller : Caller A) (t : ℕ) (r : Outcome RpcError A)
      → caller ≡ returned t r
      → CallerFits w caller
      → IsResult w t r
  IsResult-fits w selecting t r e h = absurd (cc)
  IsResult-fits w (returned t' r') t r e h =
      let same_time : t' ≡ t = cc in
      let same_result : r' ≡ r = cc in
      subst (IsResult w t) same_result (subst (λ x. IsResult w x r') same_time h)

  -- However the goroutine, the caller and the clock are scheduled, a bounded call that is back has
  -- the result that the goroutine sent, or the error that names the operation and the bound; and that
  -- error never before the bound.
  pub bounded_rpc-IsResult :
      (c : Call A) (t : ℕ) (r : Outcome RpcError A)
      → Reach op bound c
      → c.caller ≡ returned t r
      → IsResult c.worker t r
  bounded_rpc-IsResult c t r reach back =
      IsResult-fits c.worker c.caller t r back (Reach-IsCall reach).caller_fits

  -- Steps of which none is the remote call's.
  pub data Alone : Call A → Call A → Type 0 where
    here : {c : Call A} → Alone c c
    further :
        {c c' c'' : Call A} → Step op bound c c' → c'.worker ≡ c.worker → Alone c' c'' → Alone c c''

  abbrev pub IsBack : Call A → Type 0
  IsBack c = (t : ℕ) × (r : Outcome RpcError A) × (c.caller ≡ returned t r)

  abbrev ComesBack : Call A → Type 0
  ComesBack c = (c' : Call A) × Alone c c' × IsBack c'

  expired : (c : Call A) → c.caller ≡ selecting → bound ≤ c.clock → ComesBack c
  expired c at late =
      let r : Outcome RpcError A = err (did_not_respond op bound) in
      let c' : Call A = record c { caller = returned c.clock r } in
      (c', further (expire at late refl) refl here, (c.clock, r, refl))

  alone_back : (left : ℕ) (c : Call A) → bound ≤ c.clock + left → c.caller ≡ selecting → ComesBack c
  alone_back zero c near at = expired c at (omega arith)
  alone_back (suc left) c near at = elim (dec_lt c.clock bound) [
    | no late ↦ expired c at (omega arith)
    | yes early ↦
        let c' : Call A = record c { clock = suc c.clock } in
        let (c'', steps, back) = alone_back left c' (omega arith) at in
        (c'', further (pass refl) refl steps, back)
  ]

  working-room :
      (w : Worker A) (done : Option (Outcome RpcError A))
      → w ≡ working
      → ChannelFits w done
      → done ≡ none
  working-room w none idle h = refl
  working-room w (some r) idle h = absurd (cc)

  -- A bounded call never hangs, and leaves no goroutine behind that cannot end: from every state that
  -- a run reaches, a caller that waits comes back without any step of the remote call, and a remote
  -- call that is still running can deliver its result, also to a caller that is gone.
  pub bounded_rpc-ComesBack :
      (c : Call A)
      → Reach op bound c
      → (c.caller ≡ selecting → (c' : Call A) × Alone c c' × IsBack c')
        × ((r : Outcome String A)
            → c.worker ≡ working
            → (c' : Call A) × Step op bound c c' × (c'.worker ≡ sent (result_of r)))
  bounded_rpc-ComesBack c reach = (
    (λ at. alone_back bound c (omega arith) at),
    (λ r idle. (
      record c { worker = sent (result_of r); done = some (result_of r) },
      deliver r idle (working-room c.worker c.done idle (Reach-IsCall reach).channel_fits) refl,
      refl,
    )),
  )

-- The bound of a screenshot is above the poll interval of every recording, whatever frame rate is
-- asked for: one screenshot that does not respond takes longer than a frame.
pub screenshot_bound-above : (fps : ℤ) → capture_interval fps < screenshot_bound * 1000000
unfolding screenshot_bound
screenshot_bound-above fps = omega (arith, capture_interval-bounds fps)
