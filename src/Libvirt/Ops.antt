-- ===== src/Libvirt/Ops.antt =====
-- candy/plugin-vm/provider.go: dispatchInternalOp for the operations that the libvirt backend calls.
-- A connection is opened for each and closed behind it; neither is seen by the calls. The reply is a
-- record of what the caller decodes from its JSON: a field that is absent there is false or none.
use plugin_vm.Base.{
  Bool, true, false, ◌||◌, ◌&&◌, not, Option, none, some, String, str_eq, is_some, if◌then◌else◌,
  Outcome, ok, err,
}
use plugin_vm.Snapshot.{SnapshotError}
use plugin_vm.Snapshot.External.{with_snapshot_writable}
use plugin_vm.Libvirt.{
  DomainState, nostate, is_running, domain_state_string, LibvirtSeams, is_snapshot_disk,
  graceful_stop_domain, remove_domain_snapshots, start_domain, active_disk_path,
}

pub data OpError : Type 0 where
  connecting_failed domain_not_found shutdown_failed undefine_failed : String → OpError
  starting_failed : SnapshotError → OpError

pub record OpReply : Type 0 where
  pub exists : Bool
  pub running : Bool
  pub state : String
  pub failed : Bool
  pub error : Option OpError
  pub already_running : Bool
  pub already_gone : Bool

abbrev pub plain_reply : Option OpError → OpReply
plain_reply e = record {
  exists = false;
  running = false;
  state = "";
  failed = false;
  error = e;
  already_running = false;
  already_gone = false;
}

unfoldable pub terminal_domain_state : String → Bool
terminal_domain_state state =
    str_eq state "absent"
    || str_eq state "unreachable"
    || str_eq state "crashed"
    || str_eq state "shut off"

unfoldable pub make_domain_state_reply : Bool → Bool → String → Option OpError → OpReply
unfolding terminal_domain_state
make_domain_state_reply exists running state e = record (plain_reply e) {
  exists = exists;
  running = running;
  state = state;
  failed = terminal_domain_state state;
}

-- guestPingState
pub record PingReply : Type 0 where
  pub ready : Bool
  pub state : String
  pub failed : Bool
  pub error : Option String

unfoldable pub guest_ping_state : String → Option String → PingReply
unfolding terminal_domain_state
guest_ping_state state e =
    let named = if str_eq state "" then "absent" else state in
    record {
      ready = str_eq named "running" && not (is_some e);
      state = named;
      failed = terminal_domain_state named;
      error = e;
    }

module _ {W Dom Snap : Type 0} (l : LibvirtSeams W Dom Snap) where
  -- The error of the state call is dropped, and leaves no state.
  abbrev pub state_or_none : Outcome String DomainState → DomainState
  state_or_none (err e) = nostate
  state_or_none (ok st) = st

  unfoldable pub looked_up_state : W → Outcome String Dom → OpReply
  unfolding make_domain_state_reply
  looked_up_state w (err e) = make_domain_state_reply false false "absent" none
  looked_up_state w (ok dom) =
      let st = state_or_none (l.get_state w dom) in
      make_domain_state_reply true (is_running st) (domain_state_string st) none

  unfoldable pub connected_state : W → String → Option String → OpReply
  unfolding looked_up_state make_domain_state_reply
  connected_state w name (some e) =
      make_domain_state_reply false false "unreachable" (some (connecting_failed e))
  connected_state w name none = looked_up_state w (l.lookup_domain w name)

  unfoldable pub domain_state_op : W → String → OpReply
  unfolding connected_state
  domain_state_op w name = connected_state w name (l.connect w)

  abbrev pinged : DomainState → (W → Dom → Option String) → W → Dom → PingReply
  unfolding guest_ping_state
  pinged st ping w dom =
      if is_running st
      then guest_ping_state "running" (ping w dom)
      else guest_ping_state (domain_state_string st) none

  looked_up_ping : W → Outcome String Dom → PingReply
  unfolding pinged guest_ping_state
  looked_up_ping w (err e) = guest_ping_state "absent" none
  looked_up_ping w (ok dom) = pinged (state_or_none (l.get_state w dom)) l.ping_agent w dom

  connected_ping : W → String → Option String → PingReply
  unfolding looked_up_ping guest_ping_state
  connected_ping w name (some e) = guest_ping_state "unreachable" (some e)
  connected_ping w name none = looked_up_ping w (l.lookup_domain w name)

  unfoldable pub guest_ping_op : W → String → PingReply
  unfolding connected_ping
  guest_ping_op w name = connected_ping w name (l.connect w)

  abbrev pub Replied : Type 0
  Replied = W × OpReply

  unfoldable pub start_reply : W × Outcome SnapshotError (Unit {0}) → Replied
  start_reply (w, ok _) = (w, plain_reply none)
  start_reply (w, err e) = (w, plain_reply (some (starting_failed e)))

  -- The disk of a snapshot is made writable for the start only.
  unfoldable pub start_stopped : Dom → W → Replied
  unfolding start_reply
  start_stopped dom w =
      let path = active_disk_path l w dom in
      start_reply (
        if is_snapshot_disk path
        then with_snapshot_writable l.snapshots path (start_domain l dom) w
        else start_domain l dom w)

  unfoldable pub reads_running : Outcome String DomainState → Bool
  reads_running (err e) = false
  reads_running (ok st) = is_running st

  unfoldable pub start_on : Dom → W → Replied
  unfolding start_stopped
  start_on dom w =
      if reads_running (l.get_state w dom)
      then (w, record (plain_reply none) { already_running = true })
      else start_stopped dom w

  unfoldable pub shutdown_reply : W × Option String → Replied
  shutdown_reply (w, none) = (w, plain_reply none)
  shutdown_reply (w, some e) = (w, plain_reply (some (shutdown_failed e)))

  -- The error of a forced stop is dropped.
  unfoldable pub stop_on : Bool → Dom → W → Replied
  unfolding shutdown_reply
  stop_on true dom w = ((l.destroy_domain dom w).0, plain_reply none)
  stop_on false dom w = shutdown_reply (l.shutdown_domain dom w)

  undefine_reply : W × Option String → Replied
  undefine_reply (w, none) = (w, plain_reply none)
  undefine_reply (w, some e) = (w, plain_reply (some (undefine_failed e)))

  unfoldable pub destroy_on : Dom → W → Replied
  unfolding undefine_reply graceful_stop_domain remove_domain_snapshots
  destroy_on dom w =
      undefine_reply
        (l.undefine_domain dom (remove_domain_snapshots l dom (graceful_stop_domain l dom w)))

  -- A missing domain is an error, save for destroy.
  unfoldable pub on_domain :
      (String → OpReply) → (Dom → W → Replied) → W → Outcome String Dom → Replied
  on_domain missing op w (err e) = (w, missing e)
  on_domain missing op w (ok dom) = op dom w

  unfoldable pub on_connection :
      String → (String → OpReply) → (Dom → W → Replied) → W → Option String → Replied
  unfolding on_domain
  on_connection name missing op w (some e) = (w, plain_reply (some (connecting_failed e)))
  on_connection name missing op w none = on_domain missing op w (l.lookup_domain w name)

  abbrev pub not_found : String → OpReply
  not_found e = plain_reply (some (domain_not_found e))

  unfoldable pub start_op : String → W → Replied
  unfolding on_connection start_on
  start_op name w = on_connection name not_found start_on w (l.connect w)

  unfoldable pub stop_op : String → Bool → W → Replied
  unfolding on_connection stop_on
  stop_op name force w = on_connection name not_found (stop_on force) w (l.connect w)

  unfoldable pub destroy_op : String → W → Replied
  unfolding on_connection destroy_on
  destroy_op name w =
      on_connection name (λ e. record (plain_reply none) { already_gone = true }) destroy_on w
        (l.connect w)
