-- ===== src/Udp/Lifecycle.antt =====
-- `Initialize`, `Start` and `Stop` of transport/udp/udp.go. The answers of the socket calls are a
-- parameter. `runningMu` is explicit where it matters: `Start` holds it while it calls `Initialize`.
pub mod Restart
use gomcp.Prelude.{Bool, true, false, not, ◌&&◌, String, Option, none, some, [], ltb, if◌then◌else◌}
use gomcp.Udp.Reliability.{ReliabilityManager, new_reliability_manager}
use gomcp.Udp.Reliability
use gomcp.Udp.Transport.{Transport}

-- What the operating system answers; `remote` is the remote address of the socket, if it has one.
pub record Socket : Type 0 where
  pub resolves : Bool
  pub opens : Bool
  pub read_buffer_set : Bool
  pub write_buffer_set : Bool
  pub closes : Bool
  pub remote : Option String

pub data SetupError : Type 0 where
  not_resolved not_opened read_buffer_failed write_buffer_failed not_closed : SetupError

-- How a call ends; `hangs` is a call that waits for a lock for ever, `panics` a second `close`.
pub data End : Type 0 where
  returned : End
  failed_with : SetupError → End
  hangs panics : End

-- The manager that `Initialize` leaves behind.
abbrev pub with_manager : Transport → Transport
with_manager t =
    if t.reliability_enabled
    then record t { reliability_manager = some (new_reliability_manager t.reliability_level) }
    else t

-- `Initialize`, called with `runningMu` free or held.
unfoldable pub initialize : Socket → Bool → Transport → Transport × End
initialize os true t = (t, hangs)
initialize os false t =
    if t.running
    then (t, returned)
    else if not os.resolves
    then (t, failed_with not_resolved)
    else if not os.opens
    then (record t { connected = false }, failed_with not_opened)
    else (let t' = record t { connected = true; remote_addr = os.remote } in
        if ltb 0 t.read_buffer_size && not os.read_buffer_set
        then (t', failed_with read_buffer_failed)
        else if ltb 0 t.write_buffer_size && not os.write_buffer_set
        then (t', failed_with write_buffer_failed)
        else (with_manager t', returned))

abbrev started_manager : Transport → Option ReliabilityManager
started_manager t = elim t.reliability_manager [
  | none ↦ none
  | some rm ↦ if t.reliability_enabled then some (Reliability.start rm) else some rm
]

-- The session that `Start` begins once there is a connection.
abbrev pub session : Transport → Transport
session t = record t {
  done_closed = false;
  fragments = [];
  reassembly_queue = [];
  reliability_manager = started_manager t;
  running = true;
}

unfoldable pub begin : Transport × End → Transport × End
begin (t, returned) = (session t, returned)
begin (t, failed_with e) = (t, failed_with e)
begin (t, hangs) = (t, hangs)
begin (t, panics) = (t, panics)

unfoldable pub start : Socket → Transport → Transport × End
start os t =
    if t.running
    then (t, returned)
    else begin (if t.connected then (t, returned) else initialize os true t)

-- The manager after `Stop`; the outer `none` is its panic.
unfoldable pub stopped_manager : Transport → Option (Option ReliabilityManager)
stopped_manager t = elim t.reliability_manager [
  | none ↦ some none
  | some rm ↦
      if not t.reliability_enabled
      then some (some rm)
      else elim (Reliability.stop rm) [ none ↦ none | some rm' ↦ some (some rm') ]
]

-- The connection is forgotten before its error is looked at.
unfoldable pub disconnect : Socket → Transport → Transport × End
disconnect os t =
    if t.connected && not os.closes
    then (record t { connected = false }, failed_with not_closed)
    else (record t { connected = false; running = false }, returned)

unfoldable pub stop : Socket → Transport → Transport × End
unfolding stopped_manager disconnect
stop os t =
    if not t.running
    then (t, returned)
    else if t.done_closed
    then (t, panics)
    else elim (stopped_manager t) [
      | none ↦ (record t { done_closed = true }, panics)
      | some rm ↦ disconnect os (record t { done_closed = true; reliability_manager = rm })
    ]
