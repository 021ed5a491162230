-- ===== src/Udp/Transport.antt =====
-- The transport of transport/udp/udp.go: its state, its options and `NewTransport`.
-- A channel with a capacity is the list of what it holds, oldest first. `wire` is the log of the
-- packets handed to `conn.Write`, and `done_closed` says whether `doneCh` has been closed. The mutexes are left out: each modelled operation is one critical
-- section, and the message ids are taken atomically.
pub mod Defaults
use gomcp.Prelude.{
  ℕ, ◌+◌, ◌*◌, ◌%◌, ◌^◌, Bool, true, false, String, Option, none, List, [], ◌∷◌, ◌++◌, ltb,
  if◌then◌else◌, length, Dict, ℤ, is_positive, to_nat,
}
use gomcp.Udp.Header.{HeaderError}
use gomcp.Udp.Reliability.{
  ReliabilityLevel, reliability_none, reliability_basic, RetransmitStrategy, retransmit_exponential,
  ReliabilityManager, millisecond, is_none,
}

abbrev pub default_max_packet_size : ℕ
default_max_packet_size = 1400

abbrev pub default_buffer_size : ℕ
default_buffer_size = 4096

abbrev pub second : ℕ
second = 1000 * millisecond

abbrev pub max_concurrent_reassembly : ℕ
max_concurrent_reassembly = 100

-- The capacities that `NewTransport` gives to `readCh` and `errCh`.
abbrev pub read_capacity : ℕ
read_capacity = 100

abbrev pub err_capacity : ℕ
err_capacity = 10

pub data Error : Type 0 where
  not_initialized message_too_large : Error
  deadline_failed write_failed : Error
  invalid_header : HeaderError → Error
  checksum_mismatch : ℕ → ℕ → Error
  read_channel_full : Error
  reassembly_queue_full : ℕ → Error
  no_fragments : ℕ → Error
  missing_fragment : ℕ → ℕ → Error

-- `content` is the source's `Data`.
pub record FragmentInfo : Type 0 where
  pub received_time : ℕ
  pub content : List ℕ

-- `remote_addr` is what `conn.RemoteAddr()` answers: nothing for a listening socket. A write
-- timeout of 0 stands for none.
pub record Transport : Type 0 where
  pub addr : String
  pub is_server : Bool
  pub connected : Bool
  pub remote_addr : Option String
  pub max_packet_size : ℕ
  pub read_buffer_size : ℕ
  pub write_buffer_size : ℕ
  pub read_timeout : ℕ
  pub write_timeout : ℕ
  pub reconnect_delay : ℕ
  pub max_retries : ℕ
  pub fragment_ttl : ℕ
  pub next_message_id : ℕ
  pub reliability_enabled : Bool
  pub reliability_level : ReliabilityLevel
  pub retransmit_strategy : RetransmitStrategy
  pub initial_retry_interval : ℕ
  pub max_retry_interval : ℕ
  pub sliding_window_size : ℕ
  pub reliability_manager : Option ReliabilityManager
  pub client_addrs : Dict String String
  pub fragments : Dict ℕ (Dict ℕ FragmentInfo)
  pub reassembly_queue : List ℕ
  pub read_ch : List (List ℕ)
  pub err_ch : List Error
  pub wire : List (List ℕ)
  pub running : Bool
  pub done_closed : Bool

-- How a call ends. A Go panic is an end of its own.
pub data Outcome : Type 0 where
  done : Outcome
  failed : Error → Outcome
  panic : Outcome

-- `UDPOption`, with the argument of each option.
pub data UdpOption : Type 0 where
  with_max_packet_size with_read_buffer_size with_write_buffer_size : ℤ → UdpOption
  with_read_timeout with_write_timeout with_reconnect_delay with_max_retries : ℤ → UdpOption
  with_fragment_ttl : ℤ → UdpOption
  with_reliability : Bool → UdpOption
  with_reliability_level : ReliabilityLevel → UdpOption
  with_retransmit_strategy : RetransmitStrategy → UdpOption
  with_retry_limit with_retry_interval with_max_retry_interval : ℤ → UdpOption
  with_sliding_window_size : ℤ → UdpOption

abbrev if_positive : ℤ → (ℕ → Transport) → Transport → Transport
if_positive n set t = if is_positive n then set (to_nat n) else t

unfoldable pub apply_option : UdpOption → Transport → Transport
apply_option (with_max_packet_size n) t = if_positive n (λ k. record t { max_packet_size = k }) t
apply_option (with_read_buffer_size n) t = if_positive n (λ k. record t { read_buffer_size = k }) t
apply_option (with_write_buffer_size n) t =
    if_positive n (λ k. record t { write_buffer_size = k }) t
apply_option (with_read_timeout n) t = if_positive n (λ k. record t { read_timeout = k }) t
apply_option (with_write_timeout n) t = if_positive n (λ k. record t { write_timeout = k }) t
apply_option (with_reconnect_delay n) t = if_positive n (λ k. record t { reconnect_delay = k }) t
apply_option (with_max_retries n) t = if_positive n (λ k. record t { max_retries = k }) t
apply_option (with_fragment_ttl n) t = if_positive n (λ k. record t { fragment_ttl = k }) t
apply_option (with_reliability on) t = record t {
  reliability_enabled = on;
  reliability_level = if on then reliability_basic else reliability_none;
}
apply_option (with_reliability_level level) t =
    if is_none level
    then record t { reliability_enabled = false; reliability_level = reliability_none }
    else record t { reliability_enabled = true; reliability_level = level }
apply_option (with_retransmit_strategy s) t = record t { retransmit_strategy = s }
apply_option (with_retry_limit n) t = if_positive n (λ k. record t { max_retries = k }) t
apply_option (with_retry_interval n) t =
    if_positive n (λ k. record t { initial_retry_interval = k }) t
apply_option (with_max_retry_interval n) t =
    if_positive n (λ k. record t { max_retry_interval = k }) t
apply_option (with_sliding_window_size n) t =
    if_positive n (λ k. record t { sliding_window_size = k }) t

unfoldable pub default_transport : String → Bool → Transport
default_transport addr is_server = record {
  addr = addr;
  is_server = is_server;
  connected = false;
  remote_addr = none;
  max_packet_size = default_max_packet_size;
  read_buffer_size = default_buffer_size;
  write_buffer_size = default_buffer_size;
  read_timeout = 30 * second;
  write_timeout = 10 * second;
  reconnect_delay = second;
  max_retries = 3;
  fragment_ttl = 30 * second;
  next_message_id = 0;
  reliability_enabled = false;
  reliability_level = reliability_none;
  retransmit_strategy = retransmit_exponential;
  initial_retry_interval = 500 * millisecond;
  max_retry_interval = 10 * second;
  sliding_window_size = 16;
  reliability_manager = none;
  client_addrs = [];
  fragments = [];
  reassembly_queue = [];
  read_ch = [];
  err_ch = [];
  wire = [];
  running = false;
  done_closed = false;
}

unfoldable pub apply_options : List UdpOption → Transport → Transport
apply_options [] t = t
apply_options (o ∷ os) t = apply_options os (apply_option o t)

unfoldable pub new_transport : String → Bool → List UdpOption → Transport
new_transport addr is_server options = apply_options options (default_transport addr is_server)

-- `atomic.AddUint32(&t.nextMessageID, 1)`
unfoldable pub generate_message_id : Transport → ℕ × Transport
generate_message_id t =
    let id = (t.next_message_id + 1) % 2 ^ 32 in (id, record t { next_message_id = id })

-- Sends that do not block: what does not fit is dropped.
unfoldable pub push_err : Error → Transport → Transport
push_err e t =
    if ltb (length t.err_ch) err_capacity then record t { err_ch = t.err_ch ++ (e ∷ []) } else t

unfoldable pub push_read : List ℕ → Transport → Transport
push_read message t =
    if ltb (length t.read_ch) read_capacity
    then record t { read_ch = t.read_ch ++ (message ∷ []) }
    else push_err read_channel_full t

unfoldable pub write_packet : List ℕ → Transport → Transport
write_packet packet t = record t { wire = t.wire ++ (packet ∷ []) }
