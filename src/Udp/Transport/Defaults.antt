-- ===== src/Udp/Transport/Defaults.antt =====
-- What the options can make of a new transport, and what `ReliabilityManager` takes from it.
use gomcp.Prelude.{◌<◌, Bool, String, List, [], ◌∷◌, arith}
use gomcp.Udp.Transport.{
  Transport, UdpOption, apply_option, apply_options, default_transport, new_transport,
}

-- The settings that no option can make zero.
pub record IsConfigured (t : Transport) : Type 0 where
  pub packet : 0 < t.max_packet_size
  pub read_buffer : 0 < t.read_buffer_size
  pub write_buffer : 0 < t.write_buffer_size
  pub read : 0 < t.read_timeout
  pub write : 0 < t.write_timeout
  pub reconnect : 0 < t.reconnect_delay
  pub retries : 0 < t.max_retries
  pub ttl : 0 < t.fragment_ttl
  pub first_retry : 0 < t.initial_retry_interval
  pub last_retry : 0 < t.max_retry_interval
  pub sliding_window : 0 < t.sliding_window_size

apply_option-IsConfigured :
    (o : UdpOption) (t : Transport) → IsConfigured t → IsConfigured (apply_option o t)
unfolding apply_option
apply_option-IsConfigured o t v = ground arith

apply_options-IsConfigured :
    (os : List UdpOption) (t : Transport) → IsConfigured t → IsConfigured (apply_options os t)
unfolding apply_options
apply_options-IsConfigured [] t v = v
apply_options-IsConfigured (o ∷ os) t v =
    apply_options-IsConfigured os (apply_option o t) (apply_option-IsConfigured o t v)

-- Whatever options are given, zero and negative ones included, a new transport has positive sizes,
-- timeouts, retry settings and fragment lifetime.
pub new_transport-IsConfigured :
    (addr : String) (is_server : Bool) (os : List UdpOption)
    → IsConfigured (new_transport addr is_server os)
unfolding new_transport default_transport
new_transport-IsConfigured addr is_server os =
    apply_options-IsConfigured os (default_transport addr is_server) (omega arith)
