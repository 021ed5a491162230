-- ===== src/Udp/Reliability/State.antt =====
-- The types of transport/udp/reliability.go and its new manager.
use gomcp.Prelude.{ℕ, ◌*◌, Bool, true, false, String, List, [], Dict, nat_key, string_key}

pub data ReliabilityLevel : Type 0 where
  reliability_none reliability_basic reliability_full : ReliabilityLevel

pub data AckType : Type 0 where
  ack_single ack_cumulative : AckType

pub data RetransmitStrategy : Type 0 where
  retransmit_fixed retransmit_exponential : RetransmitStrategy

pub record AckInfo : Type 0 where
  pub kind : AckType
  pub message_id : ℕ
  pub timestamp : ℕ

-- `content` is the source's `Data`.
pub record PendingMessage : Type 0 where
  pub message_id : ℕ
  pub content : List ℕ
  pub first_sent_time : ℕ
  pub last_sent_time : ℕ
  pub retry_count : ℕ
  pub retry_limit : ℕ
  pub next_retry_time : ℕ
  pub retry_interval : ℕ
  pub initial_interval : ℕ
  pub max_interval : ℕ
  pub strategy : RetransmitStrategy
  pub fragments : List (List ℕ)
  pub acknowledged : Bool

pub record ReliabilityMetrics : Type 0 where
  pub packets_sent : ℕ
  pub packets_retransmitted : ℕ
  pub acks_received : ℕ
  pub messages_failed : ℕ
  pub average_rtt : ℕ
  pub rtts : List ℕ
  pub max_rtts : ℕ

-- Without the mutexes, and without the pointer back to the transport: what the manager reads of
-- it, whether there is a connection, is an argument.
pub record ReliabilityManager : Type 0 where
  pub level : ReliabilityLevel
  pub pending_messages : Dict ℕ PendingMessage
  pub last_acks : Dict String AckInfo
  pub retransmit_ch : List ℕ
  pub initial_retry_interval : ℕ
  pub max_retry_interval : ℕ
  pub retry_strategy : RetransmitStrategy
  pub retry_limit : ℕ
  pub sliding_window_size : ℕ
  pub metrics : ReliabilityMetrics
  pub running : Bool
  pub done : Bool

abbrev pub millisecond : ℕ
millisecond = 1_000_000

-- The capacity that `NewReliabilityManager` gives to `retransmitCh`.
abbrev pub retransmit_capacity : ℕ
retransmit_capacity = 100

abbrev pub new_metrics : ReliabilityMetrics
new_metrics = record {
  packets_sent = 0;
  packets_retransmitted = 0;
  acks_received = 0;
  messages_failed = 0;
  average_rtt = 0;
  rtts = [];
  max_rtts = 100;
}

unfoldable pub new_reliability_manager : ReliabilityLevel → ReliabilityManager
new_reliability_manager level = record {
  level = level;
  pending_messages = [];
  last_acks = [];
  retransmit_ch = [];
  initial_retry_interval = 500 * millisecond;
  max_retry_interval = 10_000 * millisecond;
  retry_strategy = retransmit_exponential;
  retry_limit = 5;
  sliding_window_size = 16;
  metrics = new_metrics;
  running = false;
  done = false;
}

abbrev pub is_none : ReliabilityLevel → Bool
is_none reliability_none = true
is_none reliability_basic = false
is_none reliability_full = false
