-- ===== src/Udp/Reliability.antt =====
-- transport/udp/reliability.go: tracking of sent messages, acknowledgments and retransmission.
-- Times and durations are nanoseconds as natural numbers: each `time.Now()` is an argument `now`,
-- and an interval between two of them is a difference that stops at 0, since Go's clock readings
-- are monotonic. The packets that an operation hands to `conn.Write` are part of its result.
mod State
pub mod Acks
pub mod History
pub mod Invariant
pub mod Timeouts
pub mod Retries
unfoldable pub use State.*
use gomcp.Prelude.{
  ℕ, zero, suc, ◌+◌, ◌-◌, ◌*◌, ◌/◌, ◌≤◌, min, bit_and, bit_or, Bool, true, false, not, ◌&&◌, ◌||◌,
  String, Option, none, some, List, [], ◌∷◌, ◌++◌, ltb, leb, eqb, if◌then◌else◌, length, drop, Dict,
  lookup, insert, erase, nat_key, string_key,
}
use gomcp.Udp.Crc.{crc32}
use gomcp.Udp.Header.{
  PacketHeader, encode_header, magic_byte1, magic_byte2, flag_ack, flag_cumulative, flag_reliable,
  flag_single_fragment,
}

-- A message as `TrackMessage` first records it.
abbrev pub tracked : ReliabilityManager → ℕ → ℕ → List ℕ → List (List ℕ) → PendingMessage
tracked rm now message_id content fragments = record {
  message_id = message_id;
  content = content;
  first_sent_time = now;
  last_sent_time = now;
  retry_count = 0;
  retry_limit = rm.retry_limit;
  next_retry_time = now + rm.initial_retry_interval;
  retry_interval = rm.initial_retry_interval;
  initial_interval = rm.initial_retry_interval;
  max_interval = rm.max_retry_interval;
  strategy = rm.retry_strategy;
  fragments = fragments;
  acknowledged = false;
}

unfoldable pub track_message :
    ReliabilityManager → ℕ → ℕ → List ℕ → List (List ℕ) → ReliabilityManager
track_message rm now message_id content fragments = if is_none rm.level then rm else record rm {
  pending_messages =
      insert message_id (tracked rm now message_id content fragments) rm.pending_messages;
}

abbrev pub sum : List ℕ → ℕ
sum [] = 0
sum (x ∷ xs) = x + sum xs

-- The window of round-trip times after one more: the oldest goes when there are too many.
abbrev pub rtt_window : ℕ → List ℕ → ℕ → List ℕ
rtt_window limit rtts rtt =
    let longer = rtts ++ (rtt ∷ []) in if ltb limit (length longer) then drop 1 longer else longer

unfoldable pub update_rtt_metrics : ℕ → ReliabilityMetrics → ReliabilityMetrics
update_rtt_metrics rtt m =
    let window = rtt_window m.max_rtts m.rtts rtt in
    if ltb 0 (length window)
    then record m { rtts = window; average_rtt = sum window / length window }
    else record m { rtts = window }

unfoldable pub ack_type : PacketHeader → AckType
ack_type header =
    if eqb (bit_and header.flags flag_cumulative) 0 then ack_single else ack_cumulative

-- The loop over the pending messages of a cumulative acknowledgment: those up to the id go.
unfoldable pub drop_acked : ℕ → Dict ℕ PendingMessage → Dict ℕ PendingMessage
drop_acked message_id [] = []
drop_acked message_id ((id, pm) ∷ pending) =
    if leb id message_id
    then drop_acked message_id pending
    else (id, pm) ∷ drop_acked message_id pending

-- The acknowledged message leaves the map, and its round-trip time enters the metrics.
unfoldable pub acknowledge : ℕ → ℕ → ReliabilityManager → ReliabilityManager
acknowledge now message_id rm = elim (lookup message_id rm.pending_messages) [
  | none ↦ rm
  | some pm ↦ record rm {
    pending_messages = erase message_id rm.pending_messages;
    metrics = update_rtt_metrics (now - pm.first_sent_time) rm.metrics;
  }
]

abbrev pub drop_earlier : AckType → ℕ → ReliabilityManager → ReliabilityManager
drop_earlier ack_single message_id rm = rm
drop_earlier ack_cumulative message_id rm = record rm {
  pending_messages = drop_acked message_id rm.pending_messages;
}

unfoldable pub handle_ack : ReliabilityManager → ℕ → PacketHeader → String → ReliabilityManager
handle_ack rm now header addr =
    if is_none rm.level
    then rm
    else (let kind = ack_type header in
        let info : AckInfo = record {
          kind = kind;
          message_id = header.message_id;
          timestamp = now;
        } in
        drop_earlier kind header.message_id (
          acknowledge now header.message_id
            (record rm { last_acks = insert addr info rm.last_acks })))

unfoldable pub create_ack_packet : ℕ → Bool → List ℕ
create_ack_packet message_id cumulative = encode_header (record {
  magic = (magic_byte1, magic_byte2);
  flags = if cumulative then bit_or flag_ack flag_cumulative else flag_ack;
  message_id = message_id;
  fragment_index = 0;
  total_fragments = 0;
  checksum = 0;
})

-- The interval after one more attempt.
abbrev pub next_interval : PendingMessage → ℕ
next_interval pm = elim pm.strategy [
  | retransmit_exponential ↦ min (pm.retry_interval * 2) pm.max_interval
  | retransmit_fixed ↦ pm.retry_interval
]

-- The fields that `retransmitMessage` writes before it looks at the limit.
abbrev pub attempted : ℕ → PendingMessage → PendingMessage
attempted now pm = record pm {
  retry_count = pm.retry_count + 1;
  last_sent_time = now;
  retry_interval = next_interval pm;
  next_retry_time = now + next_interval pm;
}

-- A message that was not fragmented, as one packet.
unfoldable pub retransmit_packet : PendingMessage → List ℕ
retransmit_packet pm =
    encode_header (record {
      magic = (magic_byte1, magic_byte2);
      flags = bit_or flag_single_fragment flag_reliable;
      message_id = pm.message_id;
      fragment_index = 0;
      total_fragments = 1;
      checksum = crc32 pm.content;
    })
    ++ pm.content

abbrev pub retransmit_packets : PendingMessage → List (List ℕ)
retransmit_packets pm = elim pm.fragments [ [] ↦ retransmit_packet pm ∷ [] | f ∷ fs ↦ f ∷ fs ]

-- The message failed after all retries.
abbrev pub give_up : ℕ → ReliabilityManager → ReliabilityManager
give_up message_id rm = record rm {
  pending_messages = erase message_id rm.pending_messages;
  metrics = record m { messages_failed = m.messages_failed + 1 };
}
  where
    m : ReliabilityMetrics
    m = rm.metrics

abbrev pub resend :
    Bool → ℕ → PendingMessage → ReliabilityManager → ReliabilityManager × List (List ℕ)
resend connected message_id pm rm = (
  record rm {
    pending_messages = insert message_id pm rm.pending_messages;
    metrics = record m { packets_retransmitted = m.packets_retransmitted + 1 };
  },
  if connected then retransmit_packets pm else [],
)
  where
    m : ReliabilityMetrics
    m = rm.metrics

unfoldable pub retransmit_message :
    ReliabilityManager → Bool → ℕ → ℕ → ReliabilityManager × List (List ℕ)
retransmit_message rm connected now message_id = elim (lookup message_id rm.pending_messages) [
  | none ↦ (rm, [])
  | some pm ↦
      if pm.acknowledged
      then (rm, [])
      else if ltb pm.retry_limit (pm.retry_count + 1)
      then (give_up message_id rm, [])
      else resend connected message_id (attempted now pm) rm
]

-- A pending message whose time to retry has passed.
abbrev pub is_due : ℕ → PendingMessage → Bool
is_due now pm = not pm.acknowledged && ltb pm.next_retry_time now

-- A send on the channel that does not block: it is skipped when the channel is full.
abbrev pub offer : List ℕ → ℕ → List ℕ
offer ch message_id = if ltb (length ch) retransmit_capacity then ch ++ (message_id ∷ []) else ch

unfoldable pub queue_due : ℕ → Dict ℕ PendingMessage → List ℕ → List ℕ
queue_due now [] ch = ch
queue_due now ((id, pm) ∷ pending) ch =
    queue_due now pending (if is_due now pm then offer ch id else ch)

unfoldable pub check_timeouts : ReliabilityManager → ℕ → ReliabilityManager
check_timeouts rm now = record rm {
  retransmit_ch = queue_due now rm.pending_messages rm.retransmit_ch;
}

-- One round of `retransmitWorker`: it takes an id off the channel, unless the manager has stopped.
unfoldable pub worker_round :
    Bool → List ℕ → ReliabilityManager → Bool → ℕ → ReliabilityManager × List (List ℕ)
worker_round true ch rm connected now = (rm, [])
worker_round false [] rm connected now = (rm, [])
worker_round false (id ∷ ids) rm connected now =
    retransmit_message (record rm { retransmit_ch = ids }) connected now id

unfoldable pub retransmit_worker :
    ReliabilityManager → Bool → ℕ → ReliabilityManager × List (List ℕ)
retransmit_worker rm connected now = worker_round rm.done rm.retransmit_ch rm connected now

unfoldable pub start : ReliabilityManager → ReliabilityManager
start rm = if rm.running then rm else record rm { running = true }

-- `none` is the panic of a second `close(rm.done)`.
unfoldable pub stop : ReliabilityManager → Option ReliabilityManager
stop rm =
    if not rm.running
    then some rm
    else if rm.done
    then none
    else some (record rm { done = true; running = false })
