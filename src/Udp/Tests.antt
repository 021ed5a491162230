-- ===== src/Udp/Tests.antt =====
-- Runs of the UDP modules at concrete inputs.
use gomcp.Prelude.{
  ℕ, ◌≤◌, ◌≡◌, ◌≢◌, refl, true, false, none, some, List, [], ◌∷◌, ◌++◌, arith, length, drop, ok,
  lookup, insert, erase, nat_key, string_key,
}
use gomcp.Udp.Header.{PacketHeader, encode_header, decode_header, header_size}
use gomcp.Udp.Header.RoundTrip.{decode-encode}
use gomcp.Udp.Reliability.{
  ReliabilityManager, reliability_basic, new_reliability_manager, track_message, tracked,
  handle_ack, retransmit_packets, create_ack_packet, ack_type,
}
use gomcp.Udp.Reliability.Acks.{lookup-handle_ack}
use gomcp.Udp.Reliability.History.{Reach, here, next, tracks, reachable-IsValid}
use gomcp.Udp.Reliability.Invariant.{IsValid}
use gomcp.Udp.Reliability.Retries.{Exhausted, retransmit_at, retransmit_exhausts}
use gomcp.Udp.Transport.{Transport, done, default_transport, generate_message_id}
use gomcp.Udp.Send.{
  Network, send, fragment_packet, send_fragmented_message, fragment_count, send_fragments,
  fragment_at, and_then, deliver, track,
}
use gomcp.Udp.Send.Fragments.{IsUp}
use gomcp.Udp.Send.Outcomes.{packets_of, send-sends}
use gomcp.Udp.Receive.{process_packet, reassemble_message}
use gomcp.Udp.Transfer.{receive_all, arrivals_of, IsDelivery, transfer}
use gomcp.Udp.Lifecycle.{Socket, hangs, start, stop}
use gomcp.Udp.Lifecycle.Restart.{start_hangs, stop-start_hangs}
use gomcp.Udp.Faults.{fragment_ack_forgets_message}

abbrev header : PacketHeader
header = record {
  magic = (0x4d, 0x43);
  flags = 6;
  message_id = 258;
  fragment_index = 2;
  total_fragments = 3;
  checksum = 7;
}

decode-encode_example :
    (decode_header (encode_header header ++ (1 ∷ 2 ∷ [])) ≡ ok header)
    × (drop header_size (encode_header header ++ (1 ∷ 2 ∷ [])) ≡ 1 ∷ 2 ∷ [])
decode-encode_example = decode-encode header (1 ∷ 2 ∷ []) (record {
  magic = refl;
  flags = omega arith;
  message_id = omega arith;
  fragment_index = omega arith;
  total_fragments = omega arith;
  checksum = omega arith;
})

abbrev network : Network
network = record { deadline_set = λ wire. true; written = λ wire packet. true }

network-IsUp : IsUp network
network-IsUp = record { deadline = λ wire. refl; write = λ wire packet. refl }

-- Two bytes of payload to a packet.
abbrev sender : Transport
sender = record (default_transport "a:1" false) { connected = true; max_packet_size = 17 }

abbrev receiver : Transport
receiver = record (default_transport ":1" true) { connected = true; max_packet_size = 17 }

abbrev message : List ℕ
message = 10 ∷ 20 ∷ 30 ∷ 40 ∷ 50 ∷ []

-- The last fragment first, and the middle one twice.
abbrev order : List (ℕ × ℕ)
order = (5, 2) ∷ (6, 1) ∷ (7, 0) ∷ (8, 1) ∷ []

order-IsDelivery : IsDelivery 3 order
order-IsDelivery = record { known = omega arith; covers = λ i h. ground arith }

transfer_example :
    let wire = drop 0 (send network 1 message sender).0.wire in
    let received = receive_all (arrivals_of wire order) receiver in
    reassemble_message 1 received
    ≡ (record received { fragments = erase 1 received.fragments }, ok message)
unfolding default_transport lookup
transfer_example =
    transfer network 1 message sender receiver 1 order network-IsUp refl refl (omega arith)
      (omega arith) refl order-IsDelivery

sent_packets : length (send network 1 message sender).0.wire ≡ 3
unfolding default_transport send send_fragmented_message fragment_count send_fragments fragment_at
    and_then deliver generate_message_id track
sent_packets = refl

send-sends_example :
    ((send network 1 message sender).1 ≡ done)
    × ((send network 1 message sender).0.wire ≡ [] ++ packets_of false 1 2 message)
    × ((send network 1 message sender).0.next_message_id ≡ 1)
    × ((send network 1 message sender).0.next_message_id ≢ 0)
unfolding default_transport
send-sends_example = send-sends network 1 message sender 1 network-IsUp refl refl (omega arith)

-- One byte of payload to a packet.
abbrev narrow : Transport
narrow = record (default_transport "a:1" false) { connected = true; max_packet_size = 16 }

abbrev cramped : Transport
cramped = record (default_transport "a:1" false) { connected = true; max_packet_size = 10 }

abbrev manager : ReliabilityManager
manager = new_reliability_manager reliability_basic

abbrev tracking : ReliabilityManager
tracking = track_message manager 0 4 (1 ∷ []) []

lookup-handle_ack_example :
    let rm' = handle_ack tracking 9 (record header { message_id = 4 }) "a" in
    (lookup 4 rm'.pending_messages ≡ none) × (lookup "b" rm'.last_acks ≡ none)
unfolding new_reliability_manager track_message lookup insert ack_type
lookup-handle_ack_example =
    lookup-handle_ack tracking 9 (record header { message_id = 4 }) "a" 4 "b" refl

retransmit_exhausts_example :
    Exhausted tracking 4 5
      (retransmit_packets (tracked manager 0 4 (1 ∷ []) []))
      (retransmit_at tracking true 4 (1 ∷ 2 ∷ 3 ∷ 4 ∷ 5 ∷ 6 ∷ []))
unfolding new_reliability_manager
retransmit_exhausts_example =
    retransmit_exhausts manager 0 4 1 (2 ∷ 3 ∷ 4 ∷ 5 ∷ 6 ∷ []) (1 ∷ []) [] refl refl

history : Reach manager (track_message manager 0 4 (1 ∷ []) [])
history = next here (tracks 0 4 (1 ∷ []) [])

reachable-IsValid_example : IsValid tracking × (tracking.max_retry_interval ≤ 10_000_000_000)
reachable-IsValid_example = reachable-IsValid reliability_basic history

abbrev socket : Socket
socket = record {
  resolves = true;
  opens = true;
  read_buffer_set = true;
  write_buffer_set = true;
  closes = true;
  remote = none;
}

start_hangs_example :
    start socket (default_transport "a:1" false) ≡ (default_transport "a:1" false, hangs)
unfolding default_transport
start_hangs_example = start_hangs socket (default_transport "a:1" false) refl refl

abbrev live : Transport
live = record sender { running = true }

abbrev stopped : Transport
stopped = record live { running = false; connected = false; done_closed = true }

stop-start_hangs_example : start socket stopped ≡ (stopped, hangs)
unfolding default_transport stop
stop-start_hangs_example = stop-start_hangs socket socket live stopped refl refl

abbrev half_stopped : Transport
half_stopped = record live { connected = false; done_closed = true }

abbrev reliable : Transport
reliable = record receiver {
  reliability_enabled = true;
  reliability_level = reliability_basic;
  reliability_manager = some manager;
}

abbrev client : Transport
client = record reliable { is_server = false; reliability_manager = some tracking }

fragment_ack_forgets_message_example :
    let ack = create_ack_packet 4 false in
    ((process_packet 3 (fragment_packet true 4 9 2 (1 ∷ [])) reliable).0.wire ≡ [] ++ (ack ∷ []))
    × (rm' : ReliabilityManager) × ((process_packet 5 ack client).0.reliability_manager ≡ some rm')
    × (lookup 4 rm'.pending_messages ≡ none)
unfolding default_transport new_reliability_manager track_message
fragment_ack_forgets_message_example =
    fragment_ack_forgets_message 3 5 4 9 2 (1 ∷ []) reliable client tracking (omega arith) refl refl
      refl refl refl
