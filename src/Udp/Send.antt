-- ===== src/Udp/Send.antt =====
-- Sending over transport/udp/udp.go: `Send`, `sendSinglePacket` and `sendFragmentedMessage`.
-- The network is a parameter: whether `SetWriteDeadline` and `Write` succeed, given the packets
-- handed over before. The pause between two fragments is left out.
pub mod Fragments
pub mod Outcomes
pub mod SmallPackets
use gomcp.Prelude.{
  ℕ, zero, suc, ◌+◌, ◌-◌, ◌*◌, ◌/◌, ◌%◌, ◌^◌, bit_or, Bool, true, false, ◌&&◌, not, Option, none,
  some, List, [], ◌∷◌, ◌++◌, ltb, leb, eqb, if◌then◌else◌, length, take, drop, ℤ, pos, negsuc,
  to_nat,
}
use gomcp.Udp.Crc.{crc32}
use gomcp.Udp.Header.{
  PacketHeader, encode_header, header_size, magic_byte1, magic_byte2, flag_single_fragment,
  flag_reliable, flag_last_fragment,
}
use gomcp.Udp.Reliability.{ReliabilityManager, track_message}
use gomcp.Udp.Transport.{
  Transport, Outcome, done, failed, panic, not_initialized, message_too_large, deadline_failed,
  write_failed, generate_message_id,
}

pub record Network : Type 0 where
  pub deadline_set : List (List ℕ) → Bool
  pub written : List (List ℕ) → List ℕ → Bool

-- A flag that is set where the condition holds.
abbrev pub with_flag : Bool → ℕ → ℕ → ℕ
with_flag on flag flags = if on then bit_or flags flag else flags

abbrev pub single_header : Bool → ℕ → List ℕ → PacketHeader
single_header reliable message_id message = record {
  magic = (magic_byte1, magic_byte2);
  flags = with_flag reliable flag_reliable flag_single_fragment;
  message_id = message_id;
  fragment_index = 0;
  total_fragments = 1;
  checksum = crc32 message;
}

-- The message in one packet.
unfoldable pub single_packet : Bool → ℕ → List ℕ → List ℕ
single_packet reliable message_id message =
    encode_header (single_header reliable message_id message) ++ message

-- The header of fragment `i` of `total`; both are converted to uint16.
abbrev pub fragment_header : Bool → ℕ → ℕ → ℕ → List ℕ → PacketHeader
fragment_header reliable message_id total i fragment = record {
  magic = (magic_byte1, magic_byte2);
  flags = with_flag reliable flag_reliable (with_flag (eqb i (total - 1)) flag_last_fragment 0);
  message_id = message_id;
  fragment_index = i % 2 ^ 16;
  total_fragments = total % 2 ^ 16;
  checksum = crc32 fragment;
}

unfoldable pub fragment_packet : Bool → ℕ → ℕ → ℕ → List ℕ → List ℕ
fragment_packet reliable message_id total i fragment =
    encode_header (fragment_header reliable message_id total i fragment) ++ fragment

-- One guarded write: the deadline, if there is a write timeout, then the packet.
unfoldable pub deliver : Network → Bool → List (List ℕ) → List ℕ → List (List ℕ) × Outcome
deliver net timed wire packet =
    if timed && not (net.deadline_set wire)
    then (wire, failed deadline_failed)
    else if net.written wire packet
    then (wire ++ (packet ∷ []), done)
    else (wire ++ (packet ∷ []), failed write_failed)

-- `t.maxPacketSize - HeaderSize`, which is negative for a small packet size.
abbrev pub max_payload_size : ℕ → ℤ
max_payload_size size =
    if ltb size header_size then negsuc (header_size - size - 1) else pos (size - header_size)

-- `(len(message) + maxPayloadSize - 1) / maxPayloadSize` with Go's division, which rounds towards
-- zero; `none` is the panic of a division by zero.
unfoldable pub fragment_count : ℕ → ℤ → Option ℤ
fragment_count len (pos zero) = none
fragment_count len (pos (suc p)) = some (pos ((len + suc p - 1) / suc p))
fragment_count len (negsuc k) =
    if ltb len (k + 2)
    then some (pos ((k + 2 - len) / suc k))
    else elim ((len - (k + 2)) / suc k) [ zero ↦ some (pos 0) | suc q ↦ some (negsuc q) ]

-- `message[start:end]` for fragment `i`, its end cut off at the length of the message; `none` is
-- the panic of a slice that ends below zero.
unfoldable pub fragment_at : ℕ → ℤ → List ℕ → Option (List ℕ)
fragment_at i (pos p) message =
    let start = i * p in
    let end = start + p in
    let bound = if ltb (length message) end then length message else end in
    some (take (bound - start) (drop start message))
fragment_at i (negsuc k) message = none

-- What the loop over the fragments needs of its surroundings.
pub record Sending : Type 0 where
  pub net : Network
  pub timed : Bool
  pub reliable : Bool
  pub message_id : ℕ
  pub message : List ℕ
  pub max_payload : ℤ
  pub total : ℕ

-- The rest of a call runs only after a step without error.
unfoldable pub and_then :
    List (List ℕ) × Outcome → (List (List ℕ) → List (List ℕ) × Outcome) → List (List ℕ) × Outcome
and_then (wire, done) rest = rest wire
and_then (wire, failed e) rest = (wire, failed e)
and_then (wire, panic) rest = (wire, panic)

-- The loop, with `rounds` fragments left to send, from fragment `i` on.
unfoldable pub send_fragments : Sending → ℕ → ℕ → List (List ℕ) → List (List ℕ) × Outcome
send_fragments s zero i wire = (wire, done)
send_fragments s (suc rounds) i wire = elim (fragment_at i s.max_payload s.message) [
  | none ↦ (wire, panic)
  | some fragment ↦
      and_then
        (deliver s.net s.timed wire (fragment_packet s.reliable s.message_id s.total i fragment))
        (λ wire'. send_fragments s rounds (i + 1) wire')
]

-- What the loop takes from the transport; a write timeout of 0 stands for none.
abbrev pub sending : Network → Transport → ℕ → List ℕ → ℤ → ℕ → Sending
sending net t message_id message max_payload total = record {
  net = net;
  timed = ltb 0 t.write_timeout;
  reliable = t.reliability_enabled;
  message_id = message_id;
  message = message;
  max_payload = max_payload;
  total = total;
}

unfoldable pub send_fragmented_message : Network → ℕ → List ℕ → ℤ → Transport → Transport × Outcome
send_fragmented_message net message_id message max_payload t =
    elim (fragment_count (length message) max_payload) [
      | none ↦ (t, panic)
      | some total ↦
          if ltb 65535 (to_nat total)
          then (t, failed message_too_large)
          else (let s = sending net t message_id message max_payload (to_nat total) in
              let (wire, end) = send_fragments s (to_nat total) 0 t.wire in
              (record t { wire = wire }, end))
    ]

unfoldable pub send_single_packet : Network → ℕ → List ℕ → Transport → Transport × Outcome
send_single_packet net message_id message t =
    let packet = single_packet t.reliability_enabled message_id message in
    let (wire, end) = deliver net (ltb 0 t.write_timeout) t.wire packet in
    (record t { wire = wire }, end)

-- `t.reliabilityManager.TrackMessage`, where reliability is enabled and there is a manager. Both
-- calls of the source pass no fragments.
unfoldable pub track : ℕ → ℕ → List ℕ → Transport → Transport
track now message_id message t = elim t.reliability_manager [
  | none ↦ t
  | some rm ↦
      if t.reliability_enabled
      then record t { reliability_manager = some (track_message rm now message_id message []) }
      else t
]

-- Tracking comes after a send without error.
abbrev pub track_sent : ℕ → ℕ → List ℕ → Transport × Outcome → Transport × Outcome
track_sent now message_id message (t, done) = (track now message_id message t, done)
track_sent now message_id message (t, failed e) = (t, failed e)
track_sent now message_id message (t, panic) = (t, panic)

-- `len(message) <= maxPayloadSize`
abbrev pub fits : ℕ → ℤ → Bool
fits len (pos p) = leb len p
fits len (negsuc k) = false

unfoldable pub send : Network → ℕ → List ℕ → Transport → Transport × Outcome
send net now message t =
    if not t.connected
    then (t, failed not_initialized)
    else (let (id, t') = generate_message_id t in
        let max_payload = max_payload_size t.max_packet_size in
        track_sent now id message (
          if fits (length message) max_payload
          then send_single_packet net id message t'
          else send_fragmented_message net id message max_payload t'))
