-- ===== src/Udp/Receive.antt =====
-- Receiving over transport/udp/udp.go: `processPacket`, `handleFragment`, `reassembleMessage`, the
-- body of each receiving loop, and `cleanExpiredFragments`. The results of `conn.Write` are ignored
-- by this code, so a packet counts as handed over.
pub mod Copying
pub mod Packets
pub mod Partial
use gomcp.Prelude.{
  ℕ, zero, suc, ◌+◌, ◌-◌, ◌%◌, ◌^◌, bit_and, Bool, true, false, not, ◌&&◌, String, Option, none,
  some, List, [], ◌∷◌, ◌++◌, ltb, eqb, if◌then◌else◌, length, take, drop, replicate, Dict, lookup,
  insert, erase, Result, ok, err, nat_key, string_key,
}
use gomcp.Udp.Crc.{crc32}
use gomcp.Udp.Header.{
  PacketHeader, decode_header, header_size, flag_ack, flag_reliable, flag_single_fragment,
}
use gomcp.Udp.Reliability.{ReliabilityManager, handle_ack, create_ack_packet}
use gomcp.Udp.Transport.{
  Transport, FragmentInfo, Error, Outcome, done, panic, invalid_header, checksum_mismatch,
  reassembly_queue_full, no_fragments, missing_fragment, max_concurrent_reassembly, push_err,
  push_read, write_packet,
}

-- `header.Flags&flag != 0`
abbrev pub has_flag : ℕ → PacketHeader → Bool
has_flag flag header = not (eqb (bit_and header.flags flag) 0)

abbrev pub has_manager : Transport → Bool
has_manager t = elim t.reliability_manager [ none ↦ false | some rm ↦ t.reliability_enabled ]

unfoldable pub send_ack : ℕ → Bool → Transport → Transport
send_ack message_id cumulative = write_packet (create_ack_packet message_id cumulative)

-- An acknowledgment, if the packet asks for reliable delivery and this side has it enabled.
unfoldable pub ack_if_reliable : PacketHeader → Transport → Transport
ack_if_reliable header t =
    if has_flag flag_reliable header && has_manager t then send_ack header.message_id false t else t

-- The address under which a client's or a server's manager notes an acknowledgment. A listening
-- socket has no remote address: `RemoteAddr()` is nil there, and `.String()` on it panics.
abbrev pub ack_addr : Transport → Option String
ack_addr t = if t.is_server then t.remote_addr else some t.addr

unfoldable pub process_ack : ℕ → PacketHeader → Transport → Transport × Outcome
process_ack now header t = elim t.reliability_manager [
  | none ↦ (t, done)
  | some rm ↦ if not t.reliability_enabled then (t, done) else elim (ack_addr t) [
    | none ↦ (t, panic)
    | some addr ↦ (record t { reliability_manager = some (handle_ack rm now header addr) }, done)
  ]
]

abbrev pub fragments_of : ℕ → Transport → Dict ℕ FragmentInfo
fragments_of message_id t = elim (lookup message_id t.fragments) [ none ↦ [] | some frs ↦ frs ]

-- The fragments of the packet's message with the packet's own.
abbrev pub stored : ℕ → PacketHeader → List ℕ → Transport → Dict ℕ FragmentInfo
stored now header payload t =
    insert header.fragment_index (record { received_time = now; content = payload })
      (fragments_of header.message_id t)

unfoldable pub queue_reassembly : ℕ → Transport → Transport
queue_reassembly message_id t =
    if ltb (length t.reassembly_queue) max_concurrent_reassembly
    then record t { reassembly_queue = t.reassembly_queue ++ (message_id ∷ []) }
    else push_err (reassembly_queue_full message_id) t

abbrev pub store : ℕ → PacketHeader → List ℕ → Transport → Transport
store now header payload t = record t {
  fragments = insert header.message_id (stored now header payload t) t.fragments;
}

unfoldable pub handle_fragment : ℕ → PacketHeader → List ℕ → Transport → Transport
handle_fragment now header payload t =
    let t' = ack_if_reliable header (store now header payload t) in
    if eqb (length (stored now header payload t)) header.total_fragments
    then queue_reassembly header.message_id t'
    else t'

-- A packet with a header that was read and a payload that fits its checksum.
unfoldable pub dispatch : ℕ → PacketHeader → List ℕ → Transport → Transport × Outcome
dispatch now header payload t =
    if has_flag flag_ack header
    then process_ack now header t
    else if has_flag flag_single_fragment header
    then (ack_if_reliable header (push_read payload t), done)
    else (handle_fragment now header payload t, done)

unfoldable pub process_packet : ℕ → List ℕ → Transport → Transport × Outcome
process_packet now bytes t = elim (decode_header bytes) [
  | err e ↦ (push_err (invalid_header e) t, done)
  | ok header ↦
      let payload = drop header_size bytes in
      if eqb (crc32 payload) header.checksum
      then dispatch now header payload t
      else (push_err (checksum_mismatch header.message_id header.fragment_index) t, done)
]

-- A datagram as `receivePackets` takes it off the socket: into a buffer of `maxPacketSize` bytes,
-- what goes beyond is lost, and an empty one is ignored.
unfoldable pub receive_datagram : ℕ → String → List ℕ → Transport → Transport × Outcome
receive_datagram now raddr datagram t = elim (take t.max_packet_size datagram) [
  | [] ↦ (t, done)
  | b ∷ bs ↦
      process_packet now (b ∷ bs)
        (if t.is_server then record t { client_addrs = insert raddr raddr t.client_addrs } else t)
]

-- `copy(dst[offset:], src)`
abbrev pub copy_at : List ℕ → ℕ → List ℕ → List ℕ
copy_at dst offset src =
    take offset dst ++ (take (length dst - offset) src ++ drop (offset + length src) dst)

-- The first loop: every fragment is there; the result is their total size.
unfoldable pub total_size : ℕ → Dict ℕ FragmentInfo → ℕ → ℕ → ℕ → Result Error ℕ
total_size message_id frs zero i size = ok size
total_size message_id frs (suc rounds) i size = elim (lookup i frs) [
  | none ↦ err (missing_fragment i message_id)
  | some f ↦ total_size message_id frs rounds (i + 1) (size + length f.content)
]

-- The second loop: each fragment is copied behind the one before it. After the first loop every
-- lookup succeeds.
unfoldable pub copy_fragments : Dict ℕ FragmentInfo → ℕ → ℕ → ℕ → List ℕ → List ℕ
copy_fragments frs zero i offset message = message
copy_fragments frs (suc rounds) i offset message = elim (lookup i frs) [
  | none ↦ message
  | some f ↦
      copy_fragments frs rounds (i + 1) (offset + length f.content)
        (copy_at message offset f.content)
]

-- Both loops over the indices below `total`.
unfoldable pub reassemble_total : ℕ → Dict ℕ FragmentInfo → ℕ → Result Error (List ℕ)
reassemble_total message_id frs total = elim (total_size message_id frs total 0 0) [
  | err e ↦ err e
  | ok size ↦ ok (copy_fragments frs total 0 0 (replicate size 0))
]

-- The number of fragments is converted to uint16.
unfoldable pub reassemble : ℕ → Dict ℕ FragmentInfo → Result Error (List ℕ)
reassemble message_id frs = reassemble_total message_id frs (length frs % 2 ^ 16)

unfoldable pub reassemble_message : ℕ → Transport → Transport × Result Error (List ℕ)
reassemble_message message_id t = elim (lookup message_id t.fragments) [
  | none ↦ (t, err (no_fragments message_id))
  | some frs ↦ elim (reassemble message_id frs) [
    | err e ↦ (t, err e)
    | ok message ↦ (record t { fragments = erase message_id t.fragments }, ok message)
  ]
]

-- What the reassembly loop does with a result.
unfoldable pub deliver_result : ℕ → Transport × Result Error (List ℕ) → Transport
deliver_result message_id (t, err e) = push_err e t
deliver_result message_id (t, ok message) =
    let t' = push_read message t in
    if has_manager t' && t'.connected then send_ack message_id true t' else t'

-- One round of `processReassemblyQueue`.
unfoldable pub process_reassembly : List ℕ → Transport → Transport
process_reassembly [] t = t
process_reassembly (id ∷ ids) t =
    deliver_result id (reassemble_message id (record t { reassembly_queue = ids }))

-- The oldest of the receiving times, none of them later than `now`.
abbrev pub oldest : ℕ → Dict ℕ FragmentInfo → ℕ
oldest time [] = time
oldest time ((i, f) ∷ frs) = oldest (if ltb f.received_time time then f.received_time else time) frs

abbrev pub is_expired : ℕ → ℕ → Dict ℕ FragmentInfo → Bool
is_expired now ttl frs = ltb ttl (now - oldest now frs)

unfoldable pub expired : ℕ → ℕ → Dict ℕ (Dict ℕ FragmentInfo) → List ℕ
expired now ttl [] = []
expired now ttl ((id, frs) ∷ fragments) =
    let rest = expired now ttl fragments in if is_expired now ttl frs then id ∷ rest else rest

unfoldable pub delete_all : List ℕ → Dict ℕ (Dict ℕ FragmentInfo) → Dict ℕ (Dict ℕ FragmentInfo)
delete_all [] fragments = fragments
delete_all (id ∷ ids) fragments = delete_all ids (erase id fragments)

unfoldable pub clean_expired_fragments : ℕ → Transport → Transport
clean_expired_fragments now t = record t {
  fragments = delete_all (expired now t.fragment_ttl t.fragments) t.fragments;
}
