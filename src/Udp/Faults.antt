-- ===== src/Udp/Faults.antt =====
-- Behaviour of the reliable mode that its comments do not promise.
use gomcp.Prelude.{
  bit_or, bit_and, not, eqb_refl, insert, ℤ, ℕ, suc, ◌+◌, ◌-◌, ◌^◌, ◌<◌, ◌≡◌, refl, sym, ap, ◌∙◌,
  Bool, true, false, none, some, inl, inr, List, [], ◌∷◌, ◌++◌, append-nil, eqb, if◌then◌else◌,
  arith, length, lookup, nat_key, lookup-insert_self, Bool-cases,
}
use gomcp.Udp.Crc.{crc32}
use gomcp.Udp.Header.{
  PacketHeader, encode_header, header_size, magic_byte1, magic_byte2, flag_ack, flag_cumulative,
  flag_reliable, flag_last_fragment,
}
use gomcp.Udp.Reliability.{
  ReliabilityManager, PendingMessage, is_none, handle_ack, create_ack_packet, track_message,
  tracked, retransmit_message, retransmit_packet, attempted,
}
use gomcp.Udp.Reliability.Acks.{lookup-handle_ack}
use gomcp.Udp.Reliability.Retries.{retransmit-resends, lookup-track}
use gomcp.Udp.Transport.{Transport, Error, reassembly_queue_full, push_err, panic, write_packet}
use gomcp.Udp.Send.{Network, send_fragmented_message, fragment_packet, fragment_header, with_flag}
use gomcp.Udp.Receive.{
  process_packet, dispatch, process_ack, has_manager, handle_fragment, ack_if_reliable, send_ack,
  queue_reassembly, has_flag, stored, store,
}
use gomcp.Udp.Receive.Packets.{process-dispatch, process-fragment}

-- The header of an acknowledgment.
abbrev ack_header : ℕ → Bool → PacketHeader
ack_header id cumulative = record {
  magic = (magic_byte1, magic_byte2);
  flags = if cumulative then bit_or flag_ack flag_cumulative else flag_ack;
  message_id = id;
  fragment_index = 0;
  total_fragments = 0;
  checksum = 0;
}

ack_flags :
    (cumulative : Bool)
    → let flags = if cumulative then bit_or flag_ack flag_cumulative else flag_ack in
      (flags < 256) × (bit_and flags flag_ack ≡ 1)
ack_flags true = (omega arith, refl)
ack_flags false = (omega arith, refl)

process-ack :
    (now id : ℕ) (cumulative : Bool) (t : Transport)
    → id < 2 ^ 32
    → process_packet now (create_ack_packet id cumulative) t
      ≡ process_ack now (ack_header id cumulative) t
unfolding create_ack_packet dispatch crc32
process-ack now id cumulative t h =
    ap (λ w. process_packet now w t) (sym (append-nil (encode_header header)))
    ∙ process-dispatch now header [] t
        (record {
          magic = refl;
          flags = (ack_flags cumulative).0;
          message_id = h;
          fragment_index = omega arith;
          total_fragments = omega arith;
          checksum = omega arith;
        })
        refl
    ∙ rw ((ack_flags cumulative).1)
  where
    header : PacketHeader
    header = ack_header id cumulative

-- A server with reliability on, whose listening socket has no remote address, panics on any
-- acknowledgment.
pub server_ack_panics :
    (now id : ℕ) (cumulative : Bool) (t : Transport) (rm : ReliabilityManager)
    → id < 2 ^ 32
    → t.is_server ≡ true
    → t.remote_addr ≡ none
    → t.reliability_enabled ≡ true
    → t.reliability_manager ≡ some rm
    → process_packet now (create_ack_packet id cumulative) t ≡ (t, panic)
unfolding process_ack
server_ack_panics now id cumulative t rm h server addr on e =
    process-ack now id cumulative t h ∙ ground arith

process_ack-client :
    (now : ℕ) (h : PacketHeader) (t : Transport) (rm : ReliabilityManager)
    → t.is_server ≡ false
    → t.reliability_enabled ≡ true
    → t.reliability_manager ≡ some rm
    → (process_ack now h t).0.reliability_manager ≡ some (handle_ack rm now h t.addr)
unfolding process_ack
process_ack-client now h t rm client on e = ground arith

wire-push_err : (e : Error) (t : Transport) → (push_err e t).wire ≡ t.wire
unfolding push_err
wire-push_err e t = ground arith

wire-queue : (id : ℕ) (t : Transport) → (queue_reassembly id t).wire ≡ t.wire
unfolding queue_reassembly
wire-queue id t = ground (arith, wire-push_err (reassembly_queue_full id) t)

wire-ack_if_reliable :
    (h : PacketHeader) (t : Transport)
    → has_flag flag_reliable h ≡ true
    → has_manager t ≡ true
    → (ack_if_reliable h t).wire ≡ t.wire ++ (create_ack_packet h.message_id false ∷ [])
unfolding ack_if_reliable send_ack write_packet
wire-ack_if_reliable h t f m = rw (f, m)

wire-handle_fragment :
    (now : ℕ) (h : PacketHeader) (payload : List ℕ) (t : Transport)
    → has_flag flag_reliable h ≡ true
    → has_manager t ≡ true
    → (handle_fragment now h payload t).wire ≡ t.wire ++ (create_ack_packet h.message_id false ∷ [])
unfolding handle_fragment
wire-handle_fragment now h payload t f m =
    elim (Bool-cases (eqb (length (stored now h payload t)) h.total_fragments)) [
      | inl full ↦ rw full (
          wire-queue h.message_id (ack_if_reliable h (store now h payload t))
          ∙ wire-ack_if_reliable h (store now h payload t) f m)
      | inr more ↦ rw more (wire-ack_if_reliable h (store now h payload t) f m)
    ]

reliable_flag :
    (last : Bool)
    → bit_and (with_flag true flag_reliable (with_flag last flag_last_fragment 0)) flag_reliable ≡ 2
reliable_flag true = refl
reliable_flag false = refl

-- A single fragment, of however many, is acknowledged under the id of the whole message; and that
-- acknowledgment makes a client with reliability on forget the whole message, so that a fragment
-- that was lost is never sent again.
pub fragment_ack_forgets_message :
    (now later id total i : ℕ) (fragment : List ℕ) (receiver sender : Transport)
    (rm : ReliabilityManager)
    → id < 2 ^ 32
    → has_manager receiver ≡ true
    → sender.is_server ≡ false
    → sender.reliability_enabled ≡ true
    → sender.reliability_manager ≡ some rm
    → is_none rm.level ≡ false
    → let ack = create_ack_packet id false in
      ((process_packet now (fragment_packet true id total i fragment) receiver).0.wire
        ≡ receiver.wire ++ (ack ∷ []))
      × (rm' : ReliabilityManager) × ((process_packet later ack sender).0.reliability_manager
          ≡ some rm')
      × (lookup id rm'.pending_messages ≡ none)
fragment_ack_forgets_message now later id total i fragment receiver sender rm h m client on e
      level =
    (
      ap (λ r. r.0.wire) (process-fragment true id total i now fragment receiver h)
          ∙ wire-handle_fragment now header fragment receiver
              (ap (λ (k : ℕ). not (eqb k 0)) (reliable_flag (eqb i (total - 1)))) m,
      handle_ack rm later (ack_header id false) sender.addr,
      ap (λ r. r.0.reliability_manager) (process-ack later id false sender h)
          ∙ process_ack-client later (ack_header id false) sender rm client on e,
      (lookup-handle_ack rm later (ack_header id false) sender.addr id sender.addr level).0
          ∙ rw (eqb_refl id),
    )
  where
    header : PacketHeader
    header = fragment_header true id total i fragment

send_fragmented-manager :
    (net : Network) (id : ℕ) (message : List ℕ) (p : ℤ) (t : Transport)
    → (send_fragmented_message net id message p t).0.reliability_manager ≡ t.reliability_manager
unfolding send_fragmented_message
send_fragmented-manager net id message p t = ground arith

-- The one packet of a message that was tracked without its fragments.
length-retransmit :
    (pm : PendingMessage) → length (retransmit_packet pm) ≡ header_size + length pm.content
unfolding retransmit_packet encode_header
length-retransmit pm = omega arith

-- A message that was too long for one packet is sent again as one packet all the same: with
-- reliability on and a positive retry limit, the first retransmission of a tracked message with
-- more bytes than `q + 1` is a single packet that is longer than a packet of that room may be.
pub retransmit_oversized :
    (rm : ReliabilityManager) (now later id q : ℕ) (message : List ℕ)
    → is_none rm.level ≡ false
    → 0 < rm.retry_limit
    → suc q < length message
    → (packet : List ℕ) × ((retransmit_message (track_message rm now id message []) true later id).1
        ≡ packet ∷ [])
      × (header_size + suc q < length packet)
retransmit_oversized rm now later id q message on limit long = (
  retransmit_packet (attempted later pm),
  ap (λ m. (retransmit_message m true later id).1) (lookup-track rm now id message [] on)
      ∙ ap (λ r. r.1)
          (retransmit-resends tracking true later id pm
            (lookup-insert_self id pm rm.pending_messages) refl limit),
  omega (arith, length-retransmit (attempted later pm)),
)
  where
    pm : PendingMessage
    pm = tracked rm now id message []

    tracking : ReliabilityManager
    tracking = record rm { pending_messages = insert id pm rm.pending_messages }
