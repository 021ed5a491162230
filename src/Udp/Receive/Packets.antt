-- ===== src/Udp/Receive/Packets.antt =====
-- How `processPacket` takes the packets that the sender builds.
use gomcp.Prelude.{
  bit_and, ℕ, ◌-◌, ◌^◌, ◌<◌, ◌≡◌, refl, ◌∙◌, Bool, true, false, List, ◌++◌, eqb, eqb_refl, arith,
}
use gomcp.Udp.Crc.{crc32, crc32-lt}
use gomcp.Udp.Header.{
  PacketHeader, encode_header, flag_ack, flag_single_fragment, flag_reliable, flag_last_fragment,
}
use gomcp.Udp.Header.RoundTrip.{IsWire, decode-encode}
use gomcp.Udp.Transport.{Transport, done, push_read}
use gomcp.Udp.Send.{single_packet, single_header, fragment_packet, fragment_header, with_flag}
use gomcp.Udp.Receive.{process_packet, dispatch, handle_fragment, ack_if_reliable}

-- A packet whose header fits its fields and carries the payload's checksum is dispatched.
pub process-dispatch :
    (now : ℕ) (h : PacketHeader) (payload : List ℕ) (t : Transport)
    → IsWire h
    → h.checksum ≡ crc32 payload
    → process_packet now (encode_header h ++ payload) t ≡ dispatch now h payload t
unfolding process_packet
process-dispatch now h payload t w c =
    rw ((decode-encode h payload w).0, process_packet)
      (rw ((decode-encode h payload w).1, ← c, eqb_refl h.checksum))

fragment_flags :
    (reliable last : Bool)
    → let flags = with_flag reliable flag_reliable (with_flag last flag_last_fragment 0) in
      (flags < 256) × (bit_and flags flag_ack ≡ 0) × (bit_and flags flag_single_fragment ≡ 0)
fragment_flags true true = (omega arith, refl, refl)
fragment_flags true false = (omega arith, refl, refl)
fragment_flags false true = (omega arith, refl, refl)
fragment_flags false false = (omega arith, refl, refl)

fragment_header-IsWire :
    (reliable : Bool) (id total i : ℕ) (fragment : List ℕ)
    → id < 2 ^ 32
    → IsWire (fragment_header reliable id total i fragment)
fragment_header-IsWire reliable id total i fragment h = record {
  magic = refl;
  flags = (fragment_flags reliable (eqb i (total - 1))).0;
  message_id = h;
  fragment_index = omega arith;
  total_fragments = omega arith;
  checksum = crc32-lt fragment;
}

-- A fragment is stored.
pub process-fragment :
    (reliable : Bool) (id total i now : ℕ) (fragment : List ℕ) (t : Transport)
    → id < 2 ^ 32
    → process_packet now (fragment_packet reliable id total i fragment) t
      ≡ (handle_fragment now (fragment_header reliable id total i fragment) fragment t, done)
unfolding fragment_packet dispatch
process-fragment reliable id total i now fragment t h =
    process-dispatch now header fragment t (fragment_header-IsWire reliable id total i fragment h)
      refl
    ∙ rw (
      (fragment_flags reliable (eqb i (total - 1))).1,
      (fragment_flags reliable (eqb i (total - 1))).2,
    )
  where
    header : PacketHeader
    header = fragment_header reliable id total i fragment

single_flags :
    (reliable : Bool)
    → let flags = with_flag reliable flag_reliable flag_single_fragment in
      (flags < 256) × (bit_and flags flag_ack ≡ 0) × (bit_and flags flag_single_fragment ≡ 8)
single_flags true = (omega arith, refl, refl)
single_flags false = (omega arith, refl, refl)

-- A message in one packet goes to the readers.
pub process-single :
    (reliable : Bool) (id now : ℕ) (message : List ℕ) (t : Transport)
    → id < 2 ^ 32
    → process_packet now (single_packet reliable id message) t
      ≡ (ack_if_reliable (single_header reliable id message) (push_read message t), done)
unfolding single_packet dispatch
process-single reliable id now message t h =
    process-dispatch now (single_header reliable id message) message t
      (record {
        magic = refl;
        flags = (single_flags reliable).0;
        message_id = h;
        fragment_index = omega arith;
        total_fragments = omega arith;
        checksum = crc32-lt message;
      })
      refl
    ∙ rw ((single_flags reliable).1, (single_flags reliable).2)
