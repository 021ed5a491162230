-- ===== src/Udp/Header/RoundTrip.antt =====
-- `decodeHeader` undoes `encodeHeader`, and the other way round.
use gomcp.Prelude.{
  ℕ, ◌^◌, ◌≤◌, ◌<◌, ◌≡◌, refl, ap, ◌∙◌, ◌↔◌, List, ◌++◌, arith, length, drop, get_or, le→ltb, ok,
}
use gomcp.Udp.Header.{
  PacketHeader, encode_header, decode_header, read_header, uint16_of, uint32_of, byte_at,
  magic_byte1, magic_byte2, header_size,
}

-- The fields fit the types byte, uint32, uint16, uint16 and uint32, and the magic is the protocol's.
pub record IsWire (h : PacketHeader) : Type 0 where
  pub magic : h.magic ≡ (magic_byte1, magic_byte2)
  pub flags : h.flags < 256
  pub message_id : h.message_id < 2 ^ 32
  pub fragment_index : h.fragment_index < 2 ^ 16
  pub total_fragments : h.total_fragments < 2 ^ 16
  pub checksum : h.checksum < 2 ^ 32

pub length-encode_header : (h : PacketHeader) → length (encode_header h) ≡ header_size
unfolding encode_header
length-encode_header h = refl

uint32_of-bytes :
    (v : ℕ) → v < 2 ^ 32 → uint32_of (byte_at 3 v) (byte_at 2 v) (byte_at 1 v) (byte_at 0 v) ≡ v
uint32_of-bytes v h = omega arith

uint16_of-bytes : (v : ℕ) → v < 2 ^ 16 → uint16_of (byte_at 1 v) (byte_at 0 v) ≡ v
uint16_of-bytes v h = omega arith

read-encode :
    (h : PacketHeader) (payload : List ℕ) → IsWire h → read_header (encode_header h ++ payload) ≡ h
unfolding encode_header
read-encode h payload w = λ i. record {
  magic = h.magic;
  flags = h.flags;
  message_id = uint32_of-bytes h.message_id w.message_id i;
  fragment_index = uint16_of-bytes h.fragment_index w.fragment_index i;
  total_fragments = uint16_of-bytes h.total_fragments w.total_fragments i;
  checksum = uint32_of-bytes h.checksum w.checksum i;
}

-- A packet of at least the header's size whose first bytes are the magic is read.
pub decode_header-ok :
    (bytes : List ℕ)
    → header_size ≤ length bytes
    → get_or bytes 0 0 ≡ magic_byte1
    → get_or bytes 1 0 ≡ magic_byte2
    → decode_header bytes ≡ ok (read_header bytes)
unfolding decode_header
decode_header-ok bytes long m1 m2 = rw (le→ltb (length bytes) 15 long, m1, m2)

-- Whatever payload follows an encoded header, decoding the packet gives that header back, and the
-- bytes behind the header are the payload.
pub decode-encode :
    (h : PacketHeader) (payload : List ℕ)
    → IsWire h
    → (decode_header (encode_header h ++ payload) ≡ ok h)
      × (drop header_size (encode_header h ++ payload) ≡ payload)
unfolding encode_header
decode-encode h payload w = (
  decode_header-ok (encode_header h ++ payload) (omega arith) (ap (λ m. m.0) w.magic)
        (ap (λ m. m.1) w.magic)
      ∙ ap ok (read-encode h payload w),
  refl,
)

-- `decodeHeader` accepts exactly the packets of at least 15 bytes that begin with the magic.
pub decode_header-accepts :
    (bytes : List ℕ)
    → ((h : PacketHeader) × (decode_header bytes ≡ ok h)) ↔ (
        (header_size ≤ length bytes)
        × (get_or bytes 0 0 ≡ magic_byte1)
        × (get_or bytes 1 0 ≡ magic_byte2))
unfolding decode_header
decode_header-accepts bytes = (
  λ (h, e). (ground arith, ground arith, ground arith),
  λ (long, m1, m2). (read_header bytes, decode_header-ok bytes long m1 m2),
)
