-- ===== src/Udp/Header.antt =====
-- The packet header of transport/udp/udp.go: its layout, `encodeHeader` and `decodeHeader`.
pub mod RoundTrip
use gomcp.Prelude.{
  ℕ, ◌+◌, ◌*◌, ◌/◌, ◌%◌, ◌^◌, Bool, ◌||◌, not, List, [], ◌∷◌, ltb, eqb, if◌then◌else◌, length,
  get_or, Result, ok, err,
}

abbrev pub header_size : ℕ
header_size = 15

abbrev pub magic_byte1 : ℕ
magic_byte1 = 0x4d

abbrev pub magic_byte2 : ℕ
magic_byte2 = 0x43

abbrev pub flag_data : ℕ
flag_data = 0x00

abbrev pub flag_ack : ℕ
flag_ack = 0x01

abbrev pub flag_reliable : ℕ
flag_reliable = 0x02

abbrev pub flag_last_fragment : ℕ
flag_last_fragment = 0x04

abbrev pub flag_single_fragment : ℕ
flag_single_fragment = 0x08

-- The bit that `CreateAckPacket` sets and `HandleAck` tests, which the source writes out.
abbrev pub flag_cumulative : ℕ
flag_cumulative = 0x10

-- Both wrap ErrInvalidPacket.
pub data HeaderError : Type 0 where
  too_small invalid_magic : HeaderError

pub record PacketHeader : Type 0 where
  pub magic : ℕ × ℕ
  pub flags : ℕ
  pub message_id : ℕ
  pub fragment_index : ℕ
  pub total_fragments : ℕ
  pub checksum : ℕ

-- Every byte of `binary.BigEndian.PutUint32` and `PutUint16`.
abbrev pub byte_at : ℕ → ℕ → ℕ
byte_at k v = v / 2 ^ (8 * k) % 256

abbrev pub uint16_of : ℕ → ℕ → ℕ
uint16_of a b = a * 256 + b

abbrev pub uint32_of : ℕ → ℕ → ℕ → ℕ → ℕ
uint32_of a b c d = a * 2 ^ 24 + b * 2 ^ 16 + c * 256 + d

unfoldable pub encode_header : PacketHeader → List ℕ
encode_header h =
    h.magic.0
    ∷ h.magic.1
    ∷ h.flags
    ∷ byte_at 3 h.message_id
    ∷ byte_at 2 h.message_id
    ∷ byte_at 1 h.message_id
    ∷ byte_at 0 h.message_id
    ∷ byte_at 1 h.fragment_index
    ∷ byte_at 0 h.fragment_index
    ∷ byte_at 1 h.total_fragments
    ∷ byte_at 0 h.total_fragments
    ∷ byte_at 3 h.checksum
    ∷ byte_at 2 h.checksum
    ∷ byte_at 1 h.checksum
    ∷ byte_at 0 h.checksum
    ∷ []

-- The fields as `decodeHeader` reads them, each below the length that it has tested.
abbrev read_header : List ℕ → PacketHeader
read_header bytes = record {
  magic = (at 0, at 1);
  flags = at 2;
  message_id = uint32_of (at 3) (at 4) (at 5) (at 6);
  fragment_index = uint16_of (at 7) (at 8);
  total_fragments = uint16_of (at 9) (at 10);
  checksum = uint32_of (at 11) (at 12) (at 13) (at 14);
}
  where
    at : ℕ → ℕ
    at i = get_or bytes i 0

unfoldable pub decode_header : List ℕ → Result HeaderError PacketHeader
decode_header bytes =
    if ltb (length bytes) header_size
    then err too_small
    else if not (eqb (get_or bytes 0 0) magic_byte1) || not (eqb (get_or bytes 1 0) magic_byte2)
    then err invalid_magic
    else ok (read_header bytes)
