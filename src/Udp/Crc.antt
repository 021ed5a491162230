-- ===== src/Udp/Crc.antt =====
-- `crc32.ChecksumIEEE` of Go's hash/crc32, bit by bit: the reflected polynomial 0xedb88320, the
-- register starting at and finally inverted by 0xffffffff. A byte is a number below 256.
use gomcp.Prelude.{
  ℕ, ◌/◌, ◌%◌, ◌^◌, ◌<◌, ◌≡◌, refl, List, [], ◌∷◌, bit_xor, arith, eqb, if◌then◌else◌,
}

crc_bit : ℕ → ℕ
crc_bit c = if eqb (c % 2) 1 then bit_xor (c / 2) 0xedb8_8320 else c / 2

crc_byte : ℕ → ℕ → ℕ
unfolding crc_bit
crc_byte c b =
    crc_bit (crc_bit (crc_bit (crc_bit (crc_bit (crc_bit (crc_bit (crc_bit (bit_xor c b))))))))

crc_update : ℕ → List ℕ → ℕ
unfolding crc_byte
crc_update c [] = c
crc_update c (b ∷ bs) = crc_update (crc_byte c b) bs

-- The result is a uint32.
unfoldable pub crc32 : List ℕ → ℕ
unfolding crc_update
crc32 bytes = bit_xor (crc_update 0xffff_ffff bytes) 0xffff_ffff % 2 ^ 32

pub crc32-lt : (bytes : List ℕ) → crc32 bytes < 2 ^ 32
unfolding crc32
crc32-lt bytes = omega arith

check_value :
    crc32 (b'1' ∷ b'2' ∷ b'3' ∷ b'4' ∷ b'5' ∷ b'6' ∷ b'7' ∷ b'8' ∷ b'9' ∷ []) ≡ 0xcbf4_3926
unfolding crc32
check_value = refl
