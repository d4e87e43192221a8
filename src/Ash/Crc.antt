-- ===== src/Ash/Crc.antt =====
-- AshCodec::computeCRC of src/ezsp/ashv2-codec.cpp, bit by bit.
pub mod Laws
use libezsp.Common.{ℕ, zero, suc, ◌+◌, ◌-◌, ◌*◌, ◌/◌, ◌%◌, ◌^◌, bit_and, bit_xor}
use libezsp.Common.{◌==◌, bool_ne, if◌then◌else◌, u8, u16, ◌<<<◌, ◌>>>◌, List, [], ◌∷◌}

-- One round of the inner loop: bit `7 - i` of the byte goes in.
unfoldable pub crc_bit : ℕ → ℕ → ℕ → ℕ
crc_bit byte i lo_crc =
    let bit = bit_and (u8 (byte >>> u8 (7 - i))) 1 == 1 in
    let c15 = bit_and (u8 (lo_crc >>> 15)) 1 == 1 in
    let shifted = u16 (lo_crc <<< 1) in if bool_ne c15 bit then bit_xor shifted 0x1021 else shifted

-- The inner loop with so many rounds left.
unfoldable pub crc_bits : ℕ → ℕ → ℕ → ℕ → ℕ
unfolding crc_bit
crc_bits zero i byte lo_crc = lo_crc
crc_bits (suc rounds) i byte lo_crc = crc_bits rounds (i + 1) byte (crc_bit byte i lo_crc)

unfoldable pub crc_byte : ℕ → ℕ → ℕ
unfolding crc_bits
crc_byte byte lo_crc = crc_bits 8 0 byte lo_crc

-- The outer loop.
unfoldable pub crc_loop : List ℕ → ℕ → ℕ
unfolding crc_byte
crc_loop [] lo_crc = lo_crc
crc_loop (b ∷ buf) lo_crc = crc_loop buf (crc_byte b lo_crc)

unfoldable pub compute_crc : List ℕ → ℕ
unfolding crc_loop
compute_crc buf = bit_and (crc_loop buf 0xffff) 0xffff
