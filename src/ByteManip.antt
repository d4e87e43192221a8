-- ===== src/ByteManip.antt =====
-- include/ezsp/byte-manip.h: bytes put together into words and words taken apart into bytes.
-- A byte, a 16-bit and a 32-bit word are numbers; each cast keeps its wrap-around.
pub mod Join
use libezsp.Common.{ℕ, ◌+◌, ◌-◌, ◌*◌, ◌/◌, ◌%◌, ◌^◌, bit_and, bit_or, ◌&&◌}
use libezsp.Common.{u8, u16, u32, ◌<<<◌, ◌>>>◌, leb, if◌then◌else◌, List, [], ◌∷◌}

unfoldable pub dble_u8_to_u16 : ℕ → ℕ → ℕ
dble_u8_to_u16 high_byte low_byte = let value = u16 (high_byte <<< 8) in u16 (bit_or value low_byte)

unfoldable pub quad_u8_to_u32 : ℕ → ℕ → ℕ → ℕ → ℕ
quad_u8_to_u32 highest_byte3 byte2 byte1 lowest_byte0 =
    let value3 = u32 (highest_byte3 <<< 24) in
    let value2 = bit_or value3 (u32 (byte2 <<< 16)) in
    let value1 = bit_or value2 (u32 (byte1 <<< 8)) in bit_or value1 lowest_byte0

unfoldable pub u8_get_hi_nibble : ℕ → ℕ
u8_get_hi_nibble byte = u8 (byte >>> 4)

unfoldable pub u8_get_lo_nibble : ℕ → ℕ
u8_get_lo_nibble byte = u8 (bit_and byte 0x0f)

unfoldable pub u16_get_hi_u8 : ℕ → ℕ
u16_get_hi_u8 word = u8 (word >>> 8)

unfoldable pub u16_get_lo_u8 : ℕ → ℕ
u16_get_lo_u8 word = u8 (bit_and word 0xff)

unfoldable pub u32_get_byte0 : ℕ → ℕ
u32_get_byte0 word32 = u8 (bit_and word32 0xff)

unfoldable pub u32_get_byte1 : ℕ → ℕ
u32_get_byte1 word32 = u8 (bit_and (word32 >>> 8) 0xff)

unfoldable pub u32_get_byte2 : ℕ → ℕ
u32_get_byte2 word32 = u8 (bit_and (word32 >>> 16) 0xff)

unfoldable pub u32_get_byte3 : ℕ → ℕ
u32_get_byte3 word32 = u8 (bit_and (word32 >>> 24) 0xff)

unfoldable pub u64_get_lo_u32 : ℕ → ℕ
u64_get_lo_u32 word64 = u32 (bit_and word64 0xffff_ffff)

unfoldable pub u64_get_hi_u32 : ℕ → ℕ
u64_get_hi_u32 word64 = u32 (bit_and (word64 >>> 32) 0xffff_ffff)

-- `nibble + '0'` or `nibble - 0x0a + 'a'`, computed in `int` and stored into a `char`.
unfoldable pub hex_digit : ℕ → ℕ
hex_digit nibble =
    if leb 0 nibble && leb nibble 9 then u8 (nibble + b'0') else u8 (nibble + b'a' - 0x0a)

-- The two characters of the string, as codes.
unfoldable pub byte_to_hex_string : ℕ → List ℕ
unfolding hex_digit u8_get_hi_nibble u8_get_lo_nibble
byte_to_hex_string byte = hex_digit (u8_get_hi_nibble byte) ∷ hex_digit (u8_get_lo_nibble byte) ∷ []
