-- ===== src/ByteManip/Join.antt =====
-- The functions of include/ezsp/byte-manip.h in plain arithmetic: joining and splitting words are
-- inverse to each other.
use libezsp.Common.{ℕ, ◌+◌, ◌-◌, ◌*◌, ◌/◌, ◌%◌, ◌^◌, ◌<◌, ◌≡◌, arith}
use libezsp.Common.{IsU8, IsU16, IsU32, bit_or_disjoint, bit_and_mask, leb, if◌then◌else◌}
use libezsp.Common.{List, [], ◌∷◌}
use libezsp.ByteManip.{dble_u8_to_u16, quad_u8_to_u32, u8_get_hi_nibble, u8_get_lo_nibble}
use libezsp.ByteManip.{u16_get_hi_u8, u16_get_lo_u8, u64_get_lo_u32, u64_get_hi_u32}
use libezsp.ByteManip.{u32_get_byte0, u32_get_byte1, u32_get_byte2, u32_get_byte3}
use libezsp.ByteManip.{hex_digit, byte_to_hex_string}

pub dble_sum : (h l : ℕ) → IsU8 h → IsU8 l → dble_u8_to_u16 h l ≡ h * 256 + l
unfolding dble_u8_to_u16
dble_sum h l hh hl =
    let small : h * 256 % 65536 ≡ h * 256 = omega arith in
    rw (small, bit_or_disjoint 8 h l hl) (omega arith)

pub quad_sum :
    (a b c d : ℕ)
    → IsU8 a
    → IsU8 b
    → IsU8 c
    → IsU8 d
    → quad_u8_to_u32 a b c d ≡ a * 16777216 + b * 65536 + c * 256 + d
unfolding quad_u8_to_u32
quad_sum a b c d ha hb hc hd = ground (
  arith,
  bit_or_disjoint 24 a (b * 65536),
  bit_or_disjoint 16 (a * 256 + b) (c * 256),
  bit_or_disjoint 8 (a * 65536 + b * 256 + c) d,
)

pub u16_hi : (w : ℕ) → IsU16 w → u16_get_hi_u8 w ≡ w / 256
unfolding u16_get_hi_u8
u16_hi w h = omega arith

pub u16_lo : (w : ℕ) → u16_get_lo_u8 w ≡ w % 256
unfolding u16_get_lo_u8
u16_lo w = omega (arith, bit_and_mask 8 w)

pub hi_nibble : (b : ℕ) → IsU8 b → u8_get_hi_nibble b ≡ b / 16
unfolding u8_get_hi_nibble
hi_nibble b h = omega arith

pub lo_nibble : (b : ℕ) → u8_get_lo_nibble b ≡ b % 16
unfolding u8_get_lo_nibble
lo_nibble b = omega (arith, bit_and_mask 4 b)

pub u32_bytes :
    (w : ℕ)
    → IsU32 w
    → (u32_get_byte0 w ≡ w % 256)
      × (u32_get_byte1 w ≡ w / 256 % 256)
      × (u32_get_byte2 w ≡ w / 65536 % 256)
      × (u32_get_byte3 w ≡ w / 16777216)
unfolding u32_get_byte0 u32_get_byte1 u32_get_byte2 u32_get_byte3
u32_bytes w h = omega (
  arith,
  bit_and_mask 8 w,
  bit_and_mask 8 (w / 256),
  bit_and_mask 8 (w / 65536),
  bit_and_mask 8 (w / 16777216),
)

-- Splitting a 16-bit word and joining its two bytes gives the word, and joining two bytes and
-- splitting the result gives the bytes.
pub dble_u8_to_u16-split :
    (w h l : ℕ)
    → IsU16 w
    → IsU8 h
    → IsU8 l
    → (dble_u8_to_u16 (u16_get_hi_u8 w) (u16_get_lo_u8 w) ≡ w)
      × (u16_get_hi_u8 (dble_u8_to_u16 h l) ≡ h)
      × (u16_get_lo_u8 (dble_u8_to_u16 h l) ≡ l)
dble_u8_to_u16-split w h l hw hh hl = omega (
  arith,
  u16_hi w hw,
  u16_lo w,
  dble_sum (u16_get_hi_u8 w) (u16_get_lo_u8 w) (omega (arith, u16_hi w hw))
      (omega (arith, u16_lo w)),
  dble_sum h l hh hl,
  u16_hi (dble_u8_to_u16 h l) (omega (arith, dble_sum h l hh hl)),
  u16_lo (dble_u8_to_u16 h l),
)

-- Splitting a 32-bit word and joining its four bytes gives the word.
pub quad_u8_to_u32-split :
    (w : ℕ)
    → IsU32 w
    → quad_u8_to_u32 (u32_get_byte3 w) (u32_get_byte2 w) (u32_get_byte1 w) (u32_get_byte0 w) ≡ w
quad_u8_to_u32-split w h =
    let (b0, b1, b2, b3) = u32_bytes w h in
    rw
      (
        b0,
        b1,
        b2,
        b3,
        quad_sum (w / 16777216) (w / 65536 % 256) (w / 256 % 256) (w % 256) (omega arith)
            (omega arith) (omega arith) (omega arith),
      )
      (omega arith)

-- Joining four bytes and splitting the word gives the bytes.
pub split-quad_u8_to_u32 :
    (a b c d : ℕ)
    → IsU8 a
    → IsU8 b
    → IsU8 c
    → IsU8 d
    → let w = quad_u8_to_u32 a b c d in
      (u32_get_byte3 w ≡ a) × (u32_get_byte2 w ≡ b) × (u32_get_byte1 w ≡ c) × (u32_get_byte0 w ≡ d)
split-quad_u8_to_u32 a b c d ha hb hc hd =
    let sum = quad_sum a b c d ha hb hc hd in
    omega (arith, sum, u32_bytes (quad_u8_to_u32 a b c d) (omega (arith, sum)))

-- A 64-bit word is its two halves.
pub u64_halves : (w : ℕ) → w < 2 ^ 64 → u64_get_hi_u32 w * 4294967296 + u64_get_lo_u32 w ≡ w
unfolding u64_get_hi_u32 u64_get_lo_u32
u64_halves w h = omega (arith, bit_and_mask 32 w, bit_and_mask 32 (w / 4294967296))

-- The number that a lower-case hexadecimal digit stands for.
abbrev pub hex_value : ℕ → ℕ
hex_value c = if leb b'a' c then c - b'a' + 10 else c - b'0'

abbrev pub hex_number : List ℕ → ℕ → ℕ
hex_number [] acc = acc
hex_number (c ∷ cs) acc = hex_number cs (acc * 16 + hex_value c)

hex_value-hex_digit : (n : ℕ) → n < 16 → hex_value (hex_digit n) ≡ n
unfolding hex_digit
hex_value-hex_digit n h = ground arith

-- The two characters that print a byte, read as a hexadecimal number, are the byte.
pub hex_number-byte_to_hex_string : (b : ℕ) → IsU8 b → hex_number (byte_to_hex_string b) 0 ≡ b
unfolding byte_to_hex_string
hex_number-byte_to_hex_string b h =
    rw (hi_nibble b h, lo_nibble b)
      (omega (
        arith,
        hex_value-hex_digit (b / 16) (omega arith),
        hex_value-hex_digit (b % 16) (omega arith),
      ))
