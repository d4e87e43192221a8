-- ===== src/Ash/Randomize.antt =====
-- AshCodec::dataRandomize of src/ezsp/ashv2-codec.cpp: the bytes are combined with the output of a
-- linear feedback shift register.
pub mod Laws
use libezsp.Common.{ℕ, zero, suc, ◌+◌, ◌/◌, bit_and, bit_xor, ◌==◌, if◌then◌else◌, u8}
use libezsp.Common.{List, [], ◌∷◌, get_elem?, Option, none, some}
use mathlib.Core.Option

-- `bool lfsrByteBit0 = lfsrByte & 0x01; lfsrByte >>= 1; if (lfsrByteBit0) lfsrByte ^= 0xb8;`
unfoldable pub next_lfsr : ℕ → ℕ
next_lfsr lfsr_byte =
    if bit_and lfsr_byte 0x01 == 0 then lfsr_byte / 2 else bit_xor (lfsr_byte / 2) 0xb8

-- The `for` loop; no byte at `cnt` is the end of the loop, `cnt < i_data.size()` being false. `cnt` is a `uint8_t`, so it goes back to 0 behind 255, and the loop over a longer
-- buffer has no end: `none` is a run that is still going on when the rounds are used up.
unfoldable pub randomize_loop : ℕ → List ℕ → ℕ → ℕ → Option (List ℕ)
unfolding next_lfsr
randomize_loop zero i_data cnt lfsr_byte = none
randomize_loop (suc rounds) i_data cnt lfsr_byte = elim (get_elem? i_data cnt) [
  | none ↦ some []
  | some b ↦
      Option.map (◌∷◌ (bit_xor b lfsr_byte))
        (randomize_loop rounds i_data (u8 (cnt + 1)) (next_lfsr lfsr_byte))
]

-- 256 rounds serve every buffer of at most 255 bytes (`data_randomize_total`).
unfoldable pub data_randomize : List ℕ → ℕ → Option (List ℕ)
data_randomize i_data start = randomize_loop 256 i_data start 0x42
