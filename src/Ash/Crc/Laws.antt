-- ===== src/Ash/Crc/Laws.antt =====
-- A frame that ends with its own checksum has checksum 0.
use libezsp.Common.{ℕ, zero, suc, ◌+◌, ◌-◌, ◌*◌, ◌/◌, ◌%◌, ◌^◌, ◌≤◌, ◌<◌, ◌≡◌, refl, sym, ap, ◌∙◌}
use libezsp.Common.{arith, IsU8, IsU16, bit_and, bit_and_mask, bit_xor-lt, List, [], ◌∷◌, ◌++◌}
use libezsp.ByteManip.{u16_get_hi_u8, u16_get_lo_u8}
use libezsp.ByteManip.Join.{u16_hi, u16_lo}
use native.Mathlib.Nat.{pow-suc}
use native.Mathlib.Numerals.{towards_suc}
use libezsp.Ash.Crc.{crc_bit, crc_bits, crc_byte, crc_loop, compute_crc}

crc_bit-IsU16 : (byte i crc : ℕ) → IsU16 (crc_bit byte i crc)
unfolding crc_bit
crc_bit-IsU16 byte i crc = ground (arith, bit_xor-lt 16 (crc * 2 % 65536) 0x1021)

-- Where the bit that goes in is the top bit of the register, the register is shifted and no more.
crc_bit_shifts :
    (byte i crc : ℕ)
    → IsU8 byte
    → i ≤ 7
    → IsU16 crc
    → byte / 2 ^ (7 - i) % 2 ≡ crc / 32768
    → crc_bit byte i crc ≡ crc * 2 % 65536
unfolding crc_bit
crc_bit_shifts byte i crc hb hi hc e =
    let count : (7 - i) % 256 ≡ 7 - i = omega arith in
    let top : bit_and (crc / 32768 % 256) 1 ≡ crc / 32768 =
      omega (arith, bit_and_mask 1 (crc / 32768 % 256)) in
    let same : bit_and (byte / 2 ^ (7 - i) % 256) 1 ≡ crc / 32768 =
      omega (arith, bit_and_mask 1 (byte / 2 ^ (7 - i) % 256)) in
    rw (count, top, same) (ground arith)

-- Bit `7 - i` of the high half is the top bit after `i` shifts.
high_bit : (i x : ℕ) → i < 8 → IsU16 x → x / 256 / 2 ^ (7 - i) % 2 ≡ x * 2 ^ i % 65536 / 32768
high_bit zero x hi h = omega arith
high_bit (suc zero) x hi h = omega arith
high_bit (suc (suc zero)) x hi h = omega arith
high_bit (suc (suc (suc zero))) x hi h = omega arith
high_bit (suc (suc (suc (suc zero)))) x hi h = omega arith
high_bit (suc (suc (suc (suc (suc zero))))) x hi h = omega arith
high_bit (suc (suc (suc (suc (suc (suc zero)))))) x hi h = omega arith
high_bit (suc (suc (suc (suc (suc (suc (suc zero))))))) x hi h = omega arith
high_bit (suc (suc (suc (suc (suc (suc (suc (suc i)))))))) x hi h = absurd (omega arith)

crc_bits-high :
    (rounds i x : ℕ)
    → rounds + i ≡ 8
    → IsU16 x
    → crc_bits rounds i (x / 256) (x * 2 ^ i % 65536) ≡ x * 256 % 65536
unfolding crc_bits
crc_bits-high zero i x e h = let e' : i ≡ 8 = omega arith in rw e'
crc_bits-high (suc rounds) i x e h =
    let round : crc_bit (x / 256) i (x * 2 ^ i % 65536) ≡ x * 2 ^ (i + 1) % 65536 =
      crc_bit_shifts (x / 256) i (x * 2 ^ i % 65536) (omega arith) (omega arith) (omega arith)
        (high_bit i x (omega arith) h)
      ∙ simp towards_suc (omega (arith, ap (λ (t : ℕ). x * t) (pow-suc 2 i))) in
    rw round (crc_bits-high rounds (i + 1) x (omega arith) h)

-- The register after one byte equal to its high half: the low half has moved up.
crc_byte-high : (crc : ℕ) → IsU16 crc → crc_byte (crc / 256) crc ≡ crc % 256 * 256
unfolding crc_byte
crc_byte-high crc h =
    let start : crc * 2 ^ 0 % 65536 ≡ crc = omega arith in
    (rw start at (crc_bits-high 8 0 crc (omega arith) h)) ∙ omega arith

pub crc_loop-append :
    (xs ys : List ℕ) (crc : ℕ) → crc_loop (xs ++ ys) crc ≡ crc_loop ys (crc_loop xs crc)
unfolding crc_loop
crc_loop-append [] ys crc = refl
crc_loop-append (x ∷ xs) ys crc = crc_loop-append xs ys (crc_byte x crc)

crc_bits-IsU16 : (rounds i byte crc : ℕ) → IsU16 crc → IsU16 (crc_bits rounds i byte crc)
unfolding crc_bits
crc_bits-IsU16 zero i byte crc h = h
crc_bits-IsU16 (suc rounds) i byte crc h =
    crc_bits-IsU16 rounds (i + 1) byte (crc_bit byte i crc) (crc_bit-IsU16 byte i crc)

pub crc_byte-IsU16 : (byte crc : ℕ) → IsU16 crc → IsU16 (crc_byte byte crc)
unfolding crc_byte
crc_byte-IsU16 byte crc h = crc_bits-IsU16 8 0 byte crc h

pub crc_loop-IsU16 : (buf : List ℕ) (crc : ℕ) → IsU16 crc → IsU16 (crc_loop buf crc)
unfolding crc_loop
crc_loop-IsU16 [] crc h = h
crc_loop-IsU16 (b ∷ bs) crc h = crc_loop-IsU16 bs (crc_byte b crc) (crc_byte-IsU16 b crc h)

pub compute_crc-IsU16 : (buf : List ℕ) → IsU16 (compute_crc buf)
unfolding compute_crc
compute_crc-IsU16 buf = omega (arith, bit_and_mask 16 (crc_loop buf 0xffff))

compute_crc-loop : (buf : List ℕ) → compute_crc buf ≡ crc_loop buf 0xffff
unfolding compute_crc
compute_crc-loop buf =
    omega (arith, bit_and_mask 16 (crc_loop buf 0xffff), crc_loop-IsU16 buf 0xffff (omega arith))

-- A buffer followed by the two bytes of its own checksum, high byte first, has checksum 0.
pub compute_crc-checked :
    (buf : List ℕ)
    → compute_crc (buf ++ (u16_get_hi_u8 (compute_crc buf) ∷ u16_get_lo_u8 (compute_crc buf) ∷ []))
      ≡ 0
compute_crc-checked buf =
    let crc = compute_crc buf in
    let fits : IsU16 crc = compute_crc-IsU16 buf in
    let register : crc_loop buf 0xffff ≡ crc = sym (compute_crc-loop buf) in
    let low : crc % 256 * 256 / 256 ≡ crc % 256 = omega arith in
    let first : crc_byte (crc / 256) crc ≡ crc % 256 * 256 = crc_byte-high crc fits in
    let second : crc_byte (crc % 256) (crc % 256 * 256) ≡ 0 =
      (rw low at (crc_byte-high (crc % 256 * 256) (omega arith))) ∙ omega arith in
    rw (compute_crc-loop, crc_loop-append, register, u16_hi crc fits, u16_lo crc)
      (unfold crc_loop in rw (first, second))
