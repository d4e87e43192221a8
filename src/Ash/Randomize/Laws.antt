-- ===== src/Ash/Randomize/Laws.antt =====
-- `data_randomize` against a plain stream cipher: it ends on buffers of at most 255 bytes and on no
-- longer one, and applied twice it gives the data back.
use libezsp.Common.{ℕ, zero, suc, ◌+◌, ◌-◌, ◌/◌, ◌≤◌, ◌<◌, ◌≡◌, refl, arith, bit_xor, u8, IsU8}
use libezsp.Common.{
  List, [], ◌∷◌, length, get_elem?, drop, All, none, some, ◌⊎◌, inl, inr, length-drop, ap,
}
use libezsp.Common.{bit_xor-lt, bit_xor_cancel}
use libezsp.Ash.Randomize.{next_lfsr, randomize_loop, data_randomize}

-- Each byte combined with the register, which moves on from byte to byte.
unfoldable pub keystream : ℕ → List ℕ → List ℕ
keystream lfsr [] = []
keystream lfsr (b ∷ bs) = bit_xor b lfsr ∷ keystream (next_lfsr lfsr) bs

abbrev pub randomized : List ℕ → List ℕ
randomized bs = keystream 0x42 bs

pub next_lfsr-IsU8 : (r : ℕ) → IsU8 r → IsU8 (next_lfsr r)
unfolding next_lfsr
next_lfsr-IsU8 r h = ground (arith, bit_xor-lt 8 (r / 2) 0xb8)

pub keystream-IsU8 : (r : ℕ) (bs : List ℕ) → IsU8 r → All IsU8 bs → All IsU8 (keystream r bs)
unfolding keystream
keystream-IsU8 r [] hr h = tt
keystream-IsU8 r (b ∷ bs) hr h =
    (bit_xor-lt 8 b r h.0 hr, keystream-IsU8 (next_lfsr r) bs (next_lfsr-IsU8 r hr) h.1)

pub keystream_involutive :
    (r : ℕ) (bs : List ℕ) → IsU8 r → All IsU8 bs → keystream r (keystream r bs) ≡ bs
unfolding keystream
keystream_involutive r [] hr h = refl
keystream_involutive r (b ∷ bs) hr h =
    rw
      (bit_xor_cancel 8 b r h.0 hr, keystream_involutive (next_lfsr r) bs (next_lfsr-IsU8 r hr) h.1)

pub length-keystream : (r : ℕ) (bs : List ℕ) → length (keystream r bs) ≡ length bs
unfolding keystream
length-keystream r [] = refl
length-keystream r (b ∷ bs) = omega (arith, length-keystream (next_lfsr r) bs)

-- Reading at `cnt` and going on behind it is taking a list apart.
drop_cases :
    (xs : List ℕ) (i : ℕ)
    → ((get_elem? xs i ≡ none) × (drop i xs ≡ []))
      ⊎ ((b : ℕ) × (get_elem? xs i ≡ some b) × (drop i xs ≡ b ∷ drop (suc i) xs) × (i < length xs))
drop_cases [] zero = inl (refl, refl)
drop_cases [] (suc i) = inl (refl, refl)
drop_cases (x ∷ xs) zero = inr (x, refl, refl, omega arith)
drop_cases (x ∷ xs) (suc i) = elim (drop_cases xs i) [
  | inl p ↦ inl p
  | inr (b, e, f, l) ↦ inr (b, e, f, omega arith)
]

randomize_loop-keystream :
    (rounds : ℕ) (bs : List ℕ) (cnt r : ℕ)
    → length bs ≤ 255
    → length bs - cnt < rounds
    → cnt ≤ 255
    → randomize_loop rounds bs cnt r ≡ some (keystream r (drop cnt bs))
unfolding randomize_loop keystream
randomize_loop-keystream zero bs cnt r h hr hc = absurd (omega arith)
randomize_loop-keystream (suc rounds) bs cnt r h hr hc = elim (drop_cases bs cnt) [
  | inl (e, f) ↦ rw (f, e, randomize_loop)
  | inr (b, e, f, l) ↦
      let next : u8 (cnt + 1) ≡ suc cnt = omega arith in
      let rest : randomize_loop rounds bs (suc cnt) (next_lfsr r)
          ≡ some (keystream (next_lfsr r) (drop (suc cnt) bs)) =
        randomize_loop-keystream rounds bs (suc cnt) (next_lfsr r) h (omega arith) (omega arith) in
      rw (f, e, randomize_loop, next, rest)
]

-- On a buffer of at most 255 bytes, `data_randomize` ends and returns the stream cipher of what
-- follows the first `start` bytes.
pub data_randomize_total :
    (bs : List ℕ) (start : ℕ)
    → length bs ≤ 255
    → start ≤ 255
    → data_randomize bs start ≡ some (keystream 0x42 (drop start bs))
unfolding data_randomize
data_randomize_total bs start h hs = randomize_loop-keystream 256 bs start 0x42 h (omega arith) hs

-- On a longer buffer the loop is still going on after any number of rounds.
pub data_randomize_endless :
    (rounds : ℕ) (bs : List ℕ) (cnt r : ℕ)
    → 256 ≤ length bs
    → cnt ≤ 255
    → randomize_loop rounds bs cnt r ≡ none
unfolding randomize_loop
data_randomize_endless zero bs cnt r h hc = refl
data_randomize_endless (suc rounds) bs cnt r h hc = elim (drop_cases bs cnt) [
  | inl (e, f) ↦ absurd (omega (arith, length-drop cnt bs, ap length f))
  | inr (b, e, f, l) ↦ rw (
    e,
    randomize_loop,
    data_randomize_endless rounds bs (u8 (cnt + 1)) (next_lfsr r) h (omega arith),
  )
]

-- Randomizing data of at most 255 bytes twice gives the data back.
pub data_randomize_involutive :
    (bs : List ℕ)
    → length bs ≤ 255
    → All IsU8 bs
    → (out : List ℕ) × (data_randomize bs 0 ≡ some out) × (data_randomize out 0 ≡ some bs)
data_randomize_involutive bs h hb =
    let out = keystream 0x42 bs in
    (
      out,
      data_randomize_total bs 0 h (omega arith),
      rw (data_randomize_total out 0 (omega (arith, length-keystream 0x42 bs)) (omega arith))
          (ap some (keystream_involutive 0x42 bs (omega arith) hb)),
    )
