-- ===== src/GpFrame/Ccm.antt =====
-- The message integrity code of a Green Power frame (src/ezsp/zbmessage/green-power-frame.cpp) is the
-- one of AES-CCM with a code of four bytes, a nonce of thirteen and no message to encrypt.
use libezsp.Common.{ℕ, zero, suc, ◌+◌, ◌-◌, ◌*◌, ◌/◌, ◌%◌, ◌≤◌, ◌<◌, ◌≡◌, ◌∙◌, refl, ap, sym, arith}
use libezsp.Common.{◌==◌, ltb, ◌&&◌, bit_xor, List}
use libezsp.Common.{
  [], ◌∷◌, ◌++◌, length, length-append, Bool-cases, inl, inr, if_true, if_false, IsU32, replicate,
  take, drop, drop-drop,
}
use mathlib.Core.List.{append-nil}
use libezsp.ByteManip.Join.{u16_hi, u16_lo, quad_u8_to_u32-split}
use libezsp.ByteManip.{u16_get_hi_u8, u16_get_lo_u8}
use libezsp.Structs.{byte, bytes_at}
use libezsp.Commissioning.{xor_bytes}
use libezsp.GpFrame.{GpFrame}
use libezsp.GpFrame.Mic.{Cipher, xi_rounds, get_last_xi_aes_cbc, pad_to_block, authenticated}
use libezsp.GpFrame.Mic.{low_word, computed_mic, validate_mic, compute_nonce, word_bytes}

-- The first blocks of a sequence of bytes.
abbrev pub blocks : ℕ → List ℕ → List (List ℕ)
blocks zero s = []
blocks (suc n) s = take 16 s ∷ blocks n (drop 16 s)

-- CBC-MAC under a block cipher, from an initial vector.
abbrev pub cbc_mac : (List ℕ → List ℕ) → List ℕ → List (List ℕ) → List ℕ
cbc_mac encrypt x [] = x
cbc_mac encrypt x (b ∷ bs) = cbc_mac encrypt (encrypt (xor_bytes x b)) bs

-- How many blocks hold a number of bytes.
abbrev pub blocks_for : ℕ → ℕ
blocks_for n = (n + 15) / 16

-- The code of AES-CCM over the nonce and the additional data, whose length is written before them in
-- two bytes, as it is below 65280.
abbrev pub ccm_mic : (List ℕ → List ℕ) → List ℕ → List ℕ → ℕ
ccm_mic encrypt nonce a =
    let s = length a / 256 ∷ length a % 256 ∷ a in
    let n = blocks_for (length s) in
    let padded = s ++ replicate (n * 16 - length s) 0 in
    let b0 = (0x49 ∷ nonce) ++ (0 ∷ 0 ∷ []) in
    let a0 = (0x01 ∷ nonce) ++ (0 ∷ 0 ∷ []) in
    bit_xor (low_word (encrypt a0))
      (low_word (cbc_mac encrypt (replicate 16 0) (b0 ∷ blocks n padded)))

-- What cbc_encrypt does with one block.
abbrev pub IsCbc : Cipher → List ℕ → Type 0
IsCbc c key =
    (block iv : List ℕ)
    → c.cbc_encrypt key block iv
      ≡ (c.encrypt key (xor_bytes iv block), c.encrypt key (xor_bytes iv block))

byte-drop : (b : List ℕ) (i : ℕ) → i < length b → drop i b ≡ byte b i ∷ drop (suc i) b
unfolding byte
byte-drop [] i h = absurd (omega arith)
byte-drop (x ∷ b) zero h = refl
byte-drop (x ∷ b) (suc i) h = byte-drop b i (omega arith)

bytes_at-take : (b : List ℕ) (i n : ℕ) → i + n ≤ length b → bytes_at b i n ≡ take n (drop i b)
unfolding bytes_at
bytes_at-take b i zero h = refl
bytes_at-take b i (suc n) h =
    ap (λ s. byte b i ∷ s) (bytes_at-take b (suc i) n (omega arith))
    ∙ ap (take (suc n)) (sym (byte-drop b i (omega arith)))

module _ (c : Cipher) (key b : List ℕ) (cbc : IsCbc c key) where
  one_round :
      (n index : ℕ) (block iv xi : List ℕ) (last : ℕ)
      → let x = c.encrypt key (xor_bytes iv block) in
        xi_rounds c key b (suc n) index block iv xi last
        ≡ xi_rounds c key b n (index + 1) (bytes_at b ((index - 1) * 16) 16) x x index
  unfolding xi_rounds
  one_round n index block iv xi last =
      ap (λ o. xi_rounds c key b n (index + 1) (bytes_at b ((index - 1) * 16) 16) o.1 o.0 index)
        (cbc block iv)

  -- The rounds after the first `j` blocks, `n` of which are left.
  xi_rounds_lem :
      (n j : ℕ) (block iv xi : List ℕ) (last : ℕ)
      → length b ≡ (j + n) * 16
      → (xi_rounds c key b (suc n) (suc j) block iv xi last).0
        ≡ cbc_mac (c.encrypt key) iv (block ∷ blocks n (drop (j * 16) b))
  unfolding xi_rounds
  xi_rounds_lem zero j block iv xi last len = ap (λ r. r.0) (one_round 0 (suc j) block iv xi last)
  xi_rounds_lem (suc n) j block iv xi last len =
      let x = c.encrypt key (xor_bytes iv block) in
      let index : suc j + 1 ≡ suc (suc j) = omega arith in
      let place : (suc j - 1) * 16 ≡ j * 16 = omega arith in
      let next : j * 16 + 16 ≡ suc j * 16 = omega arith in
      let block' = take 16 (drop (j * 16) b) in
      ap (λ r. r.0) (one_round (suc n) (suc j) block iv xi last)
      ∙ ap (λ i. (xi_rounds c key b (suc n) (suc j + 1) (bytes_at b i 16) x x (suc j)).0) place
      ∙ ap (λ i. (xi_rounds c key b (suc n) i (bytes_at b (j * 16) 16) x x (suc j)).0) index
      ∙ ap (λ s. (xi_rounds c key b (suc n) (suc (suc j)) s x x (suc j)).0)
          (bytes_at-take b (j * 16) 16 (omega arith))
      ∙ xi_rounds_lem n (suc j) block' x x (suc j) (omega arith)
      ∙ ap (λ s. cbc_mac (c.encrypt key) x (block' ∷ blocks n s))
          (ap (λ i. drop i b) (sym next) ∙ sym (drop-drop (j * 16) 16 b))

pad_lem : (s : List ℕ) → pad_to_block s ≡ s ++ replicate (blocks_for (length s) * 16 - length s) 0
unfolding pad_to_block
pad_lem s =
    let fill : ℕ → List ℕ = λ k. s ++ replicate k 0 in
    let over = length s % 16 in
    elim (Bool-cases (ltb 0 over)) [
      | inl h ↦
          let left : 16 - over ≡ blocks_for (length s) * 16 - length s = ground arith in
          if_true _ h ∙ ap fill left
      | inr h ↦
          let left : 0 ≡ blocks_for (length s) * 16 - length s = ground arith in
          if_false _ h ∙ sym (append-nil s) ∙ ap fill left
    ]

length-replicate_lem : (k x : ℕ) → length (replicate k x) ≡ k
length-replicate_lem zero x = refl
length-replicate_lem (suc k) x = ap suc (length-replicate_lem k x)

length-pad_to_block : (s : List ℕ) → length (pad_to_block s) ≡ blocks_for (length s) * 16
length-pad_to_block s =
    let fill = blocks_for (length s) * 16 - length s in
    ap length (pad_lem s)
    ∙ omega (arith, length-append s (replicate fill 0), length-replicate_lem fill 0)

pad_whole : (s : List ℕ) → length s % 16 ≡ 0 → pad_to_block s ≡ s
unfolding pad_to_block
pad_whole s h = ground arith

pad_again : (s : List ℕ) → pad_to_block (pad_to_block s ++ []) ≡ pad_to_block s
pad_again s =
    ap pad_to_block (append-nil (pad_to_block s))
    ∙ pad_whole (pad_to_block s) (omega (arith, length-pad_to_block s))

-- CBC-MAC of a whole number of blocks, after the first one.
last_xi_lem :
    (c : Cipher) (key x0 b0 b : List ℕ) (n : ℕ)
    → IsCbc c key
    → length x0 ≡ 16
    → length b0 ≡ 16
    → length b ≡ n * 16
    → (get_last_xi_aes_cbc c key x0 b0 b).0 ≡ cbc_mac (c.encrypt key) x0 (b0 ∷ blocks n b)
unfolding get_last_xi_aes_cbc
last_xi_lem c key x0 b0 b n cbc hx hb0 hb =
    let rounds : length b / 16 + 1 ≡ suc n = omega arith in
    let all_right : (get_last_xi_aes_cbc c key x0 b0 b).0
        ≡ (xi_rounds c key b (length b / 16 + 1) 1 b0 x0 [] 0).0 =
      ground arith in
    all_right
    ∙ ap (λ r. (xi_rounds c key b r 1 b0 x0 [] 0).0) rounds
    ∙ xi_rounds_lem c key b cbc n 0 b0 x0 [] 0 (omega arith)

length-compute_nonce : (i f : ℕ) → length (compute_nonce i f) ≡ 13
unfolding compute_nonce word_bytes
length-compute_nonce i f = refl

computed_mic-ccm :
    (c : Cipher) (key : List ℕ) (f : GpFrame)
    → IsCbc c key
    → length (authenticated f) < 65536
    → computed_mic c key f
      ≡ ccm_mic
          (c.encrypt key)
          (compute_nonce f.source_id f.security_frame_counter)
          (authenticated f)
unfolding computed_mic u16_get_hi_u8 u16_get_lo_u8
computed_mic-ccm c key f cbc small =
    let nonce = compute_nonce f.source_id f.security_frame_counter in
    let a = authenticated f in
    let la = length a % 65536 in
    let hi : u16_get_hi_u8 la ≡ length a / 256 = u16_hi la (omega arith) ∙ omega arith in
    let lo : u16_get_lo_u8 la ≡ length a % 256 = u16_lo la ∙ omega arith in
    let b0 : List ℕ = (0x49 ∷ nonce) ++ (0 ∷ 0 ∷ []) in
    let a0 : List ℕ = (0x01 ∷ nonce) ++ (0 ∷ 0 ∷ []) in
    let x0 : List ℕ = replicate 16 0 in
    let n = blocks_for (suc (suc (length a))) in
    let s : List ℕ = u16_get_hi_u8 la ∷ u16_get_lo_u8 la ∷ a in
    let mac : List ℕ → List ℕ = λ p. cbc_mac (c.encrypt key) x0 (b0 ∷ blocks n p) in
    let filled : ℕ → ℕ → List ℕ =
      λ h l. (h ∷ l ∷ a) ++ replicate (n * 16 - suc (suc (length a))) 0 in
    let b0_whole : length b0 ≡ 16 =
      length-append (0x49 ∷ nonce) (0 ∷ 0 ∷ [])
      ∙ omega (arith, length-compute_nonce f.source_id f.security_frame_counter) in
    ap (λ x. bit_xor (low_word (c.encrypt key a0)) (low_word x))
      (ap (λ b. (get_last_xi_aes_cbc c key x0 b0 b).0) (pad_again s)
        ∙ last_xi_lem c key x0 b0 (pad_to_block s) n cbc refl b0_whole (length-pad_to_block s)
        ∙ ap mac (pad_lem s)
        ∙ ap (λ h. mac (filled h (u16_get_lo_u8 la))) hi
        ∙ ap (λ l. mac (filled (length a / 256) l)) lo)

-- A frame is accepted exactly if its security is a frame counter with a code, it is addressed by a
-- source ID, and its code is that of AES-CCM, under the given key, over the nonce and the header, the
-- command and the payload. The cipher's CBC mode of one block is what CBC means, and what is
-- authenticated has less than 65536 bytes.
pub validate_mic-ccm :
    (c : Cipher) (key : List ℕ) (f : GpFrame)
    → IsCbc c key
    → length (authenticated f) < 65536
    → validate_mic c key f
      ≡ (f.security == 2)
        && (f.application_id == 0)
        && (f.mic
            == ccm_mic
                (c.encrypt key)
                (compute_nonce f.source_id f.security_frame_counter)
                (authenticated f))
unfolding validate_mic
validate_mic-ccm c key f cbc small = ground (arith, computed_mic-ccm c key f cbc small)

-- Two frames have the same nonce only if they come from the same source with the same counter, both
-- of 32 bits.
pub compute_nonce_inj :
    (i j f g : ℕ)
    → IsU32 i
    → IsU32 j
    → IsU32 f
    → IsU32 g
    → compute_nonce i f ≡ compute_nonce j g
    → (i ≡ j) × (f ≡ g)
unfolding compute_nonce word_bytes byte
compute_nonce_inj i j f g hi hj hf hg e = (
  sym (quad_u8_to_u32-split i hi) ∙ ap low_word e ∙ quad_u8_to_u32-split j hj,
  sym (quad_u8_to_u32-split f hf) ∙ ap (λ n. low_word (drop 8 n)) e ∙ quad_u8_to_u32-split g hg,
)
