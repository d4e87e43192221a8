-- ===== src/GpFrame/Mic.antt =====
-- The message integrity code of a Green Power frame (src/ezsp/zbmessage/green-power-frame.cpp):
-- toNwkFCByteField, toExtNwkFCByteField, computeNonce, getLastXiAESCBC and validateMIC. AES is a
-- parameter; its blocks have 16 bytes.
use libezsp.Common.{ℕ, zero, suc, ◌+◌, ◌-◌, ◌*◌, ◌/◌, ◌%◌, ◌==◌, ◌!=◌, if◌then◌else◌, ltb}
use libezsp.Common.{bit_and, bit_or, bit_xor, Bool, false, List, [], ◌∷◌, ◌++◌, length, replicate}
use libezsp.ByteManip.{quad_u8_to_u32, u16_get_hi_u8, u16_get_lo_u8}
use libezsp.ByteManip.{u32_get_byte0, u32_get_byte1, u32_get_byte2, u32_get_byte3}
use libezsp.Structs.{byte, bytes_at}
use libezsp.GpFrame.{GpFrame}

-- NSSPI::IAes with its key: `encrypt` of a block, and `cbc_encrypt` of one block after an initial
-- vector, with the output and what the vector is afterwards.
pub record Cipher : Type 0 where
  pub encrypt : List ℕ → List ℕ → List ℕ
  pub cbc_encrypt : List ℕ → List ℕ → List ℕ → List ℕ × List ℕ

abbrev pub aes_block_size : ℕ
aes_block_size = 16

abbrev pub gpd_frm_counter_mic_security : ℕ
gpd_frm_counter_mic_security = 2

abbrev pub gpd_key_type_no_key : ℕ
gpd_key_type_no_key = 0

unfoldable pub to_nwk_fc_byte_field : GpFrame → ℕ
to_nwk_fc_byte_field f =
    let protocol = bit_or 0x00 0x0c in
    let commissioning = if f.auto_commissioning then bit_or protocol 0x40 else protocol in
    bit_or commissioning 0x80

unfoldable pub to_ext_nwk_fc_byte_field : GpFrame → ℕ
to_ext_nwk_fc_byte_field f =
    let application = bit_and f.application_id 0x07 in
    let level = bit_or application (bit_and f.security 0x03 * 8) in
    let keyed = if f.key_type != gpd_key_type_no_key then bit_or level 0x20 else level in
    if f.rx_after_tx then bit_or keyed 0x40 else keyed

-- A word, the lowest byte first.
unfoldable pub word_bytes : ℕ → List ℕ
word_bytes w = u32_get_byte0 w ∷ u32_get_byte1 w ∷ u32_get_byte2 w ∷ u32_get_byte3 w ∷ []

unfoldable pub compute_nonce : ℕ → ℕ → List ℕ
unfolding word_bytes
compute_nonce source_id frame_counter =
    word_bytes source_id ++ word_bytes source_id ++ word_bytes frame_counter ++ (0x05 ∷ [])

-- The rounds of getLastXiAESCBC from an index on. The last round also reads a block behind the end
-- of `b`, which is not used.
unfoldable pub xi_rounds :
    Cipher → List ℕ → List ℕ → ℕ → ℕ → List ℕ → List ℕ → List ℕ → ℕ → List ℕ × ℕ
xi_rounds c key b zero index block iv xi last_index = (xi, last_index)
xi_rounds c key b (suc n) index block iv xi last_index =
    let (out, iv') = c.cbc_encrypt key block iv in
    xi_rounds c key b n (index + 1) (bytes_at b ((index - 1) * aes_block_size) aes_block_size) iv'
      out index

unfoldable pub get_last_xi_aes_cbc : Cipher → List ℕ → List ℕ → List ℕ → List ℕ → List ℕ × ℕ
unfolding xi_rounds
get_last_xi_aes_cbc c key x0 b0 b =
    if length b % aes_block_size != 0
    then ([], 0)
    else if length b0 != aes_block_size
    then ([], 0)
    else if length x0 != aes_block_size
    then ([], 0)
    else xi_rounds c key b (length b / aes_block_size + 1) 1 b0 x0 [] 0

-- Zero bytes up to a whole number of blocks.
unfoldable pub pad_to_block : List ℕ → List ℕ
pad_to_block s =
    let over = length s % aes_block_size in
    if ltb 0 over then s ++ replicate (aes_block_size - over) 0x00 else s

-- What is authenticated: the header, the command and the payload.
unfoldable pub authenticated : GpFrame → List ℕ
unfolding to_nwk_fc_byte_field to_ext_nwk_fc_byte_field word_bytes
authenticated f =
    to_nwk_fc_byte_field f
    ∷ to_ext_nwk_fc_byte_field f
    ∷ (word_bytes f.source_id
        ++ word_bytes f.security_frame_counter
        ++ (f.command_id ∷ [])
        ++ f.payload)

-- The first four bytes of a block, the lowest first.
abbrev pub low_word : List ℕ → ℕ
low_word x = quad_u8_to_u32 (byte x 3) (byte x 2) (byte x 1) (byte x 0)

-- The code that validateMIC computes.
unfoldable pub computed_mic : Cipher → List ℕ → GpFrame → ℕ
computed_mic c key f =
    let nonce = compute_nonce f.source_id f.security_frame_counter in
    let a = authenticated f in
    let la = length a % 65536 in
    let auth_data = pad_to_block (u16_get_hi_u8 la ∷ u16_get_lo_u8 la ∷ a) ++ [] in
    let flags : ℕ = 0x49 in
    let b0 = (flags ∷ nonce) ++ (u16_get_lo_u8 0 ∷ u16_get_hi_u8 0 ∷ []) in
    let x0 = replicate 16 0x00 in
    let t = low_word (get_last_xi_aes_cbc c key x0 b0 (pad_to_block auth_data)).0 in
    let a0 = (bit_and flags 0x03 ∷ nonce) ++ (0x00 ∷ 0x00 ∷ []) in
    bit_xor (low_word (c.encrypt key a0)) t

unfoldable pub validate_mic : Cipher → List ℕ → GpFrame → Bool
unfolding computed_mic
validate_mic c key f =
    if f.security != gpd_frm_counter_mic_security
    then false
    else if f.application_id != 0
    then false
    else f.mic == computed_mic c key f
